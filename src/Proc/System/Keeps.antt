-- ===== src/Proc/System/Keeps.antt =====
-- Every step keeps the table in order and at most one process running.
use os_agent_lab.Prelude.{
  ℕ, ◌+◌, ◌<◌, ◌≡◌, ◌≢◌, refl, sym, ap, ◌∙◌, true, false, Option, none, some, update, update_self,
  update_ne, arith, subst, inl, inr, ◌⊎◌, ◌≤◌, ◌^◌, add32, ℕ_discrete, Bool-cases,
}
use os_agent_lab.Fd.{Fds}
use os_agent_lab.Proc.{
  Proc, ProcState, Kernel, nproc, is_runnable, is_unused, is_running, yield_from, exit_from,
  proc_yield, proc_exit, dispatch, switched_back,
}
use os_agent_lab.Proc.Table.{IsTable, Live, IsTable-Origin, IsTable-update}
use os_agent_lab.Proc.Alloc.{Untouched}
use os_agent_lab.Proc.Fork.{Child}
use os_agent_lab.Proc.System.{Place, Located, IsSystem, worked}

-- A running process is live.
pub running-Live : (x : Proc) → x.state ≡ ProcState.running → Live x
unfolding is_unused
running-Live x e = ap is_unused e

is_runnable-Live : (s : ProcState) → is_runnable s ≡ true → is_unused s ≡ false
unfolding is_runnable is_unused
is_runnable-Live ProcState.runnable h = refl
is_runnable-Live ProcState.unused h = cc h
is_runnable-Live ProcState.used h = refl
is_runnable-Live ProcState.running h = refl
is_runnable-Live ProcState.sleeping h = refl
is_runnable-Live ProcState.zombie h = refl

is_running-Live : (s : ProcState) → is_running s ≡ true → is_unused s ≡ false
unfolding is_running is_unused
is_running-Live ProcState.runnable h = refl
is_running-Live ProcState.unused h = cc h
is_running-Live ProcState.used h = refl
is_running-Live ProcState.running h = refl
is_running-Live ProcState.sleeping h = refl
is_running-Live ProcState.zombie h = refl

-- A slot that is not live is not a live one.
pub apart_free :
    (procs : ℕ → Proc) (i j : ℕ) → is_unused (procs i).state ≡ true → Live (procs j) → j ≢ i
apart_free procs i j free live e = cc (subst (λ (n : ℕ). Live (procs n)) e live, free)

module _ {M : Type 0} where
  pub dispatch-IsSystem :
      (k : Kernel M) (i : ℕ)
      → i < nproc
      → is_runnable (k.procs i).state ≡ true
      → IsSystem k (Place.scheduler i)
      → IsSystem (dispatch i k) (Place.process i)
  unfolding dispatch Located
  dispatch-IsSystem k i lt r s =
      let (le, cur, idle) = s.located in
      let live = is_runnable-Live (k.procs i).state r in
      record {
        table =
            IsTable-update k.procs k.next_pid i (record (k.procs i) { state = ProcState.running })
              s.table (λ l. (live, refl)) (λ p l e. s.table.parents i p lt live e);
        located = (
          lt,
          refl,
          ground arith,
          λ j jl ne e. idle j jl (
              ap (λ (x : Proc). x.state)
                (sym (update_ne k.procs i (record (k.procs i) { state = ProcState.running }) j ne))
              ∙ e),
        );
      }

  -- Every slot but `p` is idle, and so is `p` after `proc_yield`.
  yield_from-IsTable :
      (k : Kernel M) (p : ℕ)
      → p < nproc
      → IsTable k.procs k.next_pid
      → ((j : ℕ) → j < nproc → j ≢ p → (k.procs j).state ≢ ProcState.running)
      → IsTable (yield_from (some p) k).procs (yield_from (some p) k).next_pid
        × ((j : ℕ) → j < nproc → ((yield_from (some p) k).procs j).state ≢ ProcState.running)
  unfolding yield_from is_running
  yield_from-IsTable k p lp t others = elim (Bool-cases (is_running (k.procs p).state)) [
    | inl r ↦ rw r (
      IsTable-update k.procs k.next_pid p (record (k.procs p) { state = ProcState.runnable }) t
          (λ l. (is_running-Live (k.procs p).state r, refl))
          (λ q l e. t.parents p q lp (is_running-Live (k.procs p).state r) e),
      λ j lt. elim (ℕ_discrete j p) [
        | yes at ↦ λ e. cc (
          ap (λ (x : Proc). x.state)
              (ap (update k.procs p (record (k.procs p) { state = ProcState.runnable })) at
                ∙ update_self k.procs p (record (k.procs p) { state = ProcState.runnable })),
          e,
        )
        | no ne ↦ λ e. others j lt ne (
            ap (λ (x : Proc). x.state)
              (sym (update_ne k.procs p (record (k.procs p) { state = ProcState.runnable }) j ne))
            ∙ e)
      ],
    )
    | inr r ↦ rw r (
      t,
      λ j lt. elim (ℕ_discrete j p) [
        | yes at ↦ λ e. cc (ap is_running (sym (ap (λ (n : ℕ). (k.procs n).state) at) ∙ e), r)
        | no ne ↦ others j lt ne
      ],
    )
  ]

  yield_from-current : (k : Kernel M) (o : Option ℕ) → (yield_from o k).current ≡ k.current
  unfolding yield_from
  yield_from-current k none = refl
  yield_from-current k (some p) = ground arith

  -- Control goes back to the scheduler from process `p`, whatever the state it has put itself in.
  pub leave-IsSystem :
      (k : Kernel M) (p : ℕ)
      → p < nproc
      → k.current ≡ some p
      → IsTable k.procs k.next_pid
      → ((j : ℕ) → j < nproc → j ≢ p → (k.procs j).state ≢ ProcState.running)
      → IsSystem (switched_back (proc_yield k)) (Place.scheduler (p + 1))
  unfolding proc_yield switched_back Located
  leave-IsSystem k p lp cur t others =
      let (table, idle) = yield_from-IsTable k p lp t others in
      subst (λ (o : Option ℕ). IsSystem (switched_back (yield_from o k)) (Place.scheduler (p + 1)))
        (sym cur) (record { table = table; located = (omega arith, refl, idle) })

  pub proc_exit-IsSystem :
      (k : Kernel M) (p status : ℕ)
      → IsSystem k (Place.process p)
      → IsSystem (switched_back (proc_yield (proc_exit status k))) (Place.scheduler (p + 1))
  unfolding proc_exit exit_from Located
  proc_exit-IsSystem k p status s =
      let (lt, cur, run, others) = s.located in
      let x : Proc = record (k.procs p) { exit_status = status; state = ProcState.zombie } in
      let live = running-Live (k.procs p) run in
      subst
        (λ (o : Option ℕ).
          IsSystem (switched_back (proc_yield (exit_from o status k))) (Place.scheduler (p + 1)))
        (sym cur)
        (leave-IsSystem (exit_from (some p) status k) p lt cur
          (IsTable-update k.procs k.next_pid p x s.table (λ l. (live, refl))
            (λ q l e. s.table.parents p q lt live e))
          (λ j jl ne e.
            others j jl ne (ap (λ (y : Proc). y.state) (sym (update_ne k.procs p x j ne)) ∙ e)))

  pub worked-IsSystem :
      (k : Kernel M) (p pagetable sz : ℕ) (cwd : Option ℕ) (m : M) (fds : Fds)
      → IsSystem k (Place.process p)
      → IsSystem (worked p pagetable sz cwd m fds k) (Place.process p)
  unfolding Located
  worked-IsSystem k p pagetable sz cwd m fds s =
      let (lt, cur, run, others) = s.located in
      let x : Proc = record (k.procs p) { pagetable = pagetable; sz = sz; cwd = cwd } in
      let live = running-Live (k.procs p) run in
      record {
        table =
            IsTable-update k.procs k.next_pid p x s.table (λ l. (live, refl))
              (λ q l e. s.table.parents p q lt live e);
        located = (
          lt,
          cur,
          ap (λ (y : Proc). y.state) (update_self k.procs p x) ∙ run,
          λ j jl ne e.
              others j jl ne (ap (λ (y : Proc). y.state) (sym (update_ne k.procs p x j ne)) ∙ e),
        );
      }

  pub Untouched-IsSystem :
      (k k' : Kernel M) (p : ℕ)
      → IsSystem k (Place.process p)
      → Untouched k k'
      → k.next_pid + 1 < 2 ^ 31
      → IsSystem k' (Place.process p)
  unfolding Located
  Untouched-IsSystem k k' p s same small =
      let (lt, cur, run, others) = s.located in
      let live = running-Live (k.procs p) run in
      let up : (k'.next_pid ≡ k.next_pid) ⊎ (k'.next_pid ≡ add32 k.next_pid 1)
          → k.next_pid ≤ k'.next_pid =
        λ e. omega (arith, e) in
      record {
        table =
            IsTable-Origin k.procs k'.procs k.next_pid k'.next_pid 0 s.table (up same.next_pid)
              (λ j jl l.
                let was = same.dead j jl l in
                inl (was, ap (λ (y : Proc). y.pid) (same.live j jl was)))
              (λ j q jl l e.
                let was = same.dead j jl l in
                s.table.parents j q jl was
                  (ap (λ (y : Proc). y.parent) (sym (same.live j jl was)) ∙ e));
        located = (
          lt,
          same.current ∙ cur,
          ap (λ (y : Proc). y.state) (same.live p lt live) ∙ run,
          λ j jl ne e.
              let was = same.dead j jl (running-Live (k'.procs j) e) in
              others j jl ne (ap (λ (y : Proc). y.state) (sym (same.live j jl was)) ∙ e),
        );
      }

  pub Child-IsSystem :
      (k k' : Kernel M) (p np : ℕ)
      → IsSystem k (Place.process p)
      → Child k k' p np
      → IsSystem k' (Place.process p)
  unfolding Located
  Child-IsSystem k k' p np s new =
      let (lt, cur, run, others) = s.located in
      let other = apart_free k.procs np p new.was_free (running-Live (k.procs p) run) in
      record {
        table =
            IsTable-Origin k.procs k'.procs k.next_pid k'.next_pid np s.table
              (omega (arith, new.next_pid))
              (λ j jl l. elim (ℕ_discrete j np) [
                | yes at ↦
                    inr (
                      at,
                      ap (λ (n : ℕ). (k'.procs n).pid) at ∙ new.pid,
                      omega (arith, new.next_pid),
                    )
                | no ne ↦
                    inl (subst Live (new.others j ne) l, ap (λ (y : Proc). y.pid) (new.others j ne))
              ])
              (λ j q jl l e. elim (ℕ_discrete j np) [
                | yes at ↦
                    let same : p ≡ q =
                      cc (ap (λ (n : ℕ). (k'.procs n).parent) at ∙ new.parent, e) in
                    omega arith
                | no ne ↦
                    s.table.parents j q jl (subst Live (new.others j ne) l)
                      (ap (λ (y : Proc). y.parent) (sym (new.others j ne)) ∙ e)
              ]);
        located = (
          lt,
          new.current ∙ cur,
          ap (λ (y : Proc). y.state) (new.others p other) ∙ run,
          λ j jl ne e. elim (ℕ_discrete j np) [
            | yes at ↦ cc (ap (λ (n : ℕ). (k'.procs n).state) at ∙ new.state, e)
            | no nn ↦ others j jl ne (ap (λ (y : Proc). y.state) (sym (new.others j nn)) ∙ e)
          ],
        );
      }
