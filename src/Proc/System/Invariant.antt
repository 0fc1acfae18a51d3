-- ===== src/Proc/System/Invariant.antt =====
-- What holds in every reachable state of the processes and the scheduler.
use os_agent_lab.Prelude.{
  ℕ, ◌+◌, ◌<◌, ◌≡◌, ◌≢◌, ◌^◌, sym, ap, ◌∙◌, true, Option, none, some, update_ne, arith, subst,
  Result, ok, err, inl, ℕ_discrete,
}
use os_agent_lab.Fd.{Fds}
use os_agent_lab.Proc.{
  Proc, ProcState, Kernel, AddressSpaces, nproc, is_unused, zero_proc, proc_yield, switched_back,
}
use os_agent_lab.Proc.Table.{Live, IsTable-Origin}
use os_agent_lab.Proc.Alloc.{Created, AllocOutcome, proc_alloc-AllocOutcome}
use os_agent_lab.Proc.Fork.{ForkOutcome, proc_fork-ForkOutcome}
use os_agent_lab.Proc.Wait.{WaitOutcome, wait_pass-WaitOutcome}
use os_agent_lab.Proc.System.{Place, Step, Reachable, Located, IsSystem, blank, ready, worked}
use os_agent_lab.Proc.System.Keeps.{
  running-Live, apart_free, dispatch-IsSystem, leave-IsSystem, proc_exit-IsSystem, worked-IsSystem,
  Untouched-IsSystem, Child-IsSystem,
}

module _ {M : Type 0} where
  -- A slot other than the caller's is freed.
  freed-IsSystem :
      (k k' : Kernel M) (p i : ℕ)
      → IsSystem k (Place.process p)
      → (k.procs i).state ≡ ProcState.zombie
      → is_unused (k'.procs i).state ≡ true
      → ((j : ℕ) → j ≢ i → k'.procs j ≡ k.procs j)
      → k'.current ≡ k.current
      → k'.next_pid ≡ k.next_pid
      → IsSystem k' (Place.process p)
  unfolding Located
  freed-IsSystem k k' p i s done free same cur' next =
      let (lt, cur, run, others) = s.located in
      let other : p ≢ i = λ e. cc (sym run ∙ ap (λ (n : ℕ). (k.procs n).state) e, done) in
      let lives : (j : ℕ) → Live (k'.procs j) → k'.procs j ≡ k.procs j =
        λ j l. same j (apart_free k'.procs i j free l) in
      record {
        table =
            IsTable-Origin k.procs k'.procs k.next_pid k'.next_pid 0 s.table (omega (arith, next))
              (λ j jl l. inl (subst Live (lives j l) l, ap (λ (y : Proc). y.pid) (lives j l)))
              (λ j q jl l e.
                s.table.parents j q jl (subst Live (lives j l) l)
                  (ap (λ (y : Proc). y.parent) (sym (lives j l)) ∙ e));
        located = (
          lt,
          cur' ∙ cur,
          ap (λ (y : Proc). y.state) (same p other) ∙ run,
          λ j jl ne e.
              others j jl ne
                (ap (λ (y : Proc). y.state) (sym (lives j (running-Live (k'.procs j) e))) ∙ e),
        );
      }

  -- One process in an empty table.
  single-IsSystem :
      (k : Kernel M) (i : ℕ)
      → i < nproc
      → (k.procs i).pid ≡ 1
      → (k.procs i).parent ≡ none
      → (k.procs i).state ≡ ProcState.runnable
      → ((j : ℕ) → j ≢ i → k.procs j ≡ zero_proc)
      → k.next_pid ≡ 2
      → k.current ≡ none
      → IsSystem k (Place.scheduler 0)
  unfolding Located is_unused
  single-IsSystem k i lt pid parent state others next cur =
      let at : (j : ℕ) → Live (k.procs j) → j ≡ i = λ j l. elim (ℕ_discrete j i) [
        | yes e ↦ e
        | no ne ↦ cc (l, ap (λ (y : Proc). is_unused y.state) (others j ne))
      ] in
      record {
        table = record {
          positive = omega arith;
          pids = λ j jl l.
              let e = ap (λ (n : ℕ). (k.procs n).pid) (at j l) in (omega arith, omega arith);
          distinct = λ j j' jl jl' l l' e. at j l ∙ sym (at j' l');
          parents = λ j q jl l e. cc (ap (λ (n : ℕ). (k.procs n).parent) (at j l) ∙ parent, e);
        };
        located = (
          omega arith,
          cur,
          λ j jl e.
              cc (ap (λ (n : ℕ). (k.procs n).state) (at j (running-Live (k.procs j) e)) ∙ state, e),
        );
      }

module _ {M : Type 0} (mem : AddressSpaces M) (vfs_root : Option ℕ) (kstacks : ℕ → ℕ) where
  fork-IsSystem :
      (k : Kernel M) (p : ℕ) (q : Result ℕ × Kernel M)
      → IsSystem k (Place.process p)
      → ForkOutcome k p q
      → k.next_pid + 1 < 2 ^ 31
      → IsSystem q.1 (Place.process p)
  unfolding ForkOutcome
  fork-IsSystem k p (err e, k') s (eq, same) small = Untouched-IsSystem k k' p s same small
  fork-IsSystem k p (ok pid, k') s (eq, (np, new)) small = Child-IsSystem k k' p np s new

  wait-IsSystem :
      (k k' : Kernel M) (p : ℕ) (pid : Option ℕ) (r : Result (ℕ × ℕ))
      → IsSystem k (Place.process p)
      → WaitOutcome mem k p pid (some r, k')
      → IsSystem k' (Place.process p)
  unfolding WaitOutcome
  wait-IsSystem k k' p pid (ok (n, status)) s
        (i, lt, d, min, at, st, free, same, m, cur, next, fds) =
      freed-IsSystem k k' p i s d.exited free same cur next
  wait-IsSystem k k' p pid (err e) s (eq, same, none_mine) =
      subst (λ (z : Kernel M). IsSystem z (Place.process p)) (sym same) s

  wait_on-IsSystem :
      (k k' : Kernel M) (p : ℕ) (pid : Option ℕ)
      → IsSystem k (Place.process p)
      → WaitOutcome mem k p pid (none, k')
      → IsSystem (switched_back (proc_yield k')) (Place.scheduler (p + 1))
  unfolding WaitOutcome Located
  wait_on-IsSystem k k' p pid s (same, nd, c) =
      let (lt, cur, run, others) = s.located in
      subst (λ (z : Kernel M). IsSystem (switched_back (proc_yield z)) (Place.scheduler (p + 1)))
        (sym same) (leave-IsSystem k p lt cur s.table others)

  Step-IsSystem :
      (k k' : Kernel M) (at at' : Place)
      → Step mem vfs_root kstacks k at k' at'
      → IsSystem k at
      → IsSystem k' at'
  unfolding Located
  Step-IsSystem k k' at at' (Step.skip k1 i lt r) s =
      let (le, cur, idle) = s.located in
      record { table = s.table; located = (omega arith, cur, idle) }
  Step-IsSystem k k' at at' (Step.again k1 i e) s =
      let (le, cur, idle) = s.located in
      record { table = s.table; located = (omega arith, cur, idle) }
  Step-IsSystem k k' at at' (Step.run k1 i lt r) s = dispatch-IsSystem k i lt r s
  Step-IsSystem k k' at at' (Step.yields k1 p) s =
      let (lt, cur, run, others) = s.located in leave-IsSystem k p lt cur s.table others
  Step-IsSystem k k' at at' (Step.forks k1 k2 p tf r small e) s =
      let (lt, cur, run, others) = s.located in
      fork-IsSystem k p (r, k') s
        (subst (ForkOutcome k p) e (
          proc_fork-ForkOutcome mem vfs_root kstacks k p tf cur (running-Live (k.procs p) run)
            small))
        small
  Step-IsSystem k k' at at' (Step.waited k1 k2 p pid r e) s =
      let (lt, cur, run, others) = s.located in
      wait-IsSystem k k' p pid r s
        (subst (WaitOutcome mem k p pid) e (wait_pass-WaitOutcome mem k p pid cur))
  Step-IsSystem k k' at at' (Step.waits k1 k2 p pid e) s =
      let (lt, cur, run, others) = s.located in
      wait_on-IsSystem k k2 p pid s
        (subst (WaitOutcome mem k p pid) e (wait_pass-WaitOutcome mem k p pid cur))
  Step-IsSystem k k' at at' (Step.exits k1 p status) s = proc_exit-IsSystem k p status s
  Step-IsSystem k k' at at' (Step.works k1 p pagetable sz cwd m fds) s =
      worked-IsSystem k p pagetable sz cwd m fds s

  start-IsSystem :
      (m m' : M) (fds fds' : Fds) (i pagetable sz : ℕ) (cwd : Option ℕ) (k : Kernel M)
      → Created (blank m fds) k i
      → IsSystem (ready i (worked i pagetable sz cwd m' fds' k)) (Place.scheduler 0)
  start-IsSystem m m' fds fds' i pagetable sz cwd k new =
      single-IsSystem (ready i (worked i pagetable sz cwd m' fds' k)) i new.slot
        (ground (arith, new.pid)) (ground (arith, new.parent)) (ground arith)
        (λ j ne.
          update_ne (worked i pagetable sz cwd m' fds' k).procs i _ j ne
          ∙ update_ne k.procs i _ j ne
          ∙ new.others j ne)
        (omega (arith, new.next_pid)) new.current

  -- Where the counter of pids is below 2^31 - 1 at each fork, in every reachable state: while the scheduler has control no process is running and there is no
  -- current one; while a process has it, that process is the current one and it alone is running; no
  -- two live processes have the same pid, each pid was handed out, and each parent is a slot of the
  -- table.
  pub Reachable-IsSystem :
      (k : Kernel M) (at : Place) → Reachable mem vfs_root kstacks k at → IsSystem k at
  unfolding AllocOutcome
  Reachable-IsSystem k at (Reachable.start m m' fds fds' i pagetable sz cwd k0 e) =
      start-IsSystem m m' fds fds' i pagetable sz cwd k0 (
        subst (AllocOutcome (blank m fds)) e
          (proc_alloc-AllocOutcome mem vfs_root kstacks (blank m fds)))
  Reachable-IsSystem k at (Reachable.step k0 at0 k1 at1 r s) =
      Step-IsSystem k0 k at0 at s (Reachable-IsSystem k0 at0 r)
