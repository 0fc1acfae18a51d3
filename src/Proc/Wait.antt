-- ===== src/Proc/Wait.antt =====
-- What a pass of `proc_wait` collects, and when it reports ECHILD.
use os_agent_lab.Prelude.{
  ℕ, zero, suc, ◌+◌, ◌≤◌, ◌<◌, ◌≡◌, ◌≢◌, refl, sym, ap, Bool, true, false, ◌&&◌, ◌||◌, not, Option,
  none, some, update_ne, arith, ◌==◌, subst, Result, ok, err, echild, Bool-cases, ◌⊎◌, inl, inr,
  ℕ_discrete,
}
use os_agent_lab.Proc.{
  Proc, ProcState, Kernel, AddressSpaces, nproc, is_unused, is_zombie, is_child_of, Search,
  search_children, reap, after_search, pass_from, wait_pass,
}
use os_agent_lab.Proc.Table.{Live}

-- A child of process `p`.
pub record IsChild (procs : ℕ → Proc) (p i : ℕ) : Type 0 where
  pub parent : (procs i).parent ≡ some p
  pub live : Live (procs i)

-- A child that the caller asked for and that has exited; `none` asks for any.
pub record IsDone (procs : ℕ → Proc) (p : ℕ) (pid : Option ℕ) (i : ℕ) : Type 0 where
  pub child : IsChild procs p i
  pub exited : (procs i).state ≡ ProcState.zombie
  pub asked : (n : ℕ) → pid ≡ some n → (procs i).pid ≡ n

-- The tests of the loop, as Booleans.
abbrev mine : (ℕ → Proc) → ℕ → ℕ → Bool
mine procs p i = is_child_of p (procs i).parent && not (is_unused (procs i).state)

abbrev wanted : (ℕ → Proc) → Option ℕ → ℕ → Bool
wanted procs pid i = elim pid [ none ↦ true | some n ↦ (procs i).pid == n ]

is_child_of-some : (p : ℕ) (o : Option ℕ) → is_child_of p o ≡ true → o ≡ some p
unfolding is_child_of
is_child_of-some p none h = cc h
is_child_of-some p (some q) h = let e : q ≡ p = ground (arith, h) in ap some e

mine-IsChild : (procs : ℕ → Proc) (p i : ℕ) → mine procs p i ≡ true → IsChild procs p i
mine-IsChild procs p i h = record {
  parent = is_child_of-some p (procs i).parent (ground (arith, h));
  live = ground (arith, h);
}

IsChild-mine : (procs : ℕ → Proc) (p i : ℕ) → IsChild procs p i → mine procs p i ≡ true
unfolding is_child_of
IsChild-mine procs p i h = rw (ap (is_child_of p) h.parent) (ground (arith, h.live))

is_zombie-lem : (s : ProcState) → is_zombie s ≡ true → s ≡ ProcState.zombie
unfolding is_zombie
is_zombie-lem ProcState.zombie h = refl
is_zombie-lem ProcState.unused h = cc h
is_zombie-lem ProcState.used h = cc h
is_zombie-lem ProcState.runnable h = cc h
is_zombie-lem ProcState.running h = cc h
is_zombie-lem ProcState.sleeping h = cc h

IsDone-tests :
    (procs : ℕ → Proc) (p : ℕ) (pid : Option ℕ) (i : ℕ)
    → mine procs p i ≡ true
    → (wanted procs pid i && is_zombie (procs i).state) ≡ true
    → IsDone procs p pid i
IsDone-tests procs p none i m h = record {
  child = mine-IsChild procs p i m;
  exited = is_zombie-lem (procs i).state h;
  asked = λ n e. cc e;
}
IsDone-tests procs p (some q) i m h = record {
  child = mine-IsChild procs p i m;
  exited = is_zombie-lem (procs i).state (ground (arith, h));
  asked = λ n e. let same : q ≡ n = cc e in ground (arith, h, same);
}

tests-IsDone :
    (procs : ℕ → Proc) (p : ℕ) (pid : Option ℕ) (i : ℕ)
    → IsDone procs p pid i
    → (mine procs p i && (wanted procs pid i && is_zombie (procs i).state)) ≡ true
unfolding is_zombie
tests-IsDone procs p none i d = rw (IsChild-mine procs p i d.child) (ap is_zombie d.exited)
tests-IsDone procs p (some q) i d =
    rw (IsChild-mine procs p i d.child) (ground (arith, d.asked q refl, ap is_zombie d.exited))

-- What a pass over the slots from `lo` to below `hi` found.
Searched : (ℕ → Proc) → ℕ → Option ℕ → ℕ → ℕ → Bool → Search → Type 0
Searched procs p pid lo hi found (Search.collect i) =
    (lo ≤ i) × (i < hi) × IsDone procs p pid i × ((j : ℕ) → lo ≤ j → j < i → ¬ IsDone procs p pid j)
Searched procs p pid lo hi found (Search.exhausted b) =
    ((j : ℕ) → lo ≤ j → j < hi → ¬ IsDone procs p pid j)
    × (b ≡ false → (found ≡ false) × ((j : ℕ) → lo ≤ j → j < hi → ¬ IsChild procs p j))
    × (b ≡ true → (found ≡ true) ⊎ ((j : ℕ) × (j < hi) × IsChild procs p j))

-- A slot that is not collected, in front of a pass.
Searched-cons :
    (procs : ℕ → Proc) (p : ℕ) (pid : Option ℕ) (lo hi : ℕ) (found : Bool) (r : Search)
    → lo < hi
    → (mine procs p lo && (wanted procs pid lo && is_zombie (procs lo).state)) ≡ false
    → Searched procs p pid (lo + 1) hi (found || mine procs p lo) r
    → Searched procs p pid lo hi found r
unfolding Searched
Searched-cons procs p pid lo hi found (Search.collect i) lt skip (a, b, d, min) = (
  omega arith,
  b,
  d,
  λ j jl ji. elim (ℕ_discrete j lo) [
    | yes e ↦ λ done. cc (tests-IsDone procs p pid lo (subst (IsDone procs p pid) e done), skip)
    | no ne ↦ min j (omega (arith, ne)) ji
  ],
)
Searched-cons procs p pid lo hi found (Search.exhausted b) lt skip (none_done, none_mine, any) = (
  λ j jl ji. elim (ℕ_discrete j lo) [
    | yes e ↦ λ done. cc (tests-IsDone procs p pid lo (subst (IsDone procs p pid) e done), skip)
    | no ne ↦ none_done j (omega (arith, ne)) ji
  ],
  λ f.
      let (nothing, later) = none_mine f in
      let here : mine procs p lo ≡ false = ground (arith, nothing) in
      (
        ground (arith, nothing),
        λ j jl ji. elim (ℕ_discrete j lo) [
          | yes e ↦ λ c. cc (IsChild-mine procs p lo (subst (IsChild procs p) e c), here)
          | no ne ↦ later j (omega (arith, ne)) ji
        ],
      ),
  λ t. elim (any t) [
    | inr c ↦ inr c
    | inl e ↦ elim (Bool-cases found) [
      | inl f ↦ inl f
      | inr f ↦ inr (lo, lt, mine-IsChild procs p lo (ground (arith, e, f)))
    ]
  ],
)

and_true : (a b : Bool) → (a && b) ≡ true → (a ≡ true) × (b ≡ true)
and_true a b h = (ground (arith, h), ground (arith, h))

search_children-Searched :
    (left i : ℕ) (found : Bool) (p : ℕ) (pid : Option ℕ) (procs : ℕ → Proc)
    → Searched procs p pid i (i + left) found (search_children left i found p pid procs)
unfolding search_children Searched
search_children-Searched zero i found p pid procs =
    (λ j lo hi. absurd (omega arith), λ f. (f, λ j lo hi. absurd (omega arith)), λ t. inl t)
search_children-Searched (suc left) i found p pid procs =
    let at : i + 1 + left ≡ i + suc left = omega arith in
    let rest =
      subst
        (λ (hi : ℕ).
          Searched procs p pid (i + 1) hi (found || mine procs p i)
            (search_children left (i + 1) (found || mine procs p i) p pid procs))
        at (search_children-Searched left (i + 1) (found || mine procs p i) p pid procs) in
    elim (Bool-cases (mine procs p i && (wanted procs pid i && is_zombie (procs i).state))) [
      | inl hit ↦
          let (m, w) =
            and_true (mine procs p i) (wanted procs pid i && is_zombie (procs i).state) hit in
          rw hit (
            omega arith,
            omega arith,
            IsDone-tests procs p pid i m w,
            λ j lo lt. absurd (omega arith),
          )
      | inr skip ↦ rw skip (
          Searched-cons procs p pid i (i + suc left) found
            (search_children left (i + 1) (found || mine procs p i) p pid procs) (omega arith) skip
            rest)
    ]

module _ {M : Type 0} (mem : AddressSpaces M) where
  -- What a pass comes to: the first child that is done is collected and its slot freed; ECHILD where
  -- the caller has no child; otherwise the caller has to wait. Nothing else changes.
  unfoldable pub WaitOutcome : Kernel M → ℕ → Option ℕ → Option (Result (ℕ × ℕ)) × Kernel M → Type 0
  WaitOutcome k p pid (some (ok (n, status)), k') =
      (i : ℕ) × (i < nproc)
      × IsDone k.procs p pid i
      × ((j : ℕ) → j < i → ¬ IsDone k.procs p pid j)
      × (n ≡ (k.procs i).pid)
      × (status ≡ (k.procs i).exit_status)
      × (is_unused (k'.procs i).state ≡ true)
      × ((j : ℕ) → j ≢ i → k'.procs j ≡ k.procs j)
      × (k'.memory ≡ mem.kfree (k.procs i).tf (mem.uvm_free (k.procs i).pagetable k.memory))
      × (k'.current ≡ k.current)
      × (k'.next_pid ≡ k.next_pid)
      × (k'.fds ≡ k.fds)
  WaitOutcome k p pid (some (err e), k') =
      (e ≡ echild) × (k' ≡ k) × ((j : ℕ) → j < nproc → ¬ IsChild k.procs p j)
  WaitOutcome k p pid (none, k') =
      (k' ≡ k)
      × ((j : ℕ) → j < nproc → ¬ IsDone k.procs p pid j)
      × ((j : ℕ) × (j < nproc) × IsChild k.procs p j)

  after_search-WaitOutcome :
      (k : Kernel M) (p : ℕ) (pid : Option ℕ) (r : Search)
      → Searched k.procs p pid 0 (0 + nproc) false r
      → WaitOutcome k p pid (after_search mem r k)
  unfolding WaitOutcome after_search reap Searched is_unused
  after_search-WaitOutcome k p pid (Search.collect i) (lo, lt, d, min) = (
    i,
    omega arith,
    d,
    λ j ji. min j (omega arith) ji,
    refl,
    refl,
    ground arith,
    λ j ne. update_ne k.procs i _ j ne,
    refl,
    refl,
    refl,
    refl,
  )
  after_search-WaitOutcome k p pid (Search.exhausted false) (nd, nm, any) =
      (refl, refl, λ j lt. (nm refl).1 j (omega arith) (omega arith))
  after_search-WaitOutcome k p pid (Search.exhausted true) (nd, nm, any) = (
    refl,
    λ j lt. nd j (omega arith) (omega arith),
    elim (any refl) [ inl e ↦ cc e | inr (j, lt, c) ↦ (j, omega arith, c) ],
  )

  -- One pass by process `p`, the current one: it returns the pid and the status of the first child that
  -- has exited and was asked for, frees its memory and its slot, and changes no other; or ECHILD, where
  -- `p` has no child; or it has `p` wait, which then has a child and none that could be collected.
  pub wait_pass-WaitOutcome :
      (k : Kernel M) (p : ℕ) (pid : Option ℕ)
      → k.current ≡ some p
      → WaitOutcome k p pid (wait_pass mem pid k)
  unfolding wait_pass
  wait_pass-WaitOutcome k p pid cur =
      subst (λ (o : Option ℕ). WaitOutcome k p pid (pass_from mem o pid k)) (sym cur)
        (after_search-WaitOutcome k p pid (search_children nproc 0 false p pid k.procs)
          (search_children-Searched nproc 0 false p pid k.procs))
