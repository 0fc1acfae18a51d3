-- ===== src/Proc/System/Schedule.antt =====
-- The scheduler's loop comes to a process that is ready.
use os_agent_lab.Prelude.{
  ℕ, zero, suc, ◌+◌, ◌-◌, dec_le, ◌≤◌, ◌<◌, ◌≡◌, ◌≢◌, refl, ap, false, sym, true, Option, arith,
  ◌⊎◌, inl, inr, Bool-cases, subst,
}
use os_agent_lab.Proc.{Kernel, AddressSpaces, nproc, is_runnable, dispatch}
use os_agent_lab.Proc.System.{Place, Step}

module _ {M : Type 0} where
  -- Process `p` is the next that is ready, from slot `i` on and around the table: it is switched to,
  -- and what is ready from `i` on or, where `p` stands before `i`, before `p` comes no earlier.
  pub record IsNext (k : Kernel M) (i p : ℕ) (k' : Kernel M) : Type 0 where
    pub slot : p < nproc
    pub was_ready : is_runnable (k.procs p).state ≡ true
    pub switched : k' ≡ dispatch p k
    pub ahead :
        (r : ℕ) → r < nproc → is_runnable (k.procs r).state ≡ true → i ≤ r → (i ≤ p) × (p ≤ r)
    pub behind :
        (r : ℕ) → r < nproc → is_runnable (k.procs r).state ≡ true → r < i → (i ≤ p) ⊎ (p ≤ r)

module _ {M : Type 0} (mem : AddressSpaces M) (vfs_root : Option ℕ) (kstacks : ℕ → ℕ) where
  -- Several steps, each from the scheduler's loop.
  pub data Scans : Kernel M → Place → Kernel M → Place → Type 0 where
    done : (k : Kernel M) (at : Place) → Scans k at k at
    more :
        (k k1 k' : Kernel M) (i : ℕ) (at1 at' : Place)
        → Step mem vfs_root kstacks k (Place.scheduler i) k1 at1
        → Scans k1 at1 k' at'
        → Scans k (Place.scheduler i) k' at'

  -- The loop goes from slot `i` to slot `q` without a process in between, and switches to `q`.
  pub record Picks (k : Kernel M) (i q : ℕ) (k' : Kernel M) : Type 0 where
    pub slot : q < nproc
    pub was_ready : is_runnable (k.procs q).state ≡ true
    pub runs : Scans k (Place.scheduler i) k' (Place.process q)

  -- From `i` on, the loop picks a slot before `i + n`, or comes to it.
  pass :
      (n i : ℕ) (k : Kernel M)
      → i + n ≤ nproc
      → ((q : ℕ) × Picks k i q (dispatch q k) × (i ≤ q) × (q < i + n))
        ⊎ ((k' : Kernel M) (at : Place)
            → Scans k (Place.scheduler (i + n)) k' at
            → Scans k (Place.scheduler i) k' at)
  pass zero i k le =
      let at : i + 0 ≡ i = omega arith in
      inr (λ k' p r. subst (λ (j : ℕ). Scans k (Place.scheduler j) k' p) at r)
  pass (suc n) i k le =
      let at : i + 1 + n ≡ i + suc n = omega arith in
      elim (Bool-cases (is_runnable (k.procs i).state)) [
        | inl r ↦ inl (
          i,
          record {
            slot = omega arith;
            was_ready = r;
            runs =
                Scans.more k (dispatch i k) (dispatch i k) i (Place.process i) (Place.process i)
                  (Step.run k i (omega arith) r) (Scans.done (dispatch i k) (Place.process i));
          },
          omega arith,
          omega arith,
        )
        | inr r ↦
            let lt : i < nproc = omega arith in
            let skip : Step mem vfs_root kstacks k (Place.scheduler i) k (Place.scheduler (i + 1)) =
              Step.skip k i lt r in
            elim (pass n (i + 1) k (omega arith)) [
              | inl (q, picks, lo, hi) ↦ inl (
                q,
                record {
                  slot = picks.slot;
                  was_ready = picks.was_ready;
                  runs =
                      Scans.more k k (dispatch q k) i (Place.scheduler (i + 1)) (Place.process q)
                        skip picks.runs;
                },
                omega arith,
                omega arith,
              )
              | inr rest ↦ inr (λ k' p r'.
                  Scans.more k k k' i (Place.scheduler (i + 1)) p skip
                    (rest k' p (subst (λ (j : ℕ). Scans k (Place.scheduler j) k' p) (sym at) r')))
            ]
      ]

  -- A ready slot at or after `i` is passed by none.
  up_to :
      (n i r : ℕ) (k : Kernel M)
      → i + n ≡ r
      → r < nproc
      → is_runnable (k.procs r).state ≡ true
      → (q : ℕ) × Picks k i q (dispatch q k) × (q ≤ r)
  up_to n i r k e lt ready = elim (pass n i k (omega arith)) [
    | inl (q, picks, lo, hi) ↦ (q, picks, omega arith)
    | inr rest ↦ (
      r,
      record {
        slot = lt;
        was_ready = ready;
        runs = rest (dispatch r k) (Place.process r) (
            subst (λ (j : ℕ). Scans k (Place.scheduler j) (dispatch r k) (Place.process r)) (sym e)
              (Scans.more k (dispatch r k) (dispatch r k) r (Place.process r) (Place.process r)
                (Step.run k r lt ready) (Scans.done (dispatch r k) (Place.process r))));
      },
      omega arith,
    )
  ]

  some_pick :
      (k : Kernel M) (i r : ℕ)
      → i ≤ nproc
      → r < nproc
      → is_runnable (k.procs r).state ≡ true
      → (q : ℕ) × Picks k i q (dispatch q k)
  some_pick k i r le lt ready = elim (dec_le i r) [
    | yes h ↦ let (q, picks, qr) = up_to (r - i) i r k (omega arith) lt ready in (q, picks)
    | no h ↦
        let n : i + (nproc - i) ≡ nproc = omega arith in
        elim (pass (nproc - i) i k (omega arith)) [
          | inl (q, picks, lo, hi) ↦ (q, picks)
          | inr rest ↦
              let (q, picks, qr) = up_to r 0 r k (omega arith) lt ready in
              (
                q,
                record {
                  slot = picks.slot;
                  was_ready = picks.was_ready;
                  runs = rest (dispatch q k) (Place.process q) (
                      subst
                        (λ (j : ℕ). Scans k (Place.scheduler j) (dispatch q k) (Place.process q))
                        (sym n)
                        (Scans.more k k (dispatch q k) nproc (Place.scheduler 0) (Place.process q)
                          (Step.again k nproc refl) picks.runs));
                },
              )
        ]
  ]

  -- What a scan comes to: it stays at a process that it has switched to, and the first it switches to
  -- is the next.
  Passes : Kernel M → Place → Kernel M → Place → Type 0
  Passes k (Place.process q) k' at = (k' ≡ k) × (at ≡ Place.process q)
  Passes k (Place.scheduler i) k' (Place.process p) = IsNext k i p k'
  Passes k (Place.scheduler i) k' (Place.scheduler j) = Unit {0}

  skip-IsNext :
      (k k' : Kernel M) (i p : ℕ)
      → i < nproc
      → is_runnable (k.procs i).state ≡ false
      → IsNext k (i + 1) p k'
      → IsNext k i p k'
  skip-IsNext k k' i p lt idle next =
      let other : (r : ℕ) → is_runnable (k.procs r).state ≡ true → r ≢ i =
        λ r ready e. cc (ap (λ (n : ℕ). is_runnable (k.procs n).state) e, ready, idle) in
      record {
        slot = next.slot;
        was_ready = next.was_ready;
        switched = next.switched;
        ahead = λ r l ready le. omega (arith, next.ahead r l ready (omega (arith, other r ready)));
        behind = λ r l ready b. elim (next.behind r l ready (omega arith)) [
          | inl past ↦ inl (omega arith)
          | inr before ↦ inr before
        ];
      }

  again-IsNext : (k k' : Kernel M) (p : ℕ) → IsNext k 0 p k' → IsNext k nproc p k'
  again-IsNext k k' p next = record {
    slot = next.slot;
    was_ready = next.was_ready;
    switched = next.switched;
    ahead = λ r l ready le. absurd (omega arith);
    behind = λ r l ready b. inr (next.ahead r l ready (omega arith)).1;
  }

  Step-Passes :
      (k k' : Kernel M) (i : ℕ) (k1 : Kernel M) (at1 at' : Place)
      → Step mem vfs_root kstacks k (Place.scheduler i) k1 at1
      → Passes k1 at1 k' at'
      → Passes k (Place.scheduler i) k' at'
  unfolding Passes
  Step-Passes k k' i k1 at1 (Place.scheduler j) s h = tt
  Step-Passes k k' i k1 at1 (Place.process p) (Step.skip k2 i2 lt idle) h =
      skip-IsNext k k' i p lt idle h
  Step-Passes k k' i k1 at1 (Place.process p) (Step.again k2 i2 e) h =
      subst (λ (n : ℕ). IsNext k n p k') (sym e) (again-IsNext k k' p h)
  Step-Passes k k' i k1 at1 (Place.process p) (Step.run k2 i2 lt ready) (same, at) =
      let here : i ≡ p = cc at in
      subst (λ (n : ℕ). IsNext k i n k') here
        (record {
          slot = lt;
          was_ready = ready;
          switched = same;
          ahead = λ r l ready' le. (omega arith, le);
          behind = λ r l ready' b. inl (omega arith);
        })

  Scans-Passes : (k k' : Kernel M) (at at' : Place) → Scans k at k' at' → Passes k at k' at'
  unfolding Passes
  Scans-Passes k k' (Place.process q) at' (Scans.done k1 at1) = (refl, refl)
  Scans-Passes k k' (Place.scheduler i) at' (Scans.done k1 at1) = tt
  Scans-Passes k k' at at' (Scans.more k1 k2 k3 i at1 at2 s rest) =
      Step-Passes k k' i k2 at1 at' s (Scans-Passes k2 k' at1 at' rest)

  -- While process `r` is ready, the scheduler comes from any slot `i` on, with no process in between,
  -- to a switch to a ready process; and whatever it switches to first is ready and is the next one: no
  -- process that is ready at or after `i` is passed over, nor, behind the end of the table, one before
  -- `i`.
  pub scheduler-Picks :
      (k : Kernel M) (i r : ℕ)
      → i ≤ nproc
      → r < nproc
      → is_runnable (k.procs r).state ≡ true
      → ((q : ℕ) × Picks k i q (dispatch q k))
        × ((p : ℕ) (k' : Kernel M)
            → Scans k (Place.scheduler i) k' (Place.process p)
            → IsNext k i p k')
  unfolding Passes
  scheduler-Picks k i r le lt ready = (
    some_pick k i r le lt ready,
    λ p k' scan. Scans-Passes k k' (Place.scheduler i) (Place.process p) scan,
  )
