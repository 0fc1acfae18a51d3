-- ===== src/UserLib/Search/Finds.antt =====
-- `bsearch` finds an element that compares equal, in an ordered array, if there is one.
use os_agent_lab.Prelude.{
  ℕ, zero, suc, ◌+◌, ◌-◌, ◌/◌, ◌≤◌, ◌<◌, ◌≡◌, ◌≢◌, refl, sym, ◌∙◌, inl, inr, List, [], ◌∷◌, Option,
  none, some, ltb, length, get_elem?, add64, sub64, u64_mod, Bool-cases, dec_lt, arith,
}
use os_agent_lab.UserLib.Search.{Sign, below, same, above, by_sign, probe, bsearch_loop, bsearch}

get_elem?-some :
    {A : Type 0} (xs : List A) (i : ℕ) → i < length xs → (a : A) × (get_elem? xs i ≡ some a)
get_elem?-some [] i h = absurd (omega arith)
get_elem?-some (x ∷ xs) zero h = (x, refl)
get_elem?-some (x ∷ xs) (suc i) h = get_elem?-some xs i (omega arith)

get_elem?-lt : {A : Type 0} (xs : List A) (i : ℕ) (a : A) → get_elem? xs i ≡ some a → i < length xs
get_elem?-lt [] i a h = cc
get_elem?-lt (x ∷ xs) zero a h = omega arith
get_elem?-lt (x ∷ xs) (suc i) a h = omega (arith, get_elem?-lt xs i a h)

below_same : Sign.below ≢ Sign.same
below_same h = cc h

above_same : Sign.above ≢ Sign.same
above_same h = cc h

module _ {A : Type 0} (compar : A → Sign) (base : List A) where
  -- The array is ordered for the key: before an element that the key is above, the key is above all,
  -- and behind one that it is below, it is below all.
  pub record IsOrdered : Type 0 where
    pub before :
        (i j : ℕ) (a b : A)
        → i ≤ j
        → get_elem? base i ≡ some a
        → get_elem? base j ≡ some b
        → (compar b ≡ above → compar a ≡ above) × (compar a ≡ below → compar b ≡ below)

  -- The answer is an element that compares equal, or there is none.
  pub Found : Option ℕ → Type 0
  Found (some i) = (a : A) × (get_elem? base i ≡ some a) × (compar a ≡ same)
  Found none = (i : ℕ) (a : A) → get_elem? base i ≡ some a → compar a ≢ same

  -- Every equal element lies between the bounds.
  abbrev Bounded : ℕ → ℕ → Type 0
  Bounded lo hi =
      (i : ℕ) (a : A) → get_elem? base i ≡ some a → compar a ≡ same → (lo ≤ i) × (i < hi)

  module _ (ordered : IsOrdered) (few : length base < u64_mod) where
    -- One round, with the answers for the two halves.
    probe-Found :
        (lo hi mid : ℕ) (a : A) (s : Sign) (lower upper : Option ℕ)
        → get_elem? base mid ≡ some a
        → compar a ≡ s
        → Bounded lo hi
        → (Bounded lo mid → Found lower)
        → (Bounded (mid + 1) hi → Found upper)
        → Found (probe compar base (some a) mid lower upper)
    unfolding probe by_sign
    probe-Found lo hi mid a same lower upper here e bounded low up =
        rw e (unfold Found in (a, here, e))
    probe-Found lo hi mid a below lower upper here e bounded low up = rw e (
        low (λ i b at equal. (
          (bounded i b at equal).0,
          elim (dec_lt i mid) [
            | yes p ↦ p
            | no p ↦
                let b_below = (ordered.before mid i a b (omega arith) here at).1 e in
                absurd (below_same (sym b_below ∙ equal))
          ],
        )))
    probe-Found lo hi mid a above lower upper here e bounded low up = rw e (
        up (λ i b at equal. (
          elim (dec_lt mid i) [
            | yes p ↦ omega arith
            | no p ↦
                let b_above = (ordered.before i mid b a (omega arith) at here).0 e in
                absurd (above_same (sym b_above ∙ equal))
          ],
          (bounded i b at equal).1,
        )))

    bsearch_loop-Found :
        (fuel lo hi : ℕ)
        → hi ≤ length base
        → hi - lo < fuel
        → Bounded lo hi
        → Found (bsearch_loop compar base fuel lo hi)
    unfolding bsearch_loop
    bsearch_loop-Found zero lo hi le enough bounded = absurd (omega arith)
    bsearch_loop-Found (suc fuel) lo hi le enough bounded = elim (Bool-cases (ltb lo hi)) [
      | inr done ↦ rw done (unfold Found in λ i a at e. absurd (ground (arith, bounded i a at e)))
      | inl going ↦
          let mid : ℕ = lo + (hi - lo) / 2 in
          let at : add64 lo (sub64 hi lo / 2) ≡ mid = ground arith in
          let next : add64 mid 1 ≡ mid + 1 = ground arith in
          let (a, here) = get_elem?-some base mid (ground arith) in
          rw (going, at, next, here)
            (probe-Found lo hi mid a (compar a) (bsearch_loop compar base fuel lo mid)
              (bsearch_loop compar base fuel (mid + 1) hi) here refl bounded
              (λ b. bsearch_loop-Found fuel lo mid (ground arith) (ground arith) b)
              (λ b. bsearch_loop-Found fuel (mid + 1) hi le (ground arith) b))
    ]

    -- On an array of fewer than 2 ^ 64 elements that is ordered for the key: `bsearch` returns an
    -- element that compares equal to the key, or NULL, and then no element does.
    pub bsearch-Found : Found (bsearch compar base)
    unfolding bsearch
    bsearch-Found =
        bsearch_loop-Found (suc (length base)) 0 (length base) (omega arith) (omega arith)
          (λ i a at e. (omega arith, get_elem?-lt base i a at))
