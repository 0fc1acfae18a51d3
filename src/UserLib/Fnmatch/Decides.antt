-- ===== src/UserLib/Fnmatch/Decides.antt =====
-- `fnmatch` finds out whether a string matches a pattern.
use os_agent_lab.Prelude.{
  ℕ, ◌≡◌, ◌≢◌, ◌↔◌, ◌⊎◌, inl, inr, refl, Bool, true, List, [], ◌∷◌, some, ℕ_discrete, Bool-cases,
  arith,
}
use os_agent_lab.UserLib.Fnmatch.{
  star, question, match_byte, match_suffix, match_end, match_here, after_star, fnmatch,
}

-- The meaning of a pattern: a `*` stands for any string, a `?` for any byte, any other byte for
-- itself.
pub data Matches : List ℕ → List ℕ → Type 0 where
  done : Matches [] []
  leave : {p : ℕ} {ps s : List ℕ} → p ≡ star → Matches ps s → Matches (p ∷ ps) s
  take : {p c : ℕ} {ps s : List ℕ} → p ≡ star → Matches (p ∷ ps) s → Matches (p ∷ ps) (c ∷ s)
  one :
      {p c : ℕ} {ps s : List ℕ}
      → p ≢ star
      → (p ≡ question) ⊎ (p ≡ c)
      → Matches ps s
      → Matches (p ∷ ps) (c ∷ s)

all : {p : ℕ} (s : List ℕ) → p ≡ star → Matches (p ∷ []) s
all [] e = leave e done
all (c ∷ s) e = take e (all s e)

-- A `*` before a pattern that matches the rest of the string.
module _ {p : ℕ} {ps : List ℕ} (e : p ≡ star) where
  leave_two : {q : ℕ} {s : List ℕ} → q ≡ star → Matches (q ∷ ps) s → Matches (p ∷ q ∷ ps) s
  leave_two f m = leave e m

  drop_two : {q : ℕ} {s : List ℕ} → q ≡ star → Matches (p ∷ q ∷ ps) s → Matches (q ∷ ps) s
  drop_two f (leave _ m) = m
  drop_two f (take _ m) = take f (drop_two f m)
  drop_two f (one no_star _ _) = absurd (no_star e)

-- Soundness and completeness of one step, for a rest `next` of the loop.
module _ {p : ℕ} {ps : List ℕ} (no_star : p ≢ star) where
  match_byte-Matches :
      (s : List ℕ) (next : List ℕ → Bool)
      → ((t : List ℕ) → next t ≡ true → Matches ps t)
      → match_byte p next s ≡ true
      → Matches (p ∷ ps) s
  unfolding match_byte
  match_byte-Matches [] next ih h = cc
  match_byte-Matches (c ∷ s) next ih h = elim (ℕ_discrete p question) [
    | yes e ↦ one no_star (inl e) (ih s (ground arith))
    | no n ↦ elim (ℕ_discrete p c) [
      | yes f ↦ one no_star (inr f) (ih s (ground arith))
      | no f ↦ absurd (ground arith)
    ]
  ]

  Matches-match_byte :
      (s : List ℕ) (next : List ℕ → Bool)
      → ((t : List ℕ) → Matches ps t → next t ≡ true)
      → Matches (p ∷ ps) s
      → match_byte p next s ≡ true
  unfolding match_byte
  Matches-match_byte s next ih (leave e m) = absurd (no_star e)
  Matches-match_byte (c ∷ s) next ih (take e m) = absurd (no_star e)
  Matches-match_byte (c ∷ s) next ih (one n (inl e) m) = ground (arith, ih s m)
  Matches-match_byte (c ∷ s) next ih (one n (inr e) m) = ground (arith, ih s m)

  -- The rest of the pattern starts with no `*`, so it does not match the empty string.
  match_suffix-Matches :
      {q : ℕ} (s : List ℕ) (here : List ℕ → Bool)
      → q ≡ star
      → ((t : List ℕ) → here t ≡ true → Matches (p ∷ ps) t)
      → match_suffix here s ≡ true
      → Matches (q ∷ p ∷ ps) s
  unfolding match_suffix
  match_suffix-Matches [] here e ih h = cc
  match_suffix-Matches (c ∷ s) here e ih h = elim (Bool-cases (here (c ∷ s))) [
    | inl t ↦ leave e (ih (c ∷ s) t)
    | inr f ↦ take e (match_suffix-Matches s here e ih (rw f at h))
  ]

  Matches-match_suffix :
      {q : ℕ} (s : List ℕ) (here : List ℕ → Bool)
      → q ≡ star
      → ((t : List ℕ) → Matches (p ∷ ps) t → here t ≡ true)
      → Matches (q ∷ p ∷ ps) s
      → match_suffix here s ≡ true
  unfolding match_suffix
  Matches-match_suffix [] here e ih (leave _ (leave f m)) = absurd (no_star f)
  Matches-match_suffix (c ∷ s) here e ih (leave _ m) = rw (ih (c ∷ s) m) refl
  Matches-match_suffix (c ∷ s) here e ih (take _ m) = elim (Bool-cases (here (c ∷ s))) [
    | inl t ↦ rw t refl
    | inr f ↦ rw f (Matches-match_suffix s here e ih m)
  ]
  Matches-match_suffix (c ∷ s) here e ih (one n _ m) = absurd (n e)

mutual
  unfolding match_here after_star match_end

  match_here-Matches : (ps s : List ℕ) → match_here ps s ≡ true → Matches ps s
  match_here-Matches [] [] h = done
  match_here-Matches [] (c ∷ s) h = cc
  match_here-Matches (p ∷ ps) s h = elim (ℕ_discrete p star) [
    | yes e ↦ after_star-Matches ps s e (ground arith)
    | no n ↦ match_byte-Matches n s (match_here ps) (match_here-Matches ps) (ground arith)
  ]

  after_star-Matches :
      {q : ℕ} (ps s : List ℕ) → q ≡ star → after_star ps s ≡ true → Matches (q ∷ ps) s
  after_star-Matches [] s e h = all s e
  after_star-Matches (p ∷ ps) s e h = elim (ℕ_discrete p star) [
    | yes f ↦ leave_two e f (after_star-Matches ps s f (ground arith))
    | no n ↦
        match_suffix-Matches n s (match_byte p (match_here ps)) e
          (λ t. match_byte-Matches n t (match_here ps) (match_here-Matches ps)) (ground arith)
  ]

mutual
  unfolding match_here after_star match_end

  Matches-match_here : (ps s : List ℕ) → Matches ps s → match_here ps s ≡ true
  Matches-match_here [] [] m = refl
  Matches-match_here [] (c ∷ s) m = elim m [ ]
  Matches-match_here (p ∷ ps) s m = elim (ℕ_discrete p star) [
    | yes e ↦ ground (arith, Matches-after_star ps s e m)
    | no n ↦ ground (arith, Matches-match_byte n s (match_here ps) (Matches-match_here ps) m)
  ]

  Matches-after_star :
      {q : ℕ} (ps s : List ℕ) → q ≡ star → Matches (q ∷ ps) s → after_star ps s ≡ true
  Matches-after_star [] s e m = refl
  Matches-after_star (p ∷ ps) s e m = elim (ℕ_discrete p star) [
    | yes f ↦ ground (arith, Matches-after_star ps s f (drop_two e f m))
    | no n ↦ ground (
      arith,
      Matches-match_suffix n s (match_byte p (match_here ps)) e
          (λ t. Matches-match_byte n t (match_here ps) (Matches-match_here ps)) m,
    )
  ]

-- `fnmatch` of a pattern and a string, with any flags, returns 0 exactly when the string matches the
-- pattern.
pub fnmatch_iff :
    (ps s : List ℕ) (flags : ℕ) → (fnmatch (some ps) (some s) flags ≡ 0) ↔ Matches ps s
unfolding fnmatch
fnmatch_iff ps s flags =
    ((λ h. match_here-Matches ps s (ground arith)), (λ m. rw (Matches-match_here ps s m) refl))
