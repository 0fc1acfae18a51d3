-- ===== src/UserLib/Str/Tokens.antt =====
-- `strtok_r` takes the first token off a string.
use os_agent_lab.Prelude.{
  ℕ, ◌≡◌, ◌≢◌, refl, ap, ◌∙◌, true, false, List, [], ◌∷◌, ◌++◌, Option, none, some, Bool-cases, inl,
  inr, ◌⊎◌, ℕ_discrete, arith,
}
use os_agent_lab.UserLib.Str.{in_set, skip_delims, cut_token, after_token, token_from, strtok_r}

-- The byte stands in the list.
abbrev pub Among : ℕ → List ℕ → Type 0
Among c [] = ⊥
Among c (p ∷ ps) = (p ≡ c) ⊎ Among c ps

in_set-Among : (c : ℕ) (ps : List ℕ) → in_set c ps ≡ true → Among c ps
unfolding in_set
in_set-Among c [] e = cc
in_set-Among c (p ∷ ps) e = elim (ℕ_discrete p c) [
  | yes h ↦ inl h
  | no h ↦ inr (in_set-Among c ps (ground arith))
]

in_set-not_Among : (c : ℕ) (ps : List ℕ) → in_set c ps ≡ false → ¬ Among c ps
unfolding in_set
in_set-not_Among c [] e m = m
in_set-not_Among c (p ∷ ps) e (inl h) = ground arith
in_set-not_Among c (p ∷ ps) e (inr m) = in_set-not_Among c ps (ground arith) m

-- All bytes are delimiters; none is.
abbrev pub AllIn : List ℕ → List ℕ → Type 0
AllIn delim [] = Unit {0}
AllIn delim (c ∷ s) = Among c delim × AllIn delim s

abbrev pub NoneIn : List ℕ → List ℕ → Type 0
NoneIn delim [] = Unit {0}
NoneIn delim (c ∷ s) = (¬ Among c delim) × NoneIn delim s

-- What is behind a token: the end, or a delimiter and the string to go on with.
pub Behind : List ℕ → List ℕ → List ℕ → Type 0
Behind delim [] save = save ≡ []
Behind delim (c ∷ rest) save = Among c delim × (save ≡ rest)

-- The string is some delimiters, the token, which is not empty and has no delimiter, and what is
-- behind it; or delimiters only.
pub Token : List ℕ → List ℕ → Option (List ℕ × List ℕ) → Type 0
Token s delim none = AllIn delim s
Token s delim (some (token, save)) =
    (skipped : List ℕ) × (rest : List ℕ) × (s ≡ skipped ++ (token ++ rest))
    × AllIn delim skipped
    × NoneIn delim token
    × (token ≢ [])
    × Behind delim rest save

Skipped : List ℕ → List ℕ → List ℕ → Type 0
Skipped s delim [] = AllIn delim s
Skipped s delim (c ∷ r) =
    (skipped : List ℕ) × (s ≡ skipped ++ (c ∷ r)) × AllIn delim skipped × (in_set c delim ≡ false)

Skipped-cons :
    (c : ℕ) (s delim r : List ℕ)
    → in_set c delim ≡ true
    → Skipped s delim r
    → Skipped (c ∷ s) delim r
unfolding Skipped
Skipped-cons c s delim [] e all = (in_set-Among c delim e, all)
Skipped-cons c s delim (x ∷ r) e (pre, is, all, first) =
    (c ∷ pre, ap (λ (l : List ℕ). c ∷ l) is, (in_set-Among c delim e, all), first)

skip_delims-Skipped : (s delim : List ℕ) → Skipped s delim (skip_delims s delim)
unfolding skip_delims Skipped
skip_delims-Skipped [] delim = tt
skip_delims-Skipped (c ∷ s) delim = elim (Bool-cases (in_set c delim)) [
  | inl e ↦ rw e (Skipped-cons c s delim (skip_delims s delim) e (skip_delims-Skipped s delim))
  | inr e ↦ rw e ([], refl, tt, e)
]

-- A token up to the first delimiter.
Cut : List ℕ → List ℕ → List ℕ × List ℕ → Type 0
Cut s delim (token, rest) =
    (s ≡ token ++ rest) × NoneIn delim token × Behind delim rest (after_token rest)

Cut-cons :
    (c : ℕ) (s delim : List ℕ) (q : List ℕ × List ℕ)
    → in_set c delim ≡ false
    → Cut s delim q
    → Cut (c ∷ s) delim (c ∷ q.0, q.1)
unfolding Cut
Cut-cons c s delim (token, rest) e (is, no_delim, behind) =
    (ap (λ (l : List ℕ). c ∷ l) is, (in_set-not_Among c delim e, no_delim), behind)

cut_token-Cut : (s delim : List ℕ) → Cut s delim (cut_token s delim)
unfolding cut_token Cut Behind after_token
cut_token-Cut [] delim = (refl, tt, refl)
cut_token-Cut (c ∷ s) delim = elim (Bool-cases (in_set c delim)) [
  | inl e ↦ rw e (refl, tt, (in_set-Among c delim e, refl))
  | inr e ↦ rw e (Cut-cons c s delim (cut_token s delim) e (cut_token-Cut s delim))
]

token_from-Token : (s delim r : List ℕ) → Skipped s delim r → Token s delim (token_from r delim)
unfolding token_from Token Skipped Cut cut_token
token_from-Token s delim [] all = all
token_from-Token s delim (c ∷ r) (skipped, is, all, first) =
    let (cut, no_delim, behind) = cut_token-Cut (c ∷ r) delim in
    (
      skipped,
      (cut_token (c ∷ r) delim).1,
      is ∙ ap (λ (l : List ℕ). skipped ++ l) cut,
      all,
      no_delim,
      rw first (λ h. cc h),
      behind,
    )

-- A call on a string: NULL where there are only delimiters in it; otherwise the string is some
-- delimiters, the token, which is not empty and has none, and either the end or a delimiter with the
-- string that is saved behind it.
pub strtok_r-Token : (s delim : List ℕ) → Token s delim (strtok_r s delim)
unfolding strtok_r
strtok_r-Token s delim =
    token_from-Token s delim (skip_delims s delim) (skip_delims-Skipped s delim)
