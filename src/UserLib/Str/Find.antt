-- ===== src/UserLib/Str/Find.antt =====
-- `strstr` finds the first occurrence.
use os_agent_lab.Prelude.{
  ℕ, zero, suc, ◌≤◌, ◌<◌, ◌≡◌, refl, ap, ◌∙◌, true, false, List, [], ◌∷◌, ◌++◌, length, Option,
  none, some, ◌==◌, arith, Bool-cases, inl, inr, drop, ap₂,
}
use os_agent_lab.UserLib.Str.{matches, strstr_loop, strstr}

-- `needle` stands at the beginning of `h`.
abbrev pub StartsWith : List ℕ → List ℕ → Type 0
StartsWith h needle = (rest : List ℕ) × (h ≡ needle ++ rest)

matches-StartsWith : (h needle : List ℕ) → matches h needle ≡ true → StartsWith h needle
unfolding matches
matches-StartsWith h [] e = (h, refl)
matches-StartsWith [] (n ∷ ns) e = cc e
matches-StartsWith (h ∷ hs) (n ∷ ns) e =
    let same : h ≡ n = ground (arith, e) in
    let (rest, is) = matches-StartsWith hs ns (ground (arith, e)) in (rest, ap₂ ◌∷◌ same is)

StartsWith-matches : (needle rest : List ℕ) → matches (needle ++ rest) needle ≡ true
unfolding matches
StartsWith-matches [] rest = refl
StartsWith-matches (n ∷ ns) rest =
    let self : (n == n) ≡ true = ground arith in rw self (StartsWith-matches ns rest)

-- What `strstr` may return: a place where the needle stands, with none before it; NULL where it
-- stands nowhere.
pub Finds : List ℕ → List ℕ → Option (List ℕ) → Type 0
Finds haystack needle none = (i : ℕ) → i ≤ length haystack → ¬ StartsWith (drop i haystack) needle
Finds haystack needle (some p) =
    (i : ℕ) × (p ≡ drop i haystack)
    × (i ≤ length haystack)
    × StartsWith p needle
    × ((j : ℕ) → j < i → ¬ StartsWith (drop j haystack) needle)

no_match : (h needle : List ℕ) → matches h needle ≡ false → ¬ StartsWith h needle
no_match h needle e (rest, is) =
    cc (ap (λ (l : List ℕ). matches l needle) is ∙ StartsWith-matches needle rest, e)

Finds-before :
    (h : ℕ) (hs needle : List ℕ) (i : ℕ)
    → matches (h ∷ hs) needle ≡ false
    → ((j : ℕ) → j < i → ¬ StartsWith (drop j hs) needle)
    → (j : ℕ) → j < suc i
    → ¬ StartsWith (drop j (h ∷ hs)) needle
Finds-before h hs needle i e min zero lt = no_match (h ∷ hs) needle e
Finds-before h hs needle i e min (suc j) lt = min j (omega arith)

Finds-cons :
    (h : ℕ) (hs needle : List ℕ) (r : Option (List ℕ))
    → matches (h ∷ hs) needle ≡ false
    → Finds hs needle r
    → Finds (h ∷ hs) needle r
unfolding Finds
Finds-cons h hs needle none e f =
    λ i le. Finds-before h hs needle (suc (length hs)) e (λ j lt. f j (omega arith)) i (omega arith)
Finds-cons h hs needle (some p) e (i, is, le, starts, min) =
    (suc i, is, omega arith, starts, Finds-before h hs needle i e min)

nil_starts : (n : ℕ) (ns : List ℕ) (i : ℕ) → ¬ StartsWith (drop i []) (n ∷ ns)
nil_starts n ns zero (rest, is) = cc is
nil_starts n ns (suc i) (rest, is) = cc is

strstr_loop-Finds :
    (n : ℕ) (ns haystack : List ℕ) → Finds haystack (n ∷ ns) (strstr_loop (n ∷ ns) haystack)
unfolding strstr_loop Finds
strstr_loop-Finds n ns [] = λ i le. nil_starts n ns i
strstr_loop-Finds n ns (h ∷ hs) = elim (Bool-cases (matches (h ∷ hs) (n ∷ ns))) [
  | inl e ↦
      rw e
        (0, refl, omega arith, matches-StartsWith (h ∷ hs) (n ∷ ns) e, λ j lt. absurd (omega arith))
  | inr e ↦ rw e (Finds-cons h hs (n ∷ ns) (strstr_loop (n ∷ ns) hs) e (strstr_loop-Finds n ns hs))
]

-- `strstr` in every case, the empty needle included.
pub strstr-Finds : (haystack needle : List ℕ) → Finds haystack needle (strstr haystack needle)
unfolding strstr Finds
strstr-Finds haystack [] = (0, refl, omega arith, (haystack, refl), λ j lt. absurd (omega arith))
strstr-Finds haystack (n ∷ ns) = strstr_loop-Finds n ns haystack
