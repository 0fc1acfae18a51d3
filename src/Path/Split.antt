-- ===== src/Path/Split.antt =====
-- The names that repeated calls of `path_next` yield: the path split at its slashes.
use os_agent_lab.Prelude.{
  ℕ, zero, suc, ◌-◌, ◌≤◌, ◌<◌, ◌≡◌, ◌⊎◌, refl, sym, ap, ap₂, ◌∙◌, inl, inr, false, Option, none,
  some, List, [], ◌∷◌, ◌++◌, ◌==◌, if◌then◌else◌, length, take, arith, Bool-cases,
}
use os_agent_lab.Path.{skip_slashes, scan_name, path_next}

-- A byte put in front of the first piece.
abbrev pub onto_first : ℕ → List (List ℕ) → List (List ℕ)
onto_first c [] = (c ∷ []) ∷ []
onto_first c (w ∷ ws) = (c ∷ w) ∷ ws

-- The pieces of a path between its slashes, empty ones too.
abbrev pub pieces : List ℕ → List (List ℕ)
pieces [] = [] ∷ []
pieces (c ∷ cs) = if c == b'/' then [] ∷ pieces cs else onto_first c (pieces cs)

-- The pieces that are not empty, each cut to `left` bytes.
abbrev pub cut : ℕ → List (List ℕ) → List (List ℕ)
cut left [] = []
cut left ([] ∷ ws) = cut left ws
cut left ((c ∷ w) ∷ ws) = take left (c ∷ w) ∷ cut left ws

-- The names of a path.
abbrev pub names : ℕ → List ℕ → List (List ℕ)
names left p = cut left (pieces p)

skip_slashes-other : (c : ℕ) (cs : List ℕ) → (c == b'/') ≡ false → skip_slashes (c ∷ cs) ≡ c ∷ cs
unfolding skip_slashes
skip_slashes-other c cs e = rw e refl

names-skip_slashes : (left : ℕ) (p : List ℕ) → names left (skip_slashes p) ≡ names left p
unfolding skip_slashes
names-skip_slashes left [] = refl
names-skip_slashes left (c ∷ cs) = elim (Bool-cases (c == b'/')) [
  | inl e ↦ rw e (names-skip_slashes left cs)
  | inr e ↦ ap (names left) (skip_slashes-other c cs e)
]

-- Behind the slashes there is nothing, or a byte that is none.
skip_slashes-cases :
    (p : List ℕ)
    → (skip_slashes p ≡ [])
      ⊎ ((c : ℕ) × (cs : List ℕ) × (skip_slashes p ≡ c ∷ cs) × ((c == b'/') ≡ false))
unfolding skip_slashes
skip_slashes-cases [] = inl refl
skip_slashes-cases (c ∷ cs) = elim (Bool-cases (c == b'/')) [
  | inl e ↦ rw e (skip_slashes-cases cs)
  | inr e ↦ inr (c, cs, skip_slashes-other c cs e, e)
]

-- The first piece of a path is what `scan_name` copies, uncut, and its rest gives the others.
abbrev first_piece : List ℕ → List ℕ
first_piece [] = []
first_piece (c ∷ cs) = if c == b'/' then [] else c ∷ first_piece cs

abbrev others : List ℕ → List (List ℕ)
others [] = []
others (c ∷ cs) = if c == b'/' then pieces cs else others cs

pieces-split : (p : List ℕ) → pieces p ≡ first_piece p ∷ others p
pieces-split [] = refl
pieces-split (c ∷ cs) = elim (Bool-cases (c == b'/')) [
  | inl e ↦ rw e refl
  | inr e ↦ rw (e, pieces-split cs) refl
]

scan_name-first : (left : ℕ) (p : List ℕ) → (scan_name left p).0 ≡ take left (first_piece p)
unfolding scan_name
scan_name-first zero [] = refl
scan_name-first (suc left) [] = refl
scan_name-first zero (c ∷ cs) = elim (Bool-cases (c == b'/')) [
  | inl e ↦ rw e refl
  | inr e ↦ rw e (scan_name-first zero cs)
]
scan_name-first (suc left) (c ∷ cs) = elim (Bool-cases (c == b'/')) [
  | inl e ↦ rw e refl
  | inr e ↦ rw e (ap (λ w. c ∷ w) (scan_name-first left cs))
]

scan_name-rest : (left cap : ℕ) (p : List ℕ) → names cap (scan_name left p).1 ≡ cut cap (others p)
unfolding scan_name
scan_name-rest left cap [] = refl
scan_name-rest zero cap (c ∷ cs) = elim (Bool-cases (c == b'/')) [
  | inl e ↦ rw e (rw e refl)
  | inr e ↦ rw e (scan_name-rest zero cap cs)
]
scan_name-rest (suc left) cap (c ∷ cs) = elim (Bool-cases (c == b'/')) [
  | inl e ↦ rw e (rw e refl)
  | inr e ↦ rw e (scan_name-rest left cap cs)
]

scan_name-shorter : (left : ℕ) (p : List ℕ) → length (scan_name left p).1 ≤ length p
unfolding scan_name
scan_name-shorter left [] = omega arith
scan_name-shorter zero (c ∷ cs) = elim (Bool-cases (c == b'/')) [
  | inl e ↦ rw e (omega arith)
  | inr e ↦ rw e (omega (arith, scan_name-shorter zero cs))
]
scan_name-shorter (suc left) (c ∷ cs) = elim (Bool-cases (c == b'/')) [
  | inl e ↦ rw e (omega arith)
  | inr e ↦ rw e (omega (arith, scan_name-shorter left cs))
]

skip_slashes-shorter : (p : List ℕ) → length (skip_slashes p) ≤ length p
unfolding skip_slashes
skip_slashes-shorter [] = omega arith
skip_slashes-shorter (c ∷ cs) = elim (Bool-cases (c == b'/')) [
  | inl e ↦ rw e (omega (arith, skip_slashes-shorter cs))
  | inr e ↦ rw e (omega arith)
]

scan_name-after :
    (left c : ℕ) (cs : List ℕ)
    → (c == b'/') ≡ false
    → length (scan_name left (c ∷ cs)).1 ≤ length cs
unfolding scan_name
scan_name-after zero c cs e = rw e (scan_name-shorter zero cs)
scan_name-after (suc left) c cs e = rw e (scan_name-shorter left cs)

-- What `path_next` returns, of names cut to `left` bytes.
abbrev pub NextOutcome : ℕ → List ℕ → Option (List ℕ × List ℕ) → Type 0
NextOutcome left p r =
    ((r ≡ none) × (names left p ≡ []))
    ⊎ ((n : List ℕ) × (p' : List ℕ) × (r ≡ some (n, p'))
        × (names left p ≡ n ∷ names left p')
        × (length p' < length p))

module _ (left c : ℕ) (cs : List ℕ) (e : (c == b'/') ≡ false) where
  named : names left (c ∷ cs) ≡ (scan_name left (c ∷ cs)).0 ∷ names left (scan_name left (c ∷ cs)).1
  named =
      let first : first_piece (c ∷ cs) ≡ c ∷ first_piece cs = rw e refl in
      ap (cut left) (pieces-split (c ∷ cs))
      ∙ ap (λ w. cut left (w ∷ others (c ∷ cs))) first
      ∙ ap₂ (λ n ws. n ∷ ws) (ap (take left) (sym first) ∙ sym (scan_name-first left (c ∷ cs)))
          (sym (scan_name-rest left left (c ∷ cs)))

  shorter : length (scan_name left (c ∷ cs)).1 ≤ length cs
  shorter = scan_name-after left c cs e

-- `path_next` returns NULL where the path has no name left; otherwise the first name of the path,
-- and a shorter path that has the others.
pub path_next-NextOutcome :
    (p : List ℕ) (name_len : ℕ) → NextOutcome (name_len - 1) p (path_next p name_len)
unfolding path_next
path_next-NextOutcome p name_len = elim (skip_slashes-cases p) [
  | inl e ↦ inl (rw e refl, sym (names-skip_slashes (name_len - 1) p) ∙ ap (names (name_len - 1)) e)
  | inr (c, cs, e, ne) ↦
      let left : ℕ = name_len - 1 in
      let r : List ℕ × List ℕ = scan_name left (c ∷ cs) in
      let short : suc (length cs) ≤ length p = omega (arith, skip_slashes-shorter p, ap length e) in
      inr (
        r.0,
        r.1,
        rw e refl,
        sym (names-skip_slashes left p) ∙ ap (names left) e ∙ named left c cs ne,
        omega (arith, short, shorter left c cs ne),
      )
]

onto_first-append :
    (c : ℕ) (p : List ℕ) (xs : List (List ℕ))
    → onto_first c (pieces p ++ xs) ≡ onto_first c (pieces p) ++ xs
onto_first-append c p xs = rw (pieces-split p) refl

pieces-join : (p q : List ℕ) → pieces (p ++ b'/' ∷ q) ≡ pieces p ++ pieces q
pieces-join [] q = refl
pieces-join (c ∷ cs) q = elim (Bool-cases (c == b'/')) [
  | inl e ↦ rw e (ap (λ ws. [] ∷ ws) (pieces-join cs q))
  | inr e ↦ rw e (ap (onto_first c) (pieces-join cs q) ∙ onto_first-append c cs (pieces q))
]

cut-append : (left : ℕ) (xs ys : List (List ℕ)) → cut left (xs ++ ys) ≡ cut left xs ++ cut left ys
cut-append left [] ys = refl
cut-append left ([] ∷ xs) ys = cut-append left xs ys
cut-append left ((c ∷ w) ∷ xs) ys = ap (λ ws. take left (c ∷ w) ∷ ws) (cut-append left xs ys)

-- A slash between two paths: the names of the one, then those of the other.
pub names-join :
    (left : ℕ) (p q : List ℕ) → names left (p ++ b'/' ∷ q) ≡ names left p ++ names left q
names-join left p q = ap (cut left) (pieces-join p q) ∙ cut-append left (pieces p) (pieces q)

-- Whether a path has names left shows behind its slashes.
pub skip_slashes-names :
    (left : ℕ) (p : List ℕ)
    → ((skip_slashes p ≡ []) × (names left p ≡ []))
      ⊎ ((c : ℕ) × (cs : List ℕ) × (n : List ℕ) × (ns : List (List ℕ)) × (skip_slashes p ≡ c ∷ cs)
          × (names left p ≡ n ∷ ns)
          × (names left (skip_slashes p) ≡ names left p)
          × (length (skip_slashes p) ≤ length p))
skip_slashes-names left p = elim (skip_slashes-cases p) [
  | inl e ↦ inl (e, sym (names-skip_slashes left p) ∙ ap (names left) e)
  | inr (c, cs, e, ne) ↦ inr (
    c,
    cs,
    (scan_name left (c ∷ cs)).0,
    names left (scan_name left (c ∷ cs)).1,
    e,
    sym (names-skip_slashes left p) ∙ ap (names left) e ∙ named left c cs ne,
    names-skip_slashes left p,
    skip_slashes-shorter p,
  )
]
