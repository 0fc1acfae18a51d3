-- ===== src/Names/NoCase.antt =====
-- Names compare equal exactly when they are equal up to the case of ASCII letters.
use os_agent_lab.Prelude.{
  ℕ, ◌≡◌, ◌↔◌, refl, ap₂, Bool, true, false, List, [], ◌∷◌, map, arith, ◌==◌, if◌then◌else◌,
}
use os_agent_lab.Names.{lower, name_eq_nocase}

both : (m n : ℕ) (r : Bool) → (if m == n then r else false) ≡ true → (m ≡ n) × (r ≡ true)
both m n r h = ground arith

both-rev : (m n : ℕ) (r : Bool) → m ≡ n → r ≡ true → (if m == n then r else false) ≡ true
both-rev m n r h k = ground arith

sound : (a b : List ℕ) → name_eq_nocase a b ≡ true → map lower a ≡ map lower b
unfolding name_eq_nocase
sound [] [] h = refl
sound [] (y ∷ ys) h = cc
sound (x ∷ xs) [] h = cc
sound (x ∷ xs) (y ∷ ys) h =
    let p : (lower x ≡ lower y) × (name_eq_nocase xs ys ≡ true) =
      both (lower x) (lower y) (name_eq_nocase xs ys) h in
    ap₂ ◌∷◌ p.0 (sound xs ys p.1)

cons-head : {x y : ℕ} {xs ys : List ℕ} → x ∷ xs ≡ y ∷ ys → x ≡ y
cons-head h = cc

cons-tail : {x y : ℕ} {xs ys : List ℕ} → x ∷ xs ≡ y ∷ ys → xs ≡ ys
cons-tail h = cc

complete : (a b : List ℕ) → map lower a ≡ map lower b → name_eq_nocase a b ≡ true
unfolding name_eq_nocase
complete [] [] h = refl
complete [] (y ∷ ys) h = cc
complete (x ∷ xs) [] h = cc
complete (x ∷ xs) (y ∷ ys) h =
    both-rev (lower x) (lower y) (name_eq_nocase xs ys) (cons-head h) (complete xs ys (cons-tail h))

-- `name_eq_nocase` accepts two names exactly when they are equal once upper-case ASCII letters are
-- made lower case.
pub name_eq_nocase_iff : (a b : List ℕ) → (name_eq_nocase a b ≡ true) ↔ (map lower a ≡ map lower b)
name_eq_nocase_iff a b = (sound a b, complete a b)
