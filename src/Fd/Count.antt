-- ===== src/Fd/Count.antt =====
-- How many descriptors refer to a file, and how that number changes with one descriptor.
use os_agent_lab.Prelude.{
  ℕ, zero, suc, ◌+◌, ◌≤◌, ◌<◌, ◌≡◌, List, [], ◌∷◌, Option, none, arith, length, set, get_or,
}
use os_agent_lab.File.Refs.{refers}
use os_agent_lab.Fd.{Table}

abbrev pub count : ℕ → Table → ℕ
count f [] = 0
count f (x ∷ xs) = refers f x + count f xs

-- Over all processes.
abbrev pub total : ℕ → List Table → ℕ
total f [] = 0
total f (t ∷ ts) = count f t + total f ts

-- The number of slots there are.
abbrev pub slots : List Table → ℕ
slots [] = 0
slots (t ∷ ts) = length t + slots ts

pub count-set :
    (f fd : ℕ) (v : Option ℕ) (t : Table)
    → fd < length t
    → count f (set t fd v) + refers f (get_or t fd none) ≡ count f t + refers f v
count-set f fd v [] h = absurd (omega arith)
count-set f zero v (x ∷ xs) h = omega arith
count-set f (suc fd) v (x ∷ xs) h = omega (arith, count-set f fd v xs (omega arith))

pub total-set :
    (f p : ℕ) (t : Table) (ts : List Table)
    → p < length ts
    → total f (set ts p t) + count f (get_or ts p []) ≡ total f ts + count f t
total-set f p t [] h = absurd (omega arith)
total-set f zero t (x ∷ xs) h = omega arith
total-set f (suc p) t (x ∷ xs) h = omega (arith, total-set f p t xs (omega arith))

count-le-length : (f : ℕ) (t : Table) → count f t ≤ length t
count-le-length f [] = omega arith
count-le-length f (x ∷ xs) = ground (arith, count-le-length f xs)

pub total-le-slots : (f : ℕ) (ts : List Table) → total f ts ≤ slots ts
total-le-slots f [] = omega arith
total-le-slots f (t ∷ ts) = omega (arith, count-le-length f t, total-le-slots f ts)

refers-le-count : (f fd : ℕ) (t : Table) → refers f (get_or t fd none) ≤ count f t
refers-le-count f fd [] = omega arith
refers-le-count f zero (x ∷ xs) = omega arith
refers-le-count f (suc fd) (x ∷ xs) = omega (arith, refers-le-count f fd xs)

count-le-total : (f p : ℕ) (ts : List Table) → count f (get_or ts p []) ≤ total f ts
count-le-total f p [] = omega arith
count-le-total f zero (t ∷ ts) = omega arith
count-le-total f (suc p) (t ∷ ts) = omega (arith, count-le-total f p ts)

-- A slot that holds `f` is counted.
pub refers-le-total :
    (f p fd : ℕ) (ts : List Table) → refers f (get_or (get_or ts p []) fd none) ≤ total f ts
refers-le-total f p fd ts =
    omega (arith, refers-le-count f fd (get_or ts p []), count-le-total f p ts)
