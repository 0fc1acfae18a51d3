-- ===== src/Fat/Modify/Overlay.antt =====
-- The sectors of a disk with bytes written over them.
use os_agent_lab.Prelude.{
  ℕ, zero, suc, ◌+◌, ◌-◌, ◌*◌, ◌≤◌, ◌<◌, ◌≡◌, refl, ap, ◌⊎◌, ◌&&◌, List, [], ◌∷◌, ltb, leb,
  if◌then◌else◌, length, take, drop, get_or, length-take, length-drop, arith,
}
use os_agent_lab.Phys.{Bytes}
use os_agent_lab.Phys.Slices.{ByteList}

-- The sectors of a disk, with `bytes` written over them from byte `a` of the disk on.
unfoldable pub overlay : (ℕ → Bytes) → ℕ → List ℕ → ℕ → Bytes
overlay sec a bytes l i =
    if leb a (l * 512 + i) && ltb (l * 512 + i) (a + length bytes)
    then get_or bytes (l * 512 + i - a) 0
    else sec l i

-- The same bytes in every sector.
abbrev pub Same : (ℕ → Bytes) → (ℕ → Bytes) → Type 0
Same sec sec' = (l i : ℕ) → i < 512 → sec l i ≡ sec' l i

pub get_or-take : (n i : ℕ) (xs : List ℕ) → i < n → get_or (take n xs) i 0 ≡ get_or xs i 0
get_or-take zero i xs h = absurd (omega arith)
get_or-take (suc n) i [] h = refl
get_or-take (suc n) zero (x ∷ xs) h = refl
get_or-take (suc n) (suc i) (x ∷ xs) h = get_or-take n i xs (omega arith)

pub get_or-drop : (n i : ℕ) (xs : List ℕ) → get_or (drop n xs) i 0 ≡ get_or xs (n + i) 0
get_or-drop zero i xs = ap (λ (k : ℕ). get_or xs k 0) (omega arith)
get_or-drop (suc n) i [] = refl
get_or-drop (suc n) i (x ∷ xs) =
    let k : suc n + i ≡ suc (n + i) = omega arith in rw k (get_or-drop n i xs)

pub take-ByteList : (n : ℕ) (xs : List ℕ) → ByteList xs → ByteList (take n xs)
take-ByteList zero xs h = tt
take-ByteList (suc n) [] h = tt
take-ByteList (suc n) (x ∷ xs) h = (h.0, take-ByteList n xs h.1)

pub drop-ByteList : (n : ℕ) (xs : List ℕ) → ByteList xs → ByteList (drop n xs)
drop-ByteList zero xs h = h
drop-ByteList (suc n) [] h = tt
drop-ByteList (suc n) (x ∷ xs) h = drop-ByteList n xs h.1

-- A first part, and the others behind it.
pub overlay-split :
    (sec : ℕ → Bytes) (a b n : ℕ) (bytes : List ℕ)
    → n ≤ length bytes
    → (length bytes ≡ n) ⊎ (b ≡ a + n)
    → Same (overlay (overlay sec a (take n bytes)) b (drop n bytes)) (overlay sec a bytes)
unfolding overlay
overlay-split sec a b n bytes le last l i lt =
    let p : ℕ = l * 512 + i in
    ground (
      arith,
      length-take {0} n bytes,
      length-drop {0} n bytes,
      get_or-take n (p - a) bytes,
      get_or-drop n (p - b) bytes,
      last,
    )
