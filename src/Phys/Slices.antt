-- ===== src/Phys/Slices.antt =====
-- Stretches of bytes, written from a list and read into one.
use os_agent_lab.Prelude.{
  ℕ, zero, suc, ◌+◌, ◌≤◌, ◌<◌, ◌≡◌, refl, ◌⊎◌, ◌∙◌, ap, ap₂, List, [], ◌∷◌, arith, length, get_or,
}
use os_agent_lab.Phys.{Bytes, store8, slice, write_bytes}
use os_agent_lab.Phys.Laws.{store8_self, store8-ne}

-- Every element is a byte.
abbrev pub ByteList : List ℕ → Type 0
ByteList [] = Unit {0}
ByteList (b ∷ bs) = (b < 256) × ByteList bs

pub write_bytes-outside :
    (bs : List ℕ) (m : Bytes) (a q : ℕ) → (q < a) ⊎ (a + length bs ≤ q) → write_bytes m a bs q ≡ m q
unfolding write_bytes
write_bytes-outside [] m a q h = refl
write_bytes-outside (b ∷ bs) m a q h =
    write_bytes-outside bs (store8 m a b) (a + 1) q (omega arith) ∙ store8-ne m a b q (omega arith)

pub write_bytes-inside :
    (bs : List ℕ) (m : Bytes) (a i : ℕ)
    → ByteList bs
    → i < length bs
    → write_bytes m a bs (a + i) ≡ get_or bs i 0
unfolding write_bytes
write_bytes-inside [] m a i h l = absurd (omega arith)
write_bytes-inside (b ∷ bs) m a zero h l =
    let at : a + 0 ≡ a = omega arith in
    rw at (write_bytes-outside bs (store8 m a b) (a + 1) a (omega arith) ∙ store8_self m a b h.0)
write_bytes-inside (b ∷ bs) m a (suc i) h l =
    let at : a + suc i ≡ a + 1 + i = omega arith in
    rw at (write_bytes-inside bs (store8 m a b) (a + 1) i h.1 (omega arith))

pub length-slice : (n : ℕ) (m : Bytes) (a : ℕ) → length (slice m a n) ≡ n
unfolding slice
length-slice zero m a = refl
length-slice (suc n) m a = ap suc (length-slice n m (a + 1))

pub slice-congr :
    (n : ℕ) (m m' : Bytes) (a : ℕ)
    → ((q : ℕ) → a ≤ q → q < a + n → m q ≡ m' q)
    → slice m a n ≡ slice m' a n
unfolding slice
slice-congr zero m m' a h = refl
slice-congr (suc n) m m' a h =
    ap₂ ◌∷◌ (h a (omega arith) (omega arith))
      (slice-congr n m m' (a + 1) (λ q lo hi. h q (omega arith) (omega arith)))

-- What was written is read back.
pub slice-write_bytes :
    (bs : List ℕ) (m : Bytes) (a : ℕ) → ByteList bs → slice (write_bytes m a bs) a (length bs) ≡ bs
unfolding slice write_bytes
slice-write_bytes [] m a h = refl
slice-write_bytes (b ∷ bs) m a h =
    ap₂ ◌∷◌ (write_bytes-outside bs (store8 m a b) (a + 1) a (omega arith) ∙ store8_self m a b h.0)
      (slice-write_bytes bs (store8 m a b) (a + 1) h.1)
