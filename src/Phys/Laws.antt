-- ===== src/Phys/Laws.antt =====
-- What a load sees of a store, a memset and a memcpy.
use os_agent_lab.Prelude.{
  ℕ, zero, suc, ◌+◌, ◌-◌, ◌*◌, ◌/◌, ◌%◌, ◌≤◌, ◌<◌, ◌≡◌, ◌≢◌, refl, ◌⊎◌, inl, inr, ◌∙◌, arith,
  u64_mod, Bool-cases, ◌==◌, ap,
}
use os_agent_lab.Phys.{Bytes, store8, byte_of, load64, store64, memset, memcpy}

-- Every byte of memory is one.
abbrev pub AreBytes : Bytes → Type 0
AreBytes m = (q : ℕ) → m q < 256

-- The ranges [p, p + n) and [q, q + k) have no address in common.
abbrev pub Apart : ℕ → ℕ → ℕ → ℕ → Type 0
Apart p n q k = (p + n ≤ q) ⊎ (q + k ≤ p)

store64-inside : (m : Bytes) (a v i q : ℕ) → i < 8 → q ≡ a + i → store64 m a v q ≡ byte_of v i
unfolding store64
store64-inside m a v i q h e =
    let same : q - a ≡ i = omega arith in ground (arith, ap (byte_of v) same)

-- Eight bytes make up the word that they were cut from.
byte_of-sum :
    (v : ℕ)
    → v < u64_mod
    → byte_of v 0
        + 256 * byte_of v 1
        + 0x10000 * byte_of v 2
        + 0x1000000 * byte_of v 3
        + 0x100000000 * byte_of v 4
        + 0x10000000000 * byte_of v 5
        + 0x1000000000000 * byte_of v 6
        + 0x100000000000000 * byte_of v 7
      ≡ v
unfolding byte_of
byte_of-sum v h = omega arith

-- A word that was stored is read back.
pub load64-store64_self : (m : Bytes) (a v : ℕ) → v < u64_mod → load64 (store64 m a v) a ≡ v
unfolding load64
load64-store64_self m a v h = omega (
  arith,
  byte_of-sum v h,
  store64-inside m a v 0 a (omega arith) (omega arith),
  store64-inside m a v 1 (a + 1) (omega arith) refl,
  store64-inside m a v 2 (a + 2) (omega arith) refl,
  store64-inside m a v 3 (a + 3) (omega arith) refl,
  store64-inside m a v 4 (a + 4) (omega arith) refl,
  store64-inside m a v 5 (a + 5) (omega arith) refl,
  store64-inside m a v 6 (a + 6) (omega arith) refl,
  store64-inside m a v 7 (a + 7) (omega arith) refl,
)

byte_of-lt : (v i : ℕ) → byte_of v i < 256
unfolding byte_of
byte_of-lt v zero = omega arith
byte_of-lt v (suc i) = byte_of-lt (v / 256) i

pub store64-outside : (m : Bytes) (a v q : ℕ) → (q < a) ⊎ (a + 8 ≤ q) → store64 m a v q ≡ m q
unfolding store64
store64-outside m a v q h = ground arith

pub load64-congr :
    (m m' : Bytes) (a : ℕ) → ((q : ℕ) → a ≤ q → q < a + 8 → m q ≡ m' q) → load64 m a ≡ load64 m' a
unfolding load64
load64-congr m m' a h = omega (
  arith,
  h a (omega arith) (omega arith),
  h (a + 1) (omega arith) (omega arith),
  h (a + 2) (omega arith) (omega arith),
  h (a + 3) (omega arith) (omega arith),
  h (a + 4) (omega arith) (omega arith),
  h (a + 5) (omega arith) (omega arith),
  h (a + 6) (omega arith) (omega arith),
  h (a + 7) (omega arith) (omega arith),
)

-- A word apart from the one stored is unchanged.
pub load64-store64_disjoint :
    (m : Bytes) (a v b : ℕ) → Apart a 8 b 8 → load64 (store64 m a v) b ≡ load64 m b
load64-store64_disjoint m a v b h =
    load64-congr (store64 m a v) m b (λ q lo hi. store64-outside m a v q (omega arith))

pub memset-outside : (m : Bytes) (p c n q : ℕ) → (q < p) ⊎ (p + n ≤ q) → memset m p c n q ≡ m q
unfolding memset store8
memset-outside m p c zero q h = refl
memset-outside m p c (suc n) q h =
    memset-outside (store8 m p c) (p + 1) c n q (omega arith) ∙ ground arith

pub memset-inside : (m : Bytes) (p c n q : ℕ) → p ≤ q → q < p + n → memset m p c n q ≡ c % 256
unfolding memset store8
memset-inside m p c zero q h k = absurd (omega arith)
memset-inside m p c (suc n) q h k = elim (Bool-cases (q == p)) [
  | inl e ↦ memset-outside (store8 m p c) (p + 1) c n q (ground arith) ∙ rw e
  | inr e ↦ memset-inside (store8 m p c) (p + 1) c n q (ground arith) (omega arith)
]

-- A word inside a zeroed block is 0.
pub load64-memset_zero :
    (m : Bytes) (p n a : ℕ) → p ≤ a → a + 8 ≤ p + n → load64 (memset m p 0 n) a ≡ 0
unfolding load64
load64-memset_zero m p n a h k =
    load64-congr (memset m p 0 n) (λ _. 0) a
      (λ q lo hi. memset-inside m p 0 n q (omega arith) (omega arith))

-- A word apart from the block is unchanged.
pub load64-memset_disjoint :
    (m : Bytes) (p c n a : ℕ) → Apart p n a 8 → load64 (memset m p c n) a ≡ load64 m a
load64-memset_disjoint m p c n a h =
    load64-congr (memset m p c n) m a (λ q lo hi. memset-outside m p c n q (omega arith))

pub memcpy-outside : (m : Bytes) (d s n q : ℕ) → (q < d) ⊎ (d + n ≤ q) → memcpy m d s n q ≡ m q
unfolding memcpy store8
memcpy-outside m d s zero q h = refl
memcpy-outside m d s (suc n) q h =
    memcpy-outside (store8 m d (m s)) (d + 1) (s + 1) n q (omega arith) ∙ ground arith

pub store8_self : (m : Bytes) (d v : ℕ) → v < 256 → store8 m d v d ≡ v
unfolding store8
store8_self m d v h = ground arith

pub store8-ne : (m : Bytes) (d v q : ℕ) → q ≢ d → store8 m d v q ≡ m q
unfolding store8
store8-ne m d v q h = ground arith

store8-AreBytes : (m : Bytes) (d v : ℕ) → AreBytes m → AreBytes (store8 m d v)
unfolding store8
store8-AreBytes m d v h q = ground (arith, h q)

-- Between blocks that do not overlap, byte `i` of the target is byte `i` of the source.
pub memcpy-inside :
    (m : Bytes) (d s n i : ℕ)
    → AreBytes m
    → Apart d n s n
    → i < n
    → memcpy m d s n (d + i) ≡ m (s + i)
unfolding memcpy
memcpy-inside m d s zero i h k l = absurd (omega arith)
memcpy-inside m d s (suc n) zero h k l =
    let at : d + 0 ≡ d = omega arith in
    let from : s + 0 ≡ s = omega arith in
    rw (at, from)
      (memcpy-outside (store8 m d (m s)) (d + 1) (s + 1) n d (omega arith)
        ∙ store8_self m d (m s) (h s))
memcpy-inside m d s (suc n) (suc i) h k l =
    let at : d + suc i ≡ d + 1 + i = omega arith in
    let from : s + suc i ≡ s + 1 + i = omega arith in
    rw (at, from)
      (memcpy-inside (store8 m d (m s)) (d + 1) (s + 1) n i (store8-AreBytes m d (m s) h)
          (omega arith) (omega arith)
        ∙ store8-ne m d (m s) (s + 1 + i) (omega arith))

pub store64-AreBytes : (m : Bytes) (a v : ℕ) → AreBytes m → AreBytes (store64 m a v)
unfolding store64
store64-AreBytes m a v h q = ground (arith, h q, byte_of-lt v (q - a))

pub memset-AreBytes : (m : Bytes) (p c n : ℕ) → AreBytes m → AreBytes (memset m p c n)
unfolding memset
memset-AreBytes m p c zero h = h
memset-AreBytes m p c (suc n) h =
    memset-AreBytes (store8 m p c) (p + 1) c n (store8-AreBytes m p c h)

pub memcpy-AreBytes : (m : Bytes) (d s n : ℕ) → AreBytes m → AreBytes (memcpy m d s n)
unfolding memcpy
memcpy-AreBytes m d s zero h = h
memcpy-AreBytes m d s (suc n) h =
    memcpy-AreBytes (store8 m d (m s)) (d + 1) (s + 1) n (store8-AreBytes m d (m s) h)
