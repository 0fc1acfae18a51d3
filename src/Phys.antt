-- ===== src/Phys.antt =====
-- Physical memory as the kernel addresses it: a byte at each address, with the loads, stores and
-- block operations that mm.c, vm.c and string.c make of it (GPT-5.2-Codex/code/kernel).
pub mod Laws
pub mod Slices
use os_agent_lab.Prelude.{
  ℕ, zero, suc, List, [], ◌∷◌, ◌+◌, ◌-◌, ◌*◌, ◌/◌, ◌%◌, Bool, ◌&&◌, leb, ltb, ◌==◌, if◌then◌else◌,
  page_size,
}

abbrev pub Bytes : Type 0
Bytes = ℕ → ℕ

-- *(uint8_t *)a = v
unfoldable pub store8 : Bytes → ℕ → ℕ → Bytes
store8 m a v q = if q == a then v % 256 else m q

-- Byte `i` of a little-endian word.
pub byte_of : ℕ → ℕ → ℕ
byte_of v zero = v % 256
byte_of v (suc i) = byte_of (v / 256) i

-- *(uint64_t *)a
unfoldable pub load64 : Bytes → ℕ → ℕ
load64 m a =
    m a
    + 256 * m (a + 1)
    + 0x10000 * m (a + 2)
    + 0x1000000 * m (a + 3)
    + 0x100000000 * m (a + 4)
    + 0x10000000000 * m (a + 5)
    + 0x1000000000000 * m (a + 6)
    + 0x100000000000000 * m (a + 7)

-- *(uint64_t *)a = v
pub store64 : Bytes → ℕ → ℕ → Bytes
unfolding byte_of
store64 m a v q = if leb a q && ltb q (a + 8) then byte_of v (q - a) else m q

-- memset of string.c: `n` bytes from `p` on.
pub memset : Bytes → ℕ → ℕ → ℕ → Bytes
unfolding store8
memset m p c zero = m
memset m p c (suc n) = memset (store8 m p c) (p + 1) c n

-- memcpy of string.c: forwards, one byte at a time, so that an overlap shows what is written.
pub memcpy : Bytes → ℕ → ℕ → ℕ → Bytes
unfolding store8
memcpy m d s zero = m
memcpy m d s (suc n) = memcpy (store8 m d (m s)) (d + 1) (s + 1) n

-- The `n` bytes of memory from `a` on.
unfoldable pub slice : Bytes → ℕ → ℕ → List ℕ
slice m a zero = []
slice m a (suc n) = m a ∷ slice m (a + 1) n

-- The bytes of a list, written from `a` on.
unfoldable pub write_bytes : Bytes → ℕ → List ℕ → Bytes
unfolding store8
write_bytes m a [] = m
write_bytes m a (b ∷ bs) = write_bytes (store8 m a b) (a + 1) bs
