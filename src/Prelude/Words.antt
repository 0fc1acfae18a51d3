-- ===== src/Prelude/Words.antt =====
-- Unsigned machine arithmetic: a word is a number, and each operation writes its wrap-around out.
use Prim.Native.Nat.{ℕ, ◌+◌, ◌-◌, ◌*◌, ◌%◌, ◌^◌}

abbrev pub u64_mod : ℕ
u64_mod = 2 ^ 64

abbrev pub u32_mod : ℕ
u32_mod = 2 ^ 32

-- uint64_t a + b
abbrev pub add64 : ℕ → ℕ → ℕ
add64 a b = (a + b) % u64_mod

-- uint64_t a - b
abbrev pub sub64 : ℕ → ℕ → ℕ
sub64 a b = (a + u64_mod - b) % u64_mod

-- uint64_t a * b
abbrev pub mul64 : ℕ → ℕ → ℕ
mul64 a b = (a * b) % u64_mod

-- uint32_t a + b
abbrev pub add32 : ℕ → ℕ → ℕ
add32 a b = (a + b) % u32_mod

-- uint32_t a - b
abbrev pub sub32 : ℕ → ℕ → ℕ
sub32 a b = (a + u32_mod - b) % u32_mod

-- uint32_t a * b
abbrev pub mul32 : ℕ → ℕ → ℕ
mul32 a b = (a * b) % u32_mod

-- PAGE_SIZE of memlayout.h
abbrev pub page_size : ℕ
page_size = 4096

-- a & ~(PAGE_SIZE - 1): the low twelve bits cleared.
abbrev pub page_down : ℕ → ℕ
page_down a = a - a % page_size
