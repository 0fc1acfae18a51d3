-- ===== src/Vm/Flags.antt =====
-- Page-table entries are put together and taken apart by bit operations: what those do to the
-- flag bits (0 to 9) and to the page number above them.
use Prim.Native.Nat.{bit_and, bit_or, digits, bit_and-bitwise, bit_or-bitwise}
use os_agent_lab.Prelude.{
  ℕ, zero, suc, ◌+◌, ◌*◌, ◌/◌, ◌%◌, ◌≤◌, ◌<◌, ◌≡◌, refl, ap, arith, min, max, u64_mod, true, not,
  ◌==◌,
}
use os_agent_lab.Vm.{pte2pa, pa2pte, pte_v, pte_u, has}

-- The binary digits of two numbers, paired by `op`, do not depend on the fuel once there is enough.
-- `rest` is what becomes of the second number where the first has run out.
module _ (rest : ℕ → ℕ) (op : ℕ → ℕ → ℕ) where
  digits-enough : (a b n m : ℕ) → a ≤ n → a ≤ m → digits rest op n a b ≡ digits rest op m a b
  digits-enough zero b zero zero ln lm = refl
  digits-enough zero b zero (suc m) ln lm = refl
  digits-enough zero b (suc n) zero ln lm = refl
  digits-enough zero b (suc n) (suc m) ln lm = refl
  digits-enough (suc a) b zero m ln lm = absurd (omega arith)
  digits-enough (suc a) b (suc n) zero ln lm = absurd (omega arith)
  digits-enough (suc a) b (suc n) (suc m) ln lm =
      ap (λ d. d * 2 + op (suc a % 2) (b % 2))
        (digits-enough (suc a / 2) (b / 2) n m (omega arith) (omega arith))

  -- One digit split off, where the first number is not 0.
  digits-step :
      (a b : ℕ)
      → digits rest op (suc a) (suc a) b
        ≡ digits rest op (suc a / 2) (suc a / 2) (b / 2) * 2 + op (suc a % 2) (b % 2)
  digits-step a b =
      ap (λ d. d * 2 + op (suc a % 2) (b % 2))
        (digits-enough (suc a / 2) (b / 2) a (suc a / 2) (omega arith) (omega arith))

pub split_and : (b a : ℕ) → bit_and a b ≡ min (a % 2) (b % 2) + 2 * bit_and (a / 2) (b / 2)
split_and b zero =
    let none_left = bit_and-bitwise 0 b in omega (arith, none_left, bit_and-bitwise 0 (b / 2))
split_and b (suc a) = omega (
  arith,
  digits-step (λ x. 0) min a b,
  bit_and-bitwise (suc a) b,
  bit_and-bitwise (suc a / 2) (b / 2),
)

pub split_or : (b a : ℕ) → bit_or a b ≡ max (a % 2) (b % 2) + 2 * bit_or (a / 2) (b / 2)
split_or b zero =
    let all_left = bit_or-bitwise 0 b in omega (arith, all_left, bit_or-bitwise 0 (b / 2))
split_or b (suc a) = omega (
  arith,
  digits-step (λ x. x) max a b,
  bit_or-bitwise (suc a) b,
  bit_or-bitwise (suc a / 2) (b / 2),
)

-- With 0 on the right, by the size of the number on the left.
zero_right : (size a : ℕ) → a ≤ size → (bit_and a 0 ≡ 0) × (bit_or a 0 ≡ a)
zero_right size zero le = (bit_and-bitwise 0 0, bit_or-bitwise 0 0)
zero_right zero (suc a) le = absurd (omega arith)
zero_right (suc size) (suc a) le =
    let half : (bit_and (suc a / 2) 0 ≡ 0) × (bit_or (suc a / 2) 0 ≡ suc a / 2) =
      zero_right size (suc a / 2) (omega arith) in
    (omega (arith, split_and 0 (suc a), half), omega (arith, split_or 0 (suc a), half))

-- PTE_V is bit 0.
pub valid_bit : (a : ℕ) → bit_and a pte_v ≡ a % 2
valid_bit a = omega (arith, split_and 1 a, (zero_right (a / 2) (a / 2) (omega arith)).0)

-- PTE_U is bit 4.
pub user_bit : (a : ℕ) → bit_and a pte_u ≡ a / 16 % 2 * 16
user_bit a = omega (
  arith,
  split_and 16 a,
  split_and 8 (a / 2),
  split_and 4 (a / 2 / 2),
  split_and 2 (a / 2 / 2 / 2),
  split_and 1 (a / 2 / 2 / 2 / 2),
  (zero_right (a / 2 / 2 / 2 / 2 / 2) (a / 2 / 2 / 2 / 2 / 2) (omega arith)).0,
)

-- `| PTE_V` sets bit 0.
pub bit_or-valid : (a : ℕ) → bit_or a pte_v ≡ a / 2 * 2 + 1
bit_or-valid a = omega (arith, split_or 1 a, (zero_right (a / 2) (a / 2) (omega arith)).1)

bit_or-of_zero : (a b : ℕ) → b ≡ 0 → bit_or a b ≡ a
bit_or-of_zero a b e = rw e ((zero_right a a (omega arith)).1)

-- Below bit 10 there is nothing of the page number, so `|` puts the flags beside it.
bit_or_low : (k f : ℕ) → f < 32 → bit_or (32 * k) f ≡ 32 * k + f
bit_or_low k f h = omega (
  arith,
  split_or f (32 * k),
  split_or (f / 2) (32 * k / 2),
  split_or (f / 2 / 2) (32 * k / 2 / 2),
  split_or (f / 2 / 2 / 2) (32 * k / 2 / 2 / 2),
  split_or (f / 2 / 2 / 2 / 2) (32 * k / 2 / 2 / 2 / 2),
  bit_or-of_zero (32 * k / 2 / 2 / 2 / 2 / 2) (f / 2 / 2 / 2 / 2 / 2) (omega arith),
)

-- The entry that `uvm_map` writes, of five flag bits at most: PA2PTE(pa) | perm | PTE_V.
pub leaf-eq :
    (pa perm : ℕ)
    → perm < 32
    → bit_or (bit_or (pa2pte pa) perm) pte_v ≡ pa / 4096 * 1024 + (perm / 2 * 2 + 1)
leaf-eq pa perm h =
    let e : pa2pte pa ≡ 32 * (pa / 4096 * 32) = omega arith in
    rw e (
      omega (
        arith,
        bit_or_low (pa / 4096 * 32) perm h,
        bit_or-valid (bit_or (32 * (pa / 4096 * 32)) perm),
      ))

-- The entry of a fresh table: PA2PTE(page) | PTE_V.
pub link-eq : (pa : ℕ) → bit_or (pa2pte pa) pte_v ≡ pa / 4096 * 1024 + 1
link-eq pa = omega (arith, bit_or-valid (pa2pte pa))

-- An entry made of a page number and low bits leads to that page.
pub pte2pa-of_parts :
    (pa low : ℕ) → low < 1024 → pa % 4096 ≡ 0 → pa < u64_mod → pte2pa (pa / 4096 * 1024 + low) ≡ pa
pte2pa-of_parts pa low h al lt = omega arith

pub has_valid-of_parts : (k low : ℕ) → low % 2 ≡ 1 → has (k * 1024 + low) pte_v ≡ true
has_valid-of_parts k low h = ground (arith, valid_bit (k * 1024 + low))

pub has_user-of_parts : (k low : ℕ) → low < 32 → has (k * 1024 + low) pte_u ≡ not (low / 16 == 0)
has_user-of_parts k low h = ground (arith, user_bit (k * 1024 + low))
