-- ===== src/UserLib/Printf/Numbers.antt =====
-- What `print_num` prints, the conversions of stdlib.c read back.
use os_agent_lab.Prelude.{ℕ, ◌≤◌, ◌≡◌, false, List, [], ◌∷◌, reverse, some, ◌==◌}
use os_agent_lab.UserLib.Printf.{digits_loop}
use os_agent_lab.UserLib.Stdlib.{digit_val}
use os_agent_lab.UserLib.Printf.Digits.{Reads}

-- The string does not go on with an 'x'.
unfoldable pub NoX : List ℕ → Type 0
NoX [] = Unit {0}
NoX (c ∷ s) = ((c == b'x') ≡ false) × ((c == b'X') ≡ false)

-- The string does not go on with a digit of the base.
unfoldable pub NoDigit : ℕ → List ℕ → Type 0
NoDigit base [] = Unit {0}
NoDigit base (c ∷ s) = (d : ℕ) → digit_val c ≡ some d → base ≤ d

-- A digit, and no 'x' behind it.
Leads : List ℕ → Type 0
unfolding NoX
Leads [] = ⊥
Leads (c ∷ s) = ((d : ℕ) × Reads c d) × NoX s

module _ (base : ℕ) (low : 4 ≤ base) (high : base ≤ 16) where
  shown : ℕ → ℕ → List ℕ
  shown room v = reverse (digits_loop room base v)
