-- ===== src/UserLib/Printf/Digits.antt =====
-- The characters of the digits, as the conversions of stdlib.c see them.
use os_agent_lab.Prelude.{
  ℕ, zero, suc, ◌+◌, ◌<◌, ◌≡◌, refl, subst, Bool, true, false, List, [], ◌∷◌, Option, none, some,
  ◌==◌, ◌&&◌, not, length, get_or, arith,
}
use os_agent_lab.UserLib.Printf.{hex_digits, digit_char}
use os_agent_lab.UserLib.Stdlib.{isspace, digit_val}

-- What the scanner sees of the character of a digit.
pub record Reads (c d : ℕ) : Type 0 where
  pub value : digit_val c ≡ some d
  pub no_space : isspace c ≡ false
  pub no_plus : (c == b'+') ≡ false
  pub no_minus : (c == b'-') ≡ false
  pub no_x : (c == b'x') ≡ false
  pub no_capital_x : (c == b'X') ≡ false

abbrev read_ok : ℕ → Option ℕ → Bool
read_ok d none = false
read_ok d (some x) = x == d

reads_ok : ℕ → ℕ → Bool
unfolding digit_val isspace
reads_ok c d =
    read_ok d (digit_val c)
    && not (isspace c)
    && not (c == b'+')
    && not (c == b'-')
    && not (c == b'x')
    && not (c == b'X')

-- The characters of the digits from `d` on.
row_ok : ℕ → List ℕ → Bool
row_ok d [] = true
row_ok d (c ∷ row) = reads_ok c d && row_ok (suc d) row

row_ok-get_or :
    (row : List ℕ) (d k : ℕ)
    → row_ok d row ≡ true
    → k < length row
    → reads_ok (get_or row k 0) (d + k) ≡ true
unfolding row_ok
row_ok-get_or [] d k good below = absurd (omega arith)
row_ok-get_or (c ∷ row) d zero good below =
    let here : d + 0 ≡ d = omega arith in rw here (ground arith)
row_ok-get_or (c ∷ row) d (suc k) good below =
    let there : d + suc k ≡ suc d + k = omega arith in
    rw there (row_ok-get_or row (suc d) k (ground arith) (omega arith))

hex_row : row_ok 0 hex_digits ≡ true
unfolding row_ok reads_ok
hex_row = refl

read_ok-eq : (d : ℕ) (o : Option ℕ) → read_ok d o ≡ true → o ≡ some d
read_ok-eq d none h = cc
read_ok-eq d (some x) h = ground arith

pub Reads-digit_char : (d : ℕ) → d < 16 → Reads (digit_char d) d
unfolding reads_ok digit_char
Reads-digit_char d h =
    let c : ℕ = get_or hex_digits d 0 in
    let from_zero : 0 + d ≡ d = omega arith in
    let t : reads_ok c d ≡ true =
      subst (λ (k : ℕ). reads_ok c k ≡ true) from_zero (row_ok-get_or hex_digits 0 d hex_row h) in
    record {
      value = read_ok-eq d (digit_val c) (ground (arith, t));
      no_space = ground (arith, t);
      no_plus = ground (arith, t);
      no_minus = ground (arith, t);
      no_x = ground (arith, t);
      no_capital_x = ground (arith, t);
    }
