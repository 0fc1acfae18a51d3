-- ===== src/UserLib/Stdlib.antt =====
-- The conversions of strings to numbers of GPT-5.2-Codex/code/user/lib/stdlib.c, and the classes of
-- ctype.c. A string is the list of its bytes up to the NUL; `long` is the word of 64 bits that stands
-- for it, and its overflow is taken to wrap. A base is not negative.
use os_agent_lab.Prelude.{
  ℕ, ◌+◌, ◌-◌, ◌/◌, ◌%◌, ◌^◌, Bool, true, false, ◌&&◌, ◌||◌, List, [], ◌∷◌, Option, none, some,
  ◌==◌, ltb, leb, if◌then◌else◌, add64, mul64, sub64, add32, sub32, mul32,
}

unfoldable pub isspace : ℕ → Bool
isspace c = c == 32 || c == 9 || c == 10 || c == 13 || c == 12 || c == 11

pub isdigit : ℕ → Bool
isdigit c = leb b'0' c && leb c b'9'

pub isalpha : ℕ → Bool
isalpha c = leb b'A' c && leb c b'Z' || leb b'a' c && leb c b'z'

pub isalnum : ℕ → Bool
unfolding isalpha isdigit
isalnum c = isalpha c || isdigit c

pub isxdigit : ℕ → Bool
unfolding isdigit
isxdigit c = isdigit c || leb b'a' c && leb c b'f' || leb b'A' c && leb c b'F'

pub isprint : ℕ → Bool
isprint c = leb 0x20 c && leb c 0x7e

pub toupper : ℕ → ℕ
toupper c = if leb b'a' c && leb c b'z' then c - b'a' + b'A' else c

-- `none` is -1.
unfoldable pub digit_val : ℕ → Option ℕ
digit_val c =
    if leb b'0' c && leb c b'9'
    then some (c - b'0')
    else if leb b'a' c && leb c b'f'
    then some (c - b'a' + 10)
    else if leb b'A' c && leb c b'F'
    then some (c - b'A' + 10)
    else none

unfoldable pub skip_spaces : List ℕ → List ℕ
unfolding isspace
skip_spaces [] = []
skip_spaces (c ∷ s) = let rest = skip_spaces s in if isspace c then rest else c ∷ s

-- `(p[1] == 'x' || p[1] == 'X')` of what follows a '0', and the string behind it.
unfoldable pub x_prefix : List ℕ → Option (List ℕ)
x_prefix [] = none
x_prefix (c ∷ s) = if c == b'x' || c == b'X' then some s else none

-- The base to use and where the digits begin, for a string that starts with '0'; `s` is behind it.
unfoldable pub zero_prefix : ℕ → List ℕ → Option (List ℕ) → ℕ × List ℕ
zero_prefix base s (some digits) =
    if base == 0 || base == 16 then (16, digits) else (base, b'0' ∷ s)
zero_prefix base s none = if base == 0 then (8, s) else (base, b'0' ∷ s)

unfoldable pub base_prefix : ℕ → List ℕ → ℕ × List ℕ
unfolding zero_prefix x_prefix
base_prefix base [] = (if base == 0 then 10 else base, [])
base_prefix base (c ∷ s) =
    if c == b'0' then zero_prefix base s (x_prefix s) else (if base == 0 then 10 else base, c ∷ s)

-- The digits of the base at the front, and where they end.
unfoldable pub scan_digit : ℕ → ℕ → ℕ → List ℕ → (ℕ → ℕ × List ℕ) → Option ℕ → ℕ × List ℕ
scan_digit base val c s next none = (val, c ∷ s)
scan_digit base val c s next (some d) =
    if ltb d base then next (add64 (mul64 val base) d) else (val, c ∷ s)

unfoldable pub scan_digits : ℕ → ℕ → List ℕ → ℕ × List ℕ
unfolding scan_digit digit_val
scan_digits base val [] = (val, [])
scan_digits base val (c ∷ s) = scan_digit base val c s (λ v. scan_digits base v s) (digit_val c)

unfoldable pub skip_plus : List ℕ → List ℕ
skip_plus [] = []
skip_plus (c ∷ s) = if c == b'+' then s else c ∷ s

-- Whether the number is negative, and the string behind the sign.
unfoldable pub sign : List ℕ → Bool × List ℕ
sign [] = (false, [])
sign (c ∷ s) = if c == b'-' then (true, s) else if c == b'+' then (false, s) else (false, c ∷ s)

unfoldable pub based : ℕ × List ℕ → ℕ × List ℕ
unfolding scan_digits
based (base, s) = scan_digits base 0 s

-- The number and `*end`.
unfoldable pub strtoul : List ℕ → ℕ → ℕ × List ℕ
unfolding skip_spaces skip_plus base_prefix based
strtoul s base = based (base_prefix base (skip_plus (skip_spaces s)))

-- `neg ? -val : val`
unfoldable pub signed : Bool → ℕ → ℕ
signed neg val = if neg then sub64 0 val else val

unfoldable pub strtol : List ℕ → ℕ → ℕ × List ℕ
unfolding skip_spaces sign base_prefix based signed
strtol s base =
    let (neg, digits) = sign (skip_spaces s) in
    let (val, end') = based (base_prefix base digits) in (signed neg val, end')

pub strtoll : List ℕ → ℕ → ℕ × List ℕ
unfolding strtol
strtoll s base = strtol s base

pub strtoull : List ℕ → ℕ → ℕ × List ℕ
unfolding strtoul
strtoull s base = strtoul s base

pub atol : List ℕ → ℕ
unfolding strtol
atol s = (strtol s 10).0

-- `int` of 32 bits
pub atoi_loop : ℕ → List ℕ → ℕ
atoi_loop val [] = val
atoi_loop val (c ∷ s) =
    let rest = atoi_loop (add32 (mul32 val 10) (c - b'0')) s in
    if leb b'0' c && leb c b'9' then rest else val

pub atoi_sign : List ℕ → Bool × List ℕ
atoi_sign [] = (false, [])
atoi_sign (c ∷ s) = if c == b'-' then (true, s) else (false, c ∷ s)

-- `none` is a null pointer.
unfoldable pub atoi : Option (List ℕ) → ℕ
unfolding atoi_loop atoi_sign
atoi none = 0
atoi (some s) =
    let (neg, digits) = atoi_sign s in
    let val = atoi_loop 0 digits in if neg then sub32 0 val else val

pub abs : ℕ → ℕ
abs x = if leb (2 ^ 31) x then sub32 0 x else x

pub labs : ℕ → ℕ
labs x = if leb (2 ^ 63) x then sub64 0 x else x

-- `rand_state`, from `srand` on, and the number that `rand` draws from it
pub srand : ℕ → ℕ
srand seed = if seed == 0 then 1 else seed

unfoldable pub rand : ℕ → ℕ × ℕ
unfolding srand
rand rand_state =
    let next = add64 (mul64 rand_state 1103515245) 12345 in (next, next / 2 ^ 16 % 2 ^ 15)
