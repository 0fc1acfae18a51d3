-- ===== src/UserLib/Printf.antt =====
-- The formatted output of the user programs, GPT-5.2-Codex/code/user/lib/printf.c. Strings and formats
-- are lists of bytes up to the NUL. `out` is where the bytes go, with its state and the `int` that it
-- returns; the arguments behind the format are a list, and `none` is a fault: an argument that is
-- missing or of another kind, or a read past the end of the format.
pub mod Digits
pub mod Numbers
pub mod Render
pub mod Text
use os_agent_lab.Prelude.{
  ℕ, zero, suc, ◌+◌, ◌-◌, ◌/◌, ◌%◌, ◌^◌, min, Bool, true, false, ◌&&◌, not, List, [], ◌∷◌, ◌++◌,
  reverse, Option, none, some, ◌==◌, ltb, leb, if◌then◌else◌, length, get_or, update, u64_mod,
  u32_mod, add32, add64, sub64,
}

abbrev pub hex_digits : List ℕ
hex_digits =
    b'0' ∷ b'1' ∷ b'2' ∷ b'3' ∷ b'4' ∷ b'5' ∷ b'6' ∷ b'7' ∷ b'8' ∷ b'9' ∷ b'a' ∷ b'b' ∷ b'c' ∷ b'd'
    ∷ b'e' ∷ b'f' ∷ []

unfoldable pub digit_char : ℕ → ℕ
digit_char d = get_or hex_digits d 0

-- The loop that fills `buf`, the last digit first, while there is room in it.
pub digits_loop : ℕ → ℕ → ℕ → List ℕ
unfolding digit_char
digits_loop zero base val = []
digits_loop (suc room) base val =
    let rest = digits_loop room base (val / base) in
    if val == 0 then [] else digit_char (val % base) ∷ rest

pub buf_of : ℕ → ℕ → List ℕ
unfolding digits_loop
buf_of base val = if val == 0 then b'0' ∷ [] else digits_loop 32 base val

-- The two bases that `print_num` is called with; the function is static.
pub data Radix : Type 0 where
  decimal hexadecimal : Radix

abbrev pub radix : Radix → ℕ
radix decimal = 10
radix hexadecimal = 16

-- What `print_num` puts in `tmp`, whose 32 bytes have room for a sign and the digits of 64 bits.
unfoldable pub num_text : ℕ → Radix → Bool → List ℕ
unfolding buf_of
num_text val base neg = (if neg then b'-' ∷ [] else []) ++ reverse (buf_of (radix base) val)

-- An argument: a pointer to a string, which may be null, or a register of 64 bits.
pub data Arg : Type 0 where
  text : Option (List ℕ) → Arg
  word : ℕ → Arg

-- va_arg of a `const char *` and of a number
pub text_arg : List Arg → Option (Option (List ℕ) × List Arg)
text_arg [] = none
text_arg (text s ∷ ap) = some (s, ap)
text_arg (word v ∷ ap) = none

pub word_arg : List Arg → Option (ℕ × List Arg)
word_arg [] = none
word_arg (text s ∷ ap) = none
word_arg (word v ∷ ap) = some (v, ap)

pub text_or_null : Option (List ℕ) → List ℕ
text_or_null none = b'(' ∷ b'n' ∷ b'u' ∷ b'l' ∷ b'l' ∷ b')' ∷ []
text_or_null (some s) = s

-- `v` of `%d`: whether it is negative, and `uv`. `-v` is taken to wrap.
pub signed_arg : Bool → ℕ → Bool × ℕ
signed_arg true v = if leb (2 ^ 63) v then (true, sub64 0 v) else (false, v)
signed_arg false v =
    if leb (2 ^ 31) (v % u32_mod) then (true, u32_mod - v % u32_mod) else (false, v % u32_mod)

pub unsigned_arg : Bool → ℕ → ℕ
unsigned_arg true v = v
unsigned_arg false v = v % u32_mod

-- The state of the output and `total`, with the arguments left.
abbrev pub Printed : Type 0 → Type 0
Printed S = S × ℕ × List Arg

module _ {S : Type 0} (out : S → List ℕ → S × ℕ) where
  -- A call of `out` whose result is not read.
  pub emit : S → ℕ → List Arg → List ℕ → Printed S
  emit s total ap l = ((out s l).0, add32 total (length l), ap)

  pub print_num : S → ℕ → List Arg → ℕ → Radix → Bool → Printed S
  unfolding num_text
  print_num s total ap val base neg =
      let (s', n) = out s (num_text val base neg) in (s', add32 total n, ap)

  pub put_text : S → ℕ → Option (Option (List ℕ) × List Arg) → Option (Printed S)
  unfolding emit text_or_null
  put_text s total none = none
  put_text s total (some (t, ap)) = some (emit s total ap (text_or_null t))

  pub put_word :
      S → ℕ → Option (ℕ × List Arg) → (S → ℕ → List Arg → ℕ → Printed S) → Option (Printed S)
  put_word s total none print = none
  put_word s total (some (v, ap)) print = some (print s total ap v)

  -- The conversions of the switch.
  pub put_char : S → ℕ → List Arg → ℕ → Printed S
  unfolding emit
  put_char s total ap v = emit s total ap (v % 256 ∷ [])

  pub put_signed : Bool → S → ℕ → List Arg → ℕ → Printed S
  unfolding print_num signed_arg
  put_signed long s total ap v =
      let (neg, uv) = signed_arg long v in print_num s total ap uv Radix.decimal neg

  pub put_unsigned : Bool → Radix → S → ℕ → List Arg → ℕ → Printed S
  unfolding print_num unsigned_arg
  put_unsigned long base s total ap v = print_num s total ap (unsigned_arg long v) base false

  pub put_pointer : S → ℕ → List Arg → ℕ → Printed S
  unfolding emit print_num
  put_pointer s total ap v =
      let (s', total', ap') = emit s total ap (b'0' ∷ b'x' ∷ []) in
      print_num s' total' ap' v Radix.hexadecimal false

  -- The byte behind '%', and behind 'l' if there is one.
  pub convert : Bool → ℕ → S → ℕ → List Arg → Option (Printed S)
  unfolding emit put_text put_word put_char put_signed put_unsigned put_pointer text_arg word_arg
  convert long c s total ap =
      if c == b's'
      then put_text s total (text_arg ap)
      else if c == b'c'
      then put_word s total (word_arg ap) put_char
      else if c == b'd'
      then put_word s total (word_arg ap) (put_signed long)
      else if c == b'i'
      then put_word s total (word_arg ap) (put_signed long)
      else if c == b'u'
      then put_word s total (word_arg ap) (put_unsigned long Radix.decimal)
      else if c == b'x'
      then put_word s total (word_arg ap) (put_unsigned long Radix.hexadecimal)
      else if c == b'p'
      then put_word s total (word_arg ap) put_pointer
      else if c == b'%'
      then some (emit s total ap (b'%' ∷ []))
      else (let (s', total', ap') = emit s total ap (b'%' ∷ []) in
          some (emit s' total' ap' (c ∷ [])))

  -- The rest of the format, once the directive is printed.
  pub print_rest : (S → ℕ → List Arg → Option (S × ℕ)) → Option (Printed S) → Option (S × ℕ)
  print_rest next none = none
  print_rest next (some (s, total, ap)) = next s total ap

  -- `directive` stands behind the '%'; at the end of the format the loop passes the NUL.
  unfoldable mutual
    unfolding emit convert print_rest

    pub vformat : List ℕ → S → ℕ → List Arg → Option (S × ℕ)
    vformat [] = λ s total ap. some (s, total)
    vformat (c ∷ fmt) =
        let next = vformat fmt in
        let after_percent = directive fmt in
        λ s total ap.
          if c == b'%'
          then after_percent s total ap
          else print_rest next (some (emit s total ap (c ∷ [])))

    pub directive : List ℕ → S → ℕ → List Arg → Option (S × ℕ)
    directive [] = λ s total ap. none
    directive (c ∷ fmt) =
        let next = vformat fmt in
        let after_l = long_directive fmt in
        λ s total ap.
          if c == b'l' then after_l s total ap else print_rest next (convert false c s total ap)

    pub long_directive : List ℕ → S → ℕ → List Arg → Option (S × ℕ)
    long_directive [] = λ s total ap. none
    long_directive (c ∷ fmt) =
        let next = vformat fmt in λ s total ap. print_rest next (convert true c s total ap)

-- struct buf_ctx; `buf` is the memory behind the pointer, indexed from it
pub record BufCtx : Type 0 where
  pub buf : ℕ → ℕ
  pub size : ℕ
  pub pos : ℕ

-- memcpy(b->buf + at, l, copy): the first bytes of `l`
pub copy_bytes : (ℕ → ℕ) → ℕ → List ℕ → ℕ → ℕ → ℕ
copy_bytes buf at [] copy = buf
copy_bytes buf at (c ∷ l) zero = buf
copy_bytes buf at (c ∷ l) (suc copy) = copy_bytes (update buf at c) (suc at) l copy

pub avail : BufCtx → ℕ
avail b = if ltb 0 b.size && ltb b.pos b.size then b.size - b.pos - 1 else 0

pub out_buf : BufCtx → List ℕ → BufCtx × ℕ
unfolding copy_bytes avail
out_buf b l =
    let copy = if ltb (length l) (avail b) then length l else avail b in
    (
      record b { buf = copy_bytes b.buf b.pos l copy; pos = add64 b.pos (length l) },
      length l % u32_mod,
    )

-- buf[term] = '\0', if there is room
pub terminate : BufCtx → ℕ → ℕ
terminate b =
    if ltb 0 b.size then update b.buf (if ltb b.pos b.size then b.pos else b.size - 1) 0 else b.buf

pub finish : Option (BufCtx × ℕ) → Option ((ℕ → ℕ) × ℕ)
unfolding terminate
finish none = none
finish (some (b, n)) = some (terminate b, n)

-- The buffer and the result.
unfoldable pub vsnprintf : (ℕ → ℕ) → ℕ → List ℕ → List Arg → Option ((ℕ → ℕ) × ℕ)
unfolding vformat out_buf finish
vsnprintf buf size fmt ap =
    finish (vformat out_buf fmt (record { buf = buf; size = size; pos = 0 }) 0 ap)

-- size is (size_t)-1
unfoldable pub vsprintf : (ℕ → ℕ) → List ℕ → List Arg → Option ((ℕ → ℕ) × ℕ)
unfolding vsnprintf
vsprintf buf fmt ap = vsnprintf buf (u64_mod - 1) fmt ap
