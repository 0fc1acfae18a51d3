-- ===== src/UserLib/Printf/Text.antt =====
-- The text that a format and its arguments stand for.
use os_agent_lab.Prelude.{
  ℕ, ◌%◌, Bool, true, false, List, [], ◌∷◌, ◌++◌, Option, none, some, ◌==◌, if◌then◌else◌,
}
use os_agent_lab.UserLib.Printf.{
  Radix, num_text, Arg, text_arg, word_arg, text_or_null, signed_arg, unsigned_arg,
}

-- The text of a conversion, and the arguments behind it.
abbrev pub Piece : Type 0
Piece = Option (List ℕ × List Arg)

unfoldable pub text_piece : Option (Option (List ℕ) × List Arg) → Piece
text_piece none = none
text_piece (some (t, args)) = some (text_or_null t, args)

unfoldable pub word_piece : (ℕ → List ℕ) → Option (ℕ × List Arg) → Piece
word_piece show none = none
word_piece show (some (v, args)) = some (show v, args)

unfoldable pub signed_text : Bool → ℕ → List ℕ
signed_text long v = let (neg, uv) = signed_arg long v in num_text uv Radix.decimal neg

unfoldable pub piece : Bool → ℕ → List Arg → Option (List ℕ × List Arg)
unfolding text_piece word_piece signed_text
piece long c args =
    if c == b's'
    then text_piece (text_arg args)
    else if c == b'c'
    then word_piece (λ v. v % 256 ∷ []) (word_arg args)
    else if c == b'd'
    then word_piece (signed_text long) (word_arg args)
    else if c == b'i'
    then word_piece (signed_text long) (word_arg args)
    else if c == b'u'
    then word_piece (λ v. num_text (unsigned_arg long v) Radix.decimal false) (word_arg args)
    else if c == b'x'
    then word_piece (λ v. num_text (unsigned_arg long v) Radix.hexadecimal false) (word_arg args)
    else if c == b'p'
    then word_piece (λ v. (b'0' ∷ b'x' ∷ []) ++ num_text v Radix.hexadecimal false) (word_arg args)
    else if c == b'%'
    then some (b'%' ∷ [], args)
    else some (b'%' ∷ c ∷ [], args)

-- A text before the text of the rest of the format.
unfoldable pub before : List ℕ → Option (List ℕ) → Option (List ℕ)
before l none = none
before l (some rest) = some (l ++ rest)

unfoldable pub then_rest : Piece → (List Arg → Option (List ℕ)) → Option (List ℕ)
unfolding before
then_rest none next = none
then_rest (some (l, args)) next = before l (next args)

-- The text of a format; `none` where an argument is missing or of another kind, or where the format
-- ends in a directive.
unfoldable mutual
  unfolding piece then_rest before

  pub render : List ℕ → List Arg → Option (List ℕ)
  render [] = λ args. some []
  render (c ∷ fmt) =
      let next = render fmt in
      let after_percent = render_directive fmt in
      λ args. if c == b'%' then after_percent args else before (c ∷ []) (next args)

  pub render_directive : List ℕ → List Arg → Option (List ℕ)
  render_directive [] = λ args. none
  render_directive (c ∷ fmt) =
      let next = render fmt in
      let after_l = render_long fmt in
      λ args. if c == b'l' then after_l args else then_rest (piece false c args) next

  pub render_long : List ℕ → List Arg → Option (List ℕ)
  render_long [] = λ args. none
  render_long (c ∷ fmt) = let next = render fmt in λ args. then_rest (piece true c args) next
