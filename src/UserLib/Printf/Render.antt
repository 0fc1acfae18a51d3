-- ===== src/UserLib/Printf/Render.antt =====
-- `vformat` prints the text that a format and its arguments stand for, whatever its output does with
-- it.
pub mod Buffer
use os_agent_lab.Prelude.{
  ℕ, ◌+◌, ◌%◌, ◌≡◌, refl, sym, ap, subst, Bool, true, false, List, [], ◌∷◌, ◌++◌, Option, none,
  some, ◌==◌, if◌then◌else◌, length, length-append, Bool-cases, inl, inr, u32_mod, add32, arith,
}
use os_agent_lab.UserLib.Printf.{
  Radix, num_text, Arg, text_arg, word_arg, text_or_null, signed_arg, unsigned_arg, Printed, emit,
  print_num, put_text, put_word, put_char, put_signed, put_unsigned, put_pointer, convert,
  print_rest, vformat, directive, long_directive,
}
use os_agent_lab.UserLib.Printf.Text.{
  Piece, text_piece, word_piece, signed_text, piece, before, then_rest, render, render_directive,
  render_long,
}
use mathlib.Core.List.{append_assoc, append-nil}

-- An output that keeps, in a relation to its state, what it was given, and returns its length.
module _ {S : Type 0} (out : S → List ℕ → S × ℕ) (Holds : S → List ℕ → Type 0)
    (keeps : (s : S) (acc l : List ℕ) → Holds s acc → Holds (out s l).0 (acc ++ l))
    (counts : (s : S) (l : List ℕ) → (out s l).1 ≡ length l % u32_mod) where
  -- The state and `total` after a text.
  abbrev pub Gone : S → ℕ → List ℕ → Type 0
  Gone s total acc = Holds s acc × (total ≡ length acc % u32_mod)

  abbrev Prints : List ℕ → Option (Printed S) → Piece → Type 0
  Prints acc none none = Unit {0}
  Prints acc none (some p) = ⊥
  Prints acc (some r) none = ⊥
  Prints acc (some (s, total, left)) (some (l, args)) = Gone s total (acc ++ l) × (left ≡ args)

  abbrev pub Renders : List ℕ → Option (S × ℕ) → Option (List ℕ) → Type 0
  Renders acc none none = Unit {0}
  Renders acc none (some l) = ⊥
  Renders acc (some r) none = ⊥
  Renders acc (some (s, total)) (some l) = Gone s total (acc ++ l)

  module _ {s : S} {total : ℕ} {acc : List ℕ} (gone : Gone s total acc) where
    emit-Gone :
        (args : List Arg) (l : List ℕ)
        → Gone (emit out s total args l).0 (emit out s total args l).1 (acc ++ l)
    unfolding emit
    emit-Gone args l = (keeps s acc l gone.0, omega (arith, gone.1, length-append {0} acc l))

    print_num-Gone :
        (args : List Arg) (v : ℕ) (base : Radix) (neg : Bool)
        → Gone
            (print_num out s total args v base neg).0
            (print_num out s total args v base neg).1
            (acc ++ num_text v base neg)
    unfolding print_num
    print_num-Gone args v base neg =
        let l = num_text v base neg in
        (keeps s acc l gone.0, omega (arith, gone.1, length-append {0} acc l, counts s l))

    emit-Prints :
        (args : List Arg) (l : List ℕ)
        → Prints acc (some (emit out s total args l)) (some (l, args))
    unfolding emit
    emit-Prints args l = (emit-Gone args l, refl)

    put_text-Prints :
        (t : Option (Option (List ℕ) × List Arg))
        → Prints acc (put_text out s total t) (text_piece t)
    unfolding put_text text_piece emit
    put_text-Prints none = tt
    put_text-Prints (some (t, args)) = (emit-Gone args (text_or_null t), refl)

    put_word-Prints :
        (print : S → ℕ → List Arg → ℕ → Printed S)
        → (show : ℕ → List ℕ)
        → ((args : List Arg) (v : ℕ)
            → Prints acc (some (print s total args v)) (some (show v, args)))
        → (w : Option (ℕ × List Arg))
        → Prints acc (put_word out s total w print) (word_piece show w)
    unfolding put_word word_piece
    put_word-Prints print show each none = tt
    put_word-Prints print show each (some (v, args)) = each args v

  module _ {s : S} {total : ℕ} {acc : List ℕ} (gone : Gone s total acc) where
    put_pointer-Prints :
        (args : List Arg) (v : ℕ)
        → Prints acc
            (some (put_pointer out s total args v))
            (some ((b'0' ∷ b'x' ∷ []) ++ num_text v Radix.hexadecimal false, args))
    unfolding put_pointer print_num emit
    put_pointer-Prints args v =
        let l : List ℕ = b'0' ∷ b'x' ∷ [] in
        let (s', total', left) = emit out s total args l in
        (
          subst
              (Gone (print_num out s' total' args v Radix.hexadecimal false).0
                (print_num out s' total' args v Radix.hexadecimal false).1)
              (append_assoc acc l (num_text v Radix.hexadecimal false))
              (print_num-Gone (emit-Gone gone args l) args v Radix.hexadecimal false),
          refl,
        )

    put_two-Prints :
        (args : List Arg) (c : ℕ)
        → let (s', total', left) = emit out s total args (b'%' ∷ []) in
          Prints acc (some (emit out s' total' left (c ∷ []))) (some (b'%' ∷ c ∷ [], args))
    unfolding emit
    put_two-Prints args c =
        let (s', total', left) = emit out s total args (b'%' ∷ []) in
        (
          subst (Gone (emit out s' total' args (c ∷ [])).0 (emit out s' total' args (c ∷ [])).1)
              (append_assoc acc (b'%' ∷ []) (c ∷ []))
              (emit-Gone (emit-Gone gone args (b'%' ∷ [])) args (c ∷ [])),
          refl,
        )

    signed-Prints :
        (args : List Arg) (long : Bool)
        → Prints acc
            (put_word out s total (word_arg args) (put_signed out long))
            (word_piece (signed_text long) (word_arg args))
    unfolding put_signed signed_text
    signed-Prints args long =
        put_word-Prints gone (put_signed out long) (signed_text long)
          (λ left v. (
            print_num-Gone gone left (signed_arg long v).1 Radix.decimal (signed_arg long v).0,
            refl,
          ))
          (word_arg args)

    unsigned-Prints :
        (args : List Arg) (long : Bool) (base : Radix)
        → Prints acc
            (put_word out s total (word_arg args) (put_unsigned out long base))
            (word_piece (λ v. num_text (unsigned_arg long v) base false) (word_arg args))
    unfolding put_unsigned
    unsigned-Prints args long base =
        put_word-Prints gone (put_unsigned out long base)
          (λ v. num_text (unsigned_arg long v) base false)
          (λ left v. (print_num-Gone gone left (unsigned_arg long v) base false, refl))
          (word_arg args)

  if-Prints :
      (acc : List ℕ) (b : Bool) (r r' : Option (Printed S)) (p p' : Piece)
      → Prints acc r p
      → Prints acc r' p'
      → Prints acc (if b then r else r') (if b then p else p')
  if-Prints acc true r r' p p' h h' = h
  if-Prints acc false r r' p p' h h' = h'

  convert-Prints :
      {s : S} {total : ℕ} {acc : List ℕ} (gone : Gone s total acc) (args : List Arg) (long : Bool)
      (c : ℕ)
      → Prints acc (convert out long c s total args) (piece long c args)
  unfolding convert piece put_char emit
  convert-Prints {acc} gone args long c =
      if-Prints acc (c == b's') _ _ _ _ (put_text-Prints gone (text_arg args)) (
        if-Prints acc (c == b'c') _ _ _ _
          (put_word-Prints gone (put_char out) (λ v. v % 256 ∷ [])
            (λ left v. (emit-Gone gone left (v % 256 ∷ []), refl)) (word_arg args))
          (if-Prints acc (c == b'd') _ _ _ _ (signed-Prints gone args long) (
            if-Prints acc (c == b'i') _ _ _ _ (signed-Prints gone args long) (
              if-Prints acc (c == b'u') _ _ _ _ (unsigned-Prints gone args long Radix.decimal) (
                if-Prints acc (c == b'x') _ _ _ _ (unsigned-Prints gone args long Radix.hexadecimal)
                  (if-Prints acc (c == b'p') _ _ _ _
                    (put_word-Prints gone (put_pointer out)
                      (λ v. (b'0' ∷ b'x' ∷ []) ++ num_text v Radix.hexadecimal false)
                      (put_pointer-Prints gone) (word_arg args))
                    (if-Prints acc (c == b'%') _ _ _ _ (emit-Gone gone args (b'%' ∷ []), refl)
                      (put_two-Prints gone args c))))))))

  -- A text, and then what a rest of the format prints.
  Renders-before :
      (acc l : List ℕ) (r : Option (S × ℕ)) (rest : Option (List ℕ))
      → Renders (acc ++ l) r rest
      → Renders acc r (before l rest)
  unfolding before
  Renders-before acc l none none h = tt
  Renders-before acc l (some r) none h = h
  Renders-before acc l none (some rest) h = h
  Renders-before acc l (some (s, total)) (some rest) h =
      subst (Gone s total) (append_assoc acc l rest) h

  print_rest-Renders :
      (acc : List ℕ) (next : S → ℕ → List Arg → Option (S × ℕ))
      → (show : List Arg → Option (List ℕ))
      → ((s : S) (total : ℕ) (acc : List ℕ) (args : List Arg)
          → Gone s total acc
          → Renders acc (next s total args) (show args))
      → (r : Option (Printed S)) (p : Piece) → Prints acc r p
      → Renders acc (print_rest out next r) (then_rest p show)
  unfolding print_rest then_rest
  print_rest-Renders acc next show each none none h = tt
  print_rest-Renders acc next show each none (some p) h = absurd h
  print_rest-Renders acc next show each (some r) none h = absurd h
  print_rest-Renders acc next show each (some (s, total, left)) (some (l, args)) (gone, e) =
      rw e
        (Renders-before acc l (next s total args) (show args) (each s total (acc ++ l) args gone))

  -- One turn of the loop and the two states behind a '%'.
  if-Renders :
      (acc : List ℕ) (b : Bool) (r r' : Option (S × ℕ)) (p p' : Option (List ℕ))
      → Renders acc r p
      → Renders acc r' p'
      → Renders acc (if b then r else r') (if b then p else p')
  if-Renders acc true r r' p p' h h' = h
  if-Renders acc false r r' p p' h h' = h'

  mutual
    unfolding vformat directive long_directive render render_directive render_long

    -- With an output that keeps what it is given: `vformat` faults where the format has no text, and
    -- leaves the output with the text behind what it had otherwise.
    pub vformat-Renders :
        (fmt : List ℕ) (s : S) (total : ℕ) (acc : List ℕ) (args : List Arg)
        → Gone s total acc
        → Renders acc (vformat out fmt s total args) (render fmt args)
    vformat-Renders [] s total acc args gone = subst (Gone s total) (sym (append-nil acc)) gone
    vformat-Renders (c ∷ fmt) s total acc args gone =
        if-Renders acc (c == b'%') _ _ _ _ (directive-Renders fmt s total acc args gone) (
          print_rest-Renders acc (vformat out fmt) (render fmt) (vformat-Renders fmt)
            (some (emit out s total args (c ∷ []))) (some (c ∷ [], args))
            (emit-Prints gone args (c ∷ [])))

    directive-Renders :
        (fmt : List ℕ) (s : S) (total : ℕ) (acc : List ℕ) (args : List Arg)
        → Gone s total acc
        → Renders acc (directive out fmt s total args) (render_directive fmt args)
    directive-Renders [] s total acc args gone = tt
    directive-Renders (c ∷ fmt) s total acc args gone =
        if-Renders acc (c == b'l') _ _ _ _ (long-Renders fmt s total acc args gone) (
          print_rest-Renders acc (vformat out fmt) (render fmt) (vformat-Renders fmt)
            (convert out false c s total args) (piece false c args)
            (convert-Prints gone args false c))

    long-Renders :
        (fmt : List ℕ) (s : S) (total : ℕ) (acc : List ℕ) (args : List Arg)
        → Gone s total acc
        → Renders acc (long_directive out fmt s total args) (render_long fmt args)
    long-Renders [] s total acc args gone = tt
    long-Renders (c ∷ fmt) s total acc args gone =
        print_rest-Renders acc (vformat out fmt) (render fmt) (vformat-Renders fmt)
          (convert out true c s total args) (piece true c args) (convert-Prints gone args true c)
