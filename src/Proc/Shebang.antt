-- ===== src/Proc/Shebang.antt =====
-- `parse_shebang` of GPT-5.2-Codex/code/kernel/proc.c: the interpreter and its argument in the first
-- line of a script.
use os_agent_lab.Prelude.{
  ℕ, ◌<◌, ◌≡◌, refl, ap, Bool, true, false, ◌||◌, not, List, [], ◌∷◌, ◌++◌, length, Option, none,
  some, ◌==◌, leb, if◌then◌else◌, Result, ok, err, einval, enoexec, e2big, arith, Bool-cases, inl,
  inr, subst, ◌∙◌, ap₂,
}

abbrev pub is_blank : ℕ → Bool
is_blank c = c == b' ' || c == b'\t'

-- The bytes that end a word; the end of the buffer does so too.
abbrev pub is_separator : ℕ → Bool
is_separator c = c == 0 || (is_blank c || (c == b'\n' || c == b'\r'))

abbrev pub ends_line : ℕ → Bool
ends_line c = c == 0 || (c == b'\n' || c == b'\r')

unfoldable pub skip_blanks : List ℕ → List ℕ
skip_blanks [] = []
skip_blanks (c ∷ s) = let rest = skip_blanks s in if is_blank c then rest else c ∷ s

-- A word and what is behind it.
unfoldable pub take_word : List ℕ → List ℕ × List ℕ
take_word [] = ([], [])
take_word (c ∷ s) =
    let (word, rest) = take_word s in if is_separator c then ([], c ∷ s) else (c ∷ word, rest)

-- The argument, for an array of `arg_len` bytes.
unfoldable pub parse_arg : List ℕ → ℕ → Result (List ℕ)
unfolding take_word
parse_arg [] arg_len = ok []
parse_arg (c ∷ s) arg_len =
    let (arg, rest) = take_word (c ∷ s) in
    if ends_line c then ok [] else (if leb arg_len (length arg) then err e2big else ok arg)

unfoldable pub with_arg : List ℕ → Result (List ℕ) → Result (Option (List ℕ × List ℕ))
with_arg interp (ok arg) = ok (some (interp, arg))
with_arg interp (err e) = err e

-- The line behind "#!".
unfoldable pub parse_line : List ℕ → ℕ → ℕ → Result (Option (List ℕ × List ℕ))
unfolding take_word skip_blanks parse_arg with_arg
parse_line s interp_len arg_len =
    let (interp, rest) = take_word (skip_blanks s) in
    if length interp == 0
    then err enoexec
    else (if leb interp_len (length interp)
        then err e2big
        else with_arg interp (parse_arg (skip_blanks rest) arg_len))

-- The bytes that `vfs_read` returned, at most 127. `none` is a file that is no script.
unfoldable pub parse_read : Result (List ℕ) → ℕ → ℕ → Result (Option (List ℕ × List ℕ))
unfolding parse_line
parse_read (err e) interp_len arg_len = err e
parse_read (ok []) interp_len arg_len = ok none
parse_read (ok (a ∷ [])) interp_len arg_len = ok none
parse_read (ok (a ∷ b ∷ s)) interp_len arg_len =
    if not (a == b'#') || not (b == b'!') then ok none else parse_line s interp_len arg_len

unfoldable pub parse_shebang : Result (List ℕ) → ℕ → ℕ → Result (Option (List ℕ × List ℕ))
unfolding parse_read
parse_shebang r interp_len arg_len =
    if interp_len == 0 || arg_len == 0 then err einval else parse_read r interp_len arg_len

-- Blanks only; no separator.
abbrev pub Blanks : List ℕ → Type 0
Blanks [] = Unit {0}
Blanks (c ∷ s) = (is_blank c ≡ true) × Blanks s

abbrev pub IsWord : List ℕ → Type 0
IsWord [] = Unit {0}
IsWord (c ∷ s) = (is_separator c ≡ false) × IsWord s

-- Where a word ends.
abbrev pub Ends : List ℕ → Type 0
Ends [] = Unit {0}
Ends (c ∷ s) = is_separator c ≡ true

skip_blanks-Blanks : (s : List ℕ) → (pre : List ℕ) × (s ≡ pre ++ skip_blanks s) × Blanks pre
unfolding skip_blanks
skip_blanks-Blanks [] = ([], refl, tt)
skip_blanks-Blanks (c ∷ s) = elim (Bool-cases (is_blank c)) [
  | inl e ↦
      let (pre, is, all) = skip_blanks-Blanks s in
      rw e (c ∷ pre, ap (λ (l : List ℕ). c ∷ l) is, (e, all))
  | inr e ↦ rw e ([], refl, tt)
]

-- What is taken is a word, up to where it ends.
record IsCut (s word rest : List ℕ) : Type 0 where
  pub joined : s ≡ word ++ rest
  pub no_separator : IsWord word
  pub ends : Ends rest

take_word-IsCut : (s : List ℕ) → IsCut s (take_word s).0 (take_word s).1
unfolding take_word
take_word-IsCut [] = record { joined = refl; no_separator = tt; ends = tt }
take_word-IsCut (c ∷ s) =
    let cut = take_word-IsCut s in
    elim (Bool-cases (is_separator c)) [
      | inl e ↦ rw e (record { joined = refl; no_separator = tt; ends = e })
      | inr e ↦ rw e (record {
        joined = ap (λ (l : List ℕ). c ∷ l) cut.joined;
        no_separator = (e, cut.no_separator);
        ends = cut.ends;
      })
    ]

-- The argument that stands at the beginning of `s`, or none where the line ends there.
record IsArg (s arg : List ℕ) (arg_len : ℕ) : Type 0 where
  pub rest : List ℕ
  pub joined : s ≡ arg ++ rest
  pub no_separator : IsWord arg
  pub fits : 0 < arg_len → length arg < arg_len

parse_arg-IsArg :
    (s : List ℕ) (arg_len : ℕ) (arg : List ℕ) → parse_arg s arg_len ≡ ok arg → IsArg s arg arg_len
unfolding parse_arg
parse_arg-IsArg [] arg_len arg h =
    let none_left : [] ≡ arg = cc h in
    subst (λ (a : List ℕ). IsArg [] a arg_len) none_left
      (record { rest = []; joined = refl; no_separator = tt; fits = λ pos. pos })
parse_arg-IsArg (c ∷ s) arg_len arg h =
    let cut = take_word-IsCut (c ∷ s) in
    elim (Bool-cases (ends_line c)) [
      | inl e ↦
          let h' : ◌≡◌ {A = Result (List ℕ)} (ok []) (ok arg) = rw e at h in
          let none_left : [] ≡ arg = cc h' in
          subst (λ (a : List ℕ). IsArg (c ∷ s) a arg_len) none_left
            (record { rest = c ∷ s; joined = refl; no_separator = tt; fits = λ pos. pos })
      | inr e ↦
          let word : List ℕ = (take_word (c ∷ s)).0 in
          elim (Bool-cases (leb arg_len (length word))) [
            | inl f ↦ cc (rw (e, f) at h)
            | inr f ↦
                let h' : ◌≡◌ {A = Result (List ℕ)} (ok word) (ok arg) = rw (e, f) at h in
                let same : word ≡ arg = cc h' in
                subst (λ (a : List ℕ). IsArg (c ∷ s) a arg_len) same
                  (record {
                    rest = (take_word (c ∷ s)).1;
                    joined = cut.joined;
                    no_separator = cut.no_separator;
                    fits = λ pos. ground (arith, f);
                  })
          ]
    ]

-- A script: "#!", blanks, the interpreter, blanks and the argument, which may be empty. Both are words
-- that fit their arrays, with the NUL.
pub record IsScript (s interp arg : List ℕ) (interp_len arg_len : ℕ) : Type 0 where
  pub before : List ℕ
  pub between : List ℕ
  pub rest : List ℕ
  pub joined : s ≡ before ++ (interp ++ (between ++ (arg ++ rest)))
  pub blanks : Blanks before × Blanks between
  pub words : IsWord interp × IsWord arg
  pub not_empty : 0 < length interp
  pub interp_fits : length interp < interp_len
  pub arg_fits : length arg < arg_len

with_arg-inv :
    (i : List ℕ) (r : Result (List ℕ)) (interp arg : List ℕ)
    → with_arg i r ≡ ok (some (interp, arg))
    → (i ≡ interp) × (r ≡ ok arg)
unfolding with_arg
with_arg-inv i (ok a) interp arg h =
    let pair : (i, a) ≡ (interp, arg) = cc h in
    (ap (λ (x : List ℕ × List ℕ). x.0) pair, ap (λ (x : List ℕ × List ℕ). ok x.1) pair)
with_arg-inv i (err e) interp arg h = cc h

parse_line-IsScript :
    (s : List ℕ) (interp_len arg_len : ℕ) (interp arg : List ℕ)
    → 0 < arg_len
    → parse_line s interp_len arg_len ≡ ok (some (interp, arg))
    → IsScript s interp arg interp_len arg_len
unfolding parse_line
parse_line-IsScript s interp_len arg_len interp arg pos h =
    let line : List ℕ = skip_blanks s in
    let i : List ℕ = (take_word line).0 in
    let behind : List ℕ = (take_word line).1 in
    let cut = take_word-IsCut line in
    let (before, joined, blanks) = skip_blanks-Blanks s in
    let (between, joined', blanks') = skip_blanks-Blanks behind in
    elim (Bool-cases (length i == 0)) [
      | inl e ↦ cc (rw e at h)
      | inr e ↦ elim (Bool-cases (leb interp_len (length i))) [
        | inl f ↦ cc (rw (e, f) at h)
        | inr f ↦
            let h' : with_arg i (parse_arg (skip_blanks behind) arg_len) ≡ ok (some (interp, arg)) =
              rw (e, f) at h in
            let (same, parsed) =
              with_arg-inv i (parse_arg (skip_blanks behind) arg_len) interp arg h' in
            let is = parse_arg-IsArg (skip_blanks behind) arg_len arg parsed in
            subst (λ (w : List ℕ). IsScript s w arg interp_len arg_len) same
              (record {
                before = before;
                between = between;
                rest = is.rest;
                joined =
                    joined
                    ∙ ap (λ (l : List ℕ). before ++ l)
                        (cut.joined
                          ∙ ap (λ (l : List ℕ). i ++ l)
                              (joined' ∙ ap (λ (l : List ℕ). between ++ l) is.joined));
                blanks = (blanks, blanks');
                words = (cut.no_separator, is.no_separator);
                not_empty = ground (arith, e);
                interp_fits = ground (arith, f);
                arg_fits = is.fits pos;
              })
      ]
    ]

parse_read-IsScript :
    (r : Result (List ℕ)) (interp_len arg_len : ℕ) (interp arg : List ℕ)
    → 0 < arg_len
    → parse_read r interp_len arg_len ≡ ok (some (interp, arg))
    → (s : List ℕ) × (r ≡ ok (b'#' ∷ b'!' ∷ s)) × IsScript s interp arg interp_len arg_len
unfolding parse_read
parse_read-IsScript (err e) interp_len arg_len interp arg pos h = cc h
parse_read-IsScript (ok []) interp_len arg_len interp arg pos h = cc h
parse_read-IsScript (ok (a ∷ [])) interp_len arg_len interp arg pos h = cc h
parse_read-IsScript (ok (a ∷ b ∷ s)) interp_len arg_len interp arg pos h =
    elim (Bool-cases (not (a == b'#') || not (b == b'!'))) [
      | inl e ↦ cc (rw e at h)
      | inr e ↦
          let hash : a ≡ b'#' = ground (arith, e) in
          let bang : b ≡ b'!' = ground (arith, e) in
          (
            s,
            ap₂ (λ (x y : ℕ). ok (x ∷ y ∷ s)) hash bang,
            parse_line-IsScript s interp_len arg_len interp arg pos (rw e at h),
          )
    ]

-- When `parse_shebang` finds an interpreter, the bytes read are "#!", blanks, the interpreter, blanks,
-- the argument, which may be empty, and the rest; both are words without separators, the interpreter
-- is not empty, and both fit the arrays they are copied to, with the NUL.
pub parse_shebang-IsScript :
    (r : Result (List ℕ)) (interp_len arg_len : ℕ) (interp arg : List ℕ)
    → parse_shebang r interp_len arg_len ≡ ok (some (interp, arg))
    → (s : List ℕ) × (r ≡ ok (b'#' ∷ b'!' ∷ s)) × IsScript s interp arg interp_len arg_len
unfolding parse_shebang
parse_shebang-IsScript r interp_len arg_len interp arg h =
    elim (Bool-cases (interp_len == 0 || arg_len == 0)) [
      | inl e ↦ cc (rw e at h)
      | inr e ↦ parse_read-IsScript r interp_len arg_len interp arg (ground (arith, e)) (rw e at h)
    ]
