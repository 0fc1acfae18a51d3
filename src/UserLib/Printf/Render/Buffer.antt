-- ===== src/UserLib/Printf/Render/Buffer.antt =====
-- `vsnprintf` leaves the text in the buffer, as far as it fits.
use os_agent_lab.Prelude.{
  ℕ, zero, suc, ◌+◌, ◌-◌, ◌%◌, ◌<◌, min, ◌≡◌, refl, ◌&&◌, List, [], ◌∷◌, ◌++◌, Option, none, some,
  ◌==◌, ltb, leb, if◌then◌else◌, length, length-append, get_or, update, u64_mod, u32_mod, arith,
}
use os_agent_lab.UserLib.Printf.{
  Arg, BufCtx, copy_bytes, avail, out_buf, terminate, finish, vformat, vsnprintf,
}
use os_agent_lab.UserLib.Printf.Text.{render}
use os_agent_lab.UserLib.Printf.Render.{Renders, vformat-Renders}

get_or-append :
    (xs ys : List ℕ) (i : ℕ)
    → get_or (xs ++ ys) i 0
      ≡ (if ltb i (length xs) then get_or xs i 0 else get_or ys (i - length xs) 0)
get_or-append [] ys i = ground arith
get_or-append (x ∷ xs) ys zero = ground arith
get_or-append (x ∷ xs) ys (suc i) = ground (arith, get_or-append xs ys i)

copy_bytes_lem :
    (buf : ℕ → ℕ) (at : ℕ) (l : List ℕ) (copy i : ℕ)
    → copy_bytes buf at l copy i
      ≡ (if leb at i && ltb i (at + min copy (length l)) then get_or l (i - at) 0 else buf i)
unfolding copy_bytes
copy_bytes_lem buf at [] copy i = ground arith
copy_bytes_lem buf at (c ∷ l) zero i = ground arith
copy_bytes_lem buf at (c ∷ l) (suc copy) i =
    ground (arith, copy_bytes_lem (update buf at c) (suc at) l copy i)

out_buf_count : (b : BufCtx) (l : List ℕ) → (out_buf b l).1 ≡ length l % u32_mod
unfolding out_buf
out_buf_count b l = refl

-- What `buf` holds after the text `acc`, in a buffer of `size` bytes over `old`: the bytes that fit.
module _ (old : ℕ → ℕ) (size : ℕ) where
  abbrev Filled : (ℕ → ℕ) → List ℕ → Type 0
  Filled buf acc =
      (i : ℕ) → buf i ≡ (if ltb i (min (length acc) (size - 1)) then get_or acc i 0 else old i)

  record Fits (b : BufCtx) (acc : List ℕ) : Type 0 where
    pos_is : b.pos ≡ length acc
    size_is : b.size ≡ size
    filled : Filled b.buf acc

  -- As long as `pos` does not wrap around.
  abbrev Holds : BufCtx → List ℕ → Type 0
  Holds b acc = length acc < u64_mod → Fits b acc

  Filled-out_buf :
      (b : BufCtx) (acc l : List ℕ) → Fits b acc → Filled (out_buf b l).0.buf (acc ++ l)
  unfolding out_buf avail
  Filled-out_buf b acc l fits i =
      let copy = if ltb (length l) (avail b) then length l else avail b in
      ground (
        arith,
        fits.filled i,
        fits.pos_is,
        fits.size_is,
        length-append {0} acc l,
        copy_bytes_lem b.buf b.pos l copy i,
        get_or-append acc l i,
      )

  Holds-out_buf : (b : BufCtx) (acc l : List ℕ) → Holds b acc → Holds (out_buf b l).0 (acc ++ l)
  unfolding out_buf
  Holds-out_buf b acc l holds small =
      let grown : length (acc ++ l) ≡ length acc + length l = length-append acc l in
      let fits = holds (omega arith) in
      record {
        pos_is = omega (arith, fits.pos_is);
        size_is = fits.size_is;
        filled = Filled-out_buf b acc l fits;
      }

  -- The bytes of the text that fit with a NUL behind them; the buffer as it was, where it has none.
  abbrev pub IsText : List ℕ → (ℕ → ℕ) → Type 0
  IsText l buf =
      (i : ℕ)
      → buf i ≡ (
          if ltb i (min (length l) (size - 1))
          then get_or l i 0
          else if i == min (length l) (size - 1) && ltb 0 size
          then 0
          else old i)

  IsText-terminate : (b : BufCtx) (l : List ℕ) → Fits b l → IsText l (terminate b)
  unfolding terminate
  IsText-terminate b l fits i = ground (arith, fits.filled i, fits.pos_is, fits.size_is)

  abbrev pub Formatted : Option (List ℕ) → Option ((ℕ → ℕ) × ℕ) → Type 0
  Formatted none none = Unit {0}
  Formatted none (some r) = ⊥
  Formatted (some l) none = ⊥
  Formatted (some l) (some (buf, n)) =
      (n ≡ length l % u32_mod) × (length l < u64_mod → IsText l buf)

  Formatted-finish :
      (r : Option (BufCtx × ℕ)) (text : Option (List ℕ))
      → Renders out_buf Holds Holds-out_buf out_buf_count [] r text
      → Formatted text (finish r)
  unfolding finish
  Formatted-finish none none h = tt
  Formatted-finish none (some l) h = h
  Formatted-finish (some r) none h = h
  Formatted-finish (some (b, n)) (some l) (holds, count) =
      (count, λ small. IsText-terminate b l (holds small))

-- `vsnprintf` on a buffer of any size, a format and its arguments: it faults exactly where they have
-- no text (an argument missing or of another kind, a format that ends in a directive). Otherwise it
-- returns the length of the text (as a word of 32 bits), and, where that is below 2 ^ 64, the buffer
-- holds the first bytes of the text, up to the size less 1, with a NUL behind them, and is as it was
-- from there on; with size 0 it is as it was.
pub vsnprintf-Formatted :
    (buf : ℕ → ℕ) (size : ℕ) (fmt : List ℕ) (args : List Arg)
    → Formatted buf size (render fmt args) (vsnprintf buf size fmt args)
unfolding vsnprintf
vsnprintf-Formatted buf size fmt args =
    Formatted-finish buf size
      (vformat out_buf fmt (record { buf = buf; size = size; pos = 0 }) 0 args) (render fmt args)
      (vformat-Renders out_buf (Holds buf size) (Holds-out_buf buf size) out_buf_count fmt
        (record { buf = buf; size = size; pos = 0 }) 0 [] args
        (λ small. record { pos_is = refl; size_is = refl; filled = λ i. ground arith }, refl))
