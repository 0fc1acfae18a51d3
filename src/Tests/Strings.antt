-- ===== src/Tests/Strings.antt =====
-- Blocks that overlap, short strings, and the first line of a script.
use os_agent_lab.Prelude.{
  zero, suc, ◌≤◌, ltb, ◌==◌, if◌then◌else◌, get_elem?, ℕ, ◌≡◌, ◌↔◌, refl, List, [], ◌∷◌, some,
  Result, ok, arith,
}
use os_agent_lab.Phys.{Bytes}
use os_agent_lab.Proc.Shebang.{
  IsScript, parse_shebang, parse_read, parse_line, with_arg, parse_arg, take_word, skip_blanks,
  parse_shebang-IsScript,
}
use os_agent_lab.UserLib.Fnmatch.{fnmatch}
use os_agent_lab.UserLib.Fnmatch.Decides.{Matches, fnmatch_iff}
use os_agent_lab.UserLib.Search.{Sign, below, same, above, bsearch}
use os_agent_lab.UserLib.Search.Finds.{IsOrdered, Found, bsearch-Found}
use os_agent_lab.UserLib.Printf.{word, vsnprintf}
use os_agent_lab.UserLib.Printf.Text.{render}
use os_agent_lab.UserLib.Printf.Render.Buffer.{Formatted, vsnprintf-Formatted}
use os_agent_lab.UserLib.Mem.{memmove}
use os_agent_lab.UserLib.Mem.Move.{IsCopied, memmove-IsCopied}
use os_agent_lab.UserLib.Str.{strtok_r}
use os_agent_lab.UserLib.Str.Tokens.{Token, strtok_r-Token}

abbrev numbers : Bytes
numbers i = i

-- Four bytes moved up by two.
memmove-IsCopied_example :
    ((memmove 12 10 4 numbers).0 ≡ 12) × IsCopied 12 10 4 numbers (memmove 12 10 4 numbers).1
memmove-IsCopied_example = memmove-IsCopied 12 10 4 numbers

abbrev aab : List ℕ
aab = b'a' ∷ b'a' ∷ b'b' ∷ []

strtok_r-Token_example : Token aab (b'a' ∷ []) (strtok_r aab (b'a' ∷ []))
strtok_r-Token_example = strtok_r-Token aab (b'a' ∷ [])

-- "#! sh -e\n"
abbrev script_line : List ℕ
script_line = b' ' ∷ b's' ∷ b'h' ∷ b' ' ∷ b'-' ∷ b'e' ∷ b'\n' ∷ []

abbrev sh : List ℕ
sh = b's' ∷ b'h' ∷ []

abbrev dash_e : List ℕ
dash_e = b'-' ∷ b'e' ∷ []

script_run : parse_shebang (ok (b'#' ∷ b'!' ∷ script_line)) 64 64 ≡ ok (some (sh, dash_e))
unfolding parse_shebang parse_read parse_line with_arg parse_arg take_word skip_blanks
script_run = refl

parse_shebang-IsScript_example :
    (s : List ℕ) × (◌≡◌ {A = Result (List ℕ)}
      (ok (b'#' ∷ b'!' ∷ script_line))
      (ok (b'#' ∷ b'!' ∷ s)))
    × IsScript s sh dash_e 64 64
parse_shebang-IsScript_example =
    parse_shebang-IsScript (ok (b'#' ∷ b'!' ∷ script_line)) 64 64 sh dash_e script_run

-- "a*b?"
abbrev glob : List ℕ
glob = b'a' ∷ b'*' ∷ b'b' ∷ b'?' ∷ []

fnmatch_iff_example : (fnmatch (some glob) (some aab) 0 ≡ 0) ↔ Matches glob aab
fnmatch_iff_example = fnmatch_iff glob aab 0

-- "%d" with 42 into two bytes.
vsnprintf-Formatted_example :
    Formatted
      (λ i. 7)
      2
      (render (b'%' ∷ b'd' ∷ []) (word 42 ∷ []))
      (vsnprintf (λ i. 7) 2 (b'%' ∷ b'd' ∷ []) (word 42 ∷ []))
vsnprintf-Formatted_example = vsnprintf-Formatted (λ i. 7) 2 (b'%' ∷ b'd' ∷ []) (word 42 ∷ [])

-- Whether 5 is below, at or above a number.
abbrev five_to : ℕ → Sign
five_to x = if ltb 5 x then below else if 5 == x then same else above

abbrev sorted : List ℕ
sorted = 1 ∷ 5 ∷ 9 ∷ []

five_to-le :
    (a b : ℕ)
    → a ≤ b
    → (five_to b ≡ above → five_to a ≡ above) × (five_to a ≡ below → five_to b ≡ below)
five_to-le a b le = (ground arith, ground arith)

sorted-le :
    (i j a b : ℕ) → i ≤ j → get_elem? sorted i ≡ some a → get_elem? sorted j ≡ some b → a ≤ b
sorted-le zero zero a b le p q = ground arith
sorted-le zero (suc zero) a b le p q = ground arith
sorted-le zero (suc (suc zero)) a b le p q = ground arith
sorted-le (suc zero) zero a b le p q = absurd (omega arith)
sorted-le (suc zero) (suc zero) a b le p q = ground arith
sorted-le (suc zero) (suc (suc zero)) a b le p q = ground arith
sorted-le (suc (suc zero)) zero a b le p q = absurd (omega arith)
sorted-le (suc (suc zero)) (suc zero) a b le p q = absurd (omega arith)
sorted-le (suc (suc zero)) (suc (suc zero)) a b le p q = ground arith
sorted-le (suc (suc (suc i))) j a b le p q = cc p
sorted-le i (suc (suc (suc j))) a b le p q = cc q

sorted-IsOrdered : IsOrdered five_to sorted
sorted-IsOrdered = record { before = λ i j a b le p q. five_to-le a b (sorted-le i j a b le p q) }

bsearch-Found_example : Found five_to sorted (bsearch five_to sorted)
bsearch-Found_example = bsearch-Found five_to sorted sorted-IsOrdered (omega arith)
