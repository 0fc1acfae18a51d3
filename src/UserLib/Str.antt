-- ===== src/UserLib/Str.antt =====
-- The functions on strings of GPT-5.2-Codex/code/user/lib/string.c, and tolower of ctype.c. A string
-- is the list of its bytes up to the NUL, and a pointer into it is the rest of the list from there.
pub mod Find
pub mod Tokens
use os_agent_lab.Prelude.{
  ℕ, zero, suc, ◌+◌, ◌-◌, ◌%◌, Bool, true, false, ◌&&◌, ◌||◌, not, List, [], ◌∷◌, Option, none,
  some, ◌==◌, ltb, leb, if◌then◌else◌,
}

-- int, as far as these functions return it
pub data ℤ : Type 0 where
  pos : ℕ → ℤ
  negsuc : ℕ → ℤ

-- a - b of two unsigned bytes
unfoldable pub diff : ℕ → ℕ → ℤ
diff a b = if ltb a b then negsuc (b - a - 1) else pos (a - b)

pub strlen : List ℕ → ℕ
strlen [] = 0
strlen (c ∷ s) = strlen s + 1

pub strnlen : List ℕ → ℕ → ℕ
strnlen s zero = 0
strnlen [] (suc n) = 0
strnlen (c ∷ s) (suc n) = strnlen s n + 1

-- The NUL counts as the byte 0.
pub strcmp : List ℕ → List ℕ → ℤ
unfolding diff
strcmp [] [] = diff 0 0
strcmp [] (b ∷ bs) = diff 0 b
strcmp (a ∷ as') [] = diff a 0
strcmp (a ∷ as') (b ∷ bs) = let rest = strcmp as' bs in if a == b then rest else diff a b

pub strncmp : List ℕ → List ℕ → ℕ → ℤ
unfolding diff
strncmp a b zero = pos 0
strncmp [] [] (suc n) = diff 0 0
strncmp [] (b ∷ bs) (suc n) = diff 0 b
strncmp (a ∷ as') [] (suc n) = diff a 0
strncmp (a ∷ as') (b ∷ bs) (suc n) =
    let rest = strncmp as' bs n in if a == b then rest else diff a b

pub strcoll : List ℕ → List ℕ → ℤ
unfolding strcmp
strcoll a b = strcmp a b

pub tolower : ℕ → ℕ
tolower c = if leb b'A' c && leb c b'Z' then c - b'A' + b'a' else c

pub strcasecmp : List ℕ → List ℕ → ℤ
unfolding diff tolower
strcasecmp [] [] = diff 0 0
strcasecmp [] (b ∷ bs) = diff 0 b
strcasecmp (a ∷ as') [] = diff a 0
strcasecmp (a ∷ as') (b ∷ bs) =
    let rest = strcasecmp as' bs in
    if tolower a == tolower b then rest else diff (tolower a) (tolower b)

pub strncasecmp : List ℕ → List ℕ → ℕ → ℤ
unfolding diff tolower
strncasecmp a b zero = pos 0
strncasecmp [] [] (suc n) = diff 0 0
strncasecmp [] (b ∷ bs) (suc n) = diff 0 b
strncasecmp (a ∷ as') [] (suc n) = diff a 0
strncasecmp (a ∷ as') (b ∷ bs) (suc n) =
    let rest = strncasecmp as' bs n in
    if tolower a == tolower b then rest else diff (tolower a) (tolower b)

-- The loop of `strchr` and `strchrnul`: a pointer to the first byte `c`, or to the NUL.
pub strchrnul_loop : ℕ → List ℕ → List ℕ
strchrnul_loop c [] = []
strchrnul_loop c (x ∷ s) = let rest = strchrnul_loop c s in if x == c then x ∷ s else rest

pub strchrnul : List ℕ → ℕ → List ℕ
unfolding strchrnul_loop
strchrnul s c = strchrnul_loop (c % 256) s

-- What `strchr` returns of a byte and the rest of the string; `nul` is whether it looks for the NUL.
pub strchr_loop : ℕ → Bool → List ℕ → Option (List ℕ)
strchr_loop c nul [] = if nul then some [] else none
strchr_loop c nul (x ∷ s) = let rest = strchr_loop c nul s in if x == c then some (x ∷ s) else rest

pub strchr : List ℕ → ℕ → Option (List ℕ)
unfolding strchr_loop
strchr s c = strchr_loop (c % 256) (c == 0) s

pub strrchr_loop : ℕ → Bool → List ℕ → Option (List ℕ) → Option (List ℕ)
strrchr_loop c nul [] last = if nul then some [] else last
strrchr_loop c nul (x ∷ s) last = strrchr_loop c nul s (if x == c then some (x ∷ s) else last)

pub strrchr : List ℕ → ℕ → Option (List ℕ)
unfolding strrchr_loop
strrchr s c = strrchr_loop (c % 256) (c == 0) s none

pub index : List ℕ → ℕ → Option (List ℕ)
unfolding strchr
index s c = strchr s c

pub rindex : List ℕ → ℕ → Option (List ℕ)
unfolding strrchr
rindex s c = strrchr s c

-- The inner loop of `strstr`: whether `needle` is used up before a difference.
pub matches : List ℕ → List ℕ → Bool
matches h [] = true
matches [] (n ∷ ns) = false
matches (h ∷ hs) (n ∷ ns) = let rest = matches hs ns in if h == n then rest else false

pub strstr_loop : List ℕ → List ℕ → Option (List ℕ)
unfolding matches
strstr_loop needle [] = none
strstr_loop needle (h ∷ hs) =
    let rest = strstr_loop needle hs in if matches (h ∷ hs) needle then some (h ∷ hs) else rest

pub strstr : List ℕ → List ℕ → Option (List ℕ)
unfolding strstr_loop
strstr haystack [] = some haystack
strstr haystack (n ∷ ns) = strstr_loop (n ∷ ns) haystack

pub in_set : ℕ → List ℕ → Bool
in_set c [] = false
in_set c (p ∷ ps) = let rest = in_set c ps in if p == c then true else rest

pub strspn : List ℕ → List ℕ → ℕ
unfolding in_set
strspn [] accept = 0
strspn (c ∷ s) accept = let rest = strspn s accept + 1 in if in_set c accept then rest else 0

pub strcspn : List ℕ → List ℕ → ℕ
unfolding in_set
strcspn [] reject = 0
strcspn (c ∷ s) reject = let rest = strcspn s reject + 1 in if in_set c reject then 0 else rest

pub strpbrk : List ℕ → List ℕ → Option (List ℕ)
unfolding in_set
strpbrk [] accept = none
strpbrk (c ∷ s) accept =
    let rest = strpbrk s accept in if in_set c accept then some (c ∷ s) else rest

-- The two loops of `strtok_r`: past the delimiters, and then the token and what follows it.
pub skip_delims : List ℕ → List ℕ → List ℕ
unfolding in_set
skip_delims [] delim = []
skip_delims (c ∷ s) delim = let rest = skip_delims s delim in if in_set c delim then rest else c ∷ s

pub cut_token : List ℕ → List ℕ → List ℕ × List ℕ
unfolding in_set
cut_token [] delim = ([], [])
cut_token (c ∷ s) delim =
    let (token, rest) = cut_token s delim in
    if in_set c delim then ([], c ∷ s) else (c ∷ token, rest)

-- The delimiter behind a token is overwritten by the NUL and passed.
pub after_token : List ℕ → List ℕ
after_token [] = []
after_token (c ∷ s) = s

pub token_from : List ℕ → List ℕ → Option (List ℕ × List ℕ)
unfolding cut_token after_token
token_from [] delim = none
token_from (c ∷ s) delim =
    let (token, rest) = cut_token (c ∷ s) delim in some (token, after_token rest)

-- A call with a string: its first token and the `*save` for the next call, or NULL for both.
pub strtok_r : List ℕ → List ℕ → Option (List ℕ × List ℕ)
unfolding token_from skip_delims
strtok_r s delim = token_from (skip_delims s delim) delim
