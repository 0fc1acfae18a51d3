-- ===== src/UserLib/Fnmatch.antt =====
-- fnmatch of GPT-5.2-Codex/code/user/lib/fnmatch.c: a pattern of bytes, with `*` for any string and
-- `?` for any byte, against a whole string. Both are lists of bytes up to the NUL.
pub mod Decides
use os_agent_lab.Prelude.{
  ℕ, Bool, true, false, ◌||◌, List, [], ◌∷◌, Option, none, some, ◌==◌, if◌then◌else◌,
}

-- `*` and `?`
abbrev pub star : ℕ
star = b'*'

abbrev pub question : ℕ
question = b'?'

-- A turn of the loop on a byte of the pattern that is no `*`; `next` is the rest of the pattern.
pub match_byte : ℕ → (List ℕ → Bool) → List ℕ → Bool
match_byte p next [] = false
match_byte p next (c ∷ s) = if p == question then next s else if p == c then next s else false

-- `for (; *str; str++)`: whether the pattern matches at a byte of the string.
pub match_suffix : (List ℕ → Bool) → List ℕ → Bool
match_suffix here [] = false
match_suffix here (c ∷ s) = if here (c ∷ s) then true else match_suffix here s

pub match_end : List ℕ → Bool
match_end [] = true
match_end (c ∷ s) = false

-- The loop of `match_here`, and its branch for `*` from behind the first one: past further ones, and
-- then each place for the rest of the pattern.
unfoldable mutual
  unfolding match_byte match_suffix match_end

  pub match_here : List ℕ → List ℕ → Bool
  match_here [] = match_end
  match_here (p ∷ ps) =
      let behind = after_star ps in
      let next = match_here ps in λ s. if p == star then behind s else match_byte p next s

  pub after_star : List ℕ → List ℕ → Bool
  after_star [] = λ s. true
  after_star (p ∷ ps) =
      let behind = after_star ps in
      let next = match_here ps in
      λ s. if p == star then behind s else match_suffix (match_byte p next) s

abbrev pub fnm_nomatch : ℕ
fnm_nomatch = 1

-- `none` is a null pointer.
unfoldable pub fnmatch : Option (List ℕ) → Option (List ℕ) → ℕ → ℕ
unfolding match_here after_star
fnmatch none string flags = fnm_nomatch
fnmatch (some pattern') none flags = fnm_nomatch
fnmatch (some pattern') (some string) flags = if match_here pattern' string then 0 else fnm_nomatch
