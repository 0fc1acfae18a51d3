-- ===== src/Path.antt =====
-- Paths: `path_next` of GPT-5.2-Codex/code/kernel/vfs.c, which takes the next name off a path. A path
-- is the list of its bytes before the NUL.
pub mod Split
use os_agent_lab.Prelude.{
  ℕ, zero, suc, ◌-◌, Bool, true, false, Option, none, some, List, [], ◌∷◌, ◌==◌, if◌then◌else◌,
  take,
}

-- while (*p == '/') p++
pub skip_slashes : List ℕ → List ℕ
skip_slashes [] = []
skip_slashes (c ∷ cs) = let rest = skip_slashes cs in if c == b'/' then rest else c ∷ cs

-- The bytes up to the next slash, of which `left` are copied, and the rest of the path.
pub scan_name : ℕ → List ℕ → List ℕ × List ℕ
scan_name left [] = ([], [])
scan_name zero (c ∷ cs) = let rest = scan_name zero cs in if c == b'/' then ([], c ∷ cs) else rest
scan_name (suc left) (c ∷ cs) =
    let rest = scan_name left cs in if c == b'/' then ([], c ∷ cs) else (c ∷ rest.0, rest.1)

-- What `path_next` makes of a path that does not begin with a slash.
pub name_of : ℕ → List ℕ → Option (List ℕ × List ℕ)
unfolding scan_name
name_of left [] = none
name_of left (c ∷ cs) = some (scan_name left (c ∷ cs))

-- The name, cut to what `name` holds with its NUL, and where the path goes on; `none` is NULL.
pub path_next : List ℕ → ℕ → Option (List ℕ × List ℕ)
unfolding name_of skip_slashes
path_next p name_len = name_of (name_len - 1) (skip_slashes p)
