-- ===== src/Names.antt =====
-- File names. A C string is the list of its bytes up to the NUL. vfs.c, ramfs.c and fat32.c of
-- GPT-5.2-Codex/code/kernel each hold a copy of the same comparison.
pub mod NoCase
use os_agent_lab.Prelude.{
  ℕ, ◌+◌, ◌-◌, Bool, true, false, ◌&&◌, List, [], ◌∷◌, leb, ◌==◌, if◌then◌else◌,
}

-- The case folding of the loop's body.
abbrev pub lower : ℕ → ℕ
lower c = if leb b'A' c && leb c b'Z' then c - b'A' + b'a' else c

-- The loop runs while neither string has ended; then both must have.
unfoldable pub name_eq_nocase : List ℕ → List ℕ → Bool
name_eq_nocase [] [] = true
name_eq_nocase [] (b ∷ bs) = false
name_eq_nocase (a ∷ as') [] = false
name_eq_nocase (a ∷ as') (b ∷ bs) =
    let rest = name_eq_nocase as' bs in if lower a == lower b then rest else false
