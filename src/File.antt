-- ===== src/File.antt =====
-- The open-file table, GPT-5.2-Codex/code/kernel/file.c: 64 reference-counted files. A pointer to
-- a file is its index; `ref` is an int, kept as its 32-bit pattern.
pub mod Refs
pub mod Io
use os_agent_lab.Prelude.{
  ℕ, zero, suc, ◌+◌, ◌-◌, Bool, true, false, Option, none, some, ◌==◌, if◌then◌else◌, add32, sub32,
  update,
}

-- NFILE
abbrev pub nfile : ℕ
nfile = 64

-- struct file; `vn` is NULL or a vnode's index.
pub record File : Type 0 where
  pub ref : ℕ
  pub readable : Bool
  pub writable : Bool
  pub off : ℕ
  pub vn : Option ℕ

-- g_file and g_file_used
pub record Files : Type 0 where
  pub file : ℕ → File
  pub used : ℕ → Bool

-- memset(&g_file[i], 0, …) and ref = 1
abbrev pub fresh_file : File
fresh_file = record { ref = 1; readable = false; writable = false; off = 0; vn = none }

-- The scan of `file_alloc`: the first unused index at or after `i`, among `left` ones.
unfoldable pub find_unused : ℕ → ℕ → Files → Option ℕ
find_unused zero i s = none
find_unused (suc left) i s =
    let rest = find_unused left (i + 1) s in if s.used i then rest else some i

unfoldable pub file_alloc : Files → Option ℕ × Files
unfolding find_unused
file_alloc s = elim (find_unused nfile 0 s) [
  | none ↦ (none, s)
  | some i ↦ (some i, record { used = update s.used i true; file = update s.file i fresh_file })
]

-- f->ref++
unfoldable pub file_dup : ℕ → Files → Files
file_dup f s = record s {
  file = update s.file f (record (s.file f) { ref = add32 (s.file f).ref 1 });
}

-- Clears what `file_close` clears when the last reference goes.
abbrev pub released : File → File
released x = record x { ref = 0; vn = none; off = 0; readable = false; writable = false }

unfoldable pub file_close : ℕ → Files → Files
file_close f s =
    let ref' = sub32 (s.file f).ref 1 in
    if ref' == 0
    then record { used = update s.used f false; file = update s.file f (released (s.file f)) }
    else record s { file = update s.file f (record (s.file f) { ref = ref' }) }
