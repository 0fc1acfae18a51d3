-- ===== src/Vfs/Make.antt =====
-- `vfs_create_at`, `vfs_mkdir_at` and `vfs_unlink_at`: a lookup, and then an operation in the parent.
pub mod Ends
use os_agent_lab.Prelude.{
  ℕ, Bool, true, false, Option, none, some, List, if◌then◌else◌, Result, ok, err, eisdir, eexist,
  einval, enosys,
}
use os_agent_lab.Vfs.{
  Vfs, FileSystems, Run, done, fault, timeout, and_then, is_empty, is_enoent, vnode_is_dir, has_ops,
  vfs_lookup_at, vfs_resolve_parent_at,
}

module _ {F : Type 0} where
  -- An operation on the last name of a path, in the directory that has been found for it.
  pub in_parent :
      {A : Type 0}
      → (ℕ → List ℕ → Vfs F → Result A × Vfs F)
      → Option ℕ × List ℕ
      → Vfs F
      → Run (Result A × Vfs F)
  in_parent op (none, name) w = if is_empty name then done (err einval, w) else fault
  in_parent op (some v, name) w =
      if is_empty name
      then done (err einval, w)
      else (if has_ops (w.pool.vnode v) then done (op v name w) else done (err enosys, w))

  -- The path exists: what `vfs_create_at` makes of that, and `vfs_mkdir_at`.
  pub existing_file : Option ℕ → Vfs F → Run (Result (Option ℕ) × Vfs F)
  existing_file none w = fault
  existing_file (some v) w =
      if vnode_is_dir (w.pool.vnode v) then done (err eisdir, w) else done (ok (some v), w)

  pub existing_dir : Option ℕ → Vfs F → Run (Result (Option ℕ) × Vfs F)
  existing_dir none w = fault
  existing_dir (some v) w =
      if vnode_is_dir (w.pool.vnode v) then done (ok (some v), w) else done (err eexist, w)

  -- After the lookup: the case of a vnode, and `missing` for ENOENT; other errors are returned.
  pub after_lookup :
      Run (Result (Option ℕ) × Vfs F)
      → (Option ℕ → Vfs F → Run (Result (Option ℕ) × Vfs F))
      → (Vfs F → Run (Result (Option ℕ) × Vfs F))
      → Run (Result (Option ℕ) × Vfs F)
  after_lookup (done (ok vn, w)) there missing = there vn w
  after_lookup (done (err e, w)) there missing = if is_enoent e then missing w else done (err e, w)
  after_lookup fault there missing = fault
  after_lookup timeout there missing = timeout

  pub vfs_create_at : FileSystems F → Option ℕ → List ℕ → Vfs F → Run (Result (Option ℕ) × Vfs F)
  unfolding after_lookup existing_file in_parent
  vfs_create_at fs cwd path w =
      after_lookup (vfs_lookup_at fs cwd path w) existing_file
        (λ w'. and_then (vfs_resolve_parent_at fs cwd path true w') (in_parent fs.create))

  pub vfs_mkdir_at : FileSystems F → Option ℕ → List ℕ → Vfs F → Run (Result (Option ℕ) × Vfs F)
  unfolding after_lookup existing_dir in_parent
  vfs_mkdir_at fs cwd path w =
      after_lookup (vfs_lookup_at fs cwd path w) existing_dir
        (λ w'. and_then (vfs_resolve_parent_at fs cwd path true w') (in_parent fs.mkdir))

  pub vfs_unlink_at : FileSystems F → Option ℕ → List ℕ → Vfs F → Run (Result (Unit {0}) × Vfs F)
  unfolding in_parent
  vfs_unlink_at fs cwd path w =
      and_then (vfs_resolve_parent_at fs cwd path false w) (in_parent fs.unlink)
