-- ===== src/Vfs.antt =====
-- Path lookup over mounted file systems, GPT-5.2-Codex/code/kernel/vfs.c. The operations that a
-- vnode's table points to (ramfs.c, fat32.c) are a record that the functions take.
pub mod Enter
pub mod Walk
pub mod Parent
pub mod Make
use os_agent_lab.Prelude.{
  update, ℕ, zero, suc, ◌+◌, ◌-◌, Bool, true, false, ◌&&◌, ◌||◌, Option, none, some, List, [], ◌∷◌,
  ◌==◌, if◌then◌else◌, length, Result, ok, err, Errno, enoent, einval, enotdir, eisdir, eexist,
  enosys, enospc,
}
use os_agent_lab.Vnode.{Vnode, Pool, NodeType, OpsTable}
use os_agent_lab.Names.{name_eq_nocase}
use os_agent_lab.Path.{path_next, skip_slashes}

-- struct mount
pub record Mount : Type 0 where
  pub mountpoint : Option ℕ
  pub root : Option ℕ

-- g_mounts, g_root and g_cwd, beside the pool and the state of the file systems.
pub record Vfs (F : Type 0) : Type 0 where
  pub pool : Pool
  pub mounts : List Mount
  pub root : Option ℕ
  pub cwd : Option ℕ
  pub fs : F

-- The operations on a directory's vnode. A vnode that is handed out may be NULL.
pub record FileSystems (F : Type 0) : Type 0 where
  pub lookup : ℕ → List ℕ → Vfs F → Result (Option ℕ) × Vfs F
  pub mkdir : ℕ → List ℕ → Vfs F → Result (Option ℕ) × Vfs F
  pub create : ℕ → List ℕ → Vfs F → Result (Option ℕ) × Vfs F
  pub unlink : ℕ → List ℕ → Vfs F → Result (Unit {0}) × Vfs F

-- How a function ends: with a value, in an access through NULL, or not within its fuel.
pub data Run {ℓ} (A : Type ℓ) : Type ℓ where
  done : A → Run A
  fault : Run A
  timeout : Run A

-- The next step, unless the first one failed.
pub and_then :
    {F A B : Type 0}
    → Run (Result A × Vfs F)
    → (A → Vfs F → Run (Result B × Vfs F))
    → Run (Result B × Vfs F)
and_then (done (ok a, w)) next = next a w
and_then (done (err e, w)) next = done (err e, w)
and_then fault next = fault
and_then timeout next = timeout

-- A pointer compared with a vnode.
abbrev pub is_at : ℕ → Option ℕ → Bool
is_at v none = false
is_at v (some u) = u == v

abbrev pub is_empty : List ℕ → Bool
is_empty [] = true
is_empty (c ∷ cs) = false

abbrev pub is_enoent : Errno → Bool
is_enoent e = elim e [ enoent ↦ true | _ ↦ false ]

abbrev pub vnode_is_dir : Vnode → Bool
vnode_is_dir x = elim x.type [ NodeType.dir ↦ true | _ ↦ false ]

abbrev pub has_ops : Vnode → Bool
has_ops x = elim x.ops [ OpsTable.null ↦ false | _ ↦ true ]

-- strcmp(name, ".") == 0, strcmp(name, "..") == 0 and path[0] == '/'
abbrev pub is_dot : List ℕ → Bool
is_dot (c ∷ []) = c == b'.'
is_dot _ = false

abbrev pub is_dot_dot : List ℕ → Bool
is_dot_dot (c ∷ d ∷ []) = c == b'.' && d == b'.'
is_dot_dot _ = false

abbrev pub is_absolute : List ℕ → Bool
is_absolute [] = false
is_absolute (c ∷ cs) = c == b'/'

module _ {F : Type 0} where
  pub vfs_is_root_vnode : Option ℕ → Vfs F → Bool
  vfs_is_root_vnode none w = false
  vfs_is_root_vnode (some v) w =
      let x = w.pool.vnode v in is_at v w.root || (is_at v x.parent && is_empty x.name)

  -- Whether the vnode stands where the mount point does: in the root, under the same name.
  pub shadows : Option ℕ → ℕ → Vfs F → Bool
  unfolding vfs_is_root_vnode
  shadows none v w = false
  shadows (some mp) v w =
      let x = w.pool.vnode v in
      vnode_is_dir x
      && (vfs_is_root_vnode x.parent w && name_eq_nocase x.name (w.pool.vnode mp).name)

  -- The loop over g_mounts.
  pub follow_from : List Mount → ℕ → Vfs F → Option ℕ
  unfolding shadows
  follow_from [] v w = some v
  follow_from (m ∷ ms) v w =
      let rest = follow_from ms v w in
      if is_at v m.mountpoint then m.root else (if shadows m.mountpoint v w then m.root else rest)

  pub vfs_follow_mount : Option ℕ → Vfs F → Option ℕ
  unfolding follow_from
  vfs_follow_mount none w = none
  vfs_follow_mount (some v) w = follow_from w.mounts v w

  -- What follows a call of `lookup` in the two loops: with `create`, a missing directory is made.
  pub made :
      FileSystems F → Bool → List ℕ → ℕ → Result (Option ℕ) × Vfs F → Result (Option ℕ) × Vfs F
  made fs create name v (ok x, w) = (ok x, w)
  made fs create name v (err e, w) = if is_enoent e && create then fs.mkdir v name w else (err e, w)

  pub entered : Result (Option ℕ) × Vfs F → Run (Result (Option ℕ) × Vfs F)
  unfolding vfs_follow_mount
  entered (ok x, w) = done (ok (vfs_follow_mount x w), w)
  entered (err e, w) = done (err e, w)

  -- cur->ops->lookup
  pub descend : FileSystems F → Bool → List ℕ → ℕ → Vfs F → Run (Result (Option ℕ) × Vfs F)
  unfolding made entered
  descend fs create name v w =
      let x = w.pool.vnode v in
      if vnode_is_dir x && has_ops x
      then entered (made fs create name v (fs.lookup v name w))
      else done (err enotdir, w)

  -- cur->parent, if there is one
  abbrev pub up : ℕ → Vfs F → Option ℕ
  up v w = elim (w.pool.vnode v).parent [ none ↦ some v | some p ↦ some p ]

  -- One round of the loops, from a name on.
  pub step_into : FileSystems F → Bool → List ℕ → Option ℕ → Vfs F → Run (Result (Option ℕ) × Vfs F)
  unfolding descend
  step_into fs create name none w = if is_dot name then done (ok none, w) else fault
  step_into fs create name (some v) w =
      let into = descend fs create name v w in
      if is_dot name
      then done (ok (some v), w)
      else (if is_dot_dot name then done (ok (up v w), w) else into)

  -- The loop of `vfs_lookup_at`.
  pub lookup_loop : FileSystems F → ℕ → Option ℕ → List ℕ → Vfs F → Run (Result (Option ℕ) × Vfs F)
  unfolding step_into and_then
  lookup_loop fs zero cur p w = timeout
  lookup_loop fs (suc fuel) cur p w = elim (path_next p 256) [
    | none ↦ done (ok cur, w)
    | some (name, p') ↦
        and_then (step_into fs false name cur w) (λ cur' w'. lookup_loop fs fuel cur' p' w')
  ]

  abbrev pub start_at : Option ℕ → List ℕ → Vfs F → Option ℕ
  start_at cwd path w =
      if is_absolute path then w.root else elim cwd [ none ↦ w.cwd | some v ↦ some v ]

  pub vfs_lookup_at : FileSystems F → Option ℕ → List ℕ → Vfs F → Run (Result (Option ℕ) × Vfs F)
  unfolding lookup_loop
  vfs_lookup_at fs cwd path w = elim (start_at cwd path w) [
    | none ↦ done (err enoent, w)
    | some v ↦ lookup_loop fs (suc (length path)) (vfs_follow_mount (some v) w) path w
  ]

  -- The loop of `vfs_resolve_parent_at`: the directory, and the last name of the path.
  pub parent_loop :
      FileSystems F
      → ℕ
      → Bool
      → Option ℕ
      → List ℕ
      → Vfs F
      → Run (Result (Option ℕ × List ℕ) × Vfs F)
  unfolding step_into and_then
  parent_loop fs zero create cur p w = timeout
  parent_loop fs (suc fuel) create cur p w = elim (path_next p 256) [
    | none ↦ done (err einval, w)
    | some (name, next) ↦
        let into =
          and_then (step_into fs create name cur w)
            (λ cur' w'. parent_loop fs fuel create cur' (skip_slashes next) w') in
        if is_empty (skip_slashes next) then done (ok (cur, name), w) else into
  ]

  pub vfs_resolve_parent_at :
      FileSystems F → Option ℕ → List ℕ → Bool → Vfs F → Run (Result (Option ℕ × List ℕ) × Vfs F)
  unfolding parent_loop
  vfs_resolve_parent_at fs cwd path create w = elim (start_at cwd path w) [
    | none ↦ done (err enoent, w)
    | some v ↦ parent_loop fs (suc (length path)) create (vfs_follow_mount (some v) w) path w
  ]
