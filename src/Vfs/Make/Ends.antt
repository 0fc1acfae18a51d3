-- ===== src/Vfs/Make/Ends.antt =====
-- No operation on a path runs out of its fuel: each returns or faults, where the operations of the
-- file systems return.
use os_agent_lab.Prelude.{
  ℕ, sym, subst, Bool, true, false, Option, none, some, List, [], ◌∷◌, ◌&&◌, if◌then◌else◌, Result,
  ok, err,
}
use os_agent_lab.Path.Split.{names}
use os_agent_lab.Vfs.{
  Vfs, FileSystems, Run, done, fault, timeout, and_then, step_into, descend, entered, made,
  is_empty, is_dot, is_dot_dot, is_enoent, vnode_is_dir, has_ops, start_at, vfs_follow_mount,
  vfs_lookup_at, vfs_resolve_parent_at,
}
use os_agent_lab.Vfs.Enter.{enter, step_into-enter}
use os_agent_lab.Vfs.Walk.{walk_names, lookup_from, vfs_lookup_at-start_at}
use os_agent_lab.Vfs.Parent.{walk_parent, parent_from, vfs_resolve_parent_at-start_at}
use os_agent_lab.Vfs.Make.{
  in_parent, existing_file, existing_dir, after_lookup, vfs_create_at, vfs_mkdir_at, vfs_unlink_at,
}

-- A run that returns, or that faults.
abbrev pub Ends {ℓ} : {A : Type ℓ} → Run A → Type 0
Ends (done a) = Unit {0}
Ends fault = Unit {0}
Ends timeout = ⊥

Ends-if : {A : Type 0} (b : Bool) (r t : Run A) → Ends r → Ends t → Ends (if b then r else t)
Ends-if true r t h k = h
Ends-if false r t h k = k

module _ {F : Type 0} where
  and_then-Ends :
      {A B : Type 0} (r : Run (Result A × Vfs F)) (f : A → Vfs F → Run (Result B × Vfs F))
      → Ends r
      → ((a : A) (w : Vfs F) → Ends (f a w))
      → Ends (and_then r f)
  unfolding and_then
  and_then-Ends (done (ok a, w)) f h k = k a w
  and_then-Ends (done (err e, w)) f h k = tt
  and_then-Ends fault f h k = tt
  and_then-Ends timeout f h k = absurd h

  entered-Ends : (r : Result (Option ℕ) × Vfs F) → Ends (entered r)
  unfolding entered
  entered-Ends (ok x, w) = tt
  entered-Ends (err e, w) = tt

  step_into-Ends :
      (fs : FileSystems F) (create : Bool) (name : List ℕ) (cur : Option ℕ) (w : Vfs F)
      → Ends (step_into fs create name cur w)
  unfolding step_into descend
  step_into-Ends fs create name none w = Ends-if (is_dot name) _ _ tt tt
  step_into-Ends fs create name (some v) w = Ends-if (is_dot name) _ _ tt (
      Ends-if (is_dot_dot name) _ _ tt (
        Ends-if (vnode_is_dir (w.pool.vnode v) && has_ops (w.pool.vnode v)) _ _
          (entered-Ends (made fs create name v (fs.lookup v name w))) tt))

  enter-Ends :
      (fs : FileSystems F) (create : Bool) (name : List ℕ) (cur : Option ℕ) (w : Vfs F)
      → Ends (enter fs create name cur w)
  enter-Ends fs create name cur w =
      subst Ends (step_into-enter fs create name cur w) (step_into-Ends fs create name cur w)

  walk_names-Ends :
      (fs : FileSystems F) (cur : Option ℕ) (ns : List (List ℕ)) (w : Vfs F)
      → Ends (walk_names fs cur ns w)
  unfolding walk_names
  walk_names-Ends fs cur [] w = tt
  walk_names-Ends fs cur (n ∷ ns) w =
      and_then-Ends (enter fs false n cur w) _ (enter-Ends fs false n cur w)
        (λ c w'. walk_names-Ends fs c ns w')

  walk_parent-Ends :
      (fs : FileSystems F) (create : Bool) (cur : Option ℕ) (ns : List (List ℕ)) (w : Vfs F)
      → Ends (walk_parent fs create cur ns w)
  unfolding walk_parent
  walk_parent-Ends fs create cur [] w = tt
  walk_parent-Ends fs create cur (n ∷ []) w = tt
  walk_parent-Ends fs create cur (n ∷ m ∷ ns) w =
      and_then-Ends (enter fs create n cur w) _ (enter-Ends fs create n cur w)
        (λ c w'. walk_parent-Ends fs create c (m ∷ ns) w')

  lookup_from-Ends :
      (fs : FileSystems F) (start : Option ℕ) (ns : List (List ℕ)) (w : Vfs F)
      → Ends (lookup_from fs start ns w)
  unfolding lookup_from
  lookup_from-Ends fs none ns w = tt
  lookup_from-Ends fs (some v) ns w = walk_names-Ends fs (vfs_follow_mount (some v) w) ns w

  parent_from-Ends :
      (fs : FileSystems F) (create : Bool) (start : Option ℕ) (ns : List (List ℕ)) (w : Vfs F)
      → Ends (parent_from fs create start ns w)
  unfolding parent_from
  parent_from-Ends fs create none ns w = tt
  parent_from-Ends fs create (some v) ns w =
      walk_parent-Ends fs create (vfs_follow_mount (some v) w) ns w

  lookup-Ends :
      (fs : FileSystems F) (cwd : Option ℕ) (path : List ℕ) (w : Vfs F)
      → Ends (vfs_lookup_at fs cwd path w)
  lookup-Ends fs cwd path w =
      subst Ends (sym (vfs_lookup_at-start_at fs cwd path w))
        (lookup_from-Ends fs (start_at cwd path w) (names 255 path) w)

  resolve-Ends :
      (fs : FileSystems F) (cwd : Option ℕ) (path : List ℕ) (create : Bool) (w : Vfs F)
      → Ends (vfs_resolve_parent_at fs cwd path create w)
  resolve-Ends fs cwd path create w =
      subst Ends (sym (vfs_resolve_parent_at-start_at fs cwd path create w))
        (parent_from-Ends fs create (start_at cwd path w) (names 255 path) w)

  in_parent-Ends :
      {A : Type 0} (op : ℕ → List ℕ → Vfs F → Result A × Vfs F) (r : Option ℕ × List ℕ) (w : Vfs F)
      → Ends (in_parent op r w)
  unfolding in_parent
  in_parent-Ends op (none, name) w = Ends-if (is_empty name) _ _ tt tt
  in_parent-Ends op (some v, name) w =
      Ends-if (is_empty name) _ _ tt (Ends-if (has_ops (w.pool.vnode v)) _ _ tt tt)

  existing_file-Ends : (vn : Option ℕ) (w : Vfs F) → Ends (existing_file vn w)
  unfolding existing_file
  existing_file-Ends none w = tt
  existing_file-Ends (some v) w = Ends-if (vnode_is_dir (w.pool.vnode v)) _ _ tt tt

  existing_dir-Ends : (vn : Option ℕ) (w : Vfs F) → Ends (existing_dir vn w)
  unfolding existing_dir
  existing_dir-Ends none w = tt
  existing_dir-Ends (some v) w = Ends-if (vnode_is_dir (w.pool.vnode v)) _ _ tt tt

  after_lookup-Ends :
      (r : Run (Result (Option ℕ) × Vfs F))
      (there : Option ℕ → Vfs F → Run (Result (Option ℕ) × Vfs F))
      (missing : Vfs F → Run (Result (Option ℕ) × Vfs F))
      → Ends r
      → ((vn : Option ℕ) (w : Vfs F) → Ends (there vn w))
      → ((w : Vfs F) → Ends (missing w))
      → Ends (after_lookup r there missing)
  unfolding after_lookup
  after_lookup-Ends (done (ok vn, w)) there missing h k l = k vn w
  after_lookup-Ends (done (err e, w)) there missing h k l = Ends-if (is_enoent e) _ _ (l w) tt
  after_lookup-Ends fault there missing h k l = tt
  after_lookup-Ends timeout there missing h k l = absurd h

  -- For file systems whose operations always return, `vfs_create_at`, `vfs_mkdir_at` and
  -- `vfs_unlink_at` end on every path and in every state: they return, or go through a vnode that was
  -- handed out as NULL.
  pub operations-Ends :
      (fs : FileSystems F) (cwd : Option ℕ) (path : List ℕ) (w : Vfs F)
      → Ends (vfs_create_at fs cwd path w)
        × Ends (vfs_mkdir_at fs cwd path w)
        × Ends (vfs_unlink_at fs cwd path w)
  unfolding vfs_create_at vfs_mkdir_at vfs_unlink_at
  operations-Ends fs cwd path w = (
    after_lookup-Ends (vfs_lookup_at fs cwd path w) existing_file _ (lookup-Ends fs cwd path w)
        existing_file-Ends
        (λ w'.
          and_then-Ends (vfs_resolve_parent_at fs cwd path true w') _
            (resolve-Ends fs cwd path true w') (in_parent-Ends fs.create)),
    after_lookup-Ends (vfs_lookup_at fs cwd path w) existing_dir _ (lookup-Ends fs cwd path w)
        existing_dir-Ends
        (λ w'.
          and_then-Ends (vfs_resolve_parent_at fs cwd path true w') _
            (resolve-Ends fs cwd path true w') (in_parent-Ends fs.mkdir)),
    and_then-Ends (vfs_resolve_parent_at fs cwd path false w) _ (resolve-Ends fs cwd path false w)
        (in_parent-Ends fs.unlink),
  )
