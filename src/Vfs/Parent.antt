-- ===== src/Vfs/Parent.antt =====
-- `vfs_resolve_parent_at` enters all names of its path but the last.
use os_agent_lab.Prelude.{
  ℕ, zero, suc, ◌<◌, ◌≡◌, refl, ap, ◌∙◌, inl, inr, Bool, true, false, Option, none, some, List, [],
  ◌∷◌, length, arith, Result, ok, err, enoent, einval, Option-cases,
}
use os_agent_lab.Path.{skip_slashes}
use os_agent_lab.Path.Split.{names, path_next-NextOutcome, skip_slashes-names}
use os_agent_lab.Vfs.{
  Vfs, FileSystems, Run, done, and_then, parent_loop, vfs_resolve_parent_at, is_empty, start_at,
  vfs_follow_mount,
}
use os_agent_lab.Vfs.Enter.{StartsAt, StartsAt-start_at, enter, step_into-enter}
use os_agent_lab.Vfs.Walk.{and_then-congr}

module _ {F : Type 0} where
  -- From `cur`, all names but the last, which is returned beside the directory reached.
  unfoldable pub walk_parent :
      FileSystems F
      → Bool
      → Option ℕ
      → List (List ℕ)
      → Vfs F
      → Run (Result (Option ℕ × List ℕ) × Vfs F)
  walk_parent fs create cur [] w = done (err einval, w)
  walk_parent fs create cur (n ∷ []) w = done (ok (cur, n), w)
  walk_parent fs create cur (n ∷ m ∷ ns) w =
      and_then (enter fs create n cur w) (λ cur' w'. walk_parent fs create cur' (m ∷ ns) w')

  parent_loop-walk_parent :
      (fs : FileSystems F) (fuel : ℕ) (create : Bool) (cur : Option ℕ) (p : List ℕ) (w : Vfs F)
      → length p < fuel
      → parent_loop fs fuel create cur p w ≡ walk_parent fs create cur (names 255 p) w
  unfolding parent_loop walk_parent
  parent_loop-walk_parent fs zero create cur p w h = absurd (omega arith)
  parent_loop-walk_parent fs (suc fuel) create cur p w h = elim (path_next-NextOutcome p 256) [
    | inl (e, n) ↦ rw (e, n, parent_loop) refl
    | inr (n, p', e, split, short) ↦ elim (skip_slashes-names 255 p') [
      | inl (q, nothing) ↦
          let last : is_empty (skip_slashes p') ≡ true = rw q refl in
          rw (e, split, nothing, last, parent_loop) refl
      | inr (c, cs, m, ns, q, more, same, le) ↦
          let rest : (c' : Option ℕ) (w' : Vfs F)
              → parent_loop fs fuel create c' (skip_slashes p') w'
                ≡ walk_parent fs create c' (m ∷ ns) w' =
            λ c' w'.
              parent_loop-walk_parent fs fuel create c' (skip_slashes p') w'
                (omega (arith, short, le))
              ∙ ap (λ xs. walk_parent fs create c' xs w') (same ∙ more) in
          let more_left : is_empty (skip_slashes p') ≡ false = rw q refl in
          rw (e, split, more, more_left, parent_loop, step_into-enter fs create n cur w)
            (and_then-congr (enter fs create n cur w) _ _ rest)
    ]
  ]

  -- The names of a path but the last, from a place to start.
  unfoldable pub parent_from :
      FileSystems F
      → Bool
      → Option ℕ
      → List (List ℕ)
      → Vfs F
      → Run (Result (Option ℕ × List ℕ) × Vfs F)
  unfolding walk_parent
  parent_from fs create none ns w = done (err enoent, w)
  parent_from fs create (some v) ns w = walk_parent fs create (vfs_follow_mount (some v) w) ns w

  -- The start as the code picks it.
  pub vfs_resolve_parent_at-start_at :
      (fs : FileSystems F) (cwd : Option ℕ) (path : List ℕ) (create : Bool) (w : Vfs F)
      → vfs_resolve_parent_at fs cwd path create w
        ≡ parent_from fs create (start_at cwd path w) (names 255 path) w
  unfolding vfs_resolve_parent_at parent_from
  vfs_resolve_parent_at-start_at fs cwd path create w = elim (Option-cases (start_at cwd path w)) [
    | inl e ↦ rw (e, vfs_resolve_parent_at) refl
    | inr (v, e) ↦
        rw (e, vfs_resolve_parent_at)
          (parent_loop-walk_parent fs (suc (length path)) create (vfs_follow_mount (some v) w) path
            w (omega arith))
  ]

  -- Where the operations of the file systems return, `vfs_resolve_parent_at` ends: from the root for an
  -- absolute path, and otherwise from the directory given or the current one, it enters all names of
  -- the path but the last, making those for which `lookup` answers ENOENT where `create` says so, and
  -- returns the last beside the directory it reached; a path without a name is EINVAL, and ENOENT is
  -- the answer without a place to start.
  pub vfs_resolve_parent_at-parent_from :
      (fs : FileSystems F) (cwd : Option ℕ) (path : List ℕ) (create : Bool) (w : Vfs F)
      (start : Option ℕ)
      → StartsAt cwd path w start
      → vfs_resolve_parent_at fs cwd path create w ≡ parent_from fs create start (names 255 path) w
  vfs_resolve_parent_at-parent_from fs cwd path create w start at =
      vfs_resolve_parent_at-start_at fs cwd path create w
      ∙ ap (λ o. parent_from fs create o (names 255 path) w) (StartsAt-start_at cwd path w start at)
