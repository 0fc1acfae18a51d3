-- ===== src/Vfs/Enter.antt =====
-- What one name of a path leads to, and where a path starts, told apart from the code's loops.
use os_agent_lab.Prelude.{
  ℕ, ◌≡◌, ◌≢◌, refl, sym, Bool, true, false, ◌&&◌, Option, none, some, List, [], ◌∷◌, ◌==◌,
  if◌then◌else◌, Result, ok, err, enoent, enotdir, arith,
}
use os_agent_lab.Vfs.{
  Vfs, FileSystems, Run, done, fault, step_into, descend, entered, made, is_dot, is_dot_dot,
  is_absolute, vnode_is_dir, has_ops, start_at, vfs_follow_mount,
}

same_bytes : List ℕ → List ℕ → Bool
same_bytes [] [] = true
same_bytes [] (d ∷ t) = false
same_bytes (c ∷ s) [] = false
same_bytes (c ∷ s) (d ∷ t) = c == d && same_bytes s t

is_dot-same_bytes : (name : List ℕ) → is_dot name ≡ same_bytes name (b'.' ∷ [])
unfolding same_bytes
is_dot-same_bytes [] = refl
is_dot-same_bytes (c ∷ []) = ground arith
is_dot-same_bytes (c ∷ d ∷ s) = ground arith

is_dot_dot-same_bytes : (name : List ℕ) → is_dot_dot name ≡ same_bytes name (b'.' ∷ b'.' ∷ [])
unfolding same_bytes
is_dot_dot-same_bytes [] = refl
is_dot_dot-same_bytes (c ∷ []) = ground arith
is_dot_dot-same_bytes (c ∷ d ∷ []) = ground arith
is_dot_dot-same_bytes (c ∷ d ∷ e ∷ s) = ground arith

-- The path does not start with a slash.
abbrev pub IsRelative : List ℕ → Type 0
IsRelative [] = Unit {0}
IsRelative (c ∷ cs) = c ≢ b'/'

is_absolute-relative : (path : List ℕ) → IsRelative path → is_absolute path ≡ false
is_absolute-relative [] r = refl
is_absolute-relative (c ∷ cs) r = ground arith

module _ {F : Type 0} where
  -- A path that starts with a slash starts at the root, another one at the directory given, or at the
  -- current one where none is given.
  pub data StartsAt (cwd : Option ℕ) (path : List ℕ) (w : Vfs F) (o : Option ℕ) : Type 0 where
    absolute : (rest : List ℕ) → path ≡ b'/' ∷ rest → o ≡ w.root → StartsAt cwd path w o
    given : (v : ℕ) → IsRelative path → cwd ≡ some v → o ≡ some v → StartsAt cwd path w o
    current : IsRelative path → cwd ≡ none → o ≡ w.cwd → StartsAt cwd path w o

  pub StartsAt-start_at :
      (cwd : Option ℕ) (path : List ℕ) (w : Vfs F) (o : Option ℕ)
      → StartsAt cwd path w o
      → start_at cwd path w ≡ o
  StartsAt-start_at cwd path w o (StartsAt.absolute rest e is) = rw e (sym is)
  StartsAt-start_at cwd path w o (StartsAt.given v r e is) =
      rw (is_absolute-relative path r, e) (sym is)
  StartsAt-start_at cwd path w o (StartsAt.current r e is) =
      rw (is_absolute-relative path r, e) (sym is)

  -- What the answer of the directory's `lookup` for a name comes to: with `create`, a name that is not
  -- there is made a directory, and whatever is found or made is followed through the mounts.
  followed : Result (Option ℕ) × Vfs F → Run (Result (Option ℕ) × Vfs F)
  followed (ok x, w) = done (ok (vfs_follow_mount x w), w)
  followed (err e, w) = done (err e, w)

  pub found_or_made :
      FileSystems F
      → Bool
      → List ℕ
      → ℕ
      → Result (Option ℕ) × Vfs F
      → Run (Result (Option ℕ) × Vfs F)
  unfolding followed
  found_or_made fs true name v (err enoent, w) = followed (fs.mkdir v name w)
  found_or_made fs create name v r = followed r

  -- The name from the directory `v`: `.` stays, `..` goes to its parent, if it has one, and another
  -- name is looked up; anything but a directory with operations is ENOTDIR. From NULL only `.` works.
  pub enter : FileSystems F → Bool → List ℕ → Option ℕ → Vfs F → Run (Result (Option ℕ) × Vfs F)
  unfolding found_or_made same_bytes
  enter fs create name none w = if same_bytes name (b'.' ∷ []) then done (ok none, w) else fault
  enter fs create name (some v) w =
      let x = w.pool.vnode v in
      let parent : Option ℕ = elim x.parent [ none ↦ some v | some p ↦ some p ] in
      let inside = found_or_made fs create name v (fs.lookup v name w) in
      if same_bytes name (b'.' ∷ [])
      then done (ok (some v), w)
      else if same_bytes name (b'.' ∷ b'.' ∷ [])
      then done (ok parent, w)
      else if vnode_is_dir x && has_ops x
      then inside
      else done (err enotdir, w)

  entered-followed : (r : Result (Option ℕ) × Vfs F) → entered r ≡ followed r
  unfolding entered followed
  entered-followed (ok x, w) = refl
  entered-followed (err e, w) = refl

  entered-made :
      (fs : FileSystems F) (create : Bool) (name : List ℕ) (v : ℕ) (r : Result (Option ℕ) × Vfs F)
      → entered (made fs create name v r) ≡ found_or_made fs create name v r
  unfolding made found_or_made entered followed
  entered-made fs true name v (ok x, w) = refl
  entered-made fs false name v (ok x, w) = refl
  entered-made fs true name v (err e, w) =
      elim e
        as (λ k.
          entered (made fs true name v (err k, w)) ≡ found_or_made fs true name v (err k, w)) [
            | enoent ↦ entered-followed (fs.mkdir v name w)
            | _ ↦ refl
          ]
  entered-made fs false name v (err e, w) =
      elim e
        as (λ k.
          entered (made fs false name v (err k, w)) ≡ found_or_made fs false name v (err k, w)) [
            | enoent ↦ refl
            | _ ↦ refl
          ]

  pub step_into-enter :
      (fs : FileSystems F) (create : Bool) (name : List ℕ) (cur : Option ℕ) (w : Vfs F)
      → step_into fs create name cur w ≡ enter fs create name cur w
  unfolding step_into descend enter
  step_into-enter fs create name none w = rw (is_dot-same_bytes name) refl
  step_into-enter fs create name (some v) w =
      rw
        (
          is_dot-same_bytes name,
          is_dot_dot-same_bytes name,
          entered-made fs create name v (fs.lookup v name w),
        )
        refl
