-- ===== src/Vfs/Walk.antt =====
-- `vfs_lookup_at` goes through the names of its path, one after the other.
use os_agent_lab.Prelude.{
  ℕ, zero, suc, ◌<◌, ◌≡◌, ◌≢◌, refl, sym, ap, ◌∙◌, inl, inr, false, Option, none, some, List, [],
  ◌∷◌, ◌++◌, length, arith, Result, ok, err, enoent, Option-cases,
}
use os_agent_lab.Path.Split.{names, path_next-NextOutcome, names-join}
use os_agent_lab.Vfs.{
  Vfs, FileSystems, Run, done, fault, timeout, and_then, lookup_loop, vfs_lookup_at, start_at,
  vfs_follow_mount,
}
use os_agent_lab.Vfs.Enter.{StartsAt, StartsAt-start_at, enter, step_into-enter}

module _ {F : Type 0} where
  -- From `cur`, one name after the other.
  unfoldable pub walk_names :
      FileSystems F → Option ℕ → List (List ℕ) → Vfs F → Run (Result (Option ℕ) × Vfs F)
  unfolding and_then
  walk_names fs cur [] w = done (ok cur, w)
  walk_names fs cur (n ∷ ns) w =
      and_then (enter fs false n cur w) (λ cur' w'. walk_names fs cur' ns w')

  pub and_then-congr :
      {A B : Type 0} (r : Run (Result A × Vfs F)) (f g : A → Vfs F → Run (Result B × Vfs F))
      → ((a : A) (w : Vfs F) → f a w ≡ g a w)
      → and_then r f ≡ and_then r g
  unfolding and_then
  and_then-congr (done (ok a, w)) f g h = h a w
  and_then-congr (done (err e, w)) f g h = refl
  and_then-congr fault f g h = refl
  and_then-congr timeout f g h = refl

  and_then_assoc :
      {A B C : Type 0} (r : Run (Result A × Vfs F)) (f : A → Vfs F → Run (Result B × Vfs F))
      (g : B → Vfs F → Run (Result C × Vfs F))
      → and_then (and_then r f) g ≡ and_then r (λ a w. and_then (f a w) g)
  unfolding and_then
  and_then_assoc (done (ok a, w)) f g = refl
  and_then_assoc (done (err e, w)) f g = refl
  and_then_assoc fault f g = refl
  and_then_assoc timeout f g = refl

  walk_names-append :
      (fs : FileSystems F) (xs ys : List (List ℕ)) (cur : Option ℕ) (w : Vfs F)
      → walk_names fs cur (xs ++ ys) w
        ≡ and_then (walk_names fs cur xs w) (λ cur' w'. walk_names fs cur' ys w')
  unfolding walk_names and_then
  walk_names-append fs [] ys cur w = refl
  walk_names-append fs (x ∷ xs) ys cur w =
      and_then-congr (enter fs false x cur w) _ _ (λ c w'. walk_names-append fs xs ys c w')
      ∙ sym (and_then_assoc (enter fs false x cur w) _ _)

  lookup_loop-walk_names :
      (fs : FileSystems F) (fuel : ℕ) (cur : Option ℕ) (p : List ℕ) (w : Vfs F)
      → length p < fuel
      → lookup_loop fs fuel cur p w ≡ walk_names fs cur (names 255 p) w
  unfolding lookup_loop walk_names
  lookup_loop-walk_names fs zero cur p w h = absurd (omega arith)
  lookup_loop-walk_names fs (suc fuel) cur p w h = elim (path_next-NextOutcome p 256) [
    | inl (e, n) ↦ rw (e, n, lookup_loop) refl
    | inr (n, p', e, split, short) ↦
        rw (e, split, lookup_loop, step_into-enter fs false n cur w)
          (and_then-congr (enter fs false n cur w) _ _
            (λ c w'. lookup_loop-walk_names fs fuel c p' w' (omega (arith, short))))
  ]

  -- The names of a path, from a place to start.
  unfoldable pub lookup_from :
      FileSystems F → Option ℕ → List (List ℕ) → Vfs F → Run (Result (Option ℕ) × Vfs F)
  unfolding walk_names
  lookup_from fs none ns w = done (err enoent, w)
  lookup_from fs (some v) ns w = walk_names fs (vfs_follow_mount (some v) w) ns w

  -- The start as the code picks it.
  pub vfs_lookup_at-start_at :
      (fs : FileSystems F) (cwd : Option ℕ) (path : List ℕ) (w : Vfs F)
      → vfs_lookup_at fs cwd path w ≡ lookup_from fs (start_at cwd path w) (names 255 path) w
  unfolding vfs_lookup_at lookup_from
  vfs_lookup_at-start_at fs cwd path w = elim (Option-cases (start_at cwd path w)) [
    | inl e ↦ rw (e, vfs_lookup_at) refl
    | inr (v, e) ↦
        rw (e, vfs_lookup_at)
          (lookup_loop-walk_names fs (suc (length path)) (vfs_follow_mount (some v) w) path w
            (omega arith))
  ]

  -- Where the operations of the file systems return, `vfs_lookup_at` ends: from the root for an
  -- absolute path, and otherwise from the directory given or the current one, it enters the names of
  -- the path, cut to 255 bytes, one after the other, and stops at the first that fails; without a place
  -- to start it answers ENOENT.
  pub vfs_lookup_at-lookup_from :
      (fs : FileSystems F) (cwd : Option ℕ) (path : List ℕ) (w : Vfs F) (start : Option ℕ)
      → StartsAt cwd path w start
      → vfs_lookup_at fs cwd path w ≡ lookup_from fs start (names 255 path) w
  vfs_lookup_at-lookup_from fs cwd path w start at =
      vfs_lookup_at-start_at fs cwd path w
      ∙ ap (λ o. lookup_from fs o (names 255 path) w) (StartsAt-start_at cwd path w start at)

  start_at-join :
      (cwd : Option ℕ) (p q : List ℕ) (w : Vfs F)
      → p ≢ []
      → start_at cwd (p ++ q) w ≡ start_at cwd p w
  start_at-join cwd [] q w ne = absurd (ne refl)
  start_at-join cwd (c ∷ cs) q w ne = refl

  lookup_from-append :
      (fs : FileSystems F) (start : Option ℕ) (xs ys : List (List ℕ)) (w : Vfs F)
      → lookup_from fs start (xs ++ ys) w
        ≡ and_then (lookup_from fs start xs w) (λ cur w'. walk_names fs cur ys w')
  unfolding lookup_from and_then
  lookup_from-append fs none xs ys w = refl
  lookup_from-append fs (some v) xs ys w =
      walk_names-append fs xs ys (vfs_follow_mount (some v) w) w

  -- Looking up `p/q`, where `p` is not empty, is looking up `p` and then, from what that finds, the
  -- names of `q`.
  pub vfs_lookup_at-join :
      (fs : FileSystems F) (cwd : Option ℕ) (p q : List ℕ) (w : Vfs F)
      → p ≢ []
      → vfs_lookup_at fs cwd (p ++ b'/' ∷ q) w
        ≡ and_then (vfs_lookup_at fs cwd p w) (λ cur w'. walk_names fs cur (names 255 q) w')
  vfs_lookup_at-join fs cwd p q w ne =
      vfs_lookup_at-start_at fs cwd (p ++ b'/' ∷ q) w
      ∙ ap (λ x. lookup_from fs x (names 255 (p ++ b'/' ∷ q)) w)
          (start_at-join cwd p (b'/' ∷ q) w ne)
      ∙ ap (λ ns. lookup_from fs (start_at cwd p w) ns w) (names-join 255 p q)
      ∙ lookup_from-append fs (start_at cwd p w) (names 255 p) (names 255 q) w
      ∙ ap (λ r. and_then r (λ cur w'. walk_names fs cur (names 255 q) w'))
          (sym (vfs_lookup_at-start_at fs cwd p w))
