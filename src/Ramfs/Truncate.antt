-- ===== src/Ramfs/Truncate.antt =====
-- A ramfs file cut short or lengthened.
use os_agent_lab.Prelude.{
  ℕ, ◌-◌, ◌≤◌, ◌<◌, ◌≡◌, ◌≢◌, refl, ◌∙◌, inl, inr, true, arith, ltb, if◌then◌else◌, min, ok,
  Bool-cases, update_self, update_ne,
}
use os_agent_lab.Phys.{memset}
use os_agent_lab.Phys.Laws.{memset-inside, memset-outside}
use os_agent_lab.Ramfs.{Node, Ramfs, set_node, max_file_size, is_file, ramfs_truncate}
use os_agent_lab.Ramfs.Content.{IsSound}

-- What a truncation makes of a file.
pub record Truncated (x : Node) (size : ℕ) (y : Node) : Type 0 where
  pub sound : IsSound y
  pub size_eq : y.size ≡ min size max_file_size
  pub prefix : (i : ℕ) → i < y.size → y.bytes i ≡ x.bytes i

-- The node that `ramfs_truncate` stores.
abbrev truncated_node : Node → ℕ → Node
truncated_node x size = record x {
  bytes = if ltb size x.size then memset x.bytes size 0 (x.size - size) else x.bytes;
  size = size;
}

truncated-below : (x : Node) (size i : ℕ) → i < size → (truncated_node x size).bytes i ≡ x.bytes i
truncated-below x size i h = elim (Bool-cases (ltb size x.size)) [
  | inl e ↦ rw e (memset-outside x.bytes size 0 (x.size - size) i (inl h))
  | inr e ↦ rw e refl
]

truncated-above :
    (x : Node) (size i : ℕ) → IsSound x → size ≤ i → (truncated_node x size).bytes i ≡ 0
truncated-above x size i sound h = elim (Bool-cases (ltb size x.size)) [
  | inl e ↦ rw e (elim (Bool-cases (ltb i x.size)) [
    | inl k ↦ memset-inside x.bytes size 0 (x.size - size) i h (ground arith)
    | inr k ↦
        memset-outside x.bytes size 0 (x.size - size) i (inr (ground arith))
        ∙ sound.zeros i (ground arith)
  ])
  | inr e ↦ rw e (sound.zeros i (ground arith))
]

truncated_node-Truncated :
    (x : Node) (size : ℕ) → IsSound x → Truncated x size (truncated_node x (min size max_file_size))
truncated_node-Truncated x size sound =
    let n : ℕ = min size max_file_size in
    record {
      sound = record { fits = omega arith; zeros = λ i lo. truncated-above x n i sound lo };
      size_eq = refl;
      prefix = λ i h. truncated-below x n i h;
    }

ramfs_truncate-eq :
    (s : Ramfs) (node size : ℕ)
    → is_file (s.nodes node) ≡ true
    → ramfs_truncate node size s
      ≡ (ok tt, set_node node (truncated_node (s.nodes node) (min size max_file_size)) s)
unfolding ramfs_truncate
ramfs_truncate-eq s node size f =
    let small : (if ltb max_file_size size then max_file_size else size) ≡ min size max_file_size =
      ground arith in
    rw (f, small)

-- `ramfs_truncate` of a sound file gives it the size asked for, or the largest; the bytes below
-- that size are unchanged and the others are zero; no other node changes.
pub ramfs_truncate-Truncated :
    (s : Ramfs) (node size : ℕ)
    → is_file (s.nodes node) ≡ true
    → IsSound (s.nodes node)
    → let (r, s') = ramfs_truncate node size s in
      (r ≡ ok tt)
      × Truncated (s.nodes node) size (s'.nodes node)
      × ((other : ℕ) → other ≢ node → s'.nodes other ≡ s.nodes other)
ramfs_truncate-Truncated s node size f sound =
    rw (ramfs_truncate-eq s node size f, update_self s.nodes node)
      (
        refl,
        truncated_node-Truncated (s.nodes node) size sound,
        (λ other ne.
            update_ne s.nodes node (truncated_node (s.nodes node) (min size max_file_size)) other
              ne),
      )
