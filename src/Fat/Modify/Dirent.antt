-- ===== src/Fat/Modify/Dirent.antt =====
-- What `fat32_update_dirent` stored in a directory entry, `fat32_refresh_node` loads.
use os_agent_lab.Prelude.{
  ℕ, ◌+◌, ◌*◌, ◌≤◌, ◌<◌, ◌≡◌, ◌≢◌, refl, sym, ap, ◌∙◌, false, Option, none, some, Result, ok,
  u32_mod, ◌⊎◌, ◌==◌, arith,
}
use os_agent_lab.Phys.{Bytes, write_bytes}
use os_agent_lab.Disk.{BlockDevice, IsDisk}
use os_agent_lab.Fat.{Layout, Volume, stored, rewrite, le32}
use os_agent_lab.Fat.Mount.{le16}
use os_agent_lab.Fat.Files.{FatNode, from_dirent, refreshed, fat32_refresh_node}
use os_agent_lab.Fat.Modify.{to_dirent, fat32_update_dirent}

size_of :
    (node : FatNode) (s : Bytes)
    → node.size < u32_mod
    → le32 (to_dirent node s) (node.dirent_off + 28) ≡ node.size
unfolding to_dirent le32 write_bytes
size_of node s h = ground arith

cluster_of :
    (node : FatNode) (s : Bytes)
    → node.cluster < u32_mod
    → le16 (to_dirent node s) (node.dirent_off + 20) * 65536
        + le16 (to_dirent node s) (node.dirent_off + 26)
      ≡ node.cluster
unfolding to_dirent le16 write_bytes
cluster_of node s h = ground arith

others_of :
    (node : FatNode) (s : Bytes) (i : ℕ)
    → (i < node.dirent_off + 20)
      ⊎ ((node.dirent_off + 22 ≤ i) × (i < node.dirent_off + 26))
      ⊎ (node.dirent_off + 32 ≤ i)
    → to_dirent node s i ≡ s i
unfolding to_dirent write_bytes
others_of node s i h = ground arith

le32-same :
    (t u : Bytes) (off : ℕ)
    → off + 4 ≤ 512
    → ((i : ℕ) → i < 512 → t i ≡ u i)
    → le32 t off ≡ le32 u off
unfolding le32
le32-same t u off le same = omega (
  arith,
  same off (omega arith),
  same (off + 1) (omega arith),
  same (off + 2) (omega arith),
  same (off + 3) (omega arith),
)

le16-same :
    (t u : Bytes) (off : ℕ)
    → off + 2 ≤ 512
    → ((i : ℕ) → i < 512 → t i ≡ u i)
    → le16 t off ≡ le16 u off
unfolding le16
le16-same t u off le same = omega (arith, same off (omega arith), same (off + 1) (omega arith))

-- A sector that holds what was stored reads as the node, with the attributes of the sector before.
from_dirent-to_dirent :
    (node : FatNode) (s t : Bytes)
    → node.size < u32_mod
    → node.cluster < u32_mod
    → node.dirent_off + 32 ≤ 512
    → ((i : ℕ) → i < 512 → t i ≡ to_dirent node s i)
    → from_dirent node t ≡ record node { attr = s (node.dirent_off + 11) }
unfolding from_dirent
from_dirent-to_dirent node s t small few off same =
    let flags : t (node.dirent_off + 11) ≡ s (node.dirent_off + 11) =
      same (node.dirent_off + 11) (omega arith)
      ∙ others_of node s (node.dirent_off + 11) (omega arith) in
    let sized : le32 t (node.dirent_off + 28) ≡ node.size =
      le32-same t (to_dirent node s) (node.dirent_off + 28) (omega arith) same
      ∙ size_of node s small in
    let high : le16 t (node.dirent_off + 20) ≡ le16 (to_dirent node s) (node.dirent_off + 20) =
      le16-same t (to_dirent node s) (node.dirent_off + 20) (omega arith) same in
    let low : le16 t (node.dirent_off + 26) ≡ le16 (to_dirent node s) (node.dirent_off + 26) =
      le16-same t (to_dirent node s) (node.dirent_off + 26) (omega arith) same in
    rw (flags, sized, high, low, cluster_of node s few) refl

module _ {D : Type 0} (dev : BlockDevice D) (fs : Layout) (disk : IsDisk dev) where
  stored-refreshed :
      (node : FatNode) (s : Bytes) (w : Option D) (v v' : Volume D)
      → node.size < u32_mod
      → node.cluster < u32_mod
      → node.dirent_off + 32 ≤ 512
      → dev.blk_write node.dirent_lba (to_dirent node s) v.disk ≡ w
      → stored dev fs w v ≡ (ok tt, v')
      → (attr : ℕ) × (refreshed node (dev.blk_read node.dirent_lba v'.disk)
          ≡ ok (record node { attr = attr }))
  unfolding stored refreshed
  stored-refreshed node s none v v' small few off e h = cc h
  stored-refreshed node s (some d) v v' small few off e h =
      let (t, read, same) = disk.reads_back node.dirent_lba (to_dirent node s) v.disk d e in
      let at : d ≡ v'.disk = ap (λ (r : Result (Unit {0}) × Volume D). r.1.disk) h in
      (
        s (node.dirent_off + 11),
        rw (← at, read) (ap ok (from_dirent-to_dirent node s t small few off same)),
      )

  rewrite-refreshed :
      (node : FatNode) (r : Option Bytes) (v v' : Volume D)
      → node.size < u32_mod
      → node.cluster < u32_mod
      → node.dirent_off + 32 ≤ 512
      → rewrite dev fs (to_dirent node) node.dirent_lba r v ≡ (ok tt, v')
      → (attr : ℕ) × (refreshed node (dev.blk_read node.dirent_lba v'.disk)
          ≡ ok (record node { attr = attr }))
  unfolding rewrite
  rewrite-refreshed node none v v' small few off h = cc h
  rewrite-refreshed node (some s) v v' small few off h =
      stored-refreshed node s (dev.blk_write node.dirent_lba (to_dirent node s) v.disk) v v' small
        few off refl h

  update_dirent-rewrite :
      (node : FatNode) (v : Volume D)
      → node.dirent_lba ≢ 0
      → fat32_update_dirent dev fs node v
        ≡ rewrite dev fs (to_dirent node) node.dirent_lba (dev.blk_read node.dirent_lba v.disk) v
  unfolding fat32_update_dirent
  update_dirent-rewrite node v there =
      let has_entry : (node.dirent_lba == 0) ≡ false = ground arith in rw has_entry refl

  -- On a disk that returns what was written, for a node with a directory entry inside its sector:
  -- where `fat32_update_dirent` succeeds, `fat32_refresh_node` returns the node, but for the attributes,
  -- which are those on the disk.
  pub fat32_refresh_node-fat32_update_dirent :
      (node : FatNode) (v v' : Volume D)
      → node.size < u32_mod
      → node.cluster < u32_mod
      → node.dirent_lba ≢ 0
      → node.dirent_off + 32 ≤ 512
      → fat32_update_dirent dev fs node v ≡ (ok tt, v')
      → (attr : ℕ) × (fat32_refresh_node dev fs v'.disk node ≡ ok (record node { attr = attr }))
  unfolding fat32_refresh_node
  fat32_refresh_node-fat32_update_dirent node v v' small few there off h =
      let has_entry : (node.dirent_lba == 0) ≡ false = ground arith in
      rw has_entry (
        rewrite-refreshed node (dev.blk_read node.dirent_lba v.disk) v v' small few off
          (sym (update_dirent-rewrite node v there) ∙ h))
