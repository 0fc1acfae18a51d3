-- ===== src/Fat/Files.antt =====
-- The files of a FAT32 volume, GPT-5.2-Codex/code/kernel/fat32.c: the directory entry behind a node,
-- and the reading of a file along its chain of clusters.
pub mod Read
use os_agent_lab.Prelude.{
  ℕ, zero, suc, ◌+◌, ◌-◌, ◌*◌, ◌/◌, ◌%◌, Bool, true, false, not, List, [], ◌++◌, Option, none, some,
  ◌==◌, ltb, leb, if◌then◌else◌, add32, sub32, mul32, add64, update, Result, ok, err, eio, eisdir,
}
use os_agent_lab.Phys.{Bytes, slice}
use os_agent_lab.Disk.{BlockDevice}
use os_agent_lab.Fat.{Layout, fat32_eoc, le32, fat32_cluster_to_lba, fat32_read_fat_entry}
use os_agent_lab.Fat.Mount.{le16}

-- struct fat32_node: the fields that reading and writing use
pub record FatNode : Type 0 where
  pub cluster : ℕ
  pub size : ℕ
  pub attr : ℕ
  pub dirent_lba : ℕ
  pub dirent_off : ℕ

-- The fields of struct fat_dirent_raw at byte `off` of a sector.
unfoldable pub from_dirent : FatNode → Bytes → FatNode
unfolding le16 le32
from_dirent node s = record node {
  attr = s (node.dirent_off + 11);
  size = le32 s (node.dirent_off + 28);
  cluster = le16 s (node.dirent_off + 20) * 65536 + le16 s (node.dirent_off + 26);
}

unfoldable pub refreshed : FatNode → Option Bytes → Result FatNode
unfolding from_dirent
refreshed node none = err eio
refreshed node (some s) = ok (from_dirent node s)

-- A run of a loop: `none` is out of fuel.
abbrev pub Run : Type 0 → Type 0
Run A = Option (Result A)

unfoldable pub then_run : {A B : Type 0} → Run A → (A → Run B) → Run B
then_run none next = none
then_run (some (err e)) next = some (err e)
then_run (some (ok a)) next = next a

-- The bytes that a round takes of a sector, and the rest of the loop for what is left.
unfoldable pub take_part : Option Bytes → ℕ → ℕ → (ℕ → Run (List ℕ)) → Run (List ℕ)
unfolding then_run slice
take_part none off n next = some (err eio)
take_part (some s) off n next =
    let chunk = if ltb n (512 - off) then n else 512 - off in
    then_run (next (n - chunk)) (λ rest. some (ok (slice s off chunk ++ rest)))

module _ {D : Type 0} (dev : BlockDevice D) (fs : Layout) (d : D) where
  unfoldable pub fat32_refresh_node : FatNode → Result FatNode
  unfolding refreshed
  fat32_refresh_node node =
      if node.dirent_lba == 0 then ok node else refreshed node (dev.blk_read node.dirent_lba d)

  -- The inner loop: `n` bytes from byte `off` of sector `lba + idx` on.
  unfoldable pub copy_out : ℕ → ℕ → ℕ → ℕ → ℕ → Run (List ℕ)
  unfolding take_part
  copy_out zero lba idx off n = none
  copy_out (suc fuel) lba idx off n =
      let turn =
        take_part (dev.blk_read (add32 lba idx) d) off n
          (λ left. copy_out fuel lba (idx + 1) 0 left) in
      if n == 0 then some (ok []) else turn

  -- The next cluster, if there is more to read.
  unfoldable pub step_on : ℕ → ℕ → Result ℕ
  step_on cluster left = if left == 0 then ok cluster else fat32_read_fat_entry dev fs cluster d

  -- The loop over the clusters: `remaining` bytes from byte `off` of a cluster on.
  unfoldable pub read_clusters : ℕ → ℕ → ℕ → ℕ → Run (List ℕ)
  unfolding then_run copy_out step_on fat32_cluster_to_lba
  read_clusters zero cluster off remaining = none
  read_clusters (suc fuel) cluster off remaining =
      let cluster_bytes = mul32 fs.sectors_per_cluster fs.bytes_per_sector in
      let room = sub32 cluster_bytes off in
      let to_copy = if ltb remaining room then remaining else room in
      let turn =
        then_run
          (copy_out (suc to_copy) (fat32_cluster_to_lba fs cluster) (off / 512) (off % 512) to_copy)
          (λ bytes. then_run (some (step_on cluster (remaining - to_copy))) (λ next.
            then_run (read_clusters fuel next 0 (remaining - to_copy))
              (λ rest. some (ok (bytes ++ rest))))) in
      if remaining == 0 then some (ok []) else if ltb cluster fat32_eoc then turn else some (ok [])

  -- A turn of the loop that skips clusters; `none` is the end of the chain.
  unfoldable pub skip_one : Result ℕ → (ℕ → Result (Option ℕ)) → Result (Option ℕ)
  skip_one (err e) on = err eio
  skip_one (ok next) on = if leb fat32_eoc next then ok none else on next

  unfoldable pub skip_clusters : ℕ → ℕ → Result (Option ℕ)
  unfolding skip_one
  skip_clusters zero cluster = ok (some cluster)
  skip_clusters (suc skip) cluster =
      skip_one (fat32_read_fat_entry dev fs cluster d) (λ next. skip_clusters skip next)

  unfoldable pub read_skipped : Result (Option ℕ) → ℕ → ℕ → Run (List ℕ)
  unfolding read_clusters
  read_skipped (err e) off remaining = some (err e)
  read_skipped (ok none) off remaining = some (ok [])
  read_skipped (ok (some cluster)) off remaining =
      read_clusters (suc remaining) cluster off remaining

  -- What is read of a node that was refreshed.
  unfoldable pub read_node : Bool → FatNode → ℕ → ℕ → Run (List ℕ)
  unfolding read_skipped skip_clusters
  read_node is_file node len offset =
      let remaining = if ltb node.size (add64 offset len) then node.size - offset else len in
      let cluster_size = mul32 fs.bytes_per_sector fs.sectors_per_cluster in
      if not is_file
      then some (err eisdir)
      else if leb node.size offset
      then some (ok [])
      else if node.cluster == 0
      then some (ok [])
      else read_skipped (skip_clusters (offset / cluster_size) node.cluster) (offset % cluster_size)
          remaining

  unfoldable pub read_refreshed : Bool → FatNode → Result FatNode → ℕ → ℕ → FatNode × Run (List ℕ)
  unfolding read_node
  read_refreshed is_file node (err e) len offset = (node, some (err eio))
  read_refreshed is_file node (ok fresh) len offset = (fresh, read_node is_file fresh len offset)

  -- The node, and the bytes that are put in the buffer; the result is their number. `is_file` is
  -- whether the vnode is a file.
  unfoldable pub fat32_read_op : Bool → FatNode → ℕ → ℕ → FatNode × Run (List ℕ)
  unfolding read_refreshed fat32_refresh_node
  fat32_read_op is_file node len offset =
      read_refreshed is_file node (fat32_refresh_node node) len offset
