-- ===== src/Fat/Modify.antt =====
-- The operations of GPT-5.2-Codex/code/kernel/fat32.c that change a file: writing along its chain of
-- clusters, and cutting it or making it longer.
pub mod Overlay
pub mod Loop
pub mod Clusters
pub mod Contents
pub mod Whole
pub mod Written
pub mod Dirent
pub mod ReadBack
use os_agent_lab.Prelude.{
  ℕ, zero, suc, ◌+◌, ◌-◌, ◌*◌, ◌/◌, ◌%◌, Bool, true, false, ◌&&◌, not, List, [], ◌∷◌, Option, none,
  some, ◌==◌, ltb, leb, if◌then◌else◌, length, take, drop, add32, sub32, mul32, add64, sub64,
  u32_mod, update, Result, ok, err, eio, eisdir, enospc,
}
use os_agent_lab.Phys.{Bytes, write_bytes}
use os_agent_lab.Disk.{BlockDevice}
use os_agent_lab.Fat.{
  Layout, Volume, fat32_eoc, on_ok, stored, rewrite, fat32_cluster_to_lba, fat32_read_fat_entry,
  fat32_write_fat_entry, fat32_free_chain, fat32_get_cluster_at,
}
use os_agent_lab.Fat.Ensure.{fails_as, fat32_ensure_chain}
use os_agent_lab.Fat.Files.{FatNode, step_on}

-- The fields of the directory entry at byte `off` of a sector that `fat32_update_dirent` stores.
unfoldable pub to_dirent : FatNode → Bytes → Bytes
unfolding write_bytes
to_dirent node s =
    let off = node.dirent_off in
    let sized =
      write_bytes s (off + 28)
        (node.size ∷ node.size / 256 ∷ node.size / 65536 ∷ node.size / 16777216 ∷ []) in
    let low = write_bytes sized (off + 26) (node.cluster ∷ node.cluster / 256 ∷ []) in
    write_bytes low (off + 20) (node.cluster / 65536 ∷ node.cluster / 16777216 ∷ [])

-- A run on the volume: `none` is out of fuel.
abbrev pub Steps : Type 0 → Type 0
Steps S = Option (Result (Unit {0}) × S)

unfoldable pub then_steps : {S : Type 0} → Steps S → (S → Steps S) → Steps S
then_steps none next = none
then_steps (some (err e, v)) next = some (err e, v)
then_steps (some (ok u, v)) next = next v

-- The next cluster, or the error.
unfoldable pub go_on : {S : Type 0} → Result ℕ → S → (ℕ → S → Steps S) → Steps S
go_on (err e) v next = some (err e, v)
go_on (ok c) v next = next c v

module _ {D : Type 0} (dev : BlockDevice D) (fs : Layout) where
  unfoldable pub fat32_update_dirent : FatNode → Volume D → Result (Unit {0}) × Volume D
  unfolding rewrite to_dirent
  fat32_update_dirent node v =
      if node.dirent_lba == 0
      then (ok tt, v)
      else rewrite dev fs (to_dirent node) node.dirent_lba (dev.blk_read node.dirent_lba v.disk) v

  -- A sector that is written whole is not read first.
  unfoldable pub write_part : ℕ → List ℕ → ℕ → Volume D → Result (Unit {0}) × Volume D
  unfolding stored rewrite write_bytes
  write_part off part lba v =
      if off == 0 && length part == 512
      then stored dev fs (dev.blk_write lba (write_bytes (λ i. 0) 0 part) v.disk) v
      else rewrite dev fs (λ s. write_bytes s off part) lba (dev.blk_read lba v.disk) v

  -- The inner loop: `bytes` from byte `off` of sector `lba + idx` on.
  unfoldable pub copy_in : ℕ → ℕ → ℕ → ℕ → List ℕ → Volume D → Steps (Volume D)
  unfolding write_part then_steps
  copy_in zero lba idx off bytes v = none
  copy_in (suc fuel) lba idx off bytes v =
      let chunk = if ltb (length bytes) (512 - off) then length bytes else 512 - off in
      let turn =
        then_steps (some (write_part off (take chunk bytes) (add32 lba idx) v))
          (λ v'. copy_in fuel lba (idx + 1) 0 (drop chunk bytes) v') in
      if length bytes == 0 then some (ok tt, v) else turn

  -- The loop over the clusters, from byte `off` of a cluster on.
  unfoldable pub write_clusters : ℕ → ℕ → ℕ → List ℕ → Volume D → Steps (Volume D)
  unfolding then_steps go_on copy_in step_on fat32_cluster_to_lba
  write_clusters zero cluster off bytes v = none
  write_clusters (suc fuel) cluster off bytes v =
      let cluster_bytes = mul32 fs.sectors_per_cluster fs.bytes_per_sector in
      let room = sub32 cluster_bytes off in
      let to_copy = if ltb (length bytes) room then length bytes else room in
      let turn =
        then_steps
          (copy_in (suc to_copy) (fat32_cluster_to_lba fs cluster) (off / 512) (off % 512)
            (take to_copy bytes) v)
          (λ w.
            go_on (step_on dev fs w.disk cluster (length bytes - to_copy)) w
              (λ next w'. write_clusters fuel next 0 (drop to_copy bytes) w')) in
      if length bytes == 0
      then some (ok tt, v)
      else if ltb cluster fat32_eoc
      then turn
      else some (ok tt, v)

  -- The loop that skips clusters: the end of the chain is EIO.
  unfoldable pub skip_next : Result ℕ → (ℕ → Result ℕ) → Result ℕ
  skip_next (err e) on = err eio
  skip_next (ok next) on = if leb fat32_eoc next then err eio else on next

  unfoldable pub skip_written : ℕ → ℕ → D → Result ℕ
  unfolding skip_next
  skip_written zero cluster d = ok cluster
  skip_written (suc skip) cluster d =
      skip_next (fat32_read_fat_entry dev fs cluster d) (λ next. skip_written skip next d)

  -- A volume with the node that is being changed.
  abbrev pub Open : Type 0
  Open = FatNode × Volume D

  unfoldable pub with_node : FatNode → Steps (Volume D) → Steps Open
  with_node node none = none
  with_node node (some (r, v)) = some (r, (node, v))

  unfoldable pub set_size : FatNode → ℕ → Volume D → Steps Open
  unfolding with_node fat32_update_dirent
  set_size node size v =
      let node' = record node { size = size % u32_mod } in
      with_node node' (some (fat32_update_dirent node' v))

  -- What follows the loops of `fat32_write_op`.
  unfoldable pub finish_write : FatNode → ℕ → Steps (Volume D) → Steps Open
  unfolding with_node set_size fails_as
  finish_write node end' none = none
  finish_write node end' (some (err e, v)) = some (err e, (node, v))
  finish_write node end' (some (ok u, v)) =
      if ltb node.size end' then set_size node end' v else some (ok tt, (node, v))

  unfoldable pub write_from :
      ℕ → ℕ → List ℕ → (Result (Unit {0}) × Volume D) × ℕ → FatNode → Steps Open
  unfolding finish_write write_clusters skip_written go_on
  write_from cluster_size offset bytes ((err e, v), start) node =
      some (err enospc, (record node { cluster = start }, v))
  write_from cluster_size offset bytes ((ok u, v), start) node =
      finish_write (record node { cluster = start }) (add64 offset (length bytes))
        (go_on (skip_written (offset / cluster_size) start v.disk) v
          (λ c w. write_clusters (suc (length bytes)) c (offset % cluster_size) bytes w))

  -- uint32_t needed, for `end` bytes
  abbrev pub clusters_for : ℕ → ℕ
  clusters_for end' =
      let cluster_size = mul32 fs.bytes_per_sector fs.sectors_per_cluster in
      sub64 (add64 end' cluster_size) 1 / cluster_size % u32_mod

  -- On success the result is `len`, the number of the bytes.
  unfoldable pub fat32_write_op : Bool → FatNode → List ℕ → ℕ → Volume D → Steps Open
  unfolding write_from fat32_ensure_chain
  fat32_write_op is_file node bytes offset v =
      if not is_file
      then some (err eisdir, (node, v))
      else if length bytes == 0
      then some (ok tt, (node, v))
      else write_from (mul32 fs.bytes_per_sector fs.sectors_per_cluster) offset bytes
          (fat32_ensure_chain dev fs node.cluster (clusters_for (add64 offset (length bytes))) v)
          node

  -- fat32_truncate_op, size 0: the node once its chain is free.
  unfoldable pub cut_all : FatNode → Steps (Volume D) → Steps Open
  unfolding set_size
  cut_all node none = none
  cut_all node (some (err e, v)) = some (err eio, (node, v))
  cut_all node (some (ok u, v)) = set_size (record node { cluster = 0 }) 0 v

  -- The rest of the chain freed, and the new size stored.
  unfoldable pub cut_rest : FatNode → ℕ → Steps (Volume D) → Steps Open
  unfolding set_size
  cut_rest node size none = none
  cut_rest node size (some (err e, v)) = some (err eio, (node, v))
  cut_rest node size (some (ok u, v)) = set_size node size v

  -- From the last cluster that the file keeps, and the entry behind it.
  unfoldable pub cut_behind : FatNode → ℕ → ℕ → Result ℕ → Volume D → Steps Open
  unfolding cut_rest set_size then_steps fat32_free_chain
  cut_behind node size last (err e) v = some (err eio, (node, v))
  cut_behind node size last (ok next) v =
      if ltb next fat32_eoc
      then cut_rest node size (
          then_steps (some (fat32_write_fat_entry dev fs last fat32_eoc v))
            (λ w. fat32_free_chain dev fs next w))
      else set_size node size v

  unfoldable pub cut_at : FatNode → ℕ → Result ℕ → Volume D → Steps Open
  unfolding cut_behind
  cut_at node size (err e) v = some (err eio, (node, v))
  cut_at node size (ok last) v =
      cut_behind node size last (fat32_read_fat_entry dev fs last v.disk) v

  unfoldable pub cut_ensured : FatNode → ℕ → ℕ → (Result (Unit {0}) × Volume D) × ℕ → Steps Open
  unfolding cut_at
  cut_ensured node size needed ((err e, v), start) =
      some (err enospc, (record node { cluster = start }, v))
  cut_ensured node size needed ((ok u, v), start) =
      cut_at (record node { cluster = start }) size
        (fat32_get_cluster_at dev fs start (sub32 needed 1) v.disk) v

  unfoldable pub fat32_truncate_op : Bool → FatNode → ℕ → Volume D → Steps Open
  unfolding cut_all cut_ensured fat32_free_chain fat32_ensure_chain
  fat32_truncate_op is_file node size v =
      if not is_file
      then some (err eisdir, (node, v))
      else if size == node.size
      then some (ok tt, (node, v))
      else if size == 0
      then cut_all node
          (if node.cluster == 0 then some (ok tt, v) else fat32_free_chain dev fs node.cluster v)
      else cut_ensured node size (clusters_for size)
          (fat32_ensure_chain dev fs node.cluster (clusters_for size) v)
