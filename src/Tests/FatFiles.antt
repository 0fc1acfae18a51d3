-- ===== src/Tests/FatFiles.antt =====
-- A file of 600 bytes along the chain of clusters 3 and 4, read and written across their border.
use os_agent_lab.Prelude.{
  update, ℕ, ◌+◌, ◌-◌, ◌<◌, ◌≡◌, refl, min, true, u32_mod, List, [], ◌∷◌, length, some, ok, inl,
  inr, ◌≤◌, arith,
}
use os_agent_lab.Phys.{slice, write_bytes}
use os_agent_lab.Fat.{
  Volume, stored, rewrite, entry_in, fat32_cluster_to_lba, fat32_read_fat_entry, le32,
}
use os_agent_lab.Fat.Chains.{elem}
use os_agent_lab.Fat.Ensure.{
  fat32_ensure_chain, ensure_from, measured, measure_chain, extend_chain, with_start, fails_as,
}
use os_agent_lab.Fat.Files.{FatNode, step_on, fat32_refresh_node, fat32_read_op}
use os_agent_lab.Fat.Files.Read.{csize, HasSectors, file_bytes}
use os_agent_lab.Fat.Files.Read.Whole.{fat32_read_op-slice}
use os_agent_lab.Fat.Modify.{
  clusters_for, fat32_write_op, write_from, finish_write, write_clusters, copy_in, write_part,
  skip_written, skip_next, go_on, then_steps, set_size, with_node, fat32_update_dirent, to_dirent,
}
use os_agent_lab.Fat.Modify.ReadBack.{fat32_read_op-fat32_write_op}
use os_agent_lab.Fat.Modify.Written.{IsApart, WriteOutcome, fat32_write_op-WriteOutcome}
use os_agent_lab.Tests.Volumes.{
  RamDisk, ram, small, volume, entries, ram-IsDisk, small-IsLayout, volume-HasEntries, three-Chain,
}

abbrev file : FatNode
file = record { cluster = 3; size = 600; attr = 0; dirent_lba = 0; dirent_off = 0 }

abbrev eight : List ℕ
eight = 1 ∷ 2 ∷ 3 ∷ 4 ∷ 5 ∷ 6 ∷ 7 ∷ 8 ∷ []

size_pos : 0 < csize small
size_pos = omega arith

size_small : csize small < u32_mod
size_small = omega arith

volume-HasSectors : HasSectors ram small volume.disk volume.disk
volume-HasSectors = record {
  reads = λ c k lo hi lt. (volume.disk (fat32_cluster_to_lba small c + k), refl, λ i le. refl);
}

fresh_run : fat32_refresh_node ram small volume.disk file ≡ ok file
unfolding fat32_refresh_node
fresh_run = refl

fat32_read_op-slice_example :
    fat32_read_op ram small volume.disk true file 8 508
    ≡ (file, some (ok (slice (file_bytes small volume.disk (3 ∷ 4 ∷ [])) 508 (min 8 (600 - 508)))))
fat32_read_op-slice_example =
    fat32_read_op-slice ram small volume.disk volume.disk entries small-IsLayout volume-HasEntries
      volume-HasSectors ram-IsDisk size_pos size_small file file (3 ∷ 4 ∷ []) 8 508 fresh_run
      (inl three-Chain, omega arith) (omega arith) (omega arith)

ensured_run :
    fat32_ensure_chain ram small 3 (clusters_for ram small (508 + length eight)) volume
    ≡ ((ok tt, volume), 3)
unfolding fat32_ensure_chain ensure_from measured measure_chain extend_chain fails_as with_start
    fat32_read_fat_entry entry_in le32
ensured_run = refl

file-IsApart :
    IsApart ram small ram-IsDisk small-IsLayout entries size_pos size_small file (3 ∷ 4 ∷ [])
file-IsApart = record { in_data = inl refl; no_part = λ e k is lt ne. absurd (ne refl) }

fat32_write_op-WriteOutcome_example :
    WriteOutcome ram small ram-IsDisk small-IsLayout entries size_pos size_small file 3
      (3 ∷ 4 ∷ [])
      volume.disk
      508
      eight
      (fat32_write_op ram small true file eight 508 volume)
fat32_write_op-WriteOutcome_example =
    fat32_write_op-WriteOutcome ram small ram-IsDisk small-IsLayout entries size_pos size_small file
      3 (3 ∷ 4 ∷ []) volume.disk 508 eight volume volume ensured_run
      (volume-HasSectors, volume-HasEntries) three-Chain file-IsApart (omega arith) (omega arith)
      (omega arith) (omega arith)

-- A file with a directory entry, in the sector of cluster 2, that the eight bytes make longer.
abbrev listed : FatNode
listed = record { cluster = 3; size = 600; attr = 0; dirent_lba = 2; dirent_off = 32 }

abbrev longer : FatNode
longer = record listed { size = 604 }

listed-ensured :
    fat32_ensure_chain ram small 3 (clusters_for ram small (596 + length eight)) volume
    ≡ ((ok tt, volume), 3)
unfolding fat32_ensure_chain ensure_from measured measure_chain extend_chain fails_as with_start
    fat32_read_fat_entry entry_in le32
listed-ensured = refl

elem_three_four : (e : ℕ) → elem e (3 ∷ 4 ∷ []) ≡ true → (3 ≤ e) × (e ≤ 4)
unfolding elem
elem_three_four e h = ground arith

listed-IsApart :
    IsApart ram small ram-IsDisk small-IsLayout entries size_pos size_small listed (3 ∷ 4 ∷ [])
unfolding fat32_cluster_to_lba
listed-IsApart = record {
  in_data = inr (omega arith);
  no_part = λ e k is lt ne same. omega (arith, elem_three_four e is);
}

-- The sector of the file and the one of the directory entry, written.
abbrev data_disk : RamDisk
data_disk = update volume.disk 4 (write_bytes (volume.disk 4) 84 eight)

abbrev after_write : Volume RamDisk
after_write = record volume { disk = update data_disk 2 (to_dirent longer (data_disk 2)) }

write_run :
    fat32_write_op ram small true listed eight 596 volume ≡ some (ok tt, (longer, after_write))
unfolding fat32_write_op write_from finish_write write_clusters copy_in write_part skip_written
    skip_next go_on step_on then_steps set_size with_node fat32_update_dirent to_dirent
    fat32_cluster_to_lba fat32_ensure_chain ensure_from measured measure_chain extend_chain fails_as
    with_start stored rewrite fat32_read_fat_entry entry_in le32
write_run = refl

fat32_read_op-fat32_write_op_example :
    (fresh : FatNode) × (fat32_read_op ram small after_write.disk true longer 8 596
      ≡ (fresh, some (ok eight)))
    × (fresh.cluster ≡ 3)
    × (fresh.size ≡ 604)
fat32_read_op-fat32_write_op_example =
    fat32_read_op-fat32_write_op ram small ram-IsDisk small-IsLayout entries size_pos size_small
      listed longer 3 (3 ∷ 4 ∷ []) volume.disk 596 eight volume volume after_write listed-ensured
      (volume-HasSectors, volume-HasEntries) three-Chain listed-IsApart (omega arith) (omega arith)
      (omega arith) (omega arith) (omega arith) (omega arith) (omega arith) (omega arith) write_run
