-- ===== src/Tests/Clusters.antt =====
-- The allocation table on the disk in memory.
use os_agent_lab.Prelude.{
  ℕ, ◌≤◌, ◌≡◌, ◌≢◌, refl, some, List, [], ◌∷◌, ok, err, enospc, Result, arith, update,
}
use os_agent_lab.Fat.{
  fat32_eoc, free_loop, resume, release, fat32_write_fat_entry, write_copies, rewrite, stored,
  put_entry, on_ok, fat32_read_fat_entry, entry_in, le32, first_pass, second_pass, find_free, claim,
  fat32_zero_cluster, zero_sectors, fat32_cluster_to_lba, Volume, fat32_free_chain,
  fat32_alloc_cluster,
}
use os_agent_lab.Fat.Entries.{HasEntries}
use os_agent_lab.Fat.Chains.{cleared}
use os_agent_lab.Fat.FreeLoop.{fat32_free_chain-returns}
use os_agent_lab.Fat.Freed.{SameData, fat32_free_chain-cleared}
use os_agent_lab.Fat.Alloc.{Allocated, fat32_alloc_cluster-Allocated, fat32_alloc_cluster-enospc}
use os_agent_lab.Fat.Ensure.{
  fat32_ensure_chain, ensure_from, measured, measure_chain, extend_chain, fails_as, with_start,
}
use os_agent_lab.Fat.Ensure.Long.{Ensured, fat32_ensure_chain-Ensured}
use os_agent_lab.Tests.Volumes.{
  RamDisk, ram, small, volume, entries, ram-IsDisk, small-IsLayout, volume-HasEntries, three-Chain,
}

fat32_free_chain-returns_example :
    (r : Result (Unit {0})) × (v' : Volume RamDisk) × (fat32_free_chain ram small 3 volume
      ≡ some (r, v'))
fat32_free_chain-returns_example =
    fat32_free_chain-returns ram small ram-IsDisk small-IsLayout 3 volume entries volume-HasEntries

-- Both entries of the chain cleared.
abbrev freed : Volume RamDisk
freed =
    let first = update volume.disk 1 (put_entry (volume.disk 1) 12 0) in
    record volume { disk = update first 1 (put_entry (first 1) 16 0) }

freed_run : fat32_free_chain ram small 3 volume ≡ some (ok tt, freed)
unfolding fat32_free_chain free_loop resume release fat32_write_fat_entry write_copies rewrite
    stored put_entry on_ok fat32_read_fat_entry entry_in le32
freed_run = refl

fat32_free_chain-cleared_example :
    HasEntries ram small freed.disk (cleared (3 ∷ 4 ∷ []) entries) × SameData ram small volume freed
fat32_free_chain-cleared_example =
    fat32_free_chain-cleared ram small ram-IsDisk small-IsLayout 3 (3 ∷ 4 ∷ []) volume freed entries
      volume-HasEntries three-Chain freed_run

-- Cluster 2 taken and cleared.
abbrev taken_two : Volume RamDisk
taken_two =
    let marked = update volume.disk 1 (put_entry (volume.disk 1) 8 fat32_eoc) in
    record { disk = update marked 2 (λ i. 0); alloc_hint = 3 }

taken_run : fat32_alloc_cluster ram small volume ≡ (ok 2, taken_two)
unfolding fat32_alloc_cluster first_pass second_pass find_free claim fat32_zero_cluster zero_sectors
    fat32_cluster_to_lba fat32_write_fat_entry write_copies rewrite stored put_entry on_ok
    fat32_read_fat_entry entry_in le32
taken_run = refl

fat32_alloc_cluster-Allocated_example : Allocated ram small volume taken_two entries 2
fat32_alloc_cluster-Allocated_example =
    fat32_alloc_cluster-Allocated ram small ram-IsDisk small-IsLayout volume taken_two entries 2
      volume-HasEntries taken_run

fat32_alloc_cluster-enospc_example :
    ((v' : Volume RamDisk)
      → fat32_alloc_cluster ram small volume ≡ (err enospc, v')
      → (e : ℕ) → 2 ≤ e
      → e ≤ 4
      → entries e ≢ 0)
    × (((e : ℕ) → 2 ≤ e → e ≤ 4 → entries e ≢ 0)
        → fat32_alloc_cluster ram small volume ≡ (err enospc, volume))
fat32_alloc_cluster-enospc_example =
    fat32_alloc_cluster-enospc ram small ram-IsDisk small-IsLayout volume entries volume-HasEntries

-- The chain of cluster 3 with cluster 2 behind it.
abbrev grown : Volume RamDisk
grown = record taken_two { disk = update taken_two.disk 1 (put_entry (taken_two.disk 1) 16 2) }

grown_run : fat32_ensure_chain ram small 3 3 volume ≡ ((ok tt, grown), 3)
unfolding fat32_ensure_chain ensure_from measured measure_chain extend_chain fails_as with_start
    fat32_alloc_cluster first_pass second_pass find_free claim fat32_zero_cluster zero_sectors
    fat32_cluster_to_lba fat32_write_fat_entry write_copies rewrite stored put_entry on_ok
    fat32_read_fat_entry entry_in le32
grown_run = refl

fat32_ensure_chain-Ensured_example :
    (entry' : ℕ → ℕ) × (news : List ℕ) × Ensured ram small volume grown entries entry' 3
      (3 ∷ 4 ∷ [])
      news
      3
fat32_ensure_chain-Ensured_example =
    fat32_ensure_chain-Ensured ram small ram-IsDisk small-IsLayout 3 3 3 (3 ∷ 4 ∷ []) volume grown
      entries (omega arith) volume-HasEntries three-Chain grown_run
