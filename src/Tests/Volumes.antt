-- ===== src/Tests/Volumes.antt =====
-- A disk in memory, with a file system of three clusters: cluster 2 is free, and 3 and 4 are a chain.
use os_agent_lab.Prelude.{
  ℕ, zero, suc, ◌≤◌, ◌≡◌, refl, sym, ap, ◌∙◌, some, List, [], ◌∷◌, ok, update, update_self,
  update_ne, arith, get_or,
}
use os_agent_lab.Phys.{Bytes}
use os_agent_lab.Disk.{BlockDevice, IsDisk}
use os_agent_lab.Fat.{Layout, Volume, le32, entry_in, fat32_read_fat_entry}
use os_agent_lab.Fat.Entries.{IsLayout, HasEntries}
use os_agent_lab.Fat.Chains.{Chain}

abbrev pub RamDisk : Type 0
RamDisk = ℕ → Bytes

abbrev pub ram : BlockDevice RamDisk
ram = record { blk_read = λ lba d. some (d lba); blk_write = λ lba b d. some (update d lba b) }

abbrev pub small : Layout
small = record {
  fat_lba = 1;
  data_lba = 2;
  sectors_per_fat = 1;
  num_fats = 1;
  cluster_count = 3;
  sectors_per_cluster = 1;
  bytes_per_sector = 512;
}

-- The table's sector: each entry's low byte, and 0x0fffffff at cluster 4.
abbrev pub table_bytes : List ℕ
table_bytes =
    0 ∷ 0 ∷ 0 ∷ 0 ∷ 0 ∷ 0 ∷ 0 ∷ 0 ∷ 0 ∷ 0 ∷ 0 ∷ 0 ∷ 4 ∷ 0 ∷ 0 ∷ 0 ∷ 255 ∷ 255 ∷ 255 ∷ 15 ∷ []

abbrev pub volume : Volume RamDisk
volume = record { disk = update (λ lba i. 0) 1 (λ i. get_or table_bytes i 0); alloc_hint = 0 }

abbrev pub entries : ℕ → ℕ
entries = update (update (λ c. 0) 3 4) 4 0x0fffffff

pub ram-IsDisk : IsDisk ram
ram-IsDisk = record {
  reads_back = λ lba b d d' h.
      let same : update d lba b ≡ d' = cc h in
      (
        d' lba,
        refl,
        λ i lt.
            ap (λ (f : RamDisk). f lba i) (sym same)
            ∙ ap (λ (g : Bytes). g i) (update_self d lba b),
      );
  reads_others = λ lba other b d d' h ne.
      let same : update d lba b ≡ d' = cc h in
      ap (λ (f : RamDisk). some (f other)) (sym same) ∙ ap some (update_ne d lba b other ne);
}

pub small-IsLayout : IsLayout small
small-IsLayout = record {
  sectors = refl;
  copies = omega arith;
  room = omega arith;
  few = omega arith;
  tables = omega arith;
  in_range = omega arith;
}

volume-reads : (c : ℕ) → c ≤ 4 → fat32_read_fat_entry ram small c volume.disk ≡ ok (entries c)
unfolding fat32_read_fat_entry entry_in le32
volume-reads zero h = refl
volume-reads (suc zero) h = refl
volume-reads (suc (suc zero)) h = refl
volume-reads (suc (suc (suc zero))) h = refl
volume-reads (suc (suc (suc (suc zero)))) h = refl
volume-reads (suc (suc (suc (suc (suc c))))) h = absurd (omega arith)

pub volume-HasEntries : HasEntries ram small volume.disk entries
volume-HasEntries = record { reads = volume-reads }

pub three-Chain : Chain small entries 3 (3 ∷ 4 ∷ [])
three-Chain =
    Chain.cell 3 (4 ∷ []) (omega arith) (omega arith)
      (Chain.cell 4 [] (omega arith) (omega arith) (Chain.stop 0x0fffffff (omega arith)))
