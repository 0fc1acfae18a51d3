-- ===== src/Fat/Zeroed.antt =====
-- A cluster that `fat32_zero_cluster` has cleared: its sectors are zero, and no other has changed.
use os_agent_lab.Prelude.{
  ℕ, zero, suc, ◌+◌, ◌-◌, ◌≤◌, ◌<◌, ◌≡◌, ◌≢◌, sym, ap, subst, ◌∙◌, ◌⊎◌, inl, Option, some, arith,
  ok, add32, sub32, u32_mod, ℕ_discrete, ◌==◌, true,
}
use os_agent_lab.Phys.{Bytes}
use os_agent_lab.Disk.{BlockDevice, IsDisk}
use os_agent_lab.Fat.{
  Layout, Volume, stored, zero_sectors, fat32_zero_cluster, fat32_cluster_to_lba, entry_in,
  fat32_read_fat_entry, sector_idx, sector_off,
}
use os_agent_lab.Fat.Entries.{IsLayout, HasEntries, on_ok-inv, stored-inv, idx-eq, le_mul}

module _ {D : Type 0} (dev : BlockDevice D) (fs : Layout) where
  -- A sector that reads as zeros.
  pub IsBlank : ℕ → D → Type 0
  IsBlank lba d = (s : Bytes) × (dev.blk_read lba d ≡ some s) × ((i : ℕ) → i < 512 → s i ≡ 0)

  module _ (disk : IsDisk dev) where
    zero_sectors-others :
        (left s lba other : ℕ) (v v' : Volume D)
        → zero_sectors dev fs left s lba v ≡ (ok tt, v')
        → lba + s + left ≤ u32_mod
        → (other < lba + s) ⊎ (lba + s + left ≤ other)
        → (dev.blk_read other v'.disk ≡ dev.blk_read other v.disk) × (v'.alloc_hint ≡ v.alloc_hint)
    unfolding zero_sectors
    zero_sectors-others zero s lba other v v' h room out =
        let same : v ≡ v' = cc h in
        (
          ap (λ (x : Volume D). dev.blk_read other x.disk) (sym same),
          ap (λ (x : Volume D). x.alloc_hint) (sym same),
        )
    zero_sectors-others (suc left) s lba other v v' h room out =
        let write : Option D = dev.blk_write (add32 lba s) (λ i. 0) v.disk in
        let (u, w, first, rest) =
          on_ok-inv (stored dev fs write v) (λ u v'. zero_sectors dev fs left (s + 1) lba v') tt v'
            h in
        let (d, wrote, e) = stored-inv dev fs write v w first in
        let apart : other ≢ add32 lba s = ground arith in
        let (later, hint) =
          zero_sectors-others left (s + 1) lba other w v' rest (omega arith) (ground arith) in
        (
          later
              ∙ ap (λ (x : Volume D). dev.blk_read other x.disk) e
              ∙ disk.reads_others (add32 lba s) other (λ i. 0) v.disk d wrote apart,
          hint ∙ ap (λ (x : Volume D). x.alloc_hint) e,
        )

    zero_sectors-IsBlank :
        (left s lba i : ℕ) (v v' : Volume D)
        → zero_sectors dev fs left s lba v ≡ (ok tt, v')
        → lba + s + left ≤ u32_mod
        → s ≤ i
        → i < s + left
        → IsBlank (lba + i) v'.disk
    unfolding zero_sectors IsBlank
    zero_sectors-IsBlank zero s lba i v v' h room lo hi = absurd (omega arith)
    zero_sectors-IsBlank (suc left) s lba i v v' h room lo hi =
        let write : Option D = dev.blk_write (add32 lba s) (λ i. 0) v.disk in
        let (u, w, first, rest) =
          on_ok-inv (stored dev fs write v) (λ u v'. zero_sectors dev fs left (s + 1) lba v') tt v'
            h in
        let (d, wrote, e) = stored-inv dev fs write v w first in
        elim (ℕ_discrete i s) [
          | no p ↦
              zero_sectors-IsBlank left (s + 1) lba i w v' rest (omega arith) (omega (arith, p))
                (omega arith)
          | yes p ↦
              let (t, back, blank) = disk.reads_back (add32 lba s) (λ i. 0) v.disk d wrote in
              let at : add32 lba s ≡ lba + i = omega (arith, p) in
              let later =
                zero_sectors-others left (s + 1) lba (lba + i) w v' rest (omega arith)
                  (inl (omega (arith, p))) in
              (
                t,
                later.0
                    ∙ ap (λ (x : Volume D). dev.blk_read (lba + i) x.disk) e
                    ∙ subst (λ (l : ℕ). dev.blk_read l d ≡ some t) at back,
                blank,
              )
        ]

    module _ (lay : IsLayout fs) where
      below_data :
          (e : ℕ) → e ≤ fs.cluster_count + 1 → add32 fs.fat_lba (sector_idx fs e) < fs.data_lba
      below_data e le =
          let i = idx-eq dev fs disk lay e le in
          let bounds = le_mul 0 fs.sectors_per_fat fs.num_fats lay.copies in
          omega (arith, i, bounds, lay.room, lay.tables, lay.in_range)

      -- The table stands as long as the sectors below the data do.
      pub HasEntries-below :
          (d d' : D) (entry : ℕ → ℕ)
          → HasEntries dev fs d entry
          → ((lba : ℕ) → lba < fs.data_lba → dev.blk_read lba d' ≡ dev.blk_read lba d)
          → HasEntries dev fs d' entry
      unfolding fat32_read_fat_entry
      HasEntries-below d d' entry has same =
          let test : (fs.bytes_per_sector == 512) ≡ true = ground (arith, lay.sectors) in
          record {
            reads = λ e le.
                let old = has.reads e le in
                rw test (
                  ap (entry_in dev fs (sector_off fs e))
                    (same (add32 fs.fat_lba (sector_idx fs e)) (below_data e le))
                  ∙ (rw test at old));
          }

      -- The sectors of a cluster lie in the data.
      pub lba-cluster :
          (c : ℕ)
          → 2 ≤ c
          → c ≤ fs.cluster_count + 1
          → (fs.data_lba ≤ fat32_cluster_to_lba fs c)
            × (fat32_cluster_to_lba fs c + fs.sectors_per_cluster ≤ u32_mod)
      unfolding fat32_cluster_to_lba
      lba-cluster c lo hi =
          let few : fs.cluster_count + 2 < 0x0ffffff8 = lay.few in
          let at : sub32 c 2 ≡ c - 2 = omega arith in
          let bounds = le_mul (c - 2) fs.sectors_per_cluster fs.cluster_count (omega arith) in
          rw at (omega (arith, bounds, lay.in_range), omega (arith, bounds, lay.in_range))

      pub fat32_zero_cluster-lem :
          (c : ℕ) (v v' : Volume D)
          → 2 ≤ c
          → c ≤ fs.cluster_count + 1
          → fat32_zero_cluster dev fs c v ≡ (ok tt, v')
          → ((i : ℕ) → i < fs.sectors_per_cluster → IsBlank (fat32_cluster_to_lba fs c + i) v'.disk)
            × ((lba : ℕ)
                → (lba < fat32_cluster_to_lba fs c)
                  ⊎ (fat32_cluster_to_lba fs c + fs.sectors_per_cluster ≤ lba)
                → dev.blk_read lba v'.disk ≡ dev.blk_read lba v.disk)
      unfolding fat32_zero_cluster
      fat32_zero_cluster-lem c v v' lo hi h =
          let (data_le, room) = lba-cluster c lo hi in
          let lba : ℕ = fat32_cluster_to_lba fs c in
          (
            λ i lt.
                zero_sectors-IsBlank fs.sectors_per_cluster 0 lba i v v' h (omega arith)
                  (omega arith) (omega arith),
            λ other out.
                (zero_sectors-others fs.sectors_per_cluster 0 lba other v v' h (omega arith)
                  (ground arith)).0,
          )
