-- ===== src/Fat/Files/Read.antt =====
-- `fat32_read_op` reads a stretch of the file's bytes, cluster by cluster along its chain.
pub mod Whole
use os_agent_lab.Prelude.{
  ℕ, zero, suc, ◌+◌, ◌-◌, ◌*◌, ◌/◌, ◌%◌, ◌≤◌, ◌<◌, min, ◌≡◌, ◌≢◌, refl, sym, ap, ap₂, ◌∙◌, subst,
  Bool, true, false, List, [], ◌∷◌, ◌++◌, Option, none, some, ◌==◌, ltb, leb, if◌then◌else◌, add32,
  sub32, mul32, add64, u32_mod, u64_mod, length, drop, Result, ok, err, Bool-cases, ◌⊎◌, inl, inr,
  ℕ_discrete, arith,
}
use os_agent_lab.Phys.{Bytes, slice}
use os_agent_lab.Disk.{BlockDevice, IsDisk}
use os_agent_lab.Fat.{Layout, fat32_eoc, fat32_cluster_to_lba, fat32_read_fat_entry}
use os_agent_lab.Fat.Entries.{IsLayout, HasEntries}
use os_agent_lab.Fat.Chains.{Chain}
use os_agent_lab.Fat.Zeroed.{lba-cluster}
use os_agent_lab.Fat.Files.{
  FatNode, Run, then_run, take_part, copy_out, step_on, read_clusters, skip_clusters, read_skipped,
  read_node, read_refreshed, fat32_refresh_node, fat32_read_op,
}
use mathlib.Core.List.{append-nil}

pub slice-shift :
    (n : ℕ) (m m' : Bytes) (a b : ℕ)
    → ((i : ℕ) → i < n → m (a + i) ≡ m' (b + i))
    → slice m a n ≡ slice m' b n
unfolding slice
slice-shift zero m m' a b h = refl
slice-shift (suc n) m m' a b h =
    let first : m a ≡ m' b = ap m (omega arith) ∙ h 0 (omega arith) ∙ ap m' (omega arith) in
    ap₂ ◌∷◌ first (
      slice-shift n m m' (a + 1) (b + 1)
        (λ i lt. ap m (omega arith) ∙ h (suc i) (omega arith) ∙ ap m' (omega arith)))

slice-append : (p q : ℕ) (m : Bytes) (a : ℕ) → slice m a p ++ slice m (a + p) q ≡ slice m a (p + q)
unfolding slice
slice-append zero q m a =
    let none_before : 0 + q ≡ q = omega arith in
    let here : a + 0 ≡ a = omega arith in rw (none_before, here) refl
slice-append (suc p) q m a =
    let more : suc p + q ≡ suc (p + q) = omega arith in
    let here : a + suc p ≡ a + 1 + p = omega arith in
    rw (more, here) (ap (λ (l : List ℕ). m a ∷ l) (slice-append p q m (a + 1)))

-- The bytes in a cluster.
abbrev pub csize : Layout → ℕ
csize fs = fs.sectors_per_cluster * 512

module _ (fs : Layout) (sec : ℕ → Bytes) where
  -- Byte `j` of a cluster, and byte `i` of a chain of clusters.
  abbrev pub cluster_byte : ℕ → Bytes
  cluster_byte c j = sec (fat32_cluster_to_lba fs c + j / 512) (j % 512)

  unfoldable pub file_bytes : List ℕ → Bytes
  file_bytes [] i = 0
  file_bytes (c ∷ cs) i =
      let rest = file_bytes cs (i - csize fs) in if ltb i (csize fs) then cluster_byte c i else rest

module _ {D : Type 0} (dev : BlockDevice D) (fs : Layout) (d : D) (sec : ℕ → Bytes) where
  -- The sectors of the clusters can be read, and hold `sec`.
  pub record HasSectors : Type 0 where
    pub reads :
        (c k : ℕ)
        → 2 ≤ c
        → c ≤ fs.cluster_count + 1
        → k < fs.sectors_per_cluster
        → (s : Bytes) × (dev.blk_read (fat32_cluster_to_lba fs c + k) d ≡ some s)
          × ((i : ℕ) → i < 512 → s i ≡ sec (fat32_cluster_to_lba fs c + k) i)

  module _ (has : HasSectors) (disk : IsDisk dev) (lay : IsLayout fs) where
    module _ (c : ℕ) (lo : 2 ≤ c) (hi : c ≤ fs.cluster_count + 1) where
      abbrev lba : ℕ
      lba = fat32_cluster_to_lba fs c

      -- What a round takes of a sector, and the rest.
      part-slice :
          (s : Bytes) (idx off chunk left : ℕ)
          → ((i : ℕ) → i < 512 → s i ≡ sec (lba + idx) i)
          → off + chunk ≤ 512
          → (left ≡ 0) ⊎ (off + chunk ≡ 512)
          → slice s off chunk ++ slice (cluster_byte fs sec c) ((idx + 1) * 512 + 0) left
            ≡ slice (cluster_byte fs sec c) (idx * 512 + off) (chunk + left)
      part-slice s idx off chunk left same le last =
          ap₂ ◌++◌
            (slice-shift chunk s (cluster_byte fs sec c) off (idx * 512 + off) (λ i lt.
              let row : (idx * 512 + off + i) / 512 ≡ idx = omega arith in
              let column : (idx * 512 + off + i) % 512 ≡ off + i = omega arith in
              rw (row, column) (same (off + i) (omega arith))))
            (slice-shift left (cluster_byte fs sec c) (cluster_byte fs sec c) ((idx + 1) * 512 + 0)
              (idx * 512 + off + chunk) (λ i lt. ap (cluster_byte fs sec c) (ground arith)))
          ∙ slice-append chunk left (cluster_byte fs sec c) (idx * 512 + off)

      copy_out-slice :
          (fuel idx off n : ℕ)
          → n < fuel
          → off < 512
          → idx * 512 + off + n ≤ csize fs
          → copy_out dev fs d fuel lba idx off n
            ≡ some (ok (slice (cluster_byte fs sec c) (idx * 512 + off) n))
      unfolding copy_out take_part then_run
      copy_out-slice zero idx off n h lt le = absurd (omega arith)
      copy_out-slice (suc fuel) idx off n h lt le = elim (ℕ_discrete n 0) [
        | yes e ↦ rw e refl
        | no pos ↦
            let positive : (n == 0) ≡ false = ground arith in
            let at : add32 lba idx ≡ lba + idx =
              omega (arith, (lba-cluster dev fs disk lay c lo hi).1) in
            let (s, sector, same) = has.reads c idx lo hi (omega arith) in
            elim (Bool-cases (ltb n (512 - off))) [
              | inl short ↦
                  let none_left : n - n ≡ 0 = omega arith in
                  rw
                    (
                      positive,
                      at,
                      sector,
                      short,
                      copy_out-slice fuel (idx + 1) 0 (n - n) (omega arith) (omega arith)
                          (omega arith),
                    )
                    (ap (λ (l : List ℕ). some (ok l))
                      (part-slice s idx off n (n - n) same (ground arith) (inl none_left)
                        ∙ ap (slice (cluster_byte fs sec c) (idx * 512 + off)) (omega arith)))
              | inr long ↦
                  let left : ℕ = n - (512 - off) in
                  let enough : 512 - off ≤ n = ground arith in
                  rw
                    (
                      positive,
                      at,
                      sector,
                      long,
                      copy_out-slice fuel (idx + 1) 0 left (omega arith) (omega arith)
                          (omega arith),
                    )
                    (ap (λ (l : List ℕ). some (ok l))
                      (part-slice s idx off (512 - off) left same (omega arith) (inr (omega arith))
                        ∙ ap (slice (cluster_byte fs sec c) (idx * 512 + off)) (omega arith)))
            ]
      ]

  module _ (has : HasSectors) (disk : IsDisk dev) (lay : IsLayout fs) (entry : ℕ → ℕ)
      (entries : HasEntries dev fs d entry) (size : 0 < csize fs) (small : csize fs < u32_mod) where
    -- `left` more bytes after a cluster, whose entry is followed if there are any.
    abbrev pub AllRead : ℕ → Type 0
    AllRead fuel =
        (c : ℕ) (cs : List ℕ) (off n : ℕ)
        → Chain fs entry c cs
        → n < fuel
        → off < csize fs
        → off + n ≤ length cs * csize fs
        → read_clusters dev fs d fuel c off n ≡ some (ok (slice (file_bytes fs sec cs) off n))

    rest-slice :
        (fuel c : ℕ) (cs : List ℕ) (left : ℕ) (bytes : List ℕ)
        → AllRead fuel
        → c ≤ fs.cluster_count + 1
        → Chain fs entry (entry c) cs
        → left < fuel
        → left ≤ length cs * csize fs
        → then_run (some (step_on dev fs d c left)) (λ next.
          then_run (read_clusters dev fs d fuel next 0 left) (λ rest. some (ok (bytes ++ rest))))
          ≡ some (ok (bytes ++ slice (file_bytes fs sec cs) 0 left))
    unfolding then_run step_on
    rest-slice zero c cs left bytes all hi chain lt le = absurd (omega arith)
    rest-slice (suc fuel) c cs left bytes all hi chain lt le = elim (ℕ_discrete left 0) [
      | yes e ↦ rw e (ended fuel c cs bytes)
      | no pos ↦
          let positive : (left == 0) ≡ false = ground arith in
          rw (positive, entries.reads c hi, all (entry c) cs 0 left chain lt size (omega arith))
            refl
    ]
      where
        ended :
            (fuel c : ℕ) (cs : List ℕ) (bytes : List ℕ)
            → then_run (read_clusters dev fs d (suc fuel) c 0 0) (λ rest. some (ok (bytes ++ rest)))
              ≡ some (ok (bytes ++ slice (file_bytes fs sec cs) 0 0))
        ended fuel c cs bytes = unfold read_clusters in refl

    -- A stretch that begins in the first cluster of a chain.
    file-slice :
        (c : ℕ) (cs : List ℕ) (off part left : ℕ)
        → off + part ≤ csize fs
        → (left ≡ 0) ⊎ (off + part ≡ csize fs)
        → slice (cluster_byte fs sec c) (off / 512 * 512 + off % 512) part
            ++ slice (file_bytes fs sec cs) 0 left
          ≡ slice (file_bytes fs sec (c ∷ cs)) off (part + left)
    unfolding file_bytes
    file-slice c cs off part left le last =
        ap₂ ◌++◌
          (slice-shift part (cluster_byte fs sec c) (file_bytes fs sec (c ∷ cs))
            (off / 512 * 512 + off % 512) off
            (λ i lt.
              let inside : ltb (off + i) (csize fs) ≡ true = ground arith in
              rw inside (ap (cluster_byte fs sec c) (omega arith))))
          (slice-shift left (file_bytes fs sec cs) (file_bytes fs sec (c ∷ cs)) 0 (off + part)
            (λ i lt.
              let outside : ltb (off + part + i) (csize fs) ≡ false = ground arith in
              rw outside (ap (file_bytes fs sec cs) (ground arith))))
        ∙ slice-append part left (file_bytes fs sec (c ∷ cs)) off

    -- A turn of the loop that takes `part` bytes of a cluster and leaves `left`.
    turn-slice :
        (fuel c : ℕ) (cs : List ℕ) (off part left : ℕ)
        → AllRead fuel
        → 2 ≤ c
        → c ≤ fs.cluster_count + 1
        → Chain fs entry (entry c) cs
        → left < fuel
        → left ≤ length cs * csize fs
        → off + part ≤ csize fs
        → (left ≡ 0) ⊎ (off + part ≡ csize fs)
        → then_run
            (copy_out dev fs d (suc part) (fat32_cluster_to_lba fs c) (off / 512) (off % 512) part)
            (λ bytes. then_run (some (step_on dev fs d c left)) (λ next.
              then_run
                (read_clusters dev fs d fuel next 0 left)
                (λ rest. some (ok (bytes ++ rest)))))
          ≡ some (ok (slice (file_bytes fs sec (c ∷ cs)) off (part + left)))
    unfolding then_run
    turn-slice fuel c cs off part left all lo hi chain lt le inside last =
        rw
          (copy_out-slice has disk lay c lo hi (suc part) (off / 512) (off % 512) part (omega arith)
            (omega arith) (omega arith))
          (rest-slice fuel c cs left
              (slice (cluster_byte fs sec c) (off / 512 * 512 + off % 512) part) all hi chain lt le
            ∙ ap (λ (l : List ℕ). some (ok l)) (file-slice c cs off part left inside last))

    pub read_clusters-slice : (fuel : ℕ) → AllRead fuel
    unfolding read_clusters
    read_clusters-slice zero c cs off n chain lt room le = absurd (omega arith)
    read_clusters-slice (suc fuel) c [] off n (Chain.stop c' end') lt room le =
        let nothing : n ≡ 0 = omega arith in rw nothing refl
    read_clusters-slice (suc fuel) c (x ∷ cs) off n (Chain.cell c' xs lo hi chain) lt room le =
        elim (ℕ_discrete n 0) [
          | yes e ↦ rw e refl
          | no pos ↦
              let positive : (n == 0) ≡ false = ground arith in
              let linked : ltb c fat32_eoc ≡ true = ground (arith, lay.few) in
              let whole : mul32 fs.sectors_per_cluster fs.bytes_per_sector ≡ csize fs =
                rw (lay.sectors) (omega (arith, small)) in
              let there : sub32 (csize fs) off ≡ csize fs - off = omega (arith, small) in
              elim (Bool-cases (ltb n (csize fs - off))) [
                | inl short ↦
                    rw (positive, linked, whole, there, short)
                      (turn-slice fuel c cs off n (n - n) (read_clusters-slice fuel) lo hi chain
                          (omega arith) (omega arith) (ground arith) (inl (omega arith))
                        ∙ ap (λ (k : ℕ). some (ok (slice (file_bytes fs sec (c ∷ cs)) off k)))
                            (omega arith))
                | inr long ↦
                    let enough : csize fs - off ≤ n = ground arith in
                    rw (positive, linked, whole, there, long)
                      (turn-slice fuel c cs off (csize fs - off) (n - (csize fs - off))
                          (read_clusters-slice fuel) lo hi chain (omega arith) (omega arith)
                          (omega arith) (inr (omega arith))
                        ∙ ap (λ (k : ℕ). some (ok (slice (file_bytes fs sec (c ∷ cs)) off k)))
                            (omega arith))
              ]
        ]
