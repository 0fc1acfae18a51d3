-- ===== src/Fat/Modify/Clusters.antt =====
-- The loop of `fat32_write_op` over the clusters of a chain.
use os_agent_lab.Prelude.{
  ℕ, zero, suc, ◌+◌, ◌-◌, ◌*◌, ◌/◌, ◌%◌, ◌≤◌, ◌<◌, min, ◌≡◌, refl, ◌∙◌, subst, true, false, List,
  [], ◌∷◌, ◌==◌, ltb, if◌then◌else◌, sub32, mul32, u32_mod, length, take, drop, length-take,
  length-drop, ℕ_discrete, arith,
}
use os_agent_lab.Phys.{Bytes}
use os_agent_lab.Phys.Slices.{ByteList}
use os_agent_lab.Disk.{BlockDevice, IsDisk}
use os_agent_lab.Fat.{Layout, Volume, fat32_eoc, fat32_cluster_to_lba}
use os_agent_lab.Fat.Entries.{IsLayout}
use os_agent_lab.Fat.Chains.{Chain}
use os_agent_lab.Fat.Files.{step_on}
use os_agent_lab.Fat.Files.Read.{csize}
use os_agent_lab.Fat.Modify.{then_steps, go_on, copy_in, write_clusters}
use os_agent_lab.Fat.Modify.Overlay.{overlay, Same, take-ByteList, drop-ByteList}
use os_agent_lab.Fat.Modify.Loop.{Holds, Leaves, HasSectors-Same, then_steps-Leaves, copy_in-Leaves}

module _ (fs : Layout) where
  -- The sectors after `bytes` are written along the clusters, from byte `off` of the first on.
  unfoldable pub written : (ℕ → Bytes) → List ℕ → ℕ → List ℕ → ℕ → Bytes
  written sec [] off bytes = sec
  written sec (c ∷ cs) off bytes =
      let part = min (length bytes) (csize fs - off) in
      written (overlay sec (fat32_cluster_to_lba fs c * 512 + off) (take part bytes)) cs 0
        (drop part bytes)

  pub written-nothing :
      (cs : List ℕ) (sec : ℕ → Bytes) (off : ℕ) (bytes : List ℕ)
      → length bytes ≡ 0
      → Same sec (written sec cs off bytes)
  unfolding written
  written-nothing [] sec off bytes none_left l i lt = refl
  written-nothing (c ∷ cs) sec off bytes none_left l i lt =
      let part : ℕ = min (length bytes) (csize fs - off) in
      let a : ℕ = fat32_cluster_to_lba fs c * 512 + off in
      let same : sec l i ≡ overlay sec a (take part bytes) l i =
        unfold overlay in ground (arith, length-take {0} part bytes) in
      same
      ∙ written-nothing cs (overlay sec a (take part bytes)) 0 (drop part bytes)
          (omega (arith, length-drop {0} part bytes)) l i lt

module _ {D : Type 0} (dev : BlockDevice D) (fs : Layout) (disk : IsDisk dev) (lay : IsLayout fs)
    (entry : ℕ → ℕ) (size : 0 < csize fs) (small : csize fs < u32_mod) where
  abbrev AllWritten : ℕ → Type 0
  AllWritten fuel =
      (v : Volume D) (sec : ℕ → Bytes) (c : ℕ) (cs : List ℕ) (off : ℕ) (bytes : List ℕ)
      → Chain fs entry c cs
      → length bytes < fuel
      → Holds dev fs disk lay entry v sec
      → ByteList bytes
      → off < csize fs
      → off + length bytes ≤ length cs * csize fs
      → Leaves dev fs disk lay entry (written fs sec cs off bytes)
          (write_clusters dev fs fuel c off bytes v)

  -- From a cluster on to the next one, with the rest of the bytes.
  rest-Leaves :
      (fuel : ℕ) (w : Volume D) (sec : ℕ → Bytes) (c : ℕ) (cs : List ℕ) (left : ℕ) (bytes : List ℕ)
      → AllWritten fuel
      → length bytes ≡ left
      → c ≤ fs.cluster_count + 1
      → Chain fs entry (entry c) cs
      → left < fuel
      → Holds dev fs disk lay entry w sec
      → ByteList bytes
      → left ≤ length cs * csize fs
      → Leaves dev fs disk lay entry (written fs sec cs 0 bytes) (
          go_on
            (step_on dev fs w.disk c left)
            w
            (λ next w'. write_clusters dev fs fuel next 0 bytes w'))
  unfolding go_on step_on
  rest-Leaves zero w sec c cs left bytes all is hi chain lt holds byte_list le =
      absurd (omega arith)
  rest-Leaves (suc fuel) w sec c cs left bytes all is hi chain lt holds byte_list le =
      elim (ℕ_discrete left 0) [
        | yes e ↦
            let nothing : (length bytes == 0) ≡ true = ground arith in
            rw e (
              unfold write_clusters in
              rw nothing (
                HasSectors-Same dev fs disk lay entry w.disk sec (written fs sec cs 0 bytes)
                    (written-nothing fs cs sec 0 bytes (omega arith)) holds.0,
                holds.1,
              ))
        | no pos ↦
            let positive : (left == 0) ≡ false = ground arith in
            rw (positive, holds.1.reads c hi)
              (all w sec (entry c) cs 0 bytes chain (omega arith) holds byte_list size
                (omega arith))
      ]

  -- A turn of the loop.
  turn-Leaves :
      (fuel : ℕ) (v : Volume D) (sec : ℕ → Bytes) (c : ℕ) (cs : List ℕ) (off : ℕ) (bytes : List ℕ)
      → AllWritten fuel
      → 2 ≤ c
      → c ≤ fs.cluster_count + 1
      → Chain fs entry (entry c) cs
      → 0 < length bytes
      → length bytes < suc fuel
      → Holds dev fs disk lay entry v sec
      → ByteList bytes
      → off < csize fs
      → off + length bytes ≤ suc (length cs) * csize fs
      → let part = min (length bytes) (csize fs - off) in
        Leaves dev fs disk lay entry (written fs sec (c ∷ cs) off bytes) (
          then_steps
            (copy_in dev fs
              (suc part)
              (fat32_cluster_to_lba fs c)
              (off / 512)
              (off % 512)
              (take part bytes)
              v)
            (λ w.
              go_on
                (step_on dev fs w.disk c (length bytes - part))
                w
                (λ next w'. write_clusters dev fs fuel next 0 (drop part bytes) w')))
  unfolding written
  turn-Leaves fuel v sec c cs off bytes all_written lo hi chain asked enough holds all lt le =
      let part : ℕ = min (length bytes) (csize fs - off) in
      let lba : ℕ = fat32_cluster_to_lba fs c in
      let taken : length (take part bytes) ≡ part = omega (arith, length-take {0} part bytes) in
      let left : length (drop part bytes) ≡ length bytes - part = length-drop part bytes in
      let sec' = overlay sec (lba * 512 + off) (take part bytes) in
      let at : (lba + off / 512) * 512 + off % 512 ≡ lba * 512 + off = omega arith in
      then_steps-Leaves dev fs disk lay entry sec' (written fs sec' cs 0 (drop part bytes))
        (copy_in dev fs (suc part) lba (off / 512) (off % 512) (take part bytes) v)
        (λ w.
          go_on (step_on dev fs w.disk c (length bytes - part)) w
            (λ next w'. write_clusters dev fs fuel next 0 (drop part bytes) w'))
        (subst
          (λ (a : ℕ).
            Leaves dev fs disk lay entry (overlay sec a (take part bytes))
              (copy_in dev fs (suc part) lba (off / 512) (off % 512) (take part bytes) v))
          at
          (copy_in-Leaves dev fs disk lay entry c lo hi (suc part) v sec (off / 512) (off % 512)
            (take part bytes) (omega arith) holds (take-ByteList part bytes all) (omega arith)
            (omega arith)))
        (λ w holds'.
          rest-Leaves fuel w sec' c cs (length bytes - part) (drop part bytes) all_written left hi
            chain (omega (arith, size)) holds' (drop-ByteList part bytes all) (ground arith))

  pub write_clusters-Leaves : (fuel : ℕ) → AllWritten fuel
  unfolding write_clusters
  write_clusters-Leaves zero v sec c cs off bytes chain enough holds all lt le =
      absurd (omega arith)
  write_clusters-Leaves (suc fuel) v sec c [] off bytes (Chain.stop _ h) enough holds all lt le =
      let nothing : (length bytes == 0) ≡ true = ground arith in
      rw nothing (
        HasSectors-Same dev fs disk lay entry v.disk sec (written fs sec [] off bytes)
            (written-nothing fs [] sec off bytes (omega arith)) holds.0,
        holds.1,
      )
  write_clusters-Leaves (suc fuel) v sec c (x ∷ cs) off bytes (Chain.cell _ _ lo hi chain) enough
        holds all lt le =
      elim (ℕ_discrete (length bytes) 0) [
        | yes e ↦
            let nothing : (length bytes == 0) ≡ true = ground arith in
            rw nothing (
              HasSectors-Same dev fs disk lay entry v.disk sec (written fs sec (x ∷ cs) off bytes)
                  (written-nothing fs (x ∷ cs) sec off bytes e) holds.0,
              holds.1,
            )
        | no pos ↦
            let something : (length bytes == 0) ≡ false = ground arith in
            let linked : ltb c fat32_eoc ≡ true = ground (arith, lay.few) in
            let whole : mul32 fs.sectors_per_cluster fs.bytes_per_sector ≡ csize fs =
              rw (lay.sectors) (omega (arith, small)) in
            let there : sub32 (csize fs) off ≡ csize fs - off = omega (arith, small) in
            let amount : (if ltb (length bytes) (csize fs - off)
                  then length bytes
                  else csize fs - off)
                ≡ min (length bytes) (csize fs - off) =
              ground arith in
            rw (something, linked, whole, there, amount)
              (turn-Leaves fuel v sec c cs off bytes (write_clusters-Leaves fuel) lo hi chain
                (omega arith) enough holds all lt le)
      ]
