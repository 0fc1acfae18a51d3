-- ===== src/Fat/Modify/Loop.antt =====
-- The sectors that the loops of `fat32_write_op` leave on the disk.
use os_agent_lab.Prelude.{
  ℕ, zero, suc, ◌+◌, ◌-◌, ◌*◌, ◌≤◌, ◌<◌, ◌≡◌, ◌≢◌, refl, sym, ap, ◌∙◌, true, false, ◌&&◌, List,
  Option, none, some, ◌==◌, ltb, if◌then◌else◌, add32, length, take, drop, length-take, length-drop,
  ok, err, Bool-cases, ◌⊎◌, inl, inr, ℕ_discrete, dec_lt, arith,
}
use os_agent_lab.Phys.{Bytes, write_bytes}
use os_agent_lab.Phys.Slices.{ByteList, write_bytes-inside, write_bytes-outside}
use os_agent_lab.Disk.{BlockDevice, IsDisk}
use os_agent_lab.Fat.{Layout, Volume, stored, rewrite, fat32_cluster_to_lba}
use os_agent_lab.Fat.Entries.{IsLayout, HasEntries}
use os_agent_lab.Fat.Zeroed.{lba-cluster, HasEntries-below}
use os_agent_lab.Fat.Files.Read.{HasSectors}
use os_agent_lab.Fat.Modify.{Steps, then_steps, write_part, copy_in}
use os_agent_lab.Fat.Modify.Overlay.{overlay, Same, overlay-split, take-ByteList, drop-ByteList}

module _ {D : Type 0} (dev : BlockDevice D) (fs : Layout) (disk : IsDisk dev) (lay : IsLayout fs)
    (entry : ℕ → ℕ) where
  -- The volume has the table, and `sec` in the sectors of its clusters.
  abbrev pub Holds : Volume D → (ℕ → Bytes) → Type 0
  Holds v sec = HasSectors dev fs v.disk sec × HasEntries dev fs v.disk entry

  -- A run that ends: with the sectors `sec`, or with an error and the table as it was.
  abbrev pub Leaves : (ℕ → Bytes) → Steps (Volume D) → Type 0
  Leaves sec none = ⊥
  Leaves sec (some (err e, v)) = HasEntries dev fs v.disk entry
  Leaves sec (some (ok u, v)) = Holds v sec

  pub HasSectors-Same :
      (d : D) (sec sec' : ℕ → Bytes)
      → Same sec sec'
      → HasSectors dev fs d sec
      → HasSectors dev fs d sec'
  HasSectors-Same d sec sec' same has = record {
    reads = λ c k lo hi lt.
        let (s, e, is) = has.reads c k lo hi lt in
        (s, e, λ i small. is i small ∙ same (fat32_cluster_to_lba fs c + k) i small);
  }

  pub Leaves-Same :
      (sec sec' : ℕ → Bytes) (r : Steps (Volume D)) → Same sec sec' → Leaves sec r → Leaves sec' r
  Leaves-Same sec sec' none same h = h
  Leaves-Same sec sec' (some (err e, v)) same h = h
  Leaves-Same sec sec' (some (ok u, v)) same (has, table) =
      (HasSectors-Same v.disk sec sec' same has, table)

  pub then_steps-Leaves :
      (sec sec' : ℕ → Bytes) (r : Steps (Volume D)) (next : Volume D → Steps (Volume D))
      → Leaves sec r
      → ((v : Volume D) → Holds v sec → Leaves sec' (next v))
      → Leaves sec' (then_steps r next)
  unfolding then_steps
  then_steps-Leaves sec sec' none next h after = absurd h
  then_steps-Leaves sec sec' (some (err e, v)) next h after = h
  then_steps-Leaves sec sec' (some (ok u, v)) next h after = after v h

  -- One sector of the data, written.
  pub stored-Leaves :
      (v : Volume D) (sec sec' : ℕ → Bytes) (lba : ℕ) (b : Bytes)
      → Holds v sec
      → fs.data_lba ≤ lba
      → ((i : ℕ) → i < 512 → b i ≡ sec' lba i)
      → ((l i : ℕ) → l ≢ lba → i < 512 → sec l i ≡ sec' l i)
      → (r : Option D) → dev.blk_write lba b v.disk ≡ r
      → Leaves sec' (some (stored dev fs r v))
  unfolding stored
  stored-Leaves v sec sec' lba b (has, table) above here there none e = table
  stored-Leaves v sec sec' lba b (has, table) above here there (some d) e = (
    record {
      reads = λ c k lo hi lt.
          let at : ℕ = fat32_cluster_to_lba fs c + k in
          elim (ℕ_discrete at lba) [
            | yes p ↦
                let (s, back, is) = disk.reads_back lba b v.disk d e in
                (
                  s,
                  ap (λ (x : ℕ). dev.blk_read x d) p ∙ back,
                  λ i small. is i small ∙ here i small ∙ ap (λ (x : ℕ). sec' x i) (sym p),
                )
            | no n ↦
                let (s, old, is) = has.reads c k lo hi lt in
                (
                  s,
                  disk.reads_others lba at b v.disk d e n ∙ old,
                  λ i small. is i small ∙ there at i n small,
                )
          ];
    },
    HasEntries-below dev fs disk lay v.disk d entry table
        (λ other below. disk.reads_others lba other b v.disk d e (ground arith)),
  )

  module _ (c : ℕ) (lo : 2 ≤ c) (hi : c ≤ fs.cluster_count + 1) where
    abbrev lba : ℕ
    lba = fat32_cluster_to_lba fs c

    -- A part of a sector, with what was around it.
    part_bytes :
        (s : Bytes) (sec : ℕ → Bytes) (l off : ℕ) (part : List ℕ)
        → ByteList part
        → off + length part ≤ 512
        → ((i : ℕ) → i < 512 → ((i < off) ⊎ (off + length part ≤ i)) → s i ≡ sec l i)
        → (i : ℕ) → i < 512
        → write_bytes s off part i ≡ overlay sec (l * 512 + off) part l i
    unfolding overlay
    part_bytes s sec l off part bytes le same i small = elim (dec_lt i off) [
      | yes p ↦ write_bytes-outside part s off i (inl p) ∙ same i small (inl p) ∙ ground arith
      | no p ↦ elim (dec_lt i (off + length part)) [
        | no q ↦
            write_bytes-outside part s off i (inr (omega arith))
            ∙ same i small (inr (omega arith))
            ∙ ground arith
        | yes q ↦
            ap (write_bytes s off part) (omega arith)
            ∙ write_bytes-inside part s off (i - off) bytes (omega arith)
            ∙ ground arith
      ]
    ]

    write_part-Leaves :
        (v : Volume D) (sec : ℕ → Bytes) (idx off : ℕ) (part : List ℕ)
        → Holds v sec
        → ByteList part
        → off + length part ≤ 512
        → idx < fs.sectors_per_cluster
        → Leaves
            (overlay sec ((lba + idx) * 512 + off) part)
            (some (write_part dev fs off part (lba + idx) v))
    unfolding write_part rewrite
    write_part-Leaves v sec idx off part holds bytes le lt =
        let l : ℕ = lba + idx in
        let above : fs.data_lba ≤ l = omega (arith, (lba-cluster dev fs disk lay c lo hi).0) in
        let sec' = overlay sec (l * 512 + off) part in
        let there : (k i : ℕ) → k ≢ l → i < 512 → sec k i ≡ sec' k i =
          λ k i other small. unfold overlay in ground arith in
        elim (Bool-cases (off == 0 && length part == 512)) [
          | inl whole ↦
              let b : Bytes = write_bytes (λ i. 0) 0 part in
              let z : off ≡ 0 = ground arith in
              let full : length part ≡ 512 = ground arith in
              rw whole (
                stored-Leaves v sec sec' l b holds above
                  (λ i small.
                    ap (λ (k : ℕ). write_bytes (λ x. 0) k part i) (sym z)
                    ∙ part_bytes (λ x. 0) sec l off part bytes le
                        (λ k inside apart. absurd (ground arith)) i small)
                  there (dev.blk_write l b v.disk) refl)
          | inr some_of_it ↦
              let (s, read, is) = holds.0.reads c idx lo hi lt in
              let b : Bytes = write_bytes s off part in
              rw (some_of_it, read)
                (stored-Leaves v sec sec' l b holds above
                  (part_bytes s sec l off part bytes le (λ i small apart. is i small)) there
                  (dev.blk_write l b v.disk) refl)
        ]

    pub copy_in-Leaves :
        (fuel : ℕ) (v : Volume D) (sec : ℕ → Bytes) (idx off : ℕ) (bytes : List ℕ)
        → length bytes < fuel
        → Holds v sec
        → ByteList bytes
        → off < 512
        → idx * 512 + off + length bytes ≤ fs.sectors_per_cluster * 512
        → Leaves
            (overlay sec ((lba + idx) * 512 + off) bytes)
            (copy_in dev fs fuel lba idx off bytes v)
    unfolding copy_in
    copy_in-Leaves zero v sec idx off bytes enough holds all lt le = absurd (omega arith)
    copy_in-Leaves (suc fuel) v sec idx off bytes enough holds all lt le =
        elim (ℕ_discrete (length bytes) 0) [
          | yes e ↦
              let nothing : (length bytes == 0) ≡ true = ground arith in
              rw nothing (
                HasSectors-Same v.disk sec (overlay sec ((lba + idx) * 512 + off) bytes)
                    (λ l i small. unfold overlay in ground arith) holds.0,
                holds.1,
              )
          | no pos ↦
              let something : (length bytes == 0) ≡ false = ground arith in
              let chunk : ℕ = if ltb (length bytes) (512 - off) then length bytes else 512 - off in
              let taken : length (take chunk bytes) ≡ chunk =
                ground (arith, length-take {0} chunk bytes) in
              let left : length (drop chunk bytes) ≡ length bytes - chunk =
                length-drop chunk bytes in
              let at : add32 lba idx ≡ lba + idx =
                omega (arith, (lba-cluster dev fs disk lay c lo hi).1) in
              let a : ℕ = (lba + idx) * 512 + off in
              let sec' = overlay sec a (take chunk bytes) in
              let final : ℕ → Bytes =
                overlay sec' ((lba + (idx + 1)) * 512 + 0) (drop chunk bytes) in
              let first : Steps (Volume D) =
                some (write_part dev fs off (take chunk bytes) (lba + idx) v) in
              let next : Volume D → Steps (Volume D) =
                λ w. copy_in dev fs fuel lba (idx + 1) 0 (drop chunk bytes) w in
              rw (something, at)
                (Leaves-Same final (overlay sec a bytes) (then_steps first next)
                  (overlay-split sec a ((lba + (idx + 1)) * 512 + 0) chunk bytes (ground arith)
                    (ground arith))
                  (then_steps-Leaves sec' final first next
                    (write_part-Leaves v sec idx off (take chunk bytes) holds
                      (take-ByteList chunk bytes all) (ground arith) (omega arith))
                    (λ w holds'.
                      copy_in-Leaves fuel w sec' (idx + 1) 0 (drop chunk bytes) (ground arith)
                        holds' (drop-ByteList chunk bytes all) (omega arith) (ground arith))))
        ]
