-- ===== src/Fat/Files/Read/Whole.antt =====
-- `fat32_read_op` against the bytes of the file.
use os_agent_lab.Prelude.{
  ℕ, zero, suc, ◌+◌, ◌-◌, ◌*◌, ◌/◌, ◌%◌, ◌≤◌, ◌<◌, min, ◌≡◌, refl, ap, ◌∙◌, true, false, List, [],
  ◌∷◌, some, ◌==◌, ltb, leb, if◌then◌else◌, mul32, add64, u32_mod, u64_mod, length, drop, ok,
  Bool-cases, ◌⊎◌, inl, inr, arith, length-drop,
}
use os_agent_lab.Phys.{Bytes, slice}
use os_agent_lab.Disk.{BlockDevice, IsDisk}
use os_agent_lab.Fat.{Layout, fat32_eoc}
use os_agent_lab.Fat.Entries.{IsLayout, HasEntries}
use os_agent_lab.Fat.Chains.{Chain}
use os_agent_lab.Fat.Files.{
  FatNode, skip_clusters, read_skipped, read_node, read_refreshed, fat32_refresh_node,
  fat32_read_op,
}
use os_agent_lab.Fat.Files.Read.{slice-shift, csize, HasSectors, file_bytes, read_clusters-slice}
use native.Mathlib.Nat.{div-add-mod', mod-lt}

pub rest_bound : (w k r n m : ℕ) → k * w + r + n ≤ (k + m) * w → r + n ≤ m * w
rest_bound w k r n m h = grind arith

module _ {D : Type 0} (dev : BlockDevice D) (fs : Layout) (d : D) (sec : ℕ → Bytes) (entry : ℕ → ℕ)
    (lay : IsLayout fs) (entries : HasEntries dev fs d entry) where
  Chain-positive : (c : ℕ) (cs : List ℕ) → Chain fs entry c cs → 0 < c
  Chain-positive c [] (Chain.stop _ h) = omega arith
  Chain-positive c (x ∷ cs) (Chain.cell _ _ lo hi r) = omega arith

  skip_clusters-Chain :
      (skip c : ℕ) (cs : List ℕ)
      → Chain fs entry c cs
      → skip < length cs
      → (c' : ℕ) × (skip_clusters dev fs d skip c ≡ ok (some c')) × Chain fs entry c' (drop skip cs)
  unfolding skip_clusters
  skip_clusters-Chain skip c [] chain lt = absurd (omega arith)
  skip_clusters-Chain zero c (x ∷ cs) chain lt = (c, refl, chain)
  skip_clusters-Chain (suc skip) c (x ∷ y ∷ cs) (Chain.cell _ _ lo hi (Chain.cell e _ lo' hi' r))
        lt =
      let going : leb fat32_eoc (entry c) ≡ false = ground (arith, lay.few) in
      rw (entries.reads c hi, going)
        (skip_clusters-Chain skip (entry c) (y ∷ cs) (Chain.cell (entry c) cs lo' hi' r)
          (omega arith))
  skip_clusters-Chain (suc skip) c (x ∷ []) chain lt = absurd (omega arith)

  file_bytes-drop :
      (k i : ℕ) (cs : List ℕ)
      → file_bytes fs sec (drop k cs) i ≡ file_bytes fs sec cs (k * csize fs + i)
  unfolding file_bytes
  file_bytes-drop zero i cs = ap (file_bytes fs sec cs) (omega arith)
  file_bytes-drop (suc k) i [] = refl
  file_bytes-drop (suc k) i (x ∷ cs) =
      let outside : ltb (suc k * csize fs + i) (csize fs) ≡ false = grind arith in
      rw outside (file_bytes-drop k i cs ∙ ap (file_bytes fs sec cs) (grind arith))

  -- Where a file of `size` bytes lies: on a chain that is long enough, or nowhere if it is empty.
  abbrev pub IsFile : ℕ → ℕ → List ℕ → Type 0
  IsFile cluster size cs =
      (Chain fs entry cluster cs ⊎ ((cluster ≡ 0) × (cs ≡ []))) × (size ≤ length cs * csize fs)

  read_skipped-slice :
      (size : 0 < csize fs)
      → csize fs < u32_mod
      → HasSectors dev fs d sec
      → IsDisk dev
      → (c : ℕ) (cs : List ℕ) (n offset : ℕ) → Chain fs entry c cs
      → 0 < n
      → offset + n ≤ length cs * csize fs
      → read_skipped dev fs d (skip_clusters dev fs d (offset / csize fs) c) (offset % csize fs) n
        ≡ some (ok (slice (file_bytes fs sec cs) offset n))
  unfolding read_skipped
  read_skipped-slice size small has disk c cs n offset chain positive le =
      let w : ℕ = csize fs in
      let k : ℕ = offset / w in
      let split : k * w + offset % w ≡ offset = div-add-mod' offset w in
      let within : k < length cs = grind arith in
      let (c', found, rest) = skip_clusters-Chain k c cs chain within in
      let left : length (drop k cs) ≡ length cs - k = length-drop k cs in
      let enough : offset % w + n ≤ length (drop k cs) * w =
        let sum : k + length (drop k cs) ≡ length cs = omega (arith, left) in
        rest_bound w k (offset % w) n (length (drop k cs)) (rw sum (omega (arith, split))) in
      rw found (
        read_clusters-slice dev fs d sec has disk lay entry entries size small (suc n) c'
          (drop k cs) (offset % w) n rest (omega arith) (mod-lt offset size) enough
        ∙ ap (λ (l : List ℕ). some (ok l))
            (slice-shift n (file_bytes fs sec (drop k cs)) (file_bytes fs sec cs) (offset % w)
              offset
              (λ i lt.
                file_bytes-drop k (offset % w + i) cs
                ∙ ap (file_bytes fs sec cs) (omega (arith, split)))))

  read_node-slice :
      csize fs < u32_mod
      → 0 < csize fs
      → HasSectors dev fs d sec
      → IsDisk dev
      → (node : FatNode) (cs : List ℕ) (len offset : ℕ) → IsFile node.cluster node.size cs
      → offset + len < u64_mod
      → 0 < len
      → read_node dev fs d true node len offset
        ≡ some (ok (slice (file_bytes fs sec cs) offset (min len (node.size - offset))))
  unfolding read_node
  read_node-slice small size has disk node cs len offset (placed, fits) range asked =
      elim (Bool-cases (leb node.size offset)) [
        | inl past ↦
            let nothing : min len (node.size - offset) ≡ 0 = ground arith in rw (past, nothing) refl
        | inr inside ↦
            let n : ℕ = min len (node.size - offset) in
            let amount : (if ltb node.size (add64 offset len) then node.size - offset else len)
                ≡ n =
              ground arith in
            let whole : mul32 fs.bytes_per_sector fs.sectors_per_cluster ≡ csize fs =
              rw (lay.sectors) (omega (arith, small)) in
            elim placed [
              | inl chain ↦
                  let linked : (node.cluster == 0) ≡ false =
                    ground (arith, Chain-positive node.cluster cs chain) in
                  rw (inside, linked, amount, whole)
                    (read_skipped-slice size small has disk node.cluster cs n offset chain
                      (ground arith) (ground arith))
              | inr (z, e) ↦
                  let no_room : length cs * csize fs ≡ 0 = rw e (omega arith) in
                  absurd (ground (arith, no_room, fits))
            ]
      ]

  -- On a sound volume whose disk can be read (entries of the table `entry`, sectors of the clusters
  -- `sec`), with clusters of more than 0 and less than 2 ^ 32 bytes, a node whose directory entry is
  -- read as `fresh`, and a file of that size along the chain `cs`: reading `len` bytes at `offset`,
  -- where these are more than 0 and end below 2 ^ 64, takes the node over from the directory entry and
  -- gives exactly the bytes of the file from `offset` on, as many as asked for or as there are before
  -- the file's end.
  pub fat32_read_op-slice :
      HasSectors dev fs d sec
      → IsDisk dev
      → 0 < csize fs
      → csize fs < u32_mod
      → (node fresh : FatNode) (cs : List ℕ) (len offset : ℕ)
      → fat32_refresh_node dev fs d node ≡ ok fresh
      → IsFile fresh.cluster fresh.size cs
      → 0 < len
      → offset + len < u64_mod
      → fat32_read_op dev fs d true node len offset
        ≡ (fresh, some (ok (slice (file_bytes fs sec cs) offset (min len (fresh.size - offset)))))
  unfolding fat32_read_op read_refreshed
  fat32_read_op-slice has disk size small node fresh cs len offset e file asked range =
      rw (e, read_node-slice small size has disk fresh cs len offset file range asked) refl
