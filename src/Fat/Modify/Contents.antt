-- ===== src/Fat/Modify/Contents.antt =====
-- What a file's bytes are after sectors were written along its chain.
use os_agent_lab.Prelude.{
  ℕ, ◌+◌, ◌-◌, ◌*◌, ◌/◌, ◌%◌, ◌≤◌, ◌<◌, min, ◌≡◌, ◌≢◌, refl, ◌∙◌, true, false, ◌&&◌, List, [], ◌∷◌,
  ltb, leb, if◌then◌else◌, sub32, length, take, drop, get_or, length-take, length-drop, Bool-cases,
  ◌⊎◌, inl, inr, dec_lt, arith,
}
use os_agent_lab.Phys.{Bytes}
use os_agent_lab.Fat.{Layout, fat32_cluster_to_lba}
use os_agent_lab.Fat.Entries.{IsLayout, le_mul}
use os_agent_lab.Fat.Chains.{Chain, Chain-elem, elem}
use os_agent_lab.Fat.Files.Read.{csize, cluster_byte, file_bytes}
use os_agent_lab.Fat.Modify.Overlay.{overlay, get_or-take, get_or-drop}
use os_agent_lab.Fat.Modify.Clusters.{written}

module _ (fs : Layout) (lay : IsLayout fs) where
  abbrev pub InRange : ℕ → Type 0
  InRange c = (2 ≤ c) × (c ≤ fs.cluster_count + 1)

  lba-eq :
      (c : ℕ)
      → InRange c
      → fat32_cluster_to_lba fs c ≡ fs.data_lba + (c - 2) * fs.sectors_per_cluster
  unfolding fat32_cluster_to_lba
  lba-eq c (lo, hi) =
      let at : sub32 c 2 ≡ c - 2 = omega (arith, lay.few) in
      let bounds = le_mul (c - 2) fs.sectors_per_cluster fs.cluster_count (omega arith) in
      rw at (omega (arith, bounds, lay.in_range))

  -- Two clusters have no sector in common.
  lba-apart :
      (c e : ℕ)
      → InRange c
      → InRange e
      → e ≢ c
      → (fat32_cluster_to_lba fs e + fs.sectors_per_cluster ≤ fat32_cluster_to_lba fs c)
        ⊎ (fat32_cluster_to_lba fs c + fs.sectors_per_cluster ≤ fat32_cluster_to_lba fs e)
  lba-apart c e in_c in_e ne = elim (dec_lt e c) [
    | yes p ↦
        let bounds = le_mul (e - 2) fs.sectors_per_cluster (c - 2) (omega arith) in
        inl (omega (arith, lba-eq c in_c, lba-eq e in_e, bounds))
    | no p ↦
        let bounds = le_mul (c - 2) fs.sectors_per_cluster (e - 2) (omega arith) in
        inr (omega (arith, lba-eq c in_c, lba-eq e in_e, bounds))
  ]

  module _ (sec : ℕ → Bytes) (c off : ℕ) (bytes : List ℕ) (in_c : InRange c)
      (inside : off + length bytes ≤ csize fs) where
    abbrev over : ℕ → Bytes
    over = overlay sec (fat32_cluster_to_lba fs c * 512 + off) bytes

    overlay_here :
        (j : ℕ)
        → cluster_byte fs over c j ≡ (
            if leb off j && ltb j (off + length bytes)
            then get_or bytes (j - off) 0
            else cluster_byte fs sec c j)
    unfolding overlay
    overlay_here j =
        let lba : ℕ = fat32_cluster_to_lba fs c in
        let linear : (lba + j / 512) * 512 + j % 512 ≡ lba * 512 + j = omega arith in
        let same : lba * 512 + j - (lba * 512 + off) ≡ j - off = omega arith in
        rw (linear, same) (ground arith)

    overlay_elsewhere :
        (e j : ℕ)
        → InRange e
        → e ≢ c
        → j < csize fs
        → cluster_byte fs over e j ≡ cluster_byte fs sec e j
    unfolding overlay
    overlay_elsewhere e j in_e ne lt = ground (arith, lba-apart c e in_c in_e ne)

  module _ (entry : ℕ → ℕ) where
    -- Clusters outside a chain keep their bytes.
    pub written_elsewhere :
        (sec : ℕ → Bytes) (c : ℕ) (cs : List ℕ) (off : ℕ) (bytes : List ℕ)
        → Chain fs entry c cs
        → off ≤ csize fs
        → (e j : ℕ) → InRange e
        → elem e cs ≡ false
        → j < csize fs
        → cluster_byte fs (written fs sec cs off bytes) e j ≡ cluster_byte fs sec e j
    unfolding written
    written_elsewhere sec c [] off bytes chain le e j in_e no_elem lt = refl
    written_elsewhere sec c (x ∷ cs) off bytes (Chain.cell _ _ lo hi chain) le e j in_e no_elem lt =
        let part : ℕ = min (length bytes) (csize fs - off) in
        let fits : off + length (take part bytes) ≤ csize fs =
          omega (arith, length-take {0} part bytes) in
        written_elsewhere (over sec c off (take part bytes) (lo, hi) fits) (entry c) cs 0
          (drop part bytes) chain (omega arith) e j in_e (ground arith) lt
        ∙ overlay_elsewhere sec c off (take part bytes) (lo, hi) fits e j in_e (ground arith) lt

    -- Sectors that agree on a chain's clusters make the same file.
    pub file_bytes-congr :
        (sec sec' : ℕ → Bytes) (c : ℕ) (cs : List ℕ)
        → Chain fs entry c cs
        → ((e j : ℕ)
            → InRange e
            → elem e cs ≡ true
            → j < csize fs
            → cluster_byte fs sec e j ≡ cluster_byte fs sec' e j)
        → (i : ℕ) → file_bytes fs sec cs i ≡ file_bytes fs sec' cs i
    unfolding file_bytes
    file_bytes-congr sec sec' c [] chain same i = refl
    file_bytes-congr sec sec' c (x ∷ cs) (Chain.cell _ _ lo hi chain) same i =
        elim (Bool-cases (ltb i (csize fs))) [
          | inl p ↦ rw p (same c i (lo, hi) (ground arith) (ground arith))
          | inr p ↦ rw p (
              file_bytes-congr sec sec' (entry c) cs chain
                (λ e j in_e is lt. same e j in_e (ground (arith, is)) lt) (i - csize fs))
        ]

    -- The bytes of the file: those written, from `off` on, and the others as they were.
    pub file_bytes-written :
        (sec : ℕ → Bytes) (c : ℕ) (cs : List ℕ) (off : ℕ) (bytes : List ℕ)
        → Chain fs entry c cs
        → off ≤ csize fs
        → off + length bytes ≤ length cs * csize fs
        → (i : ℕ)
        → file_bytes fs (written fs sec cs off bytes) cs i ≡ (
            if leb off i && ltb i (off + length bytes)
            then get_or bytes (i - off) 0
            else file_bytes fs sec cs i)
    unfolding file_bytes written
    file_bytes-written sec c [] off bytes chain le room i = ground arith
    file_bytes-written sec c (x ∷ cs) off bytes (Chain.cell _ _ lo hi chain) le room i =
        let part : ℕ = min (length bytes) (csize fs - off) in
        let taken : length (take part bytes) ≡ part = omega (arith, length-take {0} part bytes) in
        let left : length (drop part bytes) ≡ length bytes - part = length-drop part bytes in
        let fits : off + length (take part bytes) ≤ csize fs = omega arith in
        let sec' = over sec c off (take part bytes) (lo, hi) fits in
        let alone : elem c cs ≡ false = Chain-elem fs lay entry c cs lo hi chain in
        elim (Bool-cases (ltb i (csize fs))) [
          | inl p ↦ rw p (
              written_elsewhere sec' (entry c) cs 0 (drop part bytes) chain (omega arith) c i
                (lo, hi) alone (ground arith)
              ∙ overlay_here sec c off (take part bytes) (lo, hi) fits i
              ∙ ground (arith, get_or-take part (i - off) bytes))
          | inr p ↦
              let k : ℕ = i - csize fs in
              let same : file_bytes fs sec' cs k ≡ file_bytes fs sec cs k =
                file_bytes-congr sec' sec (entry c) cs chain
                  (λ e j in_e is lt.
                    overlay_elsewhere sec c off (take part bytes) (lo, hi) fits e j in_e
                      (ground (arith, alone, is)) lt)
                  k in
              rw p (
                file_bytes-written sec' (entry c) cs 0 (drop part bytes) chain (omega arith)
                  (ground arith) k
                ∙ ground (arith, same, get_or-drop part k bytes))
        ]
