-- ===== src/Fat/Alloc.antt =====
-- `fat32_alloc_cluster`: which cluster it takes, what it leaves, and when it reports ENOSPC.
use os_agent_lab.Prelude.{
  ℕ, zero, suc, ◌+◌, ◌-◌, ◌≤◌, ◌<◌, ◌≡◌, ◌≢◌, refl, sym, ap, subst, ◌∙◌, ◌⊎◌, inl, inr, Option,
  none, some, arith, ok, err, enospc, update, add32, ℕ_discrete, ◌==◌, true, false,
}
use os_agent_lab.Disk.{BlockDevice, IsDisk}
use os_agent_lab.Fat.{
  Layout, Volume, on_ok, fat32_write_fat_entry, fat32_zero_cluster, fat32_cluster_to_lba, find_free,
  claim, rounds, first_cluster, first_pass, second_pass, fat32_alloc_cluster, fat32_eoc,
}
use os_agent_lab.Fat.Entries.{
  IsLayout, HasEntries, on_ok-inv, fat32_write_fat_entry-HasEntries, fat32_write_fat_entry-keeps,
}
use os_agent_lab.Fat.Failed.{claim-err}
use os_agent_lab.Fat.Zeroed.{IsBlank, HasEntries-below, lba-cluster, fat32_zero_cluster-lem}

-- What a search from `c` to below `top` found.
Found : (ℕ → ℕ) → ℕ → ℕ → Option ℕ → Type 0
Found entry c top none = (e : ℕ) → c ≤ e → e < top → entry e ≢ 0
Found entry c top (some b) = (entry b ≡ 0) × (c ≤ b) × (b < top)

Found-extend :
    (c left : ℕ) (entry : ℕ → ℕ) (o : Option ℕ)
    → entry c ≢ 0
    → Found entry (c + 1) (c + 1 + left) o
    → Found entry c (c + suc left) o
unfolding Found
Found-extend c left entry (some b) nz (z, lo, hi) = (z, omega arith, omega arith)
Found-extend c left entry none nz is = λ e lo hi. elim (ℕ_discrete e c) [
  | yes p ↦ λ z. nz (sym (ap entry p) ∙ z)
  | no p ↦ is e (omega (arith, p)) (omega arith)
]

module _ {D : Type 0} (dev : BlockDevice D) (fs : Layout) where
  find_free-Found :
      (left c : ℕ) (d : D) (entry : ℕ → ℕ)
      → HasEntries dev fs d entry
      → left ≤ fs.cluster_count + 2 - c
      → (o : Option ℕ) × (find_free dev fs left c d ≡ ok o) × Found entry c (c + left) o
  unfolding find_free Found
  find_free-Found zero c d entry has le = (none, refl, λ e lo hi. absurd (omega arith))
  find_free-Found (suc left) c d entry has le =
      let (o, found, is) = find_free-Found left (c + 1) d entry has (omega arith) in
      let r = has.reads c (omega arith) in
      elim (ℕ_discrete (entry c) 0) [
        | yes z ↦
            let test : (entry c == 0) ≡ true = ground (arith, z) in
            (some c, rw (r, test, find_free) refl, (z, omega arith, omega arith))
        | no nz ↦
            let test : (entry c == 0) ≡ false = ground (arith, nz) in
            (o, rw (r, test, find_free) found, Found-extend c left entry o nz is)
      ]

  -- What a cluster that was taken is like: it was free, the table marks it as the end of a chain and
  -- has no other change, its sectors are blank, the rest of the data is as it was, and the next
  -- search starts after it.
  pub record Allocated (v v' : Volume D) (entry : ℕ → ℕ) (c : ℕ) : Type 0 where
    pub first : 2 ≤ c
    pub last : c ≤ fs.cluster_count + 1
    pub free : entry c ≡ 0
    pub table : HasEntries dev fs v'.disk (update entry c fat32_eoc)
    pub blank :
        (i : ℕ)
        → i < fs.sectors_per_cluster
        → IsBlank dev fs (fat32_cluster_to_lba fs c + i) v'.disk
    pub others :
        (lba : ℕ)
        → fs.data_lba ≤ lba
        → (lba < fat32_cluster_to_lba fs c)
          ⊎ (fat32_cluster_to_lba fs c + fs.sectors_per_cluster ≤ lba)
        → dev.blk_read lba v'.disk ≡ dev.blk_read lba v.disk
    pub hint : v'.alloc_hint ≡ c + 1

  module _ (disk : IsDisk dev) (lay : IsLayout fs) where
    claim-Allocated :
        (c b : ℕ) (v v' : Volume D) (entry : ℕ → ℕ)
        → HasEntries dev fs v.disk entry
        → 2 ≤ c
        → c ≤ fs.cluster_count + 1
        → entry c ≡ 0
        → claim dev fs c v ≡ (ok b, v')
        → Allocated v v' entry b
    unfolding claim
    claim-Allocated c b v v' entry has lo hi z h =
        let (u, w, wrote, rest) =
          on_ok-inv (fat32_write_fat_entry dev fs c fat32_eoc v)
            (λ u v'.
              on_ok (fat32_zero_cluster dev fs c v')
                (λ u' v''. (ok c, record v'' { alloc_hint = add32 c 1 })))
            b v' h in
        let (u', w', zeroed, last) =
          on_ok-inv (fat32_zero_cluster dev fs c w)
            (λ u' v''. (ok c, record v'' { alloc_hint = add32 c 1 })) b v' rest in
        let same : c ≡ b = cc last in
        let end : record w' { alloc_hint = add32 c 1 } ≡ v' = cc last in
        let table =
          fat32_write_fat_entry-HasEntries dev fs disk lay c fat32_eoc v w entry has hi wrote in
        let (blank, others) = fat32_zero_cluster-lem dev fs disk lay c w w' lo hi zeroed in
        let (data_le, room) = lba-cluster dev fs disk lay c lo hi in
        let marked : HasEntries dev fs w'.disk (update entry c fat32_eoc) =
          HasEntries-below dev fs disk lay w.disk w'.disk (update entry c fat32_eoc) table
            (λ lba lt. others lba (inl (omega arith))) in
        let taken : Allocated v (record w' { alloc_hint = add32 c 1 }) entry c = record {
          first = lo;
          last = hi;
          free = z;
          table = marked;
          blank = blank;
          others = λ lba le out.
              others lba out
              ∙ (fat32_write_fat_entry-keeps dev fs disk lay c fat32_eoc lba v w hi le wrote).0;
          hint = omega (arith, lay.few);
        } in
        subst (λ (e : Volume D). Allocated v e entry b) end
          (subst (λ (x : ℕ). Allocated v (record w' { alloc_hint = add32 c 1 }) entry x) same taken)

    -- The two passes: a free cluster is taken, or there is none.
    Outcome : (ℕ → ℕ) → Volume D → Type 0
    Outcome entry v =
        ((b : ℕ) × (2 ≤ b)
          × (b ≤ fs.cluster_count + 1)
          × (entry b ≡ 0)
          × (fat32_alloc_cluster dev fs v ≡ claim dev fs b v))
        ⊎ (((e : ℕ) → 2 ≤ e → e ≤ fs.cluster_count + 1 → entry e ≢ 0)
            × (fat32_alloc_cluster dev fs v ≡ (err enospc, v)))

    second_pass-Outcome :
        (v : Volume D) (entry : ℕ → ℕ) (o : Option ℕ)
        → find_free dev fs (rounds fs 2) 2 v.disk ≡ ok o
        → Found entry 2 (2 + rounds fs 2) o
        → fat32_alloc_cluster dev fs v
          ≡ second_pass dev fs (find_free dev fs (rounds fs 2) 2 v.disk) v
        → Outcome entry v
    unfolding Outcome Found second_pass
    second_pass-Outcome v entry (some b) found (z, lo, hi) e =
        inl (b, lo, omega (arith, lay.few), z, e ∙ (rw (found, second_pass) refl))
    second_pass-Outcome v entry none found full e =
        inr (λ c lo hi. full c lo (omega (arith, lay.few)), e ∙ (rw (found, second_pass) refl))

    first_pass-Outcome :
        (v : Volume D) (entry : ℕ → ℕ) (o : Option ℕ)
        → HasEntries dev fs v.disk entry
        → find_free dev fs (rounds fs (first_cluster v)) (first_cluster v) v.disk ≡ ok o
        → Found entry (first_cluster v) (first_cluster v + rounds fs (first_cluster v)) o
        → Outcome entry v
    unfolding Outcome Found first_pass fat32_alloc_cluster
    first_pass-Outcome v entry (some b) has found (z, lo, hi) =
        let start : 2 ≤ first_cluster v = ground arith in
        inl (b, omega arith, omega (arith, lay.few), z, rw (found, first_pass) refl)
    first_pass-Outcome v entry none has found full =
        let (o, found', is) =
          find_free-Found (rounds fs 2) 2 v.disk entry has (omega (arith, lay.few)) in
        second_pass-Outcome v entry o found' is (rw (found, first_pass) refl)

    fat32_alloc_cluster-Outcome :
        (v : Volume D) (entry : ℕ → ℕ) → HasEntries dev fs v.disk entry → Outcome entry v
    fat32_alloc_cluster-Outcome v entry has =
        let (o, found, is) =
          find_free-Found (rounds fs (first_cluster v)) (first_cluster v) v.disk entry has
            (omega (arith, lay.few)) in
        first_pass-Outcome v entry o has found is

    -- On a sound volume, whose disk returns what was written and whose table can be read: a cluster
    -- that is returned is one of the volume's and was free; the table marks it as the end of a chain
    -- and has no other change, its sectors are zero, the other sectors of the data are as they were,
    -- and the hint is the cluster behind it.
    pub fat32_alloc_cluster-Allocated :
        (v v' : Volume D) (entry : ℕ → ℕ) (c : ℕ)
        → HasEntries dev fs v.disk entry
        → fat32_alloc_cluster dev fs v ≡ (ok c, v')
        → Allocated v v' entry c
    unfolding Outcome
    fat32_alloc_cluster-Allocated v v' entry c has h =
        elim (fat32_alloc_cluster-Outcome v entry has) [
          | inl (b, lo, hi, z, e) ↦ claim-Allocated b c v v' entry has lo hi z (sym e ∙ h)
          | inr (full, e) ↦ cc (e, h)
        ]

    -- On a sound volume, whose disk returns what was written and whose table can be read: ENOSPC is
    -- reported exactly when no cluster is free, wherever the hint points, and then the volume is as it
    -- was.
    pub fat32_alloc_cluster-enospc :
        (v : Volume D) (entry : ℕ → ℕ)
        → HasEntries dev fs v.disk entry
        → ((v' : Volume D)
            → fat32_alloc_cluster dev fs v ≡ (err enospc, v')
            → (e : ℕ) → 2 ≤ e
            → e ≤ fs.cluster_count + 1
            → entry e ≢ 0)
          × (((e : ℕ) → 2 ≤ e → e ≤ fs.cluster_count + 1 → entry e ≢ 0)
              → fat32_alloc_cluster dev fs v ≡ (err enospc, v))
    unfolding Outcome
    fat32_alloc_cluster-enospc v entry has = elim (fat32_alloc_cluster-Outcome v entry has) [
      | inl (b, lo, hi, z, e) ↦ (
        λ v' h. absurd (cc (claim-err dev fs b v v' enospc (sym e ∙ h))),
        λ full. absurd (full b lo hi z),
      )
      | inr (full, e) ↦ (λ v' h. full, λ full'. e)
    ]
