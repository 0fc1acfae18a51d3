-- ===== src/Fat/FreeLoop.antt =====
-- `fat32_free_chain` returns on every table: it stops or clears an entry that was not zero.
use os_agent_lab.Prelude.{
  ℕ, zero, suc, ◌+◌, ◌≤◌, ◌<◌, ◌≡◌, ◌≢◌, refl, ap, ◌∙◌, inl, inr, true, false, some, ◌==◌,
  if◌then◌else◌, update, arith, Result, ok, err, Errno, Bool-cases, ℕ_discrete,
}
use os_agent_lab.Disk.{BlockDevice, IsDisk}
use os_agent_lab.Fat.{
  Layout, Volume, on_ok, fat32_read_fat_entry, fat32_write_fat_entry, is_linked, release, resume,
  free_loop, fat32_free_chain,
}
use os_agent_lab.Fat.Entries.{IsLayout, HasEntries, fat32_write_fat_entry-HasEntries}

-- The number of the first `n` clusters whose entry is not zero.
used : ℕ → (ℕ → ℕ) → ℕ
used zero entry = 0
used (suc n) entry = (if entry (n + 2) == 0 then 0 else 1) + used n entry

used-le : (n : ℕ) (entry : ℕ → ℕ) → used n entry ≤ n
unfolding used
used-le zero entry = omega arith
used-le (suc n) entry = ground (arith, used-le n entry)

used-update_above : (n c : ℕ) (entry : ℕ → ℕ) → n + 2 ≤ c → used n (update entry c 0) ≡ used n entry
unfolding used
used-update_above zero c entry h = refl
used-update_above (suc n) c entry h =
    let ih = used-update_above n c entry (omega arith) in ground (arith, ih)

used-update :
    (n c : ℕ) (entry : ℕ → ℕ)
    → 2 ≤ c
    → c < n + 2
    → entry c ≢ 0
    → used n (update entry c 0) + 1 ≡ used n entry
unfolding used
used-update zero c entry lo hi h = absurd (omega arith)
used-update (suc n) c entry lo hi h = elim (ℕ_discrete c (n + 2)) [
  | yes p ↦
      let above = used-update_above n c entry (omega (arith, p)) in
      let nz : entry (n + 2) ≢ 0 = λ z. h (ap entry p ∙ z) in ground (arith, above, nz, p)
  | no p ↦ let ih = used-update n c entry lo (omega (arith, p)) h in ground (arith, ih, p)
]

module _ {D : Type 0} (dev : BlockDevice D) (fs : Layout) where
  -- The rounds of the loop.
  pub free_loop-stop :
      (fuel c : ℕ) (v : Volume D)
      → is_linked fs c ≡ false
      → free_loop dev fs (suc fuel) c v ≡ some (ok tt, v)
  unfolding free_loop
  free_loop-stop fuel c v h = rw h refl

  pub free_loop-next :
      (fuel c n : ℕ) (v w : Volume D)
      → is_linked fs c ≡ true
      → fat32_read_fat_entry dev fs c v.disk ≡ ok n
      → fat32_write_fat_entry dev fs c 0 v ≡ (ok tt, w)
      → free_loop dev fs (suc fuel) c v ≡ free_loop dev fs fuel n w
  unfolding free_loop release resume on_ok
  free_loop-next fuel c n v w h r s = rw (h, r, s) refl

  pub free_loop-fails :
      (fuel c n : ℕ) (v w : Volume D) (e : Errno)
      → is_linked fs c ≡ true
      → fat32_read_fat_entry dev fs c v.disk ≡ ok n
      → fat32_write_fat_entry dev fs c 0 v ≡ (err e, w)
      → free_loop dev fs (suc fuel) c v ≡ some (err e, w)
  unfolding free_loop release resume on_ok
  free_loop-fails fuel c n v w e h r s = rw (h, r, s) refl

  module _ (disk : IsDisk dev) (lay : IsLayout fs) where
    pub linked : (c : ℕ) → 2 ≤ c → c ≤ fs.cluster_count + 1 → is_linked fs c ≡ true
    linked c lo hi = ground (arith, lay.few)

    linked-range : (c : ℕ) → is_linked fs c ≡ true → (2 ≤ c) × (c ≤ fs.cluster_count + 1)
    linked-range c h = ground (arith, lay.few, h)

    free_loop-total_linked :
        (fuel c : ℕ) (v : Volume D) (entry : ℕ → ℕ)
        → HasEntries dev fs v.disk entry
        → used fs.cluster_count entry + 2 ≤ suc fuel
        → is_linked fs c ≡ true
        → 2 ≤ c
        → c ≤ fs.cluster_count + 1
        → (q : Result (Unit {0}) × Volume D) → fat32_write_fat_entry dev fs c 0 v ≡ q
        → ((w : Volume D)
            → HasEntries dev fs w.disk (update entry c 0)
            → used fs.cluster_count (update entry c 0) + 2 ≤ fuel
            → (r : Result (Unit {0})) × (v' : Volume D) × (free_loop dev fs fuel (entry c) w
                ≡ some (r, v')))
        → (r : Result (Unit {0})) × (v' : Volume D) × (free_loop dev fs (suc fuel) c v
            ≡ some (r, v'))
    free_loop-total_linked fuel c v entry has h inside lo hi (err e, w) eq ih =
        (err e, w, free_loop-fails fuel c (entry c) v w e inside (has.reads c hi) eq)
    free_loop-total_linked zero c v entry has h inside lo hi (ok u, w) eq ih = absurd (omega arith)
    free_loop-total_linked (suc fuel) c v entry has h inside lo hi (ok u, w) eq ih =
        let step = free_loop-next (suc fuel) c (entry c) v w inside (has.reads c hi) eq in
        elim (ℕ_discrete (entry c) 0) [
          | yes z ↦ (
            ok tt,
            w,
            step ∙ ap (λ (n : ℕ). free_loop dev fs (suc fuel) n w) z ∙ free_loop-stop fuel 0 w refl,
          )
          | no nz ↦
              let less = used-update fs.cluster_count c entry lo (omega arith) nz in
              let (r, v', e) =
                ih w (fat32_write_fat_entry-HasEntries dev fs disk lay c 0 v w entry has hi eq)
                  (omega (arith, less)) in
              (r, v', step ∙ e)
        ]

    free_loop-total :
        (fuel c : ℕ) (v : Volume D) (entry : ℕ → ℕ)
        → HasEntries dev fs v.disk entry
        → used fs.cluster_count entry + 2 ≤ fuel
        → (r : Result (Unit {0})) × (v' : Volume D) × (free_loop dev fs fuel c v ≡ some (r, v'))
    free_loop-total zero c v entry has h = absurd (omega arith)
    free_loop-total (suc fuel) c v entry has h = elim (Bool-cases (is_linked fs c)) [
      | inr out ↦ (ok tt, v, free_loop-stop fuel c v out)
      | inl inside ↦
          let (lo, hi) = linked-range c inside in
          free_loop-total_linked fuel c v entry has h inside lo hi
            (fat32_write_fat_entry dev fs c 0 v) refl
            (λ w has' le. free_loop-total fuel (entry c) w (update entry c 0) has' le)
    ]

    -- On a sound volume, whose disk returns what was written and whose table can be read,
    -- `fat32_free_chain` returns from every cluster, on chains that are cyclic too.
    pub fat32_free_chain-returns :
        (c : ℕ) (v : Volume D) (entry : ℕ → ℕ)
        → HasEntries dev fs v.disk entry
        → (r : Result (Unit {0})) × (v' : Volume D) × (fat32_free_chain dev fs c v ≡ some (r, v'))
    unfolding fat32_free_chain
    fat32_free_chain-returns c v entry has =
        free_loop-total (fs.cluster_count + 2) c v entry has
          (omega (arith, used-le fs.cluster_count entry))
