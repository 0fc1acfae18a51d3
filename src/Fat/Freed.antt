-- ===== src/Fat/Freed.antt =====
-- What `fat32_free_chain` leaves when it succeeds.
use os_agent_lab.Prelude.{
  ℕ, zero, suc, ◌+◌, ◌≤◌, ◌≡◌, refl, sym, ap, subst, ◌∙◌, true, false, List, [], ◌∷◌, none, some,
  update, arith, Result, ok, err,
}
use os_agent_lab.Disk.{BlockDevice, IsDisk}
use os_agent_lab.Fat.{
  Layout, Volume, fat32_read_fat_entry, fat32_write_fat_entry, is_linked, free_loop,
  fat32_free_chain,
}
use os_agent_lab.Fat.Entries.{
  IsLayout, HasEntries, fat32_write_fat_entry-HasEntries, fat32_write_fat_entry-keeps,
}
use os_agent_lab.Fat.Chains.{Chain, cleared, Chain-elem, Chain-update}
use os_agent_lab.Fat.FreeLoop.{free_loop-stop, free_loop-next, free_loop-fails, linked}

module _ {D : Type 0} (dev : BlockDevice D) (fs : Layout) where
  -- What the two runs have in common: the sectors from the data on, and the hint.
  pub record SameData (v v' : Volume D) : Type 0 where
    pub sector : (lba : ℕ) → fs.data_lba ≤ lba → dev.blk_read lba v'.disk ≡ dev.blk_read lba v.disk
    pub hint : v'.alloc_hint ≡ v.alloc_hint

  free_loop-zero : (c : ℕ) (v : Volume D) → free_loop dev fs zero c v ≡ none
  unfolding free_loop
  free_loop-zero c v = refl

  -- A round that was followed by success.
  free_loop-inv :
      (fuel c n : ℕ) (v v' : Volume D) (q : Result (Unit {0}) × Volume D)
      → is_linked fs c ≡ true
      → fat32_read_fat_entry dev fs c v.disk ≡ ok n
      → fat32_write_fat_entry dev fs c 0 v ≡ q
      → free_loop dev fs (suc fuel) c v ≡ some (ok tt, v')
      → (w : Volume D) × (fat32_write_fat_entry dev fs c 0 v ≡ (ok tt, w))
        × (free_loop dev fs fuel n w ≡ some (ok tt, v'))
  free_loop-inv fuel c n v v' (ok u, w) l r e h =
      (w, e, sym (free_loop-next dev fs fuel c n v w l r e) ∙ h)
  free_loop-inv fuel c n v v' (err x, w) l r e h =
      absurd (cc (free_loop-fails dev fs fuel c n v w x l r e, h))

  module _ (disk : IsDisk dev) (lay : IsLayout fs) where
    free_loop-cleared :
        (fuel c : ℕ) (cs : List ℕ) (v v' : Volume D) (entry : ℕ → ℕ)
        → HasEntries dev fs v.disk entry
        → Chain fs entry c cs
        → free_loop dev fs fuel c v ≡ some (ok tt, v')
        → HasEntries dev fs v'.disk (cleared cs entry) × SameData v v'
    free_loop-cleared zero c cs v v' entry has ch h = cc (free_loop-zero c v, h)
    free_loop-cleared (suc fuel) c [] v v' entry has (Chain.stop c' s) h =
        let out : is_linked fs c ≡ false = ground (arith, s) in
        let same : v ≡ v' = cc (free_loop-stop dev fs fuel c v out, h) in
        subst (λ (z : Volume D). HasEntries dev fs z.disk entry × SameData v z) same
          (has, record { sector = λ lba le. refl; hint = refl })
    free_loop-cleared (suc fuel) c (x ∷ xs) v v' entry has (Chain.cell c' cs lo hi r) h =
        let (w, first, rest) =
          free_loop-inv fuel c (entry c) v v' (fat32_write_fat_entry dev fs c 0 v)
            (linked dev fs disk lay c lo hi) (has.reads c hi) refl h in
        let fresh = Chain-elem fs lay entry c xs lo hi r in
        let (after, same) =
          free_loop-cleared fuel (entry c) xs w v' (update entry c 0)
            (fat32_write_fat_entry-HasEntries dev fs disk lay c 0 v w entry has hi first)
            (Chain-update fs lay entry (entry c) c 0 xs r fresh) rest in
        (
          record { reads = λ e le. after.reads e le ∙ ap ok (ground arith) },
          record {
            sector = λ lba le.
                same.sector lba le
                ∙ (fat32_write_fat_entry-keeps dev fs disk lay c 0 lba v w hi le first).0;
            hint =
                same.hint
                ∙ (fat32_write_fat_entry-keeps dev fs disk lay c 0 fs.data_lba v w hi (omega arith)
                    first).1;
          },
        )

    -- On a sound volume, whose disk returns what was written: when `fat32_free_chain` succeeds on a
    -- chain, the entries of its clusters are zero, and all other entries, the sectors of the data and
    -- the hint are as they were.
    pub fat32_free_chain-cleared :
        (c : ℕ) (cs : List ℕ) (v v' : Volume D) (entry : ℕ → ℕ)
        → HasEntries dev fs v.disk entry
        → Chain fs entry c cs
        → fat32_free_chain dev fs c v ≡ some (ok tt, v')
        → HasEntries dev fs v'.disk (cleared cs entry) × SameData v v'
    unfolding fat32_free_chain
    fat32_free_chain-cleared c cs v v' entry has ch h =
        free_loop-cleared (fs.cluster_count + 2) c cs v v' entry has ch h
