-- ===== src/Fat/Entries.antt =====
-- The file allocation table as a function from clusters to their entries, and what a write to one
-- entry, in all copies of the table, makes of it.
use os_agent_lab.Prelude.{
  ℕ, zero, suc, ◌+◌, ◌*◌, ◌/◌, ◌%◌, ◌≤◌, ◌<◌, ◌≡◌, ◌≢◌, refl, sym, ap, subst, ◌∙◌, ◌⊎◌, inl, inr,
  true, false, Option, none, some, ◌==◌, ltb, add32, mul32, u32_mod, update, arith, Result, ok, err,
  ℕ_discrete, update_self, update_ne,
}
use os_agent_lab.Phys.{Bytes}
use os_agent_lab.Disk.{BlockDevice, IsDisk}
use os_agent_lab.Fat.{
  Layout, Volume, le32, put_entry, on_ok, entry_in, stored, rewrite, write_copies, sector_idx,
  sector_off, fat32_read_fat_entry, fat32_write_fat_entry,
}

-- A sound volume: sectors of 512 bytes, at least one table, which has an entry for each cluster, the
-- tables before the data, and no sector number past 2^32.
pub record IsLayout (fs : Layout) : Type 0 where
  pub sectors : fs.bytes_per_sector ≡ 512
  pub copies : 0 < fs.num_fats
  pub room : (fs.cluster_count + 2) * 4 ≤ fs.sectors_per_fat * 512
  pub few : fs.cluster_count + 2 < 0x0ffffff8
  pub tables : fs.fat_lba + fs.num_fats * fs.sectors_per_fat ≤ fs.data_lba
  pub in_range : fs.data_lba + fs.cluster_count * fs.sectors_per_cluster < u32_mod

-- Byte by byte, what the four stores leave.
le32-put_entry_self :
    (s : Bytes) (off value : ℕ) → le32 (put_entry s off value) off ≡ value % 0x10000000
unfolding le32 put_entry
le32-put_entry_self s off value = ground arith

le32-put_entry_apart :
    (s : Bytes) (off other value : ℕ)
    → (other + 4 ≤ off) ⊎ (off + 4 ≤ other)
    → le32 (put_entry s off value) other ≡ le32 s other
unfolding le32 put_entry
le32-put_entry_apart s off other value h = ground arith

le32-congr :
    (s t : Bytes) (off : ℕ)
    → off + 4 ≤ 512
    → ((i : ℕ) → i < 512 → s i ≡ t i)
    → le32 s off ≡ le32 t off
unfolding le32
le32-congr s t off h e = omega (
  arith,
  e off (omega arith),
  e (off + 1) (omega arith),
  e (off + 2) (omega arith),
  e (off + 3) (omega arith),
)

-- What a run that went well consists of.
pub on_ok-inv :
    {A B S : Type 0} (r : Result A × S) (next : A → S → Result B × S) (b : B) (v' : S)
    → on_ok r next ≡ (ok b, v')
    → (a : A) × (w : S) × (r ≡ (ok a, w)) × (next a w ≡ (ok b, v'))
unfolding on_ok
on_ok-inv (ok a, w) next b v' h = (a, w, refl, h)
on_ok-inv (err e, w) next b v' h = absurd (cc (ap (λ (x : Result _ × _). x.0) h))

pub le_mul : (f k n : ℕ) → f < n → (1 ≤ f → k ≤ f * k) × (f * k + k ≤ n * k)
le_mul f k n lt = (λ pos. grind arith, grind arith)

module _ {D : Type 0} (dev : BlockDevice D) (fs : Layout) where
  -- The table on the disk `d`.
  pub record HasEntries (d : D) (entry : ℕ → ℕ) : Type 0 where
    pub reads : (c : ℕ) → c ≤ fs.cluster_count + 1 → fat32_read_fat_entry dev fs c d ≡ ok (entry c)

  pub stored-inv :
      (r : Option D) (v v' : Volume D)
      → stored dev fs r v ≡ (ok tt, v')
      → (d : D) × (r ≡ some d) × (v' ≡ record v { disk = d })
  unfolding stored
  stored-inv none v v' h = cc
  stored-inv (some d) v v' h = (d, refl, sym (ap (λ (x : Result (Unit {0}) × Volume D). x.1) h))

  rewrite-inv :
      (change : Bytes → Bytes) (lba : ℕ) (r : Option Bytes) (v v' : Volume D)
      → rewrite dev fs change lba r v ≡ (ok tt, v')
      → (s : Bytes) × (d : D) × (r ≡ some s)
        × (dev.blk_write lba (change s) v.disk ≡ some d)
        × (v' ≡ record v { disk = d })
  unfolding rewrite
  rewrite-inv change lba none v v' h = cc
  rewrite-inv change lba (some s) v v' h =
      let (d, w, e) = stored-inv (dev.blk_write lba (change s) v.disk) v v' h in (s, d, refl, w, e)

  module _ (disk : IsDisk dev) (lay : IsLayout fs) where
    pub idx-eq : (c : ℕ) → c ≤ fs.cluster_count + 1 → sector_idx fs c ≡ c * 4 / 512
    idx-eq c h = rw (lay.sectors) (omega (arith, lay.few))

    off-eq : (c : ℕ) → c ≤ fs.cluster_count + 1 → sector_off fs c ≡ c * 4 % 512
    off-eq c h = rw (lay.sectors) (omega (arith, lay.few))

    -- The copies after the first leave the first one, and the data, as they are.
    write_copies-keeps :
        (left fat idx off value lba : ℕ) (v v' : Volume D)
        → idx < fs.sectors_per_fat
        → fat + left ≤ fs.num_fats
        → write_copies dev fs left fat idx off value v ≡ (ok tt, v')
        → ((1 ≤ fat) × (lba < fs.fat_lba + fs.sectors_per_fat)) ⊎ (fs.data_lba ≤ lba)
        → (dev.blk_read lba v'.disk ≡ dev.blk_read lba v.disk) × (v'.alloc_hint ≡ v.alloc_hint)
    unfolding write_copies
    write_copies-keeps zero fat idx off value lba v v' i le h low =
        let same : v ≡ v' = ap (λ (x : Result (Unit {0}) × Volume D). x.1) h in
        (
          ap (λ (x : Volume D). dev.blk_read lba x.disk) (sym same),
          ap (λ (x : Volume D). x.alloc_hint) (sym same),
        )
    write_copies-keeps (suc left) fat idx off value lba v v' i le h low =
        let at : ℕ = add32 (add32 fs.fat_lba (mul32 fat fs.sectors_per_fat)) idx in
        let (u, w, first, rest) =
          on_ok-inv (rewrite dev fs (λ s. put_entry s off value) at (dev.blk_read at v.disk) v)
            (λ u v'. write_copies dev fs left (fat + 1) idx off value v') tt v' h in
        let (s, d, r, stored_d, e) =
          rewrite-inv (λ s. put_entry s off value) at (dev.blk_read at v.disk) v w first in
        let bounds = le_mul fat fs.sectors_per_fat fs.num_fats (omega arith) in
        let apart : lba ≢ at = ground (arith, bounds, lay.tables, lay.in_range) in
        let later : (dev.blk_read lba v'.disk ≡ dev.blk_read lba w.disk)
            × (v'.alloc_hint ≡ w.alloc_hint) =
          write_copies-keeps left (fat + 1) idx off value lba w v' i (omega arith) rest
            (ground arith) in
        (
          later.0
              ∙ ap (λ (x : Volume D). dev.blk_read lba x.disk) e
              ∙ disk.reads_others at lba (put_entry s off value) v.disk d stored_d apart,
          later.1 ∙ ap (λ (x : Volume D). x.alloc_hint) e,
        )

    -- The entry at `oe` in a sector `t` that has the sector `s`, written at `oc`.
    entry_in-put_entry :
        (s t : Bytes) (oc oe x n : ℕ)
        → oc + 4 ≤ 512
        → oe + 4 ≤ 512
        → entry_in dev fs oe (some s) ≡ ok n
        → ((i : ℕ) → i < 512 → t i ≡ put_entry s oc x i)
        → ((oe ≡ oc) → entry_in dev fs oe (some t) ≡ ok (x % 0x10000000))
          × ((oe + 4 ≤ oc) ⊎ (oc + 4 ≤ oe) → entry_in dev fs oe (some t) ≡ ok n)
    unfolding entry_in
    entry_in-put_entry s t oc oe x n cb eb old new =
        let fits : ltb 512 (add32 oe 4) ≡ false = ground arith in
        let copied = le32-congr t (put_entry s oc x) oe eb new in
        (
          λ same.
              let self : le32 (put_entry s oc x) oe ≡ x % 0x10000000 =
                subst (λ o. le32 (put_entry s oc x) o ≡ x % 0x10000000) (sym same)
                  (le32-put_entry_self s oc x) in
              rw fits (ap ok (omega (arith, copied, self))),
          λ apart.
              let kept = le32-put_entry_apart s oc oe x apart in
              rw fits (ap (λ (w : ℕ). ok (w % 0x10000000)) (copied ∙ kept) ∙ (rw fits at old)),
        )

    -- The entry of `e` in the sector that the first copy's write leaves.
    read-put :
        (s t : Bytes) (c e x : ℕ) (entry : ℕ → ℕ)
        → c ≤ fs.cluster_count + 1
        → e ≤ fs.cluster_count + 1
        → sector_idx fs e ≡ sector_idx fs c
        → entry_in dev fs (sector_off fs e) (some s) ≡ ok (entry e)
        → ((i : ℕ) → i < 512 → t i ≡ put_entry s (sector_off fs c) x i)
        → entry_in dev fs (sector_off fs e) (some t) ≡ ok (update entry c (x % 0x10000000) e)
    read-put s t c e x entry lc le same old new =
        let oc = off-eq c lc in
        let oe = off-eq e le in
        let ic = idx-eq c lc in
        let ie = idx-eq e le in
        let (self, kept) =
          entry_in-put_entry s t (sector_off fs c) (sector_off fs e) x (entry e) (omega (arith, oc))
            (omega (arith, oe)) old new in
        elim (ℕ_discrete e c) [
          | yes p ↦
              self (ap (sector_off fs) p)
              ∙ ap ok (
                  sym (
                    subst (λ j. update entry c (x % 0x10000000) j ≡ x % 0x10000000) (sym p)
                      (update_self entry c (x % 0x10000000))))
          | no p ↦
              kept (omega (arith, p, oc, oe, ic, ie, same))
              ∙ ap ok (sym (update_ne entry c (x % 0x10000000) e p))
        ]

    -- After the write to the first copy.
    first_copy :
        (s : Bytes) (d : D) (c e x : ℕ) (v : Volume D) (entry : ℕ → ℕ)
        → c ≤ fs.cluster_count + 1
        → e ≤ fs.cluster_count + 1
        → (lba at : ℕ) → lba ≡ fs.fat_lba + sector_idx fs e
        → at ≡ fs.fat_lba + sector_idx fs c
        → entry_in dev fs (sector_off fs e) (dev.blk_read lba v.disk) ≡ ok (entry e)
        → dev.blk_read at v.disk ≡ some s
        → dev.blk_write at (put_entry s (sector_off fs c) x) v.disk ≡ some d
        → entry_in dev fs (sector_off fs e) (dev.blk_read lba d)
          ≡ ok (update entry c (x % 0x10000000) e)
    first_copy s d c e x v entry lc le lba at lba_eq at_eq old r w = elim (ℕ_discrete lba at) [
      | yes p ↦
          let (t, back, new) = disk.reads_back at (put_entry s (sector_off fs c) x) v.disk d w in
          let found : dev.blk_read lba v.disk ≡ some s =
            ap (λ (l : ℕ). dev.blk_read l v.disk) p ∙ r in
          let found' : dev.blk_read lba d ≡ some t = ap (λ (l : ℕ). dev.blk_read l d) p ∙ back in
          let was = subst (λ o. entry_in dev fs (sector_off fs e) o ≡ ok (entry e)) found old in
          subst (λ o. entry_in dev fs (sector_off fs e) o ≡ ok (update entry c (x % 0x10000000) e))
            (sym found') (read-put s t c e x entry lc le (omega (arith, p, lba_eq, at_eq)) was new)
      | no p ↦
          let apart : e ≢ c =
            λ same. p (lba_eq ∙ ap (λ (z : ℕ). fs.fat_lba + sector_idx fs z) same ∙ sym at_eq) in
          subst (λ o. entry_in dev fs (sector_off fs e) o ≡ ok (update entry c (x % 0x10000000) e))
            (sym (disk.reads_others at lba (put_entry s (sector_off fs c) x) v.disk d w p))
            (old ∙ ap ok (sym (update_ne entry c (x % 0x10000000) e apart)))
    ]

    -- A write to all copies of the table, entry by entry.
    write_copies-reads :
        (n c x e : ℕ) (v v' : Volume D) (entry : ℕ → ℕ)
        → n ≡ fs.num_fats
        → c ≤ fs.cluster_count + 1
        → e ≤ fs.cluster_count + 1
        → entry_in dev fs
            (sector_off fs e)
            (dev.blk_read (add32 fs.fat_lba (sector_idx fs e)) v.disk)
          ≡ ok (entry e)
        → write_copies dev fs n 0 (sector_idx fs c) (sector_off fs c) x v ≡ (ok tt, v')
        → entry_in dev fs
            (sector_off fs e)
            (dev.blk_read (add32 fs.fat_lba (sector_idx fs e)) v'.disk)
          ≡ ok (update entry c (x % 0x10000000) e)
    unfolding write_copies
    write_copies-reads zero c x e v v' entry n lc le old h = absurd (omega (arith, lay.copies))
    write_copies-reads (suc left) c x e v v' entry n lc le old h =
        let ic = idx-eq c lc in
        let ie = idx-eq e le in
        let lba : ℕ = add32 fs.fat_lba (sector_idx fs e) in
        let off : ℕ = sector_off fs c in
        let at : ℕ = add32 (add32 fs.fat_lba (mul32 0 fs.sectors_per_fat)) (sector_idx fs c) in
        let (u, w, first, rest) =
          on_ok-inv (rewrite dev fs (λ s. put_entry s off x) at (dev.blk_read at v.disk) v)
            (λ u v'. write_copies dev fs left 1 (sector_idx fs c) off x v') tt v' h in
        let (s, d, r, stored_d, same) =
          rewrite-inv (λ s. put_entry s off x) at (dev.blk_read at v.disk) v w first in
        let bounds = le_mul 0 fs.sectors_per_fat fs.num_fats (omega arith) in
        let few : fs.cluster_count + 2 < 0x0ffffff8 = lay.few in
        let lower : fs.fat_lba + fs.sectors_per_fat ≤ fs.data_lba =
          omega (arith, bounds, lay.tables) in
        let at_eq : at ≡ fs.fat_lba + sector_idx fs c =
          omega (arith, ic, lay.room, lay.in_range, lower) in
        let lba_eq : lba ≡ fs.fat_lba + sector_idx fs e =
          omega (arith, ie, lay.room, lay.in_range, lower) in
        let (kept, hint) =
          write_copies-keeps left 1 (sector_idx fs c) off x lba w v' (omega (arith, ic, lay.room))
            (omega arith) rest (inl (omega arith, omega (arith, ie, lba_eq, lay.room))) in
        let disks : dev.blk_read lba v'.disk ≡ dev.blk_read lba d =
          kept ∙ ap (λ (z : Volume D). dev.blk_read lba z.disk) same in
        subst (λ o. entry_in dev fs (sector_off fs e) o ≡ ok (update entry c (x % 0x10000000) e))
          (sym disks) (first_copy s d c e x v entry lc le lba at lba_eq at_eq old r stored_d)

    -- A write to one entry that goes well: the table has the new value there, cut to 28 bits, and its
    -- other entries are as they were.
    pub fat32_write_fat_entry-HasEntries :
        (c x : ℕ) (v v' : Volume D) (entry : ℕ → ℕ)
        → HasEntries v.disk entry
        → c ≤ fs.cluster_count + 1
        → fat32_write_fat_entry dev fs c x v ≡ (ok tt, v')
        → HasEntries v'.disk (update entry c (x % 0x10000000))
    unfolding fat32_write_fat_entry fat32_read_fat_entry
    fat32_write_fat_entry-HasEntries c x v v' entry has lc h =
        let test : (fs.bytes_per_sector == 512) ≡ true = ground (arith, lay.sectors) in
        record {
          reads = λ e le. rw test (
              write_copies-reads fs.num_fats c x e v v' entry refl lc le
                (rw test at (has.reads e le)) (rw test at h));
        }

    -- It changes no sector of the data, and not the hint.
    pub fat32_write_fat_entry-keeps :
        (c x lba : ℕ) (v v' : Volume D)
        → c ≤ fs.cluster_count + 1
        → fs.data_lba ≤ lba
        → fat32_write_fat_entry dev fs c x v ≡ (ok tt, v')
        → (dev.blk_read lba v'.disk ≡ dev.blk_read lba v.disk) × (v'.alloc_hint ≡ v.alloc_hint)
    unfolding fat32_write_fat_entry
    fat32_write_fat_entry-keeps c x lba v v' lc data_le h =
        let test : (fs.bytes_per_sector == 512) ≡ true = ground (arith, lay.sectors) in
        write_copies-keeps fs.num_fats 0 (sector_idx fs c) (sector_off fs c) x lba v v'
          (omega (arith, idx-eq c lc, lay.room)) (omega arith) (rw test at h) (inr data_le)
