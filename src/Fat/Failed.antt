-- ===== src/Fat/Failed.antt =====
-- The table's operations fail with EIO only.
use os_agent_lab.Prelude.{
  ℕ, zero, suc, ◌+◌, ◌≡◌, refl, ◌⊎◌, inl, inr, Bool-cases, Option, none, some, ◌==◌, Result, ok,
  err, Errno, eio, add32, mul32,
}
use os_agent_lab.Phys.{Bytes}
use os_agent_lab.Disk.{BlockDevice}
use os_agent_lab.Fat.{
  Layout, Volume, on_ok, put_entry, stored, rewrite, write_copies, fat32_write_fat_entry,
  zero_sectors, fat32_zero_cluster, claim, fat32_eoc, fat32_cluster_to_lba, sector_idx, sector_off,
}

-- Where a run that failed did so.
pub on_ok-err :
    {A B S : Type 0} (r : Result A × S) (next : A → S → Result B × S) (e : Errno) (v' : S)
    → on_ok r next ≡ (err e, v')
    → (r ≡ (err e, v')) ⊎ ((a : A) × (w : S) × (r ≡ (ok a, w)) × (next a w ≡ (err e, v')))
unfolding on_ok
on_ok-err (ok a, w) next e v' h = inr (a, w, refl, h)
on_ok-err (err x, w) next e v' h = inl (cc h)

module _ {D : Type 0} (dev : BlockDevice D) (fs : Layout) where
  stored-err :
      (r : Option D) (v v' : Volume D) (e : Errno) → stored dev fs r v ≡ (err e, v') → e ≡ eio
  unfolding stored
  stored-err none v v' e h = cc h
  stored-err (some d) v v' e h = cc h

  rewrite-err :
      (change : Bytes → Bytes) (lba : ℕ) (r : Option Bytes) (v v' : Volume D) (e : Errno)
      → rewrite dev fs change lba r v ≡ (err e, v')
      → e ≡ eio
  unfolding rewrite
  rewrite-err change lba none v v' e h = cc h
  rewrite-err change lba (some s) v v' e h =
      stored-err (dev.blk_write lba (change s) v.disk) v v' e h

  write_copies-err :
      (left fat idx off value : ℕ) (v v' : Volume D) (e : Errno)
      → write_copies dev fs left fat idx off value v ≡ (err e, v')
      → e ≡ eio
  unfolding write_copies
  write_copies-err zero fat idx off value v v' e h = cc h
  write_copies-err (suc left) fat idx off value v v' e h =
      let at : ℕ = add32 (add32 fs.fat_lba (mul32 fat fs.sectors_per_fat)) idx in
      elim (on_ok-err (rewrite dev fs (λ s. put_entry s off value) at (dev.blk_read at v.disk) v)
        (λ u v'. write_copies dev fs left (fat + 1) idx off value v') e v' h) [
          | inl first ↦
              rewrite-err (λ s. put_entry s off value) at (dev.blk_read at v.disk) v v' e first
          | inr (u, w, first, rest) ↦ write_copies-err left (fat + 1) idx off value w v' e rest
        ]

  pub fat32_write_fat_entry-err :
      (c x : ℕ) (v v' : Volume D) (e : Errno)
      → fat32_write_fat_entry dev fs c x v ≡ (err e, v')
      → e ≡ eio
  unfolding fat32_write_fat_entry
  fat32_write_fat_entry-err c x v v' e h = elim (Bool-cases (fs.bytes_per_sector == 512)) [
    | inl t ↦
        write_copies-err fs.num_fats 0 (sector_idx fs c) (sector_off fs c) x v v' e (rw t at h)
    | inr t ↦ cc (rw t at h)
  ]

  zero_sectors-err :
      (left s lba : ℕ) (v v' : Volume D) (e : Errno)
      → zero_sectors dev fs left s lba v ≡ (err e, v')
      → e ≡ eio
  unfolding zero_sectors
  zero_sectors-err zero s lba v v' e h = cc h
  zero_sectors-err (suc left) s lba v v' e h =
      let write : Option D = dev.blk_write (add32 lba s) (λ i. 0) v.disk in
      elim (on_ok-err (stored dev fs write v) (λ u v'. zero_sectors dev fs left (s + 1) lba v') e v'
        h) [
          | inl first ↦ stored-err write v v' e first
          | inr (u, w, first, rest) ↦ zero_sectors-err left (s + 1) lba w v' e rest
        ]

  pub claim-err : (c : ℕ) (v v' : Volume D) (e : Errno) → claim dev fs c v ≡ (err e, v') → e ≡ eio
  unfolding claim fat32_zero_cluster
  claim-err c v v' e h =
      elim (on_ok-err (fat32_write_fat_entry dev fs c fat32_eoc v)
        (λ u v'.
          on_ok (fat32_zero_cluster dev fs c v')
            (λ u' v''. (ok c, record v'' { alloc_hint = add32 c 1 })))
        e v' h) [
          | inl first ↦ fat32_write_fat_entry-err c fat32_eoc v v' e first
          | inr (u, w, first, rest) ↦
              elim (on_ok-err (fat32_zero_cluster dev fs c w)
                (λ u' v''. (ok c, record v'' { alloc_hint = add32 c 1 })) e v' rest) [
                  | inl second ↦
                      zero_sectors-err fs.sectors_per_cluster 0 (fat32_cluster_to_lba fs c) w v' e
                        second
                  | inr (u', w', second, last) ↦ cc last
                ]
        ]
