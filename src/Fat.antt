-- ===== src/Fat.antt =====
-- FAT32, GPT-5.2-Codex/code/kernel/fat32.c: the file allocation table and the chains of clusters in
-- it. All quantities are uint32_t.
pub mod Entries
pub mod Chains
pub mod FreeLoop
pub mod Freed
pub mod Failed
pub mod Zeroed
pub mod Alloc
pub mod Ensure
pub mod Mount
pub mod Files
pub mod Modify
use os_agent_lab.Prelude.{
  ℕ, zero, suc, ◌+◌, ◌-◌, ◌*◌, ◌/◌, ◌%◌, Bool, true, false, ◌&&◌, ◌||◌, Option, none, some, ◌==◌,
  ltb, leb, if◌then◌else◌, add32, sub32, mul32, update, Result, ok, err, Errno, eio, enoent, enospc,
}
use os_agent_lab.Phys.{Bytes}
use os_agent_lab.Disk.{BlockDevice}

-- The fields of struct fat32_fs that the table needs, but for its allocation hint.
pub record Layout : Type 0 where
  pub fat_lba : ℕ
  pub data_lba : ℕ
  pub sectors_per_fat : ℕ
  pub num_fats : ℕ
  pub cluster_count : ℕ
  pub sectors_per_cluster : ℕ
  pub bytes_per_sector : ℕ

-- The disk, and `alloc_hint`.
pub record Volume (D : Type 0) : Type 0 where
  pub disk : D
  pub alloc_hint : ℕ

-- FAT32_EOC
abbrev pub fat32_eoc : ℕ
fat32_eoc = 0x0ffffff8

-- le32, from byte `off` of a sector on
unfoldable pub le32 : Bytes → ℕ → ℕ
le32 s off = s off + 256 * s (off + 1) + 65536 * s (off + 2) + 16777216 * s (off + 3)

-- The four bytes that `fat32_write_fat_entry` stores: the top four bits are dropped.
unfoldable pub put_entry : Bytes → ℕ → ℕ → Bytes
put_entry s off value =
    update
      (update (update (update s off (value % 256)) (off + 1) (value / 256 % 256)) (off + 2)
        (value / 65536 % 256))
      (off + 3) (value / 16777216 % 16)

unfoldable pub fat32_cluster_to_lba : Layout → ℕ → ℕ
fat32_cluster_to_lba fs cluster = add32 fs.data_lba (mul32 (sub32 cluster 2) fs.sectors_per_cluster)

-- sector_idx and sector_off
abbrev pub sector_idx : Layout → ℕ → ℕ
sector_idx fs cluster = mul32 cluster 4 / fs.bytes_per_sector

abbrev pub sector_off : Layout → ℕ → ℕ
sector_off fs cluster = mul32 cluster 4 % fs.bytes_per_sector

-- A run that stops at the first error.
unfoldable pub on_ok : {A B S : Type 0} → Result A × S → (A → S → Result B × S) → Result B × S
on_ok (ok a, v) next = next a v
on_ok (err e, v) next = (err e, v)

-- Whether the loop of `fat32_free_chain` goes on at this cluster.
abbrev pub is_linked : Layout → ℕ → Bool
is_linked fs cluster =
    leb 2 cluster && (leb cluster (add32 fs.cluster_count 1) && ltb cluster fat32_eoc)

-- Whether a number is a cluster to go on from, in `fat32_get_cluster_at`.
abbrev pub is_cluster : ℕ → Bool
is_cluster cluster = leb 2 cluster && ltb cluster fat32_eoc

-- The number of rounds from `start` to `max_cluster`.
abbrev pub rounds : Layout → ℕ → ℕ
rounds fs start = add32 fs.cluster_count 1 + 1 - start

-- Where the search of `fat32_alloc_cluster` starts: the hint, but not below cluster 2.
abbrev pub first_cluster : {D : Type 0} → Volume D → ℕ
first_cluster v = if ltb v.alloc_hint 2 then 2 else v.alloc_hint

module _ {D : Type 0} (dev : BlockDevice D) (fs : Layout) where
  -- What `fat32_read_fat_entry` makes of the sector: 28 bits.
  unfoldable pub entry_in : ℕ → Option Bytes → Result ℕ
  unfolding le32
  entry_in off none = err eio
  entry_in off (some s) = if ltb 512 (add32 off 4) then err eio else ok (le32 s off % 0x10000000)

  unfoldable pub fat32_read_fat_entry : ℕ → D → Result ℕ
  unfolding entry_in
  fat32_read_fat_entry cluster d =
      if fs.bytes_per_sector == 512
      then entry_in (sector_off fs cluster)
          (dev.blk_read (add32 fs.fat_lba (sector_idx fs cluster)) d)
      else err eio

  -- blk_write, as a step on the volume
  unfoldable pub stored : Option D → Volume D → Result (Unit {0}) × Volume D
  stored none v = (err eio, v)
  stored (some d) v = (ok tt, record v { disk = d })

  -- A sector read, changed and written back.
  unfoldable pub rewrite :
      (Bytes → Bytes) → ℕ → Option Bytes → Volume D → Result (Unit {0}) × Volume D
  unfolding stored
  rewrite change lba none v = (err eio, v)
  rewrite change lba (some s) v = stored (dev.blk_write lba (change s) v.disk) v

  -- The loop of `fat32_write_fat_entry` over the copies of the table, from copy `fat` on.
  unfoldable pub write_copies : ℕ → ℕ → ℕ → ℕ → ℕ → Volume D → Result (Unit {0}) × Volume D
  unfolding rewrite put_entry on_ok
  write_copies zero fat idx off value v = (ok tt, v)
  write_copies (suc left) fat idx off value v =
      let lba = add32 (add32 fs.fat_lba (mul32 fat fs.sectors_per_fat)) idx in
      on_ok (rewrite (λ s. put_entry s off value) lba (dev.blk_read lba v.disk) v)
        (λ u v'. write_copies left (fat + 1) idx off value v')

  unfoldable pub fat32_write_fat_entry : ℕ → ℕ → Volume D → Result (Unit {0}) × Volume D
  unfolding write_copies
  fat32_write_fat_entry cluster value v =
      if fs.bytes_per_sector == 512
      then write_copies fs.num_fats 0 (sector_idx fs cluster) (sector_off fs cluster) value v
      else (err eio, v)

  -- The loop of `fat32_zero_cluster`, from sector `s` on.
  unfoldable pub zero_sectors : ℕ → ℕ → ℕ → Volume D → Result (Unit {0}) × Volume D
  unfolding stored on_ok
  zero_sectors zero s lba v = (ok tt, v)
  zero_sectors (suc left) s lba v =
      on_ok (stored (dev.blk_write (add32 lba s) (λ i. 0) v.disk) v)
        (λ u v'. zero_sectors left (s + 1) lba v')

  unfoldable pub fat32_zero_cluster : ℕ → Volume D → Result (Unit {0}) × Volume D
  unfolding zero_sectors fat32_cluster_to_lba
  fat32_zero_cluster cluster v =
      zero_sectors fs.sectors_per_cluster 0 (fat32_cluster_to_lba fs cluster) v

  -- The inner loop of `fat32_alloc_cluster`: the first free cluster among `left`, from `c` on.
  unfoldable pub find_free : ℕ → ℕ → D → Result (Option ℕ)
  find_free zero c d = ok none
  find_free (suc left) c d =
      let rest = find_free left (c + 1) d in
      elim (fat32_read_fat_entry c d) [
        | err e ↦ err eio
        | ok next ↦ if next == 0 then ok (some c) else rest
      ]

  -- What is done with a free cluster.
  unfoldable pub claim : ℕ → Volume D → Result ℕ × Volume D
  unfolding on_ok
  claim c v = on_ok (fat32_write_fat_entry c fat32_eoc v) (λ u v'.
      on_ok (fat32_zero_cluster c v') (λ u' v''. (ok c, record v'' { alloc_hint = add32 c 1 })))

  unfoldable pub second_pass : Result (Option ℕ) → Volume D → Result ℕ × Volume D
  unfolding claim
  second_pass (ok (some c)) v = claim c v
  second_pass (ok none) v = (err enospc, v)
  second_pass (err e) v = (err eio, v)

  unfoldable pub first_pass : Result (Option ℕ) → Volume D → Result ℕ × Volume D
  unfolding claim second_pass find_free
  first_pass (ok (some c)) v = claim c v
  first_pass (ok none) v = second_pass (find_free (rounds fs 2) 2 v.disk) v
  first_pass (err e) v = (err eio, v)

  unfoldable pub fat32_alloc_cluster : Volume D → Result ℕ × Volume D
  unfolding first_pass find_free
  fat32_alloc_cluster v =
      first_pass (find_free (rounds fs (first_cluster v)) (first_cluster v) v.disk) v

  -- One round: the next cluster of the chain, and the entry cleared.
  unfoldable pub release : ℕ → Result ℕ → Volume D → Result ℕ × Volume D
  unfolding on_ok
  release cluster (err e) v = (err eio, v)
  release cluster (ok next) v = on_ok (fat32_write_fat_entry cluster 0 v) (λ u v'. (ok next, v'))

  -- Whether the loop goes on after a round.
  unfoldable pub resume :
      (ℕ → Volume D → Option (Result (Unit {0}) × Volume D))
      → Result ℕ × Volume D
      → Option (Result (Unit {0}) × Volume D)
  resume next (ok after, v') = next after v'
  resume next (err e, v') = some (err e, v')

  -- `none` is out of fuel.
  unfoldable pub free_loop : ℕ → ℕ → Volume D → Option (Result (Unit {0}) × Volume D)
  unfolding release resume
  free_loop zero cluster v = none
  free_loop (suc fuel) cluster v =
      let next =
        resume (λ after v'. free_loop fuel after v')
          (release cluster (fat32_read_fat_entry cluster v.disk) v) in
      if is_linked fs cluster then next else some (ok tt, v)

  -- A cluster can be freed once: fuel for each cluster, and for the end of the chain.
  unfoldable pub fat32_free_chain : ℕ → Volume D → Option (Result (Unit {0}) × Volume D)
  unfolding free_loop
  fat32_free_chain cluster v = free_loop (fs.cluster_count + 2) cluster v

  unfoldable pub fat32_get_cluster_at : ℕ → ℕ → D → Result ℕ
  fat32_get_cluster_at start zero d = if is_cluster start then ok start else err enoent
  fat32_get_cluster_at start (suc index) d =
      let on = elim (fat32_read_fat_entry start d) as (λ x. Result ℕ) [
        | err e ↦ err eio
        | ok next ↦ fat32_get_cluster_at next index d
      ] in
      if is_cluster start then on else err enoent
