-- ===== src/Fat/Mount.antt =====
-- `fat32_mount`: the volume that the boot record describes.
use os_agent_lab.Prelude.{
  ℕ, zero, suc, ◌+◌, ◌*◌, ◌/◌, ◌≤◌, ◌<◌, ◌≡◌, refl, Bool, true, false, ◌||◌, not, Option, none,
  some, ◌==◌, if◌then◌else◌, add32, sub32, mul32, u32_mod, arith, subst, sym,
}
use native.Mathlib.Nat.{div-add-mod'}
use os_agent_lab.Phys.{Bytes}
use os_agent_lab.Disk.{BlockDevice}
use os_agent_lab.Fat.{Layout, le32}

unfoldable pub le16 : Bytes → ℕ → ℕ
le16 s off = s off + 256 * s (off + 1)

-- struct fat32_fs
pub record Superblock : Type 0 where
  pub part_lba : ℕ
  pub reserved_sectors : ℕ
  pub total_sectors : ℕ
  pub root_cluster : ℕ
  pub alloc_hint : ℕ
  pub layout : Layout

-- The first of `left` partitions, from the table's entry at `off` on, that has a type of FAT32: its
-- first sector and its length.
unfoldable pub find_partition : ℕ → ℕ → Bytes → ℕ × ℕ
unfolding le32
find_partition zero off s = (0, 0)
find_partition (suc left) off s =
    let rest = find_partition left (off + 16) s in
    if s (off + 4) == 0x0b || s (off + 4) == 0x0c
    then (le32 s (off + 8), le32 s (off + 12))
    else rest

-- The numbers of the boot sector. A field of 16 bits that is 0 stands in one of 32 bits.
abbrev pub total_in : Bytes → ℕ
total_in s = if le16 s 19 == 0 then le32 s 32 else le16 s 19

abbrev pub fat_size_in : Bytes → ℕ
fat_size_in s = if le16 s 22 == 0 then le32 s 36 else le16 s 22

unfoldable pub superblock : Bytes → ℕ → Superblock
unfolding le16 le32
superblock s part_lba =
    let reserved = le16 s 14 in
    let fats = mul32 (s 16) (fat_size_in s) in
    let fat_lba = add32 part_lba reserved in
    record {
      part_lba = part_lba;
      reserved_sectors = reserved;
      total_sectors = total_in s;
      root_cluster = le32 s 44;
      alloc_hint = 2;
      layout = record {
        fat_lba = fat_lba;
        data_lba = add32 fat_lba fats;
        sectors_per_fat = fat_size_in s;
        num_fats = s 16;
        cluster_count = sub32 (sub32 (total_in s) reserved) fats / s 13;
        sectors_per_cluster = s 13;
        bytes_per_sector = le16 s 11;
      };
    }

unfoldable pub from_boot : Option Bytes → ℕ → Option Superblock
unfolding superblock
from_boot none part_lba = none
from_boot (some s) part_lba =
    if s 13 == 0 || not (le16 s 11 == 512) then none else some (superblock s part_lba)

module _ {D : Type 0} (dev : BlockDevice D) where
  unfoldable pub from_mbr : Option Bytes → D → Option Superblock
  unfolding from_boot find_partition le16
  from_mbr none d = none
  from_mbr (some s) d =
      let (part_lba, part_sectors) = find_partition 4 446 s in
      if not (le16 s 510 == 0xaa55) || (part_lba == 0 || part_sectors == 0)
      then none
      else from_boot (dev.blk_read part_lba d) part_lba

  unfoldable pub fat32_mount : D → Option Superblock
  unfolding from_mbr
  fat32_mount d = from_mbr (dev.blk_read 0 d) d

-- What the boot record has to keep for its clusters to lie in the volume; `fat32_mount` does not look
-- at it.
pub record IsPlausible (sb : Superblock) : Type 0 where
  pub inside :
      sb.reserved_sectors + sb.layout.num_fats * sb.layout.sectors_per_fat ≤ sb.total_sectors
  pub in_range : sb.part_lba + sb.total_sectors < u32_mod

div_mul-le : (n m : ℕ) → n / m * m ≤ n
div_mul-le n m = omega (arith, div-add-mod' n m)

-- The tables lie behind the reserved sectors, the clusters behind the tables and inside the volume,
-- and no sector number wraps around.
pub record IsInside (sb : Superblock) : Type 0 where
  pub sectors : sb.layout.bytes_per_sector ≡ 512
  pub some_sectors : 0 < sb.layout.sectors_per_cluster
  pub first : sb.part_lba + sb.reserved_sectors ≤ sb.layout.fat_lba
  pub tables :
      sb.layout.fat_lba + sb.layout.num_fats * sb.layout.sectors_per_fat ≤ sb.layout.data_lba
  pub clusters :
      sb.layout.data_lba + sb.layout.cluster_count * sb.layout.sectors_per_cluster
      ≤ sb.part_lba + sb.total_sectors
  pub in_range :
      sb.layout.data_lba + sb.layout.cluster_count * sb.layout.sectors_per_cluster < u32_mod

-- The volume of a boot sector.
superblock-IsInside :
    (s : Bytes) (part_lba : ℕ)
    → le16 s 11 ≡ 512
    → 0 < s 13
    → IsPlausible (superblock s part_lba)
    → IsInside (superblock s part_lba)
unfolding superblock
superblock-IsInside s part_lba bytes spc p =
    let count =
      div_mul-le (sub32 (sub32 (total_in s) (le16 s 14)) (mul32 (s 16) (fat_size_in s))) (s 13) in
    record {
      sectors = bytes;
      some_sectors = spc;
      first = omega (arith, p.inside, p.in_range);
      tables = omega (arith, p.inside, p.in_range);
      clusters = omega (arith, p.inside, p.in_range, count);
      in_range = omega (arith, p.inside, p.in_range, count);
    }

if-some :
    {A : Type 0} (b : Bool) (o : Option A) (a : A)
    → (if b then none else o) ≡ some a
    → (b ≡ false) × (o ≡ some a)
if-some true o a h = cc h
if-some false o a h = (refl, h)

from_boot-inv :
    (r : Option Bytes) (part_lba : ℕ) (sb : Superblock)
    → from_boot r part_lba ≡ some sb
    → (s : Bytes) × (sb ≡ superblock s part_lba) × (le16 s 11 ≡ 512) × (0 < s 13)
unfolding from_boot
from_boot-inv none part_lba sb h = cc h
from_boot-inv (some s) part_lba sb h =
    let (t, e) =
      if-some (s 13 == 0 || not (le16 s 11 == 512)) (some (superblock s part_lba)) sb h in
    (s, cc e, ground (arith, t), ground (arith, t))

module _ {D : Type 0} (dev : BlockDevice D) where
  from_mbr-inv :
      (r : Option Bytes) (d : D) (sb : Superblock)
      → from_mbr dev r d ≡ some sb
      → (s : Bytes) × (part_lba : ℕ) × (sb ≡ superblock s part_lba) × (le16 s 11 ≡ 512) × (0 < s 13)
  unfolding from_mbr
  from_mbr-inv none d sb h = cc h
  from_mbr-inv (some m) d sb h =
      let at : ℕ = (find_partition 4 446 m).0 in
      let (t, e) =
        if-some (not (le16 m 510 == 0xaa55) || (at == 0 || (find_partition 4 446 m).1 == 0))
          (from_boot (dev.blk_read at d) at) sb h in
      let (s, is, bytes, spc) = from_boot-inv (dev.blk_read at d) at sb e in (s, at, is, bytes, spc)

  -- A volume that was mounted, where the reserved sectors and the tables fit into the sectors of the
  -- volume and its sectors end below 2^32: its sectors have 512 bytes and a cluster has one of them at
  -- least, the tables lie behind the reserved sectors, and the clusters, as many as were counted,
  -- behind the tables and inside the volume, with no sector number that wraps around.
  pub fat32_mount-IsInside :
      (d : D) (sb : Superblock) → fat32_mount dev d ≡ some sb → IsPlausible sb → IsInside sb
  unfolding fat32_mount
  fat32_mount-IsInside d sb h p =
      let (s, at, is, bytes, spc) = from_mbr-inv (dev.blk_read 0 d) d sb h in
      subst IsInside (sym is) (superblock-IsInside s at bytes spc (subst IsPlausible is p))
