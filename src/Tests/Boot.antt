-- ===== src/Tests/Boot.antt =====
-- A disk with one partition, from sector 1 on, of ten sectors of which eight are clusters.
use os_agent_lab.Prelude.{◌≡◌, refl, some, update, arith}
use os_agent_lab.Phys.{Bytes}
use os_agent_lab.Fat.{le32}
use os_agent_lab.Fat.Mount.{
  Superblock, IsPlausible, le16, superblock, find_partition, from_boot, from_mbr, fat32_mount,
  fat32_mount-IsInside, IsInside,
}
use os_agent_lab.Tests.Volumes.{RamDisk, ram}

abbrev mbr : Bytes
mbr = update (update (update (update (update (λ i. 0) 450 0x0c) 454 1) 458 10) 510 0x55) 511 0xaa

abbrev boot : Bytes
boot =
    update
      (update (update (update (update (update (update (λ i. 0) 12 2) 13 1) 14 1) 16 1) 19 10) 22 1)
      44 2

abbrev boot_disk : RamDisk
boot_disk = update (update (λ lba i. 0) 0 mbr) 1 boot

mounted : Superblock
unfolding superblock
mounted = superblock boot 1

mount_run : fat32_mount ram boot_disk ≡ some mounted
unfolding fat32_mount from_mbr from_boot find_partition superblock le16 le32 mounted
mount_run = refl

mounted-IsPlausible : IsPlausible mounted
unfolding superblock le16 le32 mounted
mounted-IsPlausible = record { inside = omega arith; in_range = omega arith }

fat32_mount-IsInside_example : IsInside mounted
fat32_mount-IsInside_example =
    fat32_mount-IsInside ram boot_disk mounted mount_run mounted-IsPlausible
