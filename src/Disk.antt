-- ===== src/Disk.antt =====
-- The block device behind the file systems: `blk_read` and `blk_write` of one sector
-- (GPT-5.2-Codex/code/kernel/include/blk.h), as operations on the disk's state `D`.
use os_agent_lab.Prelude.{ℕ, ◌<◌, ◌≡◌, ◌≢◌, Option, some}
use os_agent_lab.Phys.{Bytes}

-- `none` is a failed transfer. A sector is its 512 bytes, from 0 on.
pub record BlockDevice (D : Type 0) : Type 0 where
  pub blk_read : ℕ → D → Option Bytes
  pub blk_write : ℕ → Bytes → D → Option D

-- What the kernel relies on: a sector that was written reads back, and no other changes.
pub record IsDisk {D : Type 0} (dev : BlockDevice D) : Type 0 where
  pub reads_back :
      (lba : ℕ) (b : Bytes) (d d' : D)
      → dev.blk_write lba b d ≡ some d'
      → (s : Bytes) × (dev.blk_read lba d' ≡ some s) × ((i : ℕ) → i < 512 → s i ≡ b i)
  pub reads_others :
      (lba other : ℕ) (b : Bytes) (d d' : D)
      → dev.blk_write lba b d ≡ some d'
      → other ≢ lba
      → dev.blk_read other d' ≡ dev.blk_read other d
