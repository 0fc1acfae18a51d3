-- ===== src/Fat/Ensure.antt =====
-- `fat32_ensure_chain`: a chain made as long as a file needs it.
mod Extend
pub mod Long
use os_agent_lab.Prelude.{
  ℕ, zero, suc, ◌-◌, Option, none, some, ◌==◌, leb, if◌then◌else◌, Result, ok, err, eio, enospc,
  Errno,
}
use os_agent_lab.Disk.{BlockDevice}
use os_agent_lab.Fat.{
  Layout, Volume, on_ok, fat32_eoc, fat32_read_fat_entry, fat32_write_fat_entry,
  fat32_alloc_cluster,
}

-- The error that a caller makes of any other.
unfoldable pub fails_as : {A S : Type 0} → Errno → Result A × S → Result A × S
fails_as e (ok a, v) = (ok a, v)
fails_as e (err x, v) = (err e, v)

-- The first cluster of a file that had none.
unfoldable pub with_start :
    {S : Type 0} → (ℕ → S → Result (Unit {0}) × S) → ℕ → Result ℕ × S → (Result (Unit {0}) × S) × ℕ
with_start next start (ok new, v) = (next new v, new)
with_start next start (err e, v) = ((err e, v), start)

module _ {D : Type 0} (dev : BlockDevice D) (fs : Layout) where
  -- The loop along the chain, with `missing` clusters wanted after `cluster`: `none` where the chain
  -- is long enough, and otherwise how many are missing after its last cluster.
  unfoldable pub measure_chain : ℕ → ℕ → D → Result (Option (ℕ × ℕ))
  measure_chain zero cluster d = ok none
  measure_chain (suc missing) cluster d = elim (fat32_read_fat_entry dev fs cluster d) [
    | err e ↦ err eio
    | ok next ↦
        let rest = measure_chain missing next d in
        if leb fat32_eoc next then ok (some (suc missing, cluster)) else rest
  ]

  -- The loop that links new clusters behind `last`.
  unfoldable pub extend_chain : ℕ → ℕ → Volume D → Result (Unit {0}) × Volume D
  unfolding fails_as on_ok
  extend_chain zero last v = (ok tt, v)
  extend_chain (suc missing) last v =
      on_ok (fails_as enospc (fat32_alloc_cluster dev fs v)) (λ new v'.
        on_ok (fails_as eio (fat32_write_fat_entry dev fs last new v'))
          (λ u v''. extend_chain missing new v''))

  -- After the first loop.
  unfoldable pub measured : Result (Option (ℕ × ℕ)) → Volume D → Result (Unit {0}) × Volume D
  unfolding extend_chain
  measured (err e) v = (err eio, v)
  measured (ok none) v = (ok tt, v)
  measured (ok (some (missing, last))) v = extend_chain missing last v

  -- From the first cluster on. A first cluster that is no cluster's number is not looked at.
  unfoldable pub ensure_from : ℕ → ℕ → Volume D → Result (Unit {0}) × Volume D
  unfolding measured measure_chain
  ensure_from cluster needed v =
      if leb fat32_eoc cluster
      then extend_chain needed 0 v
      else measured (measure_chain (needed - 1) cluster v.disk) v

  -- `*start` is the last part of the result.
  unfoldable pub fat32_ensure_chain : ℕ → ℕ → Volume D → (Result (Unit {0}) × Volume D) × ℕ
  unfolding ensure_from with_start fails_as
  fat32_ensure_chain start needed v =
      if needed == 0
      then ((ok tt, v), start)
      else (if start == 0
          then with_start (λ new v'. ensure_from new needed v') start
              (fails_as enospc (fat32_alloc_cluster dev fs v))
          else (ensure_from start needed v, start))
