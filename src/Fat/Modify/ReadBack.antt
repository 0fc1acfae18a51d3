-- ===== src/Fat/Modify/ReadBack.antt =====
-- What `fat32_write_op` appended to a file, `fat32_read_op` returns.
use os_agent_lab.Prelude.{
  ℕ, suc, ◌+◌, ◌-◌, ◌*◌, ◌%◌, ◌≤◌, ◌<◌, min, ◌≡◌, ◌≢◌, refl, sym, ap, ap₂, subst, ◌∙◌, true, false,
  List, [], ◌∷◌, none, some, length, get_or, u32_mod, Result, ok, err, inl, arith, ltb, ◌==◌, add64,
}
use os_agent_lab.Phys.{Bytes, slice}
use os_agent_lab.Phys.Slices.{ByteList}
use os_agent_lab.Disk.{BlockDevice, IsDisk}
use os_agent_lab.Fat.{Layout, Volume}
use os_agent_lab.Fat.Entries.{IsLayout}
use os_agent_lab.Fat.Chains.{Chain}
use os_agent_lab.Fat.Ensure.{fat32_ensure_chain}
use os_agent_lab.Fat.Files.{FatNode, fat32_refresh_node, fat32_read_op}
use os_agent_lab.Fat.Files.Read.{csize, file_bytes}
use os_agent_lab.Fat.Files.Read.Whole.{fat32_read_op-slice}
use os_agent_lab.Fat.Modify.{
  Steps, with_node, set_size, finish_write, write_from, fat32_update_dirent, clusters_for,
  fat32_write_op,
}
use os_agent_lab.Fat.Modify.Dirent.{fat32_refresh_node-fat32_update_dirent}
use os_agent_lab.Fat.Modify.Loop.{Holds}
use os_agent_lab.Fat.Modify.Written.{IsApart, WriteOutcome, fat32_write_op-WriteOutcome}

slice-get_or :
    (bytes : List ℕ) (m : Bytes) (a : ℕ)
    → ((i : ℕ) → i < length bytes → m (a + i) ≡ get_or bytes i 0)
    → slice m a (length bytes) ≡ bytes
unfolding slice
slice-get_or [] m a h = refl
slice-get_or (b ∷ bytes) m a h =
    ap₂ ◌∷◌ (ap m (omega arith) ∙ h 0 (omega arith))
      (slice-get_or bytes m (a + 1) (λ i lt. ap m (omega arith) ∙ h (suc i) (omega arith)))

module _ {D : Type 0} (dev : BlockDevice D) (fs : Layout) where
  with_node-done :
      (node node' : FatNode) (r : Result (Unit {0}) × Volume D) (v' : Volume D)
      → with_node dev fs node (some r) ≡ some (ok tt, (node', v'))
      → (node ≡ node') × (r ≡ (ok tt, v'))
  unfolding with_node
  with_node-done node node' (x, v) v' h = (cc h, cc h)

  set_size-stored :
      (node node' : FatNode) (size : ℕ) (v v' : Volume D)
      → set_size dev fs node size v ≡ some (ok tt, (node', v'))
      → (node' ≡ record node { size = size % u32_mod })
        × (fat32_update_dirent dev fs node' v ≡ (ok tt, v'))
  unfolding set_size
  set_size-stored node node' size v v' h =
      let sized : FatNode = record node { size = size % u32_mod } in
      let (is, stored) = with_node-done sized node' (fat32_update_dirent dev fs sized v) v' h in
      (sym is, ap (λ (n : FatNode). fat32_update_dirent dev fs n v) (sym is) ∙ stored)

  -- The last thing that a write which makes the file longer does is to store the directory entry.
  finish_write-stored :
      (node node' : FatNode) (end' : ℕ) (r : Steps (Volume D)) (v' : Volume D)
      → node.size < end'
      → finish_write dev fs node end' r ≡ some (ok tt, (node', v'))
      → (node' ≡ record node { size = end' % u32_mod })
        × ((v : Volume D) × (fat32_update_dirent dev fs node' v ≡ (ok tt, v')))
  unfolding finish_write
  finish_write-stored node node' end' none v' grows h = cc h
  finish_write-stored node node' end' (some (err e, v)) v' grows h = cc h
  finish_write-stored node node' end' (some (ok u, v)) v' grows h =
      let longer : ltb node.size end' ≡ true = ground arith in
      let last : finish_write dev fs node end' (some (ok u, v)) ≡ set_size dev fs node end' v =
        rw longer refl in
      let (is, stored) = set_size-stored node node' end' v v' (sym last ∙ h) in (is, (v, stored))

  fat32_write_op-finish :
      (node : FatNode) (start offset : ℕ) (bytes : List ℕ) (v w : Volume D)
      → fat32_ensure_chain dev fs node.cluster (clusters_for dev fs (offset + length bytes)) v
        ≡ ((ok tt, w), start)
      → 0 < length bytes
      → offset + length bytes < u32_mod
      → (r : Steps (Volume D)) × (fat32_write_op dev fs true node bytes offset v
          ≡ finish_write dev fs (record node { cluster = start }) (offset + length bytes) r)
  unfolding fat32_write_op write_from
  fat32_write_op-finish node start offset bytes v w ensured all range =
      let something : (length bytes == 0) ≡ false = ground arith in
      let end_is : add64 offset (length bytes) ≡ offset + length bytes = omega arith in
      rw (something, end_is, ensured, end_is) (_, refl)

  -- The directory entry that a write which makes the file longer leaves reads as the node, but for the
  -- attributes.
  fat32_write_op-refreshed :
      IsDisk dev
      → (node node' : FatNode) (start offset : ℕ) (bytes : List ℕ) (v w v' : Volume D)
      → fat32_ensure_chain dev fs node.cluster (clusters_for dev fs (offset + length bytes)) v
        ≡ ((ok tt, w), start)
      → 0 < length bytes
      → offset + length bytes < u32_mod
      → node.size < offset + length bytes
      → start < u32_mod
      → node.dirent_lba ≢ 0
      → node.dirent_off + 32 ≤ 512
      → fat32_write_op dev fs true node bytes offset v ≡ some (ok tt, (node', v'))
      → (attr : ℕ) × (fat32_refresh_node dev fs v'.disk node' ≡ ok (record node' { attr = attr }))
  fat32_write_op-refreshed disk node node' start offset bytes v w v' ensured asked range grows first
        there inside wrote =
      let (r, runs) = fat32_write_op-finish node start offset bytes v w ensured asked range in
      let (is, (v1, stored)) =
        finish_write-stored (record node { cluster = start }) node' (offset + length bytes) r v'
          grows (sym runs ∙ wrote) in
      fat32_refresh_node-fat32_update_dirent dev fs disk node' v1 v' (rw is (omega arith))
        (rw is first) (rw is there) (rw is inside) stored

module _ {D : Type 0} (dev : BlockDevice D) (fs : Layout) (disk : IsDisk dev) (lay : IsLayout fs)
    (entry : ℕ → ℕ) (size : 0 < csize fs) (small : csize fs < u32_mod) where
  -- On a sound volume whose disk returns what was written, with clusters of more than 0 and less than
  -- 2 ^ 32 bytes, for a file with a directory entry inside one sector, bytes to write (at least one,
  -- each below 256) that end behind the file's size and below 2 ^ 32, and where `fat32_ensure_chain`
  -- succeeds with the first cluster `start`, below 2 ^ 32, of a chain `cs` that has room for them, in a
  -- volume `w` with the table `entry` and the sectors `sec`, and the directory entry's sector is none of
  -- the table's or the file's: where `fat32_write_op` succeeds, `fat32_read_op` of as many bytes at the
  -- same offset, which loads the directory entry again, returns the bytes that were written, and the
  -- node that it leaves has the first cluster `start` and the end of the bytes as its size.
  pub fat32_read_op-fat32_write_op :
      (node node' : FatNode) (start : ℕ) (cs : List ℕ) (sec : ℕ → Bytes) (offset : ℕ)
      (bytes : List ℕ) (v w v' : Volume D)
      → fat32_ensure_chain dev fs node.cluster (clusters_for dev fs (offset + length bytes)) v
        ≡ ((ok tt, w), start)
      → Holds dev fs disk lay entry w sec
      → Chain fs entry start cs
      → IsApart dev fs disk lay entry size small node cs
      → ByteList bytes
      → 0 < length bytes
      → offset + length bytes < u32_mod
      → offset + length bytes ≤ length cs * csize fs
      → node.size < offset + length bytes
      → start < u32_mod
      → node.dirent_lba ≢ 0
      → node.dirent_off + 32 ≤ 512
      → fat32_write_op dev fs true node bytes offset v ≡ some (ok tt, (node', v'))
      → (fresh : FatNode) × (fat32_read_op dev fs v'.disk true node' (length bytes) offset
          ≡ (fresh, some (ok bytes)))
        × (fresh.cluster ≡ start)
        × (fresh.size ≡ offset + length bytes)
  fat32_read_op-fat32_write_op node node' start cs sec offset bytes v w v' ensured holds chain apart
        all asked range room grows first there inside wrote =
      let (at, sized, sec', (sectors, table), is_new) =
        subst (WriteOutcome dev fs disk lay entry size small node start cs sec offset bytes) wrote (
          fat32_write_op-WriteOutcome dev fs disk lay entry size small node start cs sec offset
            bytes v w ensured holds chain apart all asked (omega arith) room) in
      let (attr, loads) =
        fat32_write_op-refreshed dev fs disk node node' start offset bytes v w v' ensured asked
          range grows first there inside wrote in
      let ends : node'.size ≡ offset + length bytes = ground (arith, sized) in
      let fits : node'.size ≤ length cs * csize fs = omega (arith, ends) in
      let amount : min (length bytes) (node'.size - offset) ≡ length bytes = ground (arith, ends) in
      (
        record node' { attr = attr },
        fat32_read_op-slice dev fs v'.disk sec' entry lay table sectors disk size small node'
              (record node' { attr = attr }) cs (length bytes) offset loads
              (inl (subst (λ (c : ℕ). Chain fs entry c cs) (sym at) chain), fits) asked
              (omega arith)
            ∙ ap (λ (l : List ℕ). (record node' { attr = attr }, some (ok l)))
                (ap (slice (file_bytes fs sec' cs) offset) amount
                  ∙ slice-get_or bytes (file_bytes fs sec' cs) offset (λ i lt.
                    let same : offset + i - offset ≡ i = omega arith in
                    is_new (offset + i) ∙ rw same (ground arith))),
        at,
        ends,
      )
