-- ===== src/Fat/Modify/Written.antt =====
-- `fat32_write_op`, with the file's directory entry.
use os_agent_lab.Prelude.{
  ℕ, ◌+◌, ◌-◌, ◌*◌, ◌/◌, ◌%◌, ◌≤◌, ◌<◌, ◌≡◌, ◌≢◌, refl, sym, ◌∙◌, true, false, ◌&&◌, List, Option,
  none, some, ltb, leb, ◌==◌, if◌then◌else◌, add64, mul32, u32_mod, u64_mod, length, get_or, ok,
  err, Bool-cases, inl, inr, ◌⊎◌, ℕ_discrete, arith,
}
use os_agent_lab.Phys.{Bytes}
use os_agent_lab.Phys.Slices.{ByteList}
use os_agent_lab.Disk.{BlockDevice, IsDisk}
use os_agent_lab.Fat.{Layout, Volume, fat32_cluster_to_lba, rewrite}
use os_agent_lab.Fat.Entries.{IsLayout, HasEntries}
use os_agent_lab.Fat.Chains.{Chain, elem}
use os_agent_lab.Fat.Ensure.{fat32_ensure_chain}
use os_agent_lab.Fat.Files.{FatNode}
use os_agent_lab.Fat.Files.Read.{csize, file_bytes}
use os_agent_lab.Fat.Modify.{
  Steps, Open, to_dirent, fat32_update_dirent, with_node, set_size, finish_write, write_from,
  clusters_for, fat32_write_op,
}
use os_agent_lab.Fat.Modify.Loop.{Holds, Leaves, stored-Leaves}
use os_agent_lab.Fat.Modify.Contents.{file_bytes-congr}
use os_agent_lab.Fat.Modify.Whole.{loops, after, loops-Leaves, file_bytes-after}

module _ {D : Type 0} (dev : BlockDevice D) (fs : Layout) (disk : IsDisk dev) (lay : IsLayout fs)
    (entry : ℕ → ℕ) (size : 0 < csize fs) (small : csize fs < u32_mod) where
  -- The directory entry's sector is none of the table's, and none of the file's.
  pub record IsApart (node : FatNode) (cs : List ℕ) : Type 0 where
    pub in_data : (node.dirent_lba ≡ 0) ⊎ (fs.data_lba ≤ node.dirent_lba)
    pub no_part :
        (e k : ℕ)
        → elem e cs ≡ true
        → k < fs.sectors_per_cluster
        → node.dirent_lba ≢ 0
        → fat32_cluster_to_lba fs e + k ≢ node.dirent_lba

  -- The sectors `sec`, but for one.
  abbrev AllBut : ℕ → (ℕ → Bytes) → (ℕ → Bytes) → Type 0
  AllBut lba sec sec' = (l i : ℕ) → l ≢ lba → i < 512 → sec l i ≡ sec' l i

  abbrev with_sector : (ℕ → Bytes) → ℕ → Bytes → ℕ → Bytes
  with_sector sec lba b l i = if l == lba then b i else sec l i

  rewrite-Leaves :
      (change : Bytes → Bytes) (lba : ℕ) (r : Option Bytes) (v : Volume D) (sec : ℕ → Bytes)
      → Holds dev fs disk lay entry v sec
      → fs.data_lba ≤ lba
      → (sec' : ℕ → Bytes) × Leaves dev fs disk lay entry sec'
          (some (rewrite dev fs change lba r v))
        × AllBut lba sec sec'
  unfolding rewrite
  rewrite-Leaves change lba none v sec holds place = (sec, holds.1, λ l i ne lt. refl)
  rewrite-Leaves change lba (some s) v sec holds place =
      let sec' = with_sector sec lba (change s) in
      let others : AllBut lba sec sec' = λ l i ne lt. ground arith in
      (
        sec',
        stored-Leaves dev fs disk lay entry v sec sec' lba (change s) holds place
            (λ i lt. ground arith) others (dev.blk_write lba (change s) v.disk) refl,
        others,
      )

  -- The directory entry's sector changes, if the file has one.
  update_dirent-Leaves :
      (node : FatNode) (v : Volume D) (sec : ℕ → Bytes)
      → Holds dev fs disk lay entry v sec
      → (node.dirent_lba ≡ 0) ⊎ (fs.data_lba ≤ node.dirent_lba)
      → (sec' : ℕ → Bytes) × Leaves dev fs disk lay entry sec'
          (some (fat32_update_dirent dev fs node v))
        × ((l i : ℕ) → ((node.dirent_lba ≢ 0) → l ≢ node.dirent_lba) → i < 512 → sec l i ≡ sec' l i)
  unfolding fat32_update_dirent
  update_dirent-Leaves node v sec holds place = elim (ℕ_discrete node.dirent_lba 0) [
    | yes e ↦
        let is_root : (node.dirent_lba == 0) ≡ true = ground arith in
        (sec, rw is_root holds, λ l i ne lt. refl)
    | no n ↦
        let entry_there : (node.dirent_lba == 0) ≡ false = ground arith in
        let (sec', leaves, others) =
          rewrite-Leaves (to_dirent node) node.dirent_lba (dev.blk_read node.dirent_lba v.disk) v
            sec holds (ground arith) in
        (sec', rw entry_there leaves, λ l i ne lt. others l i (ne n) lt)
  ]

  -- How the operation ends. It does not run out of fuel; on an error the table is as it was; and on
  -- success the node has the new first cluster and size, and the file its new bytes.
  abbrev pub WriteOutcome :
      FatNode → ℕ → List ℕ → (ℕ → Bytes) → ℕ → List ℕ → Steps (Open dev fs) → Type 0
  WriteOutcome node start cs sec offset bytes none = ⊥
  WriteOutcome node start cs sec offset bytes (some (err e, (node', v))) =
      HasEntries dev fs v.disk entry
  WriteOutcome node start cs sec offset bytes (some (ok u, (node', v))) =
      (node'.cluster ≡ start)
      × (node'.size ≡ (
          if ltb node.size (offset + length bytes)
          then (offset + length bytes) % u32_mod
          else node.size))
      × (sec' : ℕ → Bytes) × Holds dev fs disk lay entry v sec'
      × ((i : ℕ)
          → file_bytes fs sec' cs i ≡ (
              if leb offset i && ltb i (offset + length bytes)
              then get_or bytes (i - offset) 0
              else file_bytes fs sec cs i))

  module _ (node : FatNode) (start : ℕ) (cs : List ℕ) (sec : ℕ → Bytes) (offset : ℕ)
      (bytes : List ℕ) (chain : Chain fs entry start cs) (apart : IsApart node cs) where
    -- The bytes of the file after the operation, in some sectors.
    abbrev IsNew : (ℕ → Bytes) → Type 0
    IsNew sec' =
        (i : ℕ)
        → file_bytes fs sec' cs i ≡ (
            if leb offset i && ltb i (offset + length bytes)
            then get_or bytes (i - offset) 0
            else file_bytes fs sec cs i)

    abbrev final_size : ℕ
    final_size =
        if ltb node.size (offset + length bytes)
        then (offset + length bytes) % u32_mod
        else node.size

    with_node-WriteOutcome :
        (node' : FatNode) (r : Steps (Volume D)) (sec' : ℕ → Bytes)
        → Leaves dev fs disk lay entry sec' r
        → node'.cluster ≡ start
        → node'.size ≡ final_size
        → IsNew sec'
        → WriteOutcome node start cs sec offset bytes (with_node dev fs node' r)
    unfolding with_node
    with_node-WriteOutcome node' none sec' leaves at sized is_new = leaves
    with_node-WriteOutcome node' (some (err e, v)) sec' leaves at sized is_new = leaves
    with_node-WriteOutcome node' (some (ok u, v)) sec' leaves at sized is_new =
        (at, sized, sec', leaves, is_new)

    finish_write-WriteOutcome :
        (r : Steps (Volume D)) (sec' : ℕ → Bytes)
        → Leaves dev fs disk lay entry sec' r
        → IsNew sec'
        → WriteOutcome node start cs sec offset bytes
            (finish_write dev fs (record node { cluster = start }) (offset + length bytes) r)
    unfolding finish_write set_size
    finish_write-WriteOutcome none sec' leaves is_new = leaves
    finish_write-WriteOutcome (some (err e, v)) sec' leaves is_new = leaves
    finish_write-WriteOutcome (some (ok u, v)) sec' leaves is_new =
        elim (Bool-cases (ltb node.size (offset + length bytes))) [
          | inr kept ↦ rw kept (refl, rw kept refl, sec', leaves, is_new)
          | inl grown ↦
              let node' : FatNode = record node {
                cluster = start;
                size = (offset + length bytes) % u32_mod;
              } in
              let (sec'', leaves', same) = update_dirent-Leaves node' v sec' leaves apart.in_data in
              rw grown (
                with_node-WriteOutcome node' (some (fat32_update_dirent dev fs node' v)) sec''
                  leaves' refl (rw grown refl)
                  (λ i.
                    file_bytes-congr fs lay entry sec'' sec' start cs chain
                      (λ e j in_e is lt. sym (
                        same (fat32_cluster_to_lba fs e + j / 512) (j % 512)
                          (apart.no_part e (j / 512) is (omega arith)) (omega arith)))
                      i
                    ∙ is_new i))
        ]

  -- On a sound volume whose disk returns what was written, with clusters of more than 0 and less than
  -- 2 ^ 32 bytes, for a file, bytes to write (at least one, each below 256) that end below 2 ^ 64,
  -- and where `fat32_ensure_chain` succeeds with the first cluster `start` of a chain `cs` that has
  -- room for them, in a volume `w` with the table `entry` and the sectors `sec`, and the directory
  -- entry's sector is none of the table's or the file's: `fat32_write_op` does not run out of fuel;
  -- where it fails, the table is as it was in `w`; and where it succeeds, the node's size is the end
  -- of the bytes if it was less (as uint32_t), the table is as it was in `w`, and the file along `cs`
  -- has the new bytes from `offset` on and its old ones elsewhere.
  pub fat32_write_op-WriteOutcome :
      (node : FatNode) (start : ℕ) (cs : List ℕ) (sec : ℕ → Bytes) (offset : ℕ) (bytes : List ℕ)
      (v w : Volume D)
      → fat32_ensure_chain dev fs node.cluster (clusters_for dev fs (offset + length bytes)) v
        ≡ ((ok tt, w), start)
      → Holds dev fs disk lay entry w sec
      → Chain fs entry start cs
      → IsApart node cs
      → ByteList bytes
      → 0 < length bytes
      → offset + length bytes < u64_mod
      → offset + length bytes ≤ length cs * csize fs
      → WriteOutcome node start cs sec offset bytes (fat32_write_op dev fs true node bytes offset v)
  unfolding fat32_write_op write_from loops
  fat32_write_op-WriteOutcome node start cs sec offset bytes v w ensured holds chain apart all asked
        range room =
      let something : (length bytes == 0) ≡ false = ground arith in
      let end_is : add64 offset (length bytes) ≡ offset + length bytes = omega arith in
      let whole : mul32 fs.bytes_per_sector fs.sectors_per_cluster ≡ csize fs =
        rw (lay.sectors) (omega (arith, small)) in
      rw (something, end_is, ensured, end_is, whole)
        (finish_write-WriteOutcome node start cs sec offset bytes chain apart
          (loops dev fs disk lay entry size small w sec start cs offset bytes holds chain all asked
            room)
          (after dev fs disk lay entry size small w sec start cs offset bytes holds chain all asked
            room)
          (loops-Leaves dev fs disk lay entry size small w sec start cs offset bytes holds chain all
            asked room)
          (file_bytes-after dev fs disk lay entry size small w sec start cs offset bytes holds chain
            all asked room))
