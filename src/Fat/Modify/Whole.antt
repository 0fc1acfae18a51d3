-- ===== src/Fat/Modify/Whole.antt =====
-- `fat32_write_op` as a whole: the file's bytes, its size and its directory entry.
use os_agent_lab.Prelude.{
  ℕ, zero, suc, ◌+◌, ◌-◌, ◌*◌, ◌/◌, ◌%◌, ◌≤◌, ◌<◌, ◌≡◌, refl, ◌∙◌, false, ◌&&◌, List, [], ◌∷◌, ltb,
  leb, if◌then◌else◌, u32_mod, length, drop, get_or, length-drop, ok, Bool-cases, inl, inr, arith,
}
use os_agent_lab.Phys.{Bytes}
use os_agent_lab.Phys.Slices.{ByteList}
use os_agent_lab.Disk.{BlockDevice, IsDisk}
use os_agent_lab.Fat.{Layout, Volume, fat32_eoc}
use os_agent_lab.Fat.Entries.{IsLayout, HasEntries}
use os_agent_lab.Fat.Chains.{Chain, Chain-elem, elem}
use os_agent_lab.Fat.Files.Read.{csize, file_bytes}
use os_agent_lab.Fat.Files.Read.Whole.{rest_bound}
use os_agent_lab.Fat.Modify.{Steps, go_on, skip_next, skip_written, write_clusters}
use os_agent_lab.Fat.Modify.Loop.{Holds, Leaves}
use os_agent_lab.Fat.Modify.Clusters.{written, write_clusters-Leaves}
use os_agent_lab.Fat.Modify.Contents.{written_elsewhere, file_bytes-written}
use native.Mathlib.Nat.{div-add-mod', mod-lt}

elem-drop : (k e : ℕ) (cs : List ℕ) → elem e cs ≡ false → elem e (drop k cs) ≡ false
elem-drop zero e cs h = h
elem-drop (suc k) e [] h = h
elem-drop (suc k) e (x ∷ cs) h = elem-drop k e cs (ground arith)

module _ (fs : Layout) (lay : IsLayout fs) (entry : ℕ → ℕ) where
  drop-Chain :
      (k c : ℕ) (cs : List ℕ)
      → Chain fs entry c cs
      → k < length cs
      → (c' : ℕ) × Chain fs entry c' (drop k cs)
  drop-Chain zero c cs chain lt = (c, chain)
  drop-Chain (suc k) c (x ∷ cs) (Chain.cell _ _ lo hi chain) lt =
      drop-Chain k (entry c) cs chain (omega arith)
  drop-Chain (suc k) c [] chain lt = absurd (omega arith)

  -- The bytes of the whole file after a write from cluster `k` of its chain on.
  file_bytes-skipped :
      (sec : ℕ → Bytes) (k c : ℕ) (cs : List ℕ) (off : ℕ) (bytes : List ℕ)
      → Chain fs entry c cs
      → k < length cs
      → off ≤ csize fs
      → off + length bytes ≤ length (drop k cs) * csize fs
      → (i : ℕ)
      → file_bytes fs (written fs sec (drop k cs) off bytes) cs i ≡ (
          if leb (k * csize fs + off) i && ltb i (k * csize fs + off + length bytes)
          then get_or bytes (i - (k * csize fs + off)) 0
          else file_bytes fs sec cs i)
  unfolding file_bytes
  file_bytes-skipped sec zero c cs off bytes chain lt le room i =
      let start : 0 * csize fs + off ≡ off = omega arith in
      rw start (file_bytes-written fs lay entry sec c cs off bytes chain le room i)
  file_bytes-skipped sec (suc k) c [] off bytes chain lt le room i = absurd (omega arith)
  file_bytes-skipped sec (suc k) c (x ∷ cs) off bytes (Chain.cell _ _ lo hi chain) lt le room i =
      let (c', rest) = drop-Chain k (entry c) cs chain (omega arith) in
      let alone : elem c (drop k cs) ≡ false =
        elem-drop k c cs (Chain-elem fs lay entry c cs lo hi chain) in
      let far : suc k * csize fs + off ≡ csize fs + (k * csize fs + off) = grind arith in
      elim (Bool-cases (ltb i (csize fs))) [
        | inl p ↦
            rw (p, far)
              (written_elsewhere fs lay entry sec c' (drop k cs) off bytes rest le c i (lo, hi)
                  alone (ground arith)
                ∙ ground arith)
        | inr p ↦
            rw (p, far)
              (file_bytes-skipped sec k (entry c) cs off bytes chain (omega arith) le room
                  (i - csize fs)
                ∙ ground arith)
      ]

module _ {D : Type 0} (dev : BlockDevice D) (fs : Layout) (disk : IsDisk dev) (lay : IsLayout fs)
    (entry : ℕ → ℕ) (size : 0 < csize fs) (small : csize fs < u32_mod) where
  skip_written-Chain :
      (d : D) (skip c : ℕ) (cs : List ℕ)
      → HasEntries dev fs d entry
      → Chain fs entry c cs
      → skip < length cs
      → (c' : ℕ) × (skip_written dev fs skip c d ≡ ok c') × Chain fs entry c' (drop skip cs)
  unfolding skip_written skip_next
  skip_written-Chain d skip c [] table chain lt = absurd (omega arith)
  skip_written-Chain d zero c (x ∷ cs) table chain lt = (c, refl, chain)
  skip_written-Chain d (suc skip) c (x ∷ []) table chain lt = absurd (omega arith)
  skip_written-Chain d (suc skip) c (x ∷ y ∷ cs) table
        (Chain.cell _ _ lo hi (Chain.cell e _ lo' hi' r)) lt =
      let going : leb fat32_eoc (entry c) ≡ false = ground (arith, lay.few) in
      rw (table.reads c hi, going)
        (skip_written-Chain d skip (entry c) (y ∷ cs) table (Chain.cell (entry c) cs lo' hi' r)
          (omega arith))

  -- The two loops of `fat32_write_op`.
  module _ (w : Volume D) (sec : ℕ → Bytes) (start : ℕ) (cs : List ℕ) (offset : ℕ) (bytes : List ℕ)
      (holds : Holds dev fs disk lay entry w sec) (chain : Chain fs entry start cs)
      (all : ByteList bytes) (asked : 0 < length bytes)
      (room : offset + length bytes ≤ length cs * csize fs) where
    abbrev pub skip : ℕ
    skip = offset / csize fs

    abbrev pub after : ℕ → Bytes
    after = written fs sec (drop skip cs) (offset % csize fs) bytes

    unfoldable pub loops : Steps (Volume D)
    loops =
        go_on (skip_written dev fs skip start w.disk) w
          (λ c w'. write_clusters dev fs (suc (length bytes)) c (offset % csize fs) bytes w')

    within : skip < length cs
    within = let split = div-add-mod' offset (csize fs) in grind arith

    rest_room : offset % csize fs + length bytes ≤ length (drop skip cs) * csize fs
    rest_room =
        let split = div-add-mod' offset (csize fs) in
        let sum : skip + length (drop skip cs) ≡ length cs =
          omega (arith, within, length-drop {0} skip cs) in
        rest_bound (csize fs) skip (offset % csize fs) (length bytes) (length (drop skip cs))
          (rw sum (omega (arith, split)))

    pub loops-Leaves : Leaves dev fs disk lay entry after loops
    unfolding loops go_on
    loops-Leaves =
        let (c', found, rest) = skip_written-Chain w.disk skip start cs holds.1 chain within in
        rw found (
          write_clusters-Leaves dev fs disk lay entry size small (suc (length bytes)) w sec c'
            (drop skip cs) (offset % csize fs) bytes rest (omega arith) holds all
            (mod-lt offset size) rest_room)

    pub file_bytes-after :
        (i : ℕ)
        → file_bytes fs after cs i ≡ (
            if leb offset i && ltb i (offset + length bytes)
            then get_or bytes (i - offset) 0
            else file_bytes fs sec cs i)
    file_bytes-after i =
        let split = div-add-mod' offset (csize fs) in
        file_bytes-skipped fs lay entry sec skip start cs (offset % csize fs) bytes chain within
          (omega (arith, mod-lt offset size)) rest_room i
        ∙ rw split refl
