-- ===== src/Ramfs/Content.antt =====
-- A file of ramfs as its size and the bytes below it.
use os_agent_lab.Prelude.{
  ℕ, zero, suc, ◌+◌, ◌-◌, ◌≤◌, ◌<◌, ◌≡◌, ◌≢◌, refl, ◌⊎◌, inl, inr, ◌∙◌, ap, subst, true, false,
  List, [], ◌∷◌, arith, length, get_or, take, length-take, ltb, leb, if◌then◌else◌, add64, u64_mod,
  min, max, ok, Bool-cases, update_self, update_ne,
}
use os_agent_lab.Phys.{slice, write_bytes}
use os_agent_lab.Phys.Slices.{ByteList, write_bytes-inside, write_bytes-outside, slice-write_bytes}
use os_agent_lab.Ramfs.{
  Node, Ramfs, set_node, max_file_size, is_file, clipped, ramfs_read, ramfs_write,
}

-- The size is within the array, and behind the size there are zeroes.
pub record IsSound (x : Node) : Type 0 where
  pub fits : x.size ≤ max_file_size
  pub zeros : (i : ℕ) → x.size ≤ i → x.bytes i ≡ 0

abbrev pub fitting : ℕ → ℕ → ℕ
fitting len offset = min len (max_file_size - offset)

clipped-eq :
    (len offset : ℕ)
    → offset < max_file_size
    → len + max_file_size ≤ u64_mod
    → clipped len offset ≡ fitting len offset
clipped-eq len offset h k = ground arith

ByteList-take : (n : ℕ) (bs : List ℕ) → ByteList bs → ByteList (take n bs)
ByteList-take zero bs h = tt
ByteList-take (suc n) [] h = tt
ByteList-take (suc n) (b ∷ bs) h = (h.0, ByteList-take n bs h.1)

get_or-take : (n i : ℕ) (bs : List ℕ) → i < n → get_or (take n bs) i 0 ≡ get_or bs i 0
get_or-take zero i bs h = absurd (omega arith)
get_or-take (suc n) i [] h = refl
get_or-take (suc n) zero (b ∷ bs) h = refl
get_or-take (suc n) (suc i) (b ∷ bs) h = get_or-take n i bs (omega arith)

-- What a write of `buf` at `offset` makes of the file `x`.
pub record Written (x : Node) (buf : List ℕ) (offset : ℕ) (y : Node) : Type 0 where
  pub sound : IsSound y
  pub size : y.size ≡ max x.size (offset + fitting (length buf) offset)
  pub inside : (i : ℕ) → i < fitting (length buf) offset → y.bytes (offset + i) ≡ get_or buf i 0
  pub outside :
      (q : ℕ) → (q < offset) ⊎ (offset + fitting (length buf) offset ≤ q) → y.bytes q ≡ x.bytes q
  pub kept : is_file y ≡ is_file x

-- The node that `ramfs_write` stores, and the others.
abbrev written_node : Node → List ℕ → ℕ → Node
written_node x buf offset = record x {
  bytes = write_bytes x.bytes offset (take (fitting (length buf) offset) buf);
  size =
      if ltb x.size (offset + fitting (length buf) offset)
      then offset + fitting (length buf) offset
      else x.size;
}

module _ (x : Node) (buf : List ℕ) (offset : ℕ) (sound : IsSound x) (bytes : ByteList buf)
    (start : offset < max_file_size) (short : length buf + max_file_size ≤ u64_mod) where
  taken : length (take (fitting (length buf) offset) buf) ≡ fitting (length buf) offset
  taken = omega (arith, length-take (fitting (length buf) offset) buf)

  written_outside :
      (q : ℕ)
      → (q < offset) ⊎ (offset + fitting (length buf) offset ≤ q)
      → (written_node x buf offset).bytes q ≡ x.bytes q
  written_outside q h =
      write_bytes-outside (take (fitting (length buf) offset) buf) x.bytes offset q
        (omega (arith, taken, h))

  size-written :
      (written_node x buf offset).size ≡ max x.size (offset + fitting (length buf) offset)
  size-written = ground arith

  written_node-Written : Written x buf offset (written_node x buf offset)
  written_node-Written = record {
    sound = record {
      fits = omega (arith, size-written, sound.fits);
      zeros = λ i lo.
          written_outside i (omega (arith, size-written))
          ∙ sound.zeros i (omega (arith, size-written));
    };
    size = size-written;
    inside = λ i h.
        write_bytes-inside (take (fitting (length buf) offset) buf) x.bytes offset i
          (ByteList-take (fitting (length buf) offset) buf bytes) (omega (arith, taken))
        ∙ get_or-take (fitting (length buf) offset) i buf h;
    outside = written_outside;
    kept = refl;
  }

ramfs_write-eq :
    (s : Ramfs) (node : ℕ) (buf : List ℕ) (offset : ℕ)
    → is_file (s.nodes node) ≡ true
    → offset < max_file_size
    → length buf + max_file_size ≤ u64_mod
    → ramfs_write node buf offset s
      ≡ (ok (fitting (length buf) offset), set_node node (written_node (s.nodes node) buf offset) s)
unfolding ramfs_write
ramfs_write-eq s node buf offset f start short =
    let low : leb max_file_size offset ≡ false = ground arith in
    let fit : clipped (length buf) offset ≡ fitting (length buf) offset =
      clipped-eq (length buf) offset start short in
    let end : add64 offset (fitting (length buf) offset) ≡ offset + fitting (length buf) offset =
      omega arith in
    rw (f, low, fit, end)

-- A write to a file, from an offset below the limit: it takes as many bytes as fit, in order, and
-- changes no other byte and no other node; the size grows to cover them, and the rest of the
-- array stays zero.
pub ramfs_write-Written :
    (s : Ramfs) (node : ℕ) (buf : List ℕ) (offset : ℕ)
    → is_file (s.nodes node) ≡ true
    → IsSound (s.nodes node)
    → ByteList buf
    → offset < max_file_size
    → length buf + max_file_size ≤ u64_mod
    → let (r, s') = ramfs_write node buf offset s in
      (r ≡ ok (fitting (length buf) offset))
      × Written (s.nodes node) buf offset (s'.nodes node)
      × ((other : ℕ) → other ≢ node → s'.nodes other ≡ s.nodes other)
ramfs_write-Written s node buf offset f sound bytes start short =
    rw (ramfs_write-eq s node buf offset f start short, update_self s.nodes node)
      (
        refl,
        written_node-Written (s.nodes node) buf offset sound bytes start short,
        (λ other ne. update_ne s.nodes node (written_node (s.nodes node) buf offset) other ne),
      )

-- What is read of a file: from the offset on, as many bytes as there are and as are asked for.
pub ramfs_read_lem :
    (s : Ramfs) (node len offset : ℕ)
    → is_file (s.nodes node) ≡ true
    → ramfs_read node len offset s
      ≡ ok (slice (s.nodes node).bytes offset (min len ((s.nodes node).size - offset)))
unfolding ramfs_read slice
ramfs_read_lem s node len offset f = elim (Bool-cases (leb (s.nodes node).size offset)) [
  | inl past ↦
      let none_left : min len ((s.nodes node).size - offset) ≡ 0 = ground arith in
      rw (f, past, none_left)
  | inr before ↦
      let part : (if ltb len ((s.nodes node).size - offset)
            then len
            else (s.nodes node).size - offset)
          ≡ min len ((s.nodes node).size - offset) =
        ground arith in
      rw (f, before, part)
]

-- The same, of a node that is known.
ramfs_read-at :
    (s : Ramfs) (node len offset : ℕ) (x : Node)
    → s.nodes node ≡ x
    → is_file x ≡ true
    → ramfs_read node len offset s ≡ ok (slice x.bytes offset (min len (x.size - offset)))
ramfs_read-at s node len offset x e f =
    subst
      (λ y. ramfs_read node len offset s ≡ ok (slice y.bytes offset (min len (y.size - offset)))) e
      (ramfs_read_lem s node len offset (ap is_file e ∙ f))

-- Reading back what was just written returns it, as far as it fits in the file.
pub ramfs_read-ramfs_write :
    (s : Ramfs) (node : ℕ) (buf : List ℕ) (offset : ℕ)
    → is_file (s.nodes node) ≡ true
    → IsSound (s.nodes node)
    → ByteList buf
    → offset < max_file_size
    → length buf + max_file_size ≤ u64_mod
    → ramfs_read node (length buf) offset (ramfs_write node buf offset s).1
      ≡ ok (take (fitting (length buf) offset) buf)
ramfs_read-ramfs_write s node buf offset f sound bytes start short =
    let n : ℕ = fitting (length buf) offset in
    let x : Node = written_node (s.nodes node) buf offset in
    let size = size-written (s.nodes node) buf offset sound bytes start short in
    let part : min (length buf) (x.size - offset) ≡ length (take n buf) =
      omega (arith, size, sound.fits, length-take n buf) in
    let back : slice x.bytes offset (length (take n buf)) ≡ take n buf =
      slice-write_bytes (take n buf) (s.nodes node).bytes offset (ByteList-take n buf bytes) in
    let read : ramfs_read node (length buf) offset (set_node node x s)
        ≡ ok (slice x.bytes offset (min (length buf) (x.size - offset))) =
      ramfs_read-at (set_node node x s) node (length buf) offset x (update_self s.nodes node x) f in
    rw (ramfs_write-eq s node buf offset f start short)
      (read ∙ ap (λ m. ok (slice x.bytes offset m)) part ∙ ap ok back)
