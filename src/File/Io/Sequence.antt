-- ===== src/File/Io/Sequence.antt =====
-- Two reads in a row are one longer read.
use os_agent_lab.Prelude.{
  ℕ, zero, suc, ◌+◌, ◌-◌, ◌<◌, ◌≡◌, refl, ap, ◌∙◌, true, some, List, ◌∷◌, ◌++◌, length, arith, ok,
  add64, u64_mod, min, update_self, ◌%◌, ◌^◌, u32_mod, inl, inr, Bool-cases,
}
use os_agent_lab.Phys.{Bytes, slice}
use os_agent_lab.File.{File, Files}
use os_agent_lab.File.Io.{
  VnodeOps, file_read, vfs_read, after_read, has_table, seek, moved, is_positive,
}

length-slice : (m : Bytes) (a n : ℕ) → length (slice m a n) ≡ n
unfolding slice
length-slice m a zero = refl
length-slice m a (suc n) = omega (arith, length-slice m (a + 1) n)

slice-split : (m : Bytes) (a n k : ℕ) → slice m a (n + k) ≡ slice m a n ++ slice m (a + n) k
unfolding slice
slice-split m a zero k =
    let none_more : 0 + k ≡ k = omega arith in
    let here : a ≡ a + 0 = omega arith in ap (slice m a) none_more ∙ ap (λ b. slice m b k) here
slice-split m a (suc n) k =
    let one_more : suc n + k ≡ suc (n + k) = omega arith in
    let step : a + 1 + n ≡ a + suc n = omega arith in
    ap (slice m a) one_more
    ∙ ap (λ bs. m a ∷ bs) (slice-split m (a + 1) n k)
    ∙ ap (λ b. m a ∷ (slice m (a + 1) n ++ slice m b k)) step

-- The vnode `vn` is a file of `size` bytes: what a read of it returns, from any offset on, is as
-- many of them as there are and as are asked for.
pub record HasContent {V : Type 0} (ops : VnodeOps V) (v : V) (vn : ℕ) (bytes : Bytes) (size : ℕ)
    : Type 0 where
  pub table : has_table ops vn v ≡ true
  pub reads : (len off : ℕ) → ops.read vn len off v ≡ ok (slice bytes off (min len (size - off)))

-- An open file that may be read.
pub record IsReadable (x : File) (vn : ℕ) : Type 0 where
  pub readable : x.readable ≡ true
  pub vnode : x.vn ≡ some vn

module _ {V : Type 0} (ops : VnodeOps V) (v : V) (vn : ℕ) (bytes : Bytes) (size : ℕ)
    (content : HasContent ops v vn bytes size) where
  vfs_read-content :
      (len off : ℕ) → vfs_read ops (some vn) len off v ≡ ok (slice bytes off (min len (size - off)))
  unfolding vfs_read
  vfs_read-content len off = rw (content.table) (content.reads len off)

  file_read-open :
      (f len : ℕ) (s : Files)
      → IsReadable (s.file f) vn
      → file_read ops f len s v
        ≡ after_read ops f s (vfs_read ops (s.file f).vn len (s.file f).off v)
  unfolding file_read
  file_read-open f len s r = rw (r.readable) refl

  file_read-eq :
      (f len : ℕ) (s : Files)
      → IsReadable (s.file f) vn
      → let off = (s.file f).off in
        let n = min len (size - off) in
        file_read ops f len s v ≡ (ok (slice bytes off n), moved ops f n s)
  unfolding after_read
  file_read-eq f len s r =
      let off : ℕ = (s.file f).off in
      file_read-open f len s r
      ∙ ap (λ o. after_read ops f s (vfs_read ops o len off v)) r.vnode
      ∙ ap (after_read ops f s) (vfs_read-content len off)
      ∙ ap (λ n. (ok (slice bytes off (min len (size - off))), moved ops f n s))
          (length-slice bytes off (min len (size - off)))

  seek-off : (f off : ℕ) (s : Files) → ((seek ops f off s).file f).off ≡ off
  seek-off f off s = ap (λ (x : File). x.off) (update_self s.file f _)

  seek-IsReadable :
      (f off : ℕ) (s : Files) → IsReadable (s.file f) vn → IsReadable ((seek ops f off s).file f) vn
  seek-IsReadable f off s r = record {
    readable = ap (λ (x : File). x.readable) (update_self s.file f _) ∙ r.readable;
    vnode = ap (λ (x : File). x.vn) (update_self s.file f _) ∙ r.vnode;
  }

  -- The offset moves over the bytes that were read, and the file stays readable.
  moved-Reads :
      (f n : ℕ) (s : Files)
      → IsReadable (s.file f) vn
      → n < 2 ^ 31
      → (s.file f).off + n < u64_mod
      → (((moved ops f n s).file f).off ≡ (s.file f).off + n)
        × IsReadable ((moved ops f n s).file f) vn
  moved-Reads f n s r small fits = elim (Bool-cases (is_positive ops n)) [
    | inl e ↦
        let at : add64 (s.file f).off (n % u32_mod) ≡ (s.file f).off + n = omega arith in
        rw e (
          seek-off f (add64 (s.file f).off (n % u32_mod)) s ∙ at,
          seek-IsReadable f (add64 (s.file f).off (n % u32_mod)) s r,
        )
    | inr e ↦ let nothing : n ≡ 0 = ground arith in rw e (omega arith, r)
  ]

  -- On a vnode with the content of a file, where the two lengths together are below 2^31 and the
  -- offset stays below 2^64, reading `len` bytes of a file and then `more` returns, put together, what
  -- reading `len + more` returns, and leaves the offset at the same place.
  pub file_read-file_read :
      (f len more : ℕ) (s : Files)
      → IsReadable (s.file f) vn
      → len + more < 2 ^ 31
      → (s.file f).off + len + more < u64_mod
      → (bs : List ℕ) × (cs : List ℕ) × (s1 : Files) × (s2 : Files) × (s' : Files) × (file_read ops
            f len s v
          ≡ (ok bs, s1))
        × (file_read ops f more s1 v ≡ (ok cs, s2))
        × (file_read ops f (len + more) s v ≡ (ok (bs ++ cs), s'))
        × ((s'.file f).off ≡ (s2.file f).off)
  file_read-file_read f len more s r small lt =
      let off : ℕ = (s.file f).off in
      let n : ℕ = min len (size - off) in
      let k : ℕ = min more (size - (off + n)) in
      let s1 : Files = moved ops f n s in
      let (at, r1) = moved-Reads f n s r (omega arith) (omega arith) in
      let second : file_read ops f more s1 v ≡ (ok (slice bytes (off + n) k), moved ops f k s1) =
        file_read-eq f more s1 r1
        ∙ ap (λ o. (ok (slice bytes o (min more (size - o))), moved ops f (min more (size - o)) s1))
            at in
      let whole : min (len + more) (size - off) ≡ n + k = omega arith in
      let third : file_read ops f (len + more) s v
          ≡ (ok (slice bytes off n ++ slice bytes (off + n) k), moved ops f (n + k) s) =
        file_read-eq f (len + more) s r
        ∙ ap (λ m. (ok (slice bytes off m), moved ops f m s)) whole
        ∙ ap (λ bs. (ok bs, moved ops f (n + k) s)) (slice-split bytes off n k) in
      let (at2, r2) = moved-Reads f k s1 r1 (omega arith) (omega (arith, at)) in
      let (at3, r3) = moved-Reads f (n + k) s r (omega arith) (omega arith) in
      (
        slice bytes off n,
        slice bytes (off + n) k,
        s1,
        moved ops f k s1,
        moved ops f (n + k) s,
        file_read-eq f len s r,
        second,
        third,
        omega (arith, at, at2, at3),
      )
