-- ===== src/File/Io.antt =====
-- Reading, writing and truncating an open file: file.c over the operations of a vnode (vfs.c).
pub mod Sequence
use os_agent_lab.Prelude.{
  update, ℕ, ◌+◌, ◌-◌, Bool, true, false, Option, none, some, List, ◌==◌, ltb, if◌then◌else◌, add64,
  ◌%◌, ◌^◌, ◌&&◌, u32_mod, length, Result, ok, err, Errno, ebadf, einval, enosys,
}
use os_agent_lab.Vnode.{Vnode, OpsTable}
use os_agent_lab.File.{File, Files}

-- The vnodes and the state of their file systems, with the operations that a vnode's table holds.
pub record VnodeOps (V : Type 0) : Type 0 where
  pub vnode : V → ℕ → Vnode
  pub read : ℕ → ℕ → ℕ → V → Result (List ℕ)
  pub write : ℕ → List ℕ → ℕ → V → Result ℕ × V
  pub truncate : ℕ → ℕ → V → Result (Unit {0}) × V

module _ {V : Type 0} (ops : VnodeOps V) where
  -- vn->ops, as a test
  abbrev pub has_table : ℕ → V → Bool
  has_table vn v = elim (ops.vnode v vn).ops [ OpsTable.null ↦ false | _ ↦ true ]

  pub vfs_read : Option ℕ → ℕ → ℕ → V → Result (List ℕ)
  vfs_read none len offset v = err einval
  vfs_read (some vn) len offset v = if has_table vn v then ops.read vn len offset v else err enosys

  pub vfs_write : Option ℕ → List ℕ → ℕ → V → Result ℕ × V
  vfs_write none buf offset v = (err einval, v)
  vfs_write (some vn) buf offset v =
      if has_table vn v then ops.write vn buf offset v else (err enosys, v)

  pub vfs_truncate : Option ℕ → ℕ → V → Result (Unit {0}) × V
  vfs_truncate none size v = (err einval, v)
  vfs_truncate (some vn) size v = if has_table vn v then ops.truncate vn size v else (err enosys, v)

  -- f->off = off
  abbrev pub seek : ℕ → ℕ → Files → Files
  seek f off s = record s { file = update s.file f (record (s.file f) { off = off }) }

  -- n > 0, for the `int n` that is handed on as 32 bits.
  abbrev pub is_positive : ℕ → Bool
  is_positive n = ltb 0 (n % u32_mod) && ltb (n % u32_mod) (2 ^ 31)

  -- if (n > 0) f->off += (uint64_t)n
  abbrev pub moved : ℕ → ℕ → Files → Files
  moved f n s = if is_positive n then seek f (add64 (s.file f).off (n % u32_mod)) s else s

  -- The bytes are those in the buffer; their number is returned as an `int`.
  pub after_read : ℕ → Files → Result (List ℕ) → Result (List ℕ) × Files
  after_read f s (ok bs) = (ok bs, moved f (length bs) s)
  after_read f s (err e) = (err e, s)

  pub file_read : ℕ → ℕ → Files → V → Result (List ℕ) × Files
  unfolding after_read vfs_read
  file_read f len s v =
      let x = s.file f in
      if x.readable then after_read f s (vfs_read x.vn len x.off v) else (err ebadf, s)

  pub after_write : ℕ → Files → Result ℕ × V → Result ℕ × Files × V
  after_write f s (ok n, v) = (ok n, moved f n s, v)
  after_write f s (err e, v) = (err e, s, v)

  pub file_write : ℕ → List ℕ → Files → V → Result ℕ × Files × V
  unfolding after_write vfs_write
  file_write f buf s v =
      let x = s.file f in
      if x.writable then after_write f s (vfs_write x.vn buf x.off v) else (err ebadf, s, v)

  pub after_truncate : ℕ → ℕ → Files → Result (Unit {0}) × V → Result (Unit {0}) × Files × V
  after_truncate f size s (ok u, v) =
      (ok u, (if ltb size (s.file f).off then seek f size s else s), v)
  after_truncate f size s (err e, v) = (err e, s, v)

  pub file_truncate : ℕ → ℕ → Files → V → Result (Unit {0}) × Files × V
  unfolding after_truncate vfs_truncate
  file_truncate f size s v =
      let x = s.file f in
      if x.writable then after_truncate f size s (vfs_truncate x.vn size v) else (err ebadf, s, v)
