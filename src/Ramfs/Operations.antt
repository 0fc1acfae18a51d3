-- ===== src/Ramfs/Operations.antt =====
-- The operations that ramfs.c puts behind a vnode (`g_ramfs_ops`).
use os_agent_lab.Prelude.{ℕ, ◌≡◌, refl, true}
use os_agent_lab.Vnode.{OpsTable}
use os_agent_lab.File.Io.{VnodeOps}
use os_agent_lab.File.Io.Sequence.{HasContent}
use os_agent_lab.Ramfs.{Ramfs, is_file, ramfs_read, ramfs_write, ramfs_truncate}
use os_agent_lab.Ramfs.Content.{ramfs_read_lem}

-- vn->data
abbrev pub behind : ℕ → Ramfs → ℕ
behind vn s = (s.pool.vnode vn).node

abbrev pub ramfs_ops : VnodeOps Ramfs
ramfs_ops = record {
  vnode = λ s vn. s.pool.vnode vn;
  read = λ vn len off s. ramfs_read (behind vn s) len off s;
  write = λ vn buf off s. ramfs_write (behind vn s) buf off s;
  truncate = λ vn size s. ramfs_truncate (behind vn s) size s;
}

-- A vnode of a ramfs file has the content that its node holds.
pub ramfs_ops-HasContent :
    (s : Ramfs) (vn : ℕ)
    → (s.pool.vnode vn).ops ≡ OpsTable.ramfs
    → is_file (s.nodes (behind vn s)) ≡ true
    → HasContent ramfs_ops s vn (s.nodes (behind vn s)).bytes (s.nodes (behind vn s)).size
ramfs_ops-HasContent s vn t f = record {
  table = rw t refl;
  reads = λ len off. ramfs_read_lem s (behind vn s) len off f;
}
