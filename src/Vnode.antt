-- ===== src/Vnode.antt =====
-- The vnode pool of GPT-5.2-Codex/code/kernel/vfs.c. A pointer to a vnode is its index.
use os_agent_lab.Prelude.{
  update, ℕ, zero, suc, ◌+◌, Bool, true, false, Option, none, some, List, [], if◌then◌else◌,
}

-- enum vnode_type; `unset` is the 0 that memset leaves.
pub data NodeType : Type 0 where
  unset : NodeType
  file : NodeType
  dir : NodeType

-- `vn->ops`: NULL, or the table of one of the two file systems.
pub data OpsTable : Type 0 where
  null : OpsTable
  ramfs : OpsTable
  fat32 : OpsTable

-- struct vnode; `node` is its `data`, the index of a node of the file system.
pub record Vnode : Type 0 where
  pub type : NodeType
  pub ops : OpsTable
  pub node : ℕ
  pub parent : Option ℕ
  pub name : List ℕ
  pub refcnt : ℕ

-- g_vnode_pool and g_vnode_used
pub record Pool : Type 0 where
  pub vnode : ℕ → Vnode
  pub used : ℕ → Bool

-- VNODE_POOL_SIZE
abbrev pub vnode_pool_size : ℕ
vnode_pool_size = 256

-- memset(&g_vnode_pool[i], 0, …) and refcnt = 1
abbrev pub fresh_vnode : Vnode
fresh_vnode = record {
  type = NodeType.unset;
  ops = OpsTable.null;
  node = 0;
  parent = none;
  name = [];
  refcnt = 1;
}

-- The scan of `vfs_alloc_vnode`: the first unused index at or after `i`, among `left` ones.
pub find_vnode : ℕ → ℕ → Pool → Option ℕ
find_vnode zero i s = none
find_vnode (suc left) i s =
    let rest = find_vnode left (i + 1) s in if s.used i then rest else some i

pub take_vnode : Pool → Option ℕ → Option ℕ × Pool
take_vnode s none = (none, s)
take_vnode s (some i) =
    (some i, record { vnode = update s.vnode i fresh_vnode; used = update s.used i true })

unfoldable pub vfs_alloc_vnode : Pool → Option ℕ × Pool
unfolding find_vnode take_vnode
vfs_alloc_vnode s = take_vnode s (find_vnode vnode_pool_size 0 s)

pub vfs_free_vnode : ℕ → Pool → Pool
vfs_free_vnode vn s = record s { used = update s.used vn false }
