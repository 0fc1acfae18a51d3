-- ===== src/Ramfs.antt =====
-- The memory file system, GPT-5.2-Codex/code/kernel/ramfs.c: 128 nodes, each with its bytes, whose
-- children hang on a chain of siblings. A pointer to a node is its index.
pub mod Content
pub mod Truncate
pub mod Operations
pub mod Dir
use os_agent_lab.Prelude.{
  update, ℕ, zero, suc, ◌+◌, ◌-◌, Bool, true, false, Option, none, some, List, [], ◌∷◌, ◌==◌, leb,
  ltb, if◌then◌else◌, add64, min, take, length, Result, ok, err, Errno, eisdir, enoent, enomem,
  eexist, enotempty,
}
use os_agent_lab.Phys.{Bytes, slice, write_bytes, memset}
use os_agent_lab.Vnode.{Vnode, Pool, NodeType, OpsTable, vfs_alloc_vnode}
use os_agent_lab.Names.{name_eq_nocase}

-- struct ramfs_node; `bytes` is its `data`.
pub record Node : Type 0 where
  pub used : Bool
  pub type : NodeType
  pub name : List ℕ
  pub parent : Option ℕ
  pub child : Option ℕ
  pub sibling : Option ℕ
  pub size : ℕ
  pub bytes : Bytes

-- g_nodes, and the vnode pool that the operations take vnodes from.
pub record Ramfs : Type 0 where
  pub nodes : ℕ → Node
  pub pool : Pool

abbrev pub max_nodes : ℕ
max_nodes = 128

abbrev pub max_file_size : ℕ
max_file_size = 4096

abbrev pub set_node : ℕ → Node → Ramfs → Ramfs
set_node i x s = record s { nodes = update s.nodes i x }

-- memset(&g_nodes[i], 0, …) and used = 1
abbrev pub fresh_node : Node
fresh_node = record {
  used = true;
  type = NodeType.unset;
  name = [];
  parent = none;
  child = none;
  sibling = none;
  size = 0;
  bytes = λ _. 0;
}

pub find_node : ℕ → ℕ → Ramfs → Option ℕ
find_node zero i s = none
find_node (suc left) i s =
    let rest = find_node left (i + 1) s in if (s.nodes i).used then rest else some i

pub take_node : Ramfs → Option ℕ → Option ℕ × Ramfs
take_node s none = (none, s)
take_node s (some i) = (some i, set_node i fresh_node s)

pub ramfs_alloc_node : Ramfs → Option ℕ × Ramfs
unfolding find_node take_node
ramfs_alloc_node s = take_node s (find_node max_nodes 0 s)

-- The fields that `ramfs_wrap_node` gives its vnode; with no parent it is its own.
abbrev pub wrapped : ℕ → ℕ → Option ℕ → Node → Vnode → Vnode
wrapped vn node parent x v = record v {
  type = x.type;
  ops = OpsTable.ramfs;
  node = node;
  parent = elim parent [ none ↦ some vn | some p ↦ some p ];
  name = x.name;
}

pub wrap_at : ℕ → Option ℕ → Ramfs → Option ℕ × Pool → Option ℕ × Ramfs
wrap_at node parent s (none, pool) = (none, record s { pool = pool })
wrap_at node parent s (some vn, pool) = (
  some vn,
  record s {
    pool = record pool {
      vnode = update pool.vnode vn (wrapped vn node parent (s.nodes node) (pool.vnode vn));
    };
  },
)

pub ramfs_wrap_node : ℕ → Option ℕ → Ramfs → Option ℕ × Ramfs
unfolding wrap_at
ramfs_wrap_node node parent s = wrap_at node parent s (vfs_alloc_vnode s.pool)

-- Whether a node is a regular file.
abbrev pub is_file : Node → Bool
is_file x = elim x.type [ NodeType.file ↦ true | _ ↦ false ]

abbrev pub is_dir : Node → Bool
is_dir x = elim x.type [ NodeType.dir ↦ true | _ ↦ false ]

-- `ramfs_read` of the node behind the vnode: the bytes that go to `buf`, whose number is returned.
pub ramfs_read : ℕ → ℕ → ℕ → Ramfs → Result (List ℕ)
ramfs_read node len offset s =
    let x = s.nodes node in
    let left = x.size - offset in
    let to_copy = if ltb len left then len else left in
    if is_file x
    then if leb x.size offset then ok [] else ok (slice x.bytes offset to_copy)
    else err eisdir

-- The bytes that `ramfs_write` copies.
abbrev pub clipped : ℕ → ℕ → ℕ
clipped len offset = if ltb max_file_size (add64 offset len) then max_file_size - offset else len

pub ramfs_write : ℕ → List ℕ → ℕ → Ramfs → Result ℕ × Ramfs
ramfs_write node buf offset s =
    let x = s.nodes node in
    let to_copy = clipped (length buf) offset in
    let end = add64 offset to_copy in
    let x' = record x {
      bytes = write_bytes x.bytes offset (take to_copy buf);
      size = if ltb x.size end then end else x.size;
    } in
    if is_file x
    then if leb max_file_size offset then (ok 0, s) else (ok to_copy, set_node node x' s)
    else (err eisdir, s)

pub ramfs_truncate : ℕ → ℕ → Ramfs → Result (Unit {0}) × Ramfs
ramfs_truncate node size s =
    let x = s.nodes node in
    let size' = if ltb max_file_size size then max_file_size else size in
    let cut = if ltb size' x.size then memset x.bytes size' 0 (x.size - size') else x.bytes in
    if is_file x
    then (ok tt, set_node node (record x { bytes = cut; size = size' }) s)
    else (err eisdir, s)
