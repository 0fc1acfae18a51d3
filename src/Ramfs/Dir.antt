-- ===== src/Ramfs/Dir.antt =====
-- The directory operations of ramfs.c. The children of a directory hang on a chain of siblings.
pub mod Children
pub mod Created
pub mod Removed
use os_agent_lab.Prelude.{
  update, ℕ, zero, suc, ◌+◌, ◌-◌, Bool, true, false, ◌&&◌, Option, none, some, List, [], ◌∷◌, ◌==◌,
  if◌then◌else◌, Result, ok, err, Errno, eisdir, enoent, enomem, eexist, enotempty,
}
use os_agent_lab.Vnode.{Vnode, Pool, NodeType}
use os_agent_lab.Names.{name_eq_nocase}
use os_agent_lab.Ramfs.{Node, Ramfs, max_nodes, set_node, is_dir, ramfs_alloc_node, ramfs_wrap_node}

-- How the loop over the children ends: without a match, at one (with the child before it), or, on a
-- chain longer than the array of nodes, not within its fuel.
pub data Scan : Type 0 where
  ended : Scan
  found : Option ℕ → ℕ → Scan
  endless : Scan

pub find_child : ℕ → Option ℕ → Option ℕ → List ℕ → Ramfs → Scan
find_child fuel prev none name s = ended
find_child zero prev (some c) name s = endless
find_child (suc fuel) prev (some c) name s =
    let rest = find_child fuel (some c) (s.nodes c).sibling name s in
    if name_eq_nocase (s.nodes c).name name then found prev c else rest

-- The node behind a directory's vnode, and the search among its children.
abbrev pub node_of : ℕ → Ramfs → ℕ
node_of dir s = (s.pool.vnode dir).node

pub search_dir : ℕ → List ℕ → Ramfs → Scan
unfolding find_child
search_dir d name s = find_child max_nodes none (s.nodes d).child name s

-- The end of the functions that hand out a vnode.
pub hand_out : ℕ → ℕ → Ramfs → Option (Result (Option ℕ) × Ramfs)
hand_out dir c s = let (vn, s') = ramfs_wrap_node c (some dir) s in some (ok vn, s')

pub looked_up : ℕ → Ramfs → Scan → Option (Result (Option ℕ) × Ramfs)
unfolding hand_out
looked_up dir s ended = some (err enoent, s)
looked_up dir s (found prev c) = hand_out dir c s
looked_up dir s endless = none

pub ramfs_lookup : ℕ → List ℕ → Ramfs → Option (Result (Option ℕ) × Ramfs)
unfolding looked_up search_dir
ramfs_lookup dir name s = looked_up dir s (search_dir (node_of dir s) name s)

-- The new node `i` becomes the first child of `d`.
pub adopt : NodeType → List ℕ → ℕ → ℕ → Ramfs → Ramfs
adopt type name d i s =
    let s' =
      set_node i
        (record (s.nodes i) {
          type = type;
          name = name;
          parent = some d;
          sibling = (s.nodes d).child;
        })
        s in
    set_node d (record (s'.nodes d) { child = some i }) s'

pub made_child : NodeType → ℕ → List ℕ → Option ℕ × Ramfs → Option (Result (Option ℕ) × Ramfs)
unfolding adopt hand_out
made_child type dir name (none, s) = some (err enomem, s)
made_child type dir name (some i, s) = hand_out dir i (adopt type name (node_of dir s) i s)

pub created : ℕ → List ℕ → Ramfs → Scan → Option (Result (Option ℕ) × Ramfs)
unfolding made_child
created dir name s ended = made_child NodeType.file dir name (ramfs_alloc_node s)
created dir name s (found prev c) =
    if is_dir (s.nodes c) then some (err eisdir, s) else hand_out dir c s
created dir name s endless = none

pub ramfs_create : ℕ → List ℕ → Ramfs → Option (Result (Option ℕ) × Ramfs)
unfolding created search_dir
ramfs_create dir name s = created dir name s (search_dir (node_of dir s) name s)

pub made_dir : ℕ → List ℕ → Ramfs → Scan → Option (Result (Option ℕ) × Ramfs)
unfolding made_child
made_dir dir name s ended = made_child NodeType.dir dir name (ramfs_alloc_node s)
made_dir dir name s (found prev c) =
    if is_dir (s.nodes c) then hand_out dir c s else some (err eexist, s)
made_dir dir name s endless = none

pub ramfs_mkdir : ℕ → List ℕ → Ramfs → Option (Result (Option ℕ) × Ramfs)
unfolding made_dir search_dir
ramfs_mkdir dir name s = made_dir dir name s (search_dir (node_of dir s) name s)

abbrev pub has_child : Node → Bool
has_child x = elim x.child [ none ↦ false | some _ ↦ true ]

-- The chain goes past `c`, from the child before it or from the directory.
pub unlinked : ℕ → Option ℕ → ℕ → Ramfs → Ramfs
unlinked d none c s = set_node d (record (s.nodes d) { child = (s.nodes c).sibling }) s
unlinked d (some p) c s = set_node p (record (s.nodes p) { sibling = (s.nodes c).sibling }) s

pub dropped : ℕ → Ramfs → Scan → Option (Result (Unit {0}) × Ramfs)
unfolding unlinked
dropped d s ended = some (err enoent, s)
dropped d s (found prev c) =
    let s' = unlinked d prev c s in
    if is_dir (s.nodes c) && has_child (s.nodes c)
    then some (err enotempty, s)
    else some (ok tt, set_node c (record (s'.nodes c) { used = false }) s')
dropped d s endless = none

pub ramfs_unlink : ℕ → List ℕ → Ramfs → Option (Result (Unit {0}) × Ramfs)
unfolding dropped search_dir
ramfs_unlink dir name s = dropped (node_of dir s) s (search_dir (node_of dir s) name s)
