-- ===== src/Tests/Paths.antt =====
-- A ramfs with a root, node 0, that has the child "a", node 1; and a lookup over it.
use os_agent_lab.Prelude.{
  ℕ, ◌+◌, ◌≡◌, refl, true, false, List, [], ◌∷◌, ◌++◌, none, some, arith, ok, err, enoent, ◌==◌,
  if◌then◌else◌,
}
use os_agent_lab.Vnode.{Vnode, NodeType, OpsTable, fresh_vnode}
use os_agent_lab.Ramfs.{Node, Ramfs, fresh_node}
use os_agent_lab.Ramfs.Dir.{ramfs_unlink, ramfs_create}
use os_agent_lab.Ramfs.Dir.Children.{Children}
use os_agent_lab.Ramfs.Dir.Created.{MakeOutcome, ramfs_create-MakeOutcome}
use os_agent_lab.Ramfs.Dir.Removed.{without, ramfs_unlink-Children}
use os_agent_lab.Names.{name_eq_nocase}
use os_agent_lab.Path.Split.{names}
use os_agent_lab.Vfs.{Vfs, FileSystems, and_then, vfs_lookup_at, vfs_resolve_parent_at}
use os_agent_lab.Vfs.Enter.{StartsAt}
use os_agent_lab.Vfs.Walk.{walk_names, lookup_from, vfs_lookup_at-lookup_from, vfs_lookup_at-join}
use os_agent_lab.Vfs.Make.{vfs_create_at, vfs_mkdir_at, vfs_unlink_at}
use os_agent_lab.Vfs.Make.Ends.{Ends, operations-Ends}
use os_agent_lab.Vfs.Parent.{parent_from, vfs_resolve_parent_at-parent_from}

abbrev root_dir : Node
root_dir = record fresh_node { type = NodeType.dir; parent = some 0; child = some 1 }

abbrev child_a : Node
child_a = record fresh_node { type = NodeType.file; name = b'a' ∷ []; parent = some 0 }

abbrev unused_node : Node
unused_node = record fresh_node { used = false }

abbrev dir_vnode : Vnode
dir_vnode = record fresh_vnode { type = NodeType.dir; ops = OpsTable.ramfs; parent = some 0 }

abbrev small : Ramfs
small = record {
  nodes = λ i. if i == 0 then root_dir else (if i == 1 then child_a else unused_node);
  pool = record { vnode = λ i. dir_vnode; used = λ i. i == 0 };
}

small-Children : Children small 0 (1 ∷ [])
small-Children = record { used = refl; chain = (refl, refl, tt, refl); apart = (omega arith, tt) }

ramfs_create-MakeOutcome_example :
    MakeOutcome small 0 (1 ∷ []) NodeType.file (b'b' ∷ []) (ramfs_create 0 (b'b' ∷ []) small)
unfolding name_eq_nocase
ramfs_create-MakeOutcome_example =
    ramfs_create-MakeOutcome 0 (1 ∷ []) (b'b' ∷ []) small small-Children (omega arith) refl

ramfs_unlink-Children_example :
    (s' : Ramfs) × (ramfs_unlink 0 (b'A' ∷ []) small ≡ some (ok tt, s'))
    × Children s' 0 (without 1 (1 ∷ []))
    × ((s'.nodes 1).used ≡ false)
unfolding name_eq_nocase
ramfs_unlink-Children_example =
    ramfs_unlink-Children 0 (1 ∷ []) (b'A' ∷ []) none 1 small small-Children (omega arith) refl refl

-- Every directory has a child of every name: the vnode after its own.
abbrev next_fs : FileSystems (Unit {0})
next_fs = record {
  lookup = λ v name w. (ok (some (v + 1)), w);
  mkdir = λ v name w. (ok (some (v + 1)), w);
  create = λ v name w. (ok (some (v + 1)), w);
  unlink = λ v name w. (ok tt, w);
}

abbrev world : Vfs (Unit {0})
world = record { pool = small.pool; mounts = []; root = some 0; cwd = some 0; fs = tt }

abbrev elsewhere : Vfs (Unit {0})
elsewhere = record world { cwd = some 5 }

abbrev a_b : List ℕ
a_b = b'/' ∷ b'a' ∷ b'/' ∷ b'b' ∷ []

-- The path is absolute, and the root is 0 while the current directory is 5.
vfs_lookup_at-lookup_from_example :
    vfs_lookup_at next_fs none a_b elsewhere
    ≡ lookup_from next_fs (some 0) (names 255 a_b) elsewhere
vfs_lookup_at-lookup_from_example =
    vfs_lookup_at-lookup_from next_fs none a_b elsewhere (some 0)
      (StartsAt.absolute (b'a' ∷ b'/' ∷ b'b' ∷ []) refl refl)

vfs_lookup_at-join_example :
    vfs_lookup_at next_fs none (a_b ++ b'/' ∷ a_b) world
    ≡ and_then
        (vfs_lookup_at next_fs none a_b world)
        (λ cur w'. walk_names next_fs cur (names 255 a_b) w')
vfs_lookup_at-join_example = vfs_lookup_at-join next_fs none a_b a_b world (λ e. cc)

-- No directory has a child, and `mkdir` makes one.
abbrev empty_fs : FileSystems (Unit {0})
empty_fs = record next_fs { lookup = λ v name w. (err enoent, w) }

vfs_resolve_parent_at-parent_from_example :
    vfs_resolve_parent_at empty_fs none a_b true elsewhere
    ≡ parent_from empty_fs true (some 0) (names 255 a_b) elsewhere
vfs_resolve_parent_at-parent_from_example =
    vfs_resolve_parent_at-parent_from empty_fs none a_b true elsewhere (some 0)
      (StartsAt.absolute (b'a' ∷ b'/' ∷ b'b' ∷ []) refl refl)

operations-Ends_example :
    Ends (vfs_create_at next_fs none a_b world)
    × Ends (vfs_mkdir_at next_fs none a_b world)
    × Ends (vfs_unlink_at next_fs none a_b world)
operations-Ends_example = operations-Ends next_fs none a_b world
