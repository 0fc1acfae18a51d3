-- ===== src/Ramfs/Dir/Created.antt =====
-- A file or a directory made in a directory that has no child of that name.
use os_agent_lab.Prelude.{
  ℕ, zero, suc, ◌+◌, ◌≤◌, ◌≡◌, ◌≢◌, refl, sym, ap, subst, ◌∙◌, ◌⊎◌, inl, inr, true, false, Option,
  none, some, List, [], ◌∷◌, length, Bool-cases, update_self, update_ne, Option-cases, Result, ok,
  err, enomem,
}
use os_agent_lab.Vnode.{NodeType, Pool, vfs_alloc_vnode}
use os_agent_lab.Ramfs.{
  Node, Ramfs, max_nodes, set_node, find_node, fresh_node, ramfs_alloc_node, wrap_at,
  ramfs_wrap_node,
}
use os_agent_lab.Ramfs.Dir.{
  ended, adopt, made_child, hand_out, created, node_of, search_dir, ramfs_create, ramfs_mkdir,
  made_dir,
}
use os_agent_lab.Ramfs.Dir.Children.{
  NoneOf, Siblings, Children, first_named, search_dir-first_named, Siblings-set_node,
  Siblings-unused,
}

find_node-free : (left i j : ℕ) (s : Ramfs) → find_node left i s ≡ some j → (s.nodes j).used ≡ false
unfolding find_node
find_node-free zero i j s h = cc
find_node-free (suc left) i j s h = elim (Bool-cases (s.nodes i).used) [
  | inl e ↦ find_node-free left (i + 1) j s (rw e at h)
  | inr e ↦ let same : some i ≡ some j = rw e at h in let i_is_j : i ≡ j = cc in rw (← i_is_j) e
]

alloc-none : (s : Ramfs) → find_node max_nodes 0 s ≡ none → ramfs_alloc_node s ≡ (none, s)
unfolding ramfs_alloc_node
alloc-none s e = rw e refl

alloc-some :
    (s : Ramfs) (i : ℕ)
    → find_node max_nodes 0 s ≡ some i
    → ramfs_alloc_node s ≡ (some i, set_node i fresh_node s)
unfolding ramfs_alloc_node
alloc-some s i e = rw e refl

-- A vnode for a node changes the pool only.
wrap_at-pool :
    (node : ℕ) (parent : Option ℕ) (s : Ramfs) (r : Option ℕ × Pool)
    → (p : Pool) × ((wrap_at node parent s r).1 ≡ record s { pool = p })
unfolding wrap_at
wrap_at-pool node parent s (none, pool) = (pool, refl)
wrap_at-pool node parent s (some vn, pool) = (_, refl)

wrap-pool :
    (node : ℕ) (parent : Option ℕ) (s : Ramfs)
    → (p : Pool) × ((ramfs_wrap_node node parent s).1 ≡ record s { pool = p })
unfolding ramfs_wrap_node
wrap-pool node parent s = wrap_at-pool node parent s (vfs_alloc_vnode s.pool)

-- The new child `i` of `d`, and everything else as it was.
pub record Added (s : Ramfs) (d : ℕ) (cs : List ℕ) (type : NodeType) (name : List ℕ) (i : ℕ)
    (s' : Ramfs) : Type 0 where
  pub unused : (s.nodes i).used ≡ false
  pub children : Children s' d (i ∷ cs)
  pub named : (s'.nodes i).name ≡ name
  pub typed : (s'.nodes i).type ≡ type
  pub others : (j : ℕ) → j ≢ i → j ≢ d → s'.nodes j ≡ s.nodes j

module _ (s : Ramfs) (d i : ℕ) (cs : List ℕ) (type : NodeType) (name : List ℕ) (c : Children s d cs)
    (free : (s.nodes i).used ≡ false) where
  apart : i ≢ d
  apart e = let u : (s.nodes i).used ≡ true = rw e (c.used) in cc

  none_of : NoneOf i cs
  none_of = Siblings-unused s i (s.nodes d).child cs free c.chain

  taken : Ramfs
  taken = set_node i fresh_node s

  stored_child : Node
  stored_child = record (taken.nodes i) {
    type = type;
    name = name;
    parent = some d;
    sibling = (taken.nodes d).child;
  }

  mid : Ramfs
  mid = set_node i stored_child taken

  stored_dir : Node
  stored_dir = record (mid.nodes d) { child = some i }

  t : Ramfs
  t = set_node d stored_dir mid

  adopt-eq : adopt type name d i taken ≡ t
  unfolding adopt t stored_dir mid stored_child
  adopt-eq = refl

  child_node : Node
  child_node = record fresh_node {
    type = type;
    name = name;
    parent = some d;
    sibling = (s.nodes d).child;
  }

  taken_here : taken.nodes i ≡ fresh_node
  unfolding taken
  taken_here = update_self s.nodes i fresh_node

  taken_there : (j : ℕ) → j ≢ i → taken.nodes j ≡ s.nodes j
  unfolding taken
  taken_there j ne = update_ne s.nodes i fresh_node j ne

  mid_here : mid.nodes i ≡ stored_child
  unfolding mid
  mid_here = update_self taken.nodes i stored_child

  mid_there : (j : ℕ) → j ≢ i → mid.nodes j ≡ s.nodes j
  unfolding mid
  mid_there j ne = update_ne taken.nodes i stored_child j ne ∙ taken_there j ne

  stored_child-eq : stored_child ≡ child_node
  unfolding stored_child child_node
  stored_child-eq = rw (taken_here, taken_there d (λ e. apart (sym e))) refl

  at_i : t.nodes i ≡ child_node
  unfolding t
  at_i = update_ne mid.nodes d stored_dir i apart ∙ mid_here ∙ stored_child-eq

  at_d : t.nodes d ≡ record (s.nodes d) { child = some i }
  unfolding t stored_dir
  at_d =
      update_self mid.nodes d stored_dir
      ∙ ap (λ (x : Node). record x { child = some i }) (mid_there d (λ e. apart (sym e)))

  at_other : (j : ℕ) → j ≢ i → j ≢ d → t.nodes j ≡ s.nodes j
  unfolding t
  at_other j ni nd = update_ne mid.nodes d stored_dir j nd ∙ mid_there j ni

  old_chain : Siblings t (s.nodes d).child cs
  unfolding t mid taken
  old_chain = Siblings-set_node mid stored_dir d (s.nodes d).child cs c.apart (
      Siblings-set_node taken stored_child i (s.nodes d).child cs none_of
        (Siblings-set_node s fresh_node i (s.nodes d).child cs none_of c.chain))

  adopted-Added : Added s d cs type name i t
  unfolding child_node
  adopted-Added = record {
    unused = free;
    children = record {
      used = rw at_d (c.used);
      chain = rw at_d (refl, ap (λ (x : Node). x.used) at_i, none_of, rw at_i old_chain);
      apart = ((λ e. apart (sym e)), c.apart);
    };
    named = ap (λ (x : Node). x.name) at_i;
    typed = ap (λ (x : Node). x.type) at_i;
    others = at_other;
  }

-- How `ramfs_create` and `ramfs_mkdir` end where there is no child of that name.
abbrev pub MakeOutcome :
    Ramfs → ℕ → List ℕ → NodeType → List ℕ → Option (Result (Option ℕ) × Ramfs) → Type 0
MakeOutcome s d cs type name r =
    (r ≡ some (err enomem, s))
    ⊎ ((i : ℕ) × (vn : Option ℕ) × (s' : Ramfs) × (r ≡ some (ok vn, s'))
        × Added s d cs type name i s')

Siblings-pool :
    (s : Ramfs) (p : Pool) (cur : Option ℕ) (cs : List ℕ)
    → Siblings s cur cs
    → Siblings (record s { pool = p }) cur cs
Siblings-pool s p cur [] h = h
Siblings-pool s p cur (c ∷ cs) h = (h.0, h.1, h.2, Siblings-pool s p (s.nodes c).sibling cs h.3)

-- Only the pool differs.
Added-pool :
    (s s' : Ramfs) (d i : ℕ) (cs name : List ℕ) (type : NodeType) (p : Pool)
    → Added s d cs type name i s'
    → Added s d cs type name i (record s' { pool = p })
Added-pool s s' d i cs name type p a = record {
  unused = a.unused;
  children = record {
    used = a.children.used;
    chain = Siblings-pool s' p (s'.nodes d).child (i ∷ cs) a.children.chain;
    apart = a.children.apart;
  };
  named = a.named;
  typed = a.typed;
  others = a.others;
}

made_child-MakeOutcome :
    (dir : ℕ) (cs name : List ℕ) (type : NodeType) (s : Ramfs)
    → Children s (node_of dir s) cs
    → MakeOutcome s (node_of dir s) cs type name (made_child type dir name (ramfs_alloc_node s))
unfolding made_child hand_out taken
made_child-MakeOutcome dir cs name type s c = elim (Option-cases (find_node max_nodes 0 s)) [
  | inl e ↦ inl (ap (made_child type dir name) (alloc-none s e))
  | inr (i, e) ↦
      let free : (s.nodes i).used ≡ false = find_node-free max_nodes 0 i s e in
      let d : ℕ = node_of dir s in
      let u : Ramfs = t s d i cs type name c free in
      let w = wrap-pool i (some dir) u in
      inr (
        i,
        (ramfs_wrap_node i (some dir) u).0,
        (ramfs_wrap_node i (some dir) u).1,
        ap (made_child type dir name) (alloc-some s i e)
            ∙ ap (hand_out dir i) (adopt-eq s d i cs type name c free),
        subst (Added s d cs type name i) (sym w.1)
            (Added-pool s u d i cs name type w.0 (adopted-Added s d i cs type name c free)),
      )
]

-- In a directory of at most 128 children, none of which has the name, `ramfs_create` fails with
-- ENOMEM and changes nothing, or it adds a file of that name in front of the children: a node that
-- was not in use; the other children and all other nodes are as they were.
pub ramfs_create-MakeOutcome :
    (dir : ℕ) (cs name : List ℕ) (s : Ramfs)
    → Children s (node_of dir s) cs
    → length cs ≤ max_nodes
    → first_named none cs name s ≡ ended
    → MakeOutcome s (node_of dir s) cs NodeType.file name (ramfs_create dir name s)
unfolding ramfs_create created
ramfs_create-MakeOutcome dir cs name s c le none_named =
    let no_match : search_dir (node_of dir s) name s ≡ ended =
      search_dir-first_named (node_of dir s) cs name s c le ∙ none_named in
    subst (MakeOutcome s (node_of dir s) cs NodeType.file name)
      (sym (ap (created dir name s) no_match))
      (made_child-MakeOutcome dir cs name NodeType.file s c)

-- In a directory of at most 128 children, none of which has the name, `ramfs_mkdir` fails with
-- ENOMEM and changes nothing, or it adds a directory of that name in front of the children: a node
-- that was not in use; the other children and all other nodes are as they were.
pub ramfs_mkdir-MakeOutcome :
    (dir : ℕ) (cs name : List ℕ) (s : Ramfs)
    → Children s (node_of dir s) cs
    → length cs ≤ max_nodes
    → first_named none cs name s ≡ ended
    → MakeOutcome s (node_of dir s) cs NodeType.dir name (ramfs_mkdir dir name s)
unfolding ramfs_mkdir made_dir
ramfs_mkdir-MakeOutcome dir cs name s c le none_named =
    let no_match : search_dir (node_of dir s) name s ≡ ended =
      search_dir-first_named (node_of dir s) cs name s c le ∙ none_named in
    subst (MakeOutcome s (node_of dir s) cs NodeType.dir name)
      (sym (ap (made_dir dir name s) no_match))
      (made_child-MakeOutcome dir cs name NodeType.dir s c)
