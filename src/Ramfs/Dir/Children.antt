-- ===== src/Ramfs/Dir/Children.antt =====
-- The children of a directory as a list, and the search in it.
use os_agent_lab.Prelude.{
  update, ℕ, zero, suc, ◌≤◌, ◌≡◌, ◌≢◌, refl, sym, ap, true, false, Option, none, some, List, [],
  ◌∷◌, length, arith, if◌then◌else◌, update_ne,
}
use os_agent_lab.Names.{name_eq_nocase}
use os_agent_lab.Ramfs.{Node, Ramfs, max_nodes, set_node}
use os_agent_lab.Ramfs.Dir.{Scan, ended, found, find_child, search_dir}

-- `x` is none of `cs`.
abbrev pub NoneOf : ℕ → List ℕ → Type 0
NoneOf x [] = Unit {0}
NoneOf x (c ∷ cs) = (x ≢ c) × NoneOf x cs

-- From `cur` the siblings are `cs`: nodes in use, no two the same.
abbrev pub Siblings : Ramfs → Option ℕ → List ℕ → Type 0
Siblings s cur [] = cur ≡ none
Siblings s cur (c ∷ cs) =
    (cur ≡ some c) × ((s.nodes c).used ≡ true) × NoneOf c cs × Siblings s (s.nodes c).sibling cs

-- The children of `d`.
pub record Children (s : Ramfs) (d : ℕ) (cs : List ℕ) : Type 0 where
  pub used : (s.nodes d).used ≡ true
  pub chain : Siblings s (s.nodes d).child cs
  pub apart : NoneOf d cs

-- The first of `cs` with that name, and the one before it (`prev` before all of them).
abbrev pub first_named : Option ℕ → List ℕ → List ℕ → Ramfs → Scan
first_named prev [] name s = ended
first_named prev (c ∷ cs) name s =
    if name_eq_nocase (s.nodes c).name name then found prev c else first_named (some c) cs name s

find_child-first_named :
    (fuel : ℕ) (prev cur : Option ℕ) (cs name : List ℕ) (s : Ramfs)
    → Siblings s cur cs
    → length cs ≤ fuel
    → find_child fuel prev cur name s ≡ first_named prev cs name s
unfolding find_child
find_child-first_named zero prev cur [] name s h le = rw h refl
find_child-first_named (suc fuel) prev cur [] name s h le = rw h refl
find_child-first_named zero prev cur (c ∷ cs) name s h le = absurd (omega arith)
find_child-first_named (suc fuel) prev cur (c ∷ cs) name s h le = rw (h.0) (
    ap (λ r. if name_eq_nocase (s.nodes c).name name then found prev c else r)
      (find_child-first_named fuel (some c) (s.nodes c).sibling cs name s h.3 (omega arith)))

-- The search in a directory ends at the first child with that name, if there is one, where the
-- directory has at most 128 children.
pub search_dir-first_named :
    (d : ℕ) (cs name : List ℕ) (s : Ramfs)
    → Children s d cs
    → length cs ≤ max_nodes
    → search_dir d name s ≡ first_named none cs name s
unfolding search_dir
search_dir-first_named d cs name s h le =
    find_child-first_named max_nodes none (s.nodes d).child cs name s h.chain le

-- A node that is none of the siblings can change.
pub Siblings-set_node :
    (s : Ramfs) (x : Node) (i : ℕ) (cur : Option ℕ) (cs : List ℕ)
    → NoneOf i cs
    → Siblings s cur cs
    → Siblings (set_node i x s) cur cs
Siblings-set_node s x i cur [] n h = h
Siblings-set_node s x i cur (c ∷ cs) n h =
    let kept : update s.nodes i x c ≡ s.nodes c = update_ne s.nodes i x c (λ e. n.0 (sym e)) in
    (h.0, rw kept (h.1), h.2, rw kept (Siblings-set_node s x i (s.nodes c).sibling cs n.1 h.3))

-- A node that is not in use is none of them.
pub Siblings-unused :
    (s : Ramfs) (i : ℕ) (cur : Option ℕ) (cs : List ℕ)
    → (s.nodes i).used ≡ false
    → Siblings s cur cs
    → NoneOf i cs
Siblings-unused s i cur [] u h = tt
Siblings-unused s i cur (c ∷ cs) u h = (
  (λ e. let v : (s.nodes i).used ≡ true = rw e (h.1) in cc),
  Siblings-unused s i (s.nodes c).sibling cs u h.3,
)
