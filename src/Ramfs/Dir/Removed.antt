-- ===== src/Ramfs/Dir/Removed.antt =====
-- A child taken out of its directory.
use os_agent_lab.Prelude.{
  ℕ, ◌≤◌, ◌≡◌, ◌≢◌, refl, sym, ap, subst, ◌∙◌, inl, inr, true, false, ◌&&◌, Option, none, some,
  List, [], ◌∷◌, length, arith, Bool-cases, if◌then◌else◌, update_self, update_ne, ◌==◌, ok,
  ℕ_discrete,
}
use os_agent_lab.Names.{name_eq_nocase}
use os_agent_lab.Ramfs.{Node, Ramfs, max_nodes, set_node, is_dir}
use os_agent_lab.Ramfs.Dir.{found, has_child, unlinked, dropped, node_of, search_dir, ramfs_unlink}
use os_agent_lab.Ramfs.Dir.Children.{
  NoneOf, Siblings, Children, first_named, search_dir-first_named, Siblings-set_node,
}

-- The list without its first `c`.
abbrev pub without : ℕ → List ℕ → List ℕ
without c [] = []
without c (x ∷ xs) = if x == c then xs else x ∷ without c xs

NoneOf-without : (z c : ℕ) (xs : List ℕ) → NoneOf z xs → NoneOf z (without c xs)
NoneOf-without z c [] h = tt
NoneOf-without z c (x ∷ xs) h = elim (Bool-cases (x == c)) [
  | inl e ↦ rw e (h.1)
  | inr e ↦ rw e (h.0, NoneOf-without z c xs h.1)
]

-- Distinct siblings hold `c` once at most.
without-NoneOf :
    (s : Ramfs) (cur : Option ℕ) (c : ℕ) (xs : List ℕ) → Siblings s cur xs → NoneOf c (without c xs)
without-NoneOf s cur c [] h = tt
without-NoneOf s cur c (x ∷ xs) h = elim (Bool-cases (x == c)) [
  | inl e ↦ let same : x ≡ c = ground arith in rw e (subst (λ z. NoneOf z xs) same (h.2))
  | inr e ↦
      let differ : c ≢ x = ground arith in
      rw e (differ, without-NoneOf s (s.nodes x).sibling c xs h.3)
]

found-prev : (p q : Option ℕ) (c d : ℕ) → found p c ≡ found q d → (p ≡ q) × (c ≡ d)
found-prev p q c d h = (cc, cc)

first_named-here :
    (prev : Option ℕ) (y : ℕ) (ys name : List ℕ) (s : Ramfs)
    → name_eq_nocase (s.nodes y).name name ≡ true
    → first_named prev (y ∷ ys) name s ≡ found prev y
first_named-here prev y ys name s e = rw e refl

first_named-later :
    (prev : Option ℕ) (y : ℕ) (ys name : List ℕ) (s : Ramfs)
    → name_eq_nocase (s.nodes y).name name ≡ false
    → first_named prev (y ∷ ys) name s ≡ first_named (some y) ys name s
first_named-later prev y ys name s e = rw e refl

-- The child that is found has the name, and is one of the children.
first_named-named :
    (prev p : Option ℕ) (c : ℕ) (xs name : List ℕ) (s : Ramfs)
    → first_named prev xs name s ≡ found p c
    → (name_eq_nocase (s.nodes c).name name ≡ true) × ((z : ℕ) → NoneOf z xs → z ≢ c)
first_named-named prev p c [] name s h = cc
first_named-named prev p c (y ∷ ys) name s h =
    elim (Bool-cases (name_eq_nocase (s.nodes y).name name)) [
      | inl e ↦
          let same : y ≡ c =
            (found-prev prev p y c (sym (first_named-here prev y ys name s e) ∙ h)).1 in
          (rw (← same) e, λ z n k. n.0 (k ∙ sym same))
      | inr e ↦
          let later =
            first_named-named (some y) p c ys name s
              (sym (first_named-later prev y ys name s e) ∙ h) in
          (later.0, λ z n. later.1 z n.1)
    ]

-- The chain behind `x`, once the child `c` in it is passed by: the state, and the node changed.
past : Ramfs → ℕ → ℕ → Ramfs
past s q c = set_node q (record (s.nodes q) { sibling = (s.nodes c).sibling }) s

past-used : (s : Ramfs) (q c z : ℕ) → ((past s q c).nodes z).used ≡ (s.nodes z).used
unfolding past
past-used s q c z = elim (ℕ_discrete z q) [
  | yes e ↦ rw (e, update_self s.nodes q _) refl
  | no ne ↦ rw (update_ne s.nodes q _ z ne) refl
]

past-here : (s : Ramfs) (q c : ℕ) → ((past s q c).nodes q).sibling ≡ (s.nodes c).sibling
unfolding past
past-here s q c = ap (λ (x : Node). x.sibling) (update_self s.nodes q _)

past-there : (s : Ramfs) (q c z : ℕ) → z ≢ q → (past s q c).nodes z ≡ s.nodes z
unfolding past
past-there s q c z ne = update_ne s.nodes q _ z ne

record PassedBy (s : Ramfs) (x : ℕ) (xs : List ℕ) (p : Option ℕ) (c q : ℕ) : Type 0 where
  is_prev : p ≡ some q
  within : (z : ℕ) → z ≢ x → NoneOf z xs → z ≢ q
  rest : Siblings (past s q c) ((past s q c).nodes x).sibling (without c xs)

passed_by-here :
    (x y : ℕ) (ys : List ℕ) (s : Ramfs)
    → NoneOf x ys
    → Siblings s (s.nodes y).sibling ys
    → Siblings (past s x y) ((past s x y).nodes x).sibling (without y (y ∷ ys))
unfolding past
passed_by-here x y ys s n h =
    let self : (y == y) ≡ true = ground arith in
    rw (past-here s x y, self) (Siblings-set_node s _ x (s.nodes y).sibling ys n h)

passed_by-later :
    (x y q c : ℕ) (ys : List ℕ) (s : Ramfs)
    → c ≢ y
    → x ≢ q
    → Siblings s (s.nodes x).sibling (y ∷ ys)
    → Siblings (past s q c) ((past s q c).nodes y).sibling (without c ys)
    → Siblings (past s q c) ((past s q c).nodes x).sibling (without c (y ∷ ys))
passed_by-later x y q c ys s ne nq h r =
    let differ : (y == c) ≡ false = ground arith in
    rw (differ, past-there s q c x nq) (h.0, past-used s q c y ∙ h.1, NoneOf-without y c ys h.2, r)

passed_by :
    (x : ℕ) (xs name : List ℕ) (p : Option ℕ) (c : ℕ) (s : Ramfs)
    → Siblings s (s.nodes x).sibling xs
    → NoneOf x xs
    → first_named (some x) xs name s ≡ found p c
    → (q : ℕ) × PassedBy s x xs p c q
passed_by x [] name p c s h n f = cc
passed_by x (y ∷ ys) name p c s h n f = elim (Bool-cases (name_eq_nocase (s.nodes y).name name)) [
  | inl e ↦
      let same : (some x ≡ p) × (y ≡ c) =
        found-prev (some x) p y c (sym (first_named-here (some x) y ys name s e) ∙ f) in
      (
        x,
        record {
          is_prev = sym same.0;
          within = λ z ne nz. ne;
          rest =
              subst (λ k. Siblings (past s x k) ((past s x k).nodes x).sibling (without k (y ∷ ys)))
                same.1 (passed_by-here x y ys s n.1 h.3);
        },
      )
  | inr e ↦
      let f' : first_named (some y) ys name s ≡ found p c =
        sym (first_named-later (some x) y ys name s e) ∙ f in
      let (q, b) = passed_by y ys name p c s h.3 h.2 f' in
      let ne : c ≢ y = λ k.
        let wrong : name_eq_nocase (s.nodes y).name name ≡ true =
          rw (← k) (first_named-named (some y) p c ys name s f').0 in
        cc in
      (
        q,
        record {
          is_prev = b.is_prev;
          within = λ z nx nz. b.within z nz.0 nz.1;
          rest = passed_by-later x y q c ys s ne (b.within x n.0 n.1) h b.rest;
        },
      )
]

unlinked-first :
    (d y : ℕ) (ys : List ℕ) (s : Ramfs)
    → Children s d (y ∷ ys)
    → Children (unlinked d none y s) d (without y (y ∷ ys))
unfolding unlinked
unlinked-first d y ys s h =
    let self : (y == y) ≡ true = ground arith in
    record {
      used = ap (λ (x : Node). x.used) (update_self s.nodes d _) ∙ h.used;
      chain =
          rw (self, update_self s.nodes d (record (s.nodes d) { child = (s.nodes y).sibling }))
            (Siblings-set_node s _ d (s.nodes y).sibling ys h.apart.1 h.chain.3);
      apart = NoneOf-without d y (y ∷ ys) h.apart;
    }

unlinked-later :
    (d y q c : ℕ) (ys : List ℕ) (s : Ramfs)
    → Children s d (y ∷ ys)
    → c ≢ y
    → PassedBy s y ys (some q) c q
    → Children (unlinked d (some q) c s) d (without c (y ∷ ys))
unfolding unlinked past
unlinked-later d y q c ys s h ne b =
    let differ : (y == c) ≡ false = ground arith in
    let apart : d ≢ q = b.within d h.apart.0 h.apart.1 in
    record {
      used = past-used s q c d ∙ h.used;
      chain =
          rw (differ, past-there s q c d apart)
            (h.chain.0, past-used s q c y ∙ h.chain.1, NoneOf-without y c ys h.chain.2, b.rest);
      apart = NoneOf-without d c (y ∷ ys) h.apart;
    }

-- The directory once the chain goes past `c`.
unlinked-Children :
    (d : ℕ) (cs name : List ℕ) (p : Option ℕ) (c : ℕ) (s : Ramfs)
    → Children s d cs
    → first_named none cs name s ≡ found p c
    → Children (unlinked d p c s) d (without c cs)
unlinked-Children d [] name p c s h f = cc
unlinked-Children d (y ∷ ys) name p c s h f =
    elim (Bool-cases (name_eq_nocase (s.nodes y).name name)) [
      | inl e ↦
          let same : (none ≡ p) × (y ≡ c) =
            found-prev none p y c (sym (first_named-here none y ys name s e) ∙ f) in
          subst (λ o. Children (unlinked d o c s) d (without c (y ∷ ys))) same.0
            (subst (λ k. Children (unlinked d none k s) d (without k (y ∷ ys))) same.1
              (unlinked-first d y ys s h))
      | inr e ↦
          let f' : first_named (some y) ys name s ≡ found p c =
            sym (first_named-later none y ys name s e) ∙ f in
          let (q, b) = passed_by y ys name p c s h.chain.3 h.chain.2 f' in
          let ne : c ≢ y = λ k.
            let wrong : name_eq_nocase (s.nodes y).name name ≡ true =
              rw (← k) (first_named-named (some y) p c ys name s f').0 in
            cc in
          let b' : PassedBy s y ys (some q) c q = record {
            is_prev = refl;
            within = b.within;
            rest = b.rest;
          } in
          subst (λ o. Children (unlinked d o c s) d (without c (y ∷ ys))) (sym b.is_prev)
            (unlinked-later d y q c ys s h ne b')
    ]

-- In a directory of at most 128 children, `ramfs_unlink` of a name that a child has, where that is
-- not a directory with children of its own, takes that child out of the list, keeps the others in
-- their order, and frees its node.
pub ramfs_unlink-Children :
    (dir : ℕ) (cs name : List ℕ) (p : Option ℕ) (c : ℕ) (s : Ramfs)
    → Children s (node_of dir s) cs
    → length cs ≤ max_nodes
    → first_named none cs name s ≡ found p c
    → (is_dir (s.nodes c) && has_child (s.nodes c)) ≡ false
    → (s' : Ramfs) × (ramfs_unlink dir name s ≡ some (ok tt, s'))
      × Children s' (node_of dir s) (without c cs)
      × ((s'.nodes c).used ≡ false)
unfolding ramfs_unlink dropped
ramfs_unlink-Children dir cs name p c s h le f leaf =
    let d : ℕ = node_of dir s in
    let t : Ramfs = unlinked d p c s in
    let x : Node = record (t.nodes c) { used = false } in
    let hit : search_dir d name s ≡ found p c = search_dir-first_named d cs name s h le ∙ f in
    let u : Children t d (without c cs) = unlinked-Children d cs name p c s h f in
    let apart : d ≢ c = (first_named-named none p c cs name s f).1 d h.apart in
    (
      set_node c x t,
      rw hit (rw leaf refl),
      record {
        used = rw (update_ne t.nodes c x d apart) (u.used);
        chain = rw (update_ne t.nodes c x d apart) (
            Siblings-set_node t x c (t.nodes d).child (without c cs)
              (without-NoneOf s (s.nodes d).child c cs h.chain) u.chain);
        apart = u.apart;
      },
      ap (λ (y : Node). y.used) (update_self t.nodes c x),
    )
