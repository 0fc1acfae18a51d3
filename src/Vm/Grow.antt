-- ===== src/Vm/Grow.antt =====
-- `walk` with `alloc`: it runs out of memory, or it ends at an entry that every later walk finds.
use Prim.Native.Nat.{bit_or}
use os_agent_lab.Prelude.{
  ℕ, zero, suc, ◌+◌, ◌*◌, ◌/◌, ◌≤◌, ◌≡◌, ◌≢◌, refl, sym, ◌∙◌, ap, subst, ◌⊎◌, inl, inr, Bool, true,
  false, List, [], ◌∷◌, Option, none, some, arith, page_size, Bool-cases,
}
use os_agent_lab.Phys.{load64, memset}
use os_agent_lab.Phys.Laws.{
  load64-store64_self, load64-store64_disjoint, load64-memset_disjoint, load64-memset_zero,
  load64-congr,
}
use os_agent_lab.Mm.{Memory, kalloc}
use os_agent_lab.Mm.FreeList.{
  IsPage, Fresh, Free, Chain-congr, pages_apart, Allocated, kalloc-cons, kalloc-nil,
}
use os_agent_lab.Vm.{entry, has, pte_v, pte2pa, pa2pte, link, walk_from}
use os_agent_lab.Vm.Flags.{link-eq, pte2pa-of_parts, has_valid-of_parts}
use os_agent_lab.Vm.Walk.{Kept, Kept-refl, InUse, Safe, Reached, Kept-trans, entry_bounds}

-- What becomes of memory when the page `q` is taken for the table under the entry of `pt`.
record Linked (level pt va q : ℕ) (qs used : List ℕ) (s t : Memory) : Type 0 where
  free : Free t qs
  valid : has (load64 t.bytes (entry (suc level) pt va)) pte_v ≡ true
  leads_to : pte2pa (load64 t.bytes (entry (suc level) pt va)) ≡ q
  empty : (a : ℕ) → q ≤ a → a + 8 ≤ q + page_size → load64 t.bytes a ≡ 0
  others : Kept s.bytes t.bytes used

module _ (level pt va q : ℕ) (qs : List ℕ) (s s1 : Memory) (pt_page : IsPage pt) (q_page : IsPage q)
    (ne : pt ≢ q) (got : Allocated s q qs s1) where
  slot : ℕ
  slot = entry (suc level) pt va

  linked : Memory
  linked = link slot q s1

  -- A word apart from the new table and from the entry is as it was.
  load64-linked :
      (a : ℕ)
      → (a + 8 ≤ q) ⊎ (q + page_size ≤ a)
      → (a + 8 ≤ slot) ⊎ (slot + 8 ≤ a)
      → load64 linked.bytes a ≡ load64 s1.bytes a
  unfolding linked link
  load64-linked a h k =
      load64-store64_disjoint (memset s1.bytes q 0 page_size) slot (bit_or (pa2pte q) pte_v) a
        (omega (arith, k))
      ∙ load64-memset_disjoint s1.bytes q 0 page_size a (omega (arith, h))

  load64-s1 : (a : ℕ) → (a + 8 ≤ q) ⊎ (q + page_size ≤ a) → load64 s1.bytes a ≡ load64 s.bytes a
  load64-s1 a h = load64-congr s1.bytes s.bytes a (λ b lo hi. got.kept b (omega (arith, h)))

  slot_in : (pt ≤ slot) × (slot + 8 ≤ pt + page_size)
  unfolding slot
  slot_in = entry_bounds (suc level) pt va

  load64-slot : load64 linked.bytes slot ≡ q / 4096 * 1024 + 1
  unfolding linked link
  load64-slot =
      load64-store64_self (memset s1.bytes q 0 page_size) slot (bit_or (pa2pte q) pte_v)
        (omega (arith, link-eq q, q_page))
      ∙ link-eq q

  linked-empty : (a : ℕ) → q ≤ a → a + 8 ≤ q + page_size → load64 linked.bytes a ≡ 0
  unfolding linked link
  linked-empty a lo hi =
      load64-store64_disjoint (memset s1.bytes q 0 page_size) slot (bit_or (pa2pte q) pte_v) a
        (omega (arith, pages_apart pt q pt_page q_page ne, slot_in))
      ∙ load64-memset_zero s1.bytes q page_size a lo hi

  linked-Free : Fresh pt qs → Fresh q qs → Free linked qs
  unfolding linked link
  linked-Free f g =
      Chain-congr (memset s1.bytes q 0 page_size) linked.bytes s1.freelist qs pt
        (λ r w ne'.
          load64-store64_disjoint (memset s1.bytes q 0 page_size) slot (bit_or (pa2pte q) pte_v) r
            (omega (arith, pages_apart pt r pt_page w ne', slot_in)))
        f
        (Chain-congr s1.bytes (memset s1.bytes q 0 page_size) s1.freelist qs q
          (λ r w ne'.
            load64-memset_disjoint s1.bytes q 0 page_size r
              (omega (arith, pages_apart q r q_page w ne')))
          g got.rest)

  linked-Kept :
      (used free : List ℕ)
      → InUse used free
      → Fresh pt used
      → Fresh q used
      → Kept s.bytes linked.bytes used
  linked-Kept [] free w f g = tt
  linked-Kept (u ∷ us) free w f g = (
    (λ a lo hi.
        load64-linked a (omega (arith, pages_apart q u q_page w.0 g.0))
          (omega (arith, pages_apart pt u pt_page w.0 f.0, slot_in))
        ∙ load64-s1 a (omega (arith, pages_apart q u q_page w.0 g.0))),
    linked-Kept us free w.2 f.1 g.1,
  )

  link-Linked :
      (used free : List ℕ)
      → InUse used free
      → Fresh pt used
      → Fresh q used
      → Fresh pt qs
      → Fresh q qs
      → Linked level pt va q qs used s (link (entry (suc level) pt va) q s1)
  unfolding linked slot
  link-Linked used free w f g f' g' = record {
    free = linked-Free f' g';
    valid = rw load64-slot (has_valid-of_parts (q / 4096) 1 refl);
    leads_to =
        rw load64-slot (pte2pa-of_parts q 1 (omega arith) q_page.aligned (omega (arith, q_page)));
    empty = linked-empty;
    others = linked-Kept used free w f g;
  }

walk_from-down :
    (level pt va : ℕ) (alloc : Bool) (s : Memory)
    → has (load64 s.bytes (entry (suc level) pt va)) pte_v ≡ true
    → walk_from (suc level) alloc pt va s
      ≡ walk_from level alloc (pte2pa (load64 s.bytes (entry (suc level) pt va))) va s
unfolding walk_from
walk_from-down level pt va alloc s h = rw h

walk_from-new :
    (level pt va q : ℕ) (s : Memory)
    → has (load64 s.bytes (entry (suc level) pt va)) pte_v ≡ false
    → (kalloc s).0 ≡ some q
    → walk_from (suc level) true pt va s
      ≡ walk_from level true q va (link (entry (suc level) pt va) q (kalloc s).1)
unfolding walk_from
walk_from-new level pt va q s h k = rw (h, k)

walk_from-full :
    (level pt va : ℕ) (s : Memory)
    → has (load64 s.bytes (entry (suc level) pt va)) pte_v ≡ false
    → (kalloc s).0 ≡ none
    → (kalloc s).1 ≡ s
    → walk_from (suc level) true pt va s ≡ (none, s)
unfolding walk_from
walk_from-full level pt va s h k same = rw (h, k, same)

-- No page is left, and the words of the pages in use are as they were.
pub record Exhausted (s : Memory) (used : List ℕ) (s' : Memory) : Type 0 where
  pub none_left : Free s' []
  pub kept : Kept s.bytes s'.bytes used

-- NULL for want of memory, or an entry at the end of present tables, with the allocator in order.
abbrev pub Outcome : ℕ → Memory → List ℕ → ℕ → ℕ → Option ℕ × Memory → Type 0
Outcome level s used pt va r =
    ((r.0 ≡ none) × Exhausted s used r.1)
    ⊎ ((pte : ℕ) × (r.0 ≡ some pte)
        × Reached level s used pt va r.1 pte
        × (free : List ℕ) × Free r.1 free)

-- One level up: the entry above still leads to the table below.
Reached-up :
    (level pt va x : ℕ) (s t s' : Memory) (used : List ℕ) (pte : ℕ)
    → IsPage pt
    → has (load64 t.bytes (entry (suc level) pt va)) pte_v ≡ true
    → pte2pa (load64 t.bytes (entry (suc level) pt va)) ≡ x
    → Kept s.bytes t.bytes used
    → Reached level t (pt ∷ used) x va s' pte
    → Reached (suc level) s used pt va s' pte
Reached-up level pt va x s t s' used pte w v e k r =
    let here : (pt ≤ entry (suc level) pt va) × (entry (suc level) pt va + 8 ≤ pt + page_size) =
      entry_bounds (suc level) pt va in
    let same : load64 s'.bytes (entry (suc level) pt va)
        ≡ load64 t.bytes (entry (suc level) pt va) =
      r.kept.0 (entry (suc level) pt va) here.0 here.1 in
    record {
      leads = (
        rw same v,
        omega (arith, pages_apart r.table pt r.table_IsPage w r.table_unused.0, here, r.within),
        rw (same, e) r.leads,
      );
      table = r.table;
      table_IsPage = r.table_IsPage;
      table_unused = r.table_unused.1;
      within = r.within;
      kept = Kept-trans s.bytes t.bytes s'.bytes used k r.kept.1;
    }

Outcome-up :
    (level pt va x : ℕ) (s t : Memory) (used : List ℕ) (r : Option ℕ × Memory)
    → IsPage pt
    → has (load64 t.bytes (entry (suc level) pt va)) pte_v ≡ true
    → pte2pa (load64 t.bytes (entry (suc level) pt va)) ≡ x
    → Kept s.bytes t.bytes used
    → Outcome level t (pt ∷ used) x va r
    → Outcome (suc level) s used pt va r
Outcome-up level pt va x s t used r w v e k (inl (null, full)) = inl (
  null,
  record {
    none_left = full.none_left;
    kept = Kept-trans s.bytes t.bytes r.1.bytes used k full.kept.1;
  },
)
Outcome-up level pt va x s t used r w v e k (inr (pte, found, reached, free, c)) =
    inr (pte, found, Reached-up level pt va x s t r.1 used pte w v e k reached, free, c)

InUse-tail : (used : List ℕ) (q : ℕ) (qs : List ℕ) → InUse used (q ∷ qs) → InUse used qs
InUse-tail [] q qs w = tt
InUse-tail (u ∷ us) q qs w = (w.0, w.1.1, InUse-tail us q qs w.2)

Fresh-head : (used : List ℕ) (q : ℕ) (qs : List ℕ) → InUse used (q ∷ qs) → Fresh q used
Fresh-head [] q qs w = tt
Fresh-head (u ∷ us) q qs w = ((λ e. w.1.0 (sym e)), Fresh-head us q qs w.2)

not_valid : {v : ℕ} → has v pte_v ≡ true → v ≡ 0 → ⊥
not_valid {v} h e = let h' : has 0 pte_v ≡ true = rw e at h in cc

-- A table of zeroes is safe: none of its entries is valid.
Safe-empty :
    (level : ℕ) (t : Memory) (free used : List ℕ) (q va : ℕ)
    → IsPage q
    → Fresh q free
    → Fresh q used
    → ((a : ℕ) → q ≤ a → a + 8 ≤ q + page_size → load64 t.bytes a ≡ 0)
    → Safe level t free used q va
Safe-empty zero t free used q va w f g z = (w, f, g)
Safe-empty (suc level) t free used q va w f g z =
    let here : (q ≤ entry (suc level) q va) × (entry (suc level) q va + 8 ≤ q + page_size) =
      entry_bounds (suc level) q va in
    (w, f, g, λ h. absurd (not_valid h (z _ here.0 here.1)))

-- The case of an entry that is not valid, given the claim for the level below.
walk_from-Outcome_new :
    (level pt va : ℕ) (s : Memory) (used free : List ℕ)
    → Free s free
    → InUse used free
    → IsPage pt
    → Fresh pt free
    → Fresh pt used
    → has (load64 s.bytes (entry (suc level) pt va)) pte_v ≡ false
    → ((t : Memory) (q : ℕ) (qs : List ℕ)
        → Free t qs
        → InUse (pt ∷ used) qs
        → Safe level t qs (pt ∷ used) q va
        → Outcome level t (pt ∷ used) q va (walk_from level true q va t))
    → Outcome (suc level) s used pt va (walk_from (suc level) true pt va s)
walk_from-Outcome_new level pt va s used [] c w p f g v ih =
    subst (Outcome (suc level) s used pt va)
      (sym (
        walk_from-full level pt va s v (ap (λ (r : Option ℕ × Memory). r.0) (kalloc-nil s c))
          (ap (λ (r : Option ℕ × Memory). r.1) (kalloc-nil s c))))
      (inl (refl, record { none_left = c; kept = Kept-refl s.bytes used }))
walk_from-Outcome_new level pt va s used (q ∷ qs) c w p f g v ih =
    let got : ((kalloc s).0 ≡ some q) × Allocated s q qs (kalloc s).1 = kalloc-cons s q qs c in
    let t : Memory = link (entry (suc level) pt va) q (kalloc s).1 in
    let l : Linked level pt va q qs used s t =
      link-Linked level pt va q qs s (kalloc s).1 p c.1 f.0 got.1 used (q ∷ qs) w g
        (Fresh-head used q qs w) f.1 c.2 in
    subst (Outcome (suc level) s used pt va) (sym (walk_from-new level pt va q s v got.0)) (
      Outcome-up level pt va q s t used (walk_from level true q va t) p l.valid l.leads_to l.others
        (ih t q qs l.free (p, f.1, InUse-tail used q qs w)
          (Safe-empty level t qs (pt ∷ used) q va c.1 c.2
            ((λ e. f.0 (sym e)), Fresh-head used q qs w) l.empty)))

-- From safe tables, and with a well-formed free list, an allocating walk returns NULL, and then no
-- page is free, or an entry that lies in a table none of `used` and is reached through valid entries
-- that do not overlap it, and then the free list is well formed again. Either way the words of the
-- pages in `used`, which are apart from the tables and the free pages, are unchanged.
pub walk_from-Outcome :
    (level pt va : ℕ) (s : Memory) (free used : List ℕ)
    → Free s free
    → InUse used free
    → Safe level s free used pt va
    → Outcome level s used pt va (walk_from level true pt va s)
unfolding walk_from
walk_from-Outcome zero pt va s free used c w safe = inr (
  entry 0 pt va,
  refl,
  record {
    leads = refl;
    table = pt;
    table_IsPage = safe.0;
    table_unused = safe.2;
    within = entry_bounds 0 pt va;
    kept = Kept-refl s.bytes used;
  },
  free,
  c,
)
walk_from-Outcome (suc level) pt va s free used c w safe =
    elim (Bool-cases (has (load64 s.bytes (entry (suc level) pt va)) pte_v)) [
      | inl v ↦
          subst (Outcome (suc level) s used pt va) (sym (walk_from-down level pt va true s v)) (
            Outcome-up level pt va _ s s used _ safe.0 v refl (Kept-refl s.bytes used)
              (walk_from-Outcome level _ va s free (pt ∷ used) c (safe.0, safe.1, w) (safe.3 v)))
      | inr v ↦
          walk_from-Outcome_new level pt va s used free c w safe.0 safe.1 safe.2 v
            (λ t q qs cc' ww ss. walk_from-Outcome level q va t qs (pt ∷ used) cc' ww ss)
    ]
