-- ===== src/Mm/FreeList.antt =====
-- `kalloc` and `kfree` are the pop and the push of a stack of distinct pages.
use os_agent_lab.Prelude.{
  ℕ, ◌+◌, ◌%◌, ◌≤◌, ◌<◌, ◌≡◌, ◌≢◌, refl, ◌⊎◌, List, [], ◌∷◌, none, some, arith, page_size, u64_mod,
  subst, sym,
}
use os_agent_lab.Phys.{Bytes, load64, store64, memset}
use os_agent_lab.Phys.Laws.{
  load64-store64_self, load64-store64_disjoint, load64-memset_disjoint, memset-inside,
  memset-outside, store64-outside,
}
use os_agent_lab.Mm.{Memory, kfree, kalloc}

-- An address that the allocator can hold: a whole page of the address space, and not NULL.
pub record IsPage (p : ℕ) : Type 0 where
  pub nonzero : p ≢ 0
  pub aligned : p % page_size ≡ 0
  pub fits : p + page_size ≤ u64_mod

-- `p` is none of the pages `ps`.
abbrev pub Fresh : ℕ → List ℕ → Type 0
Fresh p [] = Unit {0}
Fresh p (q ∷ qs) = (p ≢ q) × Fresh p qs

-- From `p` the chain in `m` runs through the pages `ps`, which are distinct, and ends in NULL.
abbrev pub Chain : Bytes → ℕ → List ℕ → Type 0
Chain m p [] = p ≡ 0
Chain m p (q ∷ qs) = (p ≡ q) × IsPage q × Fresh q qs × Chain m (load64 m q) qs

-- The allocator's free pages, in the order in which it hands them out.
abbrev pub Free : Memory → List ℕ → Type 0
Free s ps = Chain s.bytes s.freelist ps

-- Two distinct pages do not overlap.
pub pages_apart :
    (p q : ℕ) → IsPage p → IsPage q → p ≢ q → (p + page_size ≤ q) ⊎ (q + page_size ≤ p)
pages_apart p q v w h = omega arith

-- A chain survives a change of memory that leaves its first words alone.
pub Chain-congr :
    (m m' : Bytes) (p : ℕ) (ps : List ℕ) (r : ℕ)
    → ((q : ℕ) → IsPage q → r ≢ q → load64 m' q ≡ load64 m q)
    → Fresh r ps
    → Chain m p ps
    → Chain m' p ps
Chain-congr m m' p [] r h f c = c
Chain-congr m m' p (q ∷ qs) r h f c =
    (c.0, c.1, c.2, rw (h q c.1 f.0) (Chain-congr m m' (load64 m q) qs r h f.1 c.3))

-- What `kalloc` hands out from a list that starts with `q`.
pub record Allocated (s : Memory) (q : ℕ) (qs : List ℕ) (s' : Memory) : Type 0 where
  pub rest : Free s' qs
  pub zeroed : (a : ℕ) → q ≤ a → a < q + page_size → s'.bytes a ≡ 0
  pub kept : (a : ℕ) → (a < q) ⊎ (q + page_size ≤ a) → s'.bytes a ≡ s.bytes a

kalloc-some :
    (s : Memory)
    → s.freelist ≢ 0
    → kalloc s ≡ (
      some s.freelist,
      record s {
        bytes = memset s.bytes s.freelist 0 page_size;
        freelist = load64 s.bytes s.freelist;
      },
    )
unfolding kalloc
kalloc-some s h = ground arith

kalloc-head :
    (s : Memory) (qs : List ℕ)
    → IsPage s.freelist
    → Fresh s.freelist qs
    → Chain s.bytes (load64 s.bytes s.freelist) qs
    → ((kalloc s).0 ≡ some s.freelist) × Allocated s s.freelist qs (kalloc s).1
kalloc-head s qs v f c = rw (kalloc-some s v.nonzero) (
  refl,
  record {
    rest =
        Chain-congr s.bytes (memset s.bytes s.freelist 0 page_size) (load64 s.bytes s.freelist) qs
          s.freelist
          (λ q w ne. load64-memset_disjoint s.bytes s.freelist 0 page_size q (omega arith)) f c;
    zeroed = λ a lo hi. memset-inside s.bytes s.freelist 0 page_size a lo hi;
    kept = λ a out. memset-outside s.bytes s.freelist 0 page_size a out;
  },
)

-- On a non-empty list `kalloc` returns its first page, zeroed, keeps the other pages free and
-- writes nowhere else.
pub kalloc-cons :
    (s : Memory) (q : ℕ) (qs : List ℕ)
    → Free s (q ∷ qs)
    → ((kalloc s).0 ≡ some q) × Allocated s q qs (kalloc s).1
kalloc-cons s q qs c =
    subst (λ x. ((kalloc s).0 ≡ some x) × Allocated s x qs (kalloc s).1) c.0
      (kalloc-head s qs (rw (c.0) c.1) (rw (c.0) c.2) (rw (c.0) c.3))

-- With no free page `kalloc` returns NULL and changes nothing.
pub kalloc-nil : (s : Memory) → Free s [] → kalloc s ≡ (none, s)
unfolding kalloc
kalloc-nil s c = ground arith

Chain-lt : (m : Bytes) (p : ℕ) (ps : List ℕ) → Chain m p ps → p < u64_mod
Chain-lt m p [] c = omega arith
Chain-lt m p (q ∷ qs) c = let v : IsPage q = c.1 in omega arith

kfree-eq :
    (s : Memory) (p : ℕ)
    → p % page_size ≡ 0
    → kfree p s ≡ record s { bytes = store64 s.bytes p s.freelist; freelist = p }
unfolding kfree
kfree-eq s p h = ground arith

pushed-Free :
    (s : Memory) (p : ℕ) (ps : List ℕ)
    → IsPage p
    → Fresh p ps
    → Free s ps
    → Free (record s { bytes = store64 s.bytes p s.freelist; freelist = p }) (p ∷ ps)
pushed-Free s p ps v f c = (
  refl,
  v,
  f,
  rw (load64-store64_self s.bytes p s.freelist (Chain-lt s.bytes s.freelist ps c)) (
      Chain-congr s.bytes (store64 s.bytes p s.freelist) s.freelist ps p
        (λ q w ne. load64-store64_disjoint s.bytes p s.freelist q (omega arith)) f c),
)

-- Freeing a page that is not free yet puts it in front of the free pages.
pub kfree-Free :
    (s : Memory) (p : ℕ) (ps : List ℕ)
    → IsPage p
    → Fresh p ps
    → Free s ps
    → Free (kfree p s) (p ∷ ps)
kfree-Free s p ps v f c =
    subst (λ t. Free t (p ∷ ps)) (sym (kfree-eq s p v.aligned)) (pushed-Free s p ps v f c)

-- Freeing writes the first word of the page and nothing else.
pub kfree-outside : (s : Memory) (p a : ℕ) → (a < p) ⊎ (p + 8 ≤ a) → (kfree p s).bytes a ≡ s.bytes a
unfolding kfree
kfree-outside s p a h = ground (arith, store64-outside s.bytes p s.freelist a h)

-- An address inside a page is ignored.
pub kfree-misaligned : (s : Memory) (p : ℕ) → p % page_size ≢ 0 → kfree p s ≡ s
unfolding kfree
kfree-misaligned s p h = ground arith
