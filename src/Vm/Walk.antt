-- ===== src/Vm/Walk.antt =====
-- `walk`: the entry that it finds, and that it finds it again after the tables it had to allocate.
use os_agent_lab.Prelude.{
  ℕ, zero, suc, ◌+◌, ◌/◌, ◌≤◌, ◌≡◌, refl, ◌∙◌, ◌⊎◌, Bool, true, false, List, [], ◌∷◌, some, arith,
  page_size,
}
use os_agent_lab.Phys.{Bytes, load64, store64}
use os_agent_lab.Phys.Laws.{load64-store64_disjoint}
use os_agent_lab.Mm.{Memory}
use os_agent_lab.Mm.FreeList.{IsPage, Fresh}
use os_agent_lab.Vm.{entry, vpn, has, pte_v, pte2pa, walk_from, walk}

-- The words of the pages `ps` are the same in `m` and `m'`.
abbrev pub Kept : Bytes → Bytes → List ℕ → Type 0
Kept m m' [] = Unit {0}
Kept m m' (q ∷ qs) =
    ((a : ℕ) → q ≤ a → a + 8 ≤ q + page_size → load64 m' a ≡ load64 m a) × Kept m m' qs

-- `ps` are pages, and none of them is among `free`.
abbrev pub InUse : List ℕ → List ℕ → Type 0
InUse [] free = Unit {0}
InUse (p ∷ ps) free = IsPage p × Fresh p free × InUse ps free

-- The tables on the way to `va`, from `pt` at a level down, as far as they are there: distinct
-- pages, none of them free, and none of those above (`used`).
abbrev pub Safe : ℕ → Memory → List ℕ → List ℕ → ℕ → ℕ → Type 0
Safe zero s free used pt va = IsPage pt × Fresh pt free × Fresh pt used
Safe (suc level) s free used pt va =
    IsPage pt
    × Fresh pt free
    × Fresh pt used
    × (has (load64 s.bytes (entry (suc level) pt va)) pte_v ≡ true
        → Safe level s free (pt ∷ used) (pte2pa (load64 s.bytes (entry (suc level) pt va))) va)

-- In `m` the entries from `pt` down lead to the entry `pte`, and none of them overlaps it.
abbrev pub Leads : ℕ → Bytes → ℕ → ℕ → ℕ → Type 0
Leads zero m pt va pte = pte ≡ entry 0 pt va
Leads (suc level) m pt va pte =
    (has (load64 m (entry (suc level) pt va)) pte_v ≡ true)
    × ((entry (suc level) pt va + 8 ≤ pte) ⊎ (pte + 8 ≤ entry (suc level) pt va))
    × Leads level m (pte2pa (load64 m (entry (suc level) pt va))) va pte

-- A walk along present tables finds the entry and changes nothing.
pub walk_from-Leads :
    (level : ℕ) (alloc : Bool) (pt va pte : ℕ) (s : Memory)
    → Leads level s.bytes pt va pte
    → walk_from level alloc pt va s ≡ (some pte, s)
unfolding walk_from
walk_from-Leads zero alloc pt va pte s h = rw h
walk_from-Leads (suc level) alloc pt va pte s h =
    rw (h.0) (walk_from-Leads level alloc _ va pte s h.2)

-- Writing the entry itself does not change the way to it.
pub Leads-store :
    (level : ℕ) (m : Bytes) (pt va pte v : ℕ)
    → Leads level m pt va pte
    → Leads level (store64 m pte v) pt va pte
Leads-store zero m pt va pte v h = h
Leads-store (suc level) m pt va pte v h =
    let e : load64 (store64 m pte v) (entry (suc level) pt va)
        ≡ load64 m (entry (suc level) pt va) =
      load64-store64_disjoint m pte v (entry (suc level) pt va) (omega (arith, h.1)) in
    rw e (h.0, h.1, Leads-store level m _ va pte v h.2)

-- An entry lies within its table.
pub entry_bounds :
    (level pt va : ℕ) → (pt ≤ entry level pt va) × (entry level pt va + 8 ≤ pt + page_size)
entry_bounds zero pt va = omega arith
entry_bounds (suc zero) pt va = omega arith
entry_bounds (suc (suc level)) pt va = omega arith

-- What an allocating walk leaves behind.
pub record Reached (level : ℕ) (s : Memory) (used : List ℕ) (pt va : ℕ) (s' : Memory) (pte : ℕ)
    : Type 0 where
  pub leads : Leads level s'.bytes pt va pte
  pub table : ℕ
  pub table_IsPage : IsPage table
  pub table_unused : Fresh table used
  pub within : (table ≤ pte) × (pte + 8 ≤ table + page_size)
  pub kept : Kept s.bytes s'.bytes used

pub Kept-refl : (m : Bytes) (ps : List ℕ) → Kept m m ps
Kept-refl m [] = tt
Kept-refl m (p ∷ ps) = ((λ a lo hi. refl), Kept-refl m ps)

pub Kept-trans : (m m' m'' : Bytes) (ps : List ℕ) → Kept m m' ps → Kept m' m'' ps → Kept m m'' ps
Kept-trans m m' m'' [] h k = tt
Kept-trans m m' m'' (p ∷ ps) h k =
    ((λ a lo hi. k.0 a lo hi ∙ h.0 a lo hi), Kept-trans m m' m'' ps h.1 k.1)

-- Two addresses of one page have the same indices.
pub walk-page :
    (pt va va' : ℕ) (s : Memory)
    → va / page_size ≡ va' / page_size
    → walk pt va false s ≡ walk pt va' false s
unfolding walk
walk-page pt va va' s e =
    let e2 : vpn 2 va ≡ vpn 2 va' = omega arith in
    let e1 : vpn 1 va ≡ vpn 1 va' = omega arith in
    let e0 : vpn 0 va ≡ vpn 0 va' = omega arith in rw (e2, e1, e0)
