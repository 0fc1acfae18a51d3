-- ===== src/Vm/Space/MapPage.antt =====
-- One page mapped: what `walkaddr` says of it afterwards, and when the mapping is refused.
use os_agent_lab.Prelude.{
  ℕ, ◌+◌, ◌*◌, ◌/◌, ◌%◌, ◌≤◌, ◌<◌, ◌≡◌, refl, sym, ◌∙◌, ap, subst, inl, inr, true, false, List, [],
  Option, none, some, arith, page_size, page_down, u64_mod, add64, sub64, Bool-cases, ◌==◌, ok, err,
  enomem, eexist, if◌then◌else◌,
}
use os_agent_lab.Phys.{load64}
use os_agent_lab.Phys.Laws.{load64-store64_self}
use os_agent_lab.Mm.{Memory}
use os_agent_lab.Mm.FreeList.{Free}
use os_agent_lab.Vm.{has, pte_v, walk_from, walk, walkaddr}
use os_agent_lab.Vm.Flags.{leaf-eq, pte2pa-of_parts, has_valid-of_parts, has_user-of_parts}
use os_agent_lab.Vm.Walk.{walk-page, Safe, Leads, walk_from-Leads, Leads-store}
use os_agent_lab.Vm.Grow.{walk_from-Outcome}
use os_agent_lab.Vm.Space.{Reply, map_page, map_one, leaf, write_pte}

-- What became of one page of a mapping. On success every address of the page translates.
abbrev pub MapOutcome : ℕ → ℕ → ℕ → Reply → Type 0
MapOutcome pt a pa (err enomem, s') = Unit {0}
MapOutcome pt a pa (err eexist, s') =
    (pte : ℕ) × ((walk pt a false s').0 ≡ some pte) × (has (load64 s'.bytes pte) pte_v ≡ true)
MapOutcome pt a pa (err _, s') = ⊥
MapOutcome pt a pa (ok _, s') =
    (va : ℕ) → va / page_size ≡ a / page_size → walkaddr s' pt va ≡ add64 pa (va % page_size)

-- A valid user entry at the end of the walk decides the translation.
walkaddr-entry :
    (s : Memory) (pt va pte pa perm : ℕ)
    → walk pt va false s ≡ (some pte, s)
    → load64 s.bytes pte ≡ leaf pa perm
    → pa % page_size ≡ 0
    → pa < u64_mod
    → perm < 32
    → 16 ≤ perm
    → walkaddr s pt va ≡ add64 pa (va % page_size)
unfolding walkaddr
walkaddr-entry s pt va pte pa perm w l al lt p u =
    let v : load64 s.bytes pte ≡ pa / 4096 * 1024 + (perm / 2 * 2 + 1) = l ∙ leaf-eq pa perm p in
    rw
      (
        w,
        v,
        has_valid-of_parts (pa / 4096) (perm / 2 * 2 + 1) (omega arith),
        has_user-of_parts (pa / 4096) (perm / 2 * 2 + 1) (omega arith),
        pte2pa-of_parts pa (perm / 2 * 2 + 1) (omega arith) al lt,
      )
      (ground arith)

module _ (pt a pa perm : ℕ) (al : pa % page_size ≡ 0) (lt : pa < u64_mod) (p : perm < 32)
    (u : 16 ≤ perm) where
  written :
      (s : Memory) (pte va : ℕ)
      → Leads 2 s.bytes pt a pte
      → va / page_size ≡ a / page_size
      → walkaddr (write_pte pte (leaf pa perm) s) pt va ≡ add64 pa (va % page_size)
  unfolding write_pte walk
  written s pte va h e =
      walkaddr-entry (write_pte pte (leaf pa perm) s) pt va pte pa perm
        (walk-page pt va a (write_pte pte (leaf pa perm) s) e
          ∙ walk_from-Leads 2 false pt a pte (write_pte pte (leaf pa perm) s)
              (Leads-store 2 s.bytes pt a pte (leaf pa perm) h))
        (load64-store64_self s.bytes pte (leaf pa perm) (omega (arith, leaf-eq pa perm p))) al lt p
        u

  map_page-exists :
      (s s' : Memory) (pte : ℕ)
      → walk pt a true s ≡ (some pte, s')
      → has (load64 s'.bytes pte) pte_v ≡ true
      → map_page pt a pa perm s ≡ (err eexist, s')
  unfolding map_page
  map_page-exists s s' pte w v = rw (w, v)

  map_page-ok :
      (s s' : Memory) (pte : ℕ)
      → walk pt a true s ≡ (some pte, s')
      → has (load64 s'.bytes pte) pte_v ≡ false
      → map_page pt a pa perm s ≡ (ok tt, write_pte pte (leaf pa perm) s')
  unfolding map_page
  map_page-ok s s' pte w v = rw (w, v)

  map_page-full :
      (s s' : Memory) → walk pt a true s ≡ (none, s') → map_page pt a pa perm s ≡ (err enomem, s')
  unfolding map_page
  map_page-full s s' w = rw w

  mapped :
      (s s' : Memory) (pte : ℕ)
      → walk pt a true s ≡ (some pte, s')
      → Leads 2 s'.bytes pt a pte
      → MapOutcome pt a pa (map_page pt a pa perm s)
  unfolding walk
  mapped s s' pte w h = elim (Bool-cases (has (load64 s'.bytes pte) pte_v)) [
    | inl v ↦
        subst (MapOutcome pt a pa) (sym (map_page-exists s s' pte w v))
          (pte, ap (λ (r : Option ℕ × Memory). r.0) (walk_from-Leads 2 false pt a pte s' h), v)
    | inr v ↦
        subst (MapOutcome pt a pa) (sym (map_page-ok s s' pte w v)) (λ va e. written s' pte va h e)
  ]

  -- Mapping one page of user memory from safe tables fails for want of memory, or because a valid
  -- entry is there already, or every address of the page is translated into the frame `pa`.
  pub map_page-MapOutcome :
      (s : Memory) (free : List ℕ)
      → Free s free
      → Safe 2 s free [] pt a
      → MapOutcome pt a pa (map_page pt a pa perm s)
  unfolding walk
  map_page-MapOutcome s free c safe = elim (walk_from-Outcome 2 pt a s free [] c tt safe) [
    | inl (full, _) ↦
        subst (MapOutcome pt a pa)
          (sym (map_page-full s _ (λ i. (full i, (walk_from 2 true pt a s).1)))) tt
    | inr (pte, found, reached, _, _) ↦
        mapped s (walk_from 2 true pt a s).1 pte (λ i. (found i, (walk_from 2 true pt a s).1))
          reached.leads
  ]

one_round :
    (va : ℕ) (rest : Option Reply) (r : Reply)
    → Path
        (Option Reply)
        (elim r.0 [
          | err e ↦ some (err e, r.1)
          | ok _ ↦ if va == va then some (ok tt, r.1) else rest
        ])
        (some r)
one_round va rest (err e, s) = refl
one_round va rest (ok _, s) = ground arith

-- `uvm_map` of one page at a page boundary makes one round, and is that round.
pub map_one-map_page :
    (pt va pa perm : ℕ) (s : Memory)
    → va % page_size ≡ 0
    → va < u64_mod
    → map_one pt va pa perm s ≡ some (map_page pt va pa perm s)
unfolding map_one
map_one-map_page pt va pa perm s al lt =
    let start : page_down va ≡ va = omega arith in
    let last : page_down (sub64 (add64 va page_size) 1) ≡ va = omega arith in
    rw (start, last) (one_round va _ _)

-- `uvm_map` of one page of user memory, at a page boundary and from safe tables, ends; it fails
-- with ENOMEM, or with EEXIST where the entry at the end of the walk is valid, and with nothing
-- else; or `walkaddr` then takes every address of the page to the same offset in the frame `pa`.
pub map_one-MapOutcome :
    (pt va pa perm : ℕ) (s : Memory) (free : List ℕ)
    → va % page_size ≡ 0
    → va < u64_mod
    → pa % page_size ≡ 0
    → pa < u64_mod
    → perm < 32
    → 16 ≤ perm
    → Free s free
    → Safe 2 s free [] pt va
    → (r : Reply) × (map_one pt va pa perm s ≡ some r) × MapOutcome pt va pa r
map_one-MapOutcome pt va pa perm s free av lv al lt p u c safe = (
  map_page pt va pa perm s,
  map_one-map_page pt va pa perm s av lv,
  map_page-MapOutcome pt va pa perm al lt p u s free c safe,
)
