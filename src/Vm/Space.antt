-- ===== src/Vm/Space.antt =====
-- The user address space of vm.c: mapping, unmapping, growing and shrinking, and the copies that
-- `fork` makes. A loop over pages takes fuel, and `none` means that it ran out.
pub mod MapPage
use Prim.Native.Nat.{bit_and, bit_or}
use os_agent_lab.Prelude.{
  ℕ, zero, suc, ◌+◌, ◌-◌, ◌*◌, ◌/◌, ◌%◌, Bool, true, false, ◌||◌, not, Option, none, some, ◌==◌,
  ltb, leb, if◌then◌else◌, page_size, page_down, add64, sub64, Result, ok, err, Errno, enomem,
  eexist, einval,
}
use os_agent_lab.Phys.{load64, store64, memcpy}
use os_agent_lab.Mm.{Memory, kalloc, kfree}
use os_agent_lab.Vm.{pte_v, pte_u, has, pte2pa, pa2pte, walk}

abbrev pub Reply : Type 0
Reply = Result (Unit {0}) × Memory

-- *pte = v
pub write_pte : ℕ → ℕ → Memory → Memory
write_pte pte v s = record s { bytes = store64 s.bytes pte v }

-- PA2PTE(pa) | perm | PTE_V
abbrev pub leaf : ℕ → ℕ → ℕ
leaf pa perm = bit_or (bit_or (pa2pte pa) perm) pte_v

-- What `uvm_map` makes of the entry that `walk` returned.
pub store_leaf : ℕ → ℕ → Option ℕ × Memory → Reply
unfolding write_pte
store_leaf pa perm (none, s) = (err enomem, s)
store_leaf pa perm (some pte, s) =
    if has (load64 s.bytes pte) pte_v
    then (err eexist, s)
    else (ok tt, write_pte pte (leaf pa perm) s)

-- One round of the loop of `uvm_map`.
pub map_page : ℕ → ℕ → ℕ → ℕ → Memory → Reply
unfolding store_leaf
map_page pt a pa perm s = store_leaf pa perm (walk pt a true s)

pub uvm_map_loop : ℕ → ℕ → ℕ → ℕ → ℕ → ℕ → Memory → Option Reply
uvm_map_loop zero pt a last pa perm s = none
uvm_map_loop (suc fuel) pt a last pa perm s =
    let (r, s') = map_page pt a pa perm s in
    let rest = uvm_map_loop fuel pt (add64 a page_size) last (add64 pa page_size) perm s' in
    elim r [ err e ↦ some (err e, s') | ok _ ↦ if a == last then some (ok tt, s') else rest ]

pub uvm_map : ℕ → ℕ → ℕ → ℕ → ℕ → ℕ → Memory → Option Reply
unfolding uvm_map_loop
uvm_map fuel pt va pa sz perm s =
    uvm_map_loop fuel pt (page_down va) (page_down (sub64 (add64 va sz) 1)) pa perm s

-- The call that every caller makes: one page, at a page boundary or not.
pub map_one : ℕ → ℕ → ℕ → ℕ → Memory → Option Reply
unfolding uvm_map
map_one pt va pa perm s = uvm_map 2 pt va pa page_size perm s

-- One round of `uvm_unmap`.
pub unmap_page : ℕ → ℕ → Memory → Memory
unfolding write_pte
unmap_page pt a s = elim (walk pt a false s).0 [
  | none ↦ s
  | some pte ↦
      let v = load64 s.bytes pte in
      let s' = if has v pte_u then kfree (pte2pa v) s else s in
      if has v pte_v then write_pte pte 0 s' else s
]

pub uvm_unmap_loop : ℕ → ℕ → ℕ → Memory → Memory
unfolding unmap_page
uvm_unmap_loop pt a zero s = s
uvm_unmap_loop pt a (suc npages) s =
    uvm_unmap_loop pt (add64 a page_size) npages (unmap_page pt a s)

pub uvm_unmap : ℕ → ℕ → ℕ → Memory → Memory
unfolding uvm_unmap_loop
uvm_unmap pt va npages s = uvm_unmap_loop pt (page_down va) npages s

-- PGROUNDUP
abbrev pub page_up : ℕ → ℕ
page_up a = page_down (sub64 (add64 a page_size) 1)

-- A fresh page, given to the mapping at `a`, and freed again if that fails.
pub give_page : ℕ → ℕ → ℕ → ℕ → Memory → Option Reply
unfolding map_one
give_page pt a mem perm s = elim (map_one pt a mem perm s) [
  | none ↦ none
  | some (ok _, s') ↦ some (ok tt, s')
  | some (err _, s') ↦ some (err enomem, kfree mem s')
]

-- One round of `uvm_alloc`.
pub alloc_page : ℕ → ℕ → ℕ → Memory → Option Reply
unfolding give_page
alloc_page pt a perm s =
    let (mem?, s') = kalloc s in
    elim mem? [ none ↦ some (err enomem, s') | some mem ↦ give_page pt a mem perm s' ]

pub uvm_alloc_loop : ℕ → ℕ → ℕ → ℕ → ℕ → Memory → Option Reply
uvm_alloc_loop zero pt a last perm s = if ltb a last then none else some (ok tt, s)
uvm_alloc_loop (suc fuel) pt a last perm s =
    let round : Option Reply = elim (alloc_page pt a perm s) [
      | none ↦ none
      | some (err e, s') ↦ some (err e, s')
      | some (ok _, s') ↦ uvm_alloc_loop fuel pt (add64 a page_size) last perm s'
    ] in
    if ltb a last then round else some (ok tt, s)

pub uvm_alloc : ℕ → ℕ → ℕ → ℕ → ℕ → Memory → Option Reply
unfolding uvm_alloc_loop
uvm_alloc fuel pt oldsz newsz perm s =
    if ltb newsz oldsz
    then some (ok tt, s)
    else uvm_alloc_loop fuel pt (page_up oldsz) (page_up newsz) perm s

pub uvm_dealloc : ℕ → ℕ → ℕ → Memory → Memory
unfolding uvm_unmap
uvm_dealloc pt oldsz newsz s =
    if leb oldsz newsz
    then s
    else (let a = page_up newsz in
        let end = page_up oldsz in
        if ltb a end then uvm_unmap pt a ((end - a) / page_size) s else s)

-- pte & (PTE_R | PTE_W | PTE_X | PTE_U)
abbrev pub user_flags : ℕ → ℕ
user_flags pte = bit_and pte 30

-- One round of `uvm_copy` and of `uvm_copy_range`, whose bodies are the same.
pub copy_page : ℕ → ℕ → ℕ → Memory → Option Reply
unfolding give_page
copy_page src dst va s = elim (walk src va false s).0 [
  | none ↦ some (ok tt, s)
  | some pte ↦
      let v = load64 s.bytes pte in
      let copied : Option Reply =
        let (mem?, s') = kalloc s in
        elim mem? [
          | none ↦ some (err enomem, s')
          | some mem ↦
              give_page dst va mem (user_flags v)
                (record s' { bytes = memcpy s'.bytes mem (pte2pa v) page_size })
        ] in
      if has v pte_v then copied else some (ok tt, s)
]

pub copy_loop : ℕ → ℕ → ℕ → ℕ → ℕ → Memory → Option Reply
copy_loop zero src dst va end s = if ltb va end then none else some (ok tt, s)
copy_loop (suc fuel) src dst va end s =
    let round : Option Reply = elim (copy_page src dst va s) [
      | none ↦ none
      | some (err e, s') ↦ some (err e, s')
      | some (ok _, s') ↦ copy_loop fuel src dst (add64 va page_size) end s'
    ] in
    if ltb va end then round else some (ok tt, s)

pub uvm_copy : ℕ → ℕ → ℕ → ℕ → Memory → Option Reply
unfolding copy_loop
uvm_copy fuel src dst sz s = copy_loop fuel src dst 0 sz s

pub uvm_copy_range : ℕ → ℕ → ℕ → ℕ → ℕ → Memory → Option Reply
unfolding copy_loop
uvm_copy_range fuel src dst start end s =
    if ltb end start then some (err einval, s) else copy_loop fuel src dst (page_down start) end s
