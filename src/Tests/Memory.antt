-- ===== src/Tests/Memory.antt =====
-- The page allocator and the page tables on small memories.
use os_agent_lab.Prelude.{
  ℕ, ◌%◌, ◌<◌, ◌≡◌, ◌↔◌, refl, true, [], ◌∷◌, some, arith, ◌==◌, if◌then◌else◌, ok, page_size,
}
use os_agent_lab.Phys.{Bytes, load64}
use os_agent_lab.Mm.{Memory, kalloc}
use os_agent_lab.Mm.FreeList.{IsPage, Free, Allocated, kalloc-cons}
use os_agent_lab.Vm.{walk_from}
use os_agent_lab.Vm.Walk.{Safe}
use os_agent_lab.Vm.Grow.{Outcome, walk_from-Outcome}
use os_agent_lab.Vm.Space.{Reply, map_one}
use os_agent_lab.Vm.Space.MapPage.{MapOutcome, map_one-MapOutcome}
use os_agent_lab.Vm.CopyUser.{copyin, copyinstr}
use os_agent_lab.Vm.CopyUser.Bytewise.{read_user, copyin-read_user}
use os_agent_lab.Vm.CopyUser.Instr.{IsUserString, copyinstr_iff}

-- No free page.
abbrev bare : Memory
bare = record { bytes = λ a. 0; freelist = 0 }

-- Two free pages: the first word of 0x2000 is 0x1000.
abbrev two : Memory
two = record { bytes = λ a. if a == 0x2001 then 0x10 else 0; freelist = 0x2000 }

page : (p : ℕ) → p % page_size ≡ 0 → 0 < p → p < 0x10000 → IsPage p
page p a pos lt = record { nonzero = omega arith; aligned = a; fits = omega arith }

two-Free : Free two (0x2000 ∷ 0x1000 ∷ [])
unfolding load64
two-Free = (
  refl,
  page 0x2000 refl (omega arith) (omega arith),
  (omega arith, tt),
  (refl, page 0x1000 refl (omega arith) (omega arith), tt, refl),
)

kalloc-cons_example :
    ((kalloc two).0 ≡ some 0x2000) × Allocated two 0x2000 (0x1000 ∷ []) (kalloc two).1
kalloc-cons_example = kalloc-cons two 0x2000 (0x1000 ∷ []) two-Free

-- The root table is the empty page 0x3000.
two-Safe : Safe 2 two (0x2000 ∷ 0x1000 ∷ []) [] 0x3000 0x4000
unfolding load64
two-Safe =
    (page 0x3000 refl (omega arith) (omega arith), (omega arith, (omega arith, tt)), tt, λ h. cc)

walk_from-Outcome_example : Outcome 2 two [] 0x3000 0x4000 (walk_from 2 true 0x3000 0x4000 two)
walk_from-Outcome_example =
    walk_from-Outcome 2 0x3000 0x4000 two (0x2000 ∷ 0x1000 ∷ []) [] two-Free tt two-Safe

map_one-MapOutcome_example :
    (r : Reply) × (map_one 0x3000 0x4000 0x5000 22 two ≡ some r) × MapOutcome 0x3000 0x4000 0x5000 r
map_one-MapOutcome_example =
    map_one-MapOutcome 0x3000 0x4000 0x5000 22 two (0x2000 ∷ 0x1000 ∷ []) refl (omega arith) refl
      (omega arith) (omega arith) (omega arith) two-Free two-Safe

-- The tables at 0x3000, 0x4000 and 0x5000 map the page 0x6000 to 0x7000, which starts with "hi".
mapped_bytes : Bytes
mapped_bytes a =
    if a == 0x3000
    then 0x01
    else if a == 0x3001
    then 0x10
    else if a == 0x4000
    then 0x01
    else if a == 0x4001
    then 0x14
    else if a == 0x5030
    then 0x17
    else if a == 0x5031
    then 0x1c
    else if a == 0x7000
    then b'h'
    else if a == 0x7001
    then b'i'
    else 0

abbrev mapped : Memory
mapped = record { bytes = mapped_bytes; freelist = 0 }

copyin-read_user_example : copyin mapped 0x3000 0x6000 3 ≡ some (read_user mapped 0x3000 0x6000 3)
copyin-read_user_example = copyin-read_user mapped 0x3000 0x6000 3 (omega arith)

copyinstr_iff_example :
    (copyinstr mapped 0x3000 0x6000 8 ≡ ok (b'h' ∷ b'i' ∷ []))
    ↔ IsUserString mapped 0x3000 0x6000 8 (b'h' ∷ b'i' ∷ [])
copyinstr_iff_example = copyinstr_iff 8 mapped 0x3000 0x6000 (b'h' ∷ b'i' ∷ [])
