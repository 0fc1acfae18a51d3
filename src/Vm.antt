-- ===== src/Vm.antt =====
-- Page tables, GPT-5.2-Codex/code/kernel/vm.c: three levels of 512 entries (Sv39) in physical
-- memory, which the kernel addresses one to one. A pointer is its address, and NULL is `none`.
pub mod Flags
pub mod Walk
pub mod Grow
pub mod Space
pub mod CopyUser
use Prim.Native.Nat.{bit_and, bit_or}
use os_agent_lab.Prelude.{
  ℕ, zero, suc, ◌+◌, ◌*◌, ◌/◌, ◌%◌, ◌^◌, Bool, true, false, not, Option, none, some, ◌==◌,
  if◌then◌else◌, page_size, add64, u64_mod,
}
use os_agent_lab.Phys.{Bytes, load64, store64, memset}
use os_agent_lab.Mm.{Memory, kalloc}

-- PTE_V, PTE_R, PTE_W, PTE_X and PTE_U of riscv.h
abbrev pub pte_v : ℕ
pte_v = 1

abbrev pub pte_r : ℕ
pte_r = 2

abbrev pub pte_w : ℕ
pte_w = 4

abbrev pub pte_x : ℕ
pte_x = 8

abbrev pub pte_u : ℕ
pte_u = 16

-- pte & flag, as a test
abbrev pub has : ℕ → ℕ → Bool
has pte flag = not (bit_and pte flag == 0)

-- PTE2PA and PA2PTE
abbrev pub pte2pa : ℕ → ℕ
pte2pa pte = pte / 1024 * 4096 % u64_mod

abbrev pub pa2pte : ℕ → ℕ
pa2pte pa = pa / 4096 * 1024

-- VPN0, VPN1 and VPN2, by level
abbrev pub vpn : ℕ → ℕ → ℕ
vpn zero va = va / 0x1000 % 512
vpn (suc zero) va = va / 0x200000 % 512
vpn (suc (suc level)) va = va / 0x40000000 % 512

-- &pt[VPN(va)]
abbrev pub entry : ℕ → ℕ → ℕ → ℕ
entry level pt va = pt + 8 * vpn level va

-- A fresh table, entered at `pte`.
unfoldable pub link : ℕ → ℕ → Memory → Memory
link pte page s = record s {
  bytes = store64 (memset s.bytes page 0 page_size) pte (bit_or (pa2pte page) pte_v);
}

-- The loop of `walk` from a level down, and the entry that it returns.
unfoldable pub walk_from : ℕ → Bool → ℕ → ℕ → Memory → Option ℕ × Memory
unfolding link
walk_from zero alloc pt va s = (some (entry 0 pt va), s)
walk_from (suc level) alloc pt va s =
    let pte = entry (suc level) pt va in
    let down = walk_from level alloc (pte2pa (load64 s.bytes pte)) va s in
    let fresh : Option ℕ × Memory =
      let (page?, s') = kalloc s in
      elim page? [
        | none ↦ (none, s')
        | some page ↦ walk_from level alloc page va (link pte page s')
      ] in
    if has (load64 s.bytes pte) pte_v then down else (if alloc then fresh else (none, s))

unfoldable pub walk : ℕ → ℕ → Bool → Memory → Option ℕ × Memory
unfolding walk_from
walk pt va alloc s = walk_from 2 alloc pt va s

-- The address that an entry gives to an offset; 0 stands for no translation, as in the source.
unfoldable pub translate : Memory → ℕ → Option ℕ → ℕ
translate s off none = 0
translate s off (some pte) =
    let v = load64 s.bytes pte in
    if has v pte_v then (if has v pte_u then add64 (pte2pa v) off else 0) else 0

unfoldable pub walkaddr : Memory → ℕ → ℕ → ℕ
unfolding translate
walkaddr s pt va = translate s (va % page_size) (walk pt va false s).0
