-- ===== src/Mm.antt =====
-- The page allocator, GPT-5.2-Codex/code/kernel/mm.c: a chain of free pages threaded through the
-- first word of each page.
pub mod FreeList
pub mod Init
use os_agent_lab.Prelude.{
  ℕ, zero, suc, ◌+◌, ◌-◌, ◌%◌, Option, none, some, ltb, leb, ◌==◌, if◌then◌else◌, page_size,
  page_down, add64, sub64,
}
use os_agent_lab.Phys.{Bytes, load64, store64, memset}

-- Physical memory and the global `g_freelist` (0 is NULL).
pub record Memory : Type 0 where
  pub bytes : Bytes
  pub freelist : ℕ

-- An address that is not page-aligned is ignored.
pub kfree : ℕ → Memory → Memory
kfree pa s =
    if pa % page_size == 0
    then record s { bytes = store64 s.bytes pa s.freelist; freelist = pa }
    else s

-- `none` is NULL.
pub kalloc : Memory → Option ℕ × Memory
kalloc s = if s.freelist == 0 then (none, s) else (
  some s.freelist,
  record s { bytes = memset s.bytes s.freelist 0 page_size; freelist = load64 s.bytes s.freelist },
)

-- KERNEL_VIRT_OFFSET of memlayout.h
abbrev pub kernel_virt_offset : ℕ
kernel_virt_offset = 0xffffffff80000000 - 0x80200000

-- `align_up` at the only alignment that it is called with, PAGE_SIZE.
unfoldable pub align_up : ℕ → ℕ
align_up val = page_down (sub64 (add64 val page_size) 1)

-- The loop of `kinit`; `none` means that the fuel ran out.
pub kinit_loop : ℕ → ℕ → ℕ → Memory → Option Memory
unfolding kfree
kinit_loop zero p end s = none
kinit_loop (suc fuel) p end s =
    let rest = kinit_loop fuel (add64 p page_size) end (kfree p s) in
    if leb (add64 p page_size) end then rest else some s

-- `kernel_end` is the linker's symbol `__kernel_end`.
pub kinit : ℕ → ℕ → ℕ → ℕ → Memory → Option Memory
kinit fuel kernel_end mem_base mem_size s =
    kinit_loop fuel (align_up (sub64 kernel_end kernel_virt_offset)) (add64 mem_base mem_size) s
