-- ===== src/Fd.antt =====
-- Descriptor tables: the part of GPT-5.2-Codex/code/kernel/syscall.c that opens, duplicates and
-- closes descriptors, and the loops over `ofile` of `proc_fork` and `proc_exit` (kernel/proc.c).
pub mod Count
pub mod Refs
pub mod Alloc
pub mod Ops
pub mod Slots
pub mod Place
pub mod Loops
pub mod Open
use Prim.Native.Nat.{bit_and}
use os_agent_lab.Prelude.{
  update, ℕ, zero, suc, ◌+◌, ◌-◌, Bool, true, false, ◌||◌, not, Option, none, some, List, [], ◌∷◌,
  ◌==◌, leb, ltb, if◌then◌else◌, Result, ok, err, Errno, ebadf, emfile, length, set, get_or,
}
use os_agent_lab.File.{File, Files, file_alloc, file_dup, file_close}

-- NOFILE
abbrev pub nofile : ℕ
nofile = 16

-- p->ofile: NULL, or a file's index.
abbrev pub Table : Type 0
Table = List (Option ℕ)

-- The file table and every process's descriptors, by the process's index.
pub record Fds : Type 0 where
  pub files : Files
  pub tables : List Table

abbrev pub table : Fds → ℕ → Table
table s p = get_or s.tables p []

-- p->ofile[fd]
abbrev pub slot : Fds → ℕ → ℕ → Option ℕ
slot s p fd = get_or (table s p) fd none

-- p->ofile[fd] = v
abbrev pub put : Fds → ℕ → ℕ → Option ℕ → Fds
put s p fd v = record s { tables = set s.tables p (set (table s p) fd v) }

-- The scan of `fdalloc`: the first NULL slot at or after `i`, among `left` ones.
unfoldable pub find_fd : ℕ → ℕ → Table → Option ℕ
find_fd zero i t = none
find_fd (suc left) i t =
    let rest = find_fd left (i + 1) t in elim (get_or t i none) [ none ↦ some i | some _ ↦ rest ]

unfoldable pub place : ℕ → ℕ → Fds → Option ℕ → Result ℕ × Fds
place p f s none = (err emfile, s)
place p f s (some i) = (ok i, put s p i (some f))

-- Descriptors 0, 1 and 2 are never handed out.
unfoldable pub fdalloc : ℕ → ℕ → Fds → Result ℕ × Fds
unfolding find_fd place
fdalloc p f s = place p f s (find_fd 13 3 (table s p))

-- The file behind a descriptor; `none` stands for the check that answers EBADF.
abbrev pub file_at : Fds → ℕ → ℕ → Option ℕ
file_at s p fd = if leb nofile fd then none else slot s p fd

pub sys_close : ℕ → ℕ → Fds → Result ℕ × Fds
sys_close p fd s = elim (file_at s p fd) [
  | none ↦ (err ebadf, s)
  | some f ↦ (ok 0, put (record s { files = file_close f s.files }) p fd none)
]

-- Where no descriptor was handed out for `f`, drop the reference again.
unfoldable pub drop_on_err : ℕ → Result ℕ × Fds → Result ℕ × Fds
drop_on_err f (ok fd, s) = (ok fd, s)
drop_on_err f (err e, s) = (err e, record s { files = file_close f s.files })

unfoldable pub install : ℕ → ℕ → Fds → Result ℕ × Fds
unfolding fdalloc drop_on_err
install p f s = drop_on_err f (fdalloc p f s)

pub sys_dup : ℕ → ℕ → Fds → Result ℕ × Fds
unfolding install
sys_dup p fd s = elim (file_at s p fd) [
  | none ↦ (err ebadf, s)
  | some f ↦ install p f (record s { files = file_dup f s.files })
]

-- Close what `newfd` holds, if anything.
pub close_slot : ℕ → ℕ → Fds → Fds
close_slot p fd s = elim (slot s p fd) [
  | none ↦ s
  | some f ↦ put (record s { files = file_close f s.files }) p fd none
]

-- p->ofile[fd] = file_dup(f)
pub put_dup : ℕ → ℕ → ℕ → Fds → Fds
put_dup p fd f s = put (record s { files = file_dup f s.files }) p fd (some f)

pub sys_dup3 : ℕ → ℕ → ℕ → Fds → Result ℕ × Fds
unfolding close_slot put_dup
sys_dup3 p oldfd newfd s =
    if leb nofile oldfd || leb nofile newfd then (err ebadf, s) else elim (slot s p oldfd) [
      | none ↦ (err ebadf, s)
      | some f ↦
          if oldfd == newfd
          then (ok newfd, s)
          else (ok newfd, put_dup p newfd f (close_slot p newfd s))
    ]

-- O_WRONLY, O_RDWR and O_APPEND
abbrev pub o_wronly : ℕ
o_wronly = 1

abbrev pub o_rdwr : ℕ
o_rdwr = 2

abbrev pub o_append : ℕ
o_append = 0x400

-- The fields that `sys_openat` gives the new file.
abbrev pub opened : ℕ → ℕ → ℕ → File → File
opened vn flags off x = record x {
  vn = some vn;
  readable = bit_and flags o_wronly == 0;
  writable = not (bit_and flags o_wronly == 0) || not (bit_and flags o_rdwr == 0);
  off = off;
}

abbrev pub set_file : ℕ → File → Fds → Fds
set_file f x s = record s { files = record (s.files) { file = update s.files.file f x } }

-- The O_APPEND branch of `sys_openat` and what follows it; `size` is what `vfs_stat` answers.
unfoldable pub finish_open : ℕ → ℕ → ℕ → Result ℕ → ℕ → Fds → Result ℕ × Fds
unfolding install
finish_open p vn flags size f s =
    let x = s.files.file f in
    let plain = install p f (set_file f (opened vn flags 0 x) s) in
    let append : Result ℕ × Fds = elim size [
      | err e ↦ (
        err e,
        let s' = set_file f (opened vn flags 0 x) s in record s' { files = file_close f s'.files },
      )
      | ok n ↦ install p f (set_file f (opened vn flags n x) s)
    ] in
    if bit_and flags o_append == 0 then plain else append

-- `sys_openat` from `file_alloc` on.
unfoldable pub open_file : ℕ → ℕ → ℕ → Result ℕ → Fds → Result ℕ × Fds
unfolding finish_open
open_file p vn flags size s =
    let (f?, files) = file_alloc s.files in
    let s' = record s { files = files } in
    elim f? [ none ↦ (err emfile, s') | some f ↦ finish_open p vn flags size f s' ]

-- One round of the loop of `proc_fork` over the parent's descriptors, and the loop from `i` on.
pub fork_step : ℕ → ℕ → ℕ → Fds → Fds
unfolding put_dup
fork_step i parent child s = elim (slot s parent i) [ none ↦ s | some f ↦ put_dup child i f s ]

pub fork_loop : ℕ → ℕ → ℕ → ℕ → Fds → Fds
unfolding fork_step
fork_loop zero i parent child s = s
fork_loop (suc left) i parent child s =
    fork_loop left (i + 1) parent child (fork_step i parent child s)

-- The loop of `proc_exit`, from `i` on.
pub exit_loop : ℕ → ℕ → ℕ → Fds → Fds
unfolding close_slot
exit_loop zero i p s = s
exit_loop (suc left) i p s = exit_loop left (i + 1) p (close_slot p i s)
