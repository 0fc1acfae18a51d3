-- ===== src/Lib.antt =====
-- os_agent_lab: the kernel of GPT-5.2-Codex/code/kernel as definitions, and what they do.
--
-- The kernel is a small Unix for RISC-V. Its page allocator (mm.c) threads free pages into a chain
-- inside physical memory; the page tables (vm.c) are pages of that allocator, map the user's
-- addresses, and carry every copy between the kernel and a process; a process (proc.c) has a table
-- of descriptors that refer to reference-counted files (file.c), which the system calls (syscall.c)
-- open, duplicate and close; a file refers to a vnode (vfs.c) of the memory file system (ramfs.c)
-- or of FAT32 (fat32.c).
--
-- The user programs link against a C library of their own (user/lib).
--
-- Files and sources (under GPT-5.2-Codex/code/kernel where no other place is named):
--   Prelude    shared names: Boolean tests, lists, machine words with their wrap-around, arrays as
--              functions of the index, and error results (errno.h)
--   Phys       memory as a byte at each address; loads, stores, memset and memcpy (string.c)
--   Mm         mm.c: kfree, kalloc, align_up, kinit. Mm/FreeList, Mm/Init: the free list
--   Vm         vm.c: walk, walkaddr. Vm/Flags: entries as numbers; Vm/Walk, Vm/Grow: walks that find
--              and that allocate; Vm/Space: uvm_map, uvm_unmap, uvm_alloc, uvm_dealloc, uvm_copy and
--              uvm_copy_range; Vm/CopyUser: copyin, copyout and copyinstr
--   File       file.c: file_alloc, file_dup, file_close. File/Refs: what they do to the counts.
--              File/Io: file_read, file_write and file_truncate, with vfs_read, vfs_write and
--              vfs_truncate of vfs.c, over the operations of a vnode
--   Fd         syscall.c: fdalloc, sys_close, sys_dup, sys_dup3 and the end of sys_openat; proc.c: the
--              loops over ofile of proc_fork and proc_exit. Fd/Refs: the counts over all tables
--   Names      name_eq_nocase of vfs.c, ramfs.c and fat32.c
--   Path       path_next of vfs.c. Path/Split: a path as its names
--   Vnode      the vnode pool of vfs.c
--   Vfs        vfs.c: mounts, vfs_lookup_at and vfs_resolve_parent_at. Vfs/Enter: what one name and
--              the start of a path lead to; Vfs/Walk, Vfs/Parent: the names that they enter.
--              Vfs/Make: vfs_create_at, vfs_mkdir_at and vfs_unlink_at
--   Ramfs      ramfs.c: nodes, read, write and truncate. Ramfs/Content, Ramfs/Truncate: file contents;
--              Ramfs/Operations: what a vnode of it does; Ramfs/Dir: lookup, create, mkdir and
--              unlink
--   Disk       blk_read and blk_write (include/blk.h), as operations on the state of a disk
--   Fat        fat32.c: the allocation table, fat32_alloc_cluster, fat32_free_chain and
--              fat32_get_cluster_at. Fat/Entries: the table as a function of the cluster;
--              Fat/Chains: chains of clusters; Fat/FreeLoop, Fat/Freed: what is freed; Fat/Failed:
--              errors; Fat/Zeroed, Fat/Alloc: new clusters; Fat/Ensure: fat32_ensure_chain;
--              Fat/Mount: fat32_mount. Fat/Files: fat32_refresh_node and fat32_read_op, with
--              Fat/Files/Read: what they read; Fat/Modify: fat32_update_dirent, fat32_write_op and
--              fat32_truncate_op, with Overlay, Loop, Clusters, Contents, Whole, Written, Dirent
--              and ReadBack below it: what fat32_write_op leaves on the disk
--   Proc       proc.c: proc_alloc, proc_fork, proc_wait, proc_exit, proc_yield. Proc/Table: pids and
--              parents; Proc/Alloc, Proc/Fork, Proc/Wait: the operations; Proc/System: the steps of
--              the processes and of scheduler, their invariant, and what the scheduler picks;
--              Proc/Shebang: parse_shebang
--   UserLib    user/lib (beside kernel). UserLib/Mem, UserLib/Str: string.c, blocks of memory and
--              strings; UserLib/Fnmatch: fnmatch.c; UserLib/Stdlib, UserLib/Search: the numbers
--              and bsearch of stdlib.c, and ctype.c; UserLib/Printf: vformat and vsnprintf of
--              printf.c, with Printf/Text, Printf/Render: the text of a format and who prints it,
--              and Printf/Digits, Printf/Numbers: numbers that are printed and read back
--   Tests      concrete inputs
--
-- A function of the source keeps its name; one round of a loop, or the part of a function behind a
-- value that it waits for, is a function of its own beside it. The state that a function changes
-- (Memory, Files, Fds, Pool, Ramfs) is passed and returned. A pointer into an array is an index,
-- a pointer to physical memory is its address, and NULL is `none` or 0 as the source treats it.
-- A negative error code is `err`. The kernel runs on one hart and switches between processes in
-- proc_yield only, so a call is one step, and proc_wait one for each pass over the table. A step of
-- the kernel that is not modelled may change the process's own memory, descriptors, size and
-- directory. The counter of process numbers is an `int` of 32 bits; the
-- steps of the system fork only while it is below 2^31 - 1.
--
-- Fuel: `kinit` takes fuel for each page and one more, which its theorem asks for; `uvm_map` of one
-- page takes 2 and `copyin` and `copyout` one for each byte, given in the definitions themselves;
-- `uvm_alloc`, `uvm_copy` and `uvm_copy_range` take one for each page of the range.
-- `fat32_free_chain` takes fuel for each cluster and two more: a round clears an entry, or meets one
-- that is zero already, and then one more round stops.
-- The loops of `fat32_read_op` and `fat32_write_op` take fuel for each byte and one more: each round
-- takes at least one.
-- The loops over arrays take the array's length, and the loop over the children of a directory the
-- number of nodes. The loops over a path take its length and one more.
--
-- A name in ramfs is a list of bytes without the NUL, and the array of 256 bytes that holds it is
-- not modelled; neither is the address of a node that stat reports as its number. The linker's
-- symbol __kernel_end is an argument of `kinit`, and the answer of vfs_stat one of `open_file`.
-- The operations that a vnode points to are records that the functions of paths and of open files
-- take; a vnode that they hand out may be NULL, and an access through it is a `fault`. The disk
-- under FAT32 is a parameter, of which the theorems ask that it returns what was written, and so
-- are the operations on address spaces under the process table; a string of the user library is
-- the list of its bytes up to the NUL. What `fat32_read_op` puts into the buffer is a list, and the
-- number that it returns is the length of the list. The arguments of a format are a list of
-- pointers to strings and registers; where `printf` would read an argument that is not there, or
-- past the end of the format, the model has a fault. A file of FAT32 knows the fields of its node
-- that reading and writing use.
-- Not modelled: uvm_create and uvm_free, which read the control register satp; the rest of vfs.c
-- and of the system calls; exec but for parse_shebang, and the ELF loader; the
-- directories of FAT32; the devices; traps, the timer, the console and boot; the firmware, the
-- rest of the user library, the user programs, and the other kernels under Trae.
pub mod Prelude
pub mod Disk
pub mod Fat
pub mod Fd
pub mod File
pub mod Mm
pub mod Names
pub mod Path
pub mod Phys
pub mod Proc
pub mod Ramfs
pub mod UserLib
pub mod Vfs
pub mod Vm
pub mod Vnode
pub mod Tests
