-- ===== src/Tests/Descriptors.antt =====
-- Two processes: the first opens a file, duplicates it, forks and exits.
use os_agent_lab.Prelude.{
  ℕ, zero, suc, ◌<◌, ◌≡◌, ◌≢◌, refl, false, [], ◌∷◌, none, some, arith, ok, get_or,
}
use os_agent_lab.File.{Files, fresh_file, released, file_alloc, find_unused}
use os_agent_lab.Fd.{
  Fds, Table, nofile, slot, fdalloc, install, sys_dup3, open_file, finish_open, find_fd, place,
  drop_on_err, fork_loop, exit_loop,
}
use os_agent_lab.Fd.Refs.{Counted}
use os_agent_lab.Fd.Open.{open_file-Counted}
use os_agent_lab.Fd.Slots.{sys_dup3_lem}
use os_agent_lab.Fd.Loops.{exit_loop-closes, fork_loop-shares}

abbrev no_files : Files
no_files = record { file = λ i. released fresh_file; used = λ i. false }

-- As many free descriptors.
abbrev free_slots : ℕ → Table
free_slots zero = []
free_slots (suc n) = none ∷ free_slots n

free_slots-none : (n j : ℕ) → get_or (free_slots n) j none ≡ none
free_slots-none zero j = refl
free_slots-none (suc n) zero = refl
free_slots-none (suc n) (suc j) = free_slots-none n j

abbrev free_table : Table
free_table = free_slots 16

abbrev start : Fds
start = record { files = no_files; tables = free_table ∷ free_table ∷ [] }

start-Counted : Counted start
start-Counted = record {
  sized = (refl, (refl, tt));
  few = omega arith;
  counts = λ f. refl;
  alive = λ f u. cc;
}

-- The first process has opened a file, as descriptor 3.
abbrev after_open : Fds
after_open = (open_file 0 5 0 (ok 0) start).1

open_file-Counted_example : Counted (open_file 0 5 0 (ok 0) start).1
open_file-Counted_example = open_file-Counted 0 5 0 (ok 0) start start-Counted (omega arith)

after_open-Counted : Counted after_open
after_open-Counted = open_file-Counted 0 5 0 (ok 0) start start-Counted (omega arith)

sys_dup3_lem_example :
    let (r, s') = sys_dup3 0 3 7 after_open in
    (r ≡ ok 7)
    × (slot s' 0 7 ≡ some 0)
    × ((j : ℕ) → 7 ≢ j → slot s' 0 j ≡ slot after_open 0 j)
    × Counted s'
unfolding open_file finish_open install fdalloc find_fd place drop_on_err file_alloc find_unused
sys_dup3_lem_example =
    sys_dup3_lem 0 3 7 0 after_open after_open-Counted (omega arith) (omega arith) (omega arith)
      refl (omega arith)

exit_loop-closes_example :
    Counted (exit_loop nofile 0 0 after_open)
    × ((fd : ℕ) → fd < nofile → slot (exit_loop nofile 0 0 after_open) 0 fd ≡ none)
unfolding open_file finish_open install fdalloc find_fd place drop_on_err file_alloc find_unused
exit_loop-closes_example = exit_loop-closes 0 after_open after_open-Counted (omega arith)

fork_loop-shares_example :
    Counted (fork_loop nofile 0 0 1 after_open)
    × ((fd : ℕ)
        → fd < nofile
        → (slot (fork_loop nofile 0 0 1 after_open) 1 fd ≡ slot after_open 0 fd)
          × (slot (fork_loop nofile 0 0 1 after_open) 0 fd ≡ slot after_open 0 fd))
unfolding open_file finish_open install fdalloc find_fd place drop_on_err file_alloc find_unused
fork_loop-shares_example =
    fork_loop-shares 0 1 after_open after_open-Counted (omega arith) (omega arith)
      (free_slots-none 16)
