-- ===== src/Tests/Processes.antt =====
-- Two processes: process 0 runs, and its child in slot 1 has exited with status 7. The memory is a
-- counter of pages.
use os_agent_lab.Prelude.{ℕ, ◌+◌, ◌≡◌, refl, true, false, none, some, arith, update, replicate}
use os_agent_lab.File.{fresh_file}
use os_agent_lab.Fd.{Fds}
use os_agent_lab.Proc.{
  ProcState, Kernel, AddressSpaces, zero_proc, is_runnable, is_unused, proc_fork, dispatch,
  wait_pass, proc_alloc, alloc_in, with_frame, with_pagetable, proc_find_unused,
}
use os_agent_lab.Proc.Fork.{ForkOutcome, proc_fork-ForkOutcome}
use os_agent_lab.Proc.Wait.{WaitOutcome, wait_pass-WaitOutcome}
use os_agent_lab.Proc.System.{Place, Step, Reachable, IsSystem, blank, ready, worked}
use os_agent_lab.Proc.System.Invariant.{Reachable-IsSystem}
use os_agent_lab.Proc.System.Schedule.{Picks, Scans, IsNext, scheduler-Picks}

abbrev pages : AddressSpaces ℕ
pages = record {
  kalloc = λ m. (some m, m + 1);
  kfree = λ a m. m;
  uvm_create = λ m. (some m, m + 1);
  uvm_free = λ r m. m;
  uvm_copy = λ s d n m. (true, m);
  uvm_copy_range = λ s d b e m. (true, m);
  copy_frame = λ d s m. m;
}

abbrev stacks : ℕ → ℕ
stacks i = i

abbrev no_fds : Fds
no_fds = record {
  files = record { file = λ i. fresh_file; used = λ i. false };
  tables = replicate 16 (replicate 16 none);
}

abbrev two : Kernel ℕ
two = record {
  procs =
      update (update (λ i. zero_proc) 0 (record zero_proc { pid = 1; state = ProcState.running })) 1
        (record zero_proc { pid = 2; state = ProcState.zombie; parent = some 0; exit_status = 7 });
  current = some 0;
  next_pid = 3;
  memory = 100;
  fds = no_fds;
}

two-Live : is_unused (two.procs 0).state ≡ false
unfolding is_unused
two-Live = refl

proc_fork-ForkOutcome_example : ForkOutcome two 0 (proc_fork pages none stacks none two)
proc_fork-ForkOutcome_example =
    proc_fork-ForkOutcome pages none stacks two 0 none refl two-Live (omega arith)

wait_pass-WaitOutcome_example : WaitOutcome pages two 0 none (wait_pass pages none two)
wait_pass-WaitOutcome_example = wait_pass-WaitOutcome pages two 0 none refl

-- The first process after its allocation.
abbrev first : Kernel ℕ
first = (proc_alloc pages none stacks (blank 100 no_fds)).1

first_run : proc_alloc pages none stacks (blank 100 no_fds) ≡ (some 0, first)
unfolding proc_alloc alloc_in with_frame with_pagetable proc_find_unused is_unused
first_run = refl

abbrev booted : Kernel ℕ
booted = ready 0 (worked 0 5 4096 none 102 no_fds first)

booted-Reachable : Reachable pages none stacks booted (Place.scheduler 0)
booted-Reachable = Reachable.start 100 102 no_fds no_fds 0 5 4096 none first first_run

booted-runnable : is_runnable (booted.procs 0).state ≡ true
unfolding is_runnable
booted-runnable = refl

-- The first process runs and forks.
abbrev running : Kernel ℕ
running = dispatch 0 booted

abbrev with_child : Kernel ℕ
with_child = (proc_fork pages none stacks none running).1

running-Reachable : Reachable pages none stacks running (Place.process 0)
running-Reachable =
    Reachable.step booted (Place.scheduler 0) running (Place.process 0) booted-Reachable
      (Step.run booted 0 (omega arith) booted-runnable)

with_child-Reachable : Reachable pages none stacks with_child (Place.process 0)
unfolding proc_alloc alloc_in with_frame with_pagetable proc_find_unused is_unused dispatch
with_child-Reachable =
    Reachable.step running (Place.process 0) with_child (Place.process 0) running-Reachable (
      Step.forks running with_child 0 none (proc_fork pages none stacks none running).0
        (omega arith) refl)

Reachable-IsSystem_example : IsSystem with_child (Place.process 0)
Reachable-IsSystem_example =
    Reachable-IsSystem pages none stacks with_child (Place.process 0) with_child-Reachable

scheduler-Picks_example :
    ((q : ℕ) × Picks pages none stacks booted 3 q (dispatch q booted))
    × ((p : ℕ) (k' : Kernel ℕ)
        → Scans pages none stacks booted (Place.scheduler 3) k' (Place.process p)
        → IsNext booted 3 p k')
scheduler-Picks_example =
    scheduler-Picks pages none stacks booted 3 0 (omega arith) (omega arith) booted-runnable
