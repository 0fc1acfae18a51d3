-- ===== src/Proc/System.antt =====
-- The processes and the scheduler together: control is in the scheduler's loop or with one process,
-- and each step is one of theirs.
mod Keeps
pub mod Invariant
pub mod Schedule
use os_agent_lab.Prelude.{
  ℕ, zero, suc, ◌+◌, ◌≤◌, ◌<◌, ◌≡◌, ◌≢◌, ◌^◌, Bool, true, false, Option, none, some, update, Result,
  List,
}
use os_agent_lab.Fd.{Fds}
use os_agent_lab.Proc.{
  Proc, ProcState, Kernel, AddressSpaces, nproc, is_runnable, zero_proc, proc_alloc, proc_fork,
  wait_pass, proc_yield, proc_exit, dispatch, switched_back,
}
use os_agent_lab.Proc.Table.{IsTable}

-- Where control is: at slot `i` of the loop in `scheduler`, or in process `p`.
pub data Place : Type 0 where
  scheduler : ℕ → Place
  process : ℕ → Place

module _ {M : Type 0} where
  -- What a process does besides: it computes, and its system calls change its memory, descriptors,
  -- size and directory (brk, exec, chdir, open, …).
  abbrev pub worked : ℕ → ℕ → ℕ → Option ℕ → M → Fds → Kernel M → Kernel M
  worked p pagetable sz cwd m fds k = record k {
    procs = update k.procs p (record (k.procs p) { pagetable = pagetable; sz = sz; cwd = cwd });
    memory = m;
    fds = fds;
  }

  -- The state that `main` calls `proc_alloc` in, after `proc_init`.
  abbrev pub blank : M → Fds → Kernel M
  blank m fds = record {
    procs = λ i. zero_proc;
    current = none;
    next_pid = 1;
    memory = m;
    fds = fds;
  }

  -- init->state = PROC_RUNNABLE
  abbrev pub ready : ℕ → Kernel M → Kernel M
  ready i k = record k {
    procs = update k.procs i (record (k.procs i) { state = ProcState.runnable });
  }

module _ {M : Type 0} (mem : AddressSpaces M) (vfs_root : Option ℕ) (kstacks : ℕ → ℕ) where
  pub data Step : Kernel M → Place → Kernel M → Place → Type 0 where
    skip :
        (k : Kernel M) (i : ℕ)
        → i < nproc
        → is_runnable (k.procs i).state ≡ false
        → Step k (Place.scheduler i) k (Place.scheduler (i + 1))
    again : (k : Kernel M) (i : ℕ) → i ≡ nproc → Step k (Place.scheduler i) k (Place.scheduler 0)
    run :
        (k : Kernel M) (i : ℕ)
        → i < nproc
        → is_runnable (k.procs i).state ≡ true
        → Step k (Place.scheduler i) (dispatch i k) (Place.process i)
    yields :
        (k : Kernel M) (p : ℕ)
        → Step k (Place.process p) (switched_back (proc_yield k)) (Place.scheduler (p + 1))
    forks :
        (k k' : Kernel M) (p : ℕ) (tf : Option ℕ) (r : Result ℕ)
        → k.next_pid + 1 < 2 ^ 31
        → proc_fork mem vfs_root kstacks tf k ≡ (r, k')
        → Step k (Place.process p) k' (Place.process p)
    waited :
        (k k' : Kernel M) (p : ℕ) (pid : Option ℕ) (r : Result (ℕ × ℕ))
        → wait_pass mem pid k ≡ (some r, k')
        → Step k (Place.process p) k' (Place.process p)
    waits :
        (k k' : Kernel M) (p : ℕ) (pid : Option ℕ)
        → wait_pass mem pid k ≡ (none, k')
        → Step k (Place.process p) (switched_back (proc_yield k')) (Place.scheduler (p + 1))
    exits :
        (k : Kernel M) (p status : ℕ)
        → Step k
            (Place.process p)
            (switched_back (proc_yield (proc_exit status k)))
            (Place.scheduler (p + 1))
    works :
        (k : Kernel M) (p pagetable sz : ℕ) (cwd : Option ℕ) (m : M) (fds : Fds)
        → Step k (Place.process p) (worked p pagetable sz cwd m fds k) (Place.process p)

  -- From the scheduler's start, where the first process has its program and is ready.
  pub data Reachable : Kernel M → Place → Type 0 where
    start :
        (m m' : M) (fds fds' : Fds) (i pagetable sz : ℕ) (cwd : Option ℕ) (k : Kernel M)
        → proc_alloc mem vfs_root kstacks (blank m fds) ≡ (some i, k)
        → Reachable (ready i (worked i pagetable sz cwd m' fds' k)) (Place.scheduler 0)
    step :
        (k : Kernel M) (at : Place) (k' : Kernel M) (at' : Place)
        → Reachable k at
        → Step k at k' at'
        → Reachable k' at'

module _ {M : Type 0} where
  -- In the scheduler no process is running; in a process it alone is, and is the current one.
  pub Located : Kernel M → Place → Type 0
  Located k (Place.scheduler i) =
      (i ≤ nproc)
      × (k.current ≡ none)
      × ((j : ℕ) → j < nproc → (k.procs j).state ≢ ProcState.running)
  Located k (Place.process p) =
      (p < nproc)
      × (k.current ≡ some p)
      × ((k.procs p).state ≡ ProcState.running)
      × ((j : ℕ) → j < nproc → j ≢ p → (k.procs j).state ≢ ProcState.running)

  pub record IsSystem (k : Kernel M) (at : Place) : Type 0 where
    pub table : IsTable k.procs k.next_pid
    pub located : Located k at
