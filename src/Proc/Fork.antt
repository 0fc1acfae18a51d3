-- ===== src/Proc/Fork.antt =====
-- What `proc_fork` does: a new process like its parent, or ENOMEM and the processes as they were.
use os_agent_lab.Prelude.{
  ℕ, ◌+◌, ◌<◌, ◌≡◌, ◌≢◌, refl, sym, ap, ◌∙◌, Bool, true, false, Option, none, some, replicate, set,
  update_ne, arith, subst, ◌^◌, Result, ok, err, enomem,
}
use os_agent_lab.Fd.{nofile, fork_loop}
use os_agent_lab.Proc.{
  Proc, ProcState, Kernel, AddressSpaces, nproc, is_unused, proc_alloc, unforked, forked,
  copy_space, after_copy, fork_into, fork_from, proc_fork,
}
use os_agent_lab.Proc.Table.{Live}
use os_agent_lab.Proc.Alloc.{Untouched, Created, gave_up, AllocOutcome, proc_alloc-AllocOutcome}

module _ {M : Type 0} where
  -- The process `p` has a new child in slot `np`, which was free: ready to run, with the next pid and
  -- the parent's size, directory and descriptors.
  pub record Child (k k' : Kernel M) (p np : ℕ) : Type 0 where
    pub slot : np < nproc
    pub was_free : is_unused (k.procs np).state ≡ true
    pub pid : (k'.procs np).pid ≡ k.next_pid
    pub state : (k'.procs np).state ≡ ProcState.runnable
    pub parent : (k'.procs np).parent ≡ some p
    pub sz : (k'.procs np).sz ≡ (k.procs p).sz
    pub cwd : (k'.procs np).cwd ≡ (k.procs p).cwd
    pub others : (j : ℕ) → j ≢ np → k'.procs j ≡ k.procs j
    pub next_pid : k'.next_pid ≡ k.next_pid + 1
    pub current : k'.current ≡ k.current
    pub fds :
        k'.fds
        ≡ fork_loop nofile 0 p np
            (record (k.fds) { tables = set k.fds.tables np (replicate nofile none) })

  unfoldable pub ForkOutcome : Kernel M → ℕ → Result ℕ × Kernel M → Type 0
  ForkOutcome k p (err e, k') = (e ≡ enomem) × Untouched k k'
  ForkOutcome k p (ok pid, k') = (pid ≡ k.next_pid) × ((np : ℕ) × Child k k' p np)

module _ {M : Type 0} (mem : AddressSpaces M) (vfs_root : Option ℕ) (kstacks : ℕ → ℕ) where
  after_copy-ForkOutcome :
      (p np : ℕ) (tf : Option ℕ) (q : Bool × M) (k k' : Kernel M)
      → Live (k.procs p)
      → Created k k' np
      → k.next_pid + 1 < 2 ^ 31
      → ForkOutcome k p (after_copy mem vfs_root kstacks p np tf q k')
  unfolding ForkOutcome after_copy unforked forked is_unused
  after_copy-ForkOutcome p np tf (false, m) k k' live new small = (
    refl,
    gave_up np k (after_copy mem vfs_root kstacks p np tf (false, m) k').1 new.was_free
        (ground arith) (λ j ne. update_ne k'.procs np _ j ne ∙ new.others j ne) new.current
        new.next_pid new.fds,
  )
  after_copy-ForkOutcome p np tf (true, m) k k' live new small =
      let other : p ≢ np = λ e. cc (subst (λ (n : ℕ). Live (k.procs n)) e live, new.was_free) in
      let parents : k'.procs p ≡ k.procs p = new.others p other in
      (
        new.pid,
        (
          np,
          record {
            slot = new.slot;
            was_free = new.was_free;
            pid = ground (arith, new.pid);
            state = ground arith;
            parent = ground arith;
            sz = ground (arith, ap (λ (y : Proc). y.sz) parents);
            cwd = ground (arith, ap (λ (y : Proc). y.cwd) parents);
            others = λ j ne. update_ne k'.procs np _ j ne ∙ new.others j ne;
            next_pid = omega (arith, new.next_pid);
            current = new.current;
            fds = ap (fork_loop nofile 0 p np) new.fds;
          },
        ),
      )

  fork_into-ForkOutcome :
      (p : ℕ) (tf : Option ℕ) (q : Option ℕ × Kernel M) (k : Kernel M)
      → Live (k.procs p)
      → AllocOutcome k q
      → k.next_pid + 1 < 2 ^ 31
      → ForkOutcome k p (fork_into mem vfs_root kstacks p tf q)
  unfolding ForkOutcome AllocOutcome fork_into
  fork_into-ForkOutcome p tf (none, k') k live same small = (refl, same)
  fork_into-ForkOutcome p tf (some np, k') k live new small =
      after_copy-ForkOutcome p np tf
        (copy_space mem vfs_root kstacks (k'.procs p).pagetable (k'.procs np).pagetable
          (k'.procs p).sz k'.memory)
        k k' live new small

  -- A call by process `p`, which is the current one and live, with the counter of pids below 2^31 - 1:
  -- ENOMEM, and all live processes are as
  -- they were, with the descriptors of each and the open files; or the next pid, and a slot that was free holds a process with it that is ready to run
  -- and has `p` as its parent, with its size and directory and the descriptors that the loop copies,
  -- and no other slot has changed.
  pub proc_fork-ForkOutcome :
      (k : Kernel M) (p : ℕ) (tf : Option ℕ)
      → k.current ≡ some p
      → Live (k.procs p)
      → k.next_pid + 1 < 2 ^ 31
      → ForkOutcome k p (proc_fork mem vfs_root kstacks tf k)
  unfolding proc_fork fork_from
  proc_fork-ForkOutcome k p tf cur live small =
      subst (λ (o : Option ℕ). ForkOutcome k p (fork_from mem vfs_root kstacks o tf k)) (sym cur)
        (fork_into-ForkOutcome p tf (proc_alloc mem vfs_root kstacks k) k live
          (proc_alloc-AllocOutcome mem vfs_root kstacks k) small)
