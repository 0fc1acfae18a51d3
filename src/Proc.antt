-- ===== src/Proc.antt =====
-- The process table, GPT-5.2-Codex/code/kernel/proc.c: proc_init, proc_alloc, proc_fork, proc_wait,
-- proc_exit and proc_yield, and one round of the scheduler. Proc/Shebang is the part of exec that
-- reads the first line of a script; the rest of exec is not modelled.
pub mod Table
pub mod Alloc
pub mod Fork
pub mod Wait
pub mod Shebang
pub mod System
use os_agent_lab.Prelude.{
  ℕ, zero, suc, ◌+◌, ◌*◌, Bool, true, false, ◌&&◌, ◌||◌, not, Option, none, some, List, ◌==◌,
  if◌then◌else◌, add32, update, Result, ok, err, Errno, einval, enomem, echild, replicate, set,
}
use os_agent_lab.Fd.{Fds, nofile, fork_loop, exit_loop}

-- enum proc_state
pub data ProcState : Type 0 where
  unused used runnable running sleeping zombie : ProcState

-- NPROC
abbrev pub nproc : ℕ
nproc = 16

-- struct proc, but for `ofile`, which is a table of `Fds`, and for the saved registers `ctx`.
-- `exit_status` is an int as its 32 bits.
pub record Proc : Type 0 where
  pub pid : ℕ
  pub state : ProcState
  pub tf : ℕ
  pub pagetable : ℕ
  pub sz : ℕ
  pub kstack : ℕ
  pub cwd : Option ℕ
  pub parent : Option ℕ
  pub exit_status : ℕ

-- The functions of mm.c and vm.c that the process table calls, as operations on the memory `M`:
-- `uvm_copy` and `uvm_copy_range` answer whether they succeeded, and `copy_frame` is the memcpy
-- between two trap frames, followed by `a0 = 0`.
pub record AddressSpaces (M : Type 0) : Type 0 where
  pub kalloc : M → Option ℕ × M
  pub kfree : ℕ → M → M
  pub uvm_create : M → Option ℕ × M
  pub uvm_free : ℕ → M → M
  pub uvm_copy : ℕ → ℕ → ℕ → M → Bool × M
  pub uvm_copy_range : ℕ → ℕ → ℕ → ℕ → M → Bool × M
  pub copy_frame : ℕ → ℕ → M → M

-- g_procs, g_current and g_next_pid, with the memory and the descriptors. Process `i` stands in
-- slot `i`, and its descriptors are table `i`.
pub record Kernel (M : Type 0) : Type 0 where
  pub procs : ℕ → Proc
  pub current : Option ℕ
  pub next_pid : ℕ
  pub memory : M
  pub fds : Fds

-- memset(p, 0, sizeof(*p))
abbrev pub zero_proc : Proc
zero_proc = record {
  pid = 0;
  state = ProcState.unused;
  tf = 0;
  pagetable = 0;
  sz = 0;
  kstack = 0;
  cwd = none;
  parent = none;
  exit_status = 0;
}

-- The tests on a state.
unfoldable pub is_unused : ProcState → Bool
is_unused ProcState.unused = true
is_unused _ = false

unfoldable pub is_runnable : ProcState → Bool
is_runnable ProcState.runnable = true
is_runnable _ = false

unfoldable pub is_running : ProcState → Bool
is_running ProcState.running = true
is_running _ = false

unfoldable pub is_zombie : ProcState → Bool
is_zombie ProcState.zombie = true
is_zombie _ = false

-- The parent's pointer is compared with the caller's.
unfoldable pub is_child_of : ℕ → Option ℕ → Bool
is_child_of p none = false
is_child_of p (some q) = q == p

pub proc_init : (ℕ → Proc) → ℕ → Proc
proc_init procs i = record (procs i) { state = ProcState.unused }

-- The scan of `proc_proc_find_unused`, among `left` slots from `i` on.
unfoldable pub proc_find_unused : ℕ → ℕ → (ℕ → Proc) → Option ℕ
unfolding is_unused
proc_find_unused zero i procs = none
proc_find_unused (suc left) i procs =
    let rest = proc_find_unused left (i + 1) procs in
    if is_unused (procs i).state then some i else rest

module _ {M : Type 0} (mem : AddressSpaces M) (vfs_root : Option ℕ) (kstacks : ℕ → ℕ) where
  abbrev pub set_proc : ℕ → Proc → Kernel M → Kernel M
  set_proc i x k = record k { procs = update k.procs i x }

  abbrev pub set_memory : M → Kernel M → Kernel M
  set_memory m k = record k { memory = m }

  -- The slot is given back.
  abbrev pub give_up : ℕ → Kernel M → Option ℕ × Kernel M
  give_up i k = (none, set_proc i (record (k.procs i) { state = ProcState.unused }) k)

  -- The slot zeroed, with its pid; its descriptors are NULL. The counter is an `int`, kept as 32 bits:
  -- the `++` is defined up to 2^31 - 1.
  abbrev pub zeroed_slot : ℕ → Kernel M → Kernel M
  zeroed_slot i k = record k {
    procs = update k.procs i (record zero_proc { state = ProcState.used; pid = k.next_pid });
    next_pid = add32 k.next_pid 1;
    fds = record (k.fds) { tables = set k.fds.tables i (replicate nofile none) };
  }

  -- After `uvm_create`.
  unfoldable pub with_pagetable : ℕ → ℕ → Option ℕ × M → Kernel M → Option ℕ × Kernel M
  with_pagetable i frame (none, m) k = give_up i (set_memory (mem.kfree frame m) k)
  with_pagetable i frame (some root, m) k = (
    some i,
    set_memory m (
        set_proc i
          (record (k.procs i) { tf = frame; kstack = kstacks i; pagetable = root; cwd = vfs_root })
          k),
  )

  -- After `kalloc`.
  unfoldable pub with_frame : ℕ → Option ℕ × M → Kernel M → Option ℕ × Kernel M
  unfolding with_pagetable
  with_frame i (none, m) k = give_up i (set_memory m k)
  with_frame i (some frame, m) k = with_pagetable i frame (mem.uvm_create m) k

  unfoldable pub alloc_in : Option ℕ → Kernel M → Option ℕ × Kernel M
  unfolding with_frame
  alloc_in none k = (none, k)
  alloc_in (some i) k = with_frame i (mem.kalloc k.memory) (zeroed_slot i k)

  unfoldable pub proc_alloc : Kernel M → Option ℕ × Kernel M
  unfolding alloc_in proc_find_unused
  proc_alloc k = alloc_in (proc_find_unused nproc 0 k.procs) k

  -- USER_STACK_BASE and USER_STACK_TOP
  abbrev pub user_stack_top : ℕ
  user_stack_top = 0x1400000

  abbrev pub user_stack_base : ℕ
  user_stack_base = 0x1380000

  -- The copies of `proc_fork`: the second is made when the first succeeded.
  pub copy_space : ℕ → ℕ → ℕ → M → Bool × M
  copy_space src dst sz m =
      let (copied, m') = mem.uvm_copy src dst sz m in
      elim copied [
        | true ↦ mem.uvm_copy_range src dst user_stack_base user_stack_top m'
        | false ↦ (false, m')
      ]

  -- What is left of the child when its memory could not be copied.
  pub unforked : ℕ → Kernel M → Result ℕ × Kernel M
  unforked np k =
      let x = k.procs np in
      (
        err enomem,
        set_memory (mem.kfree x.tf (mem.uvm_free x.pagetable k.memory))
            (set_proc np (record x { state = ProcState.unused }) k),
      )

  -- The child with the parent's memory. `tf` is the frame that was passed, `none` for NULL.
  pub forked : ℕ → ℕ → Option ℕ → Kernel M → Result ℕ × Kernel M
  forked p np tf k =
      let x = k.procs np in
      let parent = k.procs p in
      let frame : ℕ = elim tf [ none ↦ parent.tf | some a ↦ a ] in
      (
        ok x.pid,
        record k {
          memory = mem.copy_frame x.tf frame k.memory;
          fds = fork_loop nofile 0 p np k.fds;
          procs = update k.procs np (record x {
            sz = parent.sz;
            parent = some p;
            cwd = parent.cwd;
            state = ProcState.runnable;
          });
        },
      )

  pub after_copy : ℕ → ℕ → Option ℕ → Bool × M → Kernel M → Result ℕ × Kernel M
  unfolding unforked forked
  after_copy p np tf (false, m) k = unforked np (set_memory m k)
  after_copy p np tf (true, m) k = forked p np tf (set_memory m k)

  pub fork_into : ℕ → Option ℕ → Option ℕ × Kernel M → Result ℕ × Kernel M
  unfolding after_copy copy_space
  fork_into p tf (none, k) = (err enomem, k)
  fork_into p tf (some np, k) =
      after_copy p np tf
        (copy_space (k.procs p).pagetable (k.procs np).pagetable (k.procs p).sz k.memory) k

  pub fork_from : Option ℕ → Option ℕ → Kernel M → Result ℕ × Kernel M
  unfolding fork_into proc_alloc
  fork_from none tf k = (err einval, k)
  fork_from (some p) tf k = fork_into p tf (proc_alloc k)

  pub proc_fork : Option ℕ → Kernel M → Result ℕ × Kernel M
  unfolding fork_from
  proc_fork tf k = fork_from k.current tf k

-- What one pass of `proc_wait` over the table comes to: a zombie to collect, or none, and then
-- whether the caller has any child.
pub data Search : Type 0 where
  collect : ℕ → Search
  exhausted : Bool → Search

-- The pass, among `left` slots from `i` on. `pid` is `none` for -1.
pub search_children : ℕ → ℕ → Bool → ℕ → Option ℕ → (ℕ → Proc) → Search
unfolding is_unused is_zombie is_child_of
search_children zero i found p pid procs = exhausted found
search_children (suc left) i found p pid procs =
    let c = procs i in
    let mine = is_child_of p c.parent && not (is_unused c.state) in
    let wanted : Bool = elim pid [ none ↦ true | some n ↦ c.pid == n ] in
    let rest = search_children left (i + 1) (found || mine) p pid procs in
    if mine && (wanted && is_zombie c.state) then collect i else rest

module _ {M : Type 0} (mem : AddressSpaces M) where
  -- The pid and the exit status of the child in slot `i`, and the slot given back.
  pub reap : ℕ → Kernel M → (ℕ × ℕ) × Kernel M
  reap i k =
      let c = k.procs i in
      (
        (c.pid, c.exit_status),
        record k {
          memory = mem.kfree c.tf (mem.uvm_free c.pagetable k.memory);
          procs = update k.procs i (record c { parent = none; state = ProcState.unused });
        },
      )

  -- One pass of the loop: `none` where the caller yields and looks again.
  pub after_search : Search → Kernel M → Option (Result (ℕ × ℕ)) × Kernel M
  unfolding reap
  after_search (collect i) k = let (r, k') = reap i k in (some (ok r), k')
  after_search (exhausted true) k = (none, k)
  after_search (exhausted false) k = (some (err echild), k)

  pub pass_from : Option ℕ → Option ℕ → Kernel M → Option (Result (ℕ × ℕ)) × Kernel M
  unfolding after_search search_children
  pass_from none pid k = (some (err einval), k)
  pass_from (some p) pid k = after_search (search_children nproc 0 false p pid k.procs) k

  pub wait_pass : Option ℕ → Kernel M → Option (Result (ℕ × ℕ)) × Kernel M
  unfolding pass_from
  wait_pass pid k = pass_from k.current pid k

module _ {M : Type 0} where
  pub yield_from : Option ℕ → Kernel M → Kernel M
  unfolding is_running
  yield_from none k = k
  yield_from (some p) k =
      let x = k.procs p in
      if is_running x.state
      then record k { procs = update k.procs p (record x { state = ProcState.runnable }) }
      else k

  -- `proc_yield`, up to the switch.
  pub proc_yield : Kernel M → Kernel M
  unfolding yield_from
  proc_yield k = yield_from k.current k

  pub exit_from : Option ℕ → ℕ → Kernel M → Kernel M
  exit_from none status k = k
  exit_from (some p) status k = record k {
    fds = exit_loop nofile 0 p k.fds;
    procs =
        update k.procs p (record (k.procs p) { exit_status = status; state = ProcState.zombie });
  }

  -- `proc_exit`, up to its yield.
  pub proc_exit : ℕ → Kernel M → Kernel M
  unfolding exit_from
  proc_exit status k = exit_from k.current status k

  -- The scheduler's side of a switch to process `i`, and of the switch back.
  unfoldable pub dispatch : ℕ → Kernel M → Kernel M
  dispatch i k = record k {
    current = some i;
    procs = update k.procs i (record (k.procs i) { state = ProcState.running });
  }

  pub switched_back : Kernel M → Kernel M
  switched_back k = record k { current = none }
