-- ===== src/Proc/Alloc.antt =====
-- What `proc_alloc` does: it takes a free slot for a new process, or leaves the processes there are.
use os_agent_lab.Prelude.{
  ℕ, zero, suc, ◌+◌, ◌<◌, ◌≡◌, ◌≢◌, refl, sym, true, Option, none, some, replicate, set, arith,
  ℕ_discrete, Bool-cases, subst, inl, inr, ◌⊎◌, add32, get_elem?, get_elem?-set_ne, ap, ◌∙◌,
}
use os_agent_lab.Fd.{nofile, Fds}
use os_agent_lab.Proc.{
  Proc, ProcState, Kernel, AddressSpaces, nproc, is_unused, proc_find_unused, zeroed_slot,
  with_pagetable, with_frame, alloc_in, proc_alloc,
}
use os_agent_lab.Proc.Table.{Live}

Free : (ℕ → Proc) → Option ℕ → ℕ → Type 0
Free procs none top = (j : ℕ) → j < top → Live (procs j)
Free procs (some i) top = (i < top) × (is_unused (procs i).state ≡ true)

proc_find_unused-Free :
    (left i : ℕ) (procs : ℕ → Proc)
    → ((j : ℕ) → j < i → Live (procs j))
    → Free procs (proc_find_unused left i procs) (i + left)
unfolding proc_find_unused Free
proc_find_unused-Free zero i procs below = λ j lt. below j (omega arith)
proc_find_unused-Free (suc left) i procs below = elim (Bool-cases (is_unused (procs i).state)) [
  | inl free ↦ rw free (omega arith, free)
  | inr live ↦
      let at : i + 1 + left ≡ i + suc left = omega arith in
      rw live (
        subst (Free procs (proc_find_unused left (i + 1) procs)) at (
          proc_find_unused-Free left (i + 1) procs (λ j lt. elim (ℕ_discrete j i) [
            | yes p ↦ subst (λ (n : ℕ). Live (procs n)) (sym p) live
            | no p ↦ below j (omega (arith, p))
          ])))
]

module _ {M : Type 0} where
  -- No process has come, gone or changed, nor have the descriptors of any; the counter may have moved.
  pub record Untouched (k k' : Kernel M) : Type 0 where
    pub live : (j : ℕ) → j < nproc → Live (k.procs j) → k'.procs j ≡ k.procs j
    pub dead : (j : ℕ) → j < nproc → Live (k'.procs j) → Live (k.procs j)
    pub current : k'.current ≡ k.current
    pub next_pid : (k'.next_pid ≡ k.next_pid) ⊎ (k'.next_pid ≡ add32 k.next_pid 1)
    pub tables :
        (j : ℕ)
        → j < nproc
        → Live (k.procs j)
        → get_elem? k'.fds.tables j ≡ get_elem? k.fds.tables j
    pub files : k'.fds.files ≡ k.fds.files

  -- A new process in slot `i`, which was free: it has the next pid, no parent and no descriptors.
  pub record Created (k k' : Kernel M) (i : ℕ) : Type 0 where
    pub slot : i < nproc
    pub was_free : is_unused (k.procs i).state ≡ true
    pub state : (k'.procs i).state ≡ ProcState.used
    pub pid : (k'.procs i).pid ≡ k.next_pid
    pub parent : (k'.procs i).parent ≡ none
    pub others : (j : ℕ) → j ≢ i → k'.procs j ≡ k.procs j
    pub next_pid : k'.next_pid ≡ add32 k.next_pid 1
    pub current : k'.current ≡ k.current
    pub fds : k'.fds ≡ record (k.fds) { tables = set k.fds.tables i (replicate nofile none) }

  unfoldable pub AllocOutcome : Kernel M → Option ℕ × Kernel M → Type 0
  AllocOutcome k (none, k') = Untouched k k'
  AllocOutcome k (some i, k') = Created k k' i

  -- The slot was zeroed_slot and given back.
  pub gave_up :
      (i : ℕ) (k k' : Kernel M)
      → is_unused (k.procs i).state ≡ true
      → is_unused (k'.procs i).state ≡ true
      → ((j : ℕ) → j ≢ i → k'.procs j ≡ k.procs j)
      → k'.current ≡ k.current
      → k'.next_pid ≡ add32 k.next_pid 1
      → k'.fds ≡ record (k.fds) { tables = set k.fds.tables i (replicate nofile none) }
      → Untouched k k'
  gave_up i k k' free free' same cur next fds = record {
    live = λ j lt live. same j (λ e. cc (subst (λ (n : ℕ). Live (k.procs n)) e live, free));
    dead = λ j lt live.
        let other : j ≢ i = λ e. cc (subst (λ (n : ℕ). Live (k'.procs n)) e live, free') in
        subst Live (same j other) live;
    current = cur;
    next_pid = inr next;
    tables = λ j lt live.
        ap (λ (x : Fds). get_elem? x.tables j) fds
        ∙ get_elem?-set_ne k.fds.tables (replicate nofile none)
            (λ e. cc (subst (λ (n : ℕ). Live (k.procs n)) (sym e) live, free));
    files = ap (λ (x : Fds). x.files) fds;
  }

module _ {M : Type 0} (mem : AddressSpaces M) (vfs_root : Option ℕ) (kstacks : ℕ → ℕ) where
  with_pagetable-AllocOutcome :
      (i frame : ℕ) (q : Option ℕ × M) (k : Kernel M)
      → i < nproc
      → is_unused (k.procs i).state ≡ true
      → AllocOutcome k
          (with_pagetable mem vfs_root kstacks i frame q (zeroed_slot mem vfs_root kstacks i k))
  unfolding AllocOutcome with_pagetable is_unused
  with_pagetable-AllocOutcome i frame (none, m') k lt free =
      gave_up i k
        (with_pagetable mem vfs_root kstacks i frame (none, m')
          (zeroed_slot mem vfs_root kstacks i k)).1
        free (ground arith) (λ j ne. ground arith) refl refl refl
  with_pagetable-AllocOutcome i frame (some root, m') k lt free = record {
    slot = lt;
    was_free = free;
    state = ground arith;
    pid = ground arith;
    parent = ground arith;
    others = λ j ne. ground arith;
    next_pid = refl;
    current = refl;
    fds = refl;
  }

  with_frame-AllocOutcome :
      (i : ℕ) (q : Option ℕ × M) (k : Kernel M)
      → i < nproc
      → is_unused (k.procs i).state ≡ true
      → AllocOutcome k (with_frame mem vfs_root kstacks i q (zeroed_slot mem vfs_root kstacks i k))
  unfolding AllocOutcome with_frame is_unused
  with_frame-AllocOutcome i (none, m') k lt free =
      gave_up i k
        (with_frame mem vfs_root kstacks i (none, m') (zeroed_slot mem vfs_root kstacks i k)).1 free
        (ground arith) (λ j ne. ground arith) refl refl refl
  with_frame-AllocOutcome i (some frame, m') k lt free =
      with_pagetable-AllocOutcome i frame (mem.uvm_create m') k lt free

  alloc_in-AllocOutcome :
      (o : Option ℕ) (k : Kernel M)
      → Free k.procs o nproc
      → AllocOutcome k (alloc_in mem vfs_root kstacks o k)
  unfolding AllocOutcome alloc_in Free
  alloc_in-AllocOutcome none k free = record {
    live = λ j lt l. refl;
    dead = λ j lt l. l;
    current = refl;
    next_pid = inl refl;
    tables = λ j lt l. refl;
    files = refl;
  }
  alloc_in-AllocOutcome (some i) k (lt, free) =
      with_frame-AllocOutcome i (mem.kalloc k.memory) k lt free

  -- `proc_alloc` in every state.
  pub proc_alloc-AllocOutcome : (k : Kernel M) → AllocOutcome k (proc_alloc mem vfs_root kstacks k)
  unfolding proc_alloc
  proc_alloc-AllocOutcome k =
      alloc_in-AllocOutcome (proc_find_unused nproc 0 k.procs) k
        (proc_find_unused-Free nproc 0 k.procs (λ j lt. absurd (omega arith)))
