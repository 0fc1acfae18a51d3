-- ===== src/Proc/Table.antt =====
-- What holds of the process table between any two steps: live processes have pids that were handed
-- out, no two the same, and a parent is a slot of the table.
use os_agent_lab.Prelude.{
  ℕ, ◌≤◌, ◌<◌, ◌≡◌, sym, ap, ◌∙◌, ◌⊎◌, inl, inr, false, some, update, update_self, update_ne, arith,
  ℕ_discrete, subst,
}
use os_agent_lab.Proc.{Proc, nproc, is_unused}

-- A slot that holds a process.
abbrev pub Live : Proc → Type 0
Live x = is_unused x.state ≡ false

pub record IsTable (procs : ℕ → Proc) (next_pid : ℕ) : Type 0 where
  pub positive : 1 ≤ next_pid
  pub pids : (i : ℕ) → i < nproc → Live (procs i) → (1 ≤ (procs i).pid) × ((procs i).pid < next_pid)
  pub distinct :
      (i j : ℕ)
      → i < nproc
      → j < nproc
      → Live (procs i)
      → Live (procs j)
      → (procs i).pid ≡ (procs j).pid
      → i ≡ j
  pub parents : (i p : ℕ) → i < nproc → Live (procs i) → (procs i).parent ≡ some p → p < nproc

-- Where a live process of the changed table comes from: it has the pid it had, or it is the new one,
-- in slot `i`.
abbrev pub Origin : (ℕ → Proc) → (ℕ → Proc) → ℕ → ℕ → ℕ → ℕ → Type 0
Origin procs procs' next_pid next_pid' i j =
    (Live (procs j) × ((procs' j).pid ≡ (procs j).pid))
    ⊎ ((j ≡ i) × ((procs' j).pid ≡ next_pid) × (next_pid < next_pid'))

module _ (procs procs' : ℕ → Proc) (next_pid next_pid' i : ℕ) (t : IsTable procs next_pid) where
  same_slot :
      (j k : ℕ)
      → j < nproc
      → k < nproc
      → Origin procs procs' next_pid next_pid' i j
      → Origin procs procs' next_pid next_pid' i k
      → (procs' j).pid ≡ (procs' k).pid
      → j ≡ k
  same_slot j k jl kl (inl (lj, pj)) (inl (lk, pk)) e = t.distinct j k jl kl lj lk (sym pj ∙ e ∙ pk)
  same_slot j k jl kl (inl (lj, pj)) (inr (at, pk, lt)) e = absurd (omega (arith, t.pids j jl lj))
  same_slot j k jl kl (inr (at, pj, lt)) (inl (lk, pk)) e = absurd (omega (arith, t.pids k kl lk))
  same_slot j k jl kl (inr (at, pj, lt)) (inr (at', pk, lt')) e = at ∙ sym at'

  handed_out :
      (j : ℕ)
      → j < nproc
      → next_pid ≤ next_pid'
      → Origin procs procs' next_pid next_pid' i j
      → (1 ≤ (procs' j).pid) × ((procs' j).pid < next_pid')
  handed_out j jl le (inl (lj, pj)) = let p = t.pids j jl lj in (omega arith, omega arith)
  handed_out j jl le (inr (at, pj, lt)) = (omega (arith, t.positive), omega arith)

  pub IsTable-Origin :
      next_pid ≤ next_pid'
      → ((j : ℕ) → j < nproc → Live (procs' j) → Origin procs procs' next_pid next_pid' i j)
      → ((j p : ℕ) → j < nproc → Live (procs' j) → (procs' j).parent ≡ some p → p < nproc)
      → IsTable procs' next_pid'
  IsTable-Origin le origin par = record {
    positive = omega (arith, t.positive);
    pids = λ j jl live. handed_out j jl le (origin j jl live);
    distinct = λ j k jl kl lj lk e. same_slot j k jl kl (origin j jl lj) (origin k kl lk) e;
    parents = par;
  }

-- One slot changes, and keeps its pid, or is freed; its parent is a slot of the table.
pub IsTable-update :
    (procs : ℕ → Proc) (next_pid i : ℕ) (x : Proc)
    → IsTable procs next_pid
    → (Live x → Live (procs i) × (x.pid ≡ (procs i).pid))
    → ((p : ℕ) → Live x → x.parent ≡ some p → p < nproc)
    → IsTable (update procs i x) next_pid
IsTable-update procs next_pid i x t pid par =
    IsTable-Origin procs (update procs i x) next_pid next_pid i t (omega arith)
      (λ j jl live. elim (ℕ_discrete j i) [
        | yes p ↦
            let at : update procs i x j ≡ x = ap (update procs i x) p ∙ update_self procs i x in
            let (l, e) = pid (subst Live at live) in
            inl (
              subst (λ (k : ℕ). Live (procs k)) (sym p) l,
              ap (λ (y : Proc). y.pid) at ∙ e ∙ ap (λ (k : ℕ). (procs k).pid) (sym p),
            )
        | no p ↦
            let at : update procs i x j ≡ procs j = update_ne procs i x j p in
            inl (subst Live at live, ap (λ (y : Proc). y.pid) at)
      ])
      (λ j q jl live e. elim (ℕ_discrete j i) [
        | yes p ↦
            let at : update procs i x j ≡ x = ap (update procs i x) p ∙ update_self procs i x in
            par q (subst Live at live) (sym (ap (λ (y : Proc). y.parent) at) ∙ e)
        | no p ↦
            let at : update procs i x j ≡ procs j = update_ne procs i x j p in
            t.parents j q jl (subst Live at live) (sym (ap (λ (y : Proc). y.parent) at) ∙ e)
      ])
