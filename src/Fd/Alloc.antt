-- ===== src/Fd/Alloc.antt =====
-- `fdalloc`: the lowest free descriptor from 3 on.
use os_agent_lab.Prelude.{
  ℕ, zero, suc, ◌+◌, ◌≤◌, ◌<◌, ◌≡◌, ◌≢◌, none, some, arith, get_or, Option-cases, inl, inr,
  ℕ_discrete, sym, ◌∙◌,
}
use os_agent_lab.Fd.{Table, find_fd}

-- `j` is the first free descriptor at or after `i`.
pub record IsFirst (t : Table) (i j : ℕ) : Type 0 where
  pub above : i ≤ j
  pub vacant : get_or t j none ≡ none
  pub taken : (m : ℕ) → i ≤ m → m < j → get_or t m none ≢ none

find_fd-step :
    (left i j : ℕ) (t : Table) → get_or t i none ≢ none → IsFirst t (i + 1) j → IsFirst t i j
find_fd-step left i j t busy f = record {
  above = omega (arith, f.above);
  vacant = f.vacant;
  taken =
      λ m lo hi. elim (ℕ_discrete m i) [ yes e ↦ rw e busy | no ne ↦ f.taken m (omega arith) hi ];
}

find_fd-here : (left i : ℕ) (t : Table) → get_or t i none ≡ none → find_fd (suc left) i t ≡ some i
unfolding find_fd
find_fd-here left i t e = rw (e, find_fd)

find_fd-next :
    (left i : ℕ) (t : Table) {x : ℕ}
    → get_or t i none ≡ some x
    → find_fd (suc left) i t ≡ find_fd left (i + 1) t
unfolding find_fd
find_fd-next left i t e = rw (e, find_fd)

-- A descriptor that is found is the first free one, and in range.
pub find_fd-IsFirst :
    (left i j : ℕ) (t : Table) → find_fd left i t ≡ some j → IsFirst t i j × (j < i + left)
unfolding find_fd
find_fd-IsFirst zero i j t h = cc
find_fd-IsFirst (suc left) i j t h = elim (Option-cases (get_or t i none)) [
  | inl e ↦
      let same : i ≡ j = cc (find_fd-here left i t e) in
      (
        rw (← same)
            (record { above = omega arith; vacant = e; taken = λ m lo hi. absurd (omega arith) }),
        omega arith,
      )
  | inr (x, e) ↦
      let later : IsFirst t (i + 1) j × (j < i + 1 + left) =
        find_fd-IsFirst left (i + 1) j t (sym (find_fd-next left i t e) ∙ h) in
      (find_fd-step left i j t (λ z. cc) later.0, omega (arith, later.1))
]

-- Where none is found, all of them are taken.
pub find_fd-none :
    (left i m : ℕ) (t : Table)
    → find_fd left i t ≡ none
    → i ≤ m
    → m < i + left
    → get_or t m none ≢ none
find_fd-none zero i m t h lo hi = absurd (omega arith)
find_fd-none (suc left) i m t h lo hi = elim (Option-cases (get_or t i none)) [
  | inl e ↦ cc (find_fd-here left i t e)
  | inr (x, e) ↦ elim (ℕ_discrete m i) [
    | yes q ↦ λ z. let z' : get_or t i none ≡ none = rw (← q) z in cc
    | no ne ↦
        find_fd-none left (i + 1) m t (sym (find_fd-next left i t e) ∙ h) (omega arith)
          (omega arith)
  ]
]
