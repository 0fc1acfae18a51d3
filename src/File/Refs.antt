-- ===== src/File/Refs.antt =====
-- The references that the file table counts, and what `file_alloc`, `file_dup` and `file_close` do
-- to them.
use os_agent_lab.Prelude.{
  ℕ, ◌+◌, ◌<◌, ◌≡◌, true, false, suc, zero, Bool-cases, Option-cases, refl, ◌≢◌, ◌⊎◌, sym, ◌∙◌,
  subst, ℕ_discrete, update, update_self, update_ne, inl, inr, Option, none, some, arith, ◌==◌,
  if◌then◌else◌, u32_mod,
}
use os_agent_lab.File.{Files, find_unused, file_alloc, file_dup, file_close, nfile, fresh_file}

abbrev pub refcount : Files → ℕ → ℕ
refcount s f = if s.used f then (s.file f).ref else 0

-- How often a descriptor refers to the file `f`.
abbrev pub refers : ℕ → Option ℕ → ℕ
refers f none = 0
refers f (some g) = if g == f then 1 else 0

-- A file in use has a reference.
abbrev pub Alive : Files → Type 0
Alive s = (f : ℕ) → s.used f ≡ true → 0 < (s.file f).ref

-- `file_close` takes one reference off a file that has some.
pub refcount-close :
    (s : Files) (f g : ℕ)
    → s.used f ≡ true
    → 0 < (s.file f).ref
    → (s.file f).ref < u32_mod
    → refcount (file_close f s) g + refers g (some f) ≡ refcount s g
unfolding file_close
refcount-close s f g u pos lt = ground arith

pub Alive-close :
    (s : Files) (f : ℕ)
    → 0 < (s.file f).ref
    → (s.file f).ref < u32_mod
    → Alive s
    → Alive (file_close f s)
unfolding file_close
Alive-close s f pos lt a g u = ground (arith, a g, a f)

-- `file_dup` adds one.
pub refcount-dup :
    (s : Files) (f g : ℕ)
    → s.used f ≡ true
    → (s.file f).ref + 1 < u32_mod
    → refcount (file_dup f s) g ≡ refcount s g + refers g (some f)
unfolding file_dup
refcount-dup s f g u lt = ground arith

pub Alive-dup : (s : Files) (f : ℕ) → (s.file f).ref + 1 < u32_mod → Alive s → Alive (file_dup f s)
unfolding file_dup
Alive-dup s f lt a g u = ground (arith, a g)

-- The index that the scan finds is in range, and unused.
find_unused-free :
    (left i j : ℕ) (s : Files) → find_unused left i s ≡ some j → (s.used j ≡ false) × (j < i + left)
unfolding find_unused
find_unused-free zero i j s h = cc
find_unused-free (suc left) i j s h = elim (Bool-cases (s.used i)) [
  | inl e ↦
      let r : (s.used j ≡ false) × (j < i + 1 + left) =
        find_unused-free left (i + 1) j s (rw e at h) in
      (r.0, omega (arith, r.1))
  | inr e ↦
      let same : some i ≡ some j = rw e at h in
      let i_is_j : i ≡ j = cc in (rw (← i_is_j) e, omega arith)
]

file_alloc-none : (s : Files) → find_unused nfile 0 s ≡ none → file_alloc s ≡ (none, s)
unfolding file_alloc
file_alloc-none s e = rw (e, file_alloc)

abbrev allocated : Files → ℕ → Files
allocated s f = record { used = update s.used f true; file = update s.file f fresh_file }

file_alloc-some :
    (s : Files) (f : ℕ) → find_unused nfile 0 s ≡ some f → file_alloc s ≡ (some f, allocated s f)
unfolding file_alloc
file_alloc-some s f e = rw (e, file_alloc)

-- A file handed out was unused, and has its first reference.
pub record Opened (s : Files) (f : ℕ) (t : Files) : Type 0 where
  pub in_range : f < nfile
  pub unused : s.used f ≡ false
  pub in_use : t.used f ≡ true
  pub fresh : t.file f ≡ fresh_file
  pub others : (g : ℕ) → g ≢ f → (t.used g ≡ s.used g) × (t.file g ≡ s.file g)

abbrev pub AllocOutcome : Files → Option ℕ × Files → Type 0
AllocOutcome s r = (r ≡ (none, s)) ⊎ ((f : ℕ) × (r.0 ≡ some f) × Opened s f r.1)

-- `file_alloc` fails and changes nothing, or hands out a file that was unused, with one reference,
-- and changes no other.
pub file_alloc-AllocOutcome : (s : Files) → AllocOutcome s (file_alloc s)
file_alloc-AllocOutcome s = elim (Option-cases (find_unused nfile 0 s)) [
  | inl e ↦ inl (file_alloc-none s e)
  | inr (f, e) ↦
      let free : (s.used f ≡ false) × (f < 0 + nfile) = find_unused-free nfile 0 f s e in
      inr (
        subst (λ (r : Option ℕ × Files). (g : ℕ) × (r.0 ≡ some g) × Opened s g r.1)
          (sym (file_alloc-some s f e))
          (
            f,
            refl,
            record {
              in_range = free.1;
              unused = free.0;
              in_use = update_self s.used f true;
              fresh = update_self s.file f fresh_file;
              others = λ g ne. (update_ne s.used f true g ne, update_ne s.file f fresh_file g ne);
            },
          ))
]

-- Its reference is counted.
pub refcount-Opened :
    (s t : Files) (f g : ℕ) → Opened s f t → refcount t g ≡ refcount s g + refers g (some f)
refcount-Opened s t f g o = elim (ℕ_discrete g f) [
  | yes e ↦ rw (e, o.in_use, o.fresh, o.unused) (ground arith)
  | no ne ↦
      let differ : (f == g) ≡ false = ground arith in
      rw ((o.others g ne).0, (o.others g ne).1, differ) (omega arith)
]

pub Alive-Opened : (s t : Files) (f : ℕ) → Opened s f t → Alive s → Alive t
Alive-Opened s t f o a g u = elim (ℕ_discrete g f) [
  | yes e ↦ rw (e, o.fresh) (omega arith)
  | no ne ↦ rw (o.others g ne).1 (a g (sym (o.others g ne).0 ∙ u))
]
