-- ===== src/Fd/Place.antt =====
-- What `fdalloc` does to the descriptors of the process and of the others.
use os_agent_lab.Prelude.{
  ℕ, ◌+◌, ◌≤◌, ◌<◌, ◌≡◌, ◌≢◌, refl, sym, subst, none, some, arith, length, Result, ok, err, inl,
  inr, Option-cases, emfile, ◌⊎◌,
}
use os_agent_lab.Fd.{Fds, nofile, find_fd, fdalloc, table, slot, put}
use os_agent_lab.Fd.Alloc.{IsFirst, find_fd-IsFirst, find_fd-none}
use os_agent_lab.Fd.Refs.{Sized, Sized-get}
use os_agent_lab.Fd.Slots.{slot-put_self, slot-put_ne, slot-put_other}

-- Descriptor `fd` of process `p`, the first free one from 3 on, has become `f`; all others are kept.
pub record Placed (s : Fds) (p f fd : ℕ) (s' : Fds) : Type 0 where
  pub first : IsFirst (table s p) 3 fd
  pub in_range : fd < nofile
  pub holds : slot s' p fd ≡ some f
  pub same : (j : ℕ) → fd ≢ j → slot s' p j ≡ slot s p j
  pub other : (q j : ℕ) → p ≢ q → slot s' q j ≡ slot s q j

fdalloc-found :
    (p f i : ℕ) (s : Fds)
    → find_fd 13 3 (table s p) ≡ some i
    → fdalloc p f s ≡ (ok i, put s p i (some f))
unfolding fdalloc
fdalloc-found p f i s e = rw e refl

fdalloc-full :
    (p f : ℕ) (s : Fds) → find_fd 13 3 (table s p) ≡ none → fdalloc p f s ≡ (err emfile, s)
unfolding fdalloc
fdalloc-full p f s e = rw e refl

abbrev pub FdallocOutcome : Fds → ℕ → ℕ → Result ℕ × Fds → Type 0
FdallocOutcome s p f r =
    ((fd : ℕ) × (r.0 ≡ ok fd) × Placed s p f fd r.1)
    ⊎ ((r ≡ (err emfile, s)) × ((fd : ℕ) → 3 ≤ fd → fd < nofile → slot s p fd ≢ none))

-- For a process whose table has 16 entries, `fdalloc` puts the file into the lowest free descriptor
-- from 3 on and changes no other descriptor of any process; or all of 3 to 15 are taken, and it
-- answers EMFILE and changes nothing.
pub fdalloc-FdallocOutcome :
    (p f : ℕ) (s : Fds)
    → Sized s.tables
    → p < length s.tables
    → FdallocOutcome s p f (fdalloc p f s)
fdalloc-FdallocOutcome p f s sized l = elim (Option-cases (find_fd 13 3 (table s p))) [
  | inl e ↦ inr (fdalloc-full p f s e, λ fd lo hi. find_fd-none 13 3 fd (table s p) e lo hi)
  | inr (i, e) ↦
      let first : IsFirst (table s p) 3 i × (i < 3 + 13) = find_fd-IsFirst 13 3 i (table s p) e in
      let size : length (table s p) ≡ nofile = Sized-get s.tables p sized l in
      inl (
        subst (λ (r : Result ℕ × Fds). (fd : ℕ) × (r.0 ≡ ok fd) × Placed s p f fd r.1)
          (sym (fdalloc-found p f i s e))
          (
            i,
            refl,
            record {
              first = first.0;
              in_range = first.1;
              holds = slot-put_self s p i (some f) l (omega (arith, size, first.1));
              same = λ j ne. slot-put_ne s p i j (some f) l ne;
              other = λ q j ne. slot-put_other s p q i j (some f) ne;
            },
          ))
]
