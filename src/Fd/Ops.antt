-- ===== src/Fd/Ops.antt =====
-- Every system call on descriptors keeps the reference counts right.
use os_agent_lab.Prelude.{
  ℕ, ◌+◌, ◌≤◌, ◌<◌, ◌≡◌, sym, ap, true, none, some, arith, length, subst, Option-cases, inl, inr,
  ok, err, ebadf, emfile, Result,
}
use os_agent_lab.File.{file_dup, file_close}
use os_agent_lab.File.Refs.{refcount-close, Alive-close, refcount-dup, Alive-dup}
use os_agent_lab.Fd.{
  Fds, nofile, table, slot, put, find_fd, close_slot, file_at, sys_close, install, sys_dup,
}
use os_agent_lab.Fd.Alloc.{IsFirst, find_fd-IsFirst}
use os_agent_lab.Fd.Refs.{
  Owes, Counted, Owes-put, Owes-files, held, owed, close_slot-Counted, close_slot-some,
}

-- The three parts of a closing or duplicating step on the file table.
pub close_owed :
    (s : Fds) (f : ℕ) → Owes s (some f) → Counted (record s { files = file_close f s.files })
close_owed s f c =
    let h : (s.files.used f ≡ true) × (0 < (s.files.file f).ref) × ((s.files.file f).ref ≤ 257) =
      owed s f c in
    Owes-files s (file_close f s.files) (some f) none c
      (Alive-close s.files f h.1 (omega (arith, h)) c.alive)
      (λ g. omega (arith, refcount-close s.files f g h.0 h.1 (omega (arith, h))))

dup_held :
    (s : Fds) (p fd f : ℕ)
    → Counted s
    → slot s p fd ≡ some f
    → Owes (record s { files = file_dup f s.files }) (some f)
dup_held s p fd f c e =
    let h : (s.files.used f ≡ true) × (0 < (s.files.file f).ref) × ((s.files.file f).ref ≤ 257) =
      held s none p fd f c e in
    Owes-files s (file_dup f s.files) none (some f) c
      (Alive-dup s.files f (omega (arith, h)) c.alive)
      (λ g. omega (arith, refcount-dup s.files f g h.0 (omega (arith, h))))

-- A descriptor that is free is given the file that is owed.
put_owed :
    (s : Fds) (p fd f : ℕ)
    → Owes s (some f)
    → p < length s.tables
    → fd < nofile
    → slot s p fd ≡ none
    → Counted (put s p fd (some f))
put_owed s p fd f c l k e =
    Owes-put s s.files p fd (some f) (some f) none c l k c.alive (λ g. rw e (omega arith))

install-found :
    (p f i : ℕ) (s : Fds)
    → find_fd 13 3 (table s p) ≡ some i
    → install p f s ≡ (ok i, put s p i (some f))
unfolding install
install-found p f i s e = rw e

install-full :
    (p f : ℕ) (s : Fds)
    → find_fd 13 3 (table s p) ≡ none
    → install p f s ≡ (err emfile, record s { files = file_close f s.files })
unfolding install
install-full p f s e = rw e

-- An owed file is put into a free descriptor, or its reference is dropped.
pub install-Counted :
    (p f : ℕ) (s : Fds) → Owes s (some f) → p < length s.tables → Counted (install p f s).1
install-Counted p f s c l = elim (Option-cases (find_fd 13 3 (table s p))) [
  | inl e ↦
      subst (λ (r : Result ℕ × Fds). Counted r.1) (sym (install-full p f s e)) (close_owed s f c)
  | inr (i, e) ↦
      let first : IsFirst (table s p) 3 i × (i < 3 + 13) = find_fd-IsFirst 13 3 i (table s p) e in
      subst (λ (r : Result ℕ × Fds). Counted r.1) (sym (install-found p f i s e))
        (put_owed s p i f c l (omega (arith, first.1)) first.0.vacant)
]

file_at-some :
    (s : Fds) (p fd f : ℕ) → file_at s p fd ≡ some f → (fd < nofile) × (slot s p fd ≡ some f)
file_at-some s p fd f e = ground arith

sys_dup-some :
    (p fd f : ℕ) (s : Fds)
    → file_at s p fd ≡ some f
    → sys_dup p fd s ≡ install p f (record s { files = file_dup f s.files })
unfolding sys_dup
sys_dup-some p fd f s e = rw (e, sys_dup)

sys_dup-none : (p fd : ℕ) (s : Fds) → file_at s p fd ≡ none → sys_dup p fd s ≡ (err ebadf, s)
unfolding sys_dup
sys_dup-none p fd s e = rw (e, sys_dup)

-- `dup` keeps the counts right, whether or not the descriptor is open and one is left.
pub sys_dup-Counted :
    (p fd : ℕ) (s : Fds) → Counted s → p < length s.tables → Counted (sys_dup p fd s).1
sys_dup-Counted p fd s c l = elim (Option-cases (file_at s p fd)) [
  | inl e ↦ subst (λ (r : Result ℕ × Fds). Counted r.1) (sym (sys_dup-none p fd s e)) c
  | inr (f, e) ↦
      subst (λ (r : Result ℕ × Fds). Counted r.1) (sym (sys_dup-some p fd f s e))
        (install-Counted p f (record s { files = file_dup f s.files })
          (dup_held s p fd f c (file_at-some s p fd f e).1) l)
]

sys_close-some :
    (p fd f : ℕ) (s : Fds) → file_at s p fd ≡ some f → sys_close p fd s ≡ (ok 0, close_slot p fd s)
unfolding sys_close
sys_close-some p fd f s e =
    rw (e, sys_close)
      (ap (λ x. (ok 0, x)) (sym (close_slot-some s p fd f (file_at-some s p fd f e).1)))

sys_close-none : (p fd : ℕ) (s : Fds) → file_at s p fd ≡ none → sys_close p fd s ≡ (err ebadf, s)
unfolding sys_close
sys_close-none p fd s e = rw (e, sys_close)

-- `close` keeps the counts right, whether or not the descriptor is open.
pub sys_close-Counted :
    (p fd : ℕ) (s : Fds) → Counted s → p < length s.tables → Counted (sys_close p fd s).1
sys_close-Counted p fd s c l = elim (Option-cases (file_at s p fd)) [
  | inl e ↦ subst (λ (r : Result ℕ × Fds). Counted r.1) (sym (sys_close-none p fd s e)) c
  | inr (f, e) ↦
      subst (λ (r : Result ℕ × Fds). Counted r.1) (sym (sys_close-some p fd f s e))
        (close_slot-Counted s p fd c l (file_at-some s p fd f e).0)
]
