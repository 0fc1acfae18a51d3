-- ===== src/Fd/Open.antt =====
-- `openat`: the new file, and the descriptor that holds it.
use os_agent_lab.Prelude.{
  ℕ, ◌<◌, ◌≡◌, refl, ap, sym, subst, Option, none, some, arith, length, Result, ok, err, inl, inr,
  Bool-cases, emfile, Errno, Result-cases, update, update_self, update_ne, ℕ_discrete, ◌==◌, true,
  false,
}
use Prim.Native.Nat.{bit_and}
use os_agent_lab.File.{File, Files, file_alloc, file_close}
use os_agent_lab.File.Refs.{file_alloc-AllocOutcome, refcount-Opened, Alive-Opened}
use os_agent_lab.Fd.{Fds, install, finish_open, open_file, set_file, opened, o_append}
use os_agent_lab.Fd.Refs.{Owes, Counted, Owes-files}
use os_agent_lab.Fd.Ops.{install-Counted, close_owed}

-- The fields of a file other than its count do not matter.
set_file-Owes :
    (s : Fds) (f : ℕ) (x : File) (o : Option ℕ)
    → x.ref ≡ (s.files.file f).ref
    → Owes s o
    → Owes (set_file f x s) o
set_file-Owes s f x o e c =
    let same : (g : ℕ) → (update s.files.file f x g).ref ≡ (s.files.file g).ref = λ g.
      elim (ℕ_discrete g f) [
        | yes h ↦ rw (h, update_self s.files.file f x) e
        | no ne ↦ rw (update_ne s.files.file f x g ne) refl
      ] in
    Owes-files s (set_file f x s).files o o c (λ g u. rw (same g) (c.alive g u))
      (λ g. rw (same g) refl)

finish_open-plain :
    (p vn flags : ℕ) (size : Result ℕ) (f : ℕ) (s : Fds)
    → (bit_and flags o_append == 0) ≡ true
    → finish_open p vn flags size f s
      ≡ install p f (set_file f (opened vn flags 0 (s.files.file f)) s)
unfolding finish_open
finish_open-plain p vn flags size f s e = rw e refl

finish_open-append :
    (p vn flags n f : ℕ) (s : Fds)
    → (bit_and flags o_append == 0) ≡ false
    → finish_open p vn flags (ok n) f s
      ≡ install p f (set_file f (opened vn flags n (s.files.file f)) s)
unfolding finish_open
finish_open-append p vn flags n f s e = rw e refl

finish_open-stat :
    (p vn flags f : ℕ) (e : Errno) (s : Fds)
    → (bit_and flags o_append == 0) ≡ false
    → finish_open p vn flags (err e) f s ≡ (
      err e,
      let s' = set_file f (opened vn flags 0 (s.files.file f)) s in
          record s' { files = file_close f s'.files },
    )
unfolding finish_open
finish_open-stat p vn flags f e s h = rw h refl

opened-Counted :
    (p vn flags off f : ℕ) (s : Fds)
    → Owes s (some f)
    → p < length s.tables
    → Counted (install p f (set_file f (opened vn flags off (s.files.file f)) s)).1
opened-Counted p vn flags off f s c l =
    install-Counted p f (set_file f (opened vn flags off (s.files.file f)) s)
      (set_file-Owes s f (opened vn flags off (s.files.file f)) (some f) refl c) l

finish_open-Counted :
    (p vn flags : ℕ) (size : Result ℕ) (f : ℕ) (s : Fds)
    → Owes s (some f)
    → p < length s.tables
    → Counted (finish_open p vn flags size f s).1
finish_open-Counted p vn flags size f s c l = elim (Bool-cases (bit_and flags o_append == 0)) [
  | inl e ↦
      subst (λ (r : Result ℕ × Fds). Counted r.1) (sym (finish_open-plain p vn flags size f s e))
        (opened-Counted p vn flags 0 f s c l)
  | inr e ↦ elim (Result-cases size) [
    | inl (n, h) ↦ rw h (
        subst (λ (r : Result ℕ × Fds). Counted r.1) (sym (finish_open-append p vn flags n f s e))
          (opened-Counted p vn flags n f s c l))
    | inr (x, h) ↦ rw h (
        subst (λ (r : Result ℕ × Fds). Counted r.1) (sym (finish_open-stat p vn flags f x s e))
          (close_owed (set_file f (opened vn flags 0 (s.files.file f)) s) f
            (set_file-Owes s f (opened vn flags 0 (s.files.file f)) (some f) refl c)))
  ]
]

open_file-none :
    (p vn flags : ℕ) (size : Result ℕ) (s : Fds)
    → file_alloc s.files ≡ (none, s.files)
    → open_file p vn flags size s ≡ (err emfile, s)
unfolding open_file
open_file-none p vn flags size s e =
    let nothing : (file_alloc s.files).0 ≡ none = ap (λ r. r.0) e in
    let kept : (file_alloc s.files).1 ≡ s.files = ap (λ r. r.1) e in
    rw (nothing, open_file) (ap (λ t. (err emfile, record s { files = t })) kept)

open_file-some :
    (p vn flags f : ℕ) (size : Result ℕ) (s : Fds)
    → (file_alloc s.files).0 ≡ some f
    → open_file p vn flags size s
      ≡ finish_open p vn flags size f (record s { files = (file_alloc s.files).1 })
unfolding open_file
open_file-some p vn flags f size s e = rw (e, open_file) refl

-- `openat`, from the file that it allocates on, keeps the counts right, however it ends: no file
-- left, no descriptor left, or a file whose size cannot be asked for.
pub open_file-Counted :
    (p vn flags : ℕ) (size : Result ℕ) (s : Fds)
    → Counted s
    → p < length s.tables
    → Counted (open_file p vn flags size s).1
open_file-Counted p vn flags size s c l = elim (file_alloc-AllocOutcome s.files) [
  | inl e ↦ subst (λ (r : Result ℕ × Fds). Counted r.1) (sym (open_file-none p vn flags size s e)) c
  | inr (f, e, o) ↦
      let t : Files = (file_alloc s.files).1 in
      subst (λ (r : Result ℕ × Fds). Counted r.1) (sym (open_file-some p vn flags f size s e))
        (finish_open-Counted p vn flags size f (record s { files = t })
          (Owes-files s t none (some f) c (Alive-Opened s.files t f o c.alive)
            (λ g. omega (arith, refcount-Opened s.files t f g o)))
          l)
]
