-- ===== src/Fd/Refs.antt =====
-- Reference counts: `ref` of a file is the number of descriptors, of all processes, that hold it,
-- and a file is in use exactly while there is one. Every operation keeps this.
use os_agent_lab.Prelude.{
  ℕ, zero, suc, ◌+◌, ◌*◌, ◌≤◌, ◌<◌, ◌≡◌, refl, sym, ◌∙◌, true, List, [], ◌∷◌, Option, none, some,
  arith, length, set, get_or, length-set, subst, Option-cases, inl, inr,
}
use os_agent_lab.File.{Files, file_close}
use os_agent_lab.File.Refs.{refcount, refers, Alive, refcount-close, Alive-close}
use os_agent_lab.Fd.{Table, Fds, nofile, table, slot, put, close_slot}
use os_agent_lab.Fd.Count.{total, slots, count-set, total-set, total-le-slots, refers-le-total}

-- Every process has NOFILE descriptors.
abbrev pub Sized : List Table → Type 0
Sized [] = Unit {0}
Sized (t ∷ ts) = (length t ≡ nofile) × Sized ts

-- The counts are right, but for one reference `o` that no descriptor holds yet.
pub record Owes (s : Fds) (o : Option ℕ) : Type 0 where
  pub sized : Sized s.tables
  pub few : length s.tables ≤ 16
  pub counts : (f : ℕ) → total f s.tables + refers f o ≡ refcount s.files f
  pub alive : Alive s.files

abbrev pub Counted : Fds → Type 0
Counted s = Owes s none

refers-le : (f : ℕ) (o : Option ℕ) → refers f o ≤ 1
refers-le f none = omega arith
refers-le f (some g) = ground arith

slots-Sized : (ts : List Table) → Sized ts → slots ts ≡ length ts * nofile
slots-Sized [] h = refl
slots-Sized (t ∷ ts) h = omega (arith, h.0, slots-Sized ts h.1)

-- No count comes near the 32 bits of `ref`.
pub total-le : (s : Fds) (o : Option ℕ) (f : ℕ) → Owes s o → total f s.tables ≤ 256
total-le s o f v = omega (arith, total-le-slots f s.tables, slots-Sized s.tables v.sized, v.few)

Sized-set :
    (ts : List Table) (p : ℕ) (t : Table) → Sized ts → length t ≡ nofile → Sized (set ts p t)
Sized-set [] p t h e = tt
Sized-set (x ∷ ts) zero t h e = (e, h.1)
Sized-set (x ∷ ts) (suc p) t h e = (h.0, Sized-set ts p t h.1 e)

pub Sized-get :
    (ts : List Table) (p : ℕ) → Sized ts → p < length ts → length (get_or ts p []) ≡ nofile
Sized-get [] p h l = absurd (omega arith)
Sized-get (t ∷ ts) zero h l = h.0
Sized-get (t ∷ ts) (suc p) h l = Sized-get ts p h.1 (omega arith)

-- One descriptor written: one reference less to what it held, one more to what it holds.
pub total-put :
    (s : Fds) (p fd : ℕ) (v : Option ℕ) (g : ℕ)
    → Sized s.tables
    → p < length s.tables
    → fd < nofile
    → total g (put s p fd v).tables + refers g (slot s p fd) ≡ total g s.tables + refers g v
total-put s p fd v g h l k = omega (
  arith,
  total-set g p (set (table s p) fd v) s.tables l,
  count-set g fd v (table s p) (omega (arith, Sized-get s.tables p h l)),
)

pub put-shape :
    (s : Fds) (p fd : ℕ) (v : Option ℕ)
    → Sized s.tables
    → length s.tables ≤ 16
    → p < length s.tables
    → Sized (put s p fd v).tables × (length (put s p fd v).tables ≤ 16)
put-shape s p fd v h few l = (
  Sized-set s.tables p (set (table s p) fd v) h
      (length-set (table s p) fd v ∙ Sized-get s.tables p h l),
  omega (arith, length-set {0} s.tables p (set (table s p) fd v)),
)

-- A change of the file table and of one descriptor that answer each other.
pub Owes-put :
    (s : Fds) (files : Files) (p fd : ℕ) (v o o' : Option ℕ)
    → Owes s o
    → p < length s.tables
    → fd < nofile
    → Alive files
    → ((g : ℕ)
        → refcount files g + refers g (slot s p fd) + refers g o
          ≡ refcount s.files g + refers g v + refers g o')
    → Owes (put (record s { files = files }) p fd v) o'
Owes-put s files p fd v o o' c l k a h =
    let shape : Sized (put s p fd v).tables × (length (put s p fd v).tables ≤ 16) =
      put-shape s p fd v c.sized c.few l in
    record {
      sized = shape.0;
      few = shape.1;
      counts = λ g. omega (arith, total-put s p fd v g c.sized l k, h g, c.counts g);
      alive = a;
    }

-- A change of the file table alone.
pub Owes-files :
    (s : Fds) (files : Files) (o o' : Option ℕ)
    → Owes s o
    → Alive files
    → ((g : ℕ) → refcount files g + refers g o ≡ refcount s.files g + refers g o')
    → Owes (record s { files = files }) o'
Owes-files s files o o' c a h = record {
  sized = c.sized;
  few = c.few;
  counts = λ g. omega (arith, h g, c.counts g);
  alive = a;
}

refers_self : (f : ℕ) → refers f (some f) ≡ 1
refers_self f = ground arith

in_use :
    (s : Files) (f : ℕ) → 0 < refcount s f → (s.used f ≡ true) × (refcount s f ≡ (s.file f).ref)
in_use s f h = ground arith

-- A file that a descriptor holds is in use.
pub held :
    (s : Fds) (o : Option ℕ) (p fd f : ℕ)
    → Owes s o
    → slot s p fd ≡ some f
    → (s.files.used f ≡ true) × (0 < (s.files.file f).ref) × ((s.files.file f).ref ≤ 257)
held s o p fd f c e =
    let here : refers f (some f) ≤ total f s.tables = rw e at (refers-le-total f p fd s.tables) in
    let more : refers f o ≤ 1 = refers-le f o in
    let u : (s.files.used f ≡ true) × (refcount s.files f ≡ (s.files.file f).ref) =
      in_use s.files f (omega (arith, here, refers_self f, c.counts f)) in
    (u.0, c.alive f u.0, omega (arith, u.1, c.counts f, total-le s o f c, more))

-- So is a file that is owed.
pub owed :
    (s : Fds) (f : ℕ)
    → Owes s (some f)
    → (s.files.used f ≡ true) × (0 < (s.files.file f).ref) × ((s.files.file f).ref ≤ 257)
owed s f c =
    let u : (s.files.used f ≡ true) × (refcount s.files f ≡ (s.files.file f).ref) =
      in_use s.files f (omega (arith, refers_self f, c.counts f)) in
    (
      u.0,
      c.alive f u.0,
      omega (arith, u.1, c.counts f, total-le s (some f) f c, refers-le f (some f)),
    )

pub close_slot-some :
    (s : Fds) (p fd f : ℕ)
    → slot s p fd ≡ some f
    → close_slot p fd s ≡ put (record s { files = file_close f s.files }) p fd none
unfolding close_slot
close_slot-some s p fd f e = rw (e, close_slot)

pub close_slot-none : (s : Fds) (p fd : ℕ) → slot s p fd ≡ none → close_slot p fd s ≡ s
unfolding close_slot
close_slot-none s p fd e = rw (e, close_slot)

-- Closing a descriptor keeps the counts.
pub close_slot-Counted :
    (s : Fds) (p fd : ℕ)
    → Counted s
    → p < length s.tables
    → fd < nofile
    → Counted (close_slot p fd s)
close_slot-Counted s p fd c l k = elim (Option-cases (slot s p fd)) [
  | inl e ↦ subst Counted (sym (close_slot-none s p fd e)) c
  | inr (f, e) ↦
      let h : (s.files.used f ≡ true) × (0 < (s.files.file f).ref) × ((s.files.file f).ref ≤ 257) =
        held s none p fd f c e in
      subst Counted (sym (close_slot-some s p fd f e)) (
        Owes-put s (file_close f s.files) p fd none none none c l k
          (Alive-close s.files f h.1 (omega (arith, h)) c.alive)
          (λ g. rw e (omega (arith, refcount-close s.files f g h.0 h.1 (omega (arith, h))))))
]
