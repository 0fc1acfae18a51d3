-- ===== src/Fd/Slots.antt =====
-- What a descriptor holds after one was written or closed, and `dup3`.
use os_agent_lab.Prelude.{
  ℕ, ◌≤◌, ◌<◌, ◌≡◌, ◌≢◌, refl, sym, ◌∙◌, ap, true, false, [], Option, none, some, arith, length,
  set, leb, ◌==◌, Option-cases, inl, inr, ok, length-set, get_or-set_self, get_or-set_ne,
}
use os_agent_lab.File.{file_dup}
use os_agent_lab.File.Refs.{refcount-dup, Alive-dup}
use os_agent_lab.Fd.{Fds, nofile, table, slot, put, close_slot, put_dup, sys_dup3}
use os_agent_lab.Fd.Refs.{
  Counted, Owes-put, held, close_slot-Counted, close_slot-some, close_slot-none, Sized-get,
}

pub slot-put_self :
    (s : Fds) (p fd : ℕ) (v : Option ℕ)
    → p < length s.tables
    → fd < length (table s p)
    → slot (put s p fd v) p fd ≡ v
slot-put_self s p fd v l k =
    rw (get_or-set_self s.tables p (set (table s p) fd v) [] l)
      (get_or-set_self (table s p) fd v none k)

pub slot-put_ne :
    (s : Fds) (p fd j : ℕ) (v : Option ℕ)
    → p < length s.tables
    → fd ≢ j
    → slot (put s p fd v) p j ≡ slot s p j
slot-put_ne s p fd j v l ne =
    rw (get_or-set_self s.tables p (set (table s p) fd v) [] l)
      (get_or-set_ne (table s p) v none ne)

pub slot-put_other :
    (s : Fds) (p q fd j : ℕ) (v : Option ℕ) → p ≢ q → slot (put s p fd v) q j ≡ slot s q j
slot-put_other s p q fd j v ne = rw (get_or-set_ne s.tables (set (table s p) fd v) [] ne)

pub length-close_slot : (s : Fds) (p fd : ℕ) → length (close_slot p fd s).tables ≡ length s.tables
length-close_slot s p fd = elim (Option-cases (slot s p fd)) [
  | inl e ↦ ap (λ (t : Fds). length t.tables) (close_slot-none s p fd e)
  | inr (f, e) ↦
      ap (λ (t : Fds). length t.tables) (close_slot-some s p fd f e)
      ∙ length-set s.tables p (set (table s p) fd none)
]

-- A closed descriptor is free, and the others hold what they held.
pub slot-close_slot_self :
    (s : Fds) (p fd : ℕ)
    → Counted s
    → p < length s.tables
    → fd < nofile
    → slot (close_slot p fd s) p fd ≡ none
slot-close_slot_self s p fd c l k = elim (Option-cases (slot s p fd)) [
  | inl e ↦ ap (λ (t : Fds). slot t p fd) (close_slot-none s p fd e) ∙ e
  | inr (f, e) ↦
      ap (λ (t : Fds). slot t p fd) (close_slot-some s p fd f e)
      ∙ slot-put_self s p fd none l (omega (arith, Sized-get s.tables p c.sized l))
]

pub slot-close_slot_ne :
    (s : Fds) (p fd j : ℕ)
    → p < length s.tables
    → fd ≢ j
    → slot (close_slot p fd s) p j ≡ slot s p j
slot-close_slot_ne s p fd j l ne = elim (Option-cases (slot s p fd)) [
  | inl e ↦ ap (λ (t : Fds). slot t p j) (close_slot-none s p fd e)
  | inr (f, e) ↦
      ap (λ (t : Fds). slot t p j) (close_slot-some s p fd f e) ∙ slot-put_ne s p fd j none l ne
]

-- A free descriptor is made to hold a file that another one holds, in the same process or not.
pub put_dup-Counted :
    (s : Fds) (p i q fd f : ℕ)
    → Counted s
    → slot s p i ≡ some f
    → q < length s.tables
    → fd < nofile
    → slot s q fd ≡ none
    → Counted (put_dup q fd f s)
unfolding put_dup
put_dup-Counted s p i q fd f c e l k free =
    let h : (s.files.used f ≡ true) × (0 < (s.files.file f).ref) × ((s.files.file f).ref ≤ 257) =
      held s none p i f c e in
    Owes-put s (file_dup f s.files) q fd (some f) none none c l k
      (Alive-dup s.files f (omega (arith, h)) c.alive)
      (λ g. rw free (omega (arith, refcount-dup s.files f g h.0 (omega (arith, h)))))

sys_dup3-new :
    (p old new f : ℕ) (s : Fds)
    → old < nofile
    → new < nofile
    → slot s p old ≡ some f
    → old ≢ new
    → sys_dup3 p old new s ≡ (ok new, put_dup p new f (close_slot p new s))
unfolding sys_dup3
sys_dup3-new p old new f s lo hi e ne =
    let lo' : leb nofile old ≡ false = ground arith in
    let hi' : leb nofile new ≡ false = ground arith in
    let ne' : (old == new) ≡ false = ground arith in rw (lo', hi', e, sys_dup3, ne')

-- `dup3` onto another descriptor: both hold the old one's file, the other descriptors of the
-- process are as they were, and the counts are right.
pub sys_dup3_lem :
    (p old new f : ℕ) (s : Fds)
    → Counted s
    → p < length s.tables
    → old < nofile
    → new < nofile
    → slot s p old ≡ some f
    → old ≢ new
    → let (r, s') = sys_dup3 p old new s in
      (r ≡ ok new)
      × (slot s' p new ≡ some f)
      × ((j : ℕ) → new ≢ j → slot s' p j ≡ slot s p j)
      × Counted s'
unfolding put_dup
sys_dup3_lem p old new f s c l lo hi e ne =
    let t : Fds = close_slot p new s in
    let ct : Counted t = close_slot-Counted s p new c l hi in
    let lt : p < length t.tables = omega (arith, length-close_slot s p new) in
    let kept : slot t p old ≡ some f = slot-close_slot_ne s p new old l (λ q. ne (sym q)) ∙ e in
    rw (sys_dup3-new p old new f s lo hi e ne) (
      refl,
      slot-put_self t p new (some f) lt (omega (arith, Sized-get t.tables p ct.sized lt)),
      (λ j nj. slot-put_ne t p new j (some f) lt nj ∙ slot-close_slot_ne s p new j l nj),
      put_dup-Counted t p old p new f ct kept lt hi (slot-close_slot_self s p new c l hi),
    )
