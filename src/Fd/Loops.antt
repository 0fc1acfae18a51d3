-- ===== src/Fd/Loops.antt =====
-- The descriptor loops of `proc_exit` and `proc_fork`.
use os_agent_lab.Prelude.{
  ℕ, zero, suc, ◌+◌, ◌≤◌, ◌<◌, ◌≡◌, ◌≢◌, refl, sym, ◌∙◌, none, some, arith, length, subst,
  Option-cases, inl, inr, ℕ_discrete, set, length-set,
}
use os_agent_lab.Fd.{Fds, nofile, table, slot, close_slot, put_dup, fork_step, fork_loop, exit_loop}
use os_agent_lab.Fd.Refs.{Counted, close_slot-Counted, Sized-get}
use os_agent_lab.Fd.Slots.{
  length-close_slot, slot-close_slot_self, slot-close_slot_ne, put_dup-Counted, slot-put_ne,
  slot-put_self, slot-put_other,
}

-- What `proc_exit` leaves of the descriptors of `p` from `i` on: the counts are right, those
-- descriptors are free, and the lower ones are as they were.
pub record Closed (s : Fds) (p i left : ℕ) (s' : Fds) : Type 0 where
  pub counted : Counted s'
  pub lengths : length s'.tables ≡ length s.tables
  pub closed : (j : ℕ) → i ≤ j → j < i + left → slot s' p j ≡ none
  pub lower : (j : ℕ) → j < i → slot s' p j ≡ slot s p j

pub exit_loop-Closed :
    (left i p : ℕ) (s : Fds)
    → Counted s
    → p < length s.tables
    → i + left ≤ nofile
    → Closed s p i left (exit_loop left i p s)
unfolding exit_loop
exit_loop-Closed zero i p s c l h = record {
  counted = c;
  lengths = refl;
  closed = λ j lo hi. absurd (omega arith);
  lower = λ j lo. refl;
}
exit_loop-Closed (suc left) i p s c l h =
    let t : Fds = close_slot p i s in
    let len : length t.tables ≡ length s.tables = length-close_slot s p i in
    let r : Closed t p (i + 1) left (exit_loop left (i + 1) p t) =
      exit_loop-Closed left (i + 1) p t (close_slot-Counted s p i c l (omega arith))
        (omega (arith, len)) (omega arith) in
    record {
      counted = r.counted;
      lengths = r.lengths ∙ len;
      closed = λ j lo hi. elim (ℕ_discrete j i) [
        | yes e ↦ rw e (r.lower i (omega arith) ∙ slot-close_slot_self s p i c l (omega arith))
        | no ne ↦ r.closed j (omega arith) (omega arith)
      ];
      lower = λ j lo. r.lower j (omega arith) ∙ slot-close_slot_ne s p i j l (omega arith);
    }

-- `proc_exit` closes every descriptor of the process and keeps the counts right.
pub exit_loop-closes :
    (p : ℕ) (s : Fds)
    → Counted s
    → p < length s.tables
    → Counted (exit_loop nofile 0 p s)
      × ((fd : ℕ) → fd < nofile → slot (exit_loop nofile 0 p s) p fd ≡ none)
exit_loop-closes p s c l =
    let r : Closed s p 0 nofile (exit_loop nofile 0 p s) =
      exit_loop-Closed nofile 0 p s c l (omega arith) in
    (r.counted, λ fd h. r.closed fd (omega arith) (omega arith))

-- What the loop of `proc_fork` has made of the child's descriptors.
pub record Forked (s : Fds) (parent child i left : ℕ) (s' : Fds) : Type 0 where
  pub counted : Counted s'
  pub copied : (j : ℕ) → i ≤ j → j < i + left → slot s' child j ≡ slot s parent j
  pub lower : (j : ℕ) → j < i → slot s' child j ≡ slot s child j
  pub parents : (j : ℕ) → slot s' parent j ≡ slot s parent j

fork_step-some :
    (i parent child f : ℕ) (s : Fds)
    → slot s parent i ≡ some f
    → fork_step i parent child s ≡ put_dup child i f s
unfolding fork_step
fork_step-some i parent child f s e = rw (e, fork_step)

fork_step-none :
    (i parent child : ℕ) (s : Fds) → slot s parent i ≡ none → fork_step i parent child s ≡ s
unfolding fork_step
fork_step-none i parent child s e = rw (e, fork_step)

-- One round.
record Stepped (s : Fds) (parent child i : ℕ) (t : Fds) : Type 0 where
  counted : Counted t
  lengths : length t.tables ≡ length s.tables
  copied : slot t child i ≡ slot s parent i
  others : (j : ℕ) → i ≢ j → slot t child j ≡ slot s child j
  parents : (j : ℕ) → slot t parent j ≡ slot s parent j

put_dup-Stepped :
    (s : Fds) (parent child i f : ℕ)
    → Counted s
    → parent ≢ child
    → child < length s.tables
    → i < nofile
    → slot s child i ≡ none
    → slot s parent i ≡ some f
    → Stepped s parent child i (put_dup child i f s)
unfolding put_dup
put_dup-Stepped s parent child i f c ne l h free e = record {
  counted = put_dup-Counted s parent i child i f c e l h free;
  lengths = length-set s.tables child (set (table s child) i (some f));
  copied =
      slot-put_self s child i (some f) l (omega (arith, Sized-get s.tables child c.sized l))
      ∙ sym e;
  others = λ j nj. slot-put_ne s child i j (some f) l nj;
  parents = λ j. slot-put_other s child parent i j (some f) (λ q. ne (sym q));
}

fork_step-Stepped :
    (s : Fds) (parent child i : ℕ)
    → Counted s
    → parent ≢ child
    → child < length s.tables
    → i < nofile
    → slot s child i ≡ none
    → Stepped s parent child i (fork_step i parent child s)
fork_step-Stepped s parent child i c ne l h free = elim (Option-cases (slot s parent i)) [
  | inl e ↦ subst (Stepped s parent child i) (sym (fork_step-none i parent child s e)) (record {
    counted = c;
    lengths = refl;
    copied = free ∙ sym e;
    others = λ j nj. refl;
    parents = λ j. refl;
  })
  | inr (f, e) ↦
      subst (Stepped s parent child i) (sym (fork_step-some i parent child f s e))
        (put_dup-Stepped s parent child i f c ne l h free e)
]

pub fork_loop-Forked :
    (left i parent child : ℕ) (s : Fds)
    → Counted s
    → parent ≢ child
    → child < length s.tables
    → i + left ≤ nofile
    → ((j : ℕ) → i ≤ j → slot s child j ≡ none)
    → Forked s parent child i left (fork_loop left i parent child s)
unfolding fork_loop
fork_loop-Forked zero i parent child s c ne l h free = record {
  counted = c;
  copied = λ j lo hi. absurd (omega arith);
  lower = λ j lo. refl;
  parents = λ j. refl;
}
fork_loop-Forked (suc left) i parent child s c ne l h free =
    let t : Fds = fork_step i parent child s in
    let st : Stepped s parent child i t =
      fork_step-Stepped s parent child i c ne l (omega arith) (free i (omega arith)) in
    let r : Forked t parent child (i + 1) left (fork_loop left (i + 1) parent child t) =
      fork_loop-Forked left (i + 1) parent child t st.counted ne (omega (arith, st.lengths))
        (omega arith) (λ j lo. st.others j (omega arith) ∙ free j (omega arith)) in
    record {
      counted = r.counted;
      copied = λ j lo hi. elim (ℕ_discrete j i) [
        | yes e ↦ rw e (r.lower i (omega arith) ∙ st.copied)
        | no nj ↦ r.copied j (omega arith) (omega arith) ∙ st.parents j
      ];
      lower = λ j lo. r.lower j (omega arith) ∙ st.others j (omega arith);
      parents = λ j. r.parents j ∙ st.parents j;
    }

-- `proc_fork` gives the child, whose descriptors are free, every descriptor of the parent, leaves
-- the parent's as they are, and keeps the counts right.
pub fork_loop-shares :
    (parent child : ℕ) (s : Fds)
    → Counted s
    → parent ≢ child
    → child < length s.tables
    → ((j : ℕ) → slot s child j ≡ none)
    → Counted (fork_loop nofile 0 parent child s)
      × ((fd : ℕ)
          → fd < nofile
          → (slot (fork_loop nofile 0 parent child s) child fd ≡ slot s parent fd)
            × (slot (fork_loop nofile 0 parent child s) parent fd ≡ slot s parent fd))
fork_loop-shares parent child s c ne l free =
    let r : Forked s parent child 0 nofile (fork_loop nofile 0 parent child s) =
      fork_loop-Forked nofile 0 parent child s c ne l (omega arith) (λ j lo. free j) in
    (r.counted, λ fd h. (r.copied fd (omega arith) (omega arith), r.parents fd))
