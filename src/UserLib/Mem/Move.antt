-- ===== src/UserLib/Mem/Move.antt =====
-- The copies of blocks: `memmove` where the blocks overlap too.
use os_agent_lab.Prelude.{
  ℕ, zero, suc, ◌+◌, ◌≤◌, ◌<◌, ◌≡◌, refl, sym, ap, ◌∙◌, ◌⊎◌, inl, inr, ◌||◌, ◌==◌, ltb, update,
  update_self, update_ne, arith, ℕ_discrete, Bool-cases,
}
use os_agent_lab.Phys.{Bytes}
use os_agent_lab.UserLib.Mem.{copy_up, copy_down, memmove}

-- `m'` is `m` with `n` bytes from `s` on put at `d`, all read from `m`.
pub record IsCopied (d s n : ℕ) (m m' : Bytes) : Type 0 where
  pub inside : (j : ℕ) → j < n → m' (d + j) ≡ m (s + j)
  pub outside : (q : ℕ) → (q < d) ⊎ (d + n ≤ q) → m' q ≡ m q

copy_up-outside :
    (left i d s : ℕ) (m : Bytes) (q : ℕ)
    → (q < d + i) ⊎ (d + i + left ≤ q)
    → copy_up left i d s m q ≡ m q
unfolding copy_up
copy_up-outside zero i d s m q h = refl
copy_up-outside (suc left) i d s m q h =
    copy_up-outside left (i + 1) d s (update m (d + i) (m (s + i))) q (ground arith)
    ∙ update_ne m (d + i) (m (s + i)) q (ground arith)

copy_up-inside :
    (left i d s : ℕ) (m : Bytes) (j : ℕ)
    → d < s
    → i ≤ j
    → j < i + left
    → copy_up left i d s m (d + j) ≡ m (s + j)
unfolding copy_up
copy_up-inside zero i d s m j lt lo hi = absurd (omega arith)
copy_up-inside (suc left) i d s m j lt lo hi =
    let m1 : Bytes = update m (d + i) (m (s + i)) in
    elim (ℕ_discrete j i) [
      | yes e ↦
          let at : d + j ≡ d + i = omega arith in
          copy_up-outside left (i + 1) d s m1 (d + j) (inl (omega arith))
          ∙ ap m1 at
          ∙ update_self m (d + i) (m (s + i))
          ∙ ap (λ (n : ℕ). m (s + n)) (sym e)
      | no ne ↦
          copy_up-inside left (i + 1) d s m1 j lt (omega (arith, ne)) (omega arith)
          ∙ update_ne m (d + i) (m (s + i)) (s + j) (omega arith)
    ]

copy_down-outside :
    (n d s : ℕ) (m : Bytes) (q : ℕ) → (q < d) ⊎ (d + n ≤ q) → copy_down n d s m q ≡ m q
unfolding copy_down
copy_down-outside zero d s m q h = refl
copy_down-outside (suc i) d s m q h =
    copy_down-outside i d s (update m (d + i) (m (s + i))) q (ground arith)
    ∙ update_ne m (d + i) (m (s + i)) q (ground arith)

copy_down-inside :
    (n d s : ℕ) (m : Bytes) (j : ℕ) → s < d → j < n → copy_down n d s m (d + j) ≡ m (s + j)
unfolding copy_down
copy_down-inside zero d s m j lt hi = absurd (omega arith)
copy_down-inside (suc i) d s m j lt hi =
    let m1 : Bytes = update m (d + i) (m (s + i)) in
    elim (ℕ_discrete j i) [
      | yes e ↦
          let at : d + j ≡ d + i = omega arith in
          copy_down-outside i d s m1 (d + j) (inr (omega arith))
          ∙ ap m1 at
          ∙ update_self m (d + i) (m (s + i))
          ∙ ap (λ (n : ℕ). m (s + n)) (sym e)
      | no ne ↦
          copy_down-inside i d s m1 j lt (omega (arith, ne))
          ∙ update_ne m (d + i) (m (s + i)) (s + j) (omega arith)
    ]

-- `memmove` returns its first argument and copies the block as it was, however the blocks overlap.
pub memmove-IsCopied :
    (d s n : ℕ) (m : Bytes) → ((memmove d s n m).0 ≡ d) × IsCopied d s n m (memmove d s n m).1
unfolding memmove
memmove-IsCopied d s n m = elim (Bool-cases (d == s || n == 0)) [
  | inl e ↦ rw e (refl, record { inside = λ j lt. ap m (ground (arith, e)); outside = λ q h. refl })
  | inr e ↦ elim (Bool-cases (ltb d s)) [
    | inl lt ↦
        rw (e, lt)
          (
            refl,
            record {
              inside = λ j hi.
                  copy_up-inside n 0 d s m j (ground (arith, lt)) (omega arith) (omega arith);
              outside = λ q h. copy_up-outside n 0 d s m q (ground arith);
            },
          )
    | inr ge ↦
        rw (e, ge)
          (
            refl,
            record {
              inside = λ j hi. copy_down-inside n d s m j (ground (arith, ge, e)) hi;
              outside = λ q h. copy_down-outside n d s m q h;
            },
          )
  ]
]
