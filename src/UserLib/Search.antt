-- ===== src/UserLib/Search.antt =====
-- bsearch of GPT-5.2-Codex/code/user/lib/stdlib.c, for pointers that are not null and elements that
-- have a size. The elements are a list, and a pointer to one is its index.
pub mod Finds
use os_agent_lab.Prelude.{
  ℕ, zero, suc, ◌+◌, ◌-◌, ◌/◌, List, Option, none, some, ltb, if◌then◌else◌, length, get_elem?,
  add64, sub64,
}

-- What `compar` returns, by its sign: a number below zero, zero, or one above.
pub data Sign : Type 0 where
  below same above : Sign

-- What a round does with the sign: the answer, or the answer of a half.
unfoldable pub by_sign : Sign → ℕ → Option ℕ → Option ℕ → Option ℕ
by_sign same mid lower upper = some mid
by_sign below mid lower upper = lower
by_sign above mid lower upper = upper

-- `compar` compares the key with an element.
module _ {A : Type 0} (compar : A → Sign) (base : List A) where
  -- A round at an element; `none` is a read past the end.
  unfoldable pub probe : Option A → ℕ → Option ℕ → Option ℕ → Option ℕ
  unfolding by_sign
  probe none mid lower upper = none
  probe (some elem) mid lower upper = by_sign (compar elem) mid lower upper

  -- The loop, with fuel; `none` is NULL.
  unfoldable pub bsearch_loop : ℕ → ℕ → ℕ → Option ℕ
  unfolding probe
  bsearch_loop zero lo hi = none
  bsearch_loop (suc fuel) lo hi =
      let mid = add64 lo (sub64 hi lo / 2) in
      let turn =
        probe (get_elem? base mid) mid (bsearch_loop fuel lo mid)
          (bsearch_loop fuel (add64 mid 1) hi) in
      if ltb lo hi then turn else none

  unfoldable pub bsearch : Option ℕ
  unfolding bsearch_loop
  bsearch = bsearch_loop (suc (length base)) 0 (length base)
