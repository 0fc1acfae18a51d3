-- ===== src/Prelude/Arrays.antt =====
-- C arrays of fixed size as functions of the index.
use os_agent_lab.Prelude.Tests.{◌==◌, if◌then◌else◌}
use Prim.Native.Nat.{ℕ}
use mathlib.Core.Path.{◌≡◌}
use mathlib.Core.Logic.{◌≢◌}
use native.Mathlib.Omega.{arith}

-- f[i] = v
abbrev pub update {ℓ} : {A : Type ℓ} → (ℕ → A) → ℕ → A → ℕ → A
update f i v j = if j == i then v else f j

module _ {ℓ} {A : Type ℓ} (f : ℕ → A) (i : ℕ) (v : A) where
  pub update_self : update f i v i ≡ v
  update_self = ground arith

  pub update_ne : (j : ℕ) → j ≢ i → update f i v j ≡ f j
  update_ne j h = ground arith
