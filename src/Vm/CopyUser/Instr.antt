-- ===== src/Vm/CopyUser/Instr.antt =====
-- `copyinstr` reads a C string of the user: which strings it accepts.
use os_agent_lab.Prelude.{
  ◌↔◌, ℕ, zero, suc, ◌<◌, ◌≡◌, ◌≢◌, List, [], ◌∷◌, ◌++◌, arith, add64, ok, length,
}
use os_agent_lab.Mm.{Memory}
use os_agent_lab.Vm.CopyUser.{copyinstr}
use os_agent_lab.Vm.CopyUser.Bytewise.{read_user}

-- No byte is NUL.
abbrev pub NoNul : List ℕ → Type 0
NoNul [] = Unit {0}
NoNul (c ∷ cs) = (c ≢ 0) × NoNul cs

-- `cs` and the NUL behind it stand at `va` in user memory, and fit in `max` bytes.
pub record IsUserString (s : Memory) (pt va max : ℕ) (cs : List ℕ) : Type 0 where
  pub fits : length cs < max
  pub no_nul : NoNul cs
  pub there : read_user s pt va (suc (length cs)) ≡ ok (cs ++ 0 ∷ [])

-- `copyinstr` accepts only what is such a string.
copyinstr-IsUserString :
    (max : ℕ) (s : Memory) (pt va : ℕ) (cs : List ℕ)
    → copyinstr s pt va max ≡ ok cs
    → IsUserString s pt va max cs
unfolding copyinstr read_user
copyinstr-IsUserString zero s pt va cs h = cc
copyinstr-IsUserString (suc max) s pt va [] h = ground arith
copyinstr-IsUserString (suc max) s pt va (c ∷ cs) h =
    ground (arith, copyinstr-IsUserString max s pt (add64 va 1) cs)

-- And it accepts every such string.
IsUserString-copyinstr :
    (max : ℕ) (s : Memory) (pt va : ℕ) (cs : List ℕ)
    → IsUserString s pt va max cs
    → copyinstr s pt va max ≡ ok cs
unfolding copyinstr read_user
IsUserString-copyinstr zero s pt va cs h = absurd (omega arith)
IsUserString-copyinstr (suc max) s pt va [] h = ground arith
IsUserString-copyinstr (suc max) s pt va (c ∷ cs) h =
    ground (arith, IsUserString-copyinstr max s pt (add64 va 1) cs)

-- `copyinstr` yields `cs` exactly when the bytes `cs` and a NUL stand at `va` in the user's memory,
-- all of them mapped for the user, no NUL is among `cs`, and both fit in `max` bytes.
pub copyinstr_iff :
    (max : ℕ) (s : Memory) (pt va : ℕ) (cs : List ℕ)
    → (copyinstr s pt va max ≡ ok cs) ↔ IsUserString s pt va max cs
copyinstr_iff max s pt va cs =
    (copyinstr-IsUserString max s pt va cs, IsUserString-copyinstr max s pt va cs)
