-- ===== src/Vm/CopyUser.antt =====
-- Copies between the kernel and user memory: `copyin`, `copyout` and `copyinstr` of vm.c. A kernel
-- buffer is the list of its bytes. The loops take fuel, and `none` means that it ran out.
pub mod Bytewise
pub mod Instr
use os_agent_lab.Prelude.{
  ℕ, zero, suc, ◌+◌, ◌-◌, ◌%◌, Option, none, some, ◌==◌, ltb, if◌then◌else◌, page_size, add64, min,
  List, [], ◌∷◌, ◌++◌, Result, ok, err, Errno, efault, enametoolong, take, drop, length,
}
use os_agent_lab.Phys.{slice, write_bytes}
use os_agent_lab.Mm.{Memory}
use os_agent_lab.Vm.{walkaddr}

-- The part of a page from `va` on, or `len` if that is less.
abbrev pub chunk : ℕ → ℕ → ℕ
chunk va len = if ltb len (page_size - va % page_size) then len else page_size - va % page_size

-- Put the bytes of a chunk in front of those of the later ones.
pub prepend : List ℕ → Option (Result (List ℕ)) → Option (Result (List ℕ))
prepend bs none = none
prepend bs (some (err e)) = some (err e)
prepend bs (some (ok rest)) = some (ok (bs ++ rest))

pub copyin_loop : ℕ → Memory → ℕ → ℕ → ℕ → Option (Result (List ℕ))
unfolding prepend slice
copyin_loop zero s pt srcva len = if len == 0 then some (ok []) else none
copyin_loop (suc fuel) s pt srcva len =
    let pa = walkaddr s pt srcva in
    let n = chunk srcva len in
    let rest : Option (Result (List ℕ)) =
      prepend (slice s.bytes pa n) (copyin_loop fuel s pt (add64 srcva n) (len - n)) in
    if len == 0 then some (ok []) else (if pa == 0 then some (err efault) else rest)

pub copyin : Memory → ℕ → ℕ → ℕ → Option (Result (List ℕ))
unfolding copyin_loop
copyin s pt srcva len = copyin_loop len s pt srcva len

pub copyout_loop : ℕ → ℕ → ℕ → List ℕ → Memory → Option (Result (Unit {0}) × Memory)
copyout_loop zero pt dstva src s = if length src == 0 then some (ok tt, s) else none
copyout_loop (suc fuel) pt dstva src s =
    let pa = walkaddr s pt dstva in
    let n = chunk dstva (length src) in
    let rest : Option (Result (Unit {0}) × Memory) =
      copyout_loop fuel pt (add64 dstva n) (drop n src)
        (record s { bytes = write_bytes s.bytes pa (take n src) }) in
    if length src == 0 then some (ok tt, s) else (if pa == 0 then some (err efault, s) else rest)

pub copyout : ℕ → ℕ → List ℕ → Memory → Option (Result (Unit {0}) × Memory)
unfolding copyout_loop
copyout pt dstva src s = copyout_loop (length src) pt dstva src s

-- `left` is `max - n`. The result is what `dst` holds up to the NUL, that one left off.
unfoldable pub copyinstr : Memory → ℕ → ℕ → ℕ → Result (List ℕ)
copyinstr s pt srcva zero = err enametoolong
copyinstr s pt srcva (suc left) =
    let pa = walkaddr s pt srcva in
    let c = s.bytes pa in
    let rest : Result (List ℕ) = elim (copyinstr s pt (add64 srcva 1) left) [
      | err e ↦ err e
      | ok cs ↦ ok (c ∷ cs)
    ] in
    if pa == 0 then err efault else (if c == 0 then ok [] else rest)
