-- ===== src/Vm/CopyUser/Bytewise.antt =====
-- `copyin` goes page by page; it returns what reading byte by byte would.
use os_agent_lab.Prelude.{
  ℕ, zero, suc, ◌+◌, ◌-◌, ◌%◌, ◌≤◌, ◌<◌, ◌≡◌, ◌≢◌, refl, sym, ◌∙◌, ap, false, List, [], ◌∷◌, ◌++◌,
  Option, none, some, arith, page_size, u64_mod, add64, ℕ_discrete, ◌==◌, ok, err, Result, efault,
  if◌then◌else◌,
}
use os_agent_lab.Phys.{slice}
use os_agent_lab.Mm.{Memory}
use os_agent_lab.Vm.{walk, translate, walkaddr}
use os_agent_lab.Vm.Walk.{walk-page}
use os_agent_lab.Vm.CopyUser.{chunk, prepend, copyin_loop, copyin}

-- The specification: every byte is translated and read by itself, and the first that has no
-- translation makes the copy fail.
unfoldable pub read_user : Memory → ℕ → ℕ → ℕ → Result (List ℕ)
read_user s pt va zero = ok []
read_user s pt va (suc n) =
    let pa = walkaddr s pt va in
    let rest : Result (List ℕ) = elim (read_user s pt (add64 va 1) n) [
      | err e ↦ err e
      | ok bs ↦ ok (s.bytes pa ∷ bs)
    ] in
    if pa == 0 then err efault else rest

translate-offset :
    (s : Memory) (off k : ℕ) (pte : Option ℕ)
    → translate s off pte ≢ 0
    → off + k < page_size
    → translate s (off + k) pte ≡ translate s off pte + k
unfolding translate
translate-offset s off k none h l = absurd (h refl)
translate-offset s off k (some pte) h l = ground arith

-- Within a page addresses are translated together.
pub walkaddr-offset :
    (s : Memory) (pt va k : ℕ)
    → walkaddr s pt va ≢ 0
    → va % page_size + k < page_size
    → walkaddr s pt (va + k) ≡ walkaddr s pt va + k
unfolding walkaddr
walkaddr-offset s pt va k h l =
    let off : (va + k) % page_size ≡ va % page_size + k = omega arith in
    rw (walk-page pt (va + k) va s (omega arith), off)
      (translate-offset s (va % page_size) k (walk pt va false s).0 h l)

-- The bytes `bs` in front of what a later copy yields.
abbrev glue : List ℕ → Result (List ℕ) → Result (List ℕ)
glue bs (err e) = err e
glue bs (ok rest) = ok (bs ++ rest)

glue-nil : (r : Result (List ℕ)) → glue [] r ≡ r
glue-nil (err e) = refl
glue-nil (ok rest) = refl

glue-cons :
    (b : ℕ) (bs : List ℕ) (r : Result (List ℕ)) → glue (b ∷ bs) r ≡ glue (b ∷ []) (glue bs r)
glue-cons b bs (err e) = refl
glue-cons b bs (ok rest) = refl

prepend-some : (bs : List ℕ) (r : Result (List ℕ)) → prepend bs (some r) ≡ some (glue bs r)
unfolding prepend
prepend-some bs (err e) = refl
prepend-some bs (ok rest) = refl

read_user-step :
    (s : Memory) (pt va pa n : ℕ)
    → walkaddr s pt va ≡ pa
    → pa ≢ 0
    → read_user s pt va (suc n) ≡ glue (s.bytes pa ∷ []) (read_user s pt (add64 va 1) n)
unfolding read_user
read_user-step s pt va pa n e h = ground arith

-- Reading `n` bytes of one page and then `m` more.
read_user-page :
    (n : ℕ) (s : Memory) (pt va pa m : ℕ)
    → walkaddr s pt va ≡ pa
    → pa ≢ 0
    → va < u64_mod
    → va % page_size + suc n ≤ page_size
    → read_user s pt va (suc n + m)
      ≡ glue (slice s.bytes pa (suc n)) (read_user s pt (add64 va (suc n)) m)
unfolding slice
read_user-page zero s pt va pa m e h lt l =
    let size : 1 + m ≡ suc m = omega arith in rw size (read_user-step s pt va pa m e h)
read_user-page (suc n) s pt va pa m e h lt l =
    let size : suc (suc n) + m ≡ suc (suc n + m) = omega arith in
    let next : add64 va 1 ≡ va + 1 = omega arith in
    let far : add64 (va + 1) (suc n) ≡ add64 va (suc (suc n)) = omega arith in
    let there : walkaddr s pt (va + 1) ≡ pa + 1 =
      walkaddr-offset s pt va 1 (λ z. h (sym e ∙ z)) (omega arith) ∙ ap (λ (x : ℕ). x + 1) e in
    rw size (
      read_user-step s pt va pa (suc n + m) e h
      ∙ ap (λ x. glue (s.bytes pa ∷ []) (read_user s pt x (suc n + m))) next
      ∙ ap (glue (s.bytes pa ∷ [])) (
          read_user-page n s pt (va + 1) (pa + 1) m there (omega arith) (omega arith) (omega arith))
      ∙ ap
          (λ x. glue (s.bytes pa ∷ []) (glue (slice s.bytes (pa + 1) (suc n)) (read_user s pt x m)))
          far
      ∙ sym (
          glue-cons (s.bytes pa) (slice s.bytes (pa + 1) (suc n))
            (read_user s pt (add64 va (suc (suc n))) m)))

chunk_bounds :
    (va len : ℕ)
    → (0 < chunk va (suc len))
      × (chunk va (suc len) ≤ suc len)
      × (va % page_size + chunk va (suc len) ≤ page_size)
chunk_bounds va len = ground arith

-- One round of the loop, where the first page is there.
copyin_round :
    (fuel : ℕ) (s : Memory) (pt va len n : ℕ)
    → walkaddr s pt va ≢ 0
    → chunk va (suc len) ≡ n
    → copyin_loop (suc fuel) s pt va (suc len)
      ≡ prepend
          (slice s.bytes (walkaddr s pt va) n)
          (copyin_loop fuel s pt (add64 va n) (suc len - n))
unfolding copyin_loop
copyin_round fuel s pt va len n h e = rw (← e) (ground arith)

copyin_empty :
    (fuel : ℕ) (s : Memory) (pt va : ℕ) → copyin_loop fuel s pt va 0 ≡ some (read_user s pt va 0)
unfolding copyin_loop read_user
copyin_empty zero s pt va = refl
copyin_empty (suc fuel) s pt va = refl

copyin_fault :
    (fuel : ℕ) (s : Memory) (pt va len : ℕ)
    → walkaddr s pt va ≡ 0
    → copyin_loop (suc fuel) s pt va (suc len) ≡ some (read_user s pt va (suc len))
unfolding copyin_loop read_user
copyin_fault fuel s pt va len h = ground arith

copyin_loop-read_user :
    (fuel : ℕ) (s : Memory) (pt va len : ℕ)
    → len ≤ fuel
    → va < u64_mod
    → copyin_loop fuel s pt va len ≡ some (read_user s pt va len)
copyin_loop-read_user zero s pt va zero h lt = copyin_empty zero s pt va
copyin_loop-read_user zero s pt va (suc len) h lt = absurd (omega arith)
copyin_loop-read_user (suc fuel) s pt va zero h lt = copyin_empty (suc fuel) s pt va
copyin_loop-read_user (suc fuel) s pt va (suc len) h lt = elim (ℕ_discrete (walkaddr s pt va) 0) [
  | yes e ↦ copyin_fault fuel s pt va len e
  | no ne ↦
      let n : ℕ = chunk va (suc len) in
      let b : (0 < n) × (n ≤ suc len) × (va % page_size + n ≤ page_size) = chunk_bounds va len in
      let e : chunk va (suc len) ≡ suc (n - 1) = omega (arith, b) in
      let size : suc (n - 1) + (suc len - suc (n - 1)) ≡ suc len = omega (arith, b) in
      copyin_round fuel s pt va len (suc (n - 1)) ne e
      ∙ ap (prepend (slice s.bytes (walkaddr s pt va) (suc (n - 1)))) (
          copyin_loop-read_user fuel s pt (add64 va (suc (n - 1))) (suc len - suc (n - 1))
            (omega (arith, b)) (omega arith))
      ∙ prepend-some (slice s.bytes (walkaddr s pt va) (suc (n - 1)))
          (read_user s pt (add64 va (suc (n - 1))) (suc len - suc (n - 1)))
      ∙ ap some (
          sym (
            read_user-page (n - 1) s pt va (walkaddr s pt va) (suc len - suc (n - 1)) refl ne lt
              (omega (arith, b)))
          ∙ ap (read_user s pt va) size)
]

-- `copyin` ends, and yields what reading the user's bytes one by one would: those bytes where all
-- of them are mapped for the user, and EFAULT otherwise.
pub copyin-read_user :
    (s : Memory) (pt va len : ℕ) → va < u64_mod → copyin s pt va len ≡ some (read_user s pt va len)
unfolding copyin
copyin-read_user s pt va len lt = copyin_loop-read_user len s pt va len (omega arith) lt
