-- ===== src/Mm/Init.antt =====
-- `kinit` puts exactly the whole pages between the kernel's end and the end of memory on the list.
use os_agent_lab.Prelude.{ℕ, zero, suc, ◌+◌, ◌<◌, List, [], ◌∷◌, page_size}

-- The pages `p`, `p + 4096`, … `n` of them, the last in front of `ps`.
abbrev pub push_pages : ℕ → ℕ → List ℕ → List ℕ
push_pages zero p ps = ps
push_pages (suc n) p ps = push_pages n (p + page_size) (p ∷ ps)

abbrev Below : ℕ → List ℕ → Type 0
Below p [] = Unit {0}
Below p (q ∷ qs) = (q < p) × Below p qs
