-- ===== src/Fat/Chains.antt =====
-- Chains of clusters in the file allocation table, and what `fat32_get_cluster_at` finds on one.
use os_agent_lab.Prelude.{
  ℕ, zero, suc, ◌+◌, ◌≤◌, ◌≡◌, ◌≢◌, refl, sym, ap, subst, inl, inr, Bool, true, false, List, [],
  ◌∷◌, Option, none, some, ◌==◌, if◌then◌else◌, update, update_ne, arith, length, Result, ok, err,
  enoent, Bool-cases, ℕ_discrete, get_elem?,
}
use os_agent_lab.Disk.{BlockDevice}
use os_agent_lab.Fat.{Layout, fat32_eoc, is_cluster, fat32_get_cluster_at}
use os_agent_lab.Fat.Entries.{IsLayout, HasEntries}

-- The clusters of a chain, by the entries: each is a cluster of the file system, and the last entry
-- marks the end.
pub data Chain (fs : Layout) (entry : ℕ → ℕ) : ℕ → List ℕ → Type 0 where
  stop : (c : ℕ) → fat32_eoc ≤ c → Chain fs entry c []
  cell :
      (c : ℕ) (cs : List ℕ)
      → 2 ≤ c
      → c ≤ fs.cluster_count + 1
      → Chain fs entry (entry c) cs
      → Chain fs entry c (c ∷ cs)

abbrev pub elem : ℕ → List ℕ → Bool
elem c [] = false
elem c (x ∷ xs) = if c == x then true else elem c xs

-- The table with the entries of `cs` cleared.
abbrev pub cleared : List ℕ → (ℕ → ℕ) → ℕ → ℕ
cleared cs entry c = if elem c cs then 0 else entry c

-- The entry of a chain's cluster is followed by one chain only.
module _ (fs : Layout) (lay : IsLayout fs) (entry : ℕ → ℕ) where
  pub length-Chain :
      (c : ℕ) (cs cs' : List ℕ)
      → Chain fs entry c cs
      → Chain fs entry c cs'
      → length cs ≡ length cs'
  length-Chain c [] [] (Chain.stop c' h) (Chain.stop c'' h') = refl
  length-Chain c [] (x ∷ xs) (Chain.stop c' h) (Chain.cell c'' cs lo hi r) =
      ground (arith, lay.few, h)
  length-Chain c (x ∷ xs) [] (Chain.cell c' cs lo hi r) (Chain.stop c'' h) =
      ground (arith, lay.few, h)
  length-Chain c (x ∷ xs) (y ∷ ys) (Chain.cell c' cs lo hi r) (Chain.cell c'' cs' lo' hi' r') =
      ap suc (length-Chain (entry c) xs ys r r')

  -- From a member on, a chain is a chain.
  suffix :
      (x c : ℕ) (cs : List ℕ)
      → Chain fs entry x cs
      → elem c cs ≡ true
      → (t : List ℕ) × Chain fs entry c t × (length t ≤ length cs)
  suffix x c [] (Chain.stop x' h) m = cc
  suffix x c (y ∷ ys) (Chain.cell x' cs lo hi r) m = elim (ℕ_discrete c x) [
    | yes p ↦ (
      x ∷ ys,
      subst (λ (z : ℕ). Chain fs entry z (x ∷ ys)) (sym p) (Chain.cell x ys lo hi r),
      omega arith,
    )
    | no p ↦ let (t, ch, le) = suffix (entry x) c ys r (ground arith) in (t, ch, omega arith)
  ]

  -- A chain comes to no cluster twice.
  pub Chain-elem :
      (c : ℕ) (cs : List ℕ)
      → 2 ≤ c
      → c ≤ fs.cluster_count + 1
      → Chain fs entry (entry c) cs
      → elem c cs ≡ false
  Chain-elem c cs lo hi r = elim (Bool-cases (elem c cs)) [
    | inr e ↦ e
    | inl e ↦
        let (t, ch, le) = suffix (entry c) c cs r e in
        absurd (omega (arith, length-Chain c t (c ∷ cs) ch (Chain.cell c cs lo hi r)))
  ]

  -- A change outside a chain leaves it.
  pub Chain-update :
      (x c n : ℕ) (cs : List ℕ)
      → Chain fs entry x cs
      → elem c cs ≡ false
      → Chain fs (update entry c n) x cs
  Chain-update x c n [] (Chain.stop x' h) m = Chain.stop x h
  Chain-update x c n (y ∷ ys) (Chain.cell x' cs lo hi r) m =
      let other : x ≢ c = ground (arith, m) in
      let later : elem c ys ≡ false = ground (arith, m) in
      Chain.cell x ys lo hi (
        subst (λ (z : ℕ). Chain fs (update entry c n) z ys) (sym (update_ne entry c n x other))
          (Chain-update (entry x) c n ys r later))

-- The clusters of a chain by their number: the element of the list, and ENOENT after its end.
abbrev pub nth_or_enoent : Option ℕ → Result ℕ
nth_or_enoent none = err enoent
nth_or_enoent (some c) = ok c

pub fat32_get_cluster_at-Chain :
    {D : Type 0} (dev : BlockDevice D) (fs : Layout) (d : D) (entry : ℕ → ℕ)
    → IsLayout fs
    → HasEntries dev fs d entry
    → (index c : ℕ) (cs : List ℕ) → Chain fs entry c cs
    → fat32_get_cluster_at dev fs c index d ≡ nth_or_enoent (get_elem? cs index)
unfolding fat32_get_cluster_at
fat32_get_cluster_at-Chain dev fs d entry lay has zero c [] (Chain.stop c' h) =
    let is : is_cluster c ≡ false = ground arith in rw is refl
fat32_get_cluster_at-Chain dev fs d entry lay has (suc i) c [] (Chain.stop c' h) =
    let is : is_cluster c ≡ false = ground arith in rw is refl
fat32_get_cluster_at-Chain dev fs d entry lay has zero c (x ∷ xs) (Chain.cell c' cs lo hi r) =
    let is : is_cluster c ≡ true = ground (arith, lay.few) in rw is refl
fat32_get_cluster_at-Chain dev fs d entry lay has (suc i) c (x ∷ xs) (Chain.cell c' cs lo hi r) =
    let is : is_cluster c ≡ true = ground (arith, lay.few) in
    rw (is, has.reads c hi) (fat32_get_cluster_at-Chain dev fs d entry lay has i (entry c) xs r)
