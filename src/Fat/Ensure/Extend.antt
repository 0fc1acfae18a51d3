-- ===== src/Fat/Ensure/Extend.antt =====
-- The loop that links new clusters: the chain that it leaves.
use os_agent_lab.Prelude.{
  ℕ, zero, suc, ◌+◌, ◌%◌, ◌≤◌, ◌<◌, ◌≡◌, ◌≢◌, refl, sym, ap, subst, ◌∙◌, ◌⊎◌, true, false, List, [],
  ◌∷◌, ◌++◌, length, arith, Result, ok, err, Errno, eio, enospc, update, update_self, update_ne,
  ℕ_discrete,
}
use mathlib.Core.List.{append_assoc}
use os_agent_lab.Disk.{BlockDevice, IsDisk}
use os_agent_lab.Fat.{
  Layout, Volume, fat32_eoc, on_ok, fat32_write_fat_entry, fat32_alloc_cluster,
  fat32_cluster_to_lba,
}
use os_agent_lab.Fat.Entries.{
  IsLayout, HasEntries, on_ok-inv, fat32_write_fat_entry-HasEntries, fat32_write_fat_entry-keeps,
}
use os_agent_lab.Fat.Chains.{Chain, elem, Chain-elem}
use os_agent_lab.Fat.Alloc.{Allocated, fat32_alloc_cluster-Allocated}
use os_agent_lab.Fat.Ensure.{fails_as, extend_chain}

pub fails_as-inv :
    {A S : Type 0} (e : Errno) (r : Result A × S) (a : A) (v : S)
    → fails_as e r ≡ (ok a, v)
    → r ≡ (ok a, v)
unfolding fails_as
fails_as-inv e (ok b, w) a v h = h
fails_as-inv e (err x, w) a v h = cc h

module _ (fs : Layout) (lay : IsLayout fs) (entry : ℕ → ℕ) where
  -- The table with the free cluster `n` linked behind `last`.
  abbrev pub linked_entry : ℕ → ℕ → ℕ → ℕ
  linked_entry last n = update (update entry n fat32_eoc) last n

  first_of :
      (a : ℕ) (cs : List ℕ) (l : ℕ)
      → Chain fs entry a (cs ++ l ∷ [])
      → (2 ≤ a) × (a ≤ fs.cluster_count + 1)
  first_of a [] l (Chain.cell c cs lo hi r) = (lo, hi)
  first_of a (x ∷ xs) l (Chain.cell c cs lo hi r) = (lo, hi)

  elem-append : (x l : ℕ) (xs : List ℕ) → elem x (xs ++ l ∷ []) ≡ false → x ≢ l
  elem-append x l [] h = ground (arith, h)
  elem-append x l (y ∷ ys) h = elem-append x l ys (ground (arith, h))

  end_of : (a : ℕ) → Chain fs entry a [] → fat32_eoc ≤ a
  end_of a (Chain.stop c h) = h

  pub Chain-linked_entry :
      (a : ℕ) (pre : List ℕ) (last n : ℕ)
      → Chain fs entry a (pre ++ last ∷ [])
      → entry n ≡ 0
      → 2 ≤ n
      → n ≤ fs.cluster_count + 1
      → Chain fs (linked_entry last n) a (pre ++ last ∷ n ∷ [])
  Chain-linked_entry a [] last n (Chain.cell c cs lo hi r) z nlo nhi =
      let end = end_of (entry a) r in
      let other : n ≢ a = λ e. absurd (omega (arith, ap entry e, z)) in
      let marked : linked_entry a n n ≡ fat32_eoc =
        update_ne (update entry n fat32_eoc) a n n other ∙ update_self entry n fat32_eoc in
      Chain.cell a (n ∷ []) lo hi (
        subst (λ (x : ℕ). Chain fs (linked_entry a n) x (n ∷ []))
          (sym (update_self (update entry n fat32_eoc) a n))
          (Chain.cell n [] nlo nhi (Chain.stop (linked_entry a n n) (omega (arith, marked)))))
  Chain-linked_entry a (x ∷ xs) last n (Chain.cell c cs lo hi r) z nlo nhi =
      let other : a ≢ last =
        elem-append a last xs (Chain-elem fs lay entry a (xs ++ last ∷ []) lo hi r) in
      let used : a ≢ n = λ e. absurd (omega (arith, ap entry e, z, first_of (entry a) xs last r)) in
      let same : linked_entry last n a ≡ entry a =
        update_ne (update entry n fat32_eoc) last n a other ∙ update_ne entry n fat32_eoc a used in
      Chain.cell a (xs ++ last ∷ n ∷ []) lo hi (
        subst (λ (y : ℕ). Chain fs (linked_entry last n) y (xs ++ last ∷ n ∷ [])) (sym same)
          (Chain-linked_entry (entry a) xs last n r z nlo nhi))

-- The last cluster of a chain ends it.
last_of :
    (fs : Layout) (lay : IsLayout fs) (entry : ℕ → ℕ) (a : ℕ) (cs : List ℕ) (l : ℕ)
    → Chain fs entry a (cs ++ l ∷ [])
    → (l ≤ fs.cluster_count + 1) × (fat32_eoc ≤ entry l)
last_of fs lay entry a [] l (Chain.cell c cs lo hi r) = (hi, end_of fs lay entry (entry a) r)
last_of fs lay entry a (x ∷ xs) l (Chain.cell c cs lo hi r) = last_of fs lay entry (entry a) xs l r

module _ {D : Type 0} (dev : BlockDevice D) (fs : Layout) where
  -- The volume `v'` is `v` with the free clusters `news` linked behind the cluster `last` of a chain
  -- from `a` on: no other entry has changed, and no sector of the data outside the new clusters.
  pub record Extended (v v' : Volume D) (entry entry' : ℕ → ℕ) (last : ℕ) (news : List ℕ)
      : Type 0 where
    pub table : HasEntries dev fs v'.disk entry'
    pub fresh : (e : ℕ) → elem e news ≡ true → entry e ≡ 0
    pub kept : (e : ℕ) → e ≢ last → elem e news ≡ false → entry' e ≡ entry e
    pub sectors :
        (lba : ℕ)
        → fs.data_lba ≤ lba
        → ((n : ℕ)
            → elem n news ≡ true
            → (lba < fat32_cluster_to_lba fs n)
              ⊎ (fat32_cluster_to_lba fs n + fs.sectors_per_cluster ≤ lba))
        → dev.blk_read lba v'.disk ≡ dev.blk_read lba v.disk

  module _ (disk : IsDisk dev) (lay : IsLayout fs) where
    Extended-cons :
        (v w w' v' : Volume D) (entry entry' : ℕ → ℕ) (last n : ℕ) (news : List ℕ)
        → last ≤ fs.cluster_count + 1
        → fat32_eoc ≤ entry last
        → Allocated dev fs v w entry n
        → fat32_write_fat_entry dev fs last n w ≡ (ok tt, w')
        → Extended w' v' (linked_entry fs lay entry last n) entry' n news
        → Extended v v' entry entry' last (n ∷ news)
    Extended-cons v w w' v' entry entry' last n news hi end new wrote ext = record {
      table = ext.table;
      fresh = λ e m. elim (ℕ_discrete e n) [
        | yes p ↦ ap entry p ∙ new.free
        | no p ↦ let f = ext.fresh e (ground (arith, m)) in ground (arith, f, new.first)
      ];
      kept = λ e p m.
          let other : e ≢ n = ground (arith, m) in
          ext.kept e other (ground (arith, m))
          ∙ update_ne (update entry n fat32_eoc) last n e p
          ∙ update_ne entry n fat32_eoc e other;
      sectors = λ lba le out.
          ext.sectors lba le (λ k m. out k (ground (arith, m)))
          ∙ (fat32_write_fat_entry-keeps dev fs disk lay last n lba w w' hi le wrote).0
          ∙ new.others lba le (out n (ground arith));
    }

    pub extend_chain-Extended :
        (missing a last : ℕ) (pre : List ℕ) (v v' : Volume D) (entry : ℕ → ℕ)
        → HasEntries dev fs v.disk entry
        → Chain fs entry a (pre ++ last ∷ [])
        → extend_chain dev fs missing last v ≡ (ok tt, v')
        → (entry' : ℕ → ℕ) × (news : List ℕ) × Extended v v' entry entry' last news
          × Chain fs entry' a (pre ++ last ∷ news)
          × (length news ≡ missing)
    unfolding extend_chain
    extend_chain-Extended zero a last pre v v' entry has ch h =
        let same : v ≡ v' = cc h in
        (
          entry,
          [],
          subst (λ (z : Volume D). Extended v z entry entry last []) same
              (record {
                table = has;
                fresh = λ e m. cc m;
                kept = λ e p m. refl;
                sectors = λ lba le out. refl;
              }),
          ch,
          refl,
        )
    extend_chain-Extended (suc missing) a last pre v v' entry has ch h =
        let (n, w, first, rest) =
          on_ok-inv (fails_as enospc (fat32_alloc_cluster dev fs v))
            (λ new v'.
              on_ok (fails_as eio (fat32_write_fat_entry dev fs last new v'))
                (λ u v''. extend_chain dev fs missing new v''))
            tt v' h in
        let (u, w', wrote', later) =
          on_ok-inv (fails_as eio (fat32_write_fat_entry dev fs last n w))
            (λ u v''. extend_chain dev fs missing n v'') tt v' rest in
        let wrote = fails_as-inv eio (fat32_write_fat_entry dev fs last n w) tt w' wrote' in
        let new =
          fat32_alloc_cluster-Allocated dev fs disk lay v w entry n has
            (fails_as-inv enospc (fat32_alloc_cluster dev fs v) n w first) in
        let (hi, end) = last_of fs lay entry a pre last ch in
        let cut : n % 0x10000000 ≡ n = omega (arith, lay.few, new.last) in
        let table : HasEntries dev fs w'.disk (linked_entry fs lay entry last n) =
          subst (λ (x : ℕ). HasEntries dev fs w'.disk (update (update entry n fat32_eoc) last x))
            cut
            (fat32_write_fat_entry-HasEntries dev fs disk lay last n w w' (update entry n fat32_eoc)
              new.table hi wrote) in
        let grown =
          subst (λ (cs : List ℕ). Chain fs (linked_entry fs lay entry last n) a cs)
            (sym (append_assoc pre (last ∷ []) (n ∷ [])))
            (Chain-linked_entry fs lay entry a pre last n ch new.free new.first new.last) in
        let (entry', news, ext, chain, len) =
          extend_chain-Extended missing a n (pre ++ last ∷ []) w' v'
            (linked_entry fs lay entry last n) table grown later in
        (
          entry',
          n ∷ news,
          Extended-cons v w w' v' entry entry' last n news hi end new wrote ext,
          subst (Chain fs entry' a) (append_assoc pre (last ∷ []) (n ∷ news)) chain,
          ap suc len,
        )
