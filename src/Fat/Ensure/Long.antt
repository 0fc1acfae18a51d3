-- ===== src/Fat/Ensure/Long.antt =====
-- A chain that `fat32_ensure_chain` has made long enough.
use os_agent_lab.Prelude.{
  ℕ, zero, suc, ◌+◌, ◌-◌, ◌≤◌, ◌<◌, ◌≡◌, ◌≢◌, max, refl, sym, ap, subst, ◌∙◌, ◌⊎◌, true, false,
  List, [], ◌∷◌, ◌++◌, length, length-append, Option, none, some, arith, Result, ok, err, leb, ◌==◌,
  enospc, ℕ_discrete, update, update_self, update_ne,
}
use mathlib.Core.List.{append-nil, append_assoc}
use os_agent_lab.Disk.{BlockDevice, IsDisk}
use os_agent_lab.Fat.{Layout, Volume, fat32_eoc, fat32_alloc_cluster, fat32_cluster_to_lba}
use os_agent_lab.Fat.Entries.{IsLayout, HasEntries}
use os_agent_lab.Fat.Chains.{Chain, elem}
use os_agent_lab.Fat.Ensure.{
  measure_chain, measured, ensure_from, fat32_ensure_chain, fails_as, with_start,
}
use os_agent_lab.Fat.Alloc.{Allocated, fat32_alloc_cluster-Allocated}
use os_agent_lab.Fat.Ensure.Extend.{fails_as-inv, extend_chain-Extended}

-- What the first loop finds of a chain `cs`, with `missing` clusters wanted after the first.
Measured : List ℕ → ℕ → Option (ℕ × ℕ) → Type 0
Measured cs missing none = missing + 1 ≤ length cs
Measured cs missing (some (left, last)) =
    (pre : List ℕ) × (cs ≡ pre ++ last ∷ []) × (length cs + left ≡ missing + 1) × (1 ≤ left)

Measured-cons :
    (c x : ℕ) (xs : List ℕ) (missing : ℕ) (o : Option (ℕ × ℕ))
    → Measured (x ∷ xs) missing o
    → Measured (c ∷ x ∷ xs) (suc missing) o
unfolding Measured
Measured-cons c x xs missing none h = omega arith
Measured-cons c x xs missing (some (left, last)) (pre, e, len, pos) =
    (c ∷ pre, ap (λ (l : List ℕ). c ∷ l) e, omega arith, pos)

head_of :
    (fs : Layout) (entry : ℕ → ℕ) (a x : ℕ) (xs : List ℕ)
    → Chain fs entry a (x ∷ xs)
    → (a ≡ x) × (2 ≤ a) × (a ≤ fs.cluster_count + 1)
head_of fs entry a x xs (Chain.cell c cs lo hi r) = (refl, lo, hi)

elem-middle :
    (x l : ℕ) (pre news : List ℕ)
    → elem x (pre ++ l ∷ news) ≡ false
    → (x ≢ l) × (elem x news ≡ false)
elem-middle x l [] news h = (ground (arith, h), ground (arith, h))
elem-middle x l (p ∷ ps) news h = elem-middle x l ps news (ground (arith, h))

module _ {D : Type 0} (dev : BlockDevice D) (fs : Layout) where
  module _ (lay : IsLayout fs) (d : D) (entry : ℕ → ℕ) (has : HasEntries dev fs d entry) where
    measure_chain-Measured :
        (missing c x : ℕ) (xs : List ℕ)
        → Chain fs entry c (x ∷ xs)
        → (o : Option (ℕ × ℕ)) × (measure_chain dev fs missing c d ≡ ok o)
          × Measured (x ∷ xs) missing o
    unfolding measure_chain Measured
    measure_chain-Measured zero c x xs ch = (none, refl, omega arith)
    measure_chain-Measured (suc missing) c x [] (Chain.cell c' cs lo hi (Chain.stop e end)) =
        let r = has.reads c hi in
        let test : leb fat32_eoc (entry c) ≡ true = ground arith in
        (
          some (suc missing, c),
          rw (r, test, measure_chain) refl,
          ([], refl, omega arith, omega arith),
        )
    measure_chain-Measured (suc missing) c x (y ∷ ys) (Chain.cell c' cs lo hi rest) =
        let r = has.reads c hi in
        let next = head_of fs entry (entry c) y ys rest in
        let test : leb fat32_eoc (entry c) ≡ false = ground (arith, next, lay.few) in
        let (o, found, is) = measure_chain-Measured missing (entry c) y ys rest in
        (o, rw (r, test, measure_chain) found, Measured-cons c y ys missing o is)

  -- The chain of a file with the clusters `cs`, the first of them `start`; an empty file has none.
  abbrev pub FileChain : (ℕ → ℕ) → ℕ → List ℕ → Type 0
  FileChain entry start [] = start ≡ 0
  FileChain entry start (c ∷ cs) = Chain fs entry start (c ∷ cs)

  -- What `fat32_ensure_chain` leaves of a file with the clusters `cs`: these, then new ones that were
  -- free, `needed` in all if there were not as many before; all other entries and all sectors of the
  -- data outside the new clusters are as they were.
  pub record Ensured (v v' : Volume D) (entry entry' : ℕ → ℕ) (start' : ℕ) (cs news : List ℕ)
      (needed : ℕ) : Type 0 where
    pub table : HasEntries dev fs v'.disk entry'
    pub chain : Chain fs entry' start' (cs ++ news)
    pub long : length (cs ++ news) ≡ max (length cs) needed
    pub fresh : (e : ℕ) → elem e news ≡ true → entry e ≡ 0
    pub kept : (e : ℕ) → elem e (cs ++ news) ≡ false → entry' e ≡ entry e
    pub sectors :
        (lba : ℕ)
        → fs.data_lba ≤ lba
        → ((n : ℕ)
            → elem n news ≡ true
            → (lba < fat32_cluster_to_lba fs n)
              ⊎ (fat32_cluster_to_lba fs n + fs.sectors_per_cluster ≤ lba))
        → dev.blk_read lba v'.disk ≡ dev.blk_read lba v.disk

  module _ (disk : IsDisk dev) (lay : IsLayout fs) where
    measured-Ensured :
        (k c : ℕ) (cs : List ℕ) (v v' : Volume D) (entry : ℕ → ℕ) (o : Option (ℕ × ℕ))
        → HasEntries dev fs v.disk entry
        → Chain fs entry c cs
        → Measured cs k o
        → measured dev fs (ok o) v ≡ (ok tt, v')
        → (entry' : ℕ → ℕ) × (news : List ℕ) × Ensured v v' entry entry' c cs news (suc k)
    unfolding measured Measured
    measured-Ensured k c cs v v' entry none has ch le h =
        let same : v ≡ v' = cc h in
        (
          entry,
          [],
          subst (λ (z : Volume D). Ensured v z entry entry c cs [] (suc k)) same
              (record {
                table = has;
                chain = subst (Chain fs entry c) (sym (append-nil cs)) ch;
                long = ap length (append-nil cs) ∙ omega arith;
                fresh = λ e m. cc m;
                kept = λ e m. refl;
                sectors = λ lba le out. refl;
              }),
        )
    measured-Ensured k c cs v v' entry (some (left, last)) has ch (pre, e, len, pos) h =
        let (entry', news, ext, chain, new_len) =
          extend_chain-Extended dev fs disk lay left c last pre v v' entry has
            (subst (Chain fs entry c) e ch) h in
        let joined : cs ++ news ≡ pre ++ last ∷ news =
          ap (λ (l : List ℕ). l ++ news) e ∙ append_assoc pre (last ∷ []) news in
        (
          entry',
          news,
          record {
            table = ext.table;
            chain = subst (Chain fs entry' c) (sym joined) chain;
            long = omega (arith, length-append {0} cs news);
            fresh = ext.fresh;
            kept = λ x m.
                let (other, old) = elem-middle x last pre news (ap (elem x) (sym joined) ∙ m) in
                ext.kept x other old;
            sectors = ext.sectors;
          },
        )

    ensure_from-Ensured :
        (k c x : ℕ) (xs : List ℕ) (v v' : Volume D) (entry : ℕ → ℕ)
        → HasEntries dev fs v.disk entry
        → Chain fs entry c (x ∷ xs)
        → ensure_from dev fs c (suc k) v ≡ (ok tt, v')
        → (entry' : ℕ → ℕ) × (news : List ℕ) × Ensured v v' entry entry' c (x ∷ xs) news (suc k)
    unfolding ensure_from
    ensure_from-Ensured k c x xs v v' entry has ch h =
        let at = head_of fs entry c x xs ch in
        let test : leb fat32_eoc c ≡ false = ground (arith, at, lay.few) in
        let less : suc k - 1 ≡ k = omega arith in
        let (o, found, is) = measure_chain-Measured lay v.disk entry has k c x xs ch in
        measured-Ensured k c (x ∷ xs) v v' entry o has ch is (rw (test, less, found) at h)

    with_start-inv :
        {S : Type 0} (next : ℕ → S → Result (Unit {0}) × S) (start : ℕ) (r : Result ℕ × S) (v' : S)
        (start' : ℕ)
        → with_start next start r ≡ ((ok tt, v'), start')
        → (new : ℕ) × (w : S) × (r ≡ (ok new, w)) × (next new w ≡ (ok tt, v')) × (start' ≡ new)
    unfolding with_start
    with_start-inv next start (ok new, w) v' start' h =
        (new, w, refl, ap (λ (x : (Result (Unit {0}) × _) × ℕ). x.0) h, cc h)
    with_start-inv next start (err e, w) v' start' h = cc h

    -- The first cluster of an empty file, and those behind it.
    with_first :
        (v w v' : Volume D) (entry entry' : ℕ → ℕ) (n : ℕ) (news : List ℕ) (k : ℕ)
        → Allocated dev fs v w entry n
        → Ensured w v' (update entry n fat32_eoc) entry' n (n ∷ []) news (suc k)
        → Ensured v v' entry entry' n [] (n ∷ news) (suc k)
    with_first v w v' entry entry' n news k new ens = record {
      table = ens.table;
      chain = ens.chain;
      long = ens.long ∙ omega arith;
      fresh = λ e m. elim (ℕ_discrete e n) [
        | yes p ↦ ap entry p ∙ new.free
        | no p ↦ let f = ens.fresh e (ground (arith, m)) in ground (arith, f, p)
      ];
      kept = λ e m.
          let other : e ≢ n = ground (arith, m) in
          ens.kept e m ∙ update_ne entry n fat32_eoc e other;
      sectors = λ lba le out.
          ens.sectors lba le (λ k m. out k (ground (arith, m)))
          ∙ new.others lba le (out n (ground arith));
    }

    -- On a sound volume, whose disk returns what was written and whose table can be read, and for at
    -- least one cluster: when `fat32_ensure_chain` succeeds on a file whose clusters are a chain, or on
    -- an empty file, the file has these clusters and behind them new ones that were free, as many in
    -- all as were needed if there were fewer; all other entries, and all sectors of the data outside
    -- the new clusters, are as they were.
    pub fat32_ensure_chain-Ensured :
        (needed start start' : ℕ) (cs : List ℕ) (v v' : Volume D) (entry : ℕ → ℕ)
        → 0 < needed
        → HasEntries dev fs v.disk entry
        → FileChain entry start cs
        → fat32_ensure_chain dev fs start needed v ≡ ((ok tt, v'), start')
        → (entry' : ℕ → ℕ) × (news : List ℕ) × Ensured v v' entry entry' start' cs news needed
    unfolding fat32_ensure_chain
    fat32_ensure_chain-Ensured zero start start' cs v v' entry pos has ch h = absurd (omega arith)
    fat32_ensure_chain-Ensured (suc k) start start' [] v v' entry pos has ch h =
        let positive : (suc k == 0) ≡ false = ground arith in
        let none : (start == 0) ≡ true = ground (arith, ch) in
        let (n, w, first, rest, at) =
          with_start-inv (λ new v'. ensure_from dev fs new (suc k) v') start
            (fails_as enospc (fat32_alloc_cluster dev fs v)) v' start' (rw (positive, none) at h) in
        let new =
          fat32_alloc_cluster-Allocated dev fs disk lay v w entry n has
            (fails_as-inv enospc (fat32_alloc_cluster dev fs v) n w first) in
        let single : Chain fs (update entry n fat32_eoc) n (n ∷ []) =
          Chain.cell n [] new.first new.last (
            Chain.stop (update entry n fat32_eoc n)
              (omega (arith, update_self entry n fat32_eoc))) in
        let (entry', news, ens) =
          ensure_from-Ensured k n n [] w v' (update entry n fat32_eoc) new.table single rest in
        (
          entry',
          n ∷ news,
          subst (λ (s : ℕ). Ensured v v' entry entry' s [] (n ∷ news) (suc k)) (sym at)
              (with_first v w v' entry entry' n news k new ens),
        )
    fat32_ensure_chain-Ensured (suc k) start start' (x ∷ xs) v v' entry pos has ch h =
        let at = head_of fs entry start x xs ch in
        let positive : (suc k == 0) ≡ false = ground arith in
        let some_start : (start == 0) ≡ false = ground (arith, at) in
        let h' : (ensure_from dev fs start (suc k) v, start) ≡ ((ok tt, v'), start') =
          rw (positive, some_start) at h in
        let (entry', news, ens) =
          ensure_from-Ensured k start x xs v v' entry has ch
            (ap (λ (q : (Result (Unit {0}) × Volume D) × ℕ). q.0) h') in
        (
          entry',
          news,
          subst (λ (s : ℕ). Ensured v v' entry entry' s (x ∷ xs) news (suc k))
              (ap (λ (q : (Result (Unit {0}) × Volume D) × ℕ). q.1) h') ens,
        )
