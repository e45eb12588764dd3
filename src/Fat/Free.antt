-- ===== src/Fat/Free.antt =====
-- Freeing a chain of clusters (kernel/src/fat.rs).
use package.solaros.Prelude.{
  ℕ, zero, suc, ◌≤◌, ◌<◌, ◌≡◌, ◌≢◌, sym, ◌∙◌, ap, subst, Bool, true, false, List, [], ◌∷◌, length,
  arith, All, ◌||◌, ltb,
}
use solaros.Fat.{FsInfo, Disk, read_fat, write_fat, is_eoc, free_links, free_chain, chain_limit}
use solaros.Fat.Table.{IsTable, InTable, write_fat-Written}

-- An entry that ends a chain.
abbrev pub is_last : ℕ → Bool
is_last v = is_eoc v || ltb v 2

-- No cluster stands twice.
abbrev pub Distinct : List ℕ → Type 0
Distinct [] = Unit
Distinct (c ∷ cs) = All (λ e. e ≢ c) cs × Distinct cs

module _ (d : Disk) (i : FsInfo) where
  -- The entries lead from the first of the clusters to the last, which ends the chain.
  abbrev pub Links : d.State → ℕ → List ℕ → Type 0
  Links s c [] = is_last (read_fat d i c s) ≡ true
  Links s c (e ∷ cs) = (read_fat d i c s ≡ e) × (is_last e ≡ false) × Links s e cs

  links_last :
      (rounds c : ℕ) (s : d.State)
      → is_last (read_fat d i c s) ≡ true
      → free_links d (suc rounds) i c s ≡ (write_fat d i c 0 s).1
  unfolding free_links
  links_last rounds c s e = rw (e, free_links)

  links_next :
      (rounds c e : ℕ) (s : d.State)
      → read_fat d i c s ≡ e
      → is_last e ≡ false
      → free_links d (suc rounds) i c s ≡ free_links d rounds i e (write_fat d i c 0 s).1
  unfolding free_links
  links_next rounds c e s at more =
      let goes_on : is_last (read_fat d i c s) ≡ false = ap is_last at ∙ more in
      rw (goes_on, free_links) (ap (λ n. free_links d rounds i n (write_fat d i c 0 s).1) at)

  -- Entries that are the same in another state lead the same way.
  pub Links-kept :
      (s s' : d.State) (c : ℕ) (cs : List ℕ)
      → read_fat d i c s' ≡ read_fat d i c s
      → All (λ e. read_fat d i e s' ≡ read_fat d i e s) cs
      → Links s c cs
      → Links s' c cs
  Links-kept s s' c [] same all l = ap is_last same ∙ l
  Links-kept s s' c (e ∷ cs) same all l = (same ∙ l.0, l.1, Links-kept s s' e cs all.0 all.1 l.2)

  module _ (it : IsTable i)
      (works : (c v : ℕ) (s : d.State) → InTable i c → (write_fat d i c v s).0 ≡ true) where
    written :
        (c : ℕ) (s : d.State)
        → InTable i c
        → (read_fat d i c (write_fat d i c 0 s).1 ≡ 0)
          × ((other : ℕ)
              → InTable i other
              → other ≢ c
              → read_fat d i other (write_fat d i c 0 s).1 ≡ read_fat d i other s)
    written c s inside = write_fat-Written i it d c 0 s inside (omega arith) (works c 0 s inside)

    -- All clusters of the chain are free, and no other entry has changed.
    pub record Freed (cs : List ℕ) (s s' : d.State) : Type 0 where
      pub free : All (λ c. read_fat d i c s' ≡ 0) cs
      pub kept :
          (other : ℕ)
          → InTable i other
          → All (λ c. c ≢ other) cs
          → read_fat d i other s' ≡ read_fat d i other s

    unchanged_All :
        (c : ℕ) (s : d.State) (cs : List ℕ)
        → InTable i c
        → All (InTable i) cs
        → All (λ e. e ≢ c) cs
        → All (λ e. read_fat d i e (write_fat d i c 0 s).1 ≡ read_fat d i e s) cs
    unchanged_All c s [] inside all ne = tt
    unchanged_All c s (e ∷ cs) inside all ne =
        ((written c s inside).1 e all.0 ne.0, unchanged_All c s cs inside all.1 ne.1)

    free_links-Freed :
        (rounds c : ℕ) (cs : List ℕ) (s : d.State)
        → length cs < rounds
        → InTable i c
        → All (InTable i) cs
        → Distinct (c ∷ cs)
        → Links s c cs
        → Freed (c ∷ cs) s (free_links d rounds i c s)
    free_links-Freed zero c cs s enough inside all ne l = elim enough [ ]
    free_links-Freed (suc rounds) c [] s enough inside all ne l =
        let w = written c s inside in
        subst (Freed (c ∷ []) s) (sym (links_last rounds c s l))
          (record { free = (w.0, tt); kept = λ o in_o not_o. w.1 o in_o (λ e. not_o.0 (sym e)) })
    free_links-Freed (suc rounds) c (e ∷ cs) s enough inside all ne l =
        let w = written c s inside in
        let s₁ = (write_fat d i c 0 s).1 in
        let same = unchanged_All c s (e ∷ cs) inside all ne.0 in
        let r =
          free_links-Freed rounds e cs s₁ (omega arith) all.0 all.1 ne.1
            (Links-kept s s₁ e cs same.0 same.1 l.2) in
        subst (Freed (c ∷ e ∷ cs) s) (sym (links_next rounds c e s l.0 l.1)) (record {
          free = (r.kept c inside ne.0 ∙ w.0, r.free);
          kept = λ o in_o not_o. r.kept o in_o not_o.1 ∙ w.1 o in_o (λ p. not_o.0 (sym p));
        })

    -- When the copies of the table end at sector 2^32 or before and writes to them succeed: for a chain of
    -- at most two million different clusters of the table, each linked to the next and the last one
    -- ending it, `free_chain` makes the entry of each 0 and leaves every other entry as it was.
    pub free_chain-Freed :
        (c : ℕ) (cs : List ℕ) (s : d.State)
        → 2 ≤ c
        → length cs < chain_limit
        → InTable i c
        → All (InTable i) cs
        → Distinct (c ∷ cs)
        → Links s c cs
        → Freed (c ∷ cs) s (free_chain d i c s)
    unfolding free_chain
    free_chain-Freed c cs s low enough inside all ne l =
        let valid : ltb c 2 ≡ false = ground arith in
        subst (Freed (c ∷ cs) s) (sym (free_valid c s valid))
          (free_links-Freed chain_limit c cs s enough inside all ne l)
      where
        free_valid :
            (c : ℕ) (s : d.State)
            → ltb c 2 ≡ false
            → free_chain d i c s ≡ free_links d chain_limit i c s
        free_valid c s e = rw e
