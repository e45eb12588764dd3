-- ===== src/Fat/Contents/Chain.antt =====
-- The chain of clusters that write_file takes (kernel/src/fat.rs).
use package.solaros.Prelude.{
  ℕ, zero, suc, ◌+◌, ◌^◌, ◌≤◌, ◌<◌, ◌≡◌, ◌≢◌, refl, sym, ◌∙◌, ap, true, false, Option, none, some,
  List, [], ◌∷◌, length, arith, All, ◌∈◌, ℕ_discrete, inl, inr,
}
use package.solaros.Prelude.Bits.{bit_and_le}
use package.solaros.Fs.{Result, ok, err, no_space}
use solaros.Fat.{FsInfo, Disk, read_fat, write_fat, alloc_cluster, is_eoc, fat_eoc_mask}
use solaros.Fat.Table.{InTable, write_fat-Written}
use solaros.Fat.Alloc.{HasEntries, Allocated, alloc_cluster-Allocated, allocated, no_space as full}
use solaros.Fat.Free.{Links, Distinct, is_last}
use solaros.Fat.Contents.{then_reads, alloc_more, alloc_chain}
use solaros.Fat.Contents.Layout.{IsCluster}

is_last_mask : is_last fat_eoc_mask ≡ true
unfolding is_eoc
is_last_mask = refl

is_last_cluster : (c : ℕ) → 2 ≤ c → c < fat_eoc_mask → is_last c ≡ false
unfolding is_eoc
is_last_cluster c low high = ground (arith, bit_and_le c c fat_eoc_mask (omega arith))

module _ (d : Disk) (i : FsInfo) where
  -- The clusters `cs` were free and now follow `last` in its chain; other entries are as before.
  pub record Linked (last : ℕ) (cs : List ℕ) (s s' : d.State) : Type 0 where
    pub links : Links d i s' last cs
    pub clusters : All (IsCluster i) cs
    pub free : All (λ c. read_fat d i c s ≡ 0) cs
    pub distinct : Distinct (last ∷ cs)
    pub others :
        (e : ℕ) → InTable i e → All (λ c. c ≢ e) (last ∷ cs) → read_fat d i e s' ≡ read_fat d i e s

  -- Fewer than `n` clusters are free.
  abbrev pub Few : ℕ → d.State → Type 0
  Few n s =
      (cs : List ℕ) × (length cs < n) × ((e : ℕ) → IsCluster i e → read_fat d i e s ≡ 0 → e ∈ cs)

  -- The entries that are in use, but for that of `last`, are as before.
  abbrev pub Spared : ℕ → d.State → d.State → Type 0
  Spared last s s' =
      (e : ℕ) → InTable i e → e ≢ last → read_fat d i e s ≢ 0 → read_fat d i e s' ≡ read_fat d i e s

  -- The result of taking `n` more clusters: there is no space, or they are linked.
  pub data Taken (n last : ℕ) (s : d.State) : Result (List ℕ) × d.State → Type 0 where
    lacking : {s' : d.State} → Few n s → Spared last s s' → Taken n last s (err no_space, s')
    taken :
        {cs : List ℕ} {s' : d.State}
        → length cs ≡ n
        → Linked last cs s s'
        → Taken n last s (ok cs, s')

  -- What `alloc_chain` makes of some clusters that were free: a chain of them, with all other entries as before.
  pub record Chain (c : ℕ) (cs : List ℕ) (s s' : d.State) : Type 0 where
    pub links : Links d i s' c cs
    pub clusters : All (IsCluster i) (c ∷ cs)
    pub free : All (λ e. read_fat d i e s ≡ 0) (c ∷ cs)
    pub distinct : Distinct (c ∷ cs)
    pub others :
        (e : ℕ) → InTable i e → All (λ a. a ≢ e) (c ∷ cs) → read_fat d i e s' ≡ read_fat d i e s

  pub data Chained (n : ℕ) (s : d.State) : Result (List ℕ) × d.State → Type 0 where
    no_room :
        {s' : d.State}
        → Few n s
        → ((e : ℕ) → InTable i e → read_fat d i e s ≢ 0 → read_fat d i e s' ≡ read_fat d i e s)
        → Chained n s (err no_space, s')
    chained :
        {c : ℕ} {cs : List ℕ} {s' : d.State}
        → length (c ∷ cs) ≡ n
        → Chain c cs s s'
        → Chained n s (ok (c ∷ cs), s')

  -- Clusters that were free are not one that was in use.
  free_ne :
      (e : ℕ) (cs : List ℕ) (s : d.State)
      → read_fat d i e s ≢ 0
      → All (λ c. read_fat d i c s ≡ 0) cs
      → All (λ c. c ≢ e) cs
  free_ne e [] s used all = tt
  free_ne e (c ∷ cs) s used all =
      (λ same. used (ap (λ n. read_fat d i n s) (sym same) ∙ all.0), free_ne e cs s used all.1)

  -- Entries that are the same in another state.
  free_before :
      (cs : List ℕ) (s s' : d.State)
      → ((e : ℕ) → IsCluster i e → read_fat d i e s' ≡ 0 → read_fat d i e s ≡ 0)
      → All (IsCluster i) cs
      → All (λ c. read_fat d i c s' ≡ 0) cs
      → All (λ c. read_fat d i c s ≡ 0) cs
  free_before [] s s' back all free = tt
  free_before (c ∷ cs) s s' back all free =
      (back c all.0 free.0, free_before cs s s' back all.1 free.1)

  module _ (he : HasEntries i)
      (works : (c v : ℕ) (s : d.State) → InTable i c → (write_fat d i c v s).0 ≡ true)
      (small : i.cluster_count + 2 ≤ fat_eoc_mask) where
    in_table : (c : ℕ) → IsCluster i c → InTable i c
    in_table c h = omega (arith, he.entries, h.1)

    written :
        (c v : ℕ) (s : d.State)
        → IsCluster i c
        → v < 2 ^ 32
        → (read_fat d i c (write_fat d i c v s).1 ≡ v)
          × ((e : ℕ)
              → InTable i e
              → e ≢ c
              → read_fat d i e (write_fat d i c v s).1 ≡ read_fat d i e s)
    written c v s h below =
        write_fat-Written i he.table d c v s (in_table c h) below (works c v s (in_table c h))

    -- Where no cluster is found, none is free, and nothing has changed.
    none_free :
        (s : d.State) {s1 : d.State}
        → Allocated d i he works 2 s none s1
        → ((e : ℕ) → IsCluster i e → read_fat d i e s ≢ 0) × (s1 ≡ s)
    none_free s (full all) = (λ e h. all e h.0 h.1, refl)

    -- One more cluster is put behind the last one.
    link_next :
        (n last c : ℕ) (s s1 : d.State) (r : Result (List ℕ) × d.State)
        → IsCluster i last
        → IsCluster i c
        → read_fat d i last s ≢ 0
        → read_fat d i c s ≡ 0
        → read_fat d i c s1 ≡ fat_eoc_mask
        → ((e : ℕ) → InTable i e → e ≢ c → read_fat d i e s1 ≡ read_fat d i e s)
        → Taken n c (write_fat d i last c s1).1 r
        → Taken (suc n) last s (then_reads (c ∷ []) r.0, r.1)
    link_next n last c s s1 (_, s') hl hc used free ends same (lacking (cs, few, all) spared) =
        let w = written last c s1 hl (omega (arith, hc.1, small)) in
        let kept = λ (e : ℕ) (he' : InTable i e) (nl : e ≢ last) (nc : e ≢ c).
          w.1 e he' nl ∙ same e he' nc in
        lacking
          (
            c ∷ cs,
            omega arith,
            λ e he' z. elim (ℕ_discrete e c) [
              | yes p ↦ inl p
              | no q ↦ inr (
                  all e he' (
                    kept e (in_table e he') (λ p. used (ap (λ k. read_fat d i k s) (sym p) ∙ z)) q
                    ∙ z))
            ],
          )
          (λ e inside nl busy.
            let nc : e ≢ c = λ p. busy (ap (λ k. read_fat d i k s) p ∙ free) in
            let same_e = kept e inside nl nc in
            spared e inside nc (λ z. busy (sym same_e ∙ z)) ∙ same_e)
    link_next n last c s s1 (ok cs, s') hl hc used free ends same (taken len l) =
        let w = written last c s1 hl (omega (arith, hc.1, small)) in
        let ne : c ≢ last = λ e. used (ap (λ k. read_fat d i k s) (sym e) ∙ free) in
        let away : All (λ e. e ≢ last) cs =
          free_ne last cs (write_fat d i last c s1).1 (λ z. absurd (omega (arith, hc.0, w.0, z)))
            l.free in
        let taken_c = w.1 c (in_table c hc) ne ∙ ends in
        let back =
          λ (e : ℕ) (he' : IsCluster i e) (z : read_fat d i e (write_fat d i last c s1).1 ≡ 0).
            let not_last : e ≢ last = λ q. absurd (
              omega (
                arith,
                hc.0,
                w.0,
                sym z ∙ ap (λ k. read_fat d i k (write_fat d i last c s1).1) q,
              )) in
            let not_c : e ≢ c = λ q. absurd (
              omega
                (arith, taken_c, sym z ∙ ap (λ k. read_fat d i k (write_fat d i last c s1).1) q)) in
            sym (same e (in_table e he') not_c) ∙ sym (w.1 e (in_table e he') not_last) ∙ z in
        taken (ap suc len) (record {
          links = (
            l.others last (in_table last hl) (ne, away) ∙ w.0,
            is_last_cluster c hc.0 (omega (arith, hc.1, small)),
            l.links,
          );
          clusters = (hc, l.clusters);
          free = (free, free_before cs s (write_fat d i last c s1).1 back l.clusters l.free);
          distinct = ((ne, away), l.distinct);
          others = λ e inside out.
              l.others e inside out.1
              ∙ w.1 e inside (λ q. out.0 (sym q))
              ∙ same e inside (λ q. out.1.0 (sym q));
        })

    pub alloc_more-Taken :
        (n last : ℕ) (s : d.State)
        → IsCluster i last
        → read_fat d i last s ≢ 0
        → Taken n last s (alloc_more d i n last s)
    unfolding alloc_more
    alloc_more-Taken zero last s hl used =
        let w = written last fat_eoc_mask s hl (omega arith) in
        taken refl (record {
          links = ap is_last w.0 ∙ is_last_mask;
          clusters = tt;
          free = tt;
          distinct = (tt, tt);
          others = λ e inside ne. w.1 e inside (λ p. ne.0 (sym p));
        })
    alloc_more-Taken (suc n) last s hl used =
        by_found (alloc_more-Taken n) (alloc_cluster d i s).0 (alloc_cluster d i s).1
          (alloc_cluster-Allocated d i he works s (omega (arith, small)))
      where
        by_found :
            ((c : ℕ) (s2 : d.State)
              → IsCluster i c
              → read_fat d i c s2 ≢ 0
              → Taken n c s2 (alloc_more d i n c s2))
            → (found : Option ℕ) (s1 : d.State) → Allocated d i he works 2 s found s1
            → Taken (suc n) last s (elim found as (λ x. Result (List ℕ) × d.State) [
              | none ↦ (err no_space, s1)
              | some c ↦
                  let (r, s2) = alloc_more d i n c (write_fat d i last c s1).1 in
                  (then_reads (c ∷ []) r, s2)
            ])
        by_found more none s1 a =
            lacking ([], omega arith, λ e he' z. absurd ((none_free s a).0 e he' z))
              (λ e inside nl busy. ap (read_fat d i e) (none_free s a).1)
        by_found more (some c) s1 (allocated low high free before ends same) =
            let hc : IsCluster i c = (low, high) in
            let w = written last c s1 hl (omega (arith, high, small)) in
            let ne : c ≢ last = λ e. used (ap (λ k. read_fat d i k s) (sym e) ∙ free) in
            let s2 = (write_fat d i last c s1).1 in
            link_next n last c s s1 (alloc_more d i n c s2) hl hc used free ends same
              (more c s2 hc (λ z. absurd (omega (arith, z, w.1 c (in_table c hc) ne ∙ ends))))

    chain_from :
        (n c : ℕ) (s s1 : d.State) (r : Result (List ℕ) × d.State)
        → IsCluster i c
        → read_fat d i c s ≡ 0
        → read_fat d i c s1 ≡ fat_eoc_mask
        → ((e : ℕ) → InTable i e → e ≢ c → read_fat d i e s1 ≡ read_fat d i e s)
        → Taken n c s1 r
        → Chained (suc n) s (then_reads (c ∷ []) r.0, r.1)
    chain_from n c s s1 (_, s') hc free ends same (lacking (cs, few, all) spared) =
        no_room
          (
            c ∷ cs,
            omega arith,
            λ e he' z. elim (ℕ_discrete e c) [
              | yes p ↦ inl p
              | no q ↦ inr (all e he' (same e (in_table e he') q ∙ z))
            ],
          )
          (λ e inside busy.
            let nc : e ≢ c = λ p. busy (ap (λ k. read_fat d i k s) p ∙ free) in
            spared e inside nc (λ z. busy (sym (same e inside nc) ∙ z)) ∙ same e inside nc)
    chain_from n c s s1 (ok cs, s') hc free ends same (taken len l) =
        let back = λ (e : ℕ) (he' : IsCluster i e) (z : read_fat d i e s1 ≡ 0).
          sym (
            same e (in_table e he')
              (λ q. absurd (omega (arith, ends, sym z ∙ ap (λ k. read_fat d i k s1) q))))
          ∙ z in
        chained (ap suc len) (record {
          links = l.links;
          clusters = (hc, l.clusters);
          free = (free, free_before cs s s1 back l.clusters l.free);
          distinct = l.distinct;
          others = λ e inside out. l.others e inside out ∙ same e inside (λ q. out.0 (sym q));
        })

    -- When the tables have an entry for each cluster, writes to them succeed, and the number of each cluster is below
    -- the marks of an end: taking one cluster or more gives NoSpace only when fewer are free, and leaves the
    -- entries in use as they were; otherwise it gives as many clusters as are wanted, which were free, are all
    -- different and are linked in their order, and leaves all other entries as they were.
    pub alloc_chain-Chained : (n : ℕ) (s : d.State) → Chained (suc n) s (alloc_chain d i (suc n) s)
    unfolding alloc_chain
    alloc_chain-Chained n s =
        by_found (alloc_cluster d i s).0 (alloc_cluster d i s).1
          (alloc_cluster-Allocated d i he works s (omega (arith, small)))
      where
        by_found :
            (found : Option ℕ) (s1 : d.State)
            → Allocated d i he works 2 s found s1
            → Chained (suc n) s (elim found as (λ x. Result (List ℕ) × d.State) [
              | none ↦ (err no_space, s1)
              | some c ↦ let (r, s2) = alloc_more d i n c s1 in (then_reads (c ∷ []) r, s2)
            ])
        by_found none s1 a =
            no_room ([], omega arith, λ e he' z. absurd ((none_free s a).0 e he' z))
              (λ e inside busy. ap (read_fat d i e) (none_free s a).1)
        by_found (some c) s1 (allocated low high free before ends same) =
            chain_from n c s s1 (alloc_more d i n c s1) (low, high) free ends same
              (alloc_more-Taken n c s1 (low, high) (λ z. absurd (omega (arith, z, ends))))
