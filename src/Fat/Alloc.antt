-- ===== src/Fat/Alloc.antt =====
-- Taking a free cluster (kernel/src/fat.rs).
use package.solaros.Prelude.{
  ℕ, zero, suc, ◌+◌, ◌-◌, ◌*◌, ◌^◌, ◌≤◌, ◌<◌, ◌≡◌, ◌≢◌, sym, ◌∙◌, ap, subst, true, false, Option,
  none, some, arith, Bool-cases, inl, inr, ◌==◌, ==_iff,
}
use native.Mathlib.Decide.{ℕ_discrete}
use solaros.Fat.{
  fat_eoc_mask, FsInfo, Disk, u32, read_fat, write_fat, alloc_cluster_from, alloc_cluster,
}
use solaros.Fat.Table.{IsTable, InTable, write_fat-Written}

-- The tables have an entry for each cluster of the volume.
pub record HasEntries (i : FsInfo) : Type 0 where
  pub table : IsTable i
  pub entries : i.cluster_count + 2 ≤ i.fat_size * 128

module _ (d : Disk) (i : FsInfo) (he : HasEntries i)
    (works : (c v : ℕ) (s : d.State) → InTable i c → (write_fat d i c v s).0 ≡ true) where
  written :
      (c v : ℕ) (s : d.State)
      → InTable i c
      → v < 2 ^ 32
      → (read_fat d i c (write_fat d i c v s).1 ≡ v)
        × ((other : ℕ)
            → InTable i other
            → other ≢ c
            → read_fat d i other (write_fat d i c v s).1 ≡ read_fat d i other s)
  written c v s inside small =
      write_fat-Written i he.table d c v s inside small (works c v s inside)

  -- The search from cluster `first` on: no free entry up to the last cluster and no change, or the first
  -- free one, which is then the end of a chain, with all other entries as before.
  pub data Allocated (first : ℕ) (s : d.State) : Option ℕ → d.State → Type 0 where
    no_space :
        ((c : ℕ) → first ≤ c → c < i.cluster_count + 2 → read_fat d i c s ≢ 0)
        → Allocated first s none s
    allocated :
        {c : ℕ} {s' : d.State}
        → first ≤ c
        → c < i.cluster_count + 2
        → read_fat d i c s ≡ 0
        → ((e : ℕ) → first ≤ e → e < c → read_fat d i e s ≢ 0)
        → read_fat d i c s' ≡ fat_eoc_mask
        → ((other : ℕ) → InTable i other → other ≢ c → read_fat d i other s' ≡ read_fat d i other s)
        → Allocated first s (some c) s'

  abbrev After : ℕ → d.State → Option ℕ × d.State → Type 0
  After first s r = Allocated first s r.0 r.1

  -- One cluster that is in use is passed over.
  pass :
      (first : ℕ) (s : d.State) (r : Option ℕ × d.State)
      → read_fat d i first s ≢ 0
      → After (first + 1) s r
      → After first s r
  pass first s (none, _) used (no_space all) = no_space (from_next first s used all)
    where
      from_next :
          (first : ℕ) (s : d.State)
          → read_fat d i first s ≢ 0
          → ((c : ℕ) → first + 1 ≤ c → c < i.cluster_count + 2 → read_fat d i c s ≢ 0)
          → (c : ℕ) → first ≤ c
          → c < i.cluster_count + 2
          → read_fat d i c s ≢ 0
      from_next first s used all c low high = elim (ℕ_discrete c first) [
        | yes p ↦ λ e. used (ap (λ n. read_fat d i n s) (sym p) ∙ e)
        | no q ↦ all c (omega arith) high
      ]
  pass first s (some _, _) used (allocated {c = c} low high free before eoc kept) =
      allocated (omega arith) high free
        (λ e l h. elim (ℕ_discrete e first) [
          | yes p ↦ λ z. used (ap (λ n. read_fat d i n s) (sym p) ∙ z)
          | no q ↦ before e (omega arith) h
        ])
        eoc kept

  step_used :
      (left c : ℕ) (s : d.State)
      → (read_fat d i c s == 0) ≡ false
      → alloc_cluster_from d i (suc left) c s ≡ alloc_cluster_from d i left (c + 1) s
  unfolding alloc_cluster_from
  step_used left c s used = rw (used, alloc_cluster_from)

  step_free :
      (left c : ℕ) (s : d.State)
      → InTable i c
      → (read_fat d i c s == 0) ≡ true
      → alloc_cluster_from d i (suc left) c s ≡ (some c, (write_fat d i c fat_eoc_mask s).1)
  unfolding alloc_cluster_from
  step_free left c s inside free =
      rw (free, alloc_cluster_from) (rw (works c fat_eoc_mask s inside, alloc_cluster_from))

  alloc_cluster_from-Allocated :
      (left c : ℕ) (s : d.State)
      → c + left ≡ i.cluster_count + 2
      → After c s (alloc_cluster_from d i left c s)
  unfolding alloc_cluster_from
  alloc_cluster_from-Allocated zero c s count = no_space (λ e low high. absurd (omega arith))
  alloc_cluster_from-Allocated (suc left) c s count =
      let inside : InTable i c = omega (arith, he.entries) in
      elim (Bool-cases (read_fat d i c s == 0)) [
        | inl free ↦
            let w = written c fat_eoc_mask s inside (omega arith) in
            subst (After c s) (sym (step_free left c s inside free)) (
              allocated (omega arith) (omega arith) ((==_iff (read_fat d i c s) 0).0 free)
                (λ e low high. absurd (omega arith)) w.0 w.1)
        | inr used ↦ subst (After c s) (sym (step_used left c s used)) (
            pass c s (alloc_cluster_from d i left (c + 1) s) (λ z. ground arith)
              (alloc_cluster_from-Allocated left (c + 1) s (omega arith)))
      ]

  -- When the tables have an entry for each cluster, writes to them succeed, and there are fewer than
  -- 2^32 - 2 clusters: `alloc_cluster` gives none and changes nothing when no cluster is free, and otherwise
  -- the free cluster with the least number, whose entry then ends a chain, with all others as before.
  pub alloc_cluster-Allocated :
      (s : d.State)
      → i.cluster_count + 2 < 2 ^ 32
      → Allocated 2 s (alloc_cluster d i s).0 (alloc_cluster d i s).1
  unfolding alloc_cluster
  alloc_cluster-Allocated s small =
      alloc_cluster_from-Allocated (u32 (i.cluster_count + 2) - 2) 2 s (omega arith)
