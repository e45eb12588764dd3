-- ===== src/Fat/Contents/Layout.antt =====
-- Where the clusters of a volume lie (kernel/src/fat.rs).
use package.solaros.Prelude.{
  ℕ, ◌+◌, ◌-◌, ◌*◌, ◌^◌, ◌≤◌, ◌<◌, ◌≡◌, ◌≢◌, ◌⊎◌, inl, inr, List, [], ◌∷◌, ltb, arith, All,
  Bool-cases,
}
use solaros.Fat.{FsInfo, u32, first_sector, fat_sector}
use solaros.Fat.Alloc.{HasEntries}

-- The tables have an entry for each cluster and stand before the clusters, which end at sector 2^32.
pub record IsVolume (i : FsInfo) : Type 0 where
  pub entries : HasEntries i
  pub some_sector : 0 < i.sec_per_clus
  pub tables : i.rsvc + i.num_fats * i.fat_size ≤ i.data_start
  pub fits : i.data_start + i.cluster_count * i.sec_per_clus ≤ 2 ^ 32

abbrev pub IsCluster : FsInfo → ℕ → Type 0
IsCluster i c = (2 ≤ c) × (c < i.cluster_count + 2)

-- The first sector of a cluster.
abbrev pub start_of : FsInfo → ℕ → ℕ
start_of i c = i.data_start + (c - 2) * i.sec_per_clus

-- The sector is in none of the clusters.
abbrev pub Outside : FsInfo → ℕ → List ℕ → Type 0
Outside i lba cs = All (λ c. (lba < start_of i c) ⊎ (start_of i c + i.sec_per_clus ≤ lba)) cs

rows_mono : (a b s : ℕ) → a < b → a * s + s ≤ b * s
rows_mono a b s h = grind arith

rows_least : (a s : ℕ) → 0 < s → a ≤ a * s
rows_least a s h = grind arith

module _ (i : FsInfo) (v : IsVolume i) where
  pub cluster_ends : (c : ℕ) → IsCluster i c → start_of i c + i.sec_per_clus ≤ 2 ^ 32
  cluster_ends c h = omega (
    arith,
    v.fits,
    h.0,
    h.1,
    rows_mono (c - 2) i.cluster_count i.sec_per_clus (omega (arith, h.0, h.1)),
  )

  pub first_sector-start_of : (c : ℕ) → IsCluster i c → first_sector i c ≡ start_of i c
  unfolding first_sector
  first_sector-start_of c h =
      let end = cluster_ends c h in
      let least = rows_least (c - 2) i.sec_per_clus v.some_sector in
      let some_sector = v.some_sector in
      let number : u32 (c + 2 ^ 32 - 2) ≡ c - 2 =
        omega (arith, h.0, h.1, end, least, some_sector) in
      rw number (omega (arith, end, some_sector))

  apart :
      (c e : ℕ)
      → IsCluster i c
      → IsCluster i e
      → e ≢ c
      → (start_of i c + i.sec_per_clus ≤ start_of i e)
        ⊎ (start_of i e + i.sec_per_clus ≤ start_of i c)
  apart c e hc he ne = elim (Bool-cases (ltb c e)) [
    | inl less ↦
        inl (omega (arith, rows_mono (c - 2) (e - 2) i.sec_per_clus (ground (arith, hc.0))))
    | inr more ↦
        inr (omega (arith, rows_mono (e - 2) (c - 2) i.sec_per_clus (ground (arith, he.0))))
  ]

  -- A sector of a cluster is in no other one.
  pub Outside-others :
      (c k : ℕ) (cs : List ℕ)
      → IsCluster i c
      → k < i.sec_per_clus
      → All (IsCluster i) cs
      → All (λ e. e ≢ c) cs
      → Outside i (start_of i c + k) cs
  Outside-others c k [] hc hk all ne = tt
  Outside-others c k (e ∷ cs) hc hk all ne = (
    elim (apart c e hc all.0 ne.0) [
      | inl before ↦ inl (omega arith)
      | inr behind ↦ inr (omega arith)
    ],
    Outside-others c k cs hc hk all.1 ne.1,
  )

  -- A sector of the table is in none of the clusters.
  pub table-Outside : (c : ℕ) (cs : List ℕ) → IsCluster i c → Outside i (fat_sector i c) cs
  table-Outside c [] h = tt
  table-Outside c (e ∷ cs) h = (
    inl (
        omega (
          arith,
          v.tables,
          v.entries.entries,
          h.1,
          rows_mono 0 i.num_fats i.fat_size v.entries.table.some_fat,
        )),
    table-Outside c cs h,
  )
