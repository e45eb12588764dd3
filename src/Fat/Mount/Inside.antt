-- ===== src/Fat/Mount/Inside.antt =====
-- The sectors of a mounted volume's clusters (kernel/src/fat.rs).
use package.solaros.Prelude.{
  ℕ, ◌+◌, ◌-◌, ◌*◌, ◌^◌, ◌≤◌, ◌<◌, ◌≡◌, refl, sym, ◌∙◌, ap, subst, true, false, some, List, get_or,
  ltb, leb, arith, Bool-cases, inl, inr,
}
use native.Mathlib.Omega.{div_any}
use package.solaros.Fs.{FsErr, fat, Result, ok, err, not_formatted}
use solaros.Fat.{FsInfo, Disk, u32, get32, first_sector}
use solaros.Fat.Mount.{
  Mounted, is_refused, data_start_of, clusters_of, info_of, read_boot, mount_at,
}

-- A boot sector that `read_boot` accepts.
record Accepted (b : List ℕ) (i : FsInfo) : Type 0 where
  pub same : i ≡ info_of b
  pub valid : is_refused b ≡ false
  pub start : data_start_of b < get32 b 32

read_boot-Accepted : (b : List ℕ) {i : FsInfo} → read_boot b ≡ ok i → Accepted b i
unfolding read_boot
read_boot-Accepted b {i} h = elim (Bool-cases (is_refused b)) [
  | inl bad ↦ absurd (err_ok h (rw (bad, read_boot)))
  | inr valid ↦ elim (Bool-cases (leb (get32 b 32) (data_start_of b))) [
    | inl bad ↦ absurd (err_ok h (rw (valid, read_boot) (rw bad)))
    | inr room ↦ elim (Bool-cases (ltb (clusters_of b) 65525)) [
      | inl bad ↦ absurd (err_ok h (rw (valid, read_boot) (rw room (rw bad))))
      | inr many ↦ record {
        same = ok_eq h (rw (valid, read_boot) (rw room (rw many)));
        valid = valid;
        start = ground arith;
      }
    ]
  ]
]
  where
    err_ok : {x : Result FsInfo} → x ≡ ok i → x ≡ err not_formatted → ⊥
    err_ok h e = cc

    ok_eq : {x : Result FsInfo} {j : FsInfo} → x ≡ ok i → x ≡ ok j → i ≡ j
    ok_eq h e = cc

mul_swap : (a b : ℕ) → a * b ≡ b * a
mul_swap a b = grind arith

mul_room : (k c n s : ℕ) → k < c → n < s → k * s + n < c * s
mul_room k c n s hk hn = grind arith

mul_one : (k s : ℕ) → 0 < s → k ≤ k * s
mul_one k s h = grind arith

-- A sector of a cluster lies behind the start of the data and before the end of the clusters.
sector_fits :
    (i : FsInfo) (clu n total : ℕ)
    → total < 2 ^ 32
    → i.data_start + i.cluster_count * i.sec_per_clus ≤ total
    → 2 ≤ clu
    → clu < i.cluster_count + 2
    → n < i.sec_per_clus
    → u32 (first_sector i clu + n) ≡ i.data_start + (clu - 2) * i.sec_per_clus + n
unfolding first_sector
sector_fits i clu n total small fits low high inner =
    let room = mul_room (clu - 2) i.cluster_count n i.sec_per_clus (omega arith) inner in
    let few = mul_one i.cluster_count i.sec_per_clus (omega arith) in
    let this : u32 (clu + 2 ^ 32 - 2) ≡ clu - 2 = omega (arith, few) in
    rw this (omega (arith, room, fits))

-- The clusters end where the volume ends, or before.
clusters_fit :
    (b : List ℕ)
    → data_start_of b < get32 b 32
    → data_start_of b + clusters_of b * get_or b 13 0 ≤ get32 b 32
clusters_fit b h =
    let total = get32 b 32 - data_start_of b in
    omega (arith, div_any total (get_or b 13 0), mul_swap (clusters_of b) (get_or b 13 0))

-- The data start behind the tables, when that is below sector 2^32.
starts :
    (b : List ℕ)
    → (info_of b).rsvc + (info_of b).num_fats * (info_of b).fat_size < 2 ^ 32
    → (info_of b).data_start ≡ (info_of b).rsvc + (info_of b).num_fats * (info_of b).fat_size
starts b h = omega arith

module _ (d : Disk) where
  mount_at-read_boot :
      (b : List ℕ) (s : d.State) (m : Mounted) {m' : Mounted}
      → d.read 0 s ≡ some b
      → mount_at d true s m ≡ (ok tt, m')
      → (i : FsInfo) × (read_boot b ≡ ok i) × (m' ≡ record { info = some i; kind = some fat })
  unfolding mount_at
  mount_at-read_boot b s m {m'} at h = by_boot (read_boot b) refl
    where
      no_ok : {x : Result (Unit {0}) × Mounted} {e : FsErr} → x ≡ (ok tt, m') → x ≡ (err e, m) → ⊥
      no_ok h e = cc

      same :
          {x : Result (Unit {0}) × Mounted} {y : Mounted}
          → x ≡ (ok tt, m')
          → x ≡ (ok tt, y)
          → m' ≡ y
      same h e = ap (λ (p : Result (Unit {0}) × Mounted). p.1) (sym h ∙ e)

      by_boot :
          (o : Result FsInfo)
          → read_boot b ≡ o
          → (i : FsInfo) × (read_boot b ≡ ok i) × (m' ≡ record { info = some i; kind = some fat })
      by_boot (err e) r = absurd (no_ok {e = e} h (rw (at, mount_at) (rw r)))
      by_boot (ok i) r = (i, r, same h (rw (at, mount_at) (rw r)))

  -- When `mount_at` succeeds on a boot sector whose total is below 2^32, it stores a volume, and every sector of
  -- every cluster of that volume lies behind the start of the data and before the end of the volume; the data start
  -- behind all the tables when the tables end below sector 2^32.
  pub mount_at-Inside :
      (b : List ℕ) (s : d.State) (m : Mounted) {m' : Mounted}
      → d.read 0 s ≡ some b
      → get32 b 32 < 2 ^ 32
      → mount_at d true s m ≡ (ok tt, m')
      → (i : FsInfo) × (m'.info ≡ some i)
        × (i.rsvc + i.num_fats * i.fat_size < 2 ^ 32
            → i.data_start ≡ i.rsvc + i.num_fats * i.fat_size)
        × ((clu n : ℕ)
            → 2 ≤ clu
            → clu < i.cluster_count + 2
            → n < i.sec_per_clus
            → (i.data_start ≤ u32 (first_sector i clu + n))
              × (u32 (first_sector i clu + n) < get32 b 32))
  mount_at-Inside b s m at small h =
      let (i, r, to) = mount_at-read_boot b s m at h in
      let a = read_boot-Accepted b r in
      let fits : i.data_start + i.cluster_count * i.sec_per_clus ≤ get32 b 32 =
        subst (λ (j : FsInfo). j.data_start + j.cluster_count * j.sec_per_clus ≤ get32 b 32)
          (sym a.same) (clusters_fit b a.start) in
      (
        i,
        ap (λ (x : Mounted). x.info) to,
        subst
            (λ (j : FsInfo).
              j.rsvc + j.num_fats * j.fat_size < 2 ^ 32
              → j.data_start ≡ j.rsvc + j.num_fats * j.fat_size)
            (sym a.same) (starts b),
        λ clu n low high inner.
            let room = mul_room (clu - 2) i.cluster_count n i.sec_per_clus (omega arith) inner in
            let at = sector_fits i clu n (get32 b 32) small fits low high inner in
            (omega (arith, at), omega (arith, at, room, fits)),
      )
