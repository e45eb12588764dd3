-- ===== src/Fat/Contents.antt =====
-- The contents of files on a FAT32 volume: the loops of read_file and write_file (kernel/src/fat.rs).
pub mod Chunk
pub mod Layout
pub mod Stored
pub mod Chain
pub mod Roundtrip
mod Tests
use package.solaros.Prelude.{
  ℕ, zero, suc, ◌+◌, ◌-◌, ◌*◌, ◌/◌, Bool, true, false, ◌||◌, Option, none, some, List, [], ◌∷◌,
  ◌++◌, length, take, drop, replicate, min, if◌then◌else◌, ltb, ◌==◌,
}
use package.solaros.Fs.{FsErr, Result, ok, err, io, no_space}
use solaros.Fat.{
  FsInfo, Disk, u32, first_sector, is_eoc, read_fat, write_fat, alloc_cluster, sector_size,
  fat_eoc_mask,
}

abbrev pub cluster_size : FsInfo → ℕ
cluster_size i = i.sec_per_clus * 512

-- The clusters that the data needs.
abbrev pub clusters_needed : FsInfo → ℕ → ℕ
clusters_needed i len = (len + cluster_size i - 1) / cluster_size i

-- The buffer of one sector, with the first of the bytes that are left.
abbrev pub sector_of : List ℕ → List ℕ
sector_of bs = let n = min (length bs) 512 in take n bs ++ replicate (sector_size - n) 0

-- `bs`, if all of it was read, in front of what is read next.
abbrev pub then_reads : List ℕ → Result (List ℕ) → Result (List ℕ)
then_reads bs (err e) = err e
then_reads bs (ok more) = ok (bs ++ more)

module _ (d : Disk) where
  -- The loop of read_file over the sectors of a cluster: `left` bytes of the chunk are to be read behind `off`.
  pub read_chunk : ℕ → ℕ → ℕ → ℕ → d.State → Result (List ℕ)
  read_chunk zero first off left s = ok []
  read_chunk (suc rounds) first off left s = elim (left == 0) [
    | true ↦ ok []
    | false ↦ elim (d.read (u32 (first + off / 512)) s) [
      | none ↦ err io
      | some b ↦
          let n = min left 512 in
          then_reads (take n b) (read_chunk rounds first (off + n) (left - n) s)
    ]
  ]

  -- The loop of write_file over the sectors of a cluster: `bs` is what is left of the chunk behind `co`.
  pub write_chunk : ℕ → ℕ → ℕ → List ℕ → d.State → Result (Unit {0}) × d.State
  write_chunk zero first co bs s = (ok tt, s)
  write_chunk (suc rounds) first co bs s = elim (length bs == 0) [
    | true ↦ (ok tt, s)
    | false ↦
        let n = min (length bs) 512 in
        let (done, s') = d.write (u32 (first + co / 512)) (sector_of bs) s in
        elim done [ false ↦ (err io, s') | true ↦ write_chunk rounds first (co + n) (drop n bs) s' ]
  ]

module _ (d : Disk) (i : FsInfo) where
  -- The loop of read_file over the clusters, with its guard on the rounds: the bytes that it reads.
  pub read_data : ℕ → ℕ → ℕ → d.State → Result (List ℕ)
  read_data zero clu left s = ok []
  read_data (suc rounds) clu left s = elim (left == 0) [
    | true ↦ ok []
    | false ↦
        let chunk = min left (cluster_size i) in
        let nxt = read_fat d i clu s in
        elim (read_chunk d i.sec_per_clus (first_sector i clu) 0 chunk s) [
          | err e ↦ err e
          | ok bs ↦ elim (is_eoc nxt || ltb nxt 2) [
            | true ↦ ok bs
            | false ↦ then_reads bs (read_data rounds nxt (left - chunk) s)
          ]
        ]
  ]

  -- The loop of write_file over the clusters of the new chain; `none` when it has none left.
  pub write_data : List ℕ → List ℕ → d.State → Option (Result (Unit {0}) × d.State)
  write_data [] bytes s = if length bytes == 0 then some (ok tt, s) else none
  write_data (c ∷ chain) bytes s = elim (length bytes == 0) [
    | true ↦ some (ok tt, s)
    | false ↦
        let chunk = min (length bytes) (cluster_size i) in
        let (r, s') = write_chunk d i.sec_per_clus (first_sector i c) 0 (take chunk bytes) s in
        elim r [ err e ↦ some (err e, s') | ok _ ↦ write_data chain (drop chunk bytes) s' ]
  ]

  -- The loop of write_file that takes clusters and links each to the one before, and the write of the end
  -- behind it.
  pub alloc_more : ℕ → ℕ → d.State → Result (List ℕ) × d.State
  alloc_more zero last s = (ok [], (write_fat d i last fat_eoc_mask s).1)
  alloc_more (suc left) last s =
      let (found, s') = alloc_cluster d i s in
      elim found [
        | none ↦ (err no_space, s')
        | some c ↦
            let (r, s'') = alloc_more left c (write_fat d i last c s').1 in
            (then_reads (c ∷ []) r, s'')
      ]

  pub alloc_chain : ℕ → d.State → Result (List ℕ) × d.State
  unfolding alloc_more
  alloc_chain zero s = (ok [], s)
  alloc_chain (suc left) s =
      let (found, s') = alloc_cluster d i s in
      elim found [
        | none ↦ (err no_space, s')
        | some c ↦ let (r, s'') = alloc_more left c s' in (then_reads (c ∷ []) r, s'')
      ]
