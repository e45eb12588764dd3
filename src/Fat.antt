-- ===== src/Fat.antt =====
-- FAT32, kernel/src/fat.rs: the volume and the file allocation table. A sector is a list of 512 bytes; u32
-- arithmetic wraps, as in a release build.
pub mod Sector
pub mod Table
pub mod Alloc
pub mod Free
pub mod Mount
pub mod Dir
pub mod Names
pub mod Paths
pub mod Files
pub mod Contents
mod Tests
use package.solaros.Prelude.{
  ℕ, zero, suc, ◌+◌, ◌-◌, ◌*◌, ◌/◌, ◌%◌, ◌^◌, ◌≡◌, ◌≢◌, Bool, true, false, ◌&&◌, ◌||◌, not, Option,
  none, some, List, [], ◌∷◌, ◌++◌, length, get_or, set, take, drop, replicate, if◌then◌else◌, ltb,
  leb, ◌==◌, bit_and,
}
use package.solaros.Fs.{FsErr, Result, ok, err, no_device, not_formatted, io, bad_name}

abbrev pub sector_size : ℕ
sector_size = 512

abbrev pub fat_eoc_mask : ℕ
fat_eoc_mask = 0x0FFF_FFF8

abbrev pub u32 : ℕ → ℕ
u32 n = n % 2 ^ 32

pub record FsInfo : Type 0 where
  pub sec_per_clus : ℕ
  pub rsvc : ℕ
  pub num_fats : ℕ
  pub fat_size : ℕ
  pub root_clus : ℕ
  pub data_start : ℕ
  pub cluster_count : ℕ

-- `raw_read` and `raw_write` of fs.rs over the drivers: a read gives a sector or fails, and a write
-- tells whether it succeeded. A sector that was written is read back, and no other one changes.
pub record Disk : Type 1 where
  pub State : Type 0
  pub read : ℕ → State → Option (List ℕ)
  pub write : ℕ → List ℕ → State → Bool × State
  pub read-length :
      (lba : ℕ) (s : State) {b : List ℕ} → read lba s ≡ some b → length b ≡ sector_size
  pub read-write :
      (lba : ℕ) (b : List ℕ) (s : State)
      → length b ≡ sector_size
      → (write lba b s).0 ≡ true
      → read lba (write lba b s).1 ≡ some b
  pub read-write_ne :
      (lba other : ℕ) (b : List ℕ) (s : State)
      → other ≢ lba
      → (write lba b s).0 ≡ true
      → read other (write lba b s).1 ≡ read other s

-- `u16::from_le_bytes` and `u32::from_le_bytes` of the bytes from `o` on.
abbrev pub get16 : List ℕ → ℕ → ℕ
get16 b o = get_or b o 0 + 256 * get_or b (o + 1) 0

abbrev pub get32 : List ℕ → ℕ → ℕ
get32 b o =
    get_or b o 0
    + 256 * (get_or b (o + 1) 0 + 256 * (get_or b (o + 2) 0 + 256 * get_or b (o + 3) 0))

-- `b[o..o + 4].copy_from_slice(&val.to_le_bytes())`
abbrev pub put32 : List ℕ → ℕ → ℕ → List ℕ
put32 b o v =
    set (set (set (set b o (v % 256)) (o + 1) (v / 256 % 256)) (o + 2) (v / 65536 % 256)) (o + 3)
      (v / 16777216 % 256)

pub first_sector : FsInfo → ℕ → ℕ
first_sector i clu = u32 (i.data_start + u32 (u32 (clu + 2 ^ 32 - 2) * i.sec_per_clus))

pub is_eoc : ℕ → Bool
is_eoc v = leb fat_eoc_mask (bit_and v fat_eoc_mask)

-- The sector of the first table that holds the entry of a cluster.
abbrev pub fat_sector : FsInfo → ℕ → ℕ
fat_sector i clu = u32 (i.rsvc + clu * 4 / 512)

-- The rounds of the loop of `free_chain`.
pub chain_limit : ℕ
chain_limit = 2000000

module _ (d : Disk) where
  pub read_fat : FsInfo → ℕ → d.State → ℕ
  read_fat i clu s = elim (d.read (fat_sector i clu) s) [
    | none ↦ fat_eoc_mask
    | some b ↦ get32 b (clu * 4 % 512)
  ]

  -- The loop of `write_fat` over the copies from `f` on.
  pub write_copies : FsInfo → ℕ → ℕ → ℕ → List ℕ → d.State → Bool × d.State
  write_copies i base f zero b s = (true, s)
  write_copies i base f (suc left) b s =
      let (done, s') = d.write (u32 (base + u32 (f * i.fat_size))) b s in
      elim done [ false ↦ (false, s') | true ↦ write_copies i base (f + 1) left b s' ]

  pub write_fat : FsInfo → ℕ → ℕ → d.State → Bool × d.State
  unfolding write_copies
  write_fat i clu val s = elim (d.read (fat_sector i clu) s) [
    | none ↦ (false, s)
    | some b ↦ write_copies i (fat_sector i clu) 0 i.num_fats (put32 b (clu * 4 % 512) val) s
  ]

  -- The loop of `alloc_cluster` over the clusters from `c` on.
  pub alloc_cluster_from : FsInfo → ℕ → ℕ → d.State → Option ℕ × d.State
  unfolding read_fat write_fat
  alloc_cluster_from i zero c s = (none, s)
  alloc_cluster_from i (suc left) c s = elim (read_fat i c s == 0) [
    | false ↦ alloc_cluster_from i left (c + 1) s
    | true ↦
        let (done, s') = write_fat i c fat_eoc_mask s in
        elim done [ true ↦ (some c, s') | false ↦ alloc_cluster_from i left (c + 1) s' ]
  ]

  pub alloc_cluster : FsInfo → d.State → Option ℕ × d.State
  unfolding alloc_cluster_from
  alloc_cluster i s = alloc_cluster_from i (u32 (i.cluster_count + 2) - 2) 2 s

  -- The loop of `free_chain`, with its bound on the rounds.
  pub free_links : ℕ → FsInfo → ℕ → d.State → d.State
  unfolding read_fat write_fat is_eoc
  free_links zero i clu s = s
  free_links (suc rounds) i clu s =
      let nxt = read_fat i clu s in
      let s' = (write_fat i clu 0 s).1 in
      elim (is_eoc nxt || ltb nxt 2) [ true ↦ s' | false ↦ free_links rounds i nxt s' ]

  pub free_chain : FsInfo → ℕ → d.State → d.State
  free_chain i clu s = if ltb clu 2 then s else free_links chain_limit i clu s
