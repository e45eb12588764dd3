-- ===== src/Fat/Dir.antt =====
-- Directories of a FAT32 volume (kernel/src/fat.rs): the scans of their sectors, and the changes of one
-- entry.
pub mod Found
pub mod Entry
use package.solaros.Prelude.{
  ℕ, zero, suc, ◌+◌, ◌-◌, ◌*◌, ◌/◌, ◌%◌, ◌^◌, Bool, true, false, ◌&&◌, ◌||◌, not, Option, none,
  some, List, [], ◌∷◌, ◌++◌, length, get_or, set, take, drop, replicate, if◌then◌else◌, ltb, leb,
  ◌==◌, bit_and,
}
use package.solaros.Fs.{
  FsErr, Result, ok, err, not_formatted, io, bad_name, not_found, not_dir, is_dir, no_space,
}
use solaros.Fat.{
  FsInfo, Disk, u32, get16, get32, put32, sector_size, fat_eoc_mask, first_sector, is_eoc, read_fat,
  write_fat, alloc_cluster,
}

abbrev pub attr_directory : ℕ
attr_directory = 0x10

abbrev pub attr_lfn : ℕ
attr_lfn = 0x0F

pub record DirEntry : Type 0 where
  pub name : List ℕ
  pub attr : ℕ
  pub cluster : ℕ
  pub size : ℕ

-- The entry at offset `o` of a sector.
abbrev pub entry_at : List ℕ → ℕ → DirEntry
entry_at b o = record {
  name = take 11 (drop o b);
  attr = get_or b (o + 11) 0;
  cluster = get16 b (o + 20) * 65536 + get16 b (o + 26);
  size = get32 b (o + 28);
}

-- `cmp83`
abbrev pub cmp83 : List ℕ → List ℕ → Bool
cmp83 [] [] = true
cmp83 [] (y ∷ b) = false
cmp83 (x ∷ a) [] = false
cmp83 (x ∷ a) (y ∷ b) = (x == y) && cmp83 a b

-- A deleted slot, or one of a long name.
abbrev pub is_skipped : List ℕ → ℕ → Bool
is_skipped b o = (get_or b o 0 == 0xE5) || (get_or b (o + 11) 0 == attr_lfn)

abbrev pub is_dots : DirEntry → Bool
is_dots e =
    (get_or e.name 0 0 == b'.') && ((get_or e.name 1 0 == b' ') || (get_or e.name 1 0 == b'.'))

-- The outcome of a part of a scan: it returns a value, or goes on.
pub data Scan {ℓ} (A : Type ℓ) : Type ℓ where
  stop : A → Scan A
  go : Scan A

-- The loop over the slots of a sector from `k` on, for a body that may return.
pub scan_slots {ℓ} : {A : Type ℓ} → (ℕ → Scan A) → ℕ → ℕ → Scan A
scan_slots body zero k = go
scan_slots body (suc left) k = elim (body k) [ stop a ↦ stop a | go ↦ scan_slots body left (k + 1) ]

-- The body of `walk_dir` at a slot, for a callback that looks for an entry: `none` at the end of the
-- directory.
abbrev pub walk_slot : (DirEntry → Bool) → List ℕ → ℕ → Scan (Option DirEntry)
walk_slot f b k =
    if get_or b (k * 32) 0 == 0x00
    then stop none
    else if is_skipped b (k * 32)
    then go
    else if is_dots (entry_at b (k * 32))
    then go
    else if f (entry_at b (k * 32))
    then stop (some (entry_at b (k * 32)))
    else go

-- The body of `find_pos` at a slot.
abbrev pub find_slot : List ℕ → ℕ → List ℕ → ℕ → Scan (Result (ℕ × ℕ))
find_slot name lba b k =
    if get_or b (k * 32) 0 == 0x00
    then stop (err not_found)
    else if is_skipped b (k * 32)
    then go
    else if cmp83 (take 11 (drop (k * 32) b)) name
    then stop (ok (lba, k))
    else go

abbrev pub free_slot : ℕ → List ℕ → ℕ → Scan (Result (ℕ × ℕ))
free_slot lba b k =
    if (get_or b (k * 32) 0 == 0x00) || (get_or b (k * 32) 0 == 0xE5)
    then stop (ok (lba, k))
    else go

module _ (d : Disk) (i : FsInfo) where
  -- The loop over the sectors of a cluster, from `n` on; `failed` is what a failing read returns.
  pub scan_sectors {ℓ} : {A : Type ℓ} → A → (ℕ → List ℕ → ℕ → Scan A) → ℕ → ℕ → ℕ → d.State → Scan A
  unfolding scan_slots
  scan_sectors failed body zero n clu s = go
  scan_sectors failed body (suc left) n clu s =
      let lba = u32 (first_sector i clu + n) in
      elim (d.read lba s) [
        | none ↦ stop failed
        | some b ↦ elim (scan_slots (body lba b) 16 0) [
          | stop a ↦ stop a
          | go ↦ scan_sectors failed body left (n + 1) clu s
        ]
      ]

  -- `walk_dir` with a callback that stops at an entry: what it was stopped at. The guard is the fuel.
  pub walk_clusters : (DirEntry → Bool) → ℕ → ℕ → d.State → Option DirEntry
  unfolding scan_sectors read_fat is_eoc
  walk_clusters f zero clu s = none
  walk_clusters f (suc guard) clu s =
      elim (scan_sectors none (λ lba b. walk_slot f b) i.sec_per_clus 0 clu s) [
        | stop a ↦ a
        | go ↦
            let nxt = read_fat d i clu s in
            elim (is_eoc nxt || ltb nxt 2) [ true ↦ none | false ↦ walk_clusters f guard nxt s ]
      ]

  pub walk_dir : ℕ → (DirEntry → Bool) → d.State → Option DirEntry
  unfolding walk_clusters
  walk_dir dir f s = walk_clusters f i.cluster_count dir s

  unfoldable pub look_up : ℕ → List ℕ → d.State → Result DirEntry
  unfolding walk_dir
  look_up dir name s = elim (walk_dir dir (λ e. cmp83 e.name name) s) [
    | none ↦ err not_found
    | some e ↦ ok e
  ]

  pub lookup_cluster : ℕ → List ℕ → Bool → d.State → Result ℕ
  unfolding look_up
  lookup_cluster dir name dir_only s = elim (look_up dir name s) [
    | err e ↦ err e
    | ok e ↦
        let is_file = bit_and e.attr attr_directory == 0 in
        if dir_only && is_file
        then err not_dir
        else if not dir_only && not is_file
        then err is_dir
        else ok e.cluster
  ]

  -- The loop of `find_pos` over the clusters, on its guard.
  pub find_pos_from : List ℕ → ℕ → ℕ → d.State → Result (ℕ × ℕ)
  unfolding scan_sectors read_fat is_eoc
  find_pos_from name zero clu s = err io
  find_pos_from name (suc guard) clu s =
      elim (scan_sectors (err io) (find_slot name) i.sec_per_clus 0 clu s) [
        | stop r ↦ r
        | go ↦
            let nxt = read_fat d i clu s in
            elim (is_eoc nxt || ltb nxt 2) [
              | true ↦ err not_found
              | false ↦ find_pos_from name guard nxt s
            ]
      ]

  pub find_pos : ℕ → List ℕ → d.State → Result (ℕ × ℕ)
  unfolding find_pos_from
  find_pos dir name s = find_pos_from name (u32 (i.cluster_count + 2)) dir s

-- `b[o..o + xs.len()].copy_from_slice(xs)`
abbrev pub put_bytes : List ℕ → ℕ → List ℕ → List ℕ
put_bytes b o xs = take o b ++ (xs ++ drop (o + length xs) b)

abbrev pub put16 : List ℕ → ℕ → ℕ → List ℕ
put16 b o v = set (set b o (v % 256)) (o + 1) (v / 256 % 256)

-- The bytes that `write_entry_at` changes.
abbrev pub put_dir_entry : List ℕ → ℕ → DirEntry → List ℕ
put_dir_entry b o e =
    put32
      (put16 (put16 (set (put_bytes b o e.name) (o + 11) e.attr) (o + 20) (e.cluster / 65536))
        (o + 26) e.cluster)
      (o + 28) e.size

module _ (d : Disk) where
  abbrev pub io_result : Bool × d.State → Result (Unit {0}) × d.State
  io_result (true, s) = (ok tt, s)
  io_result (false, s) = (err io, s)

  unfoldable pub write_entry_at : ℕ → ℕ → DirEntry → d.State → Result (Unit {0}) × d.State
  write_entry_at lba slot e s = elim (d.read lba s) [
    | none ↦ (err io, s)
    | some b ↦ io_result (d.write lba (put_dir_entry b (slot * 32) e) s)
  ]

  pub wipe_entry_at : ℕ → ℕ → d.State → Result (Unit {0}) × d.State
  wipe_entry_at lba slot s = elim (d.read lba s) [
    | none ↦ (err io, s)
    | some b ↦ io_result (d.write lba (set b (slot * 32) 0xE5) s)
  ]

  -- The loop that clears the sectors of a new cluster.
  pub zero_sectors : FsInfo → ℕ → ℕ → ℕ → d.State → d.State
  zero_sectors i zero n clu s = s
  zero_sectors i (suc left) n clu s =
      zero_sectors i left (n + 1) clu
        (d.write (u32 (first_sector i clu + n)) (replicate sector_size 0) s).1

  -- The end of `find_free_slot`: a cluster more for the directory.
  pub grow_dir : FsInfo → ℕ → d.State → Result (ℕ × ℕ) × d.State
  unfolding zero_sectors alloc_cluster write_fat
  grow_dir i clu s =
      let (found, s₁) = alloc_cluster d i s in
      elim found [
        | none ↦ (err no_space, s₁)
        | some nc ↦
            let (linked, s₂) = write_fat d i clu nc s₁ in
            elim linked [
              | false ↦ (err io, s₂)
              | true ↦ (ok (first_sector i nc, 0), zero_sectors i i.sec_per_clus 0 nc s₂)
            ]
      ]

  pub find_free_from : FsInfo → ℕ → ℕ → d.State → Result (ℕ × ℕ) × d.State
  unfolding scan_sectors read_fat is_eoc grow_dir
  find_free_from i zero clu s = (err io, s)
  find_free_from i (suc guard) clu s =
      elim (scan_sectors d i (err io) free_slot i.sec_per_clus 0 clu s) [
        | stop r ↦ (r, s)
        | go ↦
            let nxt = read_fat d i clu s in
            elim (is_eoc nxt) [ true ↦ grow_dir i clu s | false ↦ find_free_from i guard nxt s ]
      ]

  pub find_free_slot : FsInfo → ℕ → d.State → Result (ℕ × ℕ) × d.State
  unfolding find_free_from
  find_free_slot i dir s = find_free_from i (u32 (i.cluster_count + 2)) dir s
