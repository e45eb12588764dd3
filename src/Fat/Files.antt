-- ===== src/Fat/Files.antt =====
-- The commands on a FAT32 volume (kernel/src/fat.rs).
pub mod Root
use package.solaros.Prelude.{
  ℕ, zero, suc, ◌+◌, ◌-◌, ◌*◌, ◌/◌, ◌%◌, ◌^◌, Bool, true, false, ◌&&◌, ◌||◌, not, Option, none,
  some, List, [], ◌∷◌, ◌++◌, length, get_or, set, take, drop, replicate, if◌then◌else◌, ltb, leb,
  ◌==◌, bit_and, min, map,
}
use package.solaros.Fs.{
  FsErr, Result, ok, err, io, bad_name, exists, is_dir, not_dir, not_empty, no_space, too_big, Cwd,
  pop_comp, is_dot, is_dotdot, is_empty, is_absolute,
}
use solaros.Fat.{
  FsInfo, Disk, u32, get16, first_sector, is_eoc, read_fat, alloc_cluster, free_chain, sector_size,
}
use solaros.Fat.Dir.{
  DirEntry, Scan, stop, go, attr_directory, attr_lfn, is_skipped, scan_sectors, walk_dir, look_up,
  lookup_cluster, find_pos, find_free_slot, write_entry_at, wipe_entry_at, io_result,
}
use solaros.Fat.Names.{make_83, split_parent}
use solaros.Fat.Paths.{resolve_from_cwd}
use solaros.Fat.Contents.{clusters_needed, read_data, write_data, alloc_chain}

abbrev max_file : ℕ
max_file = 65536

abbrev attr_archive : ℕ
attr_archive = 0x20

module _ (d : Disk) (i : FsInfo) where
  -- A command: its result and the disk after it; `none` when a loop over the path had too few rounds.
  abbrev Command : Type 0 → Type 0
  Command A = d.State → Option (Result A × d.State)

  infixl 5 ◌>>=◌ ◌>>◌
  abbrev ◌>>=◌ : {A B : Type 0} → Command A → (A → Command B) → Command B
  ◌>>=◌ m f s = elim (m s) [
    | none ↦ none
    | some (r, s') ↦ elim r [ err e ↦ some (err e, s') | ok a ↦ f a s' ]
  ]

  abbrev ◌>>◌ : {B : Type 0} → Command (Unit {0}) → Command B → Command B
  m >> k = m >>= λ _. k

  abbrev ends : {A : Type 0} → Result A → Command A
  ends r s = some (r, s)

  -- A part that only reads, and one that also writes.
  abbrev reads : {A : Type 0} → (d.State → Result A) → Command A
  reads f s = some (f s, s)

  abbrev does : {A : Type 0} → (d.State → Result A × d.State) → Command A
  does f s = some (f s)

  abbrev resolves : List (List ℕ) → List ℕ → Command ℕ
  resolves cwd path s = elim (resolve_from_cwd d i cwd path s) [
    | none ↦ none
    | some r ↦ some (r, s)
  ]

  -- `if look_up(dir, name).is_ok() { return Err(Exists) }`
  abbrev fails_if_present : ℕ → List ℕ → Command (Unit {0})
  fails_if_present dir name s = elim (look_up d i dir name s) [
    | ok _ ↦ some (err exists, s)
    | err _ ↦ some (ok tt, s)
  ]

  -- The end of `touch`: nothing more for a name that is there, or an empty file.
  pub touch_entry : ℕ → List ℕ → Command (Unit {0})
  touch_entry dir name s = elim (look_up d i dir name s) [
    | ok _ ↦ some (ok tt, s)
    | err _ ↦
        let (found, s') = find_free_slot d i dir s in
        elim found [
          | err e ↦ some (err e, s')
          | ok (lba, slot) ↦ some (
              write_entry_at d lba slot
                (record { name = name; attr = attr_archive; cluster = 0; size = 0 }) s')
        ]
  ]

  -- `rmdir`'s test that the directory has no entry.
  abbrev fails_if_any : ℕ → Command (Unit {0})
  fails_if_any dir s = elim (walk_dir d i dir (λ e. true) s) [
    | none ↦ some (ok tt, s)
    | some _ ↦ some (err not_empty, s)
  ]

  abbrev requires : Bool → FsErr → Command (Unit {0})
  requires true e = ends (ok tt)
  requires false e = ends (err e)

  abbrev is_directory : DirEntry → Bool
  is_directory e = not (bit_and e.attr attr_directory == 0)

  abbrev takes_cluster : Command ℕ
  takes_cluster s =
      let (found, s') = alloc_cluster d i s in
      elim found [ none ↦ some (err no_space, s') | some c ↦ some (ok c, s') ]

  abbrev frees : ℕ → Command (Unit {0})
  frees c s = some (ok tt, (if c == 0 then s else free_chain d i c s))

  -- The loop of `mkdir` that clears the new cluster.
  pub clear_cluster : ℕ → ℕ → ℕ → d.State → Result (Unit {0}) × d.State
  clear_cluster zero n clu s = (ok tt, s)
  clear_cluster (suc left) n clu s =
      let (done, s') = d.write (u32 (first_sector i clu + n)) (replicate sector_size 0) s in
      elim done [ false ↦ (err io, s') | true ↦ clear_cluster left (n + 1) clu s' ]

  abbrev dir_entry : List ℕ → ℕ → DirEntry
  dir_entry name clu = record { name = name; attr = attr_directory; cluster = clu; size = 0 }

  abbrev dot_name : List ℕ
  dot_name = b'.' ∷ replicate 10 b' '

  abbrev dotdot_name : List ℕ
  dotdot_name = b'.' ∷ b'.' ∷ replicate 9 b' '

  pub mkdir : List (List ℕ) → List ℕ → Command (Unit {0})
  mkdir cwd path = do
    let (parent, leaf) = split_parent path
    parent_clu ← resolves cwd parent
    n83 ← ends (make_83 leaf)
    fails_if_present parent_clu n83
    (lba, slot) ← does (find_free_slot d i parent_clu)
    clus ← takes_cluster
    does (clear_cluster i.sec_per_clus 0 clus)
    does (write_entry_at d (first_sector i clus) 0 (dir_entry dot_name clus))
    does (
        write_entry_at d (first_sector i clus) 1
          (dir_entry dotdot_name (if parent_clu == i.root_clus then 0 else parent_clu)))
    does (write_entry_at d lba slot (dir_entry n83 clus))

  pub touch : List (List ℕ) → List ℕ → Command (Unit {0})
  touch cwd path = do
    let (parent, leaf) = split_parent path
    parent_clu ← resolves cwd parent
    leaf83 ← ends (make_83 leaf)
    touch_entry parent_clu leaf83

  pub rm : List (List ℕ) → List ℕ → Command (Unit {0})
  rm cwd path = do
    let (parent, leaf) = split_parent path
    parent_clu ← resolves cwd parent
    n83 ← ends (make_83 leaf)
    e ← reads (look_up d i parent_clu n83)
    requires (not (is_directory e)) is_dir
    (lba, slot) ← reads (find_pos d i parent_clu n83)
    frees e.cluster
    does (wipe_entry_at d lba slot)

  pub rmdir : List (List ℕ) → List ℕ → Command (Unit {0})
  rmdir cwd path = do
    let (parent, leaf) = split_parent path
    parent_clu ← resolves cwd parent
    n83 ← ends (make_83 leaf)
    e ← reads (look_up d i parent_clu n83)
    requires (is_directory e) not_dir
    (lba, slot) ← reads (find_pos d i parent_clu n83)
    fails_if_any e.cluster
    frees e.cluster
    does (wipe_entry_at d lba slot)

  pub mv : List (List ℕ) → List ℕ → List ℕ → Command (Unit {0})
  mv cwd old new = do
    let (op, ol) = split_parent old
    op_clu ← resolves cwd op
    o83 ← ends (make_83 ol)
    e ← reads (look_up d i op_clu o83)
    (lba, slot) ← reads (find_pos d i op_clu o83)
    let (np, nl) = split_parent new
    np_clu ← resolves cwd np
    n83 ← ends (make_83 nl)
    fails_if_present np_clu n83
    (lba2, slot2) ← does (find_free_slot d i np_clu)
    does (write_entry_at d lba2 slot2 (record e { name = n83 }))
    does (wipe_entry_at d lba slot)

  -- The bytes that `read_file` copies to the front of a buffer of `room` bytes.
  pub read_file : List (List ℕ) → List ℕ → ℕ → Command (List ℕ)
  read_file cwd path room = do
    let (parent, leaf) = split_parent path
    parent_clu ← resolves cwd parent
    leaf83 ← ends (make_83 leaf)
    e ← reads (look_up d i parent_clu leaf83)
    requires (not (is_directory e)) is_dir
    let size = min e.size room
    reads (λ s.
        if (size == 0) || (e.cluster == 0)
        then ok []
        else read_data d i i.cluster_count e.cluster size s)

  -- The entry of `write_file`: a new one, or that of the name with its old chain freed.
  abbrev place_entry : ℕ → List ℕ → ℕ → ℕ → Result DirEntry → Command (Unit {0})
  place_entry dir n83 first len (ok e) = do
    frees e.cluster
    (lba, slot) ← reads (find_pos d i dir n83)
    does (
        write_entry_at d lba slot
          (record { name = n83; attr = e.attr; cluster = first; size = len }))
  place_entry dir n83 first len (err _) = do
    (lba, slot) ← does (find_free_slot d i dir)
    does (
        write_entry_at d lba slot
          (record { name = n83; attr = attr_archive; cluster = first; size = len }))

  abbrev first_of : List ℕ → ℕ
  first_of [] = 0
  first_of (c ∷ cs) = c

  pub write_file : List (List ℕ) → List ℕ → List ℕ → Command (Unit {0})
  write_file cwd path bytes = do
    requires (leb (length bytes) max_file) too_big
    let (parent, leaf) = split_parent path
    parent_clu ← resolves cwd parent
    n83 ← ends (make_83 leaf)
    existing ← reads (λ s. ok (look_up d i parent_clu n83 s))
    chain ← does (alloc_chain d i (clusters_needed i (length bytes)))
    place_entry parent_clu n83 (first_of chain) (length bytes) existing
    write_data d i chain bytes
