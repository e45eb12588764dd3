-- ===== src/Fat/Tests.antt =====
-- A volume in memory, runs on it, and the theorems of the volume at these (kernel/src/fat.rs).
use package.solaros.Prelude.{
  ℕ, zero, suc, ◌+◌, ◌*◌, ◌%◌, ◌^◌, ◌≤◌, ◌<◌, ◌≡◌, ◌≢◌, set, ◌↔◌, refl, sym, ◌∙◌, ap, true, false,
  none, some, List, [], ◌∷◌, ◌++◌, length, take, replicate, take-length, length-take, length-append,
  length-replicate, arith, ◌==◌, leb, ◌&&◌, if◌then◌else◌, ==_iff, Bool-cases, inl, inr,
}
use package.solaros.Fs.{ok, fat}
use solaros.Fat.{
  FsInfo, Disk, u32, get32, first_sector, is_eoc, sector_size, fat_eoc_mask, read_fat, write_copies,
  write_fat, alloc_cluster, free_chain, put32, fat_sector, chain_limit,
}
use solaros.Fat.Table.{IsTable, InTable, write_fat-Written}
use solaros.Fat.Alloc.{HasEntries, Allocated, alloc_cluster-Allocated}
use solaros.Fat.Free.{Links, Freed, free_chain-Freed}
use solaros.Fat.Dir.{
  DirEntry, entry_at, look_up, find_pos_from, find_pos, write_entry_at, put_dir_entry,
}
use solaros.Fat.Dir.Found.{Agreed, find_pos-look_up}
use solaros.Fat.Dir.Entry.{write_entry_at-Held}
use solaros.Fat.Mount.{Mounted, mount_at}
use solaros.Fat.Mount.Inside.{mount_at-Inside}
use solaros.Fat.Names.{make_83}
use solaros.Fat.Names.Accepts.{IsNameChar, IsStored, stored_dotted, make_83-IsStored}
use solaros.Fat.Files.{mkdir, touch, rm, rmdir}
use solaros.Fat.Files.Root.{commands_in_root}

-- A sector of 512 bytes that starts with the given ones.
abbrev pub padded : List ℕ → List ℕ
padded b = take sector_size (b ++ replicate sector_size 0)

pub padded-length : (b : List ℕ) → length (padded b) ≡ sector_size
padded-length b = omega (
  arith,
  length-take sector_size (b ++ replicate sector_size 0),
  length-append b (replicate sector_size 0),
  length-replicate {A = ℕ} sector_size 0,
)

pub padded_full : (b : List ℕ) → length b ≡ sector_size → padded b ≡ b
padded_full b h =
    ap (λ n. take n (b ++ replicate sector_size 0)) (sym h)
    ∙ take-length b (replicate sector_size 0)

abbrev pub ram_write : ℕ → List ℕ → (ℕ → List ℕ) → ℕ → List ℕ
ram_write lba b s other = if other == lba then b else s other

pub some_inj : {x y : List ℕ} → some x ≡ some y → x ≡ y
some_inj h = cc

pub ==_refl : (n : ℕ) → (n == n) ≡ true
==_refl n = (==_iff n n).1 refl

pub ==_ne : (n m : ℕ) → n ≢ m → (n == m) ≡ false
==_ne n m h = elim (Bool-cases (n == m)) [ inl e ↦ absurd (h ((==_iff n m).0 e)) | inr e ↦ e ]

abbrev pub ram : Disk
ram = record {
  State = ℕ → List ℕ;
  read = λ lba s. some (padded (s lba));
  write = λ lba b s. (true, ram_write lba b s);
  read-length = λ lba s h. ap length (sym (some_inj h)) ∙ padded-length (s lba);
  read-write = λ lba b s len done. ap some (ap padded (rw (==_refl lba)) ∙ padded_full b len);
  read-write_ne = λ lba other b s ne done. ap (λ x. some (padded x)) (rw (==_ne other lba ne));
}

abbrev pub volume : FsInfo
volume = record {
  sec_per_clus = 1;
  rsvc = 1;
  num_fats = 2;
  fat_size = 1;
  root_clus = 2;
  data_start = 3;
  cluster_count = 8;
}

volume-IsTable : IsTable volume
volume-IsTable = record { some_fat = omega arith; fits = omega arith }

pub volume-HasEntries : HasEntries volume
volume-HasEntries = record { table = volume-IsTable; entries = omega arith }

copies_done :
    (base f left : ℕ) (b : List ℕ) (s : ram.State)
    → (write_copies ram volume base f left b s).0 ≡ true
unfolding write_copies
copies_done base f zero b s = refl
copies_done base f (suc left) b s = copies_done base (f + 1) left b _

pub ram_works : (c v : ℕ) (s : ram.State) → InTable volume c → (write_fat ram volume c v s).0 ≡ true
unfolding write_fat
ram_works c v s h =
    copies_done (fat_sector volume c) 0 2 (put32 (padded (s (fat_sector volume c))) (c * 4 % 512) v)
      s

-- A file name of eleven bytes, and its entry with cluster 3.
abbrev file_name : List ℕ
file_name = b'A' ∷ b' ' ∷ b' ' ∷ b' ' ∷ b' ' ∷ b' ' ∷ b' ' ∷ b' ' ∷ b' ' ∷ b' ' ∷ b' ' ∷ []

abbrev file_entry : DirEntry
file_entry = record { name = file_name; attr = 0x20; cluster = 3; size = 700 }

-- The root in cluster 2 holds one file, whose chain is 3, 4.
abbrev pub disk : ram.State
disk lba =
    if lba == 1
    then put32 (put32 (put32 (padded []) 8 fat_eoc_mask) 12 4) 16 fat_eoc_mask
    else if lba == 3
    then put_dir_entry (padded []) 0 file_entry
    else []

write_fat-Written_example :
    (read_fat ram volume 5 (write_fat ram volume 5 7 disk).1 ≡ 7)
    × ((other : ℕ)
        → InTable volume other
        → other ≢ 5
        → read_fat ram volume other (write_fat ram volume 5 7 disk).1
          ≡ read_fat ram volume other disk)
write_fat-Written_example =
    write_fat-Written volume volume-IsTable ram 5 7 disk (omega arith) (omega arith)
      (ram_works 5 7 disk (omega arith))

alloc_cluster-Allocated_example :
    Allocated ram volume volume-HasEntries ram_works 2 disk
      (alloc_cluster ram volume disk).0
      (alloc_cluster ram volume disk).1
alloc_cluster-Allocated_example =
    alloc_cluster-Allocated ram volume volume-HasEntries ram_works disk (omega arith)

alloc_run : (alloc_cluster ram volume disk).0 ≡ some 5
unfolding alloc_cluster
alloc_run = refl

pub chain_on_disk : Links ram volume disk 3 (4 ∷ [])
unfolding read_fat is_eoc
chain_on_disk = (refl, refl, refl)

short : 1 < chain_limit
unfolding chain_limit
short = omega arith

free_chain-Freed_example :
    Freed ram volume volume-IsTable ram_works (3 ∷ 4 ∷ []) disk (free_chain ram volume 3 disk)
free_chain-Freed_example =
    free_chain-Freed ram volume volume-IsTable ram_works 3 (4 ∷ []) disk (omega arith) short
      (omega arith) (omega arith, tt) ((omega arith, tt), (tt, tt)) chain_on_disk

file_found : look_up ram volume 2 file_name disk ≡ ok file_entry
unfolding look_up solaros.Fat.first_sector
file_found = refl

find_pos-look_up_example :
    Agreed ram volume file_name refl disk
      (look_up ram volume 2 file_name disk)
      (find_pos_from ram volume file_name volume.cluster_count 2 disk)
      (find_pos ram volume 2 file_name disk)
find_pos-look_up_example = find_pos-look_up ram volume file_name refl disk 2 (omega arith)

entry_written : (write_entry_at ram 3 2 file_entry disk).0 ≡ ok tt
unfolding write_entry_at
entry_written = refl

write_entry_at-Held_example :
    (b : List ℕ) × (ram.read 3 (write_entry_at ram 3 2 file_entry disk).1 ≡ some b)
    × (entry_at b (2 * 32) ≡ file_entry)
    × ((other : ℕ)
        → other ≢ 3
        → ram.read other (write_entry_at ram 3 2 file_entry disk).1 ≡ ram.read other disk)
write_entry_at-Held_example =
    write_entry_at-Held ram 3 2 file_entry disk (omega arith)
      (record { name = refl; cluster = omega arith; size = omega arith }) entry_written

-- The name `b`.
commands_in_root_example :
    (mkdir ram volume [] (b'/' ∷ b'b' ∷ []) disk ≡ mkdir ram volume [] (b'b' ∷ []) disk)
    × (touch ram volume [] (b'/' ∷ b'b' ∷ []) disk ≡ touch ram volume [] (b'b' ∷ []) disk)
    × (rm ram volume [] (b'/' ∷ b'b' ∷ []) disk ≡ rm ram volume [] (b'b' ∷ []) disk)
    × (rmdir ram volume [] (b'/' ∷ b'b' ∷ []) disk ≡ rmdir ram volume [] (b'b' ∷ []) disk)
commands_in_root_example = commands_in_root ram volume [] (b'b' ∷ []) (refl, tt) disk

-- The name `a.b`, and its eleven bytes.
abbrev short_name : List ℕ
short_name = b'a' ∷ b'.' ∷ b'b' ∷ []

abbrev stored_name : List ℕ
stored_name = b'A' ∷ replicate 7 b' ' ++ b'B' ∷ replicate 2 b' '

make_83-IsStored_example : (make_83 short_name ≡ ok stored_name) ↔ IsStored short_name stored_name
make_83-IsStored_example = make_83-IsStored short_name stored_name

is_plain : (c : ℕ) → (leb b'a' c && leb c b'z') ≡ true → IsNameChar c
is_plain c h = (ground arith, ground arith, ground arith, ground arith, ground arith, ground arith)

make_83_run : make_83 short_name ≡ ok stored_name
make_83_run = (make_83-IsStored short_name stored_name).1 (
    stored_dotted b'a' [] (b'b' ∷ []) (is_plain b'a' refl, tt) (omega arith)
      (is_plain b'b' refl, tt) (omega arith))

-- The boot sector of a volume of 70000 sectors, with two tables of 600.
abbrev boot_sector : List ℕ
boot_sector =
    set
      (set
        (put32
          (put32 (put32 (set (set (set (set (padded []) 12 2) 13 1) 14 32) 16 2) 32 70000) 36 600)
          44 2)
        510 0x55)
      511 0xAA

abbrev boot_disk : ram.State
boot_disk lba = if lba == 0 then boot_sector else []

abbrev nothing_mounted : Mounted
nothing_mounted = record { info = none; kind = none }

abbrev boot_info : FsInfo
boot_info = record {
  sec_per_clus = 1;
  rsvc = 32;
  num_fats = 2;
  fat_size = 600;
  root_clus = 2;
  data_start = 1232;
  cluster_count = 68768;
}

abbrev mounted_fat : Mounted
mounted_fat = record { info = some boot_info; kind = some fat }

mount_run : mount_at ram true boot_disk nothing_mounted ≡ (ok tt, mounted_fat)
unfolding mount_at
mount_run = refl

mount_at-Inside_example :
    (i : FsInfo) × (mounted_fat.info ≡ some i)
    × (i.rsvc + i.num_fats * i.fat_size < 2 ^ 32 → i.data_start ≡ i.rsvc + i.num_fats * i.fat_size)
    × ((clu n : ℕ)
        → 2 ≤ clu
        → clu < i.cluster_count + 2
        → n < i.sec_per_clus
        → (i.data_start ≤ u32 (first_sector i clu + n))
          × (u32 (first_sector i clu + n) < get32 (padded boot_sector) 32))
mount_at-Inside_example =
    mount_at-Inside ram (padded boot_sector) boot_disk nothing_mounted refl (omega arith) mount_run
