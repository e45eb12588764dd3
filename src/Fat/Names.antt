-- ===== src/Fat/Names.antt =====
-- Names of eight and three chars, and the split of a path (kernel/src/fat.rs). A char is its code point.
pub mod Split
pub mod Padded
pub mod Accepts
use package.solaros.Prelude.{
  ℕ, zero, suc, ◌+◌, ◌-◌, ◌*◌, ◌/◌, ◌%◌, ◌^◌, Bool, true, false, ◌&&◌, ◌||◌, not, Option, none,
  some, List, [], ◌∷◌, ◌++◌, length, get_or, set, take, drop, replicate, if◌then◌else◌, ltb, leb,
  ◌==◌, bit_and, min, map,
}
use package.solaros.Fs.{
  FsErr, Result, ok, err, io, bad_name, exists, is_dir, not_dir, not_empty, no_space, Cwd, pop_comp,
  is_dot, is_dotdot, is_empty, is_absolute,
}
use solaros.Fat.{
  FsInfo, Disk, u32, get16, first_sector, is_eoc, read_fat, alloc_cluster, free_chain, sector_size,
}
use solaros.Fat.Dir.{
  DirEntry, Scan, stop, go, attr_directory, attr_lfn, is_skipped, scan_sectors, walk_dir, look_up,
  lookup_cluster, find_pos, find_free_slot, write_entry_at, wipe_entry_at, io_result,
}

abbrev pub upper : ℕ → ℕ
upper b = if leb b'a' b && leb b b'z' then b - 32 else b

-- A char that no name has: not ASCII, or one of NUL, slash, backslash and space.
abbrev pub bad_char : ℕ → Bool
bad_char c = not (ltb c 128) || (c == 0) || (c == b'/') || (c == 0x5C) || (c == b' ')

-- The loop of `make_83`: the name so far, and the length of its stem.
pub make_chars : List ℕ → List ℕ → Bool → ℕ → ℕ → Result (List ℕ × ℕ)
make_chars [] out seen_dot base ext = ok (out, base)
make_chars (c ∷ name) out seen_dot base ext =
    let dotted = make_chars name out true base ext in
    let in_stem = make_chars name (set out base (upper c)) seen_dot (base + 1) ext in
    let in_ext = make_chars name (set out (8 + ext) (upper c)) seen_dot base (ext + 1) in
    if c == b'.'
    then if seen_dot then err bad_name else dotted
    else if bad_char c
    then err bad_name
    else if seen_dot
    then if leb 3 ext then err bad_name else in_ext
    else if leb 8 base
    then err bad_name
    else in_stem

-- The tests at the end of `make_83`.
abbrev checked_83 : Result (List ℕ × ℕ) → Result (List ℕ)
checked_83 (err e) = err e
checked_83 (ok (out, base)) =
    if base == 0
    then err bad_name
    else if (base == 1) && (get_or out 0 0 == b'.')
    then err bad_name
    else if (base == 2) && (get_or out 0 0 == b'.') && (get_or out 1 0 == b'.')
    then err bad_name
    else ok out

unfoldable pub make_83 : List ℕ → Result (List ℕ)
unfolding make_chars
make_83 name = checked_83 (make_chars name (replicate 11 b' ') false 0 0)

-- The loop of `split_parent` from index `k` on: the last slash.
pub last_slash : ℕ → Option ℕ → List ℕ → Option ℕ
last_slash k last [] = last
last_slash k last (c ∷ path) = last_slash (k + 1) (if c == b'/' then some k else last) path

unfoldable pub split_parent : List ℕ → List ℕ × List ℕ
unfolding last_slash
split_parent path = elim (last_slash 0 none path) [
  | some k ↦ (take k path, drop (k + 1) path)
  | none ↦ ([], path)
]
