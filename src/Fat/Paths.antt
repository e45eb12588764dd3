-- ===== src/Fat/Paths.antt =====
-- The directory that a path leads to on a FAT32 volume (kernel/src/fat.rs).
use package.solaros.Prelude.{
  ℕ, zero, suc, ◌+◌, ◌-◌, ◌*◌, true, false, ◌&&◌, ◌||◌, Option, none, some, List, [], ◌∷◌, ◌++◌,
  length, get_or, take, replicate, if◌then◌else◌, ltb, ◌==◌, map,
}
use package.solaros.Fs.{Result, ok, err, pop_comp, is_dot, is_dotdot, is_absolute}
use solaros.Fat.{FsInfo, Disk, get16, is_eoc, read_fat}
use solaros.Fat.Dir.{Scan, stop, go, is_skipped, scan_sectors, lookup_cluster}
use solaros.Fat.Names.{upper, make_83}

-- The cluster that the entry `..` of a directory names.
abbrev dotdot_slot : List ℕ → ℕ → Scan (Option ℕ)
dotdot_slot b k =
    if (get_or b (k * 32) 0 == 0x00) || is_skipped b (k * 32)
    then go
    else if (get_or b (k * 32) 0 == b'.')
        && (get_or b (k * 32 + 1) 0 == b'.')
        && (get_or b (k * 32 + 2) 0 == b' ')
    then stop (some (get16 b (k * 32 + 20) * 65536 + get16 b (k * 32 + 26)))
    else go

-- The name that `cluster_from_cwd` looks for: the stored bytes in capitals, padded to 11.
abbrev stored_83 : List ℕ → List ℕ
stored_83 part = map upper (take 11 part) ++ replicate (11 - length (take 11 part)) b' '

module _ (d : Disk) (i : FsInfo) where
  -- The loop of `parent_of` on its guard.
  parent_from : ℕ → ℕ → d.State → Option ℕ
  parent_from zero c s = none
  parent_from (suc guard) c s =
      let nxt = read_fat d i c s in
      let more : Option ℕ = elim (is_eoc nxt || ltb nxt 2) [
        | true ↦ none
        | false ↦ parent_from guard nxt s
      ] in
      elim (scan_sectors d i none (λ lba b. dotdot_slot b) i.sec_per_clus 0 c s) [
        | stop (some p) ↦ some p
        | stop none ↦ more
        | go ↦ more
      ]

  pub parent_of : ℕ → d.State → Result ℕ
  unfolding parent_from
  parent_of clu s =
      if clu == i.root_clus then ok i.root_clus else elim (parent_from i.cluster_count clu s) [
        | none ↦ ok i.root_clus
        | some p ↦ ok (if p == 0 then i.root_clus else p)
      ]

  -- The loop of `resolve` on fuel.
  pub resolve_from : ℕ → ℕ → List ℕ → d.State → Option (Result ℕ)
  unfolding parent_of make_83
  resolve_from zero clu rest s = none
  resolve_from (suc fuel) clu rest s = elim (pop_comp rest) [
    | none ↦ some (ok clu)
    | some (comp, tail) ↦ elim (is_dot comp) [
      | true ↦ resolve_from fuel clu tail s
      | false ↦ elim (is_dotdot comp) [
        | true ↦ elim (parent_of clu s) [ err e ↦ some (err e) | ok p ↦ resolve_from fuel p tail s ]
        | false ↦ elim (make_83 comp) [
          | err e ↦ some (err e)
          | ok n83 ↦ elim (lookup_cluster d i clu n83 true s) [
            | err e ↦ some (err e)
            | ok c ↦ resolve_from fuel c tail s
          ]
        ]
      ]
    ]
  ]

  pub resolve : ℕ → List ℕ → d.State → Option (Result ℕ)
  unfolding resolve_from
  resolve from path s =
      resolve_from (length path + 1) (if is_absolute path then i.root_clus else from) path s

  -- `cluster_from_cwd` over the names that are left.
  pub cluster_from : ℕ → List (List ℕ) → d.State → Result ℕ
  cluster_from clu [] s = ok clu
  cluster_from clu (part ∷ parts) s = elim (lookup_cluster d i clu (stored_83 part) true s) [
    | err e ↦ err e
    | ok c ↦ cluster_from c parts s
  ]

  -- The current directory is given by its names.
  unfoldable pub resolve_from_cwd : List (List ℕ) → List ℕ → d.State → Option (Result ℕ)
  unfolding resolve cluster_from
  resolve_from_cwd cwd path s =
      if is_absolute path
      then resolve i.root_clus path s
      else elim (cluster_from i.root_clus cwd s) [
        | err e ↦ some (err e)
        | ok from ↦ resolve from path s
      ]
