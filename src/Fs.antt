-- ===== src/Fs.antt =====
-- The front end of the file systems, kernel/src/fs.rs: paths, the current directory, and the dispatch
-- to the mounted file system. A char is its code point.
pub mod Paths
pub mod Cd
pub mod Change
mod Tests
use package.solaros.Prelude.{
  ℕ, zero, suc, ◌+◌, ◌-◌, ◌%◌, ◌^◌, Bool, true, false, ◌&&◌, not, Option, none, some, List, [], ◌∷◌,
  ◌++◌, length, take, set, replicate, map, if◌then◌else◌, ltb, leb, ◌==◌,
}

pub data FsErr : Type 0 where
  no_device not_formatted unsupported io not_found not_dir is_dir exists bad_name too_big : FsErr
  no_space not_empty : FsErr

pub data Result {ℓ} (A : Type ℓ) : Type ℓ where
  ok : A → Result A
  err : FsErr → Result A

abbrev pub max_depth : ℕ
max_depth = 16

abbrev pub part_cap : ℕ
part_cap = 12

pub record Cwd : Type 0 where
  pub parts : List (List ℕ)
  pub lens : List ℕ
  pub n : ℕ

-- `Cwd::new`.
abbrev pub new_cwd : Cwd
new_cwd = record {
  parts = replicate max_depth (replicate part_cap 0);
  lens = replicate max_depth 0;
  n = 0;
}

pub strip_slashes : List ℕ → List ℕ
strip_slashes [] = []
strip_slashes (c ∷ s) = if c == b'/' then strip_slashes s else c ∷ s

-- The second loop of `pop_comp`: up to the next slash, and from there on.
pub split_comp : List ℕ → List ℕ × List ℕ
split_comp [] = ([], [])
split_comp (c ∷ s) =
    let (comp, tail) = split_comp s in if c == b'/' then ([], c ∷ s) else (c ∷ comp, tail)

comp_of : List ℕ → Option (List ℕ × List ℕ)
comp_of [] = none
comp_of (c ∷ s) = some (split_comp (c ∷ s))

pub pop_comp : List ℕ → Option (List ℕ × List ℕ)
unfolding strip_slashes split_comp comp_of
pop_comp p = comp_of (strip_slashes p)

abbrev pub is_empty : List ℕ → Bool
is_empty [] = true
is_empty (c ∷ s) = false

abbrev pub is_dot : List ℕ → Bool
is_dot [] = false
is_dot (c ∷ []) = c == b'.'
is_dot (c ∷ d ∷ s) = false

abbrev pub is_dotdot : List ℕ → Bool
is_dotdot [] = false
is_dotdot (c ∷ []) = false
is_dotdot (c ∷ d ∷ []) = (c == b'.') && (d == b'.')
is_dotdot (c ∷ d ∷ e ∷ s) = false

abbrev pub is_absolute : List ℕ → Bool
is_absolute [] = false
is_absolute (c ∷ s) = c == b'/'

-- The chars of a component that fit, `c as u8` each.
abbrev pub fitting : List ℕ → List ℕ
fitting comp = map (λ c. c % 2 ^ 8) (take part_cap comp)

abbrev pub put_part : List ℕ → ℕ → Cwd → Cwd
put_part comp n cand = record cand {
  parts = set cand.parts n (fitting comp ++ replicate (part_cap - length (fitting comp)) 0);
  lens = set cand.lens n (length (fitting comp));
}

-- The loop of `cd` on fuel: the candidate with its new depth.
pub cd_loop : ℕ → List ℕ → Cwd → ℕ → Option (Result Cwd)
unfolding pop_comp
cd_loop zero rest cand n = none
cd_loop (suc fuel) rest cand n = elim (pop_comp rest) [
  | none ↦ some (ok (record cand { n = n }))
  | some (comp, tail) ↦
      let same = cd_loop fuel tail cand n in
      let up = cd_loop fuel tail cand (n - 1) in
      let down = cd_loop fuel tail (put_part comp n cand) (n + 1) in
      if is_empty comp
      then same
      else if is_dot comp
      then same
      else if is_dotdot comp
      then up
      else if leb max_depth n
      then some (err too_big)
      else down
]

pub data FsKind : Type 0 where
  fat ext4 : FsKind

abbrev pub kind : Option FsKind → Result FsKind
kind none = err not_formatted
kind (some k) = ok k

-- `check_dir` of the two file systems.
abbrev pub Check : Type 0
Check = FsKind → Cwd → Result (Unit {0})

-- The candidate becomes the current directory when it is one.
abbrev pub adopt : Cwd → Cwd → Result (Unit {0}) → Result (Unit {0}) × Cwd
adopt cwd cand (err e) = (err e, cwd)
adopt cwd cand (ok u) = (ok tt, cand)

-- The end of `cd`, from `kind()?` on.
abbrev pub set_checked : Check → Option FsKind → Cwd → Result Cwd → Result (Unit {0}) × Cwd
set_checked check mount cwd (err e) = (err e, cwd)
set_checked check none cwd (ok cand) = (err not_formatted, cwd)
set_checked check (some k) cwd (ok cand) = adopt cwd cand (check k cand)

-- `cd`: the result and the current directory after it. A round for each char and one more.
pub cd : Check → Option FsKind → List ℕ → Cwd → Option (Result (Unit {0}) × Cwd)
unfolding cd_loop
cd check mount path cwd =
    elim (cd_loop (length path + 1) path cwd (if is_absolute path then 0 else cwd.n)) [
      | none ↦ none
      | some r ↦ some (set_checked check mount cwd r)
    ]
