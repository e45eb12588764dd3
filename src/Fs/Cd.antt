-- ===== src/Fs/Cd.antt =====
-- What `cd` makes of a path (kernel/src/fs.rs).
use package.solaros.Prelude.{
  ℕ, zero, suc, ◌+◌, ◌-◌, ◌≤◌, ◌<◌, ◌≡◌, refl, sym, ◌∙◌, ap, List, [], ◌∷◌, ◌++◌, map, ◌%◌, Option,
  none, some, length, take, set, replicate, if◌then◌else◌, arith, true, false, leb, take-set,
  take-length, length-set, length-take,
}
use package.solaros.Prelude.Rows.{stored, stored-set, length-stored}
use solaros.Fs.{
  Cwd, Result, ok, err, too_big, max_depth, part_cap, fitting, put_part, is_dot, is_dotdot,
  is_empty, pop_comp, cd_loop,
}
use solaros.Fs.Paths.{components}

-- The names of the directories that lead down to a current directory.
abbrev pub names : Cwd → List (List ℕ)
names cwd = take cwd.n (stored cwd.lens cwd.parts)

-- All but the last.
abbrev pub parent : List (List ℕ) → List (List ℕ)
parent dir = take (length dir - 1) dir

-- What a directory keeps of the name of a component: the low byte of each char, of the first twelve.
abbrev pub kept : List ℕ → List ℕ
kept comp = take 12 (map (λ c. c % 256) comp)

take-map :
    (n : ℕ) (comp : List ℕ) → map (λ c. c % 256) (take n comp) ≡ take n (map (λ c. c % 256) comp)
take-map zero comp = refl
take-map (suc n) [] = refl
take-map (suc n) (c ∷ comp) = ap (λ cs. c % 256 ∷ cs) (take-map n comp)

fitting-kept : (comp : List ℕ) → fitting comp ≡ kept comp
fitting-kept comp = take-map 12 comp

-- The directory that the components lead to: `none` below depth 16.
abbrev pub follow : List (List ℕ) → List (List ℕ) → Option (List (List ℕ))
follow [] dir = some dir
follow (c ∷ cs) dir =
    if is_dot c
    then follow cs dir
    else if is_dotdot c
    then follow cs (parent dir)
    else if leb 16 (length dir)
    then none
    else follow cs (dir ++ kept c ∷ [])

pub record IsCwd (cwd : Cwd) : Type 0 where
  pub parts : length cwd.parts ≡ max_depth
  pub lens : length cwd.lens ≡ max_depth
  pub depth : cwd.n ≤ max_depth

-- The candidate after the loop has the names that the components lead to, or the path is too deep.
abbrev pub Followed : List ℕ → List (List ℕ) → Result Cwd → Type 0
Followed path dir (ok cand) = (follow (components path) dir ≡ some (names cand)) × IsCwd cand
Followed path dir (err e) = (e ≡ too_big) × (follow (components path) dir ≡ none)

-- The result for a path from that for the rest of it.
pub Followed-step :
    (path tail : List ℕ) (dir dir' : List (List ℕ)) (r : Result Cwd)
    → follow (components path) dir ≡ follow (components tail) dir'
    → Followed tail dir' r
    → Followed path dir r
Followed-step path tail dir dir' (ok cand) e f = (e ∙ f.0, f.1)
Followed-step path tail dir dir' (err x) e f = (f.0, e ∙ f.1)

take-take : {A : Type 0} (m n : ℕ) (xs : List A) → m ≤ n → take m (take n xs) ≡ take m xs
take-take zero n xs h = refl
take-take (suc m) zero xs h = elim h [ ]
take-take (suc m) (suc n) [] h = refl
take-take (suc m) (suc n) (x ∷ xs) h = ap (◌∷◌ x) (take-take m n xs (omega arith))

-- The names down to depth `n` of a candidate.
abbrev pub upto : Cwd → ℕ → List (List ℕ)
upto cand n = take n (stored cand.lens cand.parts)

module _ (cand : Cwd) (n : ℕ) (is : IsCwd (record cand { n = n })) where
  length-slots : length (stored cand.lens cand.parts) ≡ max_depth
  length-slots = length-stored cand.lens cand.parts (is.lens ∙ sym is.parts) ∙ is.lens

  pub length-upto : length (upto cand n) ≡ n
  length-upto = length-take n (stored cand.lens cand.parts) ∙ omega (arith, length-slots, is.depth)

  pub upto-parent : parent (upto cand n) ≡ upto cand (n - 1)
  upto-parent =
      ap (λ k. take (k - 1) (upto cand n)) length-upto
      ∙ take-take (n - 1) n (stored cand.lens cand.parts) (omega arith)

  pub upto-put_part :
      (comp : List ℕ)
      → n < max_depth
      → upto (put_part comp n cand) (n + 1) ≡ upto cand n ++ kept comp ∷ []
  upto-put_part comp room =
      let part = fitting comp ++ replicate (part_cap - length (fitting comp)) 0 in
      ap (take (n + 1)) (stored-set n (length (fitting comp)) part cand.lens cand.parts)
      ∙ ap (λ k. take k (set (stored cand.lens cand.parts) n (take (length (fitting comp)) part)))
          {y = suc n} (omega arith)
      ∙ take-set (stored cand.lens cand.parts) n (take (length (fitting comp)) part)
          (omega (arith, length-slots))
      ∙ ap (λ t. upto cand n ++ t ∷ [])
          (take-length (fitting comp) (replicate (part_cap - length (fitting comp)) 0)
            ∙ fitting-kept comp)

  pub put_part-IsCwd :
      (comp : List ℕ) → n < max_depth → IsCwd (record (put_part comp n cand) { n = n + 1 })
  put_part-IsCwd comp room = record {
    parts =
        length-set cand.parts n (fitting comp ++ replicate (part_cap - length (fitting comp)) 0)
        ∙ is.parts;
    lens = length-set cand.lens n (length (fitting comp)) ∙ is.lens;
    depth = omega arith;
  }

module _ (fuel : ℕ) (path comp tail : List ℕ) (cand : Cwd) (n : ℕ)
    (e : pop_comp path ≡ some (comp, tail)) (full : is_empty comp ≡ false) where
  pub loop_same : is_dot comp ≡ true → cd_loop (suc fuel) path cand n ≡ cd_loop fuel tail cand n
  unfolding cd_loop
  loop_same dot = rw (e, cd_loop) (rw full (rw dot))

  pub loop_up :
      is_dot comp ≡ false
      → is_dotdot comp ≡ true
      → cd_loop (suc fuel) path cand n ≡ cd_loop fuel tail cand (n - 1)
  unfolding cd_loop
  loop_up dot dots = rw (e, cd_loop) (rw full (rw dot (rw dots)))

  pub loop_deep :
      is_dot comp ≡ false
      → is_dotdot comp ≡ false
      → leb max_depth n ≡ true
      → cd_loop (suc fuel) path cand n ≡ some (err too_big)
  unfolding cd_loop
  loop_deep dot dots deep = rw (e, cd_loop) (rw full (rw dot (rw dots (rw deep))))

  pub loop_down :
      is_dot comp ≡ false
      → is_dotdot comp ≡ false
      → leb max_depth n ≡ false
      → cd_loop (suc fuel) path cand n ≡ cd_loop fuel tail (put_part comp n cand) (n + 1)
  unfolding cd_loop
  loop_down dot dots deep = rw (e, cd_loop) (rw full (rw dot (rw dots (rw deep))))

pub loop_done :
    (fuel : ℕ) (path : List ℕ) (cand : Cwd) (n : ℕ)
    → pop_comp path ≡ none
    → cd_loop (suc fuel) path cand n ≡ some (ok (record cand { n = n }))
unfolding cd_loop
loop_done fuel path cand n e = rw (e, cd_loop)
