-- ===== src/Fs/Change.antt =====
-- The current directory after `cd` (kernel/src/fs.rs).
use package.solaros.Prelude.{
  ℕ, zero, suc, ◌+◌, ◌-◌, ◌<◌, ◌≡◌, refl, sym, ◌∙◌, ap, subst, List, [], ◌∷◌, Option, none, some,
  length, if◌then◌else◌, arith, false, Bool-cases, inl, inr, leb,
}
use solaros.Fs.{
  Cwd, Result, ok, err, too_big, not_formatted, max_depth, fitting, put_part, is_dot, is_dotdot,
  is_empty, is_absolute, pop_comp, cd_loop, cd, Check, FsKind, set_checked, adopt,
}
use solaros.Fs.Paths.{components, FirstOf, finished, found, pop_comp-FirstOf}
use solaros.Fs.Cd.{
  IsCwd, names, follow, Followed, Followed-step, upto, length-upto, upto-parent, upto-put_part,
  put_part-IsCwd, loop_same, loop_up, loop_deep, loop_down, loop_done,
}

abbrev Outcome : ℕ → List ℕ → Cwd → ℕ → Type 0
Outcome fuel path cand n =
    (r : Result Cwd) × (cd_loop fuel path cand n ≡ some r) × Followed path (upto cand n) r

-- One round for the first component, given the rounds for the rest.
module _ (fuel : ℕ) (path comp tail : List ℕ) (cand : Cwd) (n : ℕ)
    (is : IsCwd (record cand { n = n })) (e : pop_comp path ≡ some (comp, tail))
    (first : components path ≡ comp ∷ components tail) (full : is_empty comp ≡ false)
    (rest : (cand' : Cwd) (n' : ℕ)
      → IsCwd (record cand' { n = n' })
      → Outcome fuel tail cand' n') where
  followed :
      (dir : List (List ℕ)) → follow (components path) dir ≡ follow (comp ∷ components tail) dir
  followed dir = ap (λ cs. follow cs dir) first

  continue :
      (cand' : Cwd) (n' : ℕ)
      → cd_loop (suc fuel) path cand n ≡ cd_loop fuel tail cand' n'
      → follow (components path) (upto cand n) ≡ follow (components tail) (upto cand' n')
      → IsCwd (record cand' { n = n' })
      → Outcome (suc fuel) path cand n
  continue cand' n' step same is' =
      let (r, e', f) = rest cand' n' is' in
      (r, step ∙ e', Followed-step path tail (upto cand n) (upto cand' n') r same f)

  down :
      is_dot comp ≡ false
      → is_dotdot comp ≡ false
      → leb max_depth n ≡ false
      → Outcome (suc fuel) path cand n
  down dot dots deep =
      let room : n < max_depth = ground arith in
      continue (put_part comp n cand) (n + 1)
        (loop_down fuel path comp tail cand n e full dot dots deep)
        (followed (upto cand n)
          ∙ rw (dot) (
              rw dots (
                rw (length-upto cand n is) (
                  rw deep
                    (ap (follow (components tail)) (sym (upto-put_part cand n is comp room)))))))
        (put_part-IsCwd cand n is comp room)

  round : Outcome (suc fuel) path cand n
  round = elim (Bool-cases (is_dot comp)) [
    | inl dot ↦
        continue cand n (loop_same fuel path comp tail cand n e full dot)
          (followed (upto cand n) ∙ rw dot) is
    | inr dot ↦ elim (Bool-cases (is_dotdot comp)) [
      | inl dots ↦
          continue cand (n - 1) (loop_up fuel path comp tail cand n e full dot dots)
            (followed (upto cand n)
              ∙ rw dot (rw dots (ap (follow (components tail)) (upto-parent cand n is))))
            (record { parts = is.parts; lens = is.lens; depth = omega (arith, is.depth) })
      | inr dots ↦ elim (Bool-cases (leb max_depth n)) [
        | inl deep ↦ (
          err too_big,
          loop_deep fuel path comp tail cand n e full dot dots deep,
          (refl, followed (upto cand n) ∙ rw dot (rw dots (rw (length-upto cand n is) (rw deep)))),
        )
        | inr room ↦ down dot dots room
      ]
    ]
  ]

cd_loop-Followed :
    (fuel : ℕ) (path : List ℕ) (cand : Cwd) (n : ℕ)
    → length path < fuel
    → IsCwd (record cand { n = n })
    → Outcome fuel path cand n
cd_loop-Followed zero path cand n enough is = elim enough [ ]
cd_loop-Followed (suc fuel) path cand n enough is =
    by_first (pop_comp path) refl (pop_comp-FirstOf path)
      (λ tail less cand' n' is'. cd_loop-Followed fuel tail cand' n' (omega arith) is')
  where
    by_first :
        (o : Option (List ℕ × List ℕ))
        → pop_comp path ≡ o
        → FirstOf path o
        → ((tail : List ℕ)
            → length tail < length path
            → (cand' : Cwd) (n' : ℕ) → IsCwd (record cand' { n = n' })
            → Outcome fuel tail cand' n')
        → Outcome (suc fuel) path cand n
    by_first none e (finished nothing) ih = (
      ok (record cand { n = n }),
      loop_done fuel path cand n e,
      (ap (λ cs. follow cs (upto cand n)) nothing, is),
    )
    by_first (some (comp, tail)) e (found first full less) ih =
        round fuel path comp tail cand n is e first full (ih tail less)

-- The directory that a path starts from.
abbrev pub start_of : List ℕ → Cwd → List (List ℕ)
start_of path cwd = if is_absolute path then [] else names cwd

-- What `cd` may do: the current directory changes only on success, to the one that the path leads to.
pub data Changed (check : Check) (mount : Option FsKind) (path : List ℕ) (cwd : Cwd)
    : Result (Unit {0}) → Cwd → Type 0 where
  too_deep :
      follow (components path) (start_of path cwd) ≡ none
      → Changed check mount path cwd (err too_big) cwd
  unmounted : mount ≡ none → Changed check mount path cwd (err not_formatted) cwd
  refused :
      {k : FsKind} (cand : Cwd) {e : solaros.Fs.FsErr}
      → mount ≡ some k
      → follow (components path) (start_of path cwd) ≡ some (names cand)
      → check k cand ≡ err e
      → Changed check mount path cwd (err e) cwd
  entered :
      {k : FsKind} {cand : Cwd}
      → mount ≡ some k
      → follow (components path) (start_of path cwd) ≡ some (names cand)
      → IsCwd cand
      → check k cand ≡ ok tt
      → Changed check mount path cwd (ok tt) cand

module _ (check : Check) (mount : Option FsKind) (path : List ℕ) (cwd : Cwd) (is : IsCwd cwd) where
  abbrev depth : ℕ
  depth = if is_absolute path then 0 else cwd.n

  upto-depth : upto cwd depth ≡ start_of path cwd
  upto-depth = elim (Bool-cases (is_absolute path)) [ inl a ↦ rw a | inr r ↦ rw r ]

  depth-IsCwd : IsCwd (record cwd { n = depth })
  depth-IsCwd = record { parts = is.parts; lens = is.lens; depth = ground (arith, is.depth) }

  abbrev Ends : Result (Unit {0}) × Cwd → Type 0
  Ends r = Changed check mount path cwd r.0 r.1

  checked :
      (m : Option FsKind) (cand : Cwd)
      → mount ≡ m
      → follow (components path) (start_of path cwd) ≡ some (names cand)
      → IsCwd cand
      → Ends (set_checked check m cwd (ok cand))
  checked none cand e f ic = unmounted e
  checked (some k) cand e f ic = answer (check k cand) refl
    where
      answer :
          (a : Result (Unit {0}))
          → check k cand ≡ a
          → Ends (set_checked check (some k) cwd (ok cand))
      answer (err x) a = subst (λ b. Ends (adopt cwd cand b)) (sym a) (refused cand e f a)
      answer (ok u) a = subst (λ b. Ends (adopt cwd cand b)) (sym a) (entered e f ic a)

  -- With a current directory of two arrays of 16 and a depth of at most 16, `cd` ends. It changes the
  -- current directory only when it reports success, then to one with exactly the names that the path's
  -- components lead to, each kept to the low bytes of its first twelve chars, which the check of the mounted
  -- file system accepts. It fails with TooBig when the components go below depth 16, with NotFormatted when
  -- nothing is mounted, and else with the check's error.
  pub cd-Changed :
      (r : Result (Unit {0})) × (cwd' : Cwd) × (cd check mount path cwd ≡ some (r, cwd'))
      × Changed check mount path cwd r cwd'
  unfolding cd
  cd-Changed = finish (cd_loop-Followed (length path + 1) path cwd depth (omega arith) depth-IsCwd)
    where
      changed :
          (r : Result Cwd) → Followed path (upto cwd depth) r → Ends (set_checked check mount cwd r)
      changed (err x) f =
          subst (λ y. Changed check mount path cwd (err y) cwd) (sym f.0)
            (too_deep (ap (follow (components path)) (sym upto-depth) ∙ f.1))
      changed (ok cand) f =
          checked mount cand refl (ap (follow (components path)) (sym upto-depth) ∙ f.0) f.1

      finish :
          Outcome (length path + 1) path cwd depth
          → (r : Result (Unit {0})) × (cwd' : Cwd) × (cd check mount path cwd ≡ some (r, cwd'))
            × Changed check mount path cwd r cwd'
      finish (r, e, f) =
          let end = set_checked check mount cwd r in (end.0, end.1, rw (e, cd), changed r f)
