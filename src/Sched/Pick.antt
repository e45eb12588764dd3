-- ===== src/Sched/Pick.antt =====
-- `pick`, the loop of kernel/src/sched.rs that takes the next task from the ready queue.
use package.solaros.Prelude.{
  ℕ, ◌<◌, ◌≡◌, ◌≢◌, refl, sym, ap, ◌∙◌, true, false, Option, none, some, List, [], ◌∷◌, ◌++◌, inl,
  inr, length, get_elem?, get_elem?-some, All, ◌∈◌, arith, ◌==◌, drop, mem-append_right, Bool-cases,
  ==_iff,
}
use solaros.Sched.{pick}
use solaros.Sched.Tasks.{Task, TaskState, ready, sleeping, dead, is_ready}
use solaros.Sched.Inv.{state_at, state_at-get}

pub is_ready_lem : (st : TaskState) → is_ready st ≡ true → st ≡ ready
is_ready_lem ready e = refl
is_ready_lem (sleeping t) e = cc
is_ready_lem dead e = cc

not_ready_lem : (st : TaskState) → is_ready st ≡ false → some st ≢ some ready
not_ready_lem ready e = cc
not_ready_lem (sleeping t) e = λ f. cc
not_ready_lem dead e = λ f. cc

module _ (cur : ℕ) (tasks : List Task) where
  abbrev pub IsEligible : ℕ → Type 0
  IsEligible id = (id ≢ cur) × (state_at tasks id ≡ some ready)

  -- What `pick` does with the queue `q`: it takes the first eligible id and drops the ids before
  -- it, or it finds none.
  pub data Picks (q : List ℕ) : Option (Option ℕ × List ℕ) → Type 0 where
    found :
        (skipped : List ℕ) (id : ℕ) (rest : List ℕ)
        → q ≡ skipped ++ id ∷ rest
        → All (λ x. ¬ IsEligible x) skipped
        → IsEligible id
        → (t : Task) → get_elem? tasks id ≡ some t
        → Picks q (some (some id, rest))
    nothing : All (λ x. ¬ IsEligible x) q → Picks q (some (none, []))

  Picks-skip :
      {x : ℕ} {q : List ℕ} {r : Option (Option ℕ × List ℕ)}
      → ¬ IsEligible x
      → Picks q r
      → Picks (x ∷ q) r
  Picks-skip {x} no_x (found skipped id rest e none_before ok t at) =
      found (x ∷ skipped) id rest (ap (◌∷◌ x) e) (no_x, none_before) ok t at
  Picks-skip no_x (nothing none_at_all) = nothing (no_x, none_at_all)

  pub pick-Picks : (q : List ℕ) → All (λ id. id < length tasks) q → Picks q (pick cur tasks q)
  unfolding pick
  pick-Picks [] h = nothing tt
  pick-Picks (id ∷ q) h = elim (Bool-cases (id == cur)) [
    | inl same ↦
        rw (same, pick) (Picks-skip (λ el. el.0 ((==_iff id cur).0 same)) (pick-Picks q h.1))
    | inr other ↦
        let (t, at) = get_elem?-some tasks id h.0 in
        elim (Bool-cases (is_ready t.state)) [
          | inl run ↦
              rw (other, at, run, pick)
                (found [] id q refl tt
                  (ground arith, state_at-get tasks id at ∙ ap some (is_ready_lem t.state run)) t
                  at)
          | inr idle ↦
              rw (other, at, idle, pick)
                (Picks-skip
                  (λ el. not_ready_lem t.state idle (sym (state_at-get tasks id at) ∙ el.1))
                  (pick-Picks q h.1))
        ]
  ]

-- An eligible id that is not the one taken stays in the queue or stood before the one taken.
pub mem-kept :
    (P : ℕ → Type 0) (x id : ℕ) (skipped rest : List ℕ)
    → All (λ y. ¬ P y) skipped
    → P x
    → x ≢ id
    → x ∈ skipped ++ id ∷ rest
    → x ∈ rest
mem-kept P x id [] rest h px ne (inl e) = absurd (ne e)
mem-kept P x id [] rest h px ne (inr m) = m
mem-kept P x id (y ∷ skipped) rest h px ne (inl e) = absurd (h.0 (rw e at px))
mem-kept P x id (y ∷ skipped) rest h px ne (inr m) = mem-kept P x id skipped rest h.1 px ne m

not_nil : (id : ℕ) (skipped rest : List ℕ) → [] ≢ skipped ++ id ∷ rest
not_nil id [] rest e = cc
not_nil id (y ∷ skipped) rest e = cc

-- The last id of the queue is still there, unless it is the one taken.
pub last_kept :
    (x id : ℕ) (q skipped rest : List ℕ) → q ++ x ∷ [] ≡ skipped ++ id ∷ rest → x ≢ id → x ∈ rest
last_kept x id [] [] rest e ne = absurd (ne cc)
last_kept x id [] (y ∷ skipped) rest e ne = absurd (not_nil id skipped rest (ap (drop 1) e))
last_kept x id (z ∷ q) [] rest e ne =
    let tail : q ++ x ∷ [] ≡ rest = ap (drop 1) e in
    rw (← tail) (mem-append_right x q (x ∷ []) (inl refl))
last_kept x id (z ∷ q) (y ∷ skipped) rest e ne = last_kept x id q skipped rest (ap (drop 1) e) ne
