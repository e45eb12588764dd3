-- ===== src/Sched/Inv.antt =====
-- The invariant of the scheduler's tables (kernel/src/sched.rs), over the states of the tasks.
use package.solaros.Prelude.{
  ℕ, suc, ◌<◌, ◌≡◌, ◌≢◌, ◌⊎◌, refl, ap, Option, some, List, [], ◌∷◌, ◌++◌, inl, inr, length,
  get_elem?, modify, All, ◌∈◌, arith, get_elem?-modify_ne,
}
use mathlib.Core.Option
use solaros.Sched.{Scheduler, set_state}
use solaros.Sched.Tasks.{Task, TaskState, ready, sleeping}

-- The state of a task, if there is a task of that id.
abbrev pub state_at : List Task → ℕ → Option TaskState
state_at tasks id = Option.map (λ t. t.state) (get_elem? tasks id)

-- No id is out of range; each ready task but the current one stands in the ready queue, so that no
-- task is lost; each sleeping task has its entry among the sleepers.
pub record Inv (s : Scheduler) : Type 0 where
  pub current_in : s.current < length s.tasks
  pub ready_in : All (λ id. id < length s.tasks) s.ready_queue
  pub sleepers_in :
      (j id target : ℕ) → get_elem? s.sleepers j ≡ some (id, target) → id < length s.tasks
  pub queued : (id : ℕ) → state_at s.tasks id ≡ some ready → id ≢ s.current → id ∈ s.ready_queue
  pub waiting :
      (id target : ℕ)
      → state_at s.tasks id ≡ some (sleeping target)
      → (j : ℕ) × (get_elem? s.sleepers j ≡ some (id, target))

pub state_at-lt :
    (tasks : List Task) (id : ℕ) {st : TaskState} → state_at tasks id ≡ some st → id < length tasks
state_at-lt [] id e = cc
state_at-lt (t ∷ tasks) ℕ.zero e = omega arith
state_at-lt (t ∷ tasks) (suc id) e = omega (arith, state_at-lt tasks id e)

pub state_at-get :
    (tasks : List Task) (id : ℕ) {t : Task}
    → get_elem? tasks id ≡ some t
    → state_at tasks id ≡ some (t.state)
state_at-get tasks id e = ap (Option.map (λ (t : Task). t.state)) e

pub state_at-set_self :
    (tasks : List Task) (id : ℕ) (st : TaskState)
    → id < length tasks
    → state_at (modify tasks id (set_state st)) id ≡ some st
state_at-set_self [] id st h = elim h [ ]
state_at-set_self (t ∷ tasks) ℕ.zero st h = refl
state_at-set_self (t ∷ tasks) (suc id) st h = state_at-set_self tasks id st (omega arith)

pub state_at-set_ne :
    (tasks : List Task) (id j : ℕ) (st : TaskState)
    → id ≢ j
    → state_at (modify tasks id (set_state st)) j ≡ state_at tasks j
state_at-set_ne tasks id j st h =
    ap (Option.map (λ (t : Task). t.state)) (get_elem?-modify_ne tasks id j (set_state st) h)

-- A change that leaves the state of a task alone leaves all states alone.
pub state_at-modify :
    (tasks : List Task) (id j : ℕ) (f : Task → Task)
    → ((t : Task) → (f t).state ≡ t.state)
    → state_at (modify tasks id f) j ≡ state_at tasks j
state_at-modify [] id j f h = refl
state_at-modify (t ∷ tasks) ℕ.zero ℕ.zero f h = ap some (h t)
state_at-modify (t ∷ tasks) ℕ.zero (suc j) f h = refl
state_at-modify (t ∷ tasks) (suc id) ℕ.zero f h = refl
state_at-modify (t ∷ tasks) (suc id) (suc j) f h = state_at-modify tasks id j f h

-- A new task at the end of the table.
pub state_at-append :
    (tasks : List Task) (new : Task) (id : ℕ) {st : TaskState}
    → state_at (tasks ++ new ∷ []) id ≡ some st
    → (state_at tasks id ≡ some st) ⊎ (id ≡ length tasks) × (new.state ≡ st)
state_at-append [] new ℕ.zero e = inr (refl, cc)
state_at-append [] new (suc id) e = cc
state_at-append (t ∷ tasks) new ℕ.zero e = inl e
state_at-append (t ∷ tasks) new (suc id) e = elim (state_at-append tasks new id e) [
  | inl h ↦ inl h
  | inr h ↦ inr (ap suc (h.0), h.1)
]
