-- ===== src/Sched/Terminate.antt =====
-- `terminate_current` of kernel/src/sched.rs.
use package.solaros.Prelude.{
  ℕ, ◌<◌, ◌≡◌, ◌≢◌, refl, sym, ap, ◌∙◌, Option, some, some_inj, List, ◌∷◌, ◌++◌, length,
  get_elem?-some, modify, length-modify, All, ◌∈◌, mem-All,
}
use solaros.Sched.{Machine, set_state, pick, terminate_current, Exit, resumed, halted}
use solaros.Sched.Tasks.{Task, TaskState, ready, dead}
use solaros.Sched.Inv.{Inv, state_at, state_at-lt, state_at-set_self, state_at-set_ne}
use solaros.Sched.Pick.{IsEligible, Picks, found, nothing, pick-Picks, mem-kept}
use solaros.Sched.Resume.{All-after}
use solaros.Sched.Running.{Switched, stack_at-modify}
use mathlib.Core.Option

-- How `terminate_current` ends. The current task is dead, and no other state changes. Then the first
-- task of the ready queue that can run has the processor, or the machine halts because no other task is ready.
pub data Terminates (m : Machine) : Option Exit → Type 0 where
  went_on :
      (m' : Machine)
      → Inv m'.sched
      → IsEligible m.sched.current m'.sched.tasks m'.sched.current
      → (skipped : List ℕ)
      → m.sched.ready_queue ≡ skipped ++ m'.sched.current ∷ m'.sched.ready_queue
      → All (λ x. ¬ IsEligible m.sched.current m'.sched.tasks x) skipped
      → Switched m.sched.tasks m m'
      → state_at m'.sched.tasks m.sched.current ≡ some dead
      → ((x : ℕ) → x ≢ m.sched.current → state_at m'.sched.tasks x ≡ state_at m.sched.tasks x)
      → Terminates m (some (resumed m'))
  stopped :
      (m' : Machine)
      → ((x : ℕ) → ¬ IsEligible m.sched.current m.sched.tasks x)
      → state_at m'.sched.tasks m.sched.current ≡ some dead
      → ((x : ℕ) → x ≢ m.sched.current → state_at m'.sched.tasks x ≡ state_at m.sched.tasks x)
      → Terminates m (some (halted m'))

module _ (m : Machine) (inv : Inv m.sched) where
  open m.sched use {tasks, ready_queue, sleepers, current}

  abbrev killed : List Task
  killed = modify tasks current (set_state dead)

  killed_self : state_at killed current ≡ some dead
  killed_self = state_at-set_self tasks current dead inv.current_in

  killed_other : (x : ℕ) → x ≢ current → state_at killed x ≡ state_at tasks x
  killed_other x ne = state_at-set_ne tasks current x dead (λ p. ne (sym p))

  size : length killed ≡ length tasks
  size = length-modify tasks current (set_state dead)

  not_killed : (x : ℕ) {st : TaskState} → st ≢ dead → state_at killed x ≡ some st → x ≢ current
  not_killed x alive e p = alive (some_inj (sym e ∙ ap (state_at killed) p ∙ killed_self))

  Inv-killed :
      (id : ℕ) (rest : List ℕ)
      → id < length tasks
      → All (λ x. x < length tasks) rest
      → ((x : ℕ) → state_at killed x ≡ some ready → x ≢ id → x ∈ rest)
      → Inv (record { tasks = killed; ready_queue = rest; sleepers = sleepers; current = id })
  Inv-killed id rest h inside queued = record {
    current_in = rw size h;
    ready_in = rw size inside;
    sleepers_in = λ j x y e. rw size (inv.sleepers_in j x y e);
    queued = queued;
    waiting = λ x y e. inv.waiting x y (sym (killed_other x (not_killed x (λ f. cc) e)) ∙ e);
  }

  -- With the tables in order, `terminate_current` does not panic, marks the current task dead and changes no
  -- other state. Then the first task of the ready queue that is ready and not the current one becomes
  -- current, `context_switch` goes to its stack, the kernel enters on its kernel stack, and the tables
  -- are in order; or there is no such task, and the machine halts.
  pub terminate_current-Terminates : Terminates m (terminate_current m)
  unfolding terminate_current
  terminate_current-Terminates =
      go (pick current killed ready_queue)
        (pick-Picks current killed ready_queue (rw size inv.ready_in)) refl
    where
      go :
          (r : Option (Option ℕ × List ℕ))
          → Picks current killed ready_queue r
          → pick current killed ready_queue ≡ r
          → Terminates m (terminate_current m)
      go _ (found skipped id rest e before el u at_id) picked =
          let (t, at) = get_elem?-some tasks current inv.current_in in
          let inside : All (λ x. x < length tasks) (skipped ++ id ∷ rest) =
            rw e at (inv.ready_in) in
          rw (at, picked, at_id, terminate_current)
            (went_on _
              (Inv-killed id rest (state_at-lt tasks id (sym (killed_other id el.0) ∙ el.1))
                (All-after (λ x. x < length tasks) skipped id rest inside)
                (λ x st ne.
                  mem-kept (IsEligible current killed) x id skipped rest before
                    (not_killed x (λ f. cc) st, st) ne
                    (rw e at (
                      inv.queued x (sym (killed_other x (not_killed x (λ f. cc) st)) ∙ st)
                        (not_killed x (λ f. cc) st)))))
              el skipped e before
              (record {
                rsp = u.saved_rsp;
                top = u.kstack_top;
                stack =
                    sym (stack_at-modify tasks current id (set_state dead) (λ v. refl) (λ v. refl))
                    ∙ ap (Option.map (λ (v : Task). (v.saved_rsp, v.kstack_top))) at_id;
                cpu = refl;
                rsp0 = refl;
                kstack_top = refl;
              })
              killed_self killed_other)
      go _ (nothing h) picked =
          let (t, at) = get_elem?-some tasks current inv.current_in in
          rw (at, picked, terminate_current)
            (stopped _
              (λ x el.
                mem-All (λ y. ¬ IsEligible current killed y) x ready_queue
                  (inv.queued x (el.1) (el.0)) h (el.0, killed_other x (el.0) ∙ el.1))
              killed_self killed_other)
