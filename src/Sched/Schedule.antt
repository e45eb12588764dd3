-- ===== src/Sched/Schedule.antt =====
-- `schedule` of kernel/src/sched.rs, the whole of a timer tick.
use package.solaros.Prelude.{
  ℕ, ◌<◌, ◌≡◌, ◌⊎◌, refl, sym, ◌∙◌, true, false, Option, none, some, inl, inr, length,
  get_elem?-some, arith, ap, subst, List, [], ◌∷◌, ◌++◌, append_assoc, All, All-map, Bool-cases,
}
use mathlib.Core.Option
use solaros.Sched.{Scheduler, Machine, resume_next, schedule, wake}
use solaros.Sched.Tasks.{TaskState, ready, sleeping, dead, Task, is_ready}
use solaros.Sched.Inv.{Inv, state_at}
use solaros.Sched.Pick.{IsEligible}
use solaros.Sched.Wake.{wake-Wakes, woken}
use solaros.Sched.Resume.{requeued, resume_next-Resumes}
use solaros.Sched.Running.{Switched, Saved, Kept, wake-Kept}

-- No state changes in a pass at `now` when every sleeper is still pending.
settled :
    (now : ℕ) (o : Option TaskState)
    → ((target : ℕ) → o ≡ some (sleeping target) → now < target)
    → Option.map (woken now) o ≡ o
settled now none h = refl
settled now (some ready) h = refl
settled now (some (sleeping target)) h = let later : now < target = h target refl in ground arith
settled now (some dead) h = refl

-- The current task of `out` is the first that can run of the ready queue with ids put behind it, and the queue
-- that is left stands behind it.
abbrev pub FirstOf : Machine → Machine → Type 0
FirstOf m out =
    (added skipped : List ℕ) × (m.sched.ready_queue ++ added
      ≡ skipped ++ out.sched.current ∷ out.sched.ready_queue)
    × All (λ x. ¬ IsEligible m.sched.current out.sched.tasks x) skipped

-- What `schedule` does at tick `now`: every sleeper that is due becomes ready and no other state
-- changes; it then switches to the first of the queue that is ready and not the current one, unless there is
-- none.
pub record Schedules (now : ℕ) (m : Machine) (r : Option Machine) : Type 0 where
  pub out : Machine
  pub returns : r ≡ some out
  pub inv : Inv out.sched
  pub states :
      (x : ℕ) → state_at out.sched.tasks x ≡ Option.map (woken now) (state_at m.sched.tasks x)
  pub choice :
      (IsEligible m.sched.current out.sched.tasks out.sched.current
        × FirstOf m out
        × (sw : Switched m.sched.tasks m out) × Saved m.sched.current m out sw.rsp)
      ⊎ (out.sched.current ≡ m.sched.current)
        × (out.cpu ≡ m.cpu)
        × ((x : ℕ) → ¬ IsEligible m.sched.current out.sched.tasks x)

-- The queue that is searched is the old one with the woken ids, and perhaps the current one, behind.
first_of :
    (m : Machine) (s : Scheduler) (out : Machine) (t : Task) (skipped : List ℕ)
    → Kept m.sched s
    → requeued s t ≡ skipped ++ out.sched.current ∷ out.sched.ready_queue
    → s.current ≡ m.sched.current
    → All (λ x. ¬ IsEligible m.sched.current out.sched.tasks x) skipped
    → FirstOf m out
first_of m s out t skipped k e same none_before = elim (Bool-cases (is_ready t.state)) [
  | inl run ↦ (
    k.woken ++ s.current ∷ [],
    skipped,
    sym (append_assoc m.sched.ready_queue k.woken (s.current ∷ []))
        ∙ ap (λ q. q ++ s.current ∷ []) (sym k.queue)
        ∙ requeue_ready run
        ∙ e,
    none_before,
  )
  | inr idle ↦ (k.woken, skipped, sym k.queue ∙ requeue_idle idle ∙ e, none_before)
]
  where
    requeue_ready : is_ready t.state ≡ true → s.ready_queue ++ s.current ∷ [] ≡ requeued s t
    requeue_ready run = rw run refl

    requeue_idle : is_ready t.state ≡ false → s.ready_queue ≡ requeued s t
    requeue_idle idle = rw idle refl

schedule-wake :
    (now : ℕ) (m : Machine) (s : Scheduler)
    → m.init_done ≡ true
    → wake (length m.sched.sleepers) now 0 m.sched ≡ some s
    → schedule now m ≡ resume_next m s
unfolding schedule
schedule-wake now m s on e = cc

-- With the tables in order and the scheduler started, `schedule` at tick `now` does not panic and keeps the tables
-- in order; exactly the sleepers that are due become ready, and no other state changes. Then the first task
-- that is ready and not the current one, in the ready queue with the woken and perhaps the current one
-- behind, becomes current: `context_switch` goes to its stack from the registers as they were, the kernel
-- enters on its kernel stack, and the old task keeps the stack pointer of the switch. When there is
-- no such task, the current one goes on with the registers as they were.
pub schedule-Schedules :
    (now : ℕ) (m : Machine) → Inv m.sched → m.init_done ≡ true → Schedules now m (schedule now m)
unfolding schedule
schedule-Schedules now m inv on =
    let w =
      wake-Wakes now (length m.sched.sleepers) 0 m.sched inv (λ j x y h e. absurd (omega arith))
        (omega arith) in
    let k = wake-Kept (length m.sched.sleepers) now 0 m.sched w.returns in
    let (t, at) = get_elem?-some w.out.tasks w.out.current w.inv.current_in in
    let r = resume_next-Resumes w.out w.inv t at m in
    let same : (x : ℕ) → state_at r.out.sched.tasks x ≡ state_at w.out.tasks x = r.states in
    record {
      out = r.out;
      returns = schedule-wake now m w.out on w.returns ∙ r.returns;
      inv = r.inv;
      states = λ x.
          same x
          ∙ sym (
              settled now (state_at w.out.tasks x)
                (λ target e. let (j, e') = w.inv.waiting x target e in w.pending j x target e'))
          ∙ w.states x;
      choice = elim (r.choice) [
        | inl (skipped, e, before, el, sw, saved) ↦ inl (
          ((λ p. el.0 (p ∙ sym w.current)), same _ ∙ el.1),
          first_of m w.out r.out t skipped k e w.current (
              All-map (λ x no el'. no ((λ p. el'.0 (p ∙ w.current)), sym (same x) ∙ el'.1)) skipped
                before),
          record {
            rsp = sw.rsp;
            top = sw.top;
            stack = sym (k.stacks r.out.sched.current) ∙ sw.stack;
            cpu = sw.cpu;
            rsp0 = sw.rsp0;
            kstack_top = sw.kstack_top;
          },
          subst (λ c. Saved c m r.out sw.rsp) w.current saved,
        )
        | inr (stay, kept, idle) ↦ inr (
          stay ∙ w.current,
          kept,
          λ x el. idle x ((λ p. el.0 (p ∙ w.current)), sym (same x) ∙ el.1),
        )
      ];
    }

-- Before `init`, `schedule` does nothing.
pub schedule_off : (now : ℕ) (m : Machine) → m.init_done ≡ false → schedule now m ≡ some m
unfolding schedule
schedule_off now m off = rw off
