-- ===== src/Sched/Resume.antt =====
-- `resume_next`, the second half of `schedule` in kernel/src/sched.rs: the choice of the next task.
use package.solaros.Prelude.{
  ℕ, ◌<◌, ◌≡◌, ◌≢◌, ◌⊎◌, refl, sym, ap, ◌∙◌, true, Option, some, some_inj, List, [], ◌∷◌, ◌++◌, inl,
  inr, length, get_elem?, modify, length-modify, All, All-append, ◌∈◌, mem-append_left, mem-All,
  if◌then◌else◌, Bool-cases, ℕ_discrete, subst, get_elem?-some, get_elem?-modify_self,
}
use mathlib.Core.Option
use solaros.Sched.{Scheduler, Machine, count_switch, save_rsp, switch_to, pick, resume_next}
use solaros.Sched.Tasks.{Task, ready, is_ready}
use solaros.Sched.Inv.{Inv, state_at, state_at-lt, state_at-get, state_at-modify}
use solaros.Sched.Running.{Switched, Saved}
use solaros.Sched.Pick.{IsEligible, Picks, found, nothing, pick-Picks, mem-kept, last_kept}

-- A change of the table that keeps its length and all states, and a queue that still holds the
-- ready tasks, keep the invariant.
pub Inv-same_states :
    (s s' : Scheduler)
    → Inv s
    → length s'.tasks ≡ length s.tasks
    → ((x : ℕ) → state_at s'.tasks x ≡ state_at s.tasks x)
    → s'.sleepers ≡ s.sleepers
    → s'.current < length s.tasks
    → All (λ x. x < length s.tasks) s'.ready_queue
    → ((x : ℕ) → state_at s.tasks x ≡ some ready → x ≢ s'.current → x ∈ s'.ready_queue)
    → Inv s'
Inv-same_states s s' inv size same list cur inside queued = record {
  current_in = rw size cur;
  ready_in = rw size inside;
  sleepers_in = λ j x y e. rw size (inv.sleepers_in j x y (ap (λ l. get_elem? l j) (sym list) ∙ e));
  queued = λ x e ne. queued x (sym (same x) ∙ e) ne;
  waiting = λ x y e.
      let (j, e') = inv.waiting x y (sym (same x) ∙ e) in (j, ap (λ l. get_elem? l j) list ∙ e');
}

-- The queue that `schedule` searches: the current task goes to its end if it is ready.
abbrev pub requeued : Scheduler → Task → List ℕ
requeued s t = if is_ready t.state then s.ready_queue ++ s.current ∷ [] else s.ready_queue

-- What `resume_next` does, with `t` the current task: it runs the first task of the queue that can
-- run and drops the ids before it, or, when no other task is ready, leaves the current one running.
-- No task changes its state.
pub record Resumes (m : Machine) (s : Scheduler) (t : Task) (r : Option Machine) : Type 0 where
  pub out : Machine
  pub returns : r ≡ some out
  pub inv : Inv out.sched
  pub states : (x : ℕ) → state_at out.sched.tasks x ≡ state_at s.tasks x
  pub sleepers : out.sched.sleepers ≡ s.sleepers
  pub choice :
      ((skipped : List ℕ) × (requeued s t ≡ skipped ++ out.sched.current ∷ out.sched.ready_queue)
        × All (λ x. ¬ IsEligible s.current s.tasks x) skipped
        × IsEligible s.current s.tasks out.sched.current
        × (sw : Switched s.tasks m out) × Saved s.current m out sw.rsp)
      ⊎ (out.sched.current ≡ s.current)
        × (out.cpu ≡ m.cpu)
        × ((x : ℕ) → ¬ IsEligible s.current s.tasks x)

pub All-after :
    (P : ℕ → Type 0) (skipped : List ℕ) (id : ℕ) (rest : List ℕ)
    → All P (skipped ++ id ∷ rest)
    → All P rest
All-after P [] id rest h = h.1
All-after P (x ∷ skipped) id rest h = All-after P skipped id rest h.1

-- The bookkeeping of a switch: both counters, and the saved stack pointer.
module _ (tasks : List Task) (cur id rsp : ℕ) where
  abbrev counted : List Task
  counted = modify (modify (modify tasks cur count_switch) id count_switch) cur (save_rsp rsp)

  length-counted : length counted ≡ length tasks
  length-counted =
      length-modify (modify (modify tasks cur count_switch) id count_switch) cur (save_rsp rsp)
      ∙ length-modify (modify tasks cur count_switch) id count_switch
      ∙ length-modify tasks cur count_switch

  state_at-counted : (x : ℕ) → state_at counted x ≡ state_at tasks x
  state_at-counted x =
      state_at-modify (modify (modify tasks cur count_switch) id count_switch) cur x (save_rsp rsp)
        (λ t. refl)
      ∙ state_at-modify (modify tasks cur count_switch) id x count_switch (λ t. refl)
      ∙ state_at-modify tasks cur x count_switch (λ t. refl)

saved_in_table :
    (tasks : List Task) (cur id rsp : ℕ) (t : Task)
    → get_elem? tasks cur ≡ some t
    → Option.map (λ (u : Task). u.saved_rsp) (get_elem? (counted tasks cur id rsp) cur) ≡ some rsp
saved_in_table tasks cur id rsp t at =
    let before = modify (modify tasks cur count_switch) id count_switch in
    let inside : cur < length before =
      subst (λ n. cur < n)
        (sym (
          length-modify (modify tasks cur count_switch) id count_switch
          ∙ length-modify tasks cur count_switch))
        (state_at-lt tasks cur (state_at-get tasks cur at)) in
    let (u, at_old) = get_elem?-some before cur inside in
    ap (Option.map (λ (v : Task). v.saved_rsp))
      (get_elem?-modify_self before cur (save_rsp rsp) ∙ ap (Option.map (save_rsp rsp)) at_old)

module _ (s : Scheduler) (inv : Inv s) (t : Task) (at : get_elem? s.tasks s.current ≡ some t) where
  open s use {tasks, ready_queue, current}

  queue_in : All (λ x. x < length tasks) (requeued s t)
  queue_in = elim (Bool-cases (is_ready t.state)) [
    | inl e ↦ rw e (
        All-append (λ x. x < length tasks) ready_queue (current ∷ []) inv.ready_in
          (inv.current_in, tt))
    | inr e ↦ rw e (inv.ready_in)
  ]

  mem-requeued : (x : ℕ) → IsEligible current tasks x → x ∈ requeued s t
  mem-requeued x el = elim (Bool-cases (is_ready t.state)) [
    | inl r ↦ rw r (mem-append_left x ready_queue (current ∷ []) (inv.queued x el.1 el.0))
    | inr r ↦ rw r (inv.queued x el.1 el.0)
  ]

  none_ready :
      All (λ x. ¬ IsEligible current tasks x) (requeued s t)
      → (x : ℕ) → ¬ IsEligible current tasks x
  none_ready h x el =
      mem-All (λ y. ¬ IsEligible current tasks y) x (requeued s t) (mem-requeued x el) h el

  requeued-ready : is_ready t.state ≡ true → ready_queue ++ current ∷ [] ≡ requeued s t
  requeued-ready run = rw run refl

  -- After a switch to `id`, the ready tasks are in what is left of the queue.
  still_queued :
      (id : ℕ) (skipped rest : List ℕ)
      → requeued s t ≡ skipped ++ id ∷ rest
      → All (λ x. ¬ IsEligible current tasks x) skipped
      → (x : ℕ) → state_at tasks x ≡ some ready
      → x ≢ id
      → x ∈ rest
  still_queued id skipped rest e before x st ne = elim (ℕ_discrete x current) [
    | yes p ↦
        let run : t.state ≡ ready =
          some_inj (sym (state_at-get tasks current at) ∙ ap (state_at tasks) (sym p) ∙ st) in
        last_kept x id ready_queue skipped rest
          (ap (λ y. ready_queue ++ y ∷ []) p ∙ requeued-ready (ap is_ready run) ∙ e) ne
    | no q ↦
        mem-kept (IsEligible current tasks) x id skipped rest before (q, st) ne
          (rw e at (mem-requeued x (q, st)))
  ]

  module _ (m : Machine) where
    resume_found :
        (skipped : List ℕ) (id : ℕ) (rest : List ℕ)
        → requeued s t ≡ skipped ++ id ∷ rest
        → All (λ x. ¬ IsEligible current tasks x) skipped
        → IsEligible current tasks id
        → (u : Task) → get_elem? tasks id ≡ some u
        → pick current tasks (requeued s t) ≡ some (some id, rest)
        → Resumes m s t (resume_next m s)
    unfolding resume_next
    resume_found skipped id rest e before el u at_id picked =
        let out =
          switch_to id u
            (λ rsp ts.
              modify (modify (modify ts current count_switch) id count_switch) current
                (save_rsp rsp))
            m (record s { ready_queue = rest }) in
        let states : (x : ℕ) → state_at out.sched.tasks x ≡ state_at tasks x =
          state_at-counted tasks current id _ in
        let all_in : All (λ x. x < length tasks) (skipped ++ id ∷ rest) = rw e at queue_in in
        record {
          out = out;
          returns = rw (at, picked, at_id, resume_next);
          inv =
              Inv-same_states s (out.sched) inv (length-counted tasks current id _) states refl
                (state_at-lt tasks id (el.1))
                (All-after (λ x. x < length tasks) skipped id rest all_in)
                (still_queued id skipped rest e before);
          states = states;
          sleepers = refl;
          choice = inl (
            skipped,
            e,
            before,
            el,
            record {
              rsp = u.saved_rsp;
              top = u.kstack_top;
              stack = ap (Option.map (λ (v : Task). (v.saved_rsp, v.kstack_top))) at_id;
              cpu = refl;
              rsp0 = refl;
              kstack_top = refl;
            },
            saved_in_table tasks current id _ t at,
          );
        }

    pub resume_next-Resumes : Resumes m s t (resume_next m s)
    unfolding resume_next
    resume_next-Resumes =
        go (pick current tasks (requeued s t)) (pick-Picks current tasks (requeued s t) queue_in)
          refl
      where
        go :
            (r : Option (Option ℕ × List ℕ))
            → Picks current tasks (requeued s t) r
            → pick current tasks (requeued s t) ≡ r
            → Resumes m s t (resume_next m s)
        go _ (found skipped id rest e before el u at_id) picked =
            resume_found skipped id rest e before el u at_id picked
        go _ (nothing h) picked = record {
          out = record m { sched = record s { ready_queue = [] } };
          returns = rw (at, picked, resume_next);
          inv =
              Inv-same_states s (record s { ready_queue = [] }) inv refl (λ x. refl) refl
                (inv.current_in) tt (λ x st ne. absurd (none_ready h x (ne, st)));
          states = λ x. refl;
          sleepers = refl;
          choice = inr (refl, refl, none_ready h);
        }
