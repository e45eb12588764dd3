-- ===== src/Sched/Ops.antt =====
-- `init`, `spawn` and `sleep_until` of kernel/src/sched.rs.
use package.solaros.Prelude.{
  ℕ, zero, suc, ◌+◌, ◌-◌, ◌<◌, ◌≤◌, ◌^◌, ◌≡◌, ◌≢◌, refl, sym, ap, ◌∙◌, true, none, some, some_inj,
  List, [], ◌∷◌, ◌++◌, inl, inr, length, length-append, get_elem?, get_elem?-some, get_elem?-push,
  get_elem?-push_last, get_elem?-push_old, modify, length-modify, All-append, All-map, ◌∈◌,
  mem-append_left, mem-append_right, arith, leb, Bool-cases, ℕ_discrete,
}
use mathlib.Core.Option
use solaros.Sched.{Scheduler, Machine, set_state, max_tasks, init, spawn, sleep_until}
use solaros.Sched.Tasks.{Task, ready, sleeping}
use solaros.Sched.Inv.{Inv, state_at, state_at-set_self, state_at-set_ne, state_at-append}

-- `init` on the empty scheduler of the static.
pub init-Inv :
    (top : ℕ) (m : Machine)
    → m.sched ≡ record { tasks = []; ready_queue = []; sleepers = []; current = 0 }
    → Inv (init top m).sched × ((init top m).init_done ≡ true)
unfolding init
init-Inv top m e = (
  rw e (record {
    current_in = omega arith;
    ready_in = (omega arith, tt);
    sleepers_in = λ j x y f. absurd (none_some f);
    queued = λ x f ne. absurd (no_task x f ne);
    waiting = λ x y f. absurd (no_sleeper x y f);
  }),
  refl,
)
  where
    none_some : {A : Type 0} {a : A} → none ≡ some a → ⊥
    none_some f = cc

    only : List Task
    only =
        record { saved_rsp = 0; stack = none; state = ready; switches = 0; kstack_top = top } ∷ []

    no_task : (x : ℕ) → state_at only x ≡ some ready → x ≢ 0 → ⊥
    no_task zero f ne = ne refl
    no_task (suc x) f ne = none_some f

    no_sleeper : (x y : ℕ) → state_at only x ≡ some (sleeping y) → ⊥
    no_sleeper zero y f = cc
    no_sleeper (suc x) y f = none_some f

-- `sleep_until` before its wait: the current task sleeps until `target`, and has its entry among the
-- sleepers; no other task changes its state.
pub sleep_until-Inv :
    (target : ℕ) (m : Machine)
    → Inv m.sched
    → (m' : Machine) × (sleep_until target m ≡ some m')
      × Inv m'.sched
      × (m'.sched.current ≡ m.sched.current)
      × (state_at m'.sched.tasks m.sched.current ≡ some (sleeping target))
      × ((x : ℕ) → x ≢ m.sched.current → state_at m'.sched.tasks x ≡ state_at m.sched.tasks x)
unfolding sleep_until
sleep_until-Inv target m inv =
    let (t, at) = get_elem?-some tasks current inv.current_in in
    (
      record m {
        sched = record (m.sched) {
          tasks = modify tasks current (set_state (sleeping target));
          sleepers = sleepers ++ (current, target) ∷ [];
        };
      },
      rw (at, sleep_until),
      record {
        current_in = rw size inv.current_in;
        ready_in = rw size inv.ready_in;
        sleepers_in = λ j x y e. rw size (in_table j x y e);
        queued = λ x e ne. inv.queued x (sym (other x ne) ∙ e) ne;
        waiting = λ x y e. elim (ℕ_discrete x current) [
          | yes p ↦ (
            length sleepers,
            get_elem?-push_last sleepers (current, target) ∙ ap some (entry x y p e),
          )
          | no q ↦
              let (j, e') = inv.waiting x y (sym (other x q) ∙ e) in
              (j, get_elem?-push_old sleepers (current, target) j e')
        ];
      },
      refl,
      state_at-set_self tasks current (sleeping target) inv.current_in,
      other,
    )
  where
    open m.sched use {tasks, sleepers, current}

    size : length (modify tasks current (set_state (sleeping target))) ≡ length tasks
    size = length-modify tasks current (set_state (sleeping target))

    other :
        (x : ℕ)
        → x ≢ current
        → state_at (modify tasks current (set_state (sleeping target))) x ≡ state_at tasks x
    other x ne = state_at-set_ne tasks current x (sleeping target) (λ p. ne (sym p))

    entry :
        (x y : ℕ)
        → x ≡ current
        → state_at (modify tasks current (set_state (sleeping target))) x ≡ some (sleeping y)
        → ◌≡◌ {A = ℕ × ℕ} (current, target) (x, y)
    entry x y p e =
        let now : sleeping target ≡ sleeping y = some_inj (
          sym (state_at-set_self tasks current (sleeping target) inv.current_in)
          ∙ ap (state_at (modify tasks current (set_state (sleeping target)))) (sym p)
          ∙ e) in
        ground arith

    in_table :
        (j x y : ℕ)
        → get_elem? (sleepers ++ (current, target) ∷ []) j ≡ some (x, y)
        → x < length tasks
    in_table j x y e = elim (get_elem?-push sleepers (current, target) j e) [
      | inl old ↦ inv.sleepers_in j x y old
      | inr new ↦ rw (ap (λ (q : ℕ × ℕ). q.0) new) inv.current_in
    ]

-- A new ready task at the end of the table and of the queue.
Inv-push :
    (s : Scheduler) (task : Task)
    → task.state ≡ ready
    → Inv s
    → Inv (record s {
      tasks = s.tasks ++ task ∷ [];
      ready_queue = s.ready_queue ++ length s.tasks ∷ [];
    })
Inv-push s task fresh inv = record {
  current_in = omega (arith, grown, inv.current_in);
  ready_in =
      All-append (λ x. x < length (tasks ++ task ∷ [])) ready_queue (length tasks ∷ [])
        (All-map (λ x h. omega (arith, grown)) ready_queue inv.ready_in) (omega (arith, grown), tt);
  sleepers_in = λ j x y e. omega (arith, grown, inv.sleepers_in j x y e);
  queued = λ x e ne. elim (state_at-append tasks task x e) [
    | inl old ↦ mem-append_left x ready_queue (length tasks ∷ []) (inv.queued x old ne)
    | inr new ↦ mem-append_right x ready_queue (length tasks ∷ []) (inl (new.0))
  ];
  waiting = λ x y e. elim (state_at-append tasks task x e) [
    | inl old ↦ inv.waiting x y old
    | inr new ↦ absurd (awake y (sym fresh ∙ new.1))
  ];
}
  where
    open s use {tasks, ready_queue}

    grown : length (tasks ++ task ∷ []) ≡ length tasks + 1
    grown = omega (arith, length-append tasks (task ∷ []))

    awake : (y : ℕ) → ready ≡ sleeping y → ⊥
    awake y e = cc

-- `spawn` with a full table changes nothing and returns `u32::MAX`. Otherwise it returns the id of
-- a new ready task, which stands in the queue, and no other task changes its state.
pub spawn-Inv :
    (stack entry : ℕ) (m : Machine)
    → Inv m.sched
    → Inv (spawn stack entry m).1.sched
      × (length m.sched.tasks < max_tasks
          → ((spawn stack entry m).0 ≡ length m.sched.tasks)
            × (state_at (spawn stack entry m).1.sched.tasks (length m.sched.tasks) ≡ some ready)
            × (length m.sched.tasks ∈ (spawn stack entry m).1.sched.ready_queue))
      × (max_tasks ≤ length m.sched.tasks → spawn stack entry m ≡ (2 ^ 32 - 1, m))
unfolding spawn
spawn-Inv stack entry m inv = elim (Bool-cases (leb max_tasks (length m.sched.tasks))) [
  | inl full ↦ rw full (inv, (λ h. absurd (ground arith)), λ h. refl)
  | inr room ↦ rw room (
    Inv-push (m.sched) _ refl inv,
    (λ h. (
      refl,
      ap (Option.map (λ (t : Task). t.state)) (get_elem?-push_last m.sched.tasks _),
      mem-append_right _ _ (_ ∷ []) (inl refl),
    )),
    λ h. absurd (ground arith),
  )
]
