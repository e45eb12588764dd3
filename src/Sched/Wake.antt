-- ===== src/Sched/Wake.antt =====
-- The loop over the sleepers in `schedule` (kernel/src/sched.rs).
use package.solaros.Prelude.{
  ℕ, zero, suc, ◌+◌, ◌<◌, ◌≤◌, ◌≡◌, ◌≢◌, refl, sym, ap, ◌∙◌, true, false, Option, some, [], ◌∷◌,
  inl, inr, length, get_elem?, get_elem?-some, get_elem?-lt, get_elem?-none, modify, length-modify,
  swap_remove, length-swap_remove, get_elem?-swap_remove_below, get_elem?-swap_remove_kept,
  get_elem?-swap_remove_old, All-append, mem-append_left, mem-append_right, arith, leb,
  if◌then◌else◌, Bool-cases, Option-cases, ==_iff, ℕ_discrete, some_inj,
}
use mathlib.Core.Option
use solaros.Sched.{Scheduler, set_state, wake_one, wake}
use solaros.Sched.Tasks.{Task, TaskState, ready, sleeping, dead, is_sleeping_until}
use solaros.Sched.Inv.{Inv, state_at, state_at-get, state_at-set_self, state_at-set_ne}

is_sleeping_until_lem :
    (target : ℕ) (st : TaskState) → is_sleeping_until target st ≡ true → st ≡ sleeping target
is_sleeping_until_lem target ready e = cc
is_sleeping_until_lem target (sleeping t) e = ap sleeping ((==_iff t target).0 e)
is_sleeping_until_lem target dead e = cc

is_sleeping_until_self : (target : ℕ) → is_sleeping_until target (sleeping target) ≡ true
is_sleeping_until_self target = (==_iff target target).1 refl

-- The state of a task after a pass at tick `now`: a sleeper that is due is ready.
abbrev pub woken : ℕ → TaskState → TaskState
woken now ready = ready
woken now (sleeping t) = if leb t now then ready else sleeping t
woken now dead = dead

woken_due : (now target : ℕ) → leb target now ≡ true → woken now (sleeping target) ≡ ready
woken_due now target e = rw e

-- An entry that is due is removed, and its task made ready if it still sleeps for that entry.
module _ (s : Scheduler) (inv : Inv s) (i id target : ℕ) (t : Task)
    (entry : get_elem? s.sleepers i ≡ some (id, target)) (at : get_elem? s.tasks id ≡ some t) where
  open s use {tasks, ready_queue, sleepers, current}

  in_list : i < length sleepers
  in_list = get_elem?-lt sleepers i entry

  in_table : id < length tasks
  in_table = inv.sleepers_in i id target entry

  sleepers_left :
      (n : ℕ)
      → n ≡ length tasks
      → (j x y : ℕ) → get_elem? (swap_remove sleepers i) j ≡ some (x, y)
      → x < n
  sleepers_left n same j x y e =
      let (k, e') = get_elem?-swap_remove_old sleepers i in_list j e in
      rw same (inv.sleepers_in k x y e')

  entry_eq : (j x y : ℕ) → get_elem? sleepers j ≡ some (x, y) → j ≡ i → (id ≡ x) × (target ≡ y)
  entry_eq j x y e same =
      let both : ◌≡◌ {A = ℕ × ℕ} (id, target) (x, y) =
        some_inj (sym entry ∙ ap (get_elem? sleepers) (sym same) ∙ e) in
      (ap (λ (p : ℕ × ℕ). p.0) both, ap (λ (p : ℕ × ℕ). p.1) both)

  Inv-match : is_sleeping_until target t.state ≡ true → Inv (wake_one i id target t s)
  Inv-match hit = rw hit (record {
    current_in = rw (length-modify tasks id (set_state ready)) (inv.current_in);
    ready_in =
        rw (length-modify tasks id (set_state ready))
          (All-append (λ x. x < length tasks) ready_queue (id ∷ []) (inv.ready_in) (in_table, tt));
    sleepers_in = sleepers_left _ (length-modify tasks id (set_state ready));
    queued = λ x e ne. elim (ℕ_discrete id x) [
      | yes p ↦ mem-append_right x ready_queue (id ∷ []) (inl (sym p))
      | no q ↦
          mem-append_left x ready_queue (id ∷ [])
            (inv.queued x (sym (state_at-set_ne tasks id x ready q) ∙ e) ne)
    ];
    waiting = λ x y e. elim (ℕ_discrete id x) [
      | yes p ↦ absurd (clash x y p e)
      | no q ↦
          let (j, e') = inv.waiting x y (sym (state_at-set_ne tasks id x ready q) ∙ e) in
          get_elem?-swap_remove_kept sleepers i in_list j (other j x y q e') e'
    ];
  })
    where
      clash :
          (x y : ℕ)
          → id ≡ x
          → state_at (modify tasks id (set_state ready)) x ≡ some (sleeping y)
          → ⊥
      clash x y p e = cc (state_at-set_self tasks id ready in_table)

      other : (j x y : ℕ) → id ≢ x → get_elem? sleepers j ≡ some (x, y) → j ≢ i
      other j x y q e same = q (entry_eq j x y e same).0

  Inv-stale : is_sleeping_until target t.state ≡ false → Inv (wake_one i id target t s)
  Inv-stale miss = rw miss (record {
    current_in = inv.current_in;
    ready_in = inv.ready_in;
    sleepers_in = sleepers_left _ refl;
    queued = inv.queued;
    waiting = λ x y e.
        let (j, e') = inv.waiting x y e in
        get_elem?-swap_remove_kept sleepers i in_list j (other j x y e e') e';
  })
    where
      other :
          (j x y : ℕ)
          → state_at tasks x ≡ some (sleeping y)
          → get_elem? sleepers j ≡ some (x, y)
          → j ≢ i
      other j x y st e same =
          let (p, q) = entry_eq j x y e same in
          let slept : t.state ≡ sleeping target = some_inj (
            sym (state_at-get tasks id at)
            ∙ ap (state_at tasks) p
            ∙ st
            ∙ ap some (ap sleeping (sym q))) in
          cc (is_sleeping_until_self target)

  Inv-wake_one : Inv (wake_one i id target t s)
  Inv-wake_one = elim (Bool-cases (is_sleeping_until target t.state)) [
    | inl hit ↦ Inv-match hit
    | inr miss ↦ Inv-stale miss
  ]

  -- Seen through `woken`, no task changes its state.
  wake_one_states :
      (now x : ℕ)
      → leb target now ≡ true
      → Option.map (woken now) (state_at (wake_one i id target t s).tasks x)
        ≡ Option.map (woken now) (state_at tasks x)
  wake_one_states now x due = elim (Bool-cases (is_sleeping_until target t.state)) [
    | inr miss ↦ rw miss
    | inl hit ↦ rw hit (elim (ℕ_discrete id x) [
      | no q ↦ ap (Option.map (woken now)) (state_at-set_ne tasks id x ready q)
      | yes p ↦ rw (← p) (same hit)
    ])
  ]
    where
      same :
          is_sleeping_until target t.state ≡ true
          → Option.map (woken now) (state_at (modify tasks id (set_state ready)) id)
            ≡ Option.map (woken now) (state_at tasks id)
      same hit =
          ap (Option.map (woken now)) (state_at-set_self tasks id ready in_table)
          ∙ ap some (
              sym (woken_due now target due)
              ∙ ap (woken now) (sym (is_sleeping_until_lem target t.state hit)))
          ∙ ap (Option.map (woken now)) (sym (state_at-get tasks id at))

  wake_one_fields :
      ((wake_one i id target t s).current ≡ current)
      × (length ((wake_one i id target t s).tasks) ≡ length tasks)
      × ((wake_one i id target t s).sleepers ≡ swap_remove sleepers i)
  wake_one_fields = elim (Bool-cases (is_sleeping_until target t.state)) [
    | inr miss ↦ rw miss (refl, refl, refl)
    | inl hit ↦ rw hit (refl, length-modify tasks id (set_state ready), refl)
  ]

-- What the loop leaves, started at `s`.
pub record Wakes (now : ℕ) (s : Scheduler) (r : Option Scheduler) : Type 0 where
  pub out : Scheduler
  pub returns : r ≡ some out
  pub inv : Inv out
  pub current : out.current ≡ s.current
  pub size : length out.tasks ≡ length s.tasks
  pub pending : (j x y : ℕ) → get_elem? out.sleepers j ≡ some (x, y) → now < y
  pub states :
      (x : ℕ)
      → Option.map (woken now) (state_at out.tasks x) ≡ Option.map (woken now) (state_at s.tasks x)

below_next :
    (now i : ℕ) (s : Scheduler)
    → ((j x y : ℕ) → j < i → get_elem? s.sleepers j ≡ some (x, y) → now < y)
    → (id target : ℕ) → get_elem? s.sleepers i ≡ some (id, target)
    → leb target now ≡ false
    → (j x y : ℕ) → j < i + 1
    → get_elem? s.sleepers j ≡ some (x, y)
    → now < y
below_next now i s below id target entry later j x y h e = elim (ℕ_discrete j i) [
  | no q ↦ below j x y (omega arith) e
  | yes p ↦
      let both : ◌≡◌ {A = ℕ × ℕ} (id, target) (x, y) =
        some_inj (sym entry ∙ ap (get_elem? s.sleepers) (sym p) ∙ e) in
      let target_is : target ≡ y = ap (λ (q : ℕ × ℕ). q.1) both in ground arith
]

module _ (now : ℕ) (s : Scheduler) (inv : Inv s) (i id target : ℕ) (t : Task)
    (entry : get_elem? s.sleepers i ≡ some (id, target)) (at : get_elem? s.tasks id ≡ some t) where
  abbrev after : Scheduler
  after = wake_one i id target t s

  here : i < length s.sleepers
  here = get_elem?-lt s.sleepers i entry

  below_left :
      ((j x y : ℕ) → j < i → get_elem? s.sleepers j ≡ some (x, y) → now < y)
      → (j x y : ℕ) → j < i
      → get_elem? after.sleepers j ≡ some (x, y)
      → now < y
  below_left below j x y h e =
      let list = (wake_one_fields s inv i id target t entry at).2 in
      below j x y h (
        sym (get_elem?-swap_remove_below s.sleepers i here j h)
        ∙ ap (λ l. get_elem? l j) (sym list)
        ∙ e)

  shorter : (fuel : ℕ) → length s.sleepers ≤ suc fuel + i → length after.sleepers ≤ fuel + i
  shorter fuel f = omega (
    arith,
    ap length ((wake_one_fields s inv i id target t entry at).2),
    length-swap_remove s.sleepers i here,
  )

  Wakes-after : leb target now ≡ true → {r : Option Scheduler} → Wakes now after r → Wakes now s r
  Wakes-after due w =
      let fields = wake_one_fields s inv i id target t entry at in
      record {
        out = w.out;
        returns = w.returns;
        inv = w.inv;
        current = w.current ∙ fields.0;
        size = w.size ∙ fields.1;
        pending = w.pending;
        states = λ x. w.states x ∙ wake_one_states s inv i id target t entry at now x due;
      }

pub wake-Wakes :
    (now fuel i : ℕ) (s : Scheduler)
    → Inv s
    → ((j x y : ℕ) → j < i → get_elem? s.sleepers j ≡ some (x, y) → now < y)
    → length s.sleepers ≤ fuel + i
    → Wakes now s (wake fuel now i s)
unfolding wake
wake-Wakes now zero i s inv below f = record {
  out = s;
  returns = refl;
  inv = inv;
  current = refl;
  size = refl;
  pending = λ j x y e. below j x y (omega (arith, get_elem?-lt s.sleepers j e)) e;
  states = λ x. refl;
}
wake-Wakes now (suc fuel) i s inv below f = elim (Option-cases (get_elem? s.sleepers i)) [
  | inl end ↦ record {
    out = s;
    returns = rw (end, wake);
    inv = inv;
    current = refl;
    size = refl;
    pending = λ j x y e.
        below j x y (omega (arith, get_elem?-lt s.sleepers j e, get_elem?-none s.sleepers i end)) e;
    states = λ x. refl;
  }
  | inr ((id, target), entry) ↦ elim (Bool-cases (leb target now)) [
    | inr later ↦
        rw (entry, later, wake)
          (wake-Wakes now fuel (i + 1) s inv (below_next now i s below id target entry later)
            (omega arith))
    | inl due ↦
        let (t, at) = get_elem?-some s.tasks id (inv.sleepers_in i id target entry) in
        rw (entry, due, at, wake)
          (Wakes-after now s inv i id target t entry at due (
            wake-Wakes now fuel i (wake_one i id target t s)
              (Inv-wake_one s inv i id target t entry at)
              (below_left now s inv i id target t entry at below)
              (shorter now s inv i id target t entry at fuel f)))
  ]
]
