-- ===== src/Sched/Running.antt =====
-- Which task has the processor after a switch, and what waking leaves of the stacks and the queue
-- (kernel/src/sched.rs).
use package.solaros.Prelude.{
  ℕ, zero, suc, ◌+◌, ◌≡◌, refl, sym, ap, ◌∙◌, subst, true, Option, none, some, some_inj, List, [],
  ◌∷◌, ◌++◌, append_assoc, append-nil, inl, inr, get_elem?, modify, Bool-cases, leb,
}
use mathlib.Core.Option
use solaros.Sched.{Scheduler, Machine, set_state, wake_one, wake}
use solaros.Sched.Switch.{context_switch}
use solaros.Sched.Tasks.{Task, ready, is_sleeping_until}

-- The saved stack pointer of a task and the top of its kernel stack, if there is a task of that id.
abbrev pub stack_at : List Task → ℕ → Option (ℕ × ℕ)
stack_at tasks id = Option.map (λ (t : Task). (t.saved_rsp, t.kstack_top)) (get_elem? tasks id)

-- The current task of `out` has the processor: with its stack in `tasks`, `context_switch` has gone to it from
-- the registers of `m`, and the kernel enters on its stack.
pub record Switched (tasks : List Task) (m out : Machine) : Type 0 where
  pub rsp : ℕ
  pub top : ℕ
  pub stack : stack_at tasks out.sched.current ≡ some (rsp, top)
  pub cpu : out.cpu ≡ (context_switch rsp m.cpu).1
  pub rsp0 : out.rsp0 ≡ top
  pub kstack_top : out.kstack_top ≡ top

-- The task `old`, which was running, has the stack pointer at which it can be resumed.
abbrev pub Saved : ℕ → Machine → Machine → ℕ → Type 0
Saved old m out rsp =
    Option.map (λ (t : Task). t.saved_rsp) (get_elem? out.sched.tasks old)
    ≡ some (context_switch rsp m.cpu).0

pub stack_at-modify :
    (tasks : List Task) (id j : ℕ) (f : Task → Task)
    → ((t : Task) → (f t).saved_rsp ≡ t.saved_rsp)
    → ((t : Task) → (f t).kstack_top ≡ t.kstack_top)
    → stack_at (modify tasks id f) j ≡ stack_at tasks j
stack_at-modify [] id j f h g = refl
stack_at-modify (t ∷ tasks) zero zero f h g = cc (h t, g t)
stack_at-modify (t ∷ tasks) zero (suc j) f h g = refl
stack_at-modify (t ∷ tasks) (suc id) zero f h g = refl
stack_at-modify (t ∷ tasks) (suc id) (suc j) f h g = stack_at-modify tasks id j f h g

-- Waking keeps the stacks, and puts ids behind the ready queue.
pub record Kept (s out : Scheduler) : Type 0 where
  pub stacks : (x : ℕ) → stack_at out.tasks x ≡ stack_at s.tasks x
  pub woken : List ℕ
  pub queue : out.ready_queue ≡ s.ready_queue ++ woken

Kept-same : {s out : Scheduler} → some s ≡ some out → Kept s out
Kept-same {s} e =
    subst (Kept s) (some_inj e)
      (record { stacks = λ x. refl; woken = []; queue = sym (append-nil s.ready_queue) })

Kept-trans : (a b c : Scheduler) → Kept a b → Kept b c → Kept a c
Kept-trans a b c f g = record {
  stacks = λ x. g.stacks x ∙ f.stacks x;
  woken = f.woken ++ g.woken;
  queue = g.queue ∙ ap (λ q. q ++ g.woken) f.queue ∙ append_assoc a.ready_queue f.woken g.woken;
}

wake_one-Kept : (i id target : ℕ) (t : Task) (s : Scheduler) → Kept s (wake_one i id target t s)
wake_one-Kept i id target t s = elim (Bool-cases (is_sleeping_until target t.state)) [
  | inl e ↦ rw e (record {
    stacks = λ x. stack_at-modify s.tasks id x (set_state ready) (λ t. refl) (λ t. refl);
    woken = id ∷ [];
    queue = refl;
  })
  | inr e ↦ rw e (record { stacks = λ x. refl; woken = []; queue = sym (append-nil s.ready_queue) })
]

pub wake-Kept :
    (fuel now i : ℕ) (s : Scheduler) {out : Scheduler} → wake fuel now i s ≡ some out → Kept s out
unfolding wake
wake-Kept zero now i s e = Kept-same e
wake-Kept (suc fuel) now i s {out} e =
    by_entry (get_elem? s.sleepers i) refl (λ j s' h. wake-Kept fuel now j s' h)
  where
    by_task :
        (id target : ℕ) (o : Option Task)
        → get_elem? s.tasks id ≡ o
        → get_elem? s.sleepers i ≡ some (id, target)
        → leb target now ≡ true
        → ((j : ℕ) (s' : Scheduler) → wake fuel now j s' ≡ some out → Kept s' out)
        → Kept s out
    by_task id target none at entry due rest = cc
    by_task id target (some t) at entry due rest =
        let next : wake (suc fuel) now i s ≡ wake fuel now i (wake_one i id target t s) =
          rw (entry, wake) (rw due (rw at)) in
        Kept-trans s (wake_one i id target t s) out (wake_one-Kept i id target t s)
          (rest i (wake_one i id target t s) (sym next ∙ e))

    by_entry :
        (o : Option (ℕ × ℕ))
        → get_elem? s.sleepers i ≡ o
        → ((j : ℕ) (s' : Scheduler) → wake fuel now j s' ≡ some out → Kept s' out)
        → Kept s out
    by_entry none entry rest =
        let done : wake (suc fuel) now i s ≡ some s = rw (entry, wake) in Kept-same (sym done ∙ e)
    by_entry (some (id, target)) entry rest = elim (Bool-cases (leb target now)) [
      | inl due ↦ by_task id target (get_elem? s.tasks id) refl entry due rest
      | inr later ↦
          let next : wake (suc fuel) now i s ≡ wake fuel now (i + 1) s =
            rw (entry, wake) (rw later) in
          rest (i + 1) s (sym next ∙ e)
    ]
