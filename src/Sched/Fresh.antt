-- ===== src/Sched/Fresh.antt =====
-- The stack that `spawn` of kernel/src/sched.rs prepares for a new task.
use package.solaros.Prelude.{
  ℕ, ◌+◌, ◌-◌, ◌*◌, ◌/◌, ◌%◌, ◌<◌, ◌≤◌, ◌^◌, ◌≡◌, ◌⊎◌, refl, sym, subst, ap, ◌∙◌, inr, inl, arith,
  length, some, get_elem?, get_elem?-push_last, bit_and, leb, Bool-cases,
}
use solaros.Prelude.Bits.{bit_and_mask}
use solaros.Sched.{Machine, spawn, max_tasks, stack_bytes}
use solaros.Sched.Tasks.{Task}
use solaros.Sched.Switch.{Cpu, store, alloc_stack, push_all, context_switch}
use solaros.Sched.Switch.Laws.{Popped, pop_all-Popped, push_all_other, store_other, store_self}

-- `x & !15` on a 64-bit address.
round_16 : (x : ℕ) → x < 2 ^ 64 → bit_and x (2 ^ 64 - 16) ≡ x / 16 * 16
round_16 x h =
    bit_and_mask 64 4 (2 ^ 64 - 16) x (x / 16) (x % 16) (omega arith) h (omega arith) (omega arith)

alloc_stack_zero :
    (base bytes a : ℕ) (c : Cpu)
    → base ≤ a
    → a < base + bytes
    → (alloc_stack base bytes c).memory a ≡ 0
unfolding alloc_stack
alloc_stack_zero base bytes a c lo hi = ground arith

module _ (stack entry sp : ℕ) (c : Cpu) (below : stack + 16 ≤ sp)
    (above : sp + 56 ≤ stack + stack_bytes) (low : 48 ≤ c.rsp)
    (apart : (c.rsp ≤ stack) ⊎ (stack + stack_bytes + 48 ≤ c.rsp)) where
  -- The machine that `spawn` leaves.
  abbrev prepared : Cpu
  prepared = store (sp + 48) entry (alloc_stack stack stack_bytes c)

  rsp-prepared : prepared.rsp ≡ c.rsp
  unfolding store alloc_stack
  rsp-prepared = refl

  untouched : (a : ℕ) → sp ≤ a → a < sp + 56 → (push_all prepared).memory a ≡ prepared.memory a
  untouched a lo hi =
      push_all_other prepared a (ground (arith, rsp-prepared)) (omega (arith, rsp-prepared))

  zero_word : (k : ℕ) → k < 48 → (push_all prepared).memory (sp + k) ≡ 0
  zero_word k h =
      untouched (sp + k) (omega arith) (omega arith)
      ∙ store_other (sp + 48) entry (sp + k) (alloc_stack stack stack_bytes c) (omega arith)
      ∙ alloc_stack_zero stack stack_bytes (sp + k) c (omega arith) (omega arith)

  entry_word : (push_all prepared).memory (sp + 48) ≡ entry
  entry_word =
      untouched (sp + 48) (omega arith) (omega arith)
      ∙ store_self (sp + 48) entry (alloc_stack stack stack_bytes c)

  enters : Popped (push_all prepared) sp (context_switch sp prepared).1
  unfolding context_switch
  enters = pop_all-Popped (push_all prepared) sp

-- The first switch to a new task, from a stack outside the new one, enters its entry function with
-- zeroed callee-saved registers, and with the stack pointer inside the new stack.
pub spawn_enters :
    (stack entry : ℕ) (m : Machine)
    → length m.sched.tasks < max_tasks
    → stack + stack_bytes < 2 ^ 64
    → 48 ≤ m.cpu.rsp
    → (m.cpu.rsp ≤ stack) ⊎ (stack + stack_bytes + 48 ≤ m.cpu.rsp)
    → let m' = (spawn stack entry m).1 in
      (t : Task) × (get_elem? m'.sched.tasks (length m.sched.tasks) ≡ some t)
      × ((context_switch t.saved_rsp m'.cpu).1.rip ≡ entry)
      × ((context_switch t.saved_rsp m'.cpu).1.rbp ≡ 0)
      × ((context_switch t.saved_rsp m'.cpu).1.rbx ≡ 0)
      × ((context_switch t.saved_rsp m'.cpu).1.r12 ≡ 0)
      × ((context_switch t.saved_rsp m'.cpu).1.r13 ≡ 0)
      × ((context_switch t.saved_rsp m'.cpu).1.r14 ≡ 0)
      × ((context_switch t.saved_rsp m'.cpu).1.r15 ≡ 0)
      × (stack < (context_switch t.saved_rsp m'.cpu).1.rsp)
      × ((context_switch t.saved_rsp m'.cpu).1.rsp ≤ t.kstack_top)
unfolding spawn
spawn_enters stack entry m room fits low apart =
    elim (Bool-cases (leb max_tasks (length m.sched.tasks))) [
      | inl full ↦ absurd (ground arith)
      | inr there ↦ rw there (
        _,
        get_elem?-push_last m.sched.tasks _,
        p.from_rip ∙ entry_word stack entry sp m.cpu below above low apart,
        p.from_rbp
            ∙ ap (push_all (prepared stack entry sp m.cpu below above low apart)).memory
                (omega arith)
            ∙ word 0 (omega arith),
        p.from_rbx ∙ word 8 (omega arith),
        p.from_r12 ∙ word 16 (omega arith),
        p.from_r13 ∙ word 24 (omega arith),
        p.from_r14 ∙ word 32 (omega arith),
        p.from_r15 ∙ word 40 (omega arith),
        subst (λ (r : ℕ). stack < r) (sym p.to_rsp) (omega (arith, below)),
        subst (λ (r : ℕ). r ≤ stack + stack_bytes) (sym p.to_rsp) above,
      )
    ]
  where
    sp : ℕ
    sp = bit_and (stack + stack_bytes) (2 ^ 64 - 16) - 7 * 8

    rounded : bit_and (stack + stack_bytes) (2 ^ 64 - 16) ≡ (stack + stack_bytes) / 16 * 16
    rounded = round_16 (stack + stack_bytes) fits

    below : stack + 16 ≤ sp
    below = omega (arith, rounded)

    above : sp + 56 ≤ stack + stack_bytes
    above = omega (arith, rounded)

    p :
        Popped
          (push_all (prepared stack entry sp m.cpu below above low apart))
          sp
          (context_switch sp (prepared stack entry sp m.cpu below above low apart)).1
    p = enters stack entry sp m.cpu below above low apart

    word :
        (k : ℕ)
        → k < 48
        → (push_all (prepared stack entry sp m.cpu below above low apart)).memory (sp + k) ≡ 0
    word = zero_word stack entry sp m.cpu below above low apart
