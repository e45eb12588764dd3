-- ===== src/Sched/Switch/Laws.antt =====
-- What `context_switch` of kernel/src/sched.rs saves and restores.
use package.solaros.Prelude.{ℕ, ◌+◌, ◌-◌, ◌<◌, ◌≤◌, ◌≡◌, ◌≢◌, ◌⊎◌, refl, ap, ◌∙◌, inr, arith}
use solaros.Sched.Switch.{Cpu, store, push_all, pop_all, context_switch}

-- The words that the six pushes leave below the stack pointer, from `rbp` up to `r15`.
record Saved (c : Cpu) (memory : ℕ → ℕ) : Type 0 where
  at_rbp : memory (c.rsp - 48) ≡ c.rbp
  at_rbx : memory (c.rsp - 40) ≡ c.rbx
  at_r12 : memory (c.rsp - 32) ≡ c.r12
  at_r13 : memory (c.rsp - 24) ≡ c.r13
  at_r14 : memory (c.rsp - 16) ≡ c.r14
  at_r15 : memory (c.rsp - 8) ≡ c.r15

pub store_other :
    (addr value a : ℕ) (c : Cpu) → a ≢ addr → (store addr value c).memory a ≡ c.memory a
unfolding store
store_other addr value a c ne = ground arith

pub store_self : (addr value : ℕ) (c : Cpu) → (store addr value c).memory addr ≡ value
unfolding store
store_self addr value c = ground arith

push_all-Saved : (c : Cpu) → 48 ≤ c.rsp → Saved c (push_all c).memory
unfolding push_all store
push_all-Saved c h = record {
  at_rbp = ground arith;
  at_rbx = ground arith;
  at_r12 = ground arith;
  at_r13 = ground arith;
  at_r14 = ground arith;
  at_r15 = ground arith;
}

-- No other word changes.
pub push_all_other :
    (c : Cpu) (a : ℕ)
    → (a + 48 < c.rsp) ⊎ (c.rsp ≤ a)
    → 48 ≤ c.rsp
    → (push_all c).memory a ≡ c.memory a
unfolding push_all store
push_all_other c a far h = ground arith

-- The words of a switched-out task stay put: those that it saved, and its return address.
abbrev pub KeepsFrame : Cpu → Cpu → Type 0
KeepsFrame c later =
    (a : ℕ) → c.rsp ≤ a + 48 → a < c.rsp + 8 → later.memory a ≡ (push_all c).memory a

-- The frame stays through the pushes of the task that switches back, if its stack lies elsewhere.
kept :
    (c later : Cpu) (a : ℕ)
    → 48 ≤ c.rsp
    → 48 ≤ later.rsp
    → KeepsFrame c later
    → (c.rsp + 56 ≤ later.rsp) ⊎ (later.rsp + 48 ≤ c.rsp)
    → c.rsp ≤ a + 48
    → a < c.rsp + 8
    → (push_all later).memory a ≡ (push_all c).memory a
kept c later a h h' keeps far lo hi = push_all_other later a (ground arith) h' ∙ keeps a lo hi

rsp-push_all : (c : Cpu) → (push_all c).rsp ≡ c.rsp - 48
unfolding push_all store
rsp-push_all c = omega arith

-- The words that the pops and the `ret` read, from the stack pointer up.
pub record Popped (p : Cpu) (sp : ℕ) (out : Cpu) : Type 0 where
  pub from_rbp : out.rbp ≡ p.memory sp
  pub from_rbx : out.rbx ≡ p.memory (sp + 8)
  pub from_r12 : out.r12 ≡ p.memory (sp + 16)
  pub from_r13 : out.r13 ≡ p.memory (sp + 24)
  pub from_r14 : out.r14 ≡ p.memory (sp + 32)
  pub from_r15 : out.r15 ≡ p.memory (sp + 40)
  pub from_rip : out.rip ≡ p.memory (sp + 48)
  pub to_rsp : out.rsp ≡ sp + 56

pub pop_all-Popped : (p : Cpu) (sp : ℕ) → Popped p sp (pop_all (record p { rsp = sp }))
unfolding pop_all
pop_all-Popped p sp = record {
  from_rbp = refl;
  from_rbx = refl;
  from_r12 = ap p.memory (omega arith);
  from_r13 = ap p.memory (omega arith);
  from_r14 = ap p.memory (omega arith);
  from_r15 = ap p.memory (omega arith);
  from_rip = ap p.memory (omega arith);
  to_rsp = omega arith;
}

-- A task that calls `context_switch` at `c`, and to whose saved stack pointer the machine `later`
-- switches back from a stack elsewhere, returns to its caller with its callee-saved registers as
-- they were, and with the return address popped, if nothing wrote to its frame meanwhile.
pub context_switch_returns :
    (next : ℕ) (c later : Cpu)
    → 48 ≤ c.rsp
    → 48 ≤ later.rsp
    → KeepsFrame c later
    → (c.rsp + 56 ≤ later.rsp) ⊎ (later.rsp + 48 ≤ c.rsp)
    → let back = (context_switch (context_switch next c).0 later).1 in
      (back.rip ≡ c.memory c.rsp)
      × (back.rsp ≡ c.rsp + 8)
      × (back.rbp ≡ c.rbp)
      × (back.rbx ≡ c.rbx)
      × (back.r12 ≡ c.r12)
      × (back.r13 ≡ c.r13)
      × (back.r14 ≡ c.r14)
      × (back.r15 ≡ c.r15)
unfolding context_switch
context_switch_returns next c later h h' keeps far =
    let s = push_all-Saved c h in
    let saved = push_all later in
    let sp : (push_all c).rsp ≡ c.rsp - 48 = rsp-push_all c in
    let p = pop_all-Popped saved (push_all c).rsp in
    let word : (k a : ℕ)
        → a ≡ c.rsp - 48 + k
        → k < 56
        → saved.memory ((push_all c).rsp + k) ≡ (push_all c).memory a =
      λ k a e l.
        ap saved.memory (omega arith) ∙ kept c later a h h' keeps far (omega arith) (omega arith) in
    (
      p.from_rip
          ∙ word 48 c.rsp (omega arith) (omega arith)
          ∙ push_all_other c c.rsp (inr (omega arith)) h,
      p.to_rsp ∙ omega arith,
      p.from_rbp
          ∙ ap saved.memory (omega arith)
          ∙ word 0 (c.rsp - 48) (omega arith) (omega arith)
          ∙ s.at_rbp,
      p.from_rbx ∙ word 8 (c.rsp - 40) (omega arith) (omega arith) ∙ s.at_rbx,
      p.from_r12 ∙ word 16 (c.rsp - 32) (omega arith) (omega arith) ∙ s.at_r12,
      p.from_r13 ∙ word 24 (c.rsp - 24) (omega arith) (omega arith) ∙ s.at_r13,
      p.from_r14 ∙ word 32 (c.rsp - 16) (omega arith) (omega arith) ∙ s.at_r14,
      p.from_r15 ∙ word 40 (c.rsp - 8) (omega arith) (omega arith) ∙ s.at_r15,
    )
