-- ===== src/Sched/Switch.antt =====
-- The assembly routine `context_switch` of kernel/src/sched.rs over the callee-saved registers and
-- a memory of 8-byte words, each named by its (aligned) address.
pub mod Laws
use package.solaros.Prelude.{ℕ, ◌+◌, ◌-◌, ◌&&◌, if◌then◌else◌, ltb, leb, ◌==◌}

pub record Cpu : Type 0 where
  pub rsp : ℕ
  pub rip : ℕ
  pub rbp : ℕ
  pub rbx : ℕ
  pub r12 : ℕ
  pub r13 : ℕ
  pub r14 : ℕ
  pub r15 : ℕ
  pub memory : ℕ → ℕ

-- A store of one word.
unfoldable pub store : ℕ → ℕ → Cpu → Cpu
store addr value c = record c { memory = λ a. if a == addr then value else c.memory a }

-- `vec![0u8; bytes]` at `base`.
unfoldable pub alloc_stack : ℕ → ℕ → Cpu → Cpu
alloc_stack base bytes c = record c {
  memory = λ a. if leb base a && ltb a (base + bytes) then 0 else c.memory a;
}

push : ℕ → Cpu → Cpu
unfolding store
push value c = let top = c.rsp - 8 in record (store top value c) { rsp = top }

-- The word at the top of the stack, and the machine with it popped.
pop : Cpu → ℕ × Cpu
pop c = (c.memory c.rsp, record c { rsp = c.rsp + 8 })

-- The six pushes, from `push r15` to `push rbp`.
pub push_all : Cpu → Cpu
unfolding push
push_all c = push c.rbp (push c.rbx (push c.r12 (push c.r13 (push c.r14 (push c.r15 c)))))

-- The six pops, from `pop rbp` to `pop r15`, and the `ret`.
pub pop_all : Cpu → Cpu
unfolding pop
pop_all c0 =
    let (rbp', c1) = pop c0 in
    let (rbx', c2) = pop c1 in
    let (r12', c3) = pop c2 in
    let (r13', c4) = pop c3 in
    let (r14', c5) = pop c4 in
    let (r15', c6) = pop c5 in
    let (rip', c7) = pop c6 in
    record c7 { rip = rip'; rbp = rbp'; rbx = rbx'; r12 = r12'; r13 = r13'; r14 = r14'; r15 = r15' }

-- `context_switch(current_rsp_out, next_rsp)`: the stack pointer that it stores through its first
-- argument, and the machine after its `ret`.
unfoldable pub context_switch : ℕ → Cpu → ℕ × Cpu
unfolding push_all pop_all
context_switch next_rsp c =
    let saved = push_all c in (saved.rsp, pop_all (record saved { rsp = next_rsp }))
