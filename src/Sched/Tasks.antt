-- ===== src/Sched/Tasks.antt =====
-- `TaskState` and `Task` of kernel/src/sched.rs. The name serves messages only and is left out.
use package.solaros.Prelude.{ℕ, Option, Bool, true, false, ◌==◌}

pub data TaskState : Type 0 where
  ready : TaskState
  sleeping : ℕ → TaskState
  dead : TaskState

pub record Task : Type 0 where
  pub saved_rsp : ℕ
  -- the address of the task's own stack
  pub stack : Option ℕ
  pub state : TaskState
  pub switches : ℕ
  pub kstack_top : ℕ

-- `state == TaskState::Ready`
abbrev pub is_ready : TaskState → Bool
is_ready ready = true
is_ready (sleeping t) = false
is_ready dead = false

-- `state == TaskState::Sleeping(target)`
abbrev pub is_sleeping_until : ℕ → TaskState → Bool
is_sleeping_until target ready = false
is_sleeping_until target (sleeping t) = t == target
is_sleeping_until target dead = false
