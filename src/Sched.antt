-- ===== src/Sched.antt =====
-- The round-robin scheduler of kernel/src/sched.rs: the task table, the ready queue, the sleepers,
-- and the operations on them. A read of `tasks` out of range panics: `none`. Register contents and
-- the stacks are in the `Cpu` of the child module Switch.
pub mod Switch
pub mod Tasks
pub mod Wake
pub mod Pick
pub mod Inv
pub mod Running
pub mod Resume
pub mod Schedule
pub mod Ops
pub mod Terminate
pub mod Reach
pub mod Fresh
mod Tests
use package.solaros.Prelude.{
  ℕ, zero, suc, ◌+◌, ◌-◌, ◌*◌, ◌<◌, ◌^◌, bit_and, Bool, true, false, ◌||◌, not, Option, none, some,
  List, [], ◌∷◌, ◌++◌, length, get_elem?, modify, swap_remove, if◌then◌else◌, leb, ◌==◌, add_u64,
}
use Tasks.{TaskState, ready, sleeping, dead, Task, is_ready, is_sleeping_until}
use Switch.{Cpu, context_switch, alloc_stack, store}

abbrev pub stack_bytes : ℕ
stack_bytes = 128 * 1024

abbrev pub max_tasks : ℕ
max_tasks = 24

-- `SchedulerInner`.
pub record Scheduler : Type 0 where
  pub tasks : List Task
  pub ready_queue : List ℕ
  pub sleepers : List (ℕ × ℕ)
  pub current : ℕ

-- The scheduler with the statics that it writes, the registers and the memory.
pub record Machine : Type 0 where
  pub sched : Scheduler
  pub init_done : Bool
  pub task_switches : ℕ
  -- TSS.rsp0 and SYS_KSTACK_TOP
  pub rsp0 : ℕ
  pub kstack_top : ℕ
  pub cpu : Cpu

abbrev pub set_state : TaskState → Task → Task
set_state st t = record t { state = st }

abbrev pub count_switch : Task → Task
count_switch t = record t { switches = add_u64 t.switches 1 }

abbrev pub save_rsp : ℕ → Task → Task
save_rsp rsp t = record t { saved_rsp = rsp }

-- `init`; the boot stack's top is gdt.rs's.
pub init : ℕ → Machine → Machine
init boot_stack_top m = record m {
  sched = record (m.sched) {
    tasks =
        m.sched.tasks
        ++ record {
          saved_rsp = 0;
          stack = none;
          state = ready;
          switches = 0;
          kstack_top = boot_stack_top;
        }
          ∷ [];
    ready_queue = m.sched.ready_queue ++ 0 ∷ [];
  };
  init_done = true;
}

-- `spawn`, with the address at which the allocator puts the stack. The result is the task's id.
pub spawn : ℕ → ℕ → Machine → ℕ × Machine
unfolding alloc_stack store
spawn stack entry m =
    let s = m.sched in
    let id = length s.tasks in
    let top = stack + stack_bytes in
    let sp = bit_and top (2 ^ 64 - 16) - 7 * 8 in
    let task : Task = record {
      saved_rsp = sp;
      stack = some stack;
      state = ready;
      switches = 0;
      kstack_top = top;
    } in
    if leb max_tasks id then (2 ^ 32 - 1, m) else (
      id,
      record m {
        sched = record s { tasks = s.tasks ++ task ∷ []; ready_queue = s.ready_queue ++ id ∷ [] };
        cpu = store (sp + 6 * 8) entry (alloc_stack stack stack_bytes m.cpu);
      },
    )

-- One round of the loop over the sleepers, at an entry that is due.
abbrev pub wake_one : ℕ → ℕ → ℕ → Task → Scheduler → Scheduler
wake_one i id target t s =
    if is_sleeping_until target t.state
    then record s {
      sleepers = swap_remove s.sleepers i;
      tasks = modify s.tasks id (set_state ready);
      ready_queue = s.ready_queue ++ id ∷ [];
    }
    else record s { sleepers = swap_remove s.sleepers i }

-- `while i < s.sleepers.len()`: each round shortens the list or moves `i` on.
pub wake : ℕ → ℕ → ℕ → Scheduler → Option Scheduler
wake zero now i s = some s
wake (suc fuel) now i s = elim (get_elem? s.sleepers i) [
  | none ↦ some s
  | some (id, target) ↦ elim (leb target now) [
    | true ↦ elim (get_elem? s.tasks id) [
      | none ↦ none
      | some t ↦ wake fuel now i (wake_one i id target t s)
    ]
    | false ↦ wake fuel now (i + 1) s
  ]
]

-- `while let Some(id) = s.ready.pop_front()`: the first id that is not `cur` and is ready, and the
-- queue that is left.
pub pick : ℕ → List Task → List ℕ → Option (Option ℕ × List ℕ)
pick cur tasks [] = some (none, [])
pick cur tasks (id ∷ q) = elim (id == cur) [
  | true ↦ pick cur tasks q
  | false ↦ elim (get_elem? tasks id) [
    | none ↦ none
    | some t ↦ elim (is_ready t.state) [ true ↦ some (some id, q) | false ↦ pick cur tasks q ]
  ]
]

-- The bookkeeping for a switch to `id`, and the switch itself; `old` says what becomes of the
-- stack pointer that `context_switch` stores.
abbrev switch_to : ℕ → Task → (ℕ → List Task → List Task) → Machine → Scheduler → Machine
switch_to id t old m s =
    let (saved, cpu') = context_switch t.saved_rsp m.cpu in
    record m {
      sched = record s { current = id; tasks = old saved s.tasks };
      task_switches = add_u64 m.task_switches 1;
      rsp0 = t.kstack_top;
      kstack_top = t.kstack_top;
      cpu = cpu';
    }

-- What `schedule` does once the sleepers are woken. `next_rsp` is read from the table before the
-- old task's slot is written, and `id` is never `cur`.
pub resume_next : Machine → Scheduler → Option Machine
unfolding pick
resume_next m s = elim (get_elem? s.tasks s.current) [
  | none ↦ none
  | some now_running ↦
      let cur = s.current in
      let queue = if is_ready now_running.state then s.ready_queue ++ cur ∷ [] else s.ready_queue in
      elim (pick cur s.tasks queue) [
        | none ↦ none
        | some (none, rest) ↦ some (record m { sched = record s { ready_queue = rest } })
        | some (some id, rest) ↦ elim (get_elem? s.tasks id) [
          | none ↦ none
          | some t ↦ some (
              switch_to id t
                (λ rsp tasks.
                  modify (modify (modify tasks cur count_switch) id count_switch) cur
                    (save_rsp rsp))
                m (record s { ready_queue = rest }))
        ]
      ]
]

-- `schedule`, at the tick count `now`.
pub schedule : ℕ → Machine → Option Machine
unfolding wake resume_next
schedule now m = elim (m.init_done) [
  | false ↦ some m
  | true ↦ elim (wake (length m.sched.sleepers) now 0 m.sched) [
    | none ↦ none
    | some s ↦ resume_next m s
  ]
]

-- What `sleep_until` does before it waits.
pub sleep_until : ℕ → Machine → Option Machine
sleep_until target m = elim (get_elem? m.sched.tasks m.sched.current) [
  | none ↦ none
  | some t ↦ some (record m {
    sched = record (m.sched) {
      tasks = modify m.sched.tasks m.sched.current (set_state (sleeping target));
      sleepers = m.sched.sleepers ++ (m.sched.current, target) ∷ [];
    };
  })
]

-- How `terminate_current` ends: in the next task, or halted for good with interrupts off.
pub data Exit : Type 0 where
  resumed : Machine → Exit
  halted : Machine → Exit

pub terminate_current : Machine → Option Exit
unfolding pick
terminate_current m =
    let s = m.sched in
    let cur = s.current in
    let tasks = modify s.tasks cur (set_state dead) in
    elim (get_elem? s.tasks cur) [
      | none ↦ none
      | some _ ↦ elim (pick cur tasks s.ready_queue) [
        | none ↦ none
        | some (none, rest) ↦
            some (halted (record m { sched = record s { tasks = tasks; ready_queue = rest } }))
        | some (some id, rest) ↦ elim (get_elem? tasks id) [
          | none ↦ none
          | some t ↦ some (
              resumed
                (switch_to id t (λ _ ts. ts) m (record s { tasks = tasks; ready_queue = rest })))
        ]
      ]
    ]
