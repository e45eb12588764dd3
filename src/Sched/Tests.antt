-- ===== src/Sched/Tests.antt =====
-- Runs of the scheduler, and the theorems at inputs that meet their hypotheses.
use package.solaros.Prelude.{
  ℕ, zero, suc, ◌<◌, ◌≤◌, ◌≡◌, ◌≢◌, refl, true, some, none, [], ◌∷◌, inl, arith, length, get_elem?,
}
use solaros.Sched.{Scheduler, Machine, init, spawn, schedule, terminate_current}
use solaros.Sched.Tasks.{Task, ready, sleeping}
use solaros.Sched.Switch.{Cpu, context_switch}
use solaros.Sched.Switch.Laws.{context_switch_returns}
use solaros.Sched.Inv.{Inv, state_at}
use solaros.Sched.Schedule.{Schedules, schedule-Schedules}
use solaros.Sched.Terminate.{Terminates, terminate_current-Terminates}
use solaros.Sched.Reach.{boot, spawned, Reach-Inv}
use solaros.Sched.Fresh.{spawn_enters}

abbrev kernel : Task
kernel = record { saved_rsp = 0; stack = none; state = ready; switches = 0; kstack_top = 900 }

abbrev shell : Task
shell = record {
  saved_rsp = 700;
  stack = some 600;
  state = sleeping 5;
  switches = 3;
  kstack_top = 800;
}

abbrev cpu : Cpu
cpu = record {
  rsp = 4096;
  rip = 1;
  rbp = 2;
  rbx = 3;
  r12 = 4;
  r13 = 5;
  r14 = 6;
  r15 = 7;
  memory = λ a. a;
}

-- The kernel's task runs, and the shell's sleeps until tick 5.
abbrev sched : Scheduler
sched = record {
  tasks = kernel ∷ shell ∷ [];
  ready_queue = [];
  sleepers = (1, 5) ∷ [];
  current = 0;
}

abbrev machine : Machine
machine = record {
  sched = sched;
  init_done = true;
  task_switches = 8;
  rsp0 = 900;
  kstack_top = 900;
  cpu = cpu;
}

abbrev empty : Machine
empty = record machine {
  sched = record { tasks = []; ready_queue = []; sleepers = []; current = 0 };
}

sched_queued : (id : ℕ) → state_at sched.tasks id ≡ some ready → id ≢ 0 → ⊥
sched_queued zero e ne = ne refl
sched_queued (suc zero) e ne = cc
sched_queued (suc (suc id)) e ne = cc

sched_sleepers :
    (j id target : ℕ) → get_elem? sched.sleepers j ≡ some (id, target) → id < length sched.tasks
sched_sleepers zero id target e = ground arith
sched_sleepers (suc j) id target e = cc

sched_waiting :
    (id target : ℕ)
    → state_at sched.tasks id ≡ some (sleeping target)
    → (j : ℕ) × (get_elem? sched.sleepers j ≡ some (id, target))
sched_waiting zero target e = cc
sched_waiting (suc zero) target e = (0, ground arith)
sched_waiting (suc (suc id)) target e = cc

sched-Inv : Inv sched
sched-Inv = record {
  current_in = omega arith;
  ready_in = tt;
  sleepers_in = sched_sleepers;
  queued = λ id e ne. absurd (sched_queued id e ne);
  waiting = sched_waiting;
}

schedule-Schedules_example : Schedules 5 machine (schedule 5 machine)
schedule-Schedules_example = schedule-Schedules 5 machine sched-Inv refl

Reach-Inv_example : Inv (spawn 65536 77 (init 900 empty)).1.sched
Reach-Inv_example = Reach-Inv (spawned 65536 77 (boot 900 empty refl))

terminate_current-Terminates_example : Terminates machine (terminate_current machine)
terminate_current-Terminates_example = terminate_current-Terminates machine sched-Inv

-- The machine after the switch away; nothing has written to the old frame.
abbrev away : Cpu
away = record ((context_switch 65536 cpu).1) { rsp = 65592 }

context_switch_returns_example :
    let back = (context_switch (context_switch 65536 cpu).0 away).1 in
    (back.rip ≡ 4096)
    × (back.rsp ≡ 4104)
    × (back.rbp ≡ 2)
    × (back.rbx ≡ 3)
    × (back.r12 ≡ 4)
    × (back.r13 ≡ 5)
    × (back.r14 ≡ 6)
    × (back.r15 ≡ 7)
unfolding context_switch
context_switch_returns_example =
    context_switch_returns 65536 cpu away (omega arith) (omega arith) (λ a lo hi. refl)
      (inl (omega arith))

spawn_enters_example :
    let m' = (spawn 65536 77 machine).1 in
    (t : Task) × (get_elem? m'.sched.tasks 2 ≡ some t)
    × ((context_switch t.saved_rsp m'.cpu).1.rip ≡ 77)
    × ((context_switch t.saved_rsp m'.cpu).1.rbp ≡ 0)
    × ((context_switch t.saved_rsp m'.cpu).1.rbx ≡ 0)
    × ((context_switch t.saved_rsp m'.cpu).1.r12 ≡ 0)
    × ((context_switch t.saved_rsp m'.cpu).1.r13 ≡ 0)
    × ((context_switch t.saved_rsp m'.cpu).1.r14 ≡ 0)
    × ((context_switch t.saved_rsp m'.cpu).1.r15 ≡ 0)
    × (65536 < (context_switch t.saved_rsp m'.cpu).1.rsp)
    × ((context_switch t.saved_rsp m'.cpu).1.rsp ≤ t.kstack_top)
spawn_enters_example =
    spawn_enters 65536 77 machine (omega arith) (omega arith) (omega arith) (inl (omega arith))

-- At tick 5 the shell wakes and runs.
switched_at_5 : (schedule 5 machine ≡ none) → ⊥
switched_at_5 e = let r = schedule-Schedules_example in ground (arith, r.returns)
