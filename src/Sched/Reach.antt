-- ===== src/Sched/Reach.antt =====
-- The scheduler over time: the steps that the kernel makes, and what holds in every state that they
-- reach from boot (kernel/src/sched.rs).
use package.solaros.Prelude.{ℕ, ◌≡◌, sym, ◌∙◌, Option, some, some_inj, [], inl, inr, Bool-cases}
use solaros.Sched.{Machine, init, spawn, schedule, sleep_until, terminate_current, Exit, resumed}
use solaros.Sched.Inv.{Inv}
use solaros.Sched.Ops.{init-Inv, spawn-Inv, sleep_until-Inv}
use solaros.Sched.Schedule.{schedule-Schedules, schedule_off}
use solaros.Sched.Terminate.{Terminates, went_on, stopped, terminate_current-Terminates}

-- The states that the kernel goes through, from `init` on the empty static.
pub data Reach : Machine → Type 0 where
  boot :
      (top : ℕ) (m : Machine)
      → m.sched ≡ record { tasks = []; ready_queue = []; sleepers = []; current = 0 }
      → Reach (init top m)
  spawned : (stack entry : ℕ) {m : Machine} → Reach m → Reach (spawn stack entry m).1
  ticked : (now : ℕ) {m m' : Machine} → Reach m → schedule now m ≡ some m' → Reach m'
  slept : (target : ℕ) {m m' : Machine} → Reach m → sleep_until target m ≡ some m' → Reach m'
  exited : {m m' : Machine} → Reach m → terminate_current m ≡ some (resumed m') → Reach m'

resumed_inj : (m m' : Machine) → resumed m ≡ resumed m' → m' ≡ m
resumed_inj m m' e = cc

tick-Inv :
    (now : ℕ) (m : Machine) {m' : Machine} → Inv m.sched → schedule now m ≡ some m' → Inv m'.sched
tick-Inv now m inv e = elim (Bool-cases m.init_done) [
  | inl on ↦ let r = schedule-Schedules now m inv on in rw (some_inj (sym e ∙ r.returns)) (r.inv)
  | inr off ↦ rw (some_inj (sym e ∙ schedule_off now m off)) inv
]

exit-Inv : (m m' : Machine) → Inv m.sched → terminate_current m ≡ some (resumed m') → Inv m'.sched
exit-Inv m m' inv e = go (terminate_current m) e (terminate_current-Terminates m inv)
  where
    go : (r : Option Exit) → r ≡ some (resumed m') → Terminates m r → Inv m'.sched
    go _ f (went_on out i el skipped q first sw was rest) = rw (resumed_inj out m' (some_inj f)) i
    go _ f (stopped out h was rest) = cc

-- In every state reachable from boot the tables are in order: no id is out of range, no ready task
-- but the current one is missing from the queue, and no sleeping task from the sleepers.
pub Reach-Inv : {m : Machine} → Reach m → Inv m.sched
Reach-Inv (boot top m e) = (init-Inv top m e).0
Reach-Inv (spawned stack entry {m = m} r) = (spawn-Inv stack entry m (Reach-Inv r)).0
Reach-Inv (ticked now {m = m} r e) = tick-Inv now m (Reach-Inv r) e
Reach-Inv (slept target {m = m} r e) =
    let out = sleep_until-Inv target m (Reach-Inv r) in rw (some_inj (sym e ∙ out.1)) (out.2)
Reach-Inv (exited {m = m} {m' = m'} r e) = exit-Inv m m' (Reach-Inv r) e
