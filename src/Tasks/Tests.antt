-- ===== src/Tasks/Tests.antt =====
-- The theorems about task.rs at the scheduler that `init` leaves.
use generic_kernel.Common.{ℕ, ◌≡◌, ◌≤◌, refl, [], ◌∷◌, take, ok, arith}
use generic_kernel.Tasks.{
  Scheduler, spawn, yield_now, exit_current, next_ready, worker_name, boot_task, new_task,
}
use generic_kernel.Tasks.Ready.{Searched, next_ready-Searched}
use generic_kernel.Tasks.Inv.{IsValid}
use generic_kernel.Tasks.Ops.{
  booted, booted-IsValid, spawn-IsValid, yield_now-IsValid, exit_current-Ended, Ended, Continues,
}
use generic_kernel.Tasks.Fair.{Waits, turns, turns-served}

-- The worker's function and stack at two addresses.
abbrev started : Scheduler
started = record booted { tasks = boot_task ∷ new_task worker_name 4096 65536 1 ∷ []; next_id = 2 }

started-IsValid : IsValid started
unfolding spawn
started-IsValid = spawn-IsValid worker_name 4096 65536 booted booted-IsValid

yield_now-IsValid_example : Continues (yield_now 7 started)
yield_now-IsValid_example = yield_now-IsValid 7 started started-IsValid refl

exit_current-Ended_example : Ended 7 started (exit_current 7 started)
exit_current-Ended_example = exit_current-Ended 7 started started-IsValid

next_ready-Searched_example : Searched started.tasks started.current 1 2 (next_ready started)
next_ready-Searched_example = next_ready-Searched started

worker-Waits : Waits 1 1 started
worker-Waits = record {
  task = new_task worker_name 4096 65536 1;
  there = refl;
  is_waiting = refl;
  after = omega arith;
  before = omega arith;
  at = refl;
}

turns-served_example :
    (k : ℕ) × (k ≤ 1)
    × (s' : Scheduler) × (turns (take k (5 ∷ [])) started ≡ ok s')
    × (s'.current ≡ 1)
    × IsValid s'
turns-served_example =
    turns-served 1 1 (5 ∷ []) started (omega arith) started-IsValid refl worker-Waits
