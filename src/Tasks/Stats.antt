-- ===== src/Tasks/Stats.antt =====
-- `stats` of task.rs: every task is in exactly one of the four counters.
use generic_kernel.Common.{ℕ, suc, ◌+◌, ◌≡◌, refl, ◌∙◌, List, [], ◌∷◌, true, arith, length}
use generic_kernel.Tasks.{
  Task, Scheduler, InternalState, SchedulerStats, count_tasks, count_task, stats, running, ready,
  exited, sleeping, no_stats,
}

abbrev pub counted : SchedulerStats → ℕ
counted c = c.running + c.ready + c.sleeping + c.exited

count_task-counted :
    (st : InternalState) (c : SchedulerStats) → counted (count_task st c) ≡ suc (counted c)
count_task-counted running c = omega arith
count_task-counted ready c = omega arith
count_task-counted exited c = omega arith
count_task-counted (sleeping until) c = omega arith

count_task-total : (st : InternalState) (c : SchedulerStats) → (count_task st c).total ≡ c.total
count_task-total running c = refl
count_task-total ready c = refl
count_task-total exited c = refl
count_task-total (sleeping until) c = refl

count_tasks-counted :
    (ts : List Task) (c : SchedulerStats)
    → (counted (count_tasks ts c) ≡ length ts + counted c) × ((count_tasks ts c).total ≡ c.total)
unfolding count_tasks
count_tasks-counted [] c = (omega arith, refl)
count_tasks-counted (t ∷ ts) c =
    let (sum, same) = count_tasks-counted ts (count_task t.state c) in
    (omega (arith, sum, count_task-counted t.state c), same ∙ count_task-total t.state c)

-- The four counters of `stats` add up to the number of tasks, once the scheduler is initialized.
pub stats-total :
    (s : Scheduler)
    → s.initialized ≡ true
    → (counted (stats s) ≡ length s.tasks) × ((stats s).total ≡ length s.tasks)
unfolding stats
stats-total s live =
    let r = count_tasks-counted s.tasks (record no_stats {
      initialized = true;
      total = length s.tasks;
      context_switches = s.context_switches;
      heartbeat = s.heartbeat;
    }) in
    rw live (omega (arith, r.0), r.1)
