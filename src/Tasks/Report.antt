-- ===== src/Tasks/Report.antt =====
-- The list of tasks that task.rs reports to the shell.
use generic_kernel.Common.{ℕ, List, [], map, Option, none, some, not, if◌then◌else◌}
use generic_kernel.Tasks.{InternalState, Task, Scheduler}

pub data TaskState : Type 0 where
  running ready sleeping exited : TaskState

pub record TaskInfo : Type 0 where
  pub id : ℕ
  pub name : List ℕ
  pub state : TaskState
  pub wake_tick : Option ℕ

abbrev pub task_state : InternalState → TaskState × Option ℕ
task_state InternalState.running = (TaskState.running, none)
task_state InternalState.ready = (TaskState.ready, none)
task_state (InternalState.sleeping tick) = (TaskState.sleeping, some tick)
task_state InternalState.exited = (TaskState.exited, none)

abbrev pub task_info : Task → TaskInfo
task_info t =
    let (state, wake_tick) = task_state t.state in
    record { id = t.id; name = t.name; state = state; wake_tick = wake_tick }

unfoldable pub tasks : Scheduler → List TaskInfo
tasks s = if not s.initialized then [] else map task_info s.tasks
