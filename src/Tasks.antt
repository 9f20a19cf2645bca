-- ===== src/Tasks.antt =====
-- kernel/src/task.rs: the cooperative round-robin scheduler. `SCHEDULER` and the flags beside it are one
-- state; the ticks that an operation reads from the timer are its arguments, and the context switch that
-- it asks for is its result. A panic is a result too.
pub mod Lookup
pub mod Ready
pub mod Inv
pub mod Resume
pub mod Ops
pub mod Fair
pub mod Stats
pub mod Report
mod Tests
use generic_kernel.Common.{
  ℕ, zero, suc, ◌+◌, ◌-◌, ◌*◌, ◌%◌, Bool, true, false, not, ◌&&◌, List, [], ◌∷◌, ◌++◌, map, Option,
  none, some, Result, ok, err, ◌>>=◌, ◌>>◌, min, ltb, leb, ◌==◌, if◌then◌else◌, length, get_elem?,
  set, checked_add, u64_mod, sub64,
}

abbrev pub stack_bytes : ℕ
stack_bytes = 32768

abbrev pub quantum_ticks : ℕ
quantum_ticks = 5

pub data InternalState : Type 0 where
  running ready exited : InternalState
  sleeping : ℕ → InternalState

-- The entry point is the address of a function; the stack is the address of its first byte.
pub record Task : Type 0 where
  pub id : ℕ
  pub name : List ℕ
  pub state : InternalState
  pub rsp : ℕ
  pub stack : Option ℕ
  pub entry : Option ℕ

pub record Scheduler : Type 0 where
  pub tasks : List Task
  pub current : ℕ
  pub next_id : ℕ
  pub context_switches : ℕ
  pub initialized : Bool
  pub reschedule_requested : Bool
  pub heartbeat : ℕ

-- Whose registers are saved, and the stack that is switched to.
pub record Switch : Type 0 where
  pub old : ℕ
  pub new_rsp : ℕ

pub data Panic : Type 0 where
  index_out_of_bounds initialized_twice spawn_failed no_runnable_successor missing_entry : Panic

-- `Scheduler::new` and the initial values of the flags.
abbrev pub boot_state : Scheduler
boot_state = record {
  tasks = [];
  current = 0;
  next_id = 1;
  context_switches = 0;
  initialized = false;
  reschedule_requested = false;
  heartbeat = 0;
}

abbrev pub saturating_add : ℕ → ℕ → ℕ
saturating_add a b = min (a + b) (u64_mod - 1)

unfoldable pub wake : ℕ → InternalState → InternalState
wake now running = running
wake now ready = ready
wake now exited = exited
wake now (sleeping until) = if leb until now then ready else sleeping until

abbrev pub wake_task : ℕ → Task → Task
wake_task now t = record t { state = wake now t.state }

abbrev pub wake_sleepers : ℕ → Scheduler → Scheduler
wake_sleepers now s = record s { tasks = map (wake_task now) s.tasks }

abbrev pub is_ready : InternalState → Bool
is_ready running = false
is_ready ready = true
is_ready exited = false
is_ready (sleeping until) = false

abbrev pub is_running : InternalState → Bool
is_running running = true
is_running ready = false
is_running exited = false
is_running (sleeping until) = false

abbrev pub task_is_ready : Option Task → Bool
task_is_ready none = false
task_is_ready (some t) = is_ready t.state

-- The loop of `next_ready` over the offsets from `offset` on.
unfoldable pub ready_from : ℕ → ℕ → ℕ → List Task → Option ℕ
ready_from zero offset current tasks = none
ready_from (suc rounds) offset current tasks =
    elim (task_is_ready (get_elem? tasks ((current + offset) % length tasks))) [
      | true ↦ some ((current + offset) % length tasks)
      | false ↦ ready_from rounds (suc offset) current tasks
    ]

unfoldable pub next_ready : Scheduler → Option ℕ
unfolding ready_from
next_ready s =
    if leb (length s.tasks) 1 then none else ready_from (length s.tasks - 1) 1 s.current s.tasks

-- `tasks[index]`, and `tasks[index].state = state`.
abbrev pub found : Option Task → Result Panic Task
found none = err Panic.index_out_of_bounds
found (some t) = ok t

abbrev pub task_at : ℕ → Scheduler → Result Panic Task
task_at index s = found (get_elem? s.tasks index)

unfoldable pub set_state : ℕ → InternalState → Scheduler → Result Panic Scheduler
set_state index state s = do
  t ← task_at index s
  ok (record s { tasks = set s.tasks index (record t { state = state }) })

-- The end of `yield_now`, `sleep_ticks` and `exit_current`: `next` runs.
unfoldable pub dispatch : ℕ → Scheduler → Result Panic (Scheduler × Option Switch)
unfolding set_state
dispatch next s = do
  s' ← set_state next running s
  t ← task_at next s'
  ok (
    record s' { current = next; context_switches = saturating_add s.context_switches 1 },
    some (record { old = s.current; new_rsp = t.rsp }),
  )

-- `let Some(next) = scheduler.next_ready() else …`: the current task goes on.
unfoldable pub resume_or : Option ℕ → Scheduler → Result Panic (Scheduler × Option Switch)
unfolding set_state dispatch
resume_or none s = do s' ← set_state s.current running s; ok (s', none)
resume_or (some next) s = dispatch next s

unfoldable pub requeue : Task → Scheduler → Result Panic Scheduler
unfolding set_state
requeue t s = if is_running t.state then set_state s.current ready s else ok s

unfoldable pub yield_now : ℕ → Scheduler → Result Panic (Scheduler × Option Switch)
unfolding wake next_ready resume_or requeue
yield_now now s = if not s.initialized then ok (s, none) else (do
  let woken = wake_sleepers now s
  t ← task_at s.current woken
  queued ← requeue t woken
  resume_or (next_ready queued) queued)

-- The timer is read twice: for the tick to wake at, and when the sleepers are woken.
unfoldable pub sleep_ticks : ℕ → ℕ → ℕ → Scheduler → Result Panic (Scheduler × Option Switch)
unfolding wake next_ready resume_or set_state yield_now
sleep_ticks ticks start now s =
    if ticks == 0 then yield_now now s else if not s.initialized then ok (s, none) else (do
      let woken = wake_sleepers now s
      parked ← set_state s.current (sleeping (saturating_add start ticks)) woken
      resume_or (next_ready parked) parked)

abbrev pub successor : Option ℕ → Result Panic ℕ
successor none = err Panic.no_runnable_successor
successor (some next) = ok next

unfoldable pub exit_current : ℕ → Scheduler → Result Panic (Scheduler × Option Switch)
unfolding wake next_ready set_state dispatch
exit_current now s = do
  let woken = wake_sleepers now s
  gone ← set_state s.current exited woken
  next ← successor (next_ready gone)
  dispatch next gone

-- The stack pointer that `prepare_stack` leaves: below the return slot and six saved registers.
abbrev pub prepare_stack : ℕ → ℕ
prepare_stack base = sub64 ((base + stack_bytes) % u64_mod) 64

abbrev pub new_task : List ℕ → ℕ → ℕ → ℕ → Task
new_task name entry base id = record {
  id = id;
  name = name;
  state = ready;
  rsp = prepare_stack base;
  stack = some base;
  entry = some entry;
}

-- `spawn`, on a stack that the heap placed at `base`.
unfoldable pub spawn : List ℕ → ℕ → ℕ → Scheduler → Option ℕ × Scheduler
spawn name entry base s = if not s.initialized then (none, s) else elim (checked_add s.next_id 1) [
  | none ↦ (none, s)
  | some next_id ↦ (
    some s.next_id,
    record s { next_id = next_id; tasks = s.tasks ++ (new_task name entry base s.next_id ∷ []) },
  )
]

abbrev pub expect_spawn : Option ℕ × Scheduler → Result Panic Scheduler
expect_spawn (none, s) = err Panic.spawn_failed
expect_spawn (some id, s) = ok s

abbrev pub boot_task : Task
boot_task = record {
  id = 0;
  name = b'b' ∷ b'o' ∷ b'o' ∷ b't' ∷ [];
  state = running;
  rsp = 0;
  stack = none;
  entry = none;
}

abbrev pub worker_name : List ℕ
worker_name = b'k' ∷ b'w' ∷ b'o' ∷ b'r' ∷ b'k' ∷ b'e' ∷ b'r' ∷ b'/' ∷ b'0' ∷ []

-- `init`, with the address of `housekeeping_task` and of the worker's stack.
unfoldable pub init : ℕ → ℕ → Scheduler → Result Panic Scheduler
unfolding spawn
init housekeeping base s =
    if not (length s.tasks == 0)
    then err Panic.initialized_twice
    else expect_spawn (
        spawn worker_name housekeeping base (record s {
          tasks = s.tasks ++ (boot_task ∷ []);
          current = 0;
          next_id = 1;
          context_switches = 0;
          initialized = true;
        }))

unfoldable pub on_timer_tick : ℕ → Scheduler → Scheduler
on_timer_tick tick s =
    if s.initialized && tick % quantum_ticks == 0
    then record s { reschedule_requested = true }
    else s

unfoldable pub checkpoint : ℕ → Scheduler → Result Panic (Scheduler × Option Switch)
unfolding yield_now
checkpoint now s =
    if s.reschedule_requested
    then yield_now now (record s { reschedule_requested = false })
    else ok (s, none)

-- The entry point that `task_trampoline` calls.
abbrev pub entry_of : Task → Result Panic ℕ
entry_of t = elim t.entry [ none ↦ err Panic.missing_entry | some entry ↦ ok entry ]

unfoldable pub task_trampoline : Scheduler → Result Panic ℕ
task_trampoline s = do t ← task_at s.current s; entry_of t

-- `SchedulerStats`.
pub record SchedulerStats : Type 0 where
  pub initialized : Bool
  pub total : ℕ
  pub running : ℕ
  pub ready : ℕ
  pub sleeping : ℕ
  pub exited : ℕ
  pub context_switches : ℕ
  pub heartbeat : ℕ

abbrev pub count_task : InternalState → SchedulerStats → SchedulerStats
count_task InternalState.running c = record c { running = suc c.running }
count_task InternalState.ready c = record c { ready = suc c.ready }
count_task InternalState.exited c = record c { exited = suc c.exited }
count_task (InternalState.sleeping until) c = record c { sleeping = suc c.sleeping }

unfoldable pub count_tasks : List Task → SchedulerStats → SchedulerStats
count_tasks [] c = c
count_tasks (t ∷ ts) c = count_tasks ts (count_task t.state c)

abbrev pub no_stats : SchedulerStats
no_stats = record {
  initialized = false;
  total = 0;
  running = 0;
  ready = 0;
  sleeping = 0;
  exited = 0;
  context_switches = 0;
  heartbeat = 0;
}

unfoldable pub stats : Scheduler → SchedulerStats
unfolding count_tasks
stats s =
    if not s.initialized
    then no_stats
    else count_tasks s.tasks (record no_stats {
      initialized = true;
      total = length s.tasks;
      context_switches = s.context_switches;
      heartbeat = s.heartbeat;
    })

-- One round of `housekeeping_task`, at `hz` ticks a second.
unfoldable pub housekeeping_task : ℕ → ℕ → ℕ → Scheduler → Result Panic (Scheduler × Option Switch)
unfolding sleep_ticks
housekeeping_task hz start now s =
    sleep_ticks hz start now (record s { heartbeat = (s.heartbeat + 1) % u64_mod })
