-- ===== src/Processes.antt =====
-- kernel/src/process.rs: the process table and its operations. The statics of the file are the fields of
-- `Kernel`, with the active root of the page tables and the bytes that went to the serial port. User code
-- is a parameter: `enter` runs a process until it exits.
pub mod Loader
pub mod Contents
pub mod Loading
pub mod Launch
pub mod Table
pub mod Launching
pub mod Model
mod Tests
use generic_kernel.Common.{
  ℕ, zero, suc, ◌+◌, ◌-◌, ◌*◌, ◌%◌, ◌^◌, Bool, true, false, not, ◌&&◌, ◌||◌, List, [], ◌∷◌, ◌++◌,
  Option, none, some, Result, ok, err, ◌>>=◌, ◌>>◌, ok_or, refuse_if, ◌==◌, ltb, if◌then◌else◌,
  length, get_elem?, u64_mod,
}
use generic_kernel.Pmm.{page_size}

pub data ProcessState : Type 0 where
  ready running exited : ProcessState

pub data FdKind : Type 0 where
  stdin stdout stderr : FdKind

pub record Process : Type 0 where
  pub pid : ℕ
  pub name : List ℕ
  pub state : ProcessState
  pub entry : ℕ
  pub cr3 : ℕ
  pub stack_top : ℕ
  pub fds : List (Option FdKind)
  pub exit_code : Option ℕ

pub record ProcessInfo : Type 0 where
  pub pid : ℕ
  pub name : List ℕ
  pub state : ProcessState
  pub entry : ℕ
  pub cr3 : ℕ
  pub fd_count : ℕ
  pub exit_code : Option ℕ

pub record Diagnostics : Type 0 where
  pub probe_ok : Bool
  pub process_count : ℕ
  pub last_exit : ℕ
  pub kernel_cr3 : ℕ
  pub process_cr3 : ℕ
  pub isolated_address_space : Bool
  pub scheduler_task_id : ℕ

pub record Kernel : Type 0 where
  pub processes : List Process
  pub next_pid : ℕ
  pub probe_ok : Bool
  pub last_exit : ℕ
  pub current_pid : ℕ
  pub init_pid : ℕ
  pub init_task_id : ℕ
  pub active_root : ℕ
  pub serial : List ℕ

abbrev pub is_ready : ProcessState → Bool
is_ready ProcessState.ready = true
is_ready _ = false

abbrev pub is_running : ProcessState → Bool
is_running ProcessState.running = true
is_running _ = false

abbrev pub is_exited : ProcessState → Bool
is_exited ProcessState.exited = true
is_exited _ = false

-- `iter().find(…)`, and the change of the process that `iter_mut().find(|process| process.pid == pid)` finds.
unfoldable pub find : (Process → Bool) → List Process → Option Process
find test [] = none
find test (p ∷ ps) = if test p then some p else find test ps

unfoldable pub change : ℕ → (Process → Process) → List Process → List Process
change pid f [] = []
change pid f (p ∷ ps) = if p.pid == pid then f p ∷ ps else p ∷ change pid f ps

abbrev pub with_pid : ℕ → Process → Bool
with_pid pid p = p.pid == pid

abbrev pub run_process : Process → Process
run_process p = record p { state = ProcessState.running }

abbrev pub end_process : ℕ → Process → Process
end_process exit p = record p { state = ProcessState.exited; exit_code = some exit }

-- `activate_address_space` refuses a root that is not page aligned.
abbrev pub activate : ℕ → Kernel → Option Kernel
activate root k = if root % page_size == 0 then some (record k { active_root = root }) else none

-- `write_current_fd`.
pub data FdError : Type 0 where
  no_current_process not_runnable bad_descriptor not_writable : FdError

abbrev pub joined : Option (Option FdKind) → Option FdKind
joined none = none
joined (some kind) = kind

abbrev pub write_kind : FdKind → List ℕ → Kernel → Result FdError ℕ × Kernel
write_kind FdKind.stdin bytes k = (err FdError.not_writable, k)
write_kind FdKind.stdout bytes k = (ok (length bytes), record k { serial = k.serial ++ bytes })
write_kind FdKind.stderr bytes k = (ok (length bytes), record k { serial = k.serial ++ bytes })

unfoldable pub write_current_fd : ℕ → List ℕ → Kernel → Result FdError ℕ × Kernel
write_current_fd fd bytes k =
    if k.current_pid == 0
    then (err FdError.no_current_process, k)
    else elim (find (λ p. p.pid == k.current_pid && is_running p.state) k.processes) [
      | none ↦ (err FdError.not_runnable, k)
      | some process ↦ elim (joined (get_elem? process.fds fd)) [
        | none ↦ (err FdError.bad_descriptor, k)
        | some kind ↦ write_kind kind bytes k
      ]
    ]

abbrev pub first_cr3 : List Process → ℕ
first_cr3 [] = 0
first_cr3 (p ∷ ps) = p.cr3

unfoldable pub diagnostics : Kernel → Diagnostics
diagnostics k =
    let process_cr3 = first_cr3 k.processes in
    record {
      probe_ok = k.probe_ok;
      process_count = length k.processes;
      last_exit = k.last_exit;
      kernel_cr3 = k.active_root;
      process_cr3 = process_cr3;
      isolated_address_space = not (process_cr3 == 0) && not (process_cr3 == k.active_root);
      scheduler_task_id = k.init_task_id;
    }

unfoldable pub open_fds : List (Option FdKind) → ℕ
open_fds [] = 0
open_fds (none ∷ fds) = open_fds fds
open_fds (some kind ∷ fds) = suc (open_fds fds)

unfoldable pub process_infos : List Process → List ProcessInfo
process_infos [] = []
process_infos (p ∷ ps) =
    record {
      pid = p.pid;
      name = p.name;
      state = p.state;
      entry = p.entry;
      cr3 = p.cr3;
      fd_count = open_fds p.fds;
      exit_code = p.exit_code;
    }
    ∷ process_infos ps

-- The entry that `init_probe` and `launch_graphical_shell` push.
abbrev pub new_process : ℕ → List ℕ → ℕ → ℕ → ℕ → Process
new_process pid name entry root stack_top = record {
  pid = pid;
  name = name;
  state = ProcessState.ready;
  entry = entry;
  cr3 = root;
  stack_top = stack_top;
  fds = some FdKind.stdin ∷ some FdKind.stdout ∷ some FdKind.stderr ∷ [];
  exit_code = none;
}

-- `NEXT_PID.fetch_add(1)` and the push.
abbrev pub push_process : List ℕ → ℕ → ℕ → ℕ → Kernel → Kernel
push_process name entry root stack_top k = record k {
  processes = k.processes ++ (new_process k.next_pid name entry root stack_top ∷ []);
  next_pid = (k.next_pid + 1) % u64_mod;
}

-- The panics of `run_init_process`.
pub data RunPanic : Type 0 where
  missing_pid disappeared not_ready activation_failed restore_failed vanished : RunPanic

module _ (enter : ℕ → ℕ → Kernel → ℕ × Kernel) where
  -- The end of a run, after `enter` came back.
  unfoldable pub end_run : ℕ → ℕ → ℕ × Kernel → Result RunPanic Kernel
  end_run pid kernel_root (exit, k) = do
    k' ← ok_or (activate kernel_root (record k { current_pid = 0 })) RunPanic.restore_failed
    process ← ok_or (find (with_pid pid) k'.processes) RunPanic.vanished
    ok (record k' { processes = change pid (end_process exit) k'.processes; last_exit = exit })

  unfoldable pub run_init_process : Kernel → Result RunPanic Kernel
  run_init_process k = do
    refuse_if (k.init_pid == 0) RunPanic.missing_pid
    process ← ok_or (find (with_pid k.init_pid) k.processes) RunPanic.disappeared
    refuse_if (not (is_ready process.state)) RunPanic.not_ready
    k' ←
        ok_or
          (activate process.cr3
            (record k { processes = change k.init_pid run_process k.processes }))
          RunPanic.activation_failed
    end_run k.init_pid k.active_root
        (enter process.entry process.stack_top (record k' { current_pid = k.init_pid }))
