-- ===== src/Processes/Launch.antt =====
-- kernel/src/process.rs: `launch_graphical_shell`. The file that the virtual file system returns, the
-- creation of an address space, the mapping of a page and the run of user code are parameters.
use generic_kernel.Common.{
  ℕ, zero, suc, ◌+◌, ◌-◌, ◌*◌, true, false, List, [], ◌∷◌, Option, none, some, Result, ok, err,
  ◌==◌, if◌then◌else◌, ltb,
}
use generic_kernel.Pmm.{page_size}
use generic_kernel.Elf.{ElfError, ElfImage, parse}
use generic_kernel.Vfs.{VfsError}
use generic_kernel.Processes.{
  Kernel, Process, find, change, with_pid, run_process, end_process, activate, push_process,
}
use generic_kernel.Processes.Loader.{Space, Loaded, load_image}

abbrev pub gui_stack_top : ℕ
gui_stack_top = 0x4000000

abbrev pub gui_stack_pages : ℕ
gui_stack_pages = 16

-- "/bin/generic-gui".
abbrev pub gui_name : List ℕ
gui_name =
    b'/' ∷ b'b' ∷ b'i' ∷ b'n' ∷ b'/' ∷ b'g' ∷ b'e' ∷ b'n' ∷ b'e' ∷ b'r' ∷ b'i' ∷ b'c' ∷ b'-' ∷ b'g'
    ∷ b'u' ∷ b'i' ∷ []

pub data LaunchError : Type 0 where
  not_present invalid_elf no_address_space reused_root load_failed stack_underflow stack_failed
        disappeared activation_failed restore_failed vanished :
      LaunchError

abbrev pub Launched : Type 0 → Type 0
Launched Tables = Result LaunchError ℕ × Kernel × Tables

module _ (space : Space) (enter : ℕ → ℕ → Kernel → ℕ × Kernel) where
  open space use {Tables, map_user_page}

  -- The end of a run, after `enter` came back.
  abbrev pub finished : ℕ → ℕ → Tables → Kernel → Option Process → Launched Tables
  finished pid exit s k none = (err LaunchError.vanished, k, s)
  finished pid exit s k (some process) = (
    ok exit,
    record k { processes = change pid (end_process exit) k.processes; last_exit = exit },
    s,
  )

  abbrev pub restored : ℕ → ℕ → Tables → Kernel → Option Kernel → Launched Tables
  restored pid exit s left none = (err LaunchError.restore_failed, left, s)
  restored pid exit s left (some k) = finished pid exit s k (find (with_pid pid) k.processes)

  unfoldable pub end_launch : ℕ → ℕ → Tables → ℕ × Kernel → Launched Tables
  end_launch pid kernel_root s (exit, k) =
      let left = record k { current_pid = 0 } in
      restored pid exit s left (activate kernel_root left)

  -- From the activation of the page tables on.
  abbrev pub activated : ElfImage → ℕ → ℕ → Tables → Kernel → Option Kernel → Launched Tables
  activated image pid kernel_root s k none = (err LaunchError.activation_failed, k, s)
  activated image pid kernel_root s k (some k') =
      end_launch pid kernel_root s
        (enter image.entry gui_stack_top (record k' { current_pid = pid }))

  abbrev pub pushed : ElfImage → ℕ → ℕ → ℕ → Tables → Kernel → Option Process → Launched Tables
  pushed image root pid kernel_root s k none = (err LaunchError.disappeared, k, s)
  pushed image root pid kernel_root s k (some process) =
      let started = record k { processes = change pid run_process k.processes } in
      activated image pid kernel_root s started (activate root started)

  -- From the push of the process on.
  unfoldable pub start_process : ElfImage → ℕ → Kernel → Tables → Launched Tables
  start_process image root k s =
      let k' = push_process gui_name image.entry root gui_stack_top k in
      pushed image root k.next_pid k.active_root s k' (find (with_pid k.next_pid) k'.processes)

  abbrev pub after_stack_page :
      Option ℕ × Tables
      → (Tables → Result LaunchError (Unit {0}) × Tables)
      → Result LaunchError (Unit {0}) × Tables
  after_stack_page (none, s) rest = (err LaunchError.stack_failed, s)
  after_stack_page (some frame, s) rest = rest s

  -- The loop over the pages of the stack, from `page` on.
  unfoldable pub map_stack : ℕ → ℕ → Tables → Result LaunchError (Unit {0}) × Tables
  map_stack zero page s = (ok tt, s)
  map_stack (suc rounds) page s =
      let rest = map_stack rounds (suc page) in
      if ltb gui_stack_top ((page + 1) * page_size)
      then (err LaunchError.stack_underflow, s)
      else after_stack_page (map_user_page s (gui_stack_top - (page + 1) * page_size) true false [])
          rest

  abbrev pub with_stack :
      ElfImage → ℕ → Kernel → Result LaunchError (Unit {0}) × Tables → Launched Tables
  with_stack image root k (err e, s) = (err e, k, s)
  with_stack image root k (ok _, s) = start_process image root k s

  abbrev pub with_image : ElfImage → ℕ → Kernel → Loaded Tables → Launched Tables
  with_image image root k (err e, s) = (err LaunchError.load_failed, k, s)
  with_image image root k (ok _, s) = with_stack image root k (map_stack gui_stack_pages 0 s)

  abbrev pub with_space : ElfImage → Kernel → Option ℕ × Tables → Launched Tables
  with_space image k (none, s) = (err LaunchError.no_address_space, k, s)
  with_space image k (some root, s) =
      if root == k.active_root
      then (err LaunchError.reused_root, k, s)
      else with_image image root k (load_image space image s)

  abbrev pub with_file :
      (Tables → Option ℕ × Tables) → Kernel → Tables → Result ElfError ElfImage → Launched Tables
  with_file create k s (err e) = (err LaunchError.invalid_elf, k, s)
  with_file create k s (ok image) = with_space image k (create s)

  unfoldable pub launch_graphical_shell :
      (Tables → Option ℕ × Tables) → Result VfsError (List ℕ) → Kernel → Tables → Launched Tables
  launch_graphical_shell create (err e) k s = (err LaunchError.not_present, k, s)
  launch_graphical_shell create (ok bytes) k s = with_file create k s (parse bytes)
