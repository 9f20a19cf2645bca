-- ===== src/Processes/Tests.antt =====
-- A small table of processes, and the image of the tests of elf.rs as the shell.
use generic_kernel.Common.{
  ℕ, ◌≡◌, refl, true, false, List, [], ◌∷◌, Option, some, ok, err, align_up,
}
use generic_kernel.Bytes.{write_at, to_le}
use generic_kernel.Elf.{parse}
use generic_kernel.Elf.Fixture.{fixture, loaded_image}
use generic_kernel.Processes.{
  Kernel, Process, ProcessState, FdError, find, change, new_process, write_current_fd, diagnostics,
}
use generic_kernel.Processes.Loader.{load_image, load_segments, load_segment_pages, load_pages}
use generic_kernel.Processes.Loading.{IsLoadedImage, load_image-IsLoadedImage}
use generic_kernel.Processes.Launch.{
  launch_graphical_shell, start_process, map_stack, end_launch, Launched,
}
use generic_kernel.Processes.Model.{Page, page_at, map_page, pages}

abbrev boot : Kernel
boot = record {
  processes = [];
  next_pid = 1;
  probe_ok = false;
  last_exit = 0;
  current_pid = 0;
  init_pid = 1;
  init_task_id = 0;
  active_root = 0x1000;
  serial = [];
}

abbrev init_process : Process
init_process = new_process 1 (b'i' ∷ []) 0x400000 0x2000 0x801000

-- The table with the init process, which is ready.
abbrev with_init : Kernel
with_init = record boot { processes = init_process ∷ []; next_pid = 2 }

abbrev init_runs : Kernel
init_runs = record with_init {
  processes = record init_process { state = ProcessState.running } ∷ [];
  current_pid = 1;
}

-- User code that writes nothing and exits with the code 7.
abbrev exits : ℕ → ℕ → Kernel → ℕ × Kernel
exits entry stack k = (7, k)

to_stdout : (write_current_fd 1 (b'h' ∷ b'i' ∷ []) init_runs).0 ≡ ok 2
unfolding write_current_fd find
to_stdout = refl

to_stdin : (write_current_fd 0 (b'h' ∷ []) init_runs).0 ≡ err FdError.not_writable
unfolding write_current_fd find
to_stdin = refl

nobody : (write_current_fd 1 [] with_init).0 ≡ err FdError.no_current_process
unfolding write_current_fd
nobody = refl

-- The shell in an empty address space.
loads : (load_image pages loaded_image []).0 ≡ ok tt
unfolding load_image load_segments load_segment_pages load_pages map_page page_at align_up
loads = refl

load_image-IsLoadedImage_example :
    IsLoadedImage pages loaded_image (load_image pages loaded_image [])
load_image-IsLoadedImage_example = load_image-IsLoadedImage pages loaded_image []

abbrev new_space : List Page → Option ℕ × List Page
new_space s = (some 0x5000, [])

abbrev after : Launched (List Page)
after = launch_graphical_shell pages exits new_space (ok fixture) with_init []

shell_exit : after.0 ≡ ok 7
unfolding launch_graphical_shell start_process map_stack end_launch load_image load_segments
    load_segment_pages load_pages map_page page_at find change parse write_at to_le align_up
shell_exit = refl

stats_of_boot : (diagnostics with_init).isolated_address_space ≡ true
unfolding diagnostics
stats_of_boot = refl
