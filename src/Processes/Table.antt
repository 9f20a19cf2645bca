-- ===== src/Processes/Table.antt =====
-- What the operations of process.rs do to the process table.
use generic_kernel.Common.{
  ℕ, ◌≡◌, ◌≢◌, ◌⊎◌, inl, inr, ◌&&◌, List, [], ◌∷◌, ◌++◌, Option, some, Result, ok, err, ◌==◌,
  if◌then◌else◌, length, get_elem?, Bool-cases, arith,
}
use mathlib.Core.Option
use generic_kernel.Processes.{
  Process, FdKind, Kernel, find, change, with_pid, run_process, end_process, is_running, FdError,
}

-- A change of one process is seen under its pid only.
pub find-change :
    (pid q : ℕ) (f : Process → Process) (ps : List Process)
    → ((p : Process) → (f p).pid ≡ p.pid)
    → find (with_pid q) (change pid f ps)
      ≡ (if q == pid then Option.map f (find (with_pid q) ps) else find (with_pid q) ps)
unfolding find change
find-change pid q f [] keeps = elim (Bool-cases (q == pid)) [ inl e ↦ rw e | inr e ↦ rw e ]
find-change pid q f (p ∷ ps) keeps = ground (arith, find-change pid q f ps keeps, keeps p)

-- `write_current_fd`.
abbrev pub IsWritten : ℕ → List ℕ → Kernel → Result FdError ℕ × Kernel → Type 0
IsWritten fd bytes k (err e, k') = k' ≡ k
IsWritten fd bytes k (ok n, k') =
    (n ≡ length bytes)
    × (k' ≡ record k { serial = k.serial ++ bytes })
    × (k.current_pid ≢ 0)
    × ((p : Process) × (find (λ p. p.pid == k.current_pid && is_running p.state) k.processes
          ≡ some p)
        × ((get_elem? p.fds fd ≡ some (some FdKind.stdout))
            ⊎ (get_elem? p.fds fd ≡ some (some FdKind.stderr))))

-- What a run of a process leaves: the process has exited, every other is as before, nobody is current,
-- and the kernel's page tables are active again.
pub record HasRun (k : Kernel) (pid : ℕ) (p : Process) (k' : Kernel) : Type 0 where
  pub ended : find (with_pid pid) k'.processes ≡ some (end_process k'.last_exit (run_process p))
  pub others : (q : ℕ) → q ≢ pid → find (with_pid q) k'.processes ≡ find (with_pid q) k.processes
  pub current : k'.current_pid ≡ 0
  pub root : k'.active_root ≡ k.active_root
