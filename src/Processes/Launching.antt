-- ===== src/Processes/Launching.antt =====
-- What `launch_graphical_shell` leaves in the process table.
use generic_kernel.Common.{
  ℕ, ◌%◌, ◌<◌, ◌≡◌, ◌≢◌, inl, inr, refl, ap, subst, ◌∙◌, true, false, List, [], ◌∷◌, ◌++◌, Option,
  none, some, Result, ok, err, ◌==◌, Bool-cases, arith,
}
use generic_kernel.Pmm.{page_size}
use generic_kernel.Elf.{ElfError, ElfImage, parse}
use generic_kernel.Vfs.{VfsError}
use generic_kernel.Processes.{
  Kernel, Process, change, run_process, end_process, activate, push_process, new_process,
}
use generic_kernel.Processes.Loader.{Space, Loaded}
use generic_kernel.Processes.Launch.{
  LaunchError, Launched, finished, restored, activated, pushed, end_launch, start_process,
  with_stack, with_image, with_space, with_file, launch_graphical_shell, gui_name, gui_stack_top,
}

-- The pids of the table are below the next one.
abbrev pub IsNumbered : ℕ → List Process → Type 0
IsNumbered n [] = Unit {0}
IsNumbered n (p ∷ ps) = (p.pid < n) × IsNumbered n ps

-- The process that was pushed last is the one that is changed.
change_last :
    (n : ℕ) (f : Process → Process) (ps : List Process) (p : Process)
    → IsNumbered n ps
    → p.pid ≡ n
    → change n f (ps ++ (p ∷ [])) ≡ ps ++ (f p ∷ [])
unfolding change
change_last n f [] p h e = let same : (p.pid == n) ≡ true = ground arith in rw same
change_last n f (q ∷ ps) p (below, h) e =
    let differ : (q.pid == n) ≡ false = ground arith in
    rw differ (ap (λ l. q ∷ l) (change_last n f ps p h e))

some-injective : (a b : Kernel) → some a ≡ some b → b ≡ a
some-injective a b h = cc

none-some : (a : Kernel) → ¬ (◌≡◌ {A = Option Kernel} none (some a))
none-some a h = cc

activate-some :
    (root : ℕ) (k j : Kernel) → activate root k ≡ some j → j ≡ record k { active_root = root }
activate-some root k j h = elim (Bool-cases (root % page_size == 0)) [
  | inl even ↦ some-injective _ j (rw even at h)
  | inr odd ↦ absurd (none-some j (rw odd at h))
]

module _ (space : Space) (enter : ℕ → ℕ → Kernel → ℕ × Kernel) where
  open space use {Tables, map_user_page}

  -- The file holds the image.
  abbrev pub IsFileOf : Result VfsError (List ℕ) → ElfImage → Type 0
  IsFileOf file image = (bytes : List ℕ) × (file ≡ ok bytes) × (parse bytes ≡ ok image)

  -- What a launch leaves that returned the exit code of the shell.
  pub record HasEnded (file : Result VfsError (List ℕ)) (k : Kernel) (exit : ℕ) (k' : Kernel)
      : Type 0 where
    pub image : ElfImage
    pub from_file : IsFileOf file image
    pub root : ℕ
    pub private : root ≢ k.active_root
    pub table :
        k'.processes
        ≡ k.processes
          ++ (end_process exit
                (run_process (new_process k.next_pid gui_name image.entry root gui_stack_top))
              ∷ [])
    pub code : k'.last_exit ≡ exit
    pub current : k'.current_pid ≡ 0
    pub active : k'.active_root ≡ k.active_root

  abbrev Ends : Result VfsError (List ℕ) → Kernel → Launched Tables → Type 0
  Ends file k (ok exit, k', s) = HasEnded file k exit k'
  Ends file k (err e, k', s) = Unit {0}

  module _
      (leaves : (entry stack : ℕ) (j : Kernel) → (enter entry stack j).1.processes ≡ j.processes)
      (file : Result VfsError (List ℕ)) (k : Kernel)
      (numbered : IsNumbered k.next_pid k.processes) where
    -- The table that the end of the run finds.
    abbrev ran : ElfImage → ℕ → List Process
    ran image root =
        k.processes
        ++ (run_process (new_process k.next_pid gui_name image.entry root gui_stack_top) ∷ [])

    finished-Ends :
        (image : ElfImage) (root exit : ℕ) (s : Tables) (j : Kernel) (o : Option Process)
        → IsFileOf file image
        → root ≢ k.active_root
        → j.processes ≡ ran image root
        → j.current_pid ≡ 0
        → j.active_root ≡ k.active_root
        → Ends file k (finished space enter k.next_pid exit s j o)
    finished-Ends image root exit s j none from apart table current active = tt
    finished-Ends image root exit s j (some p) from apart table current active = record {
      image = image;
      root = root;
      from_file = from;
      private = apart;
      table =
          ap (change k.next_pid (end_process exit)) table
          ∙ change_last k.next_pid (end_process exit) k.processes
              (run_process (new_process k.next_pid gui_name image.entry root gui_stack_top))
              numbered refl;
      code = refl;
      current = current;
      active = active;
    }

    restored-Ends :
        (image : ElfImage) (root exit : ℕ) (s : Tables) (left : Kernel) (o : Option Kernel)
        → IsFileOf file image
        → root ≢ k.active_root
        → left.processes ≡ ran image root
        → left.current_pid ≡ 0
        → activate k.active_root left ≡ o
        → Ends file k (restored space enter k.next_pid exit s left o)
    restored-Ends image root exit s left none from apart table current h = tt
    restored-Ends image root exit s left (some j) from apart table current h =
        let same = activate-some k.active_root left j h in
        finished-Ends image root exit s j _ from apart (ap (λ x. x.processes) same ∙ table)
          (ap (λ x. x.current_pid) same ∙ current) (ap (λ x. x.active_root) same)

    ended :
        (image : ElfImage) (root : ℕ) (s : Tables) (o : ℕ × Kernel)
        → IsFileOf file image
        → root ≢ k.active_root
        → o.1.processes ≡ ran image root
        → Ends file k (end_launch space enter k.next_pid k.active_root s o)
    unfolding end_launch
    ended image root s (exit, j) from apart table =
        restored-Ends image root exit s (record j { current_pid = 0 }) _ from apart table refl refl

    activated-Ends :
        (image : ElfImage) (root : ℕ) (s : Tables) (j : Kernel) (o : Option Kernel)
        → IsFileOf file image
        → root ≢ k.active_root
        → j.processes ≡ ran image root
        → activate root j ≡ o
        → Ends file k (activated space enter image k.next_pid k.active_root s j o)
    activated-Ends image root s j none from apart table h = tt
    activated-Ends image root s j (some j') from apart table h =
        let same = activate-some root j j' h in
        ended image root s _ from apart (leaves _ _ _ ∙ ap (λ x. x.processes) same ∙ table)

    pushed-Ends :
        (image : ElfImage) (root : ℕ) (s : Tables) (j : Kernel) (o : Option Process)
        → IsFileOf file image
        → root ≢ k.active_root
        → change k.next_pid run_process j.processes ≡ ran image root
        → Ends file k (pushed space enter image root k.next_pid k.active_root s j o)
    pushed-Ends image root s j none from apart table = tt
    pushed-Ends image root s j (some p) from apart table =
        activated-Ends image root s
          (record j { processes = change k.next_pid run_process j.processes }) _ from apart table
          refl

    started :
        (image : ElfImage) (root : ℕ) (s : Tables)
        → IsFileOf file image
        → root ≢ k.active_root
        → Ends file k (start_process space enter image root k s)
    unfolding start_process
    started image root s from apart =
        pushed-Ends image root s (push_process gui_name image.entry root gui_stack_top k) _ from
          apart
          (change_last k.next_pid run_process k.processes
            (new_process k.next_pid gui_name image.entry root gui_stack_top) numbered refl)

    stacked :
        (image : ElfImage) (root : ℕ) (o : Result LaunchError (Unit {0}) × Tables)
        → IsFileOf file image
        → root ≢ k.active_root
        → Ends file k (with_stack space enter image root k o)
    stacked image root (err e, s) from apart = tt
    stacked image root (ok _, s) from apart = started image root s from apart

    imaged :
        (image : ElfImage) (root : ℕ) (o : Loaded Tables)
        → IsFileOf file image
        → root ≢ k.active_root
        → Ends file k (with_image space enter image root k o)
    imaged image root (err e, s) from apart = tt
    imaged image root (ok _, s) from apart = stacked image root _ from apart

    spaced :
        (image : ElfImage) (o : Option ℕ × Tables)
        → IsFileOf file image
        → Ends file k (with_space space enter image k o)
    spaced image (none, s) from = tt
    spaced image (some root, s) from = elim (Bool-cases (root == k.active_root)) [
      | inl reused ↦ rw reused tt
      | inr apart ↦ rw apart (imaged image root _ from (ground arith))
    ]

    filed :
        (create : Tables → Option ℕ × Tables) (s : Tables) (bytes : List ℕ)
        (r : Result ElfError ElfImage)
        → file ≡ ok bytes
        → parse bytes ≡ r
        → Ends file k (with_file space enter create k s r)
    filed create s bytes (err e) read parsed = tt
    filed create s bytes (ok image) read parsed = spaced image (create s) (bytes, read, parsed)

    launched :
        (create : Tables → Option ℕ × Tables) (s : Tables) (r : Result VfsError (List ℕ))
        → file ≡ r
        → Ends file k (launch_graphical_shell space enter create r k s)
    unfolding launch_graphical_shell
    launched create s (err e) read = tt
    launched create s (ok bytes) read = filed create s bytes (parse bytes) read refl

  -- Where user code leaves the process table alone and every pid is below the next one, a launch that
  -- returns an exit code has run the image that the file holds in page tables other than the kernel's:
  -- the table is the one before with a new process behind it that has the next pid and has exited with
  -- the code, no process is current, and the kernel's page tables are active again.
  pub launch_graphical_shell-HasEnded :
      (create : Tables → Option ℕ × Tables) (file : Result VfsError (List ℕ)) (k k' : Kernel)
      (s s' : Tables) (exit : ℕ)
      → ((entry stack : ℕ) (j : Kernel) → (enter entry stack j).1.processes ≡ j.processes)
      → IsNumbered k.next_pid k.processes
      → launch_graphical_shell space enter create file k s ≡ (ok exit, k', s')
      → HasEnded file k exit k'
  launch_graphical_shell-HasEnded create file k k' s s' exit leaves numbered h =
      subst (Ends file k) h (launched leaves file k numbered create s file refl)
