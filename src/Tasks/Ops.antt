-- ===== src/Tasks/Ops.antt =====
-- The operations of task.rs keep the invariant, and none of them panics but `exit_current` where nothing
-- is left to run.
use generic_kernel.Common.{
  ℕ, zero, suc, ◌+◌, ◌<◌, ◌≤◌, ◌≡◌, ◌≢◌, refl, sym, ap, subst, ◌∙◌, Bool, true, false, not, List,
  [], ◌∷◌, ◌++◌, Option, none, some, Result, ok, err, ◌>>=◌, arith, length, get_elem?, ◌⊎◌, inl,
  inr, ltb, ◌==◌, u64_mod, length-append, if◌then◌else◌,
}
use generic_kernel.Tasks.{
  Task, Scheduler, InternalState, Panic, Switch, wake_sleepers, set_state, next_ready, dispatch,
  resume_or, requeue, running, ready, exited, sleeping, saturating_add, found, yield_now,
  sleep_ticks, exit_current, spawn, init, boot_task, worker_name, new_task, boot_state, successor,
  is_running, task_at,
}
use generic_kernel.Tasks.Lookup.{
  Changed, set_state-Changed, set_state-succeeds, get_elem?-lt, get_elem?-append,
  get_elem?-append_inv,
}
use generic_kernel.Tasks.Ready.{Searched, next_ready-Searched, ready_at}
use generic_kernel.Tasks.Inv.{IsValid, IsParked, Changed-IsParked, wake_sleepers-IsValid}
use generic_kernel.Tasks.Resume.{
  Resumed, chosen, resume_or-Resumed, dispatch-Resumed, next_ready-lt,
}

-- The operation has put the current task into the state `st`, and chosen the next one.
pub record Passed (now : ℕ) (st : InternalState) (s : Scheduler)
    (r : Result Panic (Scheduler × Option Switch)) : Type 0 where
  pub queued : Scheduler
  pub put : Changed s.current st (wake_sleepers now s) queued
  pub parked : IsParked queued
  pub resumed : Resumed queued (chosen (next_ready queued) queued.current) r

put_aside :
    (now : ℕ) (st : InternalState) (s : Scheduler)
    → IsValid s
    → st ≢ running
    → (q : Scheduler) × (set_state s.current st (wake_sleepers now s) ≡ ok q)
      × Changed s.current st (wake_sleepers now s) q
      × IsParked q
put_aside now st s v stops =
    let v' = wake_sleepers-IsValid now s v in
    let (q, e) =
      set_state-succeeds s.current st (wake_sleepers now s)
        (get_elem?-lt _ s.current v'.task v'.here) in
    let c = set_state-Changed s.current st (wake_sleepers now s) q e in
    (q, e, c, Changed-IsParked (wake_sleepers now s) q v' c stops)

ready-running : ready ≢ running
ready-running h = cc

yield_step :
    (now : ℕ) (s q : Scheduler) (t : Task)
    → s.initialized ≡ true
    → get_elem? (wake_sleepers now s).tasks s.current ≡ some t
    → t.state ≡ running
    → set_state s.current ready (wake_sleepers now s) ≡ ok q
    → yield_now now s ≡ resume_or (next_ready q) q
unfolding yield_now requeue
yield_step now s q t live here runs e =
    let woken = wake_sleepers now s in
    ap
      (λ b.
        if not b
        then ok (s, none)
        else task_at s.current woken >>= λ t.
            requeue t woken >>= λ queued. resume_or (next_ready queued) queued)
      live
    ∙ ap (λ o. found o >>= λ t. requeue t woken >>= λ queued. resume_or (next_ready queued) queued)
        here
    ∙ ap
        (λ st. (if is_running st then set_state s.current ready woken else ok woken) >>= λ queued.
          resume_or (next_ready queued) queued)
        runs
    ∙ ap (λ r. r >>= λ queued. resume_or (next_ready queued) queued) e

sleep_step :
    (ticks start now : ℕ) (s q : Scheduler)
    → s.initialized ≡ true
    → set_state s.current (sleeping (saturating_add start (suc ticks))) (wake_sleepers now s) ≡ ok q
    → sleep_ticks (suc ticks) start now s ≡ resume_or (next_ready q) q
unfolding sleep_ticks
sleep_step ticks start now s q live e =
    let nonzero : (suc ticks == 0) ≡ false = ground arith in
    ap
      (λ b.
        if b
        then yield_now now s
        else if not s.initialized
        then ok (s, none)
        else set_state s.current (sleeping (saturating_add start (suc ticks))) (wake_sleepers now s)
          >>= λ parked. resume_or (next_ready parked) parked)
      nonzero
    ∙ ap
        (λ b.
          if not b
          then ok (s, none)
          else set_state s.current (sleeping (saturating_add start (suc ticks)))
              (wake_sleepers now s)
            >>= λ parked. resume_or (next_ready parked) parked)
        live
    ∙ ap (λ r. r >>= λ parked. resume_or (next_ready parked) parked) e

pub yield_now-Passed :
    (now : ℕ) (s : Scheduler)
    → IsValid s
    → s.initialized ≡ true
    → Passed now ready s (yield_now now s)
yield_now-Passed now s v live =
    let v' = wake_sleepers-IsValid now s v in
    let (q, e, c, p) = put_aside now ready s v ready-running in
    let step : yield_now now s ≡ resume_or (next_ready q) q =
      yield_step now s q v'.task live v'.here v'.runs e in
    record {
      queued = q;
      put = c;
      parked = p;
      resumed =
          subst (Resumed q (chosen (next_ready q) q.current)) (sym step) (resume_or-Resumed q p);
    }

pub sleep_ticks-Passed :
    (ticks start now : ℕ) (s : Scheduler)
    → IsValid s
    → s.initialized ≡ true
    → Passed now
        (sleeping (saturating_add start (suc ticks)))
        s
        (sleep_ticks (suc ticks) start now s)
sleep_ticks-Passed ticks start now s v live =
    let (q, e, c, p) =
      put_aside now (sleeping (saturating_add start (suc ticks))) s v (λ h. absurd (cc)) in
    let step : sleep_ticks (suc ticks) start now s ≡ resume_or (next_ready q) q =
      sleep_step ticks start now s q live e in
    record {
      queued = q;
      put = c;
      parked = p;
      resumed =
          subst (Resumed q (chosen (next_ready q) q.current)) (sym step) (resume_or-Resumed q p);
    }

abbrev pub Continues : Result Panic (Scheduler × Option Switch) → Type 0
Continues r = (s' : Scheduler) × (sw : Option Switch) × (r ≡ ok (s', sw)) × IsValid s'

-- A yield never panics, and leaves exactly one task running, the current one.
pub yield_now-IsValid :
    (now : ℕ) (s : Scheduler) → IsValid s → s.initialized ≡ true → Continues (yield_now now s)
yield_now-IsValid now s v live =
    let p = yield_now-Passed now s v live in
    (p.resumed.state, p.resumed.switch, p.resumed.done, p.resumed.valid)

-- A sleep of any number of ticks never panics, and leaves exactly one task running, the current one.
pub sleep_ticks-IsValid :
    (ticks start now : ℕ) (s : Scheduler)
    → IsValid s
    → s.initialized ≡ true
    → Continues (sleep_ticks ticks start now s)
unfolding sleep_ticks
sleep_ticks-IsValid zero start now s v live = yield_now-IsValid now s v live
sleep_ticks-IsValid (suc ticks) start now s v live =
    let p = sleep_ticks-Passed ticks start now s v live in
    (p.resumed.state, p.resumed.switch, p.resumed.done, p.resumed.valid)

-- The end of a task: it never runs again, or there is nothing that could run in its place.
abbrev pub Ended : ℕ → Scheduler → Result Panic (Scheduler × Option Switch) → Type 0
Ended now s r =
    (q : Scheduler) × Changed s.current exited (wake_sleepers now s) q
    × ((Continues r × ((n : ℕ) × (next_ready q ≡ some n) × Resumed q n r))
        ⊎ ((r ≡ err Panic.no_runnable_successor)
            × ((k : ℕ) → 1 ≤ k → k < length q.tasks → ready_at q.tasks q.current k ≡ false)))

-- `exit_current` marks the current task as exited and runs a ready one; it panics exactly where no other
-- task is ready after the sleepers were woken, asleep as they may be.
pub exit_current-Ended : (now : ℕ) (s : Scheduler) → IsValid s → Ended now s (exit_current now s)
unfolding exit_current
exit_current-Ended now s v =
    let (q, e, c, p) = put_aside now exited s v (λ h. absurd (cc)) in
    let step : exit_current now s ≡ successor (next_ready q) >>= (λ n. dispatch n q) =
      ap (λ r. r >>= λ gone. successor (next_ready gone) >>= λ n. dispatch n gone) e in
    (q, c, go q p (next_ready q) refl (exit_current now s) step)
  where
    go :
        (q : Scheduler)
        → IsParked q
        → (o : Option ℕ) → next_ready q ≡ o
        → (r : Result Panic (Scheduler × Option Switch)) → r ≡ successor o >>= (λ n. dispatch n q)
        → (Continues r × ((n : ℕ) × (next_ready q ≡ some n) × Resumed q n r))
          ⊎ ((r ≡ err Panic.no_runnable_successor)
              × ((k : ℕ) → 1 ≤ k → k < length q.tasks → ready_at q.tasks q.current k ≡ false))
    go q p none e r same =
        inr (same, subst (Searched q.tasks q.current 1 (length q.tasks)) e (next_ready-Searched q))
    go q p (some n) e r same =
        let low = next_ready-lt q n (omega (arith, p.in_range)) e in
        let next = subst (Resumed q n) (sym same) (dispatch-Resumed q n p low) in
        inl ((next.state, next.switch, next.done, next.valid), (n, e, next))

-- `spawn` on its success: the table has one more task, which is ready.
spawned-IsValid :
    (name : List ℕ) (entry base : ℕ) (s : Scheduler)
    → IsValid s
    → IsValid (record s {
      next_id = s.next_id + 1;
      tasks = s.tasks ++ (new_task name entry base s.next_id ∷ []);
    })
spawned-IsValid name entry base s v =
    let t : Task = new_task name entry base s.next_id in
    record {
      task = v.task;
      here = get_elem?-append s.tasks (t ∷ []) s.current v.task v.here;
      runs = v.runs;
      alone = λ j u there h. elim (get_elem?-append_inv s.tasks t j u there) [
        | inl old ↦ v.alone j u old h
        | inr p ↦
            let x : ready ≡ running = ap (λ x. x.state) (sym p.1) ∙ h in absurd (ready-running x)
      ];
      ids = λ j u there. elim (get_elem?-append_inv s.tasks t j u there) [
        | inl old ↦ v.ids j u old
        | inr p ↦ ap (λ x. x.id) p.1 ∙ v.next ∙ sym p.0
      ];
      next = omega (arith, length-append s.tasks (t ∷ []), v.next);
    }

-- Spawning keeps the invariant, on the branches that refuse as well.
pub spawn-IsValid :
    (name : List ℕ) (entry base : ℕ) (s : Scheduler)
    → IsValid s
    → IsValid (spawn name entry base s).1
unfolding spawn
spawn-IsValid name entry base s v = go s.initialized (ltb (s.next_id + 1) u64_mod)
  where
    go :
        (live fits : Bool)
        → IsValid
            (if not live
              then (none, s)
              else elim (if fits then some (s.next_id + 1) else none)
                  as (λ _. Option ℕ × Scheduler) [
                    | none ↦ (none, s)
                    | some next_id ↦ (
                      some s.next_id,
                      record s {
                        next_id = next_id;
                        tasks = s.tasks ++ (new_task name entry base s.next_id ∷ []);
                      },
                    )
                  ]).1
    go false fits = v
    go true false = v
    go true true = spawned-IsValid name entry base s v

-- The state in which `init` spawns the worker.
abbrev pub booted : Scheduler
booted = record boot_state { tasks = boot_task ∷ []; initialized = true }

pub booted-IsValid : IsValid booted
booted-IsValid = record {
  task = boot_task;
  here = refl;
  runs = refl;
  alone = only;
  ids = numbered;
  next = refl;
}
  where
    only : (j : ℕ) (t : Task) → get_elem? (boot_task ∷ []) j ≡ some t → t.state ≡ running → 0 ≡ j
    only zero t there h = refl
    only (suc j) t there h = absurd (cc)

    numbered : (j : ℕ) (t : Task) → get_elem? (boot_task ∷ []) j ≡ some t → t.id ≡ j
    numbered zero t there = let same : boot_task ≡ t = cc in sym (ap (λ x. x.id) same)
    numbered (suc j) t there = absurd (cc)

-- `init` succeeds at start-up and sets the invariant up.
pub init_tasks-IsValid :
    (housekeeping base : ℕ)
    → (s : Scheduler) × (init housekeeping base boot_state ≡ ok s) × IsValid s
unfolding init spawn
init_tasks-IsValid housekeeping base = (
  (spawn worker_name housekeeping base booted).1,
  refl,
  spawn-IsValid worker_name housekeeping base booted booted-IsValid,
)
