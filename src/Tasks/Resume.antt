-- ===== src/Tasks/Resume.antt =====
-- The end that `yield_now`, `sleep_ticks` and `exit_current` of task.rs share: the next task is chosen
-- and runs.
use generic_kernel.Common.{
  ℕ, ◌+◌, ◌<◌, ◌≡◌, ◌≢◌, refl, sym, ap, subst, Option, none, some, Result, ok, arith, length,
  get_elem?,
}
use native.Mathlib.Nat.{mod-lt}
use generic_kernel.Tasks.{
  Scheduler, Panic, Switch, next_ready, dispatch, resume_or, running, saturating_add,
}
use generic_kernel.Tasks.Lookup.{set_state-Changed, set_state-succeeds}
use generic_kernel.Tasks.Ready.{Searched, next_ready-Searched}
use generic_kernel.Tasks.Inv.{IsValid, IsParked, Changed-IsValid}

-- The task that goes on: the one that was found, or the current one.
abbrev pub chosen : Option ℕ → ℕ → ℕ
chosen none current = current
chosen (some next) current = next

-- The task `n` runs, and no other task has changed.
pub record Resumed (q : Scheduler) (n : ℕ) (r : Result Panic (Scheduler × Option Switch))
    : Type 0 where
  pub state : Scheduler
  pub switch : Option Switch
  pub done : r ≡ ok (state, switch)
  pub valid : IsValid state
  pub place : state.current ≡ n
  pub others : (j : ℕ) → n ≢ j → get_elem? state.tasks j ≡ get_elem? q.tasks j
  pub size : length state.tasks ≡ length q.tasks
  pub live : state.initialized ≡ q.initialized

pub dispatch-Resumed :
    (q : Scheduler) (n : ℕ) → IsParked q → n < length q.tasks → Resumed q n (dispatch n q)
unfolding dispatch
dispatch-Resumed q n p low =
    let (s, e) = set_state-succeeds n running q low in
    let c = set_state-Changed n running q s e in
    let switches : ℕ = saturating_add q.context_switches 1 in
    record {
      state = record s { current = n; context_switches = switches };
      switch = some (record { old = q.current; new_rsp = c.task.rsp });
      done = rw (e, c.after) refl;
      valid = Changed-IsValid q s switches p c;
      place = refl;
      others = c.others;
      size = c.length_kept;
      live = c.initialized_kept;
    }

go_on-Resumed : (q : Scheduler) → IsParked q → Resumed q q.current (resume_or none q)
unfolding resume_or
go_on-Resumed q p =
    let (s, e) = set_state-succeeds q.current running q p.in_range in
    let c = set_state-Changed q.current running q s e in
    let same : record s { current = q.current; context_switches = s.context_switches } ≡ s =
      ap (λ k. record s { current = k }) (sym c.current_kept) in
    record {
      state = s;
      switch = none;
      done = rw e refl;
      valid = subst IsValid same (Changed-IsValid q s s.context_switches p c);
      place = c.current_kept;
      others = c.others;
      size = c.length_kept;
      live = c.initialized_kept;
    }

pub next_ready-lt :
    (q : Scheduler) (n : ℕ) → 0 < length q.tasks → next_ready q ≡ some n → n < length q.tasks
next_ready-lt q n some_task e =
    let (offset, low, high, at, here, before) =
      subst (Searched q.tasks q.current 1 (length q.tasks)) e (next_ready-Searched q) in
    subst (λ k. k < length q.tasks) (sym at) (mod-lt (q.current + offset) some_task)

resume-Resumed :
    (q : Scheduler) (o : Option ℕ)
    → IsParked q
    → next_ready q ≡ o
    → Resumed q (chosen o q.current) (resume_or o q)
unfolding resume_or
resume-Resumed q none p e = go_on-Resumed q p
resume-Resumed q (some n) p e =
    dispatch-Resumed q n p (next_ready-lt q n (omega (arith, p.in_range)) e)

pub resume_or-Resumed :
    (q : Scheduler)
    → IsParked q
    → Resumed q (chosen (next_ready q) q.current) (resume_or (next_ready q) q)
resume_or-Resumed q p = resume-Resumed q (next_ready q) p refl
