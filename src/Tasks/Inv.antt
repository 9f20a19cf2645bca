-- ===== src/Tasks/Inv.antt =====
-- The invariant of the scheduler of task.rs: one task runs, the current one, and the ids count the tasks.
use generic_kernel.Common.{
  ℕ, ◌<◌, ◌≡◌, ◌≢◌, refl, sym, ap, subst, ◌∙◌, some, arith, length, get_elem?, ◌⊎◌, inl, inr,
  Bool-cases, leb, ◌==◌, ==_iff,
}
use generic_kernel.Tasks.{
  Task, Scheduler, InternalState, wake_task, wake, wake_sleepers, running, ready, exited, sleeping,
}
use generic_kernel.Tasks.Lookup.{
  Changed, length-map, get_elem?-map-some, get_elem?-map_inv, get_elem?-lt,
}

-- The id of a task is its index.
abbrev pub Numbered : Scheduler → Type 0
Numbered s = (j : ℕ) (t : Task) → get_elem? s.tasks j ≡ some t → t.id ≡ j

pub record IsValid (s : Scheduler) : Type 0 where
  pub task : Task
  pub here : get_elem? s.tasks s.current ≡ some task
  pub runs : task.state ≡ running
  pub alone : (j : ℕ) (t : Task) → get_elem? s.tasks j ≡ some t → t.state ≡ running → s.current ≡ j
  pub ids : Numbered s
  pub next : s.next_id ≡ length s.tasks

-- Between two tasks: none runs.
pub record IsParked (s : Scheduler) : Type 0 where
  pub in_range : s.current < length s.tasks
  pub idle : (j : ℕ) (t : Task) → get_elem? s.tasks j ≡ some t → t.state ≢ running
  pub ids : Numbered s
  pub next : s.next_id ≡ length s.tasks

wake-running : (now : ℕ) (st : InternalState) → wake now st ≡ running → st ≡ running
unfolding wake
wake-running now running h = refl
wake-running now ready h = absurd (cc)
wake-running now exited h = absurd (cc)
wake-running now (sleeping until) h = elim (Bool-cases (leb until now)) [
  | inl due ↦ let h' : ready ≡ running = rw (due, wake) at h in absurd (cc)
  | inr early ↦ let h' : sleeping until ≡ running = rw (early, wake) at h in absurd (cc)
]

-- Waking the sleepers keeps the invariant.
pub wake_sleepers-IsValid : (now : ℕ) (s : Scheduler) → IsValid s → IsValid (wake_sleepers now s)
unfolding wake
wake_sleepers-IsValid now s v = record {
  task = wake_task now v.task;
  here = get_elem?-map-some (wake_task now) s.tasks s.current v.task v.here;
  runs = ap (wake now) v.runs;
  alone = λ j t there h.
      let (u, was, same) = get_elem?-map_inv (wake_task now) s.tasks j t there in
      v.alone j u was (wake-running now u.state (sym (ap (λ x. x.state) same) ∙ h));
  ids = λ j t there.
      let (u, was, same) = get_elem?-map_inv (wake_task now) s.tasks j t there in
      ap (λ x. x.id) same ∙ v.ids j u was;
  next = v.next ∙ sym (length-map (wake_task now) s.tasks);
}

-- A change of one task's state, seen from any index.
Changed-at :
    {i : ℕ} {st : InternalState} (s s' : Scheduler) (c : Changed i st s s') (j : ℕ) (t : Task)
    → get_elem? s'.tasks j ≡ some t
    → ((i ≡ j) × (t ≡ record c.task { state = st })) ⊎ ((i ≢ j) × (get_elem? s.tasks j ≡ some t))
Changed-at {i} {st} s s' c j t there = elim (Bool-cases (i == j)) [
  | inl same ↦
      let one : i ≡ j = (==_iff i j).0 same in
      let moved : get_elem? s'.tasks j ≡ some (record c.task { state = st }) =
        subst (λ k. get_elem? s'.tasks k ≡ some (record c.task { state = st })) one c.after in
      inl (one, cc)
  | inr other ↦ let apart : i ≢ j = ground arith in inr (apart, sym (c.others j apart) ∙ there)
]

Changed-Numbered :
    {i : ℕ} {st : InternalState} (s s' : Scheduler) → Changed i st s s' → Numbered s → Numbered s'
Changed-Numbered {i} s s' c ids j t there = elim (Changed-at s s' c j t there) [
  | inl p ↦ ap (λ x. x.id) p.1 ∙ ids i c.task c.before ∙ p.0
  | inr p ↦ ids j t p.1
]

-- The current task stops running.
pub Changed-IsParked :
    {st : InternalState} (s s' : Scheduler)
    → IsValid s
    → Changed s.current st s s'
    → st ≢ running
    → IsParked s'
Changed-IsParked s s' v c stops = record {
  in_range =
      subst (λ k. k < length s'.tasks) (sym c.current_kept)
        (get_elem?-lt s'.tasks s.current _ c.after);
  idle = λ j t there h. elim (Changed-at s s' c j t there) [
    | inl p ↦ stops (sym (ap (λ x. x.state) p.1) ∙ h)
    | inr p ↦ p.0 (v.alone j t p.1 h)
  ];
  ids = Changed-Numbered s s' c v.ids;
  next = c.next_kept ∙ v.next ∙ sym c.length_kept;
}

-- A task starts to run.
pub Changed-IsValid :
    {i : ℕ} (s s' : Scheduler) (switches : ℕ)
    → IsParked s
    → Changed i running s s'
    → IsValid (record s' { current = i; context_switches = switches })
Changed-IsValid {i} s s' switches p c = record {
  task = record c.task { state = running };
  here = c.after;
  runs = refl;
  alone = λ j t there h. elim (Changed-at s s' c j t there) [
    | inl q ↦ q.0
    | inr q ↦ absurd (p.idle j t q.1 h)
  ];
  ids = Changed-Numbered s s' c p.ids;
  next = c.next_kept ∙ p.next ∙ sym c.length_kept;
}
