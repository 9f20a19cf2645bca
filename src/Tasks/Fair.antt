-- ===== src/Tasks/Fair.antt =====
-- The round robin of task.rs is fair: a ready task runs after a bounded number of yields.
use generic_kernel.Common.{
  ℕ, zero, suc, ◌+◌, ◌-◌, ◌%◌, ◌<◌, ◌≤◌, ◌≡◌, ◌≢◌, refl, sym, ap, subst, ◌∙◌, true, false, List, [],
  ◌∷◌, take, Option, none, some, Result, ok, ◌>>=◌, arith, length, get_elem?, ◌⊎◌, inl, inr,
  Bool-cases, ltb, ◌==◌, ==_iff,
}
use native.Mathlib.Nat.{mod-add-mod}
use generic_kernel.Tasks.{
  Task, Scheduler, Panic, Switch, wake_sleepers, wake_task, wake, next_ready, running, ready,
  yield_now, is_ready, task_is_ready,
}
use generic_kernel.Tasks.Lookup.{Changed, length-map, get_elem?-map-some}
use generic_kernel.Tasks.Ready.{Searched, next_ready-Searched, ready_at}
use generic_kernel.Tasks.Inv.{IsValid}
use generic_kernel.Tasks.Resume.{chosen}
use generic_kernel.Tasks.Ops.{yield_now-Passed}

-- The task `j` is ready, and stands `o` places after the current one, counting round the table.
pub record Waits (j o : ℕ) (s : Scheduler) : Type 0 where
  pub task : Task
  pub there : get_elem? s.tasks j ≡ some task
  pub is_waiting : task.state ≡ ready
  pub after : 1 ≤ o
  pub before : o < length s.tasks
  pub at : (s.current + o) % length s.tasks ≡ j

-- Still in the queue, before anything is chosen.
queued-Waits :
    (now j o : ℕ) (s q : Scheduler)
    → IsValid s
    → Changed s.current ready (wake_sleepers now s) q
    → Waits j o s
    → Waits j o q
unfolding wake
queued-Waits now j o s q v c w =
    let apart : s.current ≢ j = λ e.
      let same : some v.task ≡ some w.task = sym v.here ∙ ap (get_elem? s.tasks) e ∙ w.there in
      let t : v.task ≡ w.task = cc in
      let clash : running ≡ ready = sym v.runs ∙ ap (λ x. x.state) t ∙ w.is_waiting in
      absurd (cc) in
    let size : length q.tasks ≡ length s.tasks =
      c.length_kept ∙ length-map (wake_task now) s.tasks in
    record {
      task = wake_task now w.task;
      there = c.others j apart ∙ get_elem?-map-some (wake_task now) s.tasks j w.task w.there;
      is_waiting = ap (wake now) w.is_waiting;
      after = w.after;
      before = subst (λ n. o < n) (sym size) w.before;
      at =
          ap (λ k. (k + o) % length q.tasks) c.current_kept
          ∙ ap (λ n. (s.current + o) % n) size
          ∙ w.at;
    }

-- The chosen task is `j`, or comes before it, so that `j` is nearer than it was.
abbrev pub Nearer : ℕ → ℕ → Scheduler → Type 0
Nearer j o s = (s.current ≡ j) ⊎ ((p : ℕ) × (p < o) × Waits j p s)

chosen-Nearer :
    (j o : ℕ) (q s' : Scheduler) (c : Option ℕ)
    → Waits j o q
    → Searched q.tasks q.current 1 (length q.tasks) c
    → s'.current ≡ chosen c q.current
    → ((k : ℕ) → chosen c q.current ≢ k → get_elem? s'.tasks k ≡ get_elem? q.tasks k)
    → length s'.tasks ≡ length q.tasks
    → Nearer j o s'
chosen-Nearer j o q s' c w = go c
  where
    seen : ready_at q.tasks q.current o ≡ true
    seen =
        ap (λ i. task_is_ready (get_elem? q.tasks i)) w.at
        ∙ ap task_is_ready w.there
        ∙ ap is_ready w.is_waiting

    go :
        (c : Option ℕ)
        → Searched q.tasks q.current 1 (length q.tasks) c
        → s'.current ≡ chosen c q.current
        → ((k : ℕ) → chosen c q.current ≢ k → get_elem? s'.tasks k ≡ get_elem? q.tasks k)
        → length s'.tasks ≡ length q.tasks
        → Nearer j o s'
    go none search place others size =
        let clash : true ≡ false = sym seen ∙ search o w.after w.before in absurd (cc)
    go (some n) (m, low, high, at, yes_ready, first) place others size =
        elim (Bool-cases (n == j)) [
          | inl e ↦ inl (place ∙ (==_iff n j).0 e)
          | inr e ↦ elim (Bool-cases (ltb m o)) [
            | inr late ↦ elim (Bool-cases (ltb o m)) [
              | inl earlier ↦
                  let clash : true ≡ false = sym seen ∙ first o w.after (ground arith) in
                  absurd (cc)
              | inr same ↦
                  let one : m ≡ o = ground arith in
                  inl (place ∙ at ∙ ap (λ k. (q.current + k) % length q.tasks) one ∙ w.at)
            ]
            | inl sooner ↦
                let less : m < o = ground arith in
                let apart : n ≢ j = ground arith in
                let sum : q.current + m + (o - m) ≡ q.current + o = omega arith in
                inr (
                  o - m,
                  omega arith,
                  record {
                    task = w.task;
                    there = others j apart ∙ w.there;
                    is_waiting = w.is_waiting;
                    after = omega arith;
                    before = omega (arith, w.before, size);
                    at =
                        ap (λ k. (k + (o - m)) % length s'.tasks) (place ∙ at)
                        ∙ ap (λ l. ((q.current + m) % length q.tasks + (o - m)) % l) size
                        ∙ mod-add-mod (q.current + m) (length q.tasks) (o - m)
                        ∙ ap (λ k. k % length q.tasks) sum
                        ∙ w.at;
                  },
                )
          ]
        ]

-- One yield.
pub yield_now-Nearer :
    (now j o : ℕ) (s : Scheduler)
    → IsValid s
    → s.initialized ≡ true
    → Waits j o s
    → (s' : Scheduler) × (sw : Option Switch) × (yield_now now s ≡ ok (s', sw))
      × IsValid s'
      × (s'.initialized ≡ true)
      × Nearer j o s'
yield_now-Nearer now j o s v live w =
    let p = yield_now-Passed now s v live in
    let r = p.resumed in
    let q = p.queued in
    (
      r.state,
      r.switch,
      r.done,
      r.valid,
      r.live ∙ p.put.initialized_kept ∙ live,
      chosen-Nearer j o q r.state (next_ready q) (queued-Waits now j o s q v p.put w)
          (next_ready-Searched q) r.place r.others r.size,
    )

-- Yields at the given ticks, one after another: each is made by the task that runs by then.
abbrev pub turns : List ℕ → Scheduler → Result Panic Scheduler
turns [] s = ok s
turns (now ∷ times) s = yield_now now s >>= λ p. turns times p.0

served :
    (o j : ℕ) (times : List ℕ) (s : Scheduler)
    → o ≤ length times
    → IsValid s
    → s.initialized ≡ true
    → Nearer j (suc o) s
    → (k : ℕ) × (k ≤ o)
      × (s' : Scheduler) × (turns (take k times) s ≡ ok s')
      × (s'.current ≡ j)
      × IsValid s'
served o j times s enough v live (inl here) = (0, omega arith, s, refl, here, v)
served zero j times s enough v live (inr (p, low, w)) = absurd (omega (arith, w.after))
served (suc o) j [] s enough v live (inr (p, low, w)) = absurd (omega arith)
served (suc o) j (now ∷ times) s enough v live (inr (p, low, w)) =
    let (s1, sw, e, v1, live1, near) = yield_now-Nearer now j p s v live w in
    let near' : Nearer j (suc o) s1 = elim near [
      | inl here ↦ inl here
      | inr (q, less, w') ↦ inr (q, omega arith, w')
    ] in
    let (k, few, s', run, here, v') = served o j times s1 (omega arith) v1 live1 near' in
    (suc k, omega arith, s', ap (λ r. r >>= λ p. turns (take k times) p.0) e ∙ run, here, v')

-- A ready task that stands `o` places after the current one runs after at most `o` yields, whatever
-- the ticks are and whoever else becomes ready meanwhile.
pub turns-served :
    (j o : ℕ) (times : List ℕ) (s : Scheduler)
    → o ≤ length times
    → IsValid s
    → s.initialized ≡ true
    → Waits j o s
    → (k : ℕ) × (k ≤ o)
      × (s' : Scheduler) × (turns (take k times) s ≡ ok s')
      × (s'.current ≡ j)
      × IsValid s'
turns-served j o times s enough v live w =
    served o j times s enough v live (inr (o, omega arith, w))
