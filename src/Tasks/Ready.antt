-- ===== src/Tasks/Ready.antt =====
-- `next_ready` of task.rs is a round robin: it returns the first ready task after the current one.
use generic_kernel.Common.{
  ℕ, zero, suc, ◌+◌, ◌-◌, ◌%◌, ◌≤◌, ◌<◌, ◌≡◌, refl, subst, Bool, true, false, List, Option, none,
  some, length, get_elem?, arith, Bool-cases, inl, inr, leb, ltb,
}
use generic_kernel.Tasks.{Task, Scheduler, ready_from, next_ready, task_is_ready}

-- Is the task `offset` places after `current` ready, counting round the table?
abbrev pub ready_at : List Task → ℕ → ℕ → Bool
ready_at ts current offset = task_is_ready (get_elem? ts ((current + offset) % length ts))

-- The outcome of a search of the offsets `[lo, hi)`: all of them fail, or a first one succeeds.
abbrev pub Searched : List Task → ℕ → ℕ → ℕ → Option ℕ → Type 0
Searched ts current lo hi none = (k : ℕ) → lo ≤ k → k < hi → ready_at ts current k ≡ false
Searched ts current lo hi (some i) =
    (offset : ℕ) × (lo ≤ offset)
    × (offset < hi)
    × (i ≡ (current + offset) % length ts)
    × (ready_at ts current offset ≡ true)
    × ((k : ℕ) → lo ≤ k → k < offset → ready_at ts current k ≡ false)

passed :
    (ts : List Task) (current lo hi : ℕ) (o : Option ℕ)
    → ready_at ts current lo ≡ false
    → Searched ts current (suc lo) hi o
    → Searched ts current lo hi o
passed ts current lo hi none busy rest = λ k low high. elim (Bool-cases (ltb lo k)) [
  | inl after ↦ rest k (ground arith) high
  | inr at ↦
      let here : lo ≡ k = ground arith in subst (λ x. ready_at ts current x ≡ false) here busy
]
passed ts current lo hi (some i) busy (offset, low, high, at, yes_ready, rest) = (
  offset,
  omega arith,
  high,
  at,
  yes_ready,
  λ k low' high'. elim (Bool-cases (ltb lo k)) [
    | inl after ↦ rest k (ground arith) high'
    | inr here ↦
        let same : lo ≡ k = ground arith in subst (λ x. ready_at ts current x ≡ false) same busy
  ],
)

ready_from-Searched :
    (rounds lo current : ℕ) (ts : List Task)
    → Searched ts current lo (lo + rounds) (ready_from rounds lo current ts)
unfolding ready_from
ready_from-Searched zero lo current ts = λ k low high. absurd (omega arith)
ready_from-Searched (suc rounds) lo current ts = elim (Bool-cases (ready_at ts current lo)) [
  | inl here ↦
      rw (here, ready_from)
        (lo, omega arith, omega arith, refl, here, λ k low high. absurd (omega arith))
  | inr busy ↦
      let next : suc lo + rounds ≡ lo + suc rounds = omega arith in
      rw (busy, ready_from)
        (passed ts current lo (lo + suc rounds) (ready_from rounds (suc lo) current ts) busy (
          subst (λ h. Searched ts current (suc lo) h (ready_from rounds (suc lo) current ts)) next
            (ready_from-Searched rounds (suc lo) current ts)))
]

-- `next_ready` returns the ready task that comes first after the current one, counting round the table;
-- it returns nothing only when no other task is ready.
pub next_ready-Searched :
    (s : Scheduler) → Searched s.tasks s.current 1 (length s.tasks) (next_ready s)
unfolding next_ready
next_ready-Searched s = elim (Bool-cases (leb (length s.tasks) 1)) [
  | inl few ↦ rw (few, next_ready) (λ k low high. absurd (ground arith))
  | inr many ↦
      let size : 1 + (length s.tasks - 1) ≡ length s.tasks = ground arith in
      rw (many, next_ready)
        (subst
          (λ h.
            Searched s.tasks s.current 1 h (ready_from (length s.tasks - 1) 1 s.current s.tasks))
          size (ready_from-Searched (length s.tasks - 1) 1 s.current s.tasks))
]
