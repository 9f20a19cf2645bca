-- ===== src/Tasks/Lookup.antt =====
-- The table of tasks as an array: what `set_state` and the wake-up of the sleepers leave at each index.
use generic_kernel.Common.{
  ℕ, zero, suc, ◌++◌, ◌⊎◌, inl, inr, ◌<◌, ◌≡◌, ◌≢◌, refl, ap, subst, List, [], ◌∷◌, map, Option,
  none, some, ok, >>=-ok, ◌>>=◌, arith, length, get_elem?, set, get_elem?-set_self,
  get_elem?-set_ne, length-set,
}
use generic_kernel.Tasks.{Task, Scheduler, InternalState, set_state, task_at, found}

module _ {ℓ} {A : Type ℓ} where
  pub length-map : (f : A → A) (xs : List A) → length (map f xs) ≡ length xs
  length-map f [] = refl
  length-map f (x ∷ xs) = ap suc (length-map f xs)

  pub get_elem?-map-some :
      (f : A → A) (xs : List A) (i : ℕ) (x : A)
      → get_elem? xs i ≡ some x
      → get_elem? (map f xs) i ≡ some (f x)
  get_elem?-map-some f [] i x h = absurd (cc)
  get_elem?-map-some f (y ∷ ys) zero x h = cc
  get_elem?-map-some f (y ∷ ys) (suc i) x h = get_elem?-map-some f ys i x h

  -- What stands in the image has stood in the list.
  pub get_elem?-map_inv :
      (f : A → A) (xs : List A) (i : ℕ) (y : A)
      → get_elem? (map f xs) i ≡ some y
      → (x : A) × (get_elem? xs i ≡ some x) × (y ≡ f x)
  get_elem?-map_inv f [] i y h = absurd (cc)
  get_elem?-map_inv f (x ∷ xs) zero y h = (x, refl, cc)
  get_elem?-map_inv f (x ∷ xs) (suc i) y h = get_elem?-map_inv f xs i y h

  pub get_elem?-lt : (xs : List A) (i : ℕ) (x : A) → get_elem? xs i ≡ some x → i < length xs
  get_elem?-lt [] i x h = absurd (cc)
  get_elem?-lt (y ∷ ys) zero x h = omega arith
  get_elem?-lt (y ∷ ys) (suc i) x h = omega (arith, get_elem?-lt ys i x h)

  pub lt-get_elem? : (xs : List A) (i : ℕ) → i < length xs → (x : A) × (get_elem? xs i ≡ some x)
  lt-get_elem? [] i h = absurd (omega arith)
  lt-get_elem? (x ∷ xs) zero h = (x, refl)
  lt-get_elem? (x ∷ xs) (suc i) h = lt-get_elem? xs i (omega arith)

  pub get_elem?-append :
      (xs ys : List A) (i : ℕ) (x : A) → get_elem? xs i ≡ some x → get_elem? (xs ++ ys) i ≡ some x
  get_elem?-append [] ys i x h = absurd (cc)
  get_elem?-append (y ∷ xs) ys zero x h = h
  get_elem?-append (y ∷ xs) ys (suc i) x h = get_elem?-append xs ys i x h

  pub get_elem?-append_inv :
      (xs : List A) (y : A) (i : ℕ) (x : A)
      → get_elem? (xs ++ (y ∷ [])) i ≡ some x
      → (get_elem? xs i ≡ some x) ⊎ ((i ≡ length xs) × (x ≡ y))
  get_elem?-append_inv [] y zero x h = inr (refl, cc)
  get_elem?-append_inv [] y (suc i) x h = absurd (cc)
  get_elem?-append_inv (z ∷ xs) y zero x h = inl h
  get_elem?-append_inv (z ∷ xs) y (suc i) x h = elim (get_elem?-append_inv xs y i x h) [
    | inl old ↦ inl old
    | inr p ↦ inr (ap suc p.0, p.1)
  ]

-- Only the state of the task at `i` has changed.
pub record Changed (i : ℕ) (st : InternalState) (s s' : Scheduler) : Type 0 where
  pub task : Task
  pub before : get_elem? s.tasks i ≡ some task
  pub after : get_elem? s'.tasks i ≡ some (record task { state = st })
  pub others : (j : ℕ) → i ≢ j → get_elem? s'.tasks j ≡ get_elem? s.tasks j
  pub length_kept : length s'.tasks ≡ length s.tasks
  pub current_kept : s'.current ≡ s.current
  pub next_kept : s'.next_id ≡ s.next_id
  pub initialized_kept : s'.initialized ≡ s.initialized

set-Changed :
    (i : ℕ) (st : InternalState) (s : Scheduler) (t : Task)
    → get_elem? s.tasks i ≡ some t
    → Changed i st s (record s { tasks = set s.tasks i (record t { state = st }) })
set-Changed i st s t there = record {
  task = t;
  before = there;
  after = get_elem?-set_self s.tasks i (record t { state = st }) (get_elem?-lt s.tasks i t there);
  others = λ j apart. get_elem?-set_ne s.tasks (record t { state = st }) apart;
  length_kept = length-set s.tasks i (record t { state = st });
  current_kept = refl;
  next_kept = refl;
  initialized_kept = refl;
}

found-ok : (o : Option Task) (t : Task) → found o ≡ ok t → o ≡ some t
found-ok none t h = absurd (cc)
found-ok (some u) t h = cc

pub task_at-ok :
    (i : ℕ) (s : Scheduler) (t : Task) → task_at i s ≡ ok t → get_elem? s.tasks i ≡ some t
task_at-ok i s t h = found-ok (get_elem? s.tasks i) t h

pub set_state-Changed :
    (i : ℕ) (st : InternalState) (s s' : Scheduler) → set_state i st s ≡ ok s' → Changed i st s s'
unfolding set_state
set_state-Changed i st s s' h =
    let (t, there, same) = >>=-ok (task_at i s) _ h in
    let e : record s { tasks = set s.tasks i (record t { state = st }) } ≡ s' = cc in
    subst (Changed i st s) e (set-Changed i st s t (task_at-ok i s t there))

-- It fails only on an index out of bounds.
pub set_state-succeeds :
    (i : ℕ) (st : InternalState) (s : Scheduler)
    → i < length s.tasks
    → (s' : Scheduler) × (set_state i st s ≡ ok s')
unfolding set_state
set_state-succeeds i st s h =
    let (t, there) = lt-get_elem? s.tasks i h in
    (
      record s { tasks = set s.tasks i (record t { state = st }) },
      ap (λ o. found o >>= λ t. ok (record s { tasks = set s.tasks i (record t { state = st }) }))
          there,
    )
