-- ===== src/Frames/Forward.antt =====
-- What `FrameAllocator::allocate` promises: whole pages of the map, each above the ones before.
use generic_kernel.Common.{
  ℕ, zero, suc, ◌+◌, ◌*◌, ◌≤◌, ◌<◌, ◌≡◌, refl, sym, subst, List, [], ◌∷◌, Option, none, some, max,
  ltb, leb, arith, inl, inr, drop, get_elem?, align_up, align_up-AlignedUp, AlignedUp, u64_mod,
  Bool-cases,
}
use generic_kernel.Ranges.{Region}
use generic_kernel.Pmm.{page_size}
use generic_kernel.Frames.{FrameAllocator, try_frame, first_frame, walk, allocate}

abbrev pub IsPage : ℕ → Type 0
IsPage f = (q : ℕ) × (f ≡ q * page_size)

-- A whole page of a region at or above `next`, and above the null page.
abbrev pub Fits : Region → ℕ → ℕ → Type 0
Fits r next f = IsPage f × (next ≤ f) × (page_size ≤ f) × (r.start ≤ f) × (f + page_size ≤ r.end)

abbrev Tried : Region → ℕ → Option (ℕ × ℕ) → Type 0
Tried r next none = (f : ℕ) → r.end < u64_mod → Fits r next f → ⊥
Tried r next (some (f, end)) = Fits r next f × (end ≡ f + page_size)

try_frame-Tried :
    (r : Region) (next : ℕ) (o : Option ℕ)
    → AlignedUp (max (max next r.start) page_size) page_size o
    → Tried r next (try_frame r o)
unfolding try_frame
try_frame-Tried r next none a = λ f word fits. omega (arith, a, fits)
try_frame-Tried r next (some s) (up, near, word, page) =
    elim (Bool-cases (ltb (s + page_size) u64_mod)) [
      | inl small ↦ elim (Bool-cases (leb (s + page_size) r.end)) [
        | inl inside ↦
            rw (small, inside, try_frame)
              ((page, omega arith, omega arith, omega arith, ground arith), refl)
        | inr out ↦ rw (small, out, try_frame) (λ f word' fits. ground (arith, page, fits))
      ]
      | inr over ↦ rw (over, try_frame) (λ f word' fits. ground (arith, page, fits))
    ]

first_frame-Tried : (r : Region) (next : ℕ) → Tried r next (first_frame r next)
unfolding first_frame
first_frame-Tried r next =
    let start : ℕ = max (max next r.start) page_size in
    try_frame-Tried r next (align_up start page_size)
      (align_up-AlignedUp start page_size (12, omega arith, refl))

-- What `allocate` comes to, over the regions that are left.
abbrev pub Outcome : List Region → FrameAllocator → Option ℕ × FrameAllocator → Type 0
Outcome rs s (none, s') =
    (i f : ℕ) (r : Region) → get_elem? rs i ≡ some r → r.end < u64_mod → Fits r s.next f → ⊥
Outcome rs s (some f, s') =
    (i : ℕ) × (r : Region) × (get_elem? rs i ≡ some r) × Fits r s.next f × (s'.next ≡ f + page_size)

missed :
    (r : Region) (rs : List Region) (s s' : FrameAllocator)
    → Tried r s.next none
    → Outcome rs s (none, s')
    → (i f : ℕ) (r' : Region) → get_elem? (r ∷ rs) i ≡ some r'
    → r'.end < u64_mod
    → Fits r' s.next f
    → ⊥
missed r rs s s' tried rest zero f r' at_zero word fits =
    let same : r ≡ r' = cc in
    tried f (subst (λ x. x.end < u64_mod) (sym same) word)
      (subst (λ x. Fits x s.next f) (sym same) fits)
missed r rs s s' tried rest (suc i) f r' later word fits = rest i f r' later word fits

skipped :
    (r : Region) (rs : List Region) (s : FrameAllocator) (o : Option ℕ × FrameAllocator)
    → Tried r s.next none
    → Outcome rs s o
    → Outcome (r ∷ rs) s o
skipped r rs s (none, s') tried rest = missed r rs s s' tried rest
skipped r rs s (some f, s') tried (i, r', there, fits, next) = (suc i, r', there, fits, next)

walk-Outcome : (rs : List Region) (s : FrameAllocator) → Outcome rs s (walk rs s)
unfolding walk
walk-Outcome [] s = λ i f r h. absurd (cc)
walk-Outcome (r ∷ rs) s =
    go (first_frame r s.next) refl (first_frame-Tried r s.next)
      (walk-Outcome rs (record s { index = suc s.index }))
  where
    go :
        (o : Option (ℕ × ℕ))
        → first_frame r s.next ≡ o
        → Tried r s.next o
        → Outcome rs s (walk rs (record s { index = suc s.index }))
        → Outcome (r ∷ rs) s (walk (r ∷ rs) s)
    go none e tried rest = rw (e, walk) (skipped r rs s _ tried rest)
    go (some (f, end)) e (fits, next) rest = rw (e, walk) (zero, r, refl, fits, next)

-- A frame that `allocate` returns is a whole page of one of the regions that are left, above the null
-- page and not below the allocator's mark, which moves past it; when `allocate` returns nothing, no
-- region that is left and ends below 2^64 has such a page.
pub allocate-Outcome : (s : FrameAllocator) → Outcome (drop s.index s.regions) s (allocate s)
unfolding allocate
allocate-Outcome s = walk-Outcome (drop s.index s.regions) s

-- The frames that a number of calls hand out.
abbrev pub hand_out : Option ℕ × FrameAllocator → (FrameAllocator → List ℕ) → List ℕ
hand_out (none, s) rest = []
hand_out (some f, s) rest = f ∷ rest s

abbrev pub frames : ℕ → FrameAllocator → List ℕ
frames zero s = []
frames (suc calls) s = hand_out (allocate s) (frames calls)

-- Each frame begins where the one before it ends, or later; the first at `lo` or later.
abbrev pub Ascending : ℕ → List ℕ → Type 0
Ascending lo [] = Unit {0}
Ascending lo (f ∷ fs) = (lo ≤ f) × Ascending (f + page_size) fs

-- However often `allocate` is called, no two frames that it hands out overlap.
pub frames-Ascending : (calls : ℕ) (s : FrameAllocator) → Ascending s.next (frames calls s)
frames-Ascending zero s = tt
frames-Ascending (suc calls) s = go (allocate s) (allocate-Outcome s) (frames-Ascending calls)
  where
    go :
        (o : Option ℕ × FrameAllocator)
        → Outcome (drop s.index s.regions) s o
        → ((t : FrameAllocator) → Ascending t.next (frames calls t))
        → Ascending s.next (hand_out o (frames calls))
    go (none, t) out rest = tt
    go (some f, t) (i, r, there, fits, next) rest =
        (omega (arith, fits), subst (λ n. Ascending n (frames calls t)) next (rest t))
