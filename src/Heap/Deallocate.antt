-- ===== src/Heap/Deallocate.antt =====
-- What the heap's `deallocate` promises, and that it undoes `allocate`.
use generic_kernel.Common.{
  ℕ, ◌+◌, ◌-◌, ◌≤◌, ◌≡◌, refl, sym, ap, ◌∙◌, subst, true, false, not, ◌&&◌, ◌||◌, List, none, some,
  arith, IsPower, ok, err, leb, u64_mod, Bool-cases, inl, inr,
}
use generic_kernel.Ranges.{Region, Released, overlap, full, table, walk, covers, inside}
use generic_kernel.Ranges.Canon.{bytes-le}
use generic_kernel.Ranges.Walk.{Outcome, walk-Outcome}
use generic_kernel.Heap.{
  HeapState, HeapPanic, Layout, allocate, deallocate, returned, Scanned, taken, block_size,
  total_bytes,
}
use generic_kernel.Heap.Scan.{ScanOutcome}
use generic_kernel.Heap.Inv.{IsValid, free_bytes-le}
use generic_kernel.Heap.Allocate.{crowded, scanned, allocate_shape, scanned-Allocated}

abbrev pub Walked : HeapState → Layout → ℕ → Released → Type 0
Walked h layout s o = Outcome (not (crowded h)) h.start h.end s (s + block_size layout) h.free o

-- A block that lies in the heap.
abbrev pub InHeap : HeapState → Layout → ℕ → Type 0
InHeap h layout s = (h.start ≤ s) × (s + block_size layout ≤ h.end)

abbrev walk_of : HeapState → Layout → ℕ → Released
walk_of h layout s = walk (not (crowded h)) s (s + block_size layout) none h.free

walked :
    (h : HeapState) (layout : Layout) (s : ℕ)
    → IsValid h
    → InHeap h layout s
    → Walked h layout s (walk_of h layout s)
walked h layout s v b =
    walk-Outcome (not (crowded h)) h.end s (s + block_size layout) (omega arith) b.1 h.start none
      h.free v.canon b.0

deallocate_shape :
    (h : HeapState) (layout : Layout) (s : ℕ)
    → IsValid h
    → InHeap h layout s
    → deallocate h s layout ≡ returned h (block_size layout) (walk_of h layout s)
unfolding deallocate
deallocate_shape h layout s v b =
    let word : leb u64_mod (s + block_size layout) ≡ false = ground (arith, v.word) in
    let within : (leb h.start s && leb (s + block_size layout) h.end) ≡ true = ground arith in
    rw (v.ready, word, within)

-- A block outside the heap is a panic.
outside_panics :
    (h h' : HeapState) (layout : Layout) (s : ℕ) → deallocate h s layout ≡ ok h' → InHeap h layout s
unfolding deallocate
outside_panics h h' layout s e =
    elim (Bool-cases (leb h.start s && leb (s + block_size layout) h.end)) [
      | inl within ↦ ground arith
      | inr outside ↦ absurd (ground arith)
    ]

-- The block `[s, s + block_size layout)` has come back to `h`, which became `h'`.
pub record Freed (h : HeapState) (layout : Layout) (s : ℕ) (h' : HeapState) : Type 0 where
  pub valid : IsValid h'
  pub counted : h'.free_bytes ≡ h.free_bytes + block_size layout
  pub put_back : (a : ℕ) → covers h'.free a ≡ inside s (s + block_size layout) a || covers h.free a
  pub was_taken :
      (a : ℕ) → covers h.free a ≡ covers h'.free a && not (inside s (s + block_size layout) a)

table-Freed :
    (h : HeapState) (layout : Layout) (s : ℕ) (t : List Region)
    → IsValid h
    → Walked h layout s (table t)
    → (returned h (block_size layout) (table t)
        ≡ ok (record h { free = t; free_bytes = h.free_bytes + block_size layout }))
      × Freed h layout s (record h { free = t; free_bytes = h.free_bytes + block_size layout })
table-Freed h layout s t v out =
    let (canon, sum, size, tight, al, apart, same) = out in
    let bounded = bytes-le h.start h.end t canon v.ordered in
    let total : h.free_bytes + block_size layout ≤ h.end - h.start =
      omega (arith, v.counted, sum) in
    (
      ground (arith, v.word),
      record {
        valid = record {
          ready = v.ready;
          ordered = v.ordered;
          word = v.word;
          canon = canon;
          fits = ground (arith, v.fits);
          counted = omega (arith, v.counted, sum);
        };
        counted = refl;
        put_back = same;
        was_taken = λ a. ground (arith, same a, apart a);
      },
    )

returned-Freed :
    (h h' : HeapState) (layout : Layout) (s : ℕ) (o : Released)
    → IsValid h
    → Walked h layout s o
    → returned h (block_size layout) o ≡ ok h'
    → Freed h layout s h'
returned-Freed h h' layout s overlap v out e = absurd (cc)
returned-Freed h h' layout s full v out e = absurd (cc)
returned-Freed h h' layout s (table t) v out e =
    let (same, done) = table-Freed h layout s t v out in
    subst (λ k. Freed h layout s k) (ground arith) done

returned-overlap :
    (h : HeapState) (layout : Layout) (s a : ℕ) (o : Released)
    → Walked h layout s o
    → inside s (s + block_size layout) a ≡ true
    → covers h.free a ≡ true
    → returned h (block_size layout) o ≡ err HeapPanic.double_free
returned-overlap h layout s a overlap out i c = refl
returned-overlap h layout s a full out i c = absurd (ground (arith, out.1 a))
returned-overlap h layout s a (table t) out i c = absurd (ground (arith, out.5 a))

-- On a valid heap, a `deallocate` that does not panic makes exactly the block free, all of whose
-- addresses were taken, counts its bytes, and keeps the heap valid.
pub deallocate-Freed :
    (h h' : HeapState) (layout : Layout) (s : ℕ)
    → IsValid h
    → deallocate h s layout ≡ ok h'
    → Freed h layout s h'
deallocate-Freed h h' layout s v e =
    let b = outside_panics h h' layout s e in
    returned-Freed h h' layout s _ v (walked h layout s v b)
      (sym (deallocate_shape h layout s v b) ∙ e)

-- On a valid heap, a block in the heap of which any address is already free is the double-free panic.
pub deallocate_twice :
    (h : HeapState) (layout : Layout) (s a : ℕ)
    → IsValid h
    → InHeap h layout s
    → inside s (s + block_size layout) a ≡ true
    → covers h.free a ≡ true
    → deallocate h s layout ≡ err HeapPanic.double_free
deallocate_twice h layout s a v b i c =
    deallocate_shape h layout s v b ∙ returned-overlap h layout s a _ (walked h layout s v b) i c

taken-back :
    (h h' : HeapState) (layout : Layout) (s : ℕ) (o : Scanned)
    → IsValid h
    → ScanOutcome (block_size layout) layout.align (crowded h) h.start h.end h.free o
    → taken h (block_size layout) o ≡ (some s, h')
    → deallocate h' s layout ≡ ok h
unfolding total_bytes
taken-back h h' layout s none v out e = absurd (cc)
taken-back h h' layout s (some (s', t)) v out e =
    let after = (taken h (block_size layout) (some (s', t))).1 in
    let done = scanned-Allocated h layout s' t v out in
    let undo = out.9 (not (crowded after)) h.start none v.canon (λ k. ground (arith, v.fits)) in
    let top = free_bytes-le v in
    let restored : returned after (block_size layout) (table h.free) ≡ ok h =
      ground (arith, v.word, v.ready, done.counted) in
    let back : deallocate after s' layout ≡ ok h =
      deallocate_shape after layout s' done.valid done.in_heap ∙ rw undo restored in
    subst (λ k. deallocate k s layout ≡ ok h) (ap (λ p. p.1) e)
      (subst (λ k. deallocate after k layout ≡ ok h) (ground arith) back)

-- On a valid heap, giving back a block that has just been allocated does not panic and restores the
-- heap as it was.
pub deallocate-allocate :
    (h h' : HeapState) (layout : Layout) (s : ℕ)
    → IsPower layout.align
    → IsValid h
    → allocate h layout ≡ (some s, h')
    → deallocate h' s layout ≡ ok h
deallocate-allocate h h' layout s power v e =
    taken-back h h' layout s _ v (scanned h layout power v) (sym (allocate_shape h layout v) ∙ e)
