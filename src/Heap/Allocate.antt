-- ===== src/Heap/Allocate.antt =====
-- What the heap's `allocate` promises.
use generic_kernel.Common.{
  ℕ, ◌+◌, ◌*◌, ◌≤◌, ◌≡◌, refl, sym, ap, ◌∙◌, subst, not, ◌&&◌, ◌||◌, List, none, some, arith,
  length, ◌==◌, IsPower, sub64, Bool,
}
use generic_kernel.Ranges.{Region, covers, inside}
use generic_kernel.Heap.{
  HeapState, Layout, allocate, scan, Scanned, taken, block_size, max_free_ranges, total_bytes,
}
use generic_kernel.Heap.Scan.{ScanOutcome, scan-Outcome}
use generic_kernel.Heap.Inv.{IsValid, free_bytes-le}

-- The block `[s, s + block_size layout)` has been handed out of `h`, which became `h'`.
pub record Allocated (h : HeapState) (layout : Layout) (s : ℕ) (h' : HeapState) : Type 0 where
  pub valid : IsValid h'
  pub multiple : (q : ℕ) × (s ≡ q * layout.align)
  pub start_kept : h'.start ≡ h.start
  pub end_kept : h'.end ≡ h.end
  pub in_heap : (h.start ≤ s) × (s + block_size layout ≤ h.end)
  pub counted : h'.free_bytes + block_size layout ≡ h.free_bytes
  pub taken_out :
      (a : ℕ) → covers h'.free a ≡ covers h.free a && not (inside s (s + block_size layout) a)
  pub was_free : (a : ℕ) → covers h.free a ≡ covers h'.free a || inside s (s + block_size layout) a

abbrev pub crowded : HeapState → Bool
crowded h = length h.free == max_free_ranges

pub scanned :
    (h : HeapState) (layout : Layout)
    → IsPower layout.align
    → IsValid h
    → ScanOutcome
        (block_size layout)
        layout.align
        (crowded h)
        h.start
        h.end
        h.free
        (scan (crowded h) (block_size layout) layout.align h.free)
scanned h layout power v =
    scan-Outcome (block_size layout) layout.align power (omega arith) (crowded h) h.start h.end
      h.free v.canon

pub allocate_shape :
    (h : HeapState) (layout : Layout)
    → IsValid h
    → allocate h layout
      ≡ taken h (block_size layout) (scan (crowded h) (block_size layout) layout.align h.free)
unfolding allocate
allocate_shape h layout v = rw v.ready

pub scanned-Allocated :
    (h : HeapState) (layout : Layout) (s : ℕ) (t : List Region)
    → IsValid h
    → ScanOutcome (block_size layout) layout.align (crowded h) h.start h.end h.free (some (s, t))
    → Allocated h layout s
        (record h { free = t; free_bytes = sub64 h.free_bytes (block_size layout) })
unfolding total_bytes
scanned-Allocated h layout s t v out =
    let (mult, above, below, canon, sum, size_le, tight, free, same, undo) = out in
    let top = free_bytes-le v in
    record {
      valid = record {
        ready = v.ready;
        ordered = v.ordered;
        word = v.word;
        canon = canon;
        fits = ground (arith, tight, size_le, v.fits);
        counted = ground (arith, v.counted, v.word, v.ready);
      };
      multiple = mult;
      start_kept = refl;
      end_kept = refl;
      in_heap = (above, below);
      counted = ground (arith, v.counted, v.word, v.ready);
      taken_out = same;
      was_free = λ a. ground (arith, same a, free a);
    }

taken-Allocated :
    (h h' : HeapState) (layout : Layout) (s : ℕ) (o : Scanned)
    → IsValid h
    → ScanOutcome (block_size layout) layout.align (crowded h) h.start h.end h.free o
    → taken h (block_size layout) o ≡ (some s, h')
    → Allocated h layout s h'
taken-Allocated h h' layout s none v out e = absurd (cc)
taken-Allocated h h' layout s (some (s', t)) v out e =
    let done = scanned-Allocated h layout s' t v out in
    let after = (taken h (block_size layout) (some (s', t))).1 in
    subst (λ k. Allocated h layout s k) (ap (λ p. p.1) e)
      (subst (λ k. Allocated h layout k after) (ground arith) done)

-- On a valid heap and for an alignment that is a power of two, an allocation that succeeds lies in the
-- heap, is aligned, takes exactly its addresses, all of which were free, counts its bytes, and keeps
-- the heap valid.
pub allocate_heap-Allocated :
    (h h' : HeapState) (layout : Layout) (s : ℕ)
    → IsPower layout.align
    → IsValid h
    → allocate h layout ≡ (some s, h')
    → Allocated h layout s h'
allocate_heap-Allocated h h' layout s power v e =
    taken-Allocated h h' layout s _ v (scanned h layout power v)
      (sym (allocate_shape h layout v) ∙ e)
