-- ===== src/Heap/Inv.antt =====
-- The representation invariant of an initialised heap, and `init`.
use generic_kernel.Common.{
  ℕ, ◌+◌, ◌≤◌, ◌<◌, ◌≡◌, true, arith, length, u64_mod, ok, ◌==◌, leb, Bool-cases, inl, inr,
}
use generic_kernel.Ranges.{bytes}
use generic_kernel.Ranges.Canon.{Canon, bytes-le}
use generic_kernel.Heap.{HeapState, init, empty, max_free_ranges, total_bytes}

-- The free table is canonical and inside the heap, fits its array, and the counter is its sum.
pub record IsValid (h : HeapState) : Type 0 where
  pub ready : h.initialized ≡ true
  pub ordered : h.start ≤ h.end
  pub word : h.end < u64_mod
  pub canon : Canon h.start h.end h.free
  pub fits : length h.free ≤ max_free_ranges
  pub counted : h.free_bytes ≡ bytes h.free

-- The free bytes never exceed the heap.
pub free_bytes-le : {h : HeapState} → IsValid h → h.free_bytes ≤ total_bytes h
unfolding total_bytes
free_bytes-le {h} v = ground (arith, bytes-le h.start h.end h.free v.canon v.ordered, v.counted)

-- `init` of an empty state builds a valid heap over exactly the range it is given.
pub init-IsValid :
    (start size : ℕ) (h : HeapState)
    → init empty start size ≡ ok h
    → IsValid h × (h.start ≡ start) × (total_bytes h ≡ size) × (h.free_bytes ≡ size)
unfolding init bytes total_bytes
init-IsValid start size h e = elim (Bool-cases (leb u64_mod (start + size))) [
  | inl over ↦ absurd (ground arith)
  | inr word ↦ elim (Bool-cases (size == 0)) [
    | inl none_left ↦ absurd (ground arith)
    | inr some_left ↦ ground arith
  ]
]
