-- ===== src/Heap/Verify.antt =====
-- `KernelAllocator::verify` of kernel/src/mm/heap.rs: the heap's smoke test, as a client of the two
-- operations. The bytes that it writes and reads back are left out.
use generic_kernel.Common.{
  ℕ, ◌%◌, ◌≡◌, refl, not, Option, none, some, arith, ◌==◌, Result, ok, err, ◌>>=◌, ◌>>◌, refuse_if,
}
use generic_kernel.Heap.{HeapState, HeapPanic, Layout, allocate, deallocate}
use generic_kernel.Heap.Inv.{IsValid}
use generic_kernel.Heap.Allocate.{allocate_heap-Allocated}
use generic_kernel.Heap.Deallocate.{deallocate-allocate}

pub data VerifyPanic : Type 0 where
  small_allocation page_allocation misaligned not_coalesced : VerifyPanic
  deallocation : HeapPanic → VerifyPanic

abbrev pub small : Layout
small = record { size = 37; align = 8 }

abbrev pub page_aligned : Layout
page_aligned = record { size = 4096; align = 4096 }

abbrev freeing : Result HeapPanic HeapState → Result VerifyPanic HeapState
freeing (ok h) = ok h
freeing (err e) = err (deallocation e)

-- An allocation, or the assertion that it is not null.
abbrev granted : Option ℕ × HeapState → VerifyPanic → Result VerifyPanic (ℕ × HeapState)
granted (none, h) panic = err panic
granted (some s, h) panic = ok (s, h)

unfoldable pub verify : HeapState → Result VerifyPanic HeapState
verify h = do
  (first, h1) ← granted (allocate h small) small_allocation
  (second, h2) ← granted (allocate h1 page_aligned) page_allocation
  refuse_if (not (second % 4096 == 0)) misaligned
  h3 ← freeing (deallocate h2 second page_aligned)
  h4 ← freeing (deallocate h3 first small)
  refuse_if (not (h4.free_bytes == h.free_bytes)) not_coalesced
  ok h4

-- On a valid heap with room for the two blocks, the smoke test passes and leaves the heap as it was.
pub verify-passes :
    (h h1 h2 : HeapState) (first second : ℕ)
    → IsValid h
    → allocate h small ≡ (some first, h1)
    → allocate h1 page_aligned ≡ (some second, h2)
    → verify h ≡ ok h
unfolding verify
verify-passes h h1 h2 first second v e e' =
    let one = allocate_heap-Allocated h h1 small first (3, omega arith, refl) v e in
    let two =
      allocate_heap-Allocated h1 h2 page_aligned second (12, omega arith, refl) one.valid e' in
    let back = deallocate-allocate h1 h2 page_aligned second (12, omega arith, refl) one.valid e' in
    let back' = deallocate-allocate h h1 small first (3, omega arith, refl) v e in
    let whole : second % 4096 ≡ 0 = omega (arith, two.multiple.1) in
    rw (e, granted, e', granted, back, back') (ground (arith, whole))
