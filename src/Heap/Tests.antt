-- ===== src/Heap/Tests.antt =====
-- The theorems about the heap at a concrete heap of 64 KiB.
use generic_kernel.Common.{◌≡◌, refl, true, [], ◌∷◌, some, arith, ok, err, align_up}
use generic_kernel.Ranges.{covers, carve, walk}
use generic_kernel.Heap.{HeapState, HeapPanic, empty, init, allocate, deallocate}
use generic_kernel.Heap.Inv.{IsValid, init-IsValid}
use generic_kernel.Heap.Allocate.{Allocated, allocate_heap-Allocated}
use generic_kernel.Heap.Deallocate.{Freed, deallocate-Freed, deallocate_twice}
use generic_kernel.Heap.Verify.{small, page_aligned}

abbrev fresh : HeapState
fresh = record {
  initialized = true;
  start = 4000;
  end = 69536;
  free = record { start = 4000; end = 69536 } ∷ [];
  free_bytes = 65536;
}

abbrev one_taken : HeapState
one_taken = record fresh { free = record { start = 4037; end = 69536 } ∷ []; free_bytes = 65499 }

abbrev two_taken : HeapState
two_taken = record fresh {
  free = record { start = 4037; end = 4096 } ∷ record { start = 8192; end = 69536 } ∷ [];
  free_bytes = 61403;
}

initialised : init empty 4000 65536 ≡ ok fresh
unfolding init
initialised = refl

first_block : allocate fresh small ≡ (some 4000, one_taken)
unfolding allocate align_up carve
first_block = refl

second_block : allocate one_taken page_aligned ≡ (some 4096, two_taken)
unfolding allocate align_up carve
second_block = refl

second_back : deallocate two_taken 4096 page_aligned ≡ ok one_taken
unfolding deallocate walk
second_back = refl

fresh-IsValid : IsValid fresh
fresh-IsValid = (init-IsValid 4000 65536 fresh initialised).0

one_taken-IsValid : IsValid one_taken
one_taken-IsValid =
    (allocate_heap-Allocated fresh one_taken small 4000 (3, omega arith, refl) fresh-IsValid
      first_block).valid

two_taken-IsValid : IsValid two_taken
two_taken-IsValid =
    (allocate_heap-Allocated one_taken two_taken page_aligned 4096 (12, omega arith, refl)
      one_taken-IsValid second_block).valid

allocate_heap-Allocated_example : Allocated one_taken page_aligned 4096 two_taken
allocate_heap-Allocated_example =
    allocate_heap-Allocated one_taken two_taken page_aligned 4096 (12, omega arith, refl)
      one_taken-IsValid second_block

deallocate-Freed_example : Freed two_taken page_aligned 4096 one_taken
deallocate-Freed_example =
    deallocate-Freed two_taken one_taken page_aligned 4096 two_taken-IsValid second_back

deallocate_twice_example : deallocate fresh 4096 page_aligned ≡ err HeapPanic.double_free
unfolding covers
deallocate_twice_example =
    deallocate_twice fresh page_aligned 4096 5000 fresh-IsValid (omega arith, omega arith) refl refl
