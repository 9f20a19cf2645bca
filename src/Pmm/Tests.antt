-- ===== src/Pmm/Tests.antt =====
-- The theorems about `PhysicalMemory` at concrete memories, and the tests of physical.rs.
use generic_kernel.Common.{
  ℕ, ◌≡◌, refl, true, false, [], ◌∷◌, none, some, arith, ok, err, is_power_of_two, align_up,
  align_down,
}
use generic_kernel.Ranges.{covers, bytes, carve, walk, inside}
use generic_kernel.Pmm.{
  PhysicalMemory, PhysicalMemoryError, new, allocate_pages, free_pages, is_managed,
}
use generic_kernel.Pmm.Inv.{IsValid}
use generic_kernel.Pmm.New.{new-IsValid}
use generic_kernel.Pmm.Allocate.{Allocated}
use generic_kernel.Pmm.Blocks.{allocate-Allocated, allocate-none}
use generic_kernel.Pmm.Free.{Freed}
use generic_kernel.Pmm.Giving.{free_pages-Freed, free_pages-succeeds}
use generic_kernel.Pmm.RoundTrip.{free_pages-allocate_pages}

-- Pages 1 to 7, all free.
abbrev eight : PhysicalMemory
eight = record {
  managed = record { start = 4096; end = 32768 } ∷ [];
  free = record { start = 4096; end = 32768 } ∷ [];
  total_bytes = 28672;
  free_bytes = 28672;
}

-- The same memory with pages 4 and 5 taken.
abbrev holed : PhysicalMemory
holed = record eight {
  free = record { start = 4096; end = 16384 } ∷ record { start = 24576; end = 32768 } ∷ [];
  free_bytes = 20480;
}

built :
    new 8 (record { start = 0; end = 5000 } ∷ record { start = 8193; end = 32768 } ∷ [])
    ≡ ok (record {
      managed = record { start = 12288; end = 32768 } ∷ [];
      free = record { start = 12288; end = 32768 } ∷ [];
      total_bytes = 20480;
      free_bytes = 20480;
    })
unfolding new align_up align_down
built = refl

aligned_block : allocate_pages 8 eight 2 4 ≡ (ok (some 16384), holed)
unfolding allocate_pages is_power_of_two align_up carve
aligned_block = refl

eight-IsValid : IsValid 8 eight
unfolding bytes covers
eight-IsValid = record {
  canon = omega arith;
  managed_canon = omega arith;
  aligned = (refl, refl, tt);
  fits = omega arith;
  managed_fits = omega arith;
  total = refl;
  free_sum = refl;
  within = λ a h. h;
}

holed-IsValid : IsValid 8 holed
holed-IsValid = (allocate-Allocated 8 eight holed 2 4 16384 eight-IsValid aligned_block).valid

given_back : free_pages 8 holed 16384 2 ≡ (ok tt, eight)
unfolding free_pages walk
given_back = refl

nothing_left : allocate_pages 8 eight 8 1 ≡ (ok none, eight)
unfolding allocate_pages is_power_of_two align_up carve
nothing_left = refl

refused : free_pages 8 eight 4096 1 ≡ (err PhysicalMemoryError.invalid_free, eight)
unfolding free_pages walk
refused = refl

new-IsValid_example : IsValid 8 (record {
  managed = record { start = 12288; end = 32768 } ∷ [];
  free = record { start = 12288; end = 32768 } ∷ [];
  total_bytes = 20480;
  free_bytes = 20480;
})
new-IsValid_example = (new-IsValid 8 _ _ (omega arith) built).0

allocate-Allocated_example : Allocated 8 eight 2 4 16384 holed
allocate-Allocated_example = allocate-Allocated 8 eight holed 2 4 16384 eight-IsValid aligned_block

allocate-none_example :
    (eight ≡ eight) × (a : ℕ) × (inside 4096 36864 a ≡ true) × (covers eight.free a ≡ false)
allocate-none_example = allocate-none 8 eight eight 8 1 1 eight-IsValid nothing_left

free_pages-Freed_example : Freed 8 holed 16384 2 eight
free_pages-Freed_example = free_pages-Freed 8 holed eight 16384 2 holed-IsValid given_back

free_pages-allocate_pages_example : free_pages 8 holed 16384 2 ≡ (ok tt, eight)
free_pages-allocate_pages_example =
    free_pages-allocate_pages 8 eight holed 2 4 16384 eight-IsValid aligned_block

free_pages-succeeds_example : (m' : PhysicalMemory) × (free_pages 8 holed 16384 2 ≡ (ok tt, m'))
unfolding covers is_managed
free_pages-succeeds_example =
    free_pages-succeeds 8 holed 16384 2 holed-IsValid
      (record {
        some_page = omega arith;
        not_null = omega arith;
        page_aligned = refl;
        managed_block = refl;
        word = omega arith;
      })
      (omega arith) (λ a i. ground arith)
