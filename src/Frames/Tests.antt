-- ===== src/Frames/Tests.antt =====
-- The tests of lib.rs, and the theorems at the allocators that they use.
use generic_kernel.Common.{◌≡◌, refl, [], ◌∷◌, List, ok, err, drop}
use generic_kernel.Ranges.{Region}
use generic_kernel.Frames.{MapError, FrameAllocator, new, allocate}
use generic_kernel.Pmm.{page_size}
use generic_kernel.Frames.Forward.{Outcome, frames, allocate-Outcome}

abbrev holes : List Region
holes = record { start = 4096; end = 12288 } ∷ record { start = 32768; end = 36864 } ∷ []

abbrev bootstrap : FrameAllocator
bootstrap = record { regions = holes; index = 0; next = page_size }

built : new holes ≡ ok bootstrap
unfolding new
built = refl

reversed : new (record { start = 2; end = 1 } ∷ []) ≡ err MapError.reversed_range
unfolding new
reversed = refl

crosses_holes : frames 4 bootstrap ≡ 4096 ∷ 8192 ∷ 32768 ∷ []
unfolding allocate
crosses_holes = refl

rounds_inward :
    frames 2 (record bootstrap {
      regions = record { start = 0; end = 4097 } ∷ record { start = 8193; end = 20479 } ∷ [];
    })
    ≡ 12288 ∷ []
unfolding allocate
rounds_inward = refl

allocate-Outcome_example : Outcome (drop 0 holes) bootstrap (allocate bootstrap)
allocate-Outcome_example = allocate-Outcome bootstrap
