-- ===== src/Frames.antt =====
-- crates/kernel-core/src/lib.rs: `FrameAllocator`, the bootstrap allocator that walks forward over the
-- memory map and never takes a frame back.
pub mod Forward
mod Tests
use generic_kernel.Common.{
  ℕ, suc, ◌+◌, ◌-◌, List, [], ◌∷◌, Option, none, some, Result, ok, err, max, ltb, leb,
  if◌then◌else◌, drop, checked_add, align_up, ◌>>=◌, ◌>>◌,
}
use generic_kernel.Ranges.{Region}
use generic_kernel.Pmm.{page_size}

pub data MapError : Type 0 where
  reversed_range overlap_or_unsorted : MapError

pub record FrameAllocator : Type 0 where
  pub regions : List Region
  pub index : ℕ
  pub next : ℕ

-- The loop of `new` over the regions.
unfoldable pub check_regions : List Region → ℕ → Result MapError (Unit {0})
check_regions [] previous_end = ok tt
check_regions (r ∷ rs) previous_end =
    if ltb r.end r.start
    then err MapError.reversed_range
    else if ltb r.start previous_end
    then err MapError.overlap_or_unsorted
    else check_regions rs r.end

unfoldable pub new : List Region → Result MapError FrameAllocator
unfolding check_regions
new regions = do
  check_regions regions 0
  ok (record { regions = regions; index = 0; next = page_size })

-- `if let Some(frame) = aligned`, and the bound that the frame has to keep; with its end.
unfoldable pub try_frame : Region → Option ℕ → Option (ℕ × ℕ)
try_frame region none = none
try_frame region (some frame) = elim (checked_add frame page_size) [
  | none ↦ none
  | some end ↦ if leb end region.end then some (frame, end) else none
]

-- The frame of a region that `allocate` tries: the first whole page from `next` on.
unfoldable pub first_frame : Region → ℕ → Option (ℕ × ℕ)
unfolding align_up try_frame
first_frame region next =
    try_frame region (align_up (max (max next region.start) page_size) page_size)

-- The `while let` of `allocate`, over the regions from `index` on.
unfoldable pub walk : List Region → FrameAllocator → Option ℕ × FrameAllocator
unfolding first_frame
walk [] s = (none, s)
walk (region ∷ rest) s = elim (first_frame region s.next) [
  | some (frame, end) ↦ (some frame, record s { next = end })
  | none ↦ walk rest (record s { index = suc s.index })
]

unfoldable pub allocate : FrameAllocator → Option ℕ × FrameAllocator
unfolding walk
allocate s = walk (drop s.index s.regions) s
