-- ===== src/Heap.antt =====
-- kernel/src/mm/heap.rs: `HeapState`, the kernel heap's first-fit allocator with coalescing. The free
-- table is the list of the used entries; an `assert!` or `expect` that fails is an error value.
pub mod Scan
pub mod Inv
pub mod Allocate
pub mod Deallocate
pub mod Verify
mod Tests
use generic_kernel.Common.{
  ℕ, ◌+◌, ◌-◌, ◌^◌, Bool, true, false, not, ◌&&◌, ◌||◌, List, [], ◌∷◌, Option, none, some, ltb, leb,
  ◌==◌, if◌then◌else◌, length, Result, ok, err, ◌>>=◌, ◌>>◌, refuse_if, checked_add, sub64, max,
  align_up,
}
use generic_kernel.Ranges.{Region, Released, overlap, full, table, carve, needs_slot, walk}

-- The panics of `init` and `deallocate`.
pub data HeapPanic : Type 0 where
  initialized_twice address_overflow empty_heap not_initialized deallocation_overflow outside_heap
        double_free exhausted counter_overflow counter_corrupted :
      HeapPanic

pub record Layout : Type 0 where
  pub size : ℕ
  pub align : ℕ

pub record HeapState : Type 0 where
  pub initialized : Bool
  pub start : ℕ
  pub end : ℕ
  pub free : List Region
  pub free_bytes : ℕ

abbrev pub max_free_ranges : ℕ
max_free_ranges = 256

-- `HeapState::empty`.
abbrev pub empty : HeapState
empty = record { initialized = false; start = 0; end = 0; free = []; free_bytes = 0 }

unfoldable pub init : HeapState → ℕ → ℕ → Result HeapPanic HeapState
init h start size = do
  refuse_if h.initialized HeapPanic.initialized_twice
  refuse_if (leb (2 ^ 64) (start + size)) HeapPanic.address_overflow
  refuse_if (size == 0) HeapPanic.empty_heap
  ok (record {
    initialized = true;
    start = start;
    end = start + size;
    free = record { start = start; end = start + size } ∷ [];
    free_bytes = size;
  })

-- `layout.size().max(1)`.
abbrev pub block_size : Layout → ℕ
block_size layout = max layout.size 1

abbrev pub Scanned : Type 0
Scanned = Option (ℕ × List Region)

abbrev pub passed : Region → Scanned → Scanned
passed r none = none
passed r (some (start, rest)) = some (start, r ∷ rest)

-- The loop of `allocate`: an address that overflows ends it, a range that is too small or that would
-- need an entry too many is passed over. `crowded` is `free_len == MAX_FREE_RANGES`.
unfoldable pub scan : Bool → ℕ → ℕ → List Region → Scanned
scan crowded size alignment [] = none
scan crowded size alignment (r ∷ rest) = elim (align_up r.start alignment) [
  | none ↦ none
  | some start ↦ elim (checked_add start size) [
    | none ↦ none
    | some end ↦ elim (ltb r.end end || (needs_slot r start end && crowded)) [
      | true ↦ passed r (scan crowded size alignment rest)
      | false ↦ some (start, carve r start end rest)
    ]
  ]
]

abbrev pub taken : HeapState → ℕ → Scanned → Option ℕ × HeapState
taken h size none = (none, h)
taken h size (some (start, free)) =
    (some start, record h { free = free; free_bytes = sub64 h.free_bytes size })

unfoldable pub allocate : HeapState → Layout → Option ℕ × HeapState
unfolding scan
allocate h layout =
    if h.initialized
    then taken h (block_size layout)
        (scan (length h.free == max_free_ranges) (block_size layout) layout.align h.free)
    else (none, h)

abbrev pub returned : HeapState → ℕ → Released → Result HeapPanic HeapState
returned h size overlap = err HeapPanic.double_free
returned h size full = err HeapPanic.exhausted
returned h size (table free) = do
  refuse_if (leb (2 ^ 64) (h.free_bytes + size)) HeapPanic.counter_overflow
  refuse_if (ltb (h.end - h.start) (h.free_bytes + size)) HeapPanic.counter_corrupted
  ok (record h { free = free; free_bytes = h.free_bytes + size })

unfoldable pub deallocate : HeapState → ℕ → Layout → Result HeapPanic HeapState
unfolding walk
deallocate h start layout = do
  let size = block_size layout
  refuse_if (not h.initialized) HeapPanic.not_initialized
  refuse_if (leb (2 ^ 64) (start + size)) HeapPanic.deallocation_overflow
  refuse_if (not (leb h.start start && leb (start + size) h.end)) HeapPanic.outside_heap
  returned h size (walk (not (length h.free == max_free_ranges)) start (start + size) none h.free)

-- `KernelAllocator::total_bytes`.
unfoldable pub total_bytes : HeapState → ℕ
total_bytes h = if h.initialized then h.end - h.start else 0
