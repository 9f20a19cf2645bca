-- ===== src/Pmm.antt =====
-- crates/kernel-core/src/physical.rs: `PhysicalMemory<N>`, the allocator of physical pages. `managed`
-- and `free` are the used entries of the arrays, so `managed_len` and `free_len` are their lengths and
-- `N` is their room. An operation returns its result beside the memory that it leaves.
pub mod Scan
pub mod Inv
pub mod Allocate
pub mod Blocks
pub mod Free
pub mod Giving
pub mod RoundTrip
pub mod Tables
pub mod New
mod Tests
use generic_kernel.Common.{
  ℕ, suc, ◌+◌, ◌-◌, ◌*◌, ◌%◌, ◌<◌, Bool, true, false, not, ◌&&◌, ◌||◌, List, [], ◌∷◌, ◌++◌, Option,
  none, some, ltb, leb, ◌==◌, if◌then◌else◌, length, Result, ok, err, ◌>>=◌, checked_add,
  checked_mul, sub64, max, align_up, align_down, is_power_of_two,
}
use generic_kernel.Ranges.{Region, Released, overlap, full, table, carve, needs_slot, walk}

pub data PhysicalMemoryError : Type 0 where
  reversed_range overlap_or_unsorted capacity invalid_request invalid_free overflow :
      PhysicalMemoryError

pub record PhysicalMemory : Type 0 where
  pub managed : List Region
  pub free : List Region
  pub total_bytes : ℕ
  pub free_bytes : ℕ

abbrev pub page_size : ℕ
page_size = 4096

abbrev pub empty : PhysicalMemory
empty = record { managed = []; free = []; total_bytes = 0; free_bytes = 0 }

-- Does the last entry end where the new region starts?
unfoldable pub touches : List Region → ℕ → Bool
touches [] start = false
touches (r ∷ []) start = r.end == start
touches (r ∷ s ∷ rest) start = touches (s ∷ rest) start

unfoldable pub set_last_end : List Region → ℕ → List Region
set_last_end [] end = []
set_last_end (r ∷ []) end = record r { end = end } ∷ []
set_last_end (r ∷ s ∷ rest) end = r ∷ set_last_end (s ∷ rest) end

-- The two counters at the end of `push_initial`.
abbrev pub account : PhysicalMemory → Region → Result PhysicalMemoryError PhysicalMemory
account m region = do
  total ← checked m.total_bytes
  free ← checked m.free_bytes
  ok (record m { total_bytes = total; free_bytes = free })
  where
    checked : ℕ → Result PhysicalMemoryError ℕ
    checked n = elim (checked_add n (region.end - region.start)) [
      | none ↦ err PhysicalMemoryError.overflow
      | some sum ↦ ok sum
    ]

unfoldable pub used_bytes : PhysicalMemory → ℕ
used_bytes m = sub64 m.total_bytes m.free_bytes

unfoldable pub is_managed : List Region → ℕ → ℕ → Bool
is_managed [] start end = false
is_managed (r ∷ rest) start end = (leb r.start start && leb end r.end) || is_managed rest start end

-- Where a block of `size` bytes at a multiple of `alignment` fits into a free range: the two `else`
-- branches and the test `end > region.end` of the loop of `allocate_pages`.
unfoldable pub place : Region → ℕ → ℕ → Option ℕ
place region size alignment = elim (align_up region.start alignment) [
  | none ↦ none
  | some start ↦ elim (checked_add start size) [
    | none ↦ none
    | some end ↦ if ltb region.end end then none else some start
  ]
]

-- The loop over the free ranges. `crowded` is `free_len == N`.
abbrev pub Scanned : Type 0
Scanned = Result PhysicalMemoryError (Option (ℕ × List Region))

abbrev pub passed : Region → Scanned → Scanned
passed r (ok none) = ok none
passed r (ok (some (start, rest))) = ok (some (start, r ∷ rest))
passed r (err e) = err e

unfoldable pub scan : Bool → ℕ → ℕ → List Region → Scanned
unfolding place
scan crowded size alignment [] = ok none
scan crowded size alignment (r ∷ rest) = elim (place r size alignment) [
  | none ↦ passed r (scan crowded size alignment rest)
  | some start ↦
      if needs_slot r start (start + size) && crowded
      then err PhysicalMemoryError.capacity
      else ok (some (start, carve r start (start + size) rest))
]

-- The state after the loop.
abbrev pub taken :
    PhysicalMemory → ℕ → Scanned → Result PhysicalMemoryError (Option ℕ) × PhysicalMemory
taken m size (ok none) = (ok none, m)
taken m size (ok (some (start, free))) =
    (ok (some start), record m { free = free; free_bytes = sub64 m.free_bytes size })
taken m size (err e) = (err e, m)

-- The state after the walk of `free_pages`: a late error leaves the table changed.
abbrev pub returned :
    PhysicalMemory → ℕ → Released → Result PhysicalMemoryError (Unit {0}) × PhysicalMemory
returned m size overlap = (err PhysicalMemoryError.invalid_free, m)
returned m size full = (err PhysicalMemoryError.capacity, m)
returned m size (table free) = elim (checked_add m.free_bytes size) [
  | none ↦ (err PhysicalMemoryError.overflow, record m { free = free })
  | some sum ↦ (
    (if ltb m.total_bytes sum then err PhysicalMemoryError.invalid_free else ok tt),
    record m { free = free; free_bytes = sum },
  )
]

module _ (n : ℕ) where
  pub push_initial : PhysicalMemory → Region → Result PhysicalMemoryError PhysicalMemory
  unfolding touches set_last_end
  push_initial m region =
      if touches m.managed region.start
      then account
          (record m {
            managed = set_last_end m.managed region.end;
            free = set_last_end m.free region.end;
          })
          region
      else (if length m.managed == n || length m.free == n
          then err PhysicalMemoryError.capacity
          else account
              (record m { managed = m.managed ++ region ∷ []; free = m.free ++ region ∷ [] })
              region)

  -- One round of the loop of `new`, with the end of the region before.
  pub admit : ℕ → PhysicalMemory → Region → Result PhysicalMemoryError PhysicalMemory
  unfolding push_initial
  admit previous_end m region =
      if ltb region.end region.start
      then err PhysicalMemoryError.reversed_range
      else if ltb region.start previous_end
      then err PhysicalMemoryError.overlap_or_unsorted
      else elim (align_up (max region.start page_size) page_size) [
        | none ↦ err PhysicalMemoryError.overflow
        | some start ↦
            let end = align_down region.end page_size in
            if leb end start then ok m else push_initial m (record { start = start; end = end })
      ]

  pub new_from : ℕ → PhysicalMemory → List Region → Result PhysicalMemoryError PhysicalMemory
  unfolding admit
  new_from previous_end m [] = ok m
  new_from previous_end m (region ∷ regions) = do
    m' ← admit previous_end m region
    new_from region.end m' regions

  unfoldable pub new : List Region → Result PhysicalMemoryError PhysicalMemory
  unfolding new_from
  new regions = new_from 0 empty regions

  unfoldable pub allocate_pages :
      PhysicalMemory → ℕ → ℕ → Result PhysicalMemoryError (Option ℕ) × PhysicalMemory
  unfolding scan
  allocate_pages m pages align_pages =
      if pages == 0 || align_pages == 0 || not (is_power_of_two align_pages)
      then (err PhysicalMemoryError.invalid_request, m)
      else elim (checked_mul pages page_size) [
        | none ↦ (err PhysicalMemoryError.overflow, m)
        | some size ↦ elim (checked_mul align_pages page_size) [
          | none ↦ (err PhysicalMemoryError.overflow, m)
          | some alignment ↦ taken m size (scan (length m.free == n) size alignment m.free)
        ]
      ]

  unfoldable pub allocate_frame :
      PhysicalMemory → Result PhysicalMemoryError (Option ℕ) × PhysicalMemory
  unfolding allocate_pages
  allocate_frame m = allocate_pages m 1 1

  unfoldable pub free_pages :
      PhysicalMemory → ℕ → ℕ → Result PhysicalMemoryError (Unit {0}) × PhysicalMemory
  unfolding is_managed walk
  free_pages m start pages =
      if pages == 0 || ltb start page_size || not (start % page_size == 0)
      then (err PhysicalMemoryError.invalid_free, m)
      else elim (checked_mul pages page_size) [
        | none ↦ (err PhysicalMemoryError.overflow, m)
        | some size ↦ elim (checked_add start size) [
          | none ↦ (err PhysicalMemoryError.overflow, m)
          | some end ↦
              if not (end % page_size == 0) || not (is_managed m.managed start end)
              then (err PhysicalMemoryError.invalid_free, m)
              else returned m size (walk (not (length m.free == n)) start end none m.free)
        ]
      ]
