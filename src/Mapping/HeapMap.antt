-- ===== src/Mapping/HeapMap.antt =====
-- kernel/src/arch/memory.rs: `map_heap`, the mapping of the kernel heap between two guard pages. `root` is
-- the root of the active tables, `none` is a panic.
use generic_kernel.Common.{
  ℕ, zero, suc, ◌+◌, ◌-◌, ◌/◌, ◌%◌, Bool, true, false, not, ◌&&◌, ◌||◌, Option, none, some, ltb,
  ◌==◌, if◌then◌else◌, checked_add,
}
use generic_kernel.Pmm.{page_size}
use generic_kernel.Mapping.{
  PmmFrameAllocator, Mapper, Machine, Ram, allocate_physical, zero_physical_frame, Flags,
}

pub record HeapMapping : Type 0 where
  pub mapped_pages : ℕ
  pub page_table_and_heap_frames : ℕ

abbrev pub heap_flags : Flags
heap_flags = record {
  present = true;
  writable = true;
  user_accessible = false;
  write_through = false;
  no_cache = false;
  no_execute = true;
}

abbrev pub is_none : Option ℕ → Bool
is_none none = true
is_none (some _) = false

module _ {n : ℕ} (mapper : Mapper n) (offset root : ℕ) where
  open mapper use {Tables, translate, map_to}

  abbrev pub HeapRun : Type 0
  HeapRun = Option (Tables × PmmFrameAllocator × Ram)

  -- `for page in Page::range_inclusive(start_page, end_page)` with the assertion that it is not mapped.
  unfoldable pub pages_unmapped : ℕ → ℕ → Tables → Bool
  pages_unmapped zero page t = true
  pages_unmapped (suc rounds) page t =
      is_none (translate t root page) && pages_unmapped rounds (page + page_size) t

  -- One round of the loop that maps the pages, from the call of `map_to` on, with the rest of the loop.
  abbrev pub heap_linked :
      (Tables → PmmFrameAllocator → Ram → HeapRun)
      → Ram
      → Bool × Tables × PmmFrameAllocator
      → HeapRun
  heap_linked rest ram (true, t, a) = rest t a ram
  heap_linked rest ram (false, t, a) = none

  abbrev pub heap_zeroed :
      (Tables → PmmFrameAllocator → Ram → HeapRun)
      → ℕ
      → ℕ
      → Tables
      → PmmFrameAllocator
      → Option Ram
      → HeapRun
  heap_zeroed rest page physical t a none = none
  heap_zeroed rest page physical t a (some ram) =
      heap_linked rest ram (map_to t a root page physical heap_flags)

  abbrev pub heap_framed :
      (Tables → PmmFrameAllocator → Ram → HeapRun)
      → ℕ
      → Tables
      → Ram
      → Option ℕ × PmmFrameAllocator
      → HeapRun
  heap_framed rest page t ram (none, a) = none
  heap_framed rest page t ram (some physical, a) =
      heap_zeroed rest page physical t a (zero_physical_frame offset physical ram)

  unfoldable pub map_heap_pages : ℕ → ℕ → Tables → PmmFrameAllocator → Ram → HeapRun
  map_heap_pages zero page t a ram = some (t, a, ram)
  map_heap_pages (suc rounds) page t a ram =
      heap_framed (map_heap_pages rounds (page + page_size)) page t ram (allocate_physical n a)

  -- The last assertion, and the result.
  abbrev pub heap_mapped : ℕ → ℕ → ℕ → HeapRun → Option (HeapMapping × Machine Tables)
  heap_mapped lower_guard upper_guard mapped_pages none = none
  heap_mapped lower_guard upper_guard mapped_pages (some (t, a, ram)) =
      if is_none (translate t root lower_guard) && is_none (translate t root upper_guard)
      then some (
        record { mapped_pages = mapped_pages; page_table_and_heap_frames = a.allocated },
        record { tables = t; pmm = a.pmm; ram = ram },
      )
      else none

  -- From the end of the heap on.
  abbrev pub heap_between :
      ℕ → ℕ → Machine Tables → Option ℕ → Option (HeapMapping × Machine Tables)
  heap_between heap_start heap_size s none = none
  heap_between heap_start heap_size s (some heap_end) =
      if ltb heap_start page_size
        || not (is_none (translate s.tables root (heap_start - page_size)))
        || not (is_none (translate s.tables root heap_end))
        || not (pages_unmapped (heap_size / page_size) heap_start s.tables)
      then none
      else heap_mapped (heap_start - page_size) heap_end (heap_size / page_size) (
          map_heap_pages (heap_size / page_size) heap_start s.tables
            (record { pmm = s.pmm; allocated = 0 }) s.ram)

  unfoldable pub map_heap : ℕ → ℕ → Machine Tables → Option (HeapMapping × Machine Tables)
  map_heap heap_start heap_size s =
      if not (heap_start % page_size == 0)
        || not (heap_size % page_size == 0)
        || ltb heap_size page_size
      then none
      else heap_between heap_start heap_size s (checked_add heap_start heap_size)
