-- ===== src/Mapping/Mmio.antt =====
-- kernel/src/arch/memory.rs and kernel/src/mm/mod.rs: `map_mmio`, the mapping of the registers of a
-- device. `root` is the root of the active tables, which the source reads from CR3.
use generic_kernel.Common.{
  ℕ, zero, suc, ◌+◌, ◌-◌, ◌*◌, ◌/◌, ◌%◌, Bool, true, false, not, ◌||◌, Option, none, some, Result,
  ok, err, ◌==◌, if◌then◌else◌, checked_add, checked_mul, align_down, u64_mod,
}
use generic_kernel.Pmm.{PhysicalMemory, page_size}
use generic_kernel.Mapping.{PmmFrameAllocator, Flags, Mapper}

-- The messages of `map_mmio`.
pub data MmioError : Type 0 where
  unaligned virtual_overflow physical_overflow already_mapped map_failed : MmioError

abbrev pub mmio_flags : Flags
mmio_flags = record {
  present = true;
  writable = true;
  user_accessible = false;
  write_through = true;
  no_cache = true;
  no_execute = true;
}

-- The statics of mm/mod.rs that `map_mmio` uses, and the tables.
pub record MmioState (Tables : Type 0) : Type 0 where
  pub tables : Tables
  pub pmm : Option PhysicalMemory
  pub offset : Option ℕ
  pub next_mmio : ℕ

module _ {n : ℕ} (mapper : Mapper n) (root : ℕ) where
  open mapper use {Tables, translate, map_to}

  abbrev pub Run : Type 0
  Run = Result MmioError (Unit {0}) × Tables × PmmFrameAllocator

  abbrev pub after_map :
      (Tables → PmmFrameAllocator → Run) → Bool × Tables × PmmFrameAllocator → Run
  after_map rest (true, t, a) = rest t a
  after_map rest (false, t, a) = (err MmioError.map_failed, t, a)

  -- A page that has been looked up.
  abbrev pub mmio_page :
      (Tables → PmmFrameAllocator → Run) → Tables → PmmFrameAllocator → ℕ → ℕ → Option ℕ → Run
  mmio_page rest t a page frame (some f) = (err MmioError.already_mapped, t, a)
  mmio_page rest t a page frame none = after_map rest (map_to t a root page frame mmio_flags)

  -- One round of the loop, from the two sums on, with the rest of the loop.
  abbrev pub mmio_round :
      (Tables → PmmFrameAllocator → Run) → Tables → PmmFrameAllocator → Option ℕ → Option ℕ → Run
  mmio_round rest t a none p = (err MmioError.virtual_overflow, t, a)
  mmio_round rest t a (some page) none = (err MmioError.physical_overflow, t, a)
  mmio_round rest t a (some page) (some frame) =
      mmio_page rest t a page frame (translate t root page)

  -- `for index in 0..pages`, from `index` on.
  unfoldable pub map_mmio_pages : ℕ → ℕ → ℕ → ℕ → Tables → PmmFrameAllocator → Run
  map_mmio_pages virtual_start physical_start zero index t a = (ok tt, t, a)
  map_mmio_pages virtual_start physical_start (suc rounds) index t a =
      mmio_round (map_mmio_pages virtual_start physical_start rounds (suc index)) t a
        (checked_add virtual_start (index * page_size % u64_mod))
        (checked_add physical_start (index * page_size % u64_mod))

  -- `arch::memory::map_mmio`.
  unfoldable pub map_mmio_range : ℕ → ℕ → ℕ → Tables → PhysicalMemory → Run
  map_mmio_range virtual_start physical_start pages t pmm =
      let a : PmmFrameAllocator = record { pmm = pmm; allocated = 0 } in
      if pages == 0 || not (virtual_start % page_size == 0) || not (physical_start % page_size == 0)
      then (err MmioError.unaligned, t, a)
      else map_mmio_pages virtual_start physical_start pages 0 t a

  -- From the run on.
  abbrev pub mapped_at : ℕ → ℕ → MmioState Tables → Run → Option ℕ × MmioState Tables
  mapped_at virtual_start page_offset s (ok _, t, a) =
      (checked_add virtual_start page_offset, record s { tables = t; pmm = some a.pmm })
  mapped_at virtual_start page_offset s (err e, t, a) =
      (none, record s { tables = t; pmm = some a.pmm })

  -- From `NEXT_MMIO.fetch_add` on, with the values of the two locks.
  abbrev pub reserved :
      ℕ
      → ℕ
      → ℕ
      → ℕ
      → MmioState Tables
      → Option ℕ
      → Option PhysicalMemory
      → Option ℕ × MmioState Tables
  reserved virtual_start physical_page page_offset pages s none pmm = (none, s)
  reserved virtual_start physical_page page_offset pages s (some offset) none = (none, s)
  reserved virtual_start physical_page page_offset pages s (some offset) (some pmm) =
      mapped_at virtual_start page_offset s
        (map_mmio_range virtual_start physical_page pages s.tables pmm)

  -- From the number of pages on, with their bytes.
  abbrev pub sized : ℕ → ℕ → ℕ → MmioState Tables → Option ℕ → Option ℕ × MmioState Tables
  sized physical_page page_offset pages s none = (none, s)
  sized physical_page page_offset pages s (some bytes_rounded) =
      reserved s.next_mmio physical_page page_offset pages
        (record s { next_mmio = (s.next_mmio + bytes_rounded) % u64_mod }) s.offset s.pmm

  -- From the span on, rounded up.
  abbrev pub spanned : ℕ → ℕ → MmioState Tables → Option ℕ → Option ℕ × MmioState Tables
  spanned physical_page page_offset s none = (none, s)
  spanned physical_page page_offset s (some raised) =
      sized physical_page page_offset (raised / page_size) s
        (checked_mul (raised / page_size) page_size)

  -- From the sum of the offset in the page and the bytes on.
  abbrev pub summed : ℕ → ℕ → MmioState Tables → Option ℕ → Option ℕ × MmioState Tables
  summed physical_page page_offset s none = (none, s)
  summed physical_page page_offset s (some span) =
      spanned physical_page page_offset s (checked_add span (page_size - 1))

  -- `mm::map_mmio`.
  unfoldable pub map_mmio : ℕ → ℕ → MmioState Tables → Option ℕ × MmioState Tables
  map_mmio physical bytes s =
      let physical_page = align_down physical page_size in
      let page_offset = physical - physical_page in
      if bytes == 0
      then (none, s)
      else summed physical_page page_offset s (checked_add page_offset bytes)
