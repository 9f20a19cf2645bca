-- ===== src/Mapping/Tests.antt =====
-- The mappings at concrete tables, and the regions at a concrete memory.
use generic_kernel.Common.{
  ℕ, ◌+◌, ◌/◌, ◌%◌, ◌<◌, ◌≡◌, ◌≢◌, refl, Bool, true, false, ◌&&◌, [], ◌∷◌, Option, none, some, ◌==◌,
  if◌then◌else◌, arith, ok, is_power_of_two, align_up, align_down,
}
use generic_kernel.Ranges.{covers, bytes, carve}
use generic_kernel.Pmm.{PhysicalMemory, page_size, allocate_frame, allocate_pages}
use generic_kernel.Pmm.Inv.{IsValid}
use generic_kernel.Elf.{ElfImage}
use generic_kernel.Processes.Loader.{load_image}
use generic_kernel.Mapping.LoaderSpace.{loader_space, IsResidentImage, load_image-IsResidentImage}
use generic_kernel.Mapping.Mmio.{MmioState, map_mmio, map_mmio_range, map_mmio_pages}
use generic_kernel.Mapping.Devices.{IsDevice, map_mmio-IsDevice}
use generic_kernel.Mapping.HeapMap.{HeapMapping, map_heap, map_heap_pages, pages_unmapped}
use generic_kernel.Mapping.HeapGuards.{IsHeap, map_heap-IsHeap}
use generic_kernel.Mapping.Dma.{DmaState, allocate_dma, verify_physical_memory}
use generic_kernel.Mapping.Regions.{IsRegion, allocate_dma-IsRegion}
use generic_kernel.Mapping.Probe.{IsProbed, verify_physical_memory-restores}
use generic_kernel.Mapping.{
  PmmFrameAllocator, user_flags, Flags, Mapper, Machine, allocate_physical, zero_physical_frame,
  map_user_page,
}
use generic_kernel.Mapping.UserPage.{IsMapping, map_user_page-IsMapping}

-- The frame of each page of each tree.
abbrev Pages : Type 0
Pages = ℕ → ℕ → Option (ℕ × Flags)

abbrev plus : ℕ → Option (ℕ × Flags) → Option ℕ
plus i none = none
plus i (some (f, flags)) = some (f + i)

abbrev flags_of_page : Option (ℕ × Flags) → Option Flags
flags_of_page none = none
flags_of_page (some (f, flags)) = some flags

abbrev look_flags : Pages → ℕ → ℕ → Option Flags
look_flags t root address = flags_of_page (t root (address / page_size))

abbrev look : Pages → ℕ → ℕ → Option ℕ
look t root address = plus (address % page_size) (t root (address / page_size))

abbrev changed : Pages → ℕ → ℕ → ℕ → Flags → Pages
changed t root page frame flags root' page' =
    if root' == root && page' == page / page_size then some (frame, flags) else t root' page'

-- A mapping takes a frame for its table.
abbrev with_table :
    Pages → ℕ → ℕ → ℕ → Flags → Option ℕ × PmmFrameAllocator → Bool × Pages × PmmFrameAllocator
with_table t root page frame flags (none, a) = (false, t, a)
with_table t root page frame flags (some table, a) = (true, changed t root page frame flags, a)

module _ (n : ℕ) where
  abbrev put : Pages → PmmFrameAllocator → ℕ → ℕ → ℕ → Flags → Bool × Pages × PmmFrameAllocator
  put t a root page frame flags = with_table t root page frame flags (allocate_physical n a)

  put-maps :
      (t : Pages) (root page frame : ℕ) (flags : Flags) (o : Option ℕ × PmmFrameAllocator)
      → page % page_size ≡ 0
      → (with_table t root page frame flags o).0 ≡ true
      → (i : ℕ) → i < page_size
      → look (with_table t root page frame flags o).1 root (page + i) ≡ some (frame + i)
  put-maps t root page frame flags (none, a) al h i lt = absurd (cc)
  put-maps t root page frame flags (some table, a) al h i lt =
      let here : (root == root && (page + i) / page_size == page / page_size) ≡ true =
        ground arith in
      let rest : (page + i) % page_size ≡ i = omega arith in rw (here, rest)

  put-fails :
      (t : Pages) (root page frame : ℕ) (flags : Flags) (o : Option ℕ × PmmFrameAllocator)
      → (with_table t root page frame flags o).0 ≡ false
      → (address : ℕ)
      → look (with_table t root page frame flags o).1 root address ≡ look t root address
  put-fails t root page frame flags (none, a) h address = refl
  put-fails t root page frame flags (some table, a) h address = absurd (cc)

  put-others :
      (t : Pages) (root page frame : ℕ) (flags : Flags) (address : ℕ)
      (o : Option ℕ × PmmFrameAllocator)
      → address / page_size ≢ page / page_size
      → look (with_table t root page frame flags o).1 root address ≡ look t root address
  put-others t root page frame flags address (none, a) ne = refl
  put-others t root page frame flags address (some table, a) ne =
      let apart : (root == root && address / page_size == page / page_size) ≡ false =
        ground arith in
      rw apart

  put-flagged :
      (t : Pages) (root page frame : ℕ) (flags : Flags) (o : Option ℕ × PmmFrameAllocator)
      → (with_table t root page frame flags o).0 ≡ true
      → look_flags (with_table t root page frame flags o).1 root page ≡ some flags
  put-flagged t root page frame flags (none, a) h = absurd (cc)
  put-flagged t root page frame flags (some table, a) h =
      let here : (root == root && page / page_size == page / page_size) ≡ true = ground arith in
      rw here

  put-others_flagged :
      (t : Pages) (root page frame : ℕ) (flags : Flags) (address : ℕ)
      (o : Option ℕ × PmmFrameAllocator)
      → address / page_size ≢ page / page_size
      → look_flags (with_table t root page frame flags o).1 root address ≡ look_flags t root address
  put-others_flagged t root page frame flags address (none, a) ne = refl
  put-others_flagged t root page frame flags address (some table, a) ne =
      let apart : (root == root && address / page_size == page / page_size) ≡ false =
        ground arith in
      rw apart

  put-takes :
      (P : PmmFrameAllocator → Type 0) (t : Pages) (root page frame : ℕ) (flags : Flags)
      (o : Option ℕ × PmmFrameAllocator)
      → P o.1
      → P (with_table t root page frame flags o).2
  put-takes P t root page frame flags (none, a) p = p
  put-takes P t root page frame flags (some table, a) p = p

  abbrev simple : Mapper n
  simple = record {
    Tables = Pages;
    translate = look;
    flags_at = look_flags;
    map_to = put;
    maps = λ t a root page frame flags al al' h i lt.
        put-maps t root page frame flags (allocate_physical n a) al h i lt;
    fails = λ t a root page frame flags h address.
        put-fails t root page frame flags (allocate_physical n a) h address;
    others = λ t a root page frame flags address ne.
        put-others t root page frame flags address (allocate_physical n a) ne;
    flagged = λ t a root page frame flags h.
        put-flagged t root page frame flags (allocate_physical n a) h;
    others_flagged = λ t a root page frame flags address ne.
        put-others_flagged t root page frame flags address (allocate_physical n a) ne;
    takes = λ P keeps t a root page frame flags p.
        put-takes P t root page frame flags (allocate_physical n a) (keeps a p);
  }

-- Pages 1 to 7, all free.
abbrev seven : PhysicalMemory
seven = record {
  managed = record { start = 4096; end = 32768 } ∷ [];
  free = record { start = 4096; end = 32768 } ∷ [];
  total_bytes = 28672;
  free_bytes = 28672;
}

seven-IsValid : IsValid 8 seven
unfolding bytes covers
seven-IsValid = record {
  canon = omega arith;
  managed_canon = omega arith;
  aligned = (refl, refl, tt);
  fits = omega arith;
  managed_fits = omega arith;
  total = refl;
  free_sum = refl;
  within = λ a h. h;
}

abbrev empty_machine : Machine Pages
empty_machine = record { tables = λ root page. none; pmm = seven; ram = λ a. 7 }

map_user_page-IsMapping_example :
    IsMapping
      (simple 8)
      65536
      8192
      4194304
      (user_flags true false)
      (1 ∷ 2 ∷ [])
      empty_machine
      (map_user_page (simple 8) 65536 8192 4194304 true false (1 ∷ 2 ∷ []) empty_machine)
map_user_page-IsMapping_example =
    map_user_page-IsMapping (simple 8) 65536 8192 4194304 true false (1 ∷ 2 ∷ []) empty_machine
      seven-IsValid

-- The registers of a local interrupt controller, at an address inside a page.
abbrev no_device : MmioState Pages
no_device = record {
  tables = λ root page. none;
  pmm = some seven;
  offset = some 65536;
  next_mmio = 0x555500000000;
}

map_mmio-IsDevice_example :
    IsDevice
      (simple 8)
      8192
      0xfee00010
      5000
      no_device
      (map_mmio (simple 8) 8192 0xfee00010 5000 no_device)
map_mmio-IsDevice_example =
    map_mmio-IsDevice (simple 8) 8192 0xfee00010 5000 no_device (omega arith) seven-IsValid

map_heap-IsHeap_example :
    IsHeap
      (simple 8)
      65536
      8192
      0x444400000000
      8192
      empty_machine
      (map_heap (simple 8) 65536 8192 0x444400000000 8192 empty_machine)
map_heap-IsHeap_example =
    map_heap-IsHeap (simple 8) 65536 8192 0x444400000000 8192 empty_machine seven-IsValid

abbrev dma_state : DmaState
dma_state = record { pmm = some seven; offset = some 65536; ram = λ a. 7 }

allocate_dma-IsRegion_example : IsRegion 8 2 dma_state (allocate_dma 8 2 dma_state)
allocate_dma-IsRegion_example = allocate_dma-IsRegion 8 2 dma_state seven-IsValid

-- The memory with its first one and its first two pages taken.
abbrev six : PhysicalMemory
six = record seven { free = record { start = 8192; end = 32768 } ∷ []; free_bytes = 24576 }

abbrev five : PhysicalMemory
five = record seven { free = record { start = 12288; end = 32768 } ∷ []; free_bytes = 20480 }

first_frame : allocate_frame 8 seven ≡ (ok (some 4096), six)
unfolding allocate_frame allocate_pages is_power_of_two align_up carve
first_frame = refl

second_frame : allocate_frame 8 six ≡ (ok (some 8192), five)
unfolding allocate_frame allocate_pages is_power_of_two align_up carve
second_frame = refl

verify_physical_memory-restores_example :
    (ram' : ℕ → ℕ) × (verify_physical_memory 8 65536 seven (λ a. 7) ≡ some (seven, ram'))
    × IsProbed (65536 + 4096) (65536 + 8192) (λ a. 7) ram'
verify_physical_memory-restores_example =
    verify_physical_memory-restores 8 65536 4096 8192 seven six five (λ a. 7) seven-IsValid
      first_frame second_frame (omega arith) (omega arith)

-- The heap gets two pages, each with a frame for its table; the device its address; user pages a frame.
abbrev is_heap_of : ℕ → ℕ → Option (HeapMapping × Machine Pages) → Bool
is_heap_of pages frames none = false
is_heap_of pages frames (some (mapping, s)) =
    mapping.mapped_pages == pages && mapping.page_table_and_heap_frames == frames

heap_mapped_there :
    is_heap_of 2 4 (map_heap (simple 8) 65536 8192 0x444400000000 8192 empty_machine) ≡ true
unfolding map_heap map_heap_pages pages_unmapped allocate_physical zero_physical_frame
    allocate_frame allocate_pages is_power_of_two align_up carve
heap_mapped_there = refl

device_there : (map_mmio (simple 8) 8192 0xfee00010 5000 no_device).0 ≡ some 0x555500000010
unfolding map_mmio map_mmio_range map_mmio_pages allocate_physical allocate_frame allocate_pages
    is_power_of_two align_up align_down carve
device_there = refl

-- Three bytes of a program at the end of a page, and a page of zeros behind them.
abbrev program : ElfImage
program = record {
  entry = 4194304 + 4093;
  segments =
      record {
        virtual_address = 4194304 + 4093;
        file_data = 1 ∷ 2 ∷ 3 ∷ [];
        readable = true;
        alignment = 4096;
        memory_size = 4099;
        writable = false;
        executable = true;
      }
      ∷ [];
}

load_image-IsResidentImage_example :
    IsResidentImage
      (simple 8)
      65536
      8192
      program
      (load_image (loader_space (simple 8) 65536 8192) program (empty_machine, seven-IsValid))
load_image-IsResidentImage_example =
    load_image-IsResidentImage (simple 8) 65536 8192 program (empty_machine, seven-IsValid)
