-- ===== src/Mapping.antt =====
-- kernel/src/arch/memory.rs and kernel/src/mm/mod.rs: the mappings that the kernel makes, of user pages,
-- of its heap and of devices, with the frames that they take from the physical memory manager. The
-- mapper of the x86_64 crate is the parameter `Mapper`, the physical memory a function from the addresses
-- of the direct map to bytes.
pub mod Taking
pub mod Clearing
pub mod UserPage
pub mod LoaderSpace
pub mod Mmio
pub mod Devices
pub mod HeapMap
pub mod HeapPages
pub mod HeapGuards
pub mod Dma
pub mod Regions
pub mod Probe
mod Tests
use generic_kernel.Common.{
  ℕ, zero, suc, ◌+◌, ◌-◌, ◌*◌, ◌/◌, ◌%◌, ◌^◌, ◌<◌, ◌≡◌, ◌≢◌, Bool, true, false, not, ◌&&◌, ◌||◌,
  List, [], ◌∷◌, Option, none, some, Result, ok, err, ◌>>=◌, ◌>>◌, ok_or, refuse_if, ltb, leb, ◌==◌,
  if◌then◌else◌, length, get_or, checked_add, checked_mul, align_down, u64_mod,
}
use generic_kernel.Pmm.{
  PhysicalMemory, PhysicalMemoryError, page_size, allocate_frame, allocate_pages, free_pages,
}
use generic_kernel.UserMemory.{user_address_limit}

-- `PmmFrameAllocator`.
pub record PmmFrameAllocator : Type 0 where
  pub pmm : PhysicalMemory
  pub allocated : ℕ

-- `allocate_frame().ok().flatten()`, and the count.
abbrev pub counted_frame :
    ℕ → Result PhysicalMemoryError (Option ℕ) × PhysicalMemory → Option ℕ × PmmFrameAllocator
counted_frame before (ok (some address), m) =
    (some address, record { pmm = m; allocated = suc before })
counted_frame before (ok none, m) = (none, record { pmm = m; allocated = before })
counted_frame before (err e, m) = (none, record { pmm = m; allocated = before })

unfoldable pub allocate_physical : ℕ → PmmFrameAllocator → Option ℕ × PmmFrameAllocator
allocate_physical n a = counted_frame a.allocated (allocate_frame n a.pmm)

-- The flags of `PageTableFlags` that the code sets.
pub record Flags : Type 0 where
  pub present : Bool
  pub writable : Bool
  pub user_accessible : Bool
  pub write_through : Bool
  pub no_cache : Bool
  pub no_execute : Bool

-- What the code relies on in `OffsetPageTable`: `translate` looks an address up in the tree at a root,
-- `flags_at` the flags of its page. `map_to` maps a page to a frame with flags, or fails and maps nothing;
-- the addresses outside the page are looked up as before, and frames for tables come from the allocator
-- only.
pub record Mapper (n : ℕ) : Type 1 where
  pub Tables : Type 0
  pub translate : Tables → ℕ → ℕ → Option ℕ
  pub flags_at : Tables → ℕ → ℕ → Option Flags
  pub map_to : Tables → PmmFrameAllocator → ℕ → ℕ → ℕ → Flags → Bool × Tables × PmmFrameAllocator
  pub maps :
      (t : Tables) (a : PmmFrameAllocator) (root page frame : ℕ) (flags : Flags)
      → page % page_size ≡ 0
      → frame % page_size ≡ 0
      → (map_to t a root page frame flags).0 ≡ true
      → (i : ℕ) → i < page_size
      → translate (map_to t a root page frame flags).1 root (page + i) ≡ some (frame + i)
  pub fails :
      (t : Tables) (a : PmmFrameAllocator) (root page frame : ℕ) (flags : Flags)
      → (map_to t a root page frame flags).0 ≡ false
      → (address : ℕ)
      → translate (map_to t a root page frame flags).1 root address ≡ translate t root address
  pub others :
      (t : Tables) (a : PmmFrameAllocator) (root page frame : ℕ) (flags : Flags) (address : ℕ)
      → address / page_size ≢ page / page_size
      → translate (map_to t a root page frame flags).1 root address ≡ translate t root address
  pub flagged :
      (t : Tables) (a : PmmFrameAllocator) (root page frame : ℕ) (flags : Flags)
      → (map_to t a root page frame flags).0 ≡ true
      → flags_at (map_to t a root page frame flags).1 root page ≡ some flags
  pub others_flagged :
      (t : Tables) (a : PmmFrameAllocator) (root page frame : ℕ) (flags : Flags) (address : ℕ)
      → address / page_size ≢ page / page_size
      → flags_at (map_to t a root page frame flags).1 root address ≡ flags_at t root address
  pub takes :
      (P : PmmFrameAllocator → Type 0)
      → ((a : PmmFrameAllocator) → P a → P (allocate_physical n a).1)
      → (t : Tables) (a : PmmFrameAllocator) (root page frame : ℕ) (flags : Flags) → P a
      → P (map_to t a root page frame flags).2

-- The flags of a user page.
abbrev pub user_flags : Bool → Bool → Flags
user_flags writable executable = record {
  present = true;
  writable = writable;
  user_accessible = true;
  write_through = false;
  no_cache = false;
  no_execute = not executable;
}

abbrev pub Ram : Type 0
Ram = ℕ → ℕ

abbrev pub inside_page : ℕ → ℕ → Bool
inside_page base a = leb base a && ltb a (base + page_size)

-- `zero_physical_frame`, which panics where the address overflows.
unfoldable pub zero_physical_frame : ℕ → ℕ → Ram → Option Ram
zero_physical_frame offset physical ram = elim (checked_add offset physical) [
  | none ↦ none
  | some base ↦ some (λ a. if inside_page base a then 0 else ram a)
]

-- `copy_nonoverlapping` of the initial bytes to an address of the direct map.
abbrev pub copy_initial : List ℕ → ℕ → Ram → Ram
copy_initial initial base ram a =
    if leb base a && ltb a (base + length initial) then get_or initial (a - base) 0 else ram a

-- The messages of `map_user_page`, and the panic of `zero_physical_frame`.
pub data UserMapError : Type 0 where
  unaligned too_long exceeds_limit bad_root already_mapped out_of_memory direct_map_overflow
        map_failed direct_map_panic :
      UserMapError

pub record Machine (Tables : Type 0) : Type 0 where
  pub tables : Tables
  pub pmm : PhysicalMemory
  pub ram : Ram

module _ {n : ℕ} (mapper : Mapper n) where
  open mapper use {Tables, translate, map_to}

  abbrev pub Mapped : Type 0
  Mapped = Result UserMapError ℕ × Machine Tables

  -- From the flags on: the frame is mapped.
  abbrev pub user_linked : ℕ → Ram → Bool × Tables × PmmFrameAllocator → Mapped
  user_linked physical ram (true, t, a) =
      (ok physical, record { tables = t; pmm = a.pmm; ram = ram })
  user_linked physical ram (false, t, a) =
      (err UserMapError.map_failed, record { tables = t; pmm = a.pmm; ram = ram })

  -- From the copy on, into the frame at an address of the direct map.
  abbrev pub user_copied :
      ℕ
      → List ℕ
      → Ram
      → Machine Tables
      → PmmFrameAllocator
      → Bool × Tables × PmmFrameAllocator
      → Option ℕ
      → Mapped
  user_copied physical initial ram s a mapped none =
      (err UserMapError.direct_map_overflow, record s { pmm = a.pmm; ram = ram })
  user_copied physical initial ram s a mapped (some direct) =
      user_linked physical (copy_initial initial direct ram) mapped

  -- From the cleared frame on.
  abbrev pub user_zeroed :
      ℕ
      → ℕ
      → List ℕ
      → Machine Tables
      → PmmFrameAllocator
      → Bool × Tables × PmmFrameAllocator
      → Option Ram
      → Mapped
  user_zeroed offset physical initial s a mapped none =
      (err UserMapError.direct_map_panic, record s { pmm = a.pmm })
  user_zeroed offset physical initial s a mapped (some ram) =
      if length initial == 0
      then user_linked physical ram mapped
      else user_copied physical initial ram s a mapped (checked_add offset physical)

  -- From the frame on.
  abbrev pub user_filled :
      ℕ → ℕ → ℕ → Bool → Bool → List ℕ → Machine Tables → Option ℕ × PmmFrameAllocator → Mapped
  user_filled offset root virtual_address writable executable initial s (none, a) =
      (err UserMapError.out_of_memory, record s { pmm = a.pmm })
  user_filled offset root virtual_address writable executable initial s (some physical, a) =
      user_zeroed offset physical initial s a
        (map_to s.tables a root virtual_address physical (user_flags writable executable))
        (zero_physical_frame offset physical s.ram)

  unfoldable pub map_user_page : ℕ → ℕ → ℕ → Bool → Bool → List ℕ → Machine Tables → Mapped
  map_user_page offset root virtual_address writable executable initial s =
      if not (virtual_address % page_size == 0)
      then (err UserMapError.unaligned, s)
      else if ltb page_size (length initial)
      then (err UserMapError.too_long, s)
      else if leb user_address_limit virtual_address
      then (err UserMapError.exceeds_limit, s)
      else if not (root % page_size == 0)
      then (err UserMapError.bad_root, s)
      else elim (translate s.tables root virtual_address) [
        | some frame ↦ (err UserMapError.already_mapped, s)
        | none ↦
            user_filled offset root virtual_address writable executable initial s
              (allocate_physical n (record { pmm = s.pmm; allocated = 0 }))
      ]
