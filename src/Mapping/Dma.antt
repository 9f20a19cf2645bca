-- ===== src/Mapping/Dma.antt =====
-- kernel/src/mm/mod.rs: `allocate_dma` and `verify_physical_memory`. The volatile accesses of the latter
-- are plain ones here.
use generic_kernel.Common.{
  ℕ, ◌+◌, ◌&&◌, Option, none, some, Result, ok, err, ltb, leb, ◌==◌, if◌then◌else◌, checked_add,
  checked_mul,
}
use generic_kernel.Pmm.{
  PhysicalMemory, PhysicalMemoryError, page_size, allocate_frame, allocate_pages, free_pages,
}
use generic_kernel.Mapping.{Ram, inside_page}

pub record DmaRegion : Type 0 where
  pub physical : ℕ
  pub virtual_address : ℕ
  pub pages : ℕ

-- The two statics, and the bytes of the direct map.
pub record DmaState : Type 0 where
  pub pmm : Option PhysicalMemory
  pub offset : Option ℕ
  pub ram : Ram

-- `write_bytes` of zeros.
abbrev pub zero_bytes : ℕ → ℕ → Ram → Ram
zero_bytes base bytes ram a = if leb base a && ltb a (base + bytes) then 0 else ram a

-- From the number of bytes on.
abbrev pub dma_cleared : ℕ → ℕ → ℕ → DmaState → Option ℕ → Option DmaRegion × DmaState
dma_cleared pages start virtual_address s none = (none, s)
dma_cleared pages start virtual_address s (some bytes) = (
  some (record { physical = start; virtual_address = virtual_address; pages = pages }),
  record s { ram = zero_bytes virtual_address bytes s.ram },
)

-- From the address in the direct map on.
abbrev pub dma_addressed : ℕ → ℕ → DmaState → Option ℕ → Option DmaRegion × DmaState
dma_addressed pages start s none = (none, s)
dma_addressed pages start s (some virtual_address) =
    dma_cleared pages start virtual_address s (checked_mul pages page_size)

-- From `allocate_pages(pages, 1).ok().flatten()?` on.
abbrev pub dma_allocated :
    ℕ
    → ℕ
    → DmaState
    → Result PhysicalMemoryError (Option ℕ) × PhysicalMemory
    → Option DmaRegion × DmaState
dma_allocated pages offset s (err e, m) = (none, record s { pmm = some m })
dma_allocated pages offset s (ok none, m) = (none, record s { pmm = some m })
dma_allocated pages offset s (ok (some start), m) =
    dma_addressed pages start (record s { pmm = some m }) (checked_add offset start)

-- From the locks on.
abbrev pub dma_locked :
    ℕ → ℕ → DmaState → Option ℕ → Option PhysicalMemory → Option DmaRegion × DmaState
dma_locked n pages s none lock = (none, s)
dma_locked n pages s (some offset) none = (none, s)
dma_locked n pages s (some offset) (some m) =
    dma_allocated pages offset s (allocate_pages n m pages 1)

unfoldable pub allocate_dma : ℕ → ℕ → DmaState → Option DmaRegion × DmaState
allocate_dma n pages s = if pages == 0 then (none, s) else dma_locked n pages s s.offset s.pmm

-- One round of the loop over the two frames: the page is cleared, its first byte set, read and cleared;
-- `none` is a panic.
abbrev pub set_byte : ℕ → ℕ → Ram → Ram
set_byte at value ram a = if a == at then value else ram a

abbrev pub probed_at : Ram → Option ℕ → Option Ram
probed_at ram none = none
probed_at ram (some base) =
    let marked = set_byte base 0xa5 (λ a. if inside_page base a then 0 else ram a) in
    if marked base == 0xa5 then some (set_byte base 0 marked) else none

abbrev pub probe : ℕ → ℕ → Ram → Option Ram
probe offset physical ram = probed_at ram (checked_add offset physical)

-- The returns of the frames, the second one first.
abbrev pub first_returned :
    Ram → Result PhysicalMemoryError (Unit {0}) × PhysicalMemory → Option (PhysicalMemory × Ram)
first_returned ram (err e, m) = none
first_returned ram (ok _, m) = some (m, ram)

abbrev pub second_returned :
    ℕ
    → ℕ
    → Ram
    → Result PhysicalMemoryError (Unit {0}) × PhysicalMemory
    → Option (PhysicalMemory × Ram)
second_returned n first ram (err e, m) = none
second_returned n first ram (ok _, m) = first_returned ram (free_pages n m first 1)

-- From the frames on, with the memory after a round.
abbrev pub both_probed : ℕ → ℕ → ℕ → PhysicalMemory → Option Ram → Option (PhysicalMemory × Ram)
both_probed n first second m none = none
both_probed n first second m (some ram) = second_returned n first ram (free_pages n m second 1)

abbrev pub first_probed :
    ℕ → ℕ → ℕ → ℕ → PhysicalMemory → Option Ram → Option (PhysicalMemory × Ram)
first_probed n offset first second m none = none
first_probed n offset first second m (some ram) =
    both_probed n first second m (probe offset second ram)

abbrev pub second_taken :
    ℕ
    → ℕ
    → ℕ
    → Ram
    → Result PhysicalMemoryError (Option ℕ) × PhysicalMemory
    → Option (PhysicalMemory × Ram)
second_taken n offset first ram (err e, m) = none
second_taken n offset first ram (ok none, m) = none
second_taken n offset first ram (ok (some second), m) =
    if first == second then none else first_probed n offset first second m (probe offset first ram)

abbrev pub first_taken :
    ℕ
    → ℕ
    → Ram
    → Result PhysicalMemoryError (Option ℕ) × PhysicalMemory
    → Option (PhysicalMemory × Ram)
first_taken n offset ram (err e, m) = none
first_taken n offset ram (ok none, m) = none
first_taken n offset ram (ok (some first), m) = second_taken n offset first ram (allocate_frame n m)

unfoldable pub verify_physical_memory : ℕ → ℕ → PhysicalMemory → Ram → Option (PhysicalMemory × Ram)
verify_physical_memory n offset pmm ram = first_taken n offset ram (allocate_frame n pmm)
