-- ===== src/Pmm/Inv.antt =====
-- The representation invariant of `PhysicalMemory<N>`.
use generic_kernel.Common.{ℕ, ◌≤◌, ◌≡◌, true, arith, length, u64_mod, ◌-◌, ◌+◌}
use generic_kernel.Ranges.{bytes, covers}
use generic_kernel.Ranges.Canon.{Canon, Aligned, bytes-le}
use generic_kernel.Ranges.Cover.{bytes_mono}
use generic_kernel.Pmm.{PhysicalMemory, page_size, used_bytes}

-- The last address of a u64.
abbrev pub max_address : ℕ
max_address = u64_mod - 1

-- Both tables are canonical and page-aligned, start above the null page and fit the arrays; the free
-- addresses are managed ones; the counters are the sums of the tables.
pub record IsValid (n : ℕ) (m : PhysicalMemory) : Type 0 where
  pub canon : Canon page_size max_address m.free
  pub managed_canon : Canon page_size max_address m.managed
  pub aligned : Aligned m.free
  pub fits : length m.free ≤ n
  pub managed_fits : length m.managed ≤ n
  pub total : m.total_bytes ≡ bytes m.managed
  pub free_sum : m.free_bytes ≡ bytes m.free
  pub within : (a : ℕ) → covers m.free a ≡ true → covers m.managed a ≡ true

module _ {n : ℕ} {m : PhysicalMemory} (v : IsValid n m) where
  pub free-le-total : m.free_bytes ≤ m.total_bytes
  free-le-total = omega (
    arith,
    v.total,
    v.free_sum,
    bytes_mono page_size max_address page_size max_address m.free m.managed v.canon v.managed_canon
        (omega arith) v.within,
  )

  pub total-lt : m.total_bytes ≤ max_address - page_size
  total-lt = omega (arith, v.total, total_bound)
    where
      total_bound : bytes m.managed ≤ max_address - page_size
      total_bound = bytes-le page_size max_address m.managed v.managed_canon (omega arith)

  -- `used_bytes` does not underflow: with the free bytes it makes up the total.
  pub used_bytes-add-free : used_bytes m + m.free_bytes ≡ m.total_bytes
  unfolding used_bytes
  used_bytes-add-free = omega (arith, free-le-total, total-lt)
