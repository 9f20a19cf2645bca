-- ===== src/GenericFs/Device.antt =====
-- crates/kernel-core/src/block.rs: the trait `BlockDevice`, and the operations of genericfs.rs as
-- actions on the state of a device.
use generic_kernel.Common.{ℕ, ◌≡◌, ◌≢◌, List, length, Result, ok}
use generic_kernel.Vfs.{VfsError}
pub use generic_kernel.Vfs.Action.{M, pure, throw, lift, then, ◌>>=◌, ◌>>◌}

pub data BlockError : Type 0 where
  out_of_range read_only io : BlockError

abbrev pub sector_size : ℕ
sector_size = 512

abbrev pub Sector : Type 0
Sector = List ℕ

-- What the file system relies on: a sector reads as it was last written, and a write changes no other
-- sector, nor the size of the device.
pub record BlockDevice : Type 1 where
  pub Disk : Type 0
  pub sector_count : Disk → ℕ
  pub read_sector : Disk → ℕ → Result BlockError Sector
  pub write_sector : Disk → ℕ → Sector → Result BlockError (Unit {0}) × Disk
  pub read_written :
      (d d' : Disk) (s : ℕ) (b : Sector)
      → write_sector d s b ≡ (ok tt, d')
      → read_sector d' s ≡ ok b
  pub read_other :
      (d d' : Disk) (s t : ℕ) (b : Sector)
      → write_sector d s b ≡ (ok tt, d')
      → s ≢ t
      → read_sector d' t ≡ read_sector d t
  pub count_kept :
      (d d' : Disk) (s : ℕ) (b : Sector)
      → write_sector d s b ≡ (ok tt, d')
      → sector_count d' ≡ sector_count d
  pub sector_length :
      (d : Disk) (s : ℕ) (b : Sector) → read_sector d s ≡ ok b → length b ≡ sector_size

-- `map_block`.
unfoldable pub map_block : BlockError → VfsError
map_block BlockError.out_of_range = VfsError.corrupt_filesystem
map_block BlockError.read_only = VfsError.io
map_block BlockError.io = VfsError.io
