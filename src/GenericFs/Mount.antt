-- ===== src/GenericFs/Mount.antt =====
-- `GenericFs::mount` and `format` of genericfs.rs.
use generic_kernel.Common.{
  ℕ, zero, suc, ◌+◌, Bool, true, false, not, ◌||◌, List, [], ◌∷◌, leb, ◌==◌, if◌then◌else◌, err,
}
use generic_kernel.Bytes.{slice, write_at, from_le, to_le}
use generic_kernel.Vfs.{VfsError, same_bytes}
use generic_kernel.GenericFs.Device.{BlockDevice, Sector, M, pure, ◌>>=◌, ◌>>◌}
use generic_kernel.GenericFs.Codec.{root_inode, read_word, write_word}
use generic_kernel.GenericFs.Table.{
  read_inode, write_inode, read, write, check, zero_sector, data_start, inode_count,
}

-- `MAGIC`: "GENFS1" and two NULs.
abbrev pub magic : List ℕ
magic = b'G' ∷ b'E' ∷ b'N' ∷ b'F' ∷ b'S' ∷ b'1' ∷ 0 ∷ 0 ∷ []

abbrev pub version : ℕ
version = 1

module _ (dev : BlockDevice) where
  open dev use {Disk, sector_count}

  unfoldable pub zero_table : ℕ → ℕ → M Disk (Unit {0})
  zero_table zero sector = pure tt
  zero_table (suc rounds) sector = do write dev sector zero_sector; zero_table rounds (suc sector)

  unfoldable pub superblock : ℕ → Sector
  unfolding write_at to_le
  superblock count = write_word 8 24 count (
      write_word 8 16 data_start
        (write_word 4 12 inode_count (write_word 4 8 version (write_at 0 magic zero_sector))))

  unfoldable pub format : M Disk (Unit {0})
  unfolding zero_table superblock write_inode
  format = do
    zero_table data_start 0
    λ d. (do write dev 0 (superblock (sector_count d)); write_inode dev 1 root_inode) d

  -- The four words of the superblock that `mount` compares.
  abbrev pub wrong_words : Sector → ℕ → Bool
  wrong_words block count =
      not (read_word 4 block 8 == version)
      || not (read_word 4 block 12 == inode_count)
      || not (read_word 8 block 16 == data_start)
      || not (read_word 8 block 24 == count)

  -- Whether the device was formatted is the result.
  unfoldable pub mount : Bool → M Disk Bool
  unfolding from_le same_bytes read_inode format
  mount format_if_missing d =
      if leb (sector_count d) (data_start + 1)
      then (err VfsError.no_space, d)
      else (do
        block ← read dev 0
        elim (same_bytes (slice 0 8 block) magic) [
          | true ↦ do
            check dev (wrong_words block (sector_count d)) VfsError.corrupt_filesystem
            root ← read_inode dev 1
            check dev (not (root.kind == 2)) VfsError.corrupt_filesystem
            pure false
          | false ↦ do
            check dev (not format_if_missing) VfsError.corrupt_filesystem
            format
            pure true
        ])
          d
