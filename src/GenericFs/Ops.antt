-- ===== src/GenericFs/Ops.antt =====
-- The operations of `impl FileSystem for GenericFs` on the bytes of a file: `read`, `write`, `truncate`;
-- and `read_dir`.
use generic_kernel.Common.{
  ℕ, zero, suc, ◌+◌, ◌-◌, ◌/◌, ◌%◌, true, false, not, ◌&&◌, List, [], ◌∷◌, ltb, leb, ◌==◌,
  if◌then◌else◌, length, ◌++◌, max, min, u64_mod,
}
use generic_kernel.Bytes.{slice, write_at}
use generic_kernel.Vfs.{VfsError, DirEntry, is_directory_kind, le_bytes}
use generic_kernel.GenericFs.Device.{BlockDevice, sector_size, M, pure, lift, ◌>>=◌, ◌>>◌}
use generic_kernel.GenericFs.Codec.{DiskInode, node_kind, inode_name}
use generic_kernel.GenericFs.Table.{read_inode, write_inode, read, write, check, metadata}
use generic_kernel.GenericFs.Extent.{add64, part, ensure_capacity, zero_range, sectors_for_len}

unfoldable pub insert_entry : DirEntry → List DirEntry → List DirEntry
unfolding le_bytes
insert_entry x [] = x ∷ []
insert_entry x (y ∷ ys) = if le_bytes x.name y.name then x ∷ y ∷ ys else y ∷ insert_entry x ys

unfoldable pub sort_entries : List DirEntry → List DirEntry
unfolding insert_entry
sort_entries [] = []
sort_entries (x ∷ xs) = insert_entry x (sort_entries xs)

module _ (dev : BlockDevice) where
  open dev use {Disk}

  -- The entry of a file; a directory is refused.
  abbrev pub file_entry : ℕ → M Disk DiskInode
  file_entry inode = do
    entry ← read_inode dev inode
    kind ← lift (node_kind entry)
    check dev (is_directory_kind kind) VfsError.is_directory
    pure entry

  -- The loop of `read`: the bytes from `done` to `total`, with the rounds that are left.
  unfoldable pub read_from : ℕ → DiskInode → ℕ → ℕ → ℕ → M Disk (List ℕ)
  read_from zero entry offset total done = pure []
  read_from (suc rounds) entry offset total done = elim (ltb done total) [
    | false ↦ pure []
    | true ↦ do
      let position = offset + done
      let count = part dev position (offset + total)
      sector ← read dev (add64 entry.start_sector (position / sector_size))
      rest ← read_from rounds entry offset total (done + count)
      pure (slice (position % sector_size) count sector ++ rest)
  ]

  -- The bytes that `read` puts into a buffer of `size` bytes; their number is what it returns.
  unfoldable pub read_file : ℕ → ℕ → ℕ → M Disk (List ℕ)
  unfolding read_inode node_kind read_from
  read_file inode offset size = do
    entry ← file_entry inode
    let total = min size (entry.len - offset)
    elim (leb entry.len offset) [ true ↦ pure [] | false ↦ read_from total entry offset total 0 ]

  -- The loop of `write`.
  unfoldable pub write_from : ℕ → DiskInode → ℕ → List ℕ → ℕ → M Disk (Unit {0})
  unfolding write_at
  write_from zero entry offset bytes done = pure tt
  write_from (suc rounds) entry offset bytes done = elim (ltb done (length bytes)) [
    | false ↦ pure tt
    | true ↦ do
      let position = offset + done
      let count = part dev position (offset + length bytes)
      let place = add64 entry.start_sector (position / sector_size)
      sector ← read dev place
      write dev place (write_at (position % sector_size) (slice done count bytes) sector)
      write_from rounds entry offset bytes (done + count)
  ]

  unfoldable pub write_file : ℕ → ℕ → List ℕ → M Disk ℕ
  unfolding read_inode node_kind ensure_capacity zero_range write_from write_inode sectors_for_len
  write_file inode offset bytes = do
    entry ← file_entry inode
    check dev (leb u64_mod (offset + length bytes)) VfsError.offset_overflow
    let end = offset + length bytes
    grown ← ensure_capacity dev inode entry (sectors_for_len end)
    (if ltb grown.len offset then zero_range dev grown grown.len offset else pure tt)
    write_from (length bytes) grown offset bytes 0
    write_inode dev inode (record grown { len = max grown.len end })
    pure (length bytes)

  unfoldable pub truncate : ℕ → ℕ → M Disk (Unit {0})
  unfolding read_inode node_kind ensure_capacity zero_range write_inode sectors_for_len
  truncate inode len = do
    entry ← file_entry inode
    grown ← ensure_capacity dev inode entry (sectors_for_len len)
    (if ltb grown.len len then zero_range dev grown grown.len len else pure tt)
    write_inode dev inode (record grown { len = len })

  unfoldable pub children_from : ℕ → ℕ → ℕ → M Disk (List DirEntry)
  unfolding read_inode inode_name metadata
  children_from zero child parent = pure []
  children_from (suc rounds) child parent = do
    entry ← read_inode dev child
    elim (not (entry.kind == 0) && entry.parent == parent) [
      | false ↦ children_from rounds (suc child) parent
      | true ↦ do
        name ← lift (inode_name entry)
        meta ← metadata dev child
        rest ← children_from rounds (suc child) parent
        pure (record { name = name; metadata = meta } ∷ rest)
    ]

  unfoldable pub read_dir : ℕ → M Disk (List DirEntry)
  unfolding read_inode node_kind children_from sort_entries
  read_dir inode = do
    entry ← read_inode dev inode
    kind ← lift (node_kind entry)
    check dev (not (is_directory_kind kind)) VfsError.not_directory
    entries ← children_from 63 2 inode
    pure (sort_entries entries)
