-- ===== src/GenericFs/Codec.antt =====
-- The on-disk inode of genericfs.rs: `DiskInode`, `encode_inode`, `decode_inode`, and their round trip.
use generic_kernel.Common.{
  ℕ, ◌||◌, List, ltb, ◌==◌, length, Result, ok, err, if◌then◌else◌, replicate, take,
}
use generic_kernel.Bytes.{slice, write_at, to_le, from_le, is_utf8}
use generic_kernel.Vfs.{VfsError, NodeKind, file, directory}

pub record DiskInode : Type 0 where
  pub kind : ℕ
  pub name_len : ℕ
  pub parent : ℕ
  pub len : ℕ
  pub start_sector : ℕ
  pub sector_count : ℕ
  pub name : List ℕ

abbrev pub inode_size : ℕ
inode_size = 128

abbrev pub max_disk_name : ℕ
max_disk_name = 63

-- `DiskInode::empty` and `DiskInode::root`.
abbrev pub empty_inode : DiskInode
empty_inode = record {
  kind = 0;
  name_len = 0;
  parent = 0;
  len = 0;
  start_sector = 0;
  sector_count = 0;
  name = replicate 64 0;
}

abbrev pub root_inode : DiskInode
root_inode = record empty_inode { kind = 2; parent = 1 }

unfoldable pub node_kind : DiskInode → Result VfsError NodeKind
node_kind e =
    if 1 == e.kind then ok file else if 2 == e.kind then ok directory else err VfsError.not_found

-- `DiskInode::name`.
unfoldable pub inode_name : DiskInode → Result VfsError (List ℕ)
unfolding is_utf8
inode_name e =
    let text = take e.name_len e.name in
    if is_utf8 text then ok text else err VfsError.corrupt_filesystem

-- `read_u32`, `read_u64`, `write_u32`, `write_u64`.
abbrev pub read_word : ℕ → List ℕ → ℕ → ℕ
read_word n buffer offset = from_le (slice offset n buffer)

abbrev pub write_word : ℕ → ℕ → ℕ → List ℕ → List ℕ
write_word n offset value buffer = write_at offset (to_le n value) buffer

-- `encode_inode` into the slot `raw`; `write_word 1` stores one byte.
unfoldable pub encode_inode : List ℕ → DiskInode → List ℕ
unfolding write_at to_le
encode_inode raw e = write_at 32 e.name (
    write_word 4 28 e.sector_count (
      write_word 8 20 e.start_sector (
        write_word 8 12 e.len (
          write_word 8 4 e.parent
            (write_word 1 2 e.name_len (write_word 1 0 e.kind (replicate (length raw) 0)))))))

unfoldable pub decode_inode : List ℕ → Result VfsError DiskInode
unfolding from_le
decode_inode raw =
    let entry : DiskInode = record {
      kind = read_word 1 raw 0;
      name_len = read_word 1 raw 2;
      parent = read_word 8 raw 4;
      len = read_word 8 raw 12;
      start_sector = read_word 8 raw 20;
      sector_count = read_word 4 raw 28;
      name = slice 32 64 raw;
    } in
    if ltb max_disk_name entry.name_len || ltb 2 entry.kind
    then err VfsError.corrupt_filesystem
    else ok entry
