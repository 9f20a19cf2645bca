-- ===== src/Vfs/Backends.antt =====
-- The two implementations of the trait `FileSystem`: `RamFs` of vfs.rs and `GenericFs` of genericfs.rs.
use generic_kernel.Common.{[], ◌∷◌}
use generic_kernel.Vfs.{file, directory}
use generic_kernel.Vfs.Mounts.{FileSystem}
use generic_kernel.Vfs.RamFs.{
  RamFs, create_node, lookup, ram_metadata, ram_read_dir, ram_read, ram_write, ram_truncate,
  ram_remove,
}
use generic_kernel.GenericFs.Device.{BlockDevice}
use generic_kernel.GenericFs.Table.{metadata, find_child, create, remove}
use generic_kernel.GenericFs.Ops.{read_dir, read_file, write_file, truncate}

abbrev pub ramfs : FileSystem
ramfs = record {
  State = RamFs;
  name = b'r' ∷ b'a' ∷ b'm' ∷ b'f' ∷ b's' ∷ [];
  root_inode = 1;
  metadata = ram_metadata;
  lookup = lookup;
  read_dir = ram_read_dir;
  create_file = λ parent name. create_node parent name file;
  create_dir = λ parent name. create_node parent name directory;
  read = ram_read;
  write = ram_write;
  truncate = ram_truncate;
  remove = ram_remove;
}

abbrev pub genericfs : BlockDevice → FileSystem
genericfs dev = record {
  State = dev.Disk;
  name = b'g' ∷ b'e' ∷ b'n' ∷ b'e' ∷ b'r' ∷ b'i' ∷ b'c' ∷ b'f' ∷ b's' ∷ [];
  root_inode = 1;
  metadata = metadata dev;
  lookup = find_child dev;
  read_dir = read_dir dev;
  create_file = λ parent name. create dev parent name 1;
  create_dir = λ parent name. create dev parent name 2;
  read = read_file dev;
  write = write_file dev;
  truncate = truncate dev;
  remove = remove dev;
}
