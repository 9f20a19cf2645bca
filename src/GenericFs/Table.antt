-- ===== src/GenericFs/Table.antt =====
-- The inode table of genericfs.rs: reading and writing a slot, the searches over the table, `create` and
-- `remove`.
use generic_kernel.Common.{
  ℕ, zero, suc, ◌+◌, ◌-◌, ◌*◌, ◌/◌, ◌%◌, Bool, true, false, not, ◌&&◌, List, leb, ◌==◌,
  if◌then◌else◌, length, Result, ok, err, replicate,
}
use generic_kernel.Bytes.{slice, write_at}
use generic_kernel.Vfs.{VfsError, Metadata, same_bytes, is_directory_kind, validate}
use generic_kernel.GenericFs.Device.{
  BlockDevice, BlockError, Sector, map_block, M, pure, throw, lift, ◌>>=◌, ◌>>◌,
}
use generic_kernel.GenericFs.Codec.{
  DiskInode, empty_inode, inode_size, max_disk_name, node_kind, inode_name, encode_inode,
  decode_inode,
}

abbrev pub inode_count : ℕ
inode_count = 64

abbrev pub inodes_per_sector : ℕ
inodes_per_sector = 4

abbrev pub inode_table_start : ℕ
inode_table_start = 1

abbrev pub data_start : ℕ
data_start = 17

abbrev pub zero_sector : Sector
zero_sector = replicate 512 0

-- `inode_index`: the slot of an inode, which are numbered from 1.
unfoldable pub inode_index : ℕ → Result VfsError ℕ
inode_index inode =
    if inode == 0
    then err VfsError.not_found
    else if leb inode_count (inode - 1)
    then err VfsError.not_found
    else ok (inode - 1)

abbrev pub slot_sector : ℕ → ℕ
slot_sector index = inode_table_start + index / inodes_per_sector

abbrev pub slot_offset : ℕ → ℕ
slot_offset index = (index % inodes_per_sector) * inode_size

module _ (dev : BlockDevice) where
  open dev use {Disk, sector_count, read_sector, write_sector}

  -- A device call, its error mapped.
  abbrev pub fetched : Disk → Result BlockError Sector → Result VfsError Sector × Disk
  fetched d (ok b) = (ok b, d)
  fetched d (err e) = (err (map_block e), d)

  abbrev pub read : ℕ → M Disk Sector
  read s d = fetched d (read_sector d s)

  abbrev pub mapped : Result BlockError (Unit {0}) × Disk → Result VfsError (Unit {0}) × Disk
  mapped (ok u, d) = (ok u, d)
  mapped (err e, d) = (err (map_block e), d)

  abbrev pub write : ℕ → Sector → M Disk (Unit {0})
  write s b d = mapped (write_sector d s b)

  unfoldable pub read_inode : ℕ → M Disk DiskInode
  unfolding map_block inode_index decode_inode
  read_inode inode = do
    index ← lift (inode_index inode)
    raw ← read (slot_sector index)
    lift (decode_inode (slice (slot_offset index) inode_size raw))

  unfoldable pub write_inode : ℕ → DiskInode → M Disk (Unit {0})
  unfolding map_block inode_index write_at encode_inode
  write_inode inode value = do
    index ← lift (inode_index inode)
    raw ← read (slot_sector index)
    let offset = slot_offset index
    write (slot_sector index)
        (write_at offset (encode_inode (slice offset inode_size raw) value) raw)

  -- `entry.kind != 0 && entry.parent == parent && entry.name()? == name`.
  abbrev pub is_child : DiskInode → ℕ → List ℕ → Result VfsError Bool
  is_child entry parent name = elim (not (entry.kind == 0) && entry.parent == parent) [
    | true ↦ elim (inode_name entry) [ ok text ↦ ok (same_bytes text name) | err e ↦ err e ]
    | false ↦ ok false
  ]

  -- The loops over the inodes from `inode` on, `rounds` of them.
  unfoldable pub find_child_from : ℕ → ℕ → ℕ → List ℕ → M Disk ℕ
  unfolding read_inode inode_name same_bytes
  find_child_from zero inode parent name = throw VfsError.not_found
  find_child_from (suc rounds) inode parent name = do
    entry ← read_inode inode
    found ← lift (is_child entry parent name)
    elim found [ true ↦ pure inode | false ↦ find_child_from rounds (suc inode) parent name ]

  unfoldable pub find_child : ℕ → List ℕ → M Disk ℕ
  unfolding find_child_from
  find_child parent name = find_child_from 63 2 parent name

  unfoldable pub allocate_inode_from : ℕ → ℕ → M Disk ℕ
  unfolding read_inode
  allocate_inode_from zero inode = throw VfsError.no_space
  allocate_inode_from (suc rounds) inode = do
    entry ← read_inode inode
    elim (entry.kind == 0) [ true ↦ pure inode | false ↦ allocate_inode_from rounds (suc inode) ]

  unfoldable pub allocate_inode : M Disk ℕ
  unfolding allocate_inode_from
  allocate_inode = allocate_inode_from 63 2

  -- `.is_ok()` on a result.
  abbrev pub is_ok {ℓ} : {A : Type ℓ} → Result VfsError A × Disk → Result VfsError Bool × Disk
  is_ok (ok a, d) = (ok true, d)
  is_ok (err e, d) = (ok false, d)

  abbrev pub succeeds {ℓ} : {A : Type ℓ} → M Disk A → M Disk Bool
  succeeds m d = is_ok (m d)

  abbrev pub check : Bool → VfsError → M Disk (Unit {0})
  check bad e = lift (if bad then err e else ok tt)

  -- The entry that `create` writes: the name in the first bytes of its array.
  abbrev pub new_entry : ℕ → ℕ → List ℕ → DiskInode
  new_entry kind parent name = record empty_inode {
    kind = kind;
    parent = parent;
    name_len = length name;
    name = write_at 0 name (replicate 64 0);
  }

  unfoldable pub create : ℕ → List ℕ → ℕ → M Disk ℕ
  unfolding validate read_inode node_kind find_child allocate_inode write_inode
  create parent name kind = do
    lift (validate max_disk_name name)
    entry ← read_inode parent
    parent_kind ← lift (node_kind entry)
    check (not (is_directory_kind parent_kind)) VfsError.not_directory
    taken ← succeeds (find_child parent name)
    check taken VfsError.already_exists
    inode ← allocate_inode
    write_inode inode (new_entry kind parent name)
    pure inode

  -- The loop of `remove` that looks for a child of a directory.
  unfoldable pub no_child_from : ℕ → ℕ → ℕ → M Disk (Unit {0})
  unfolding read_inode
  no_child_from zero inode parent = pure tt
  no_child_from (suc rounds) inode parent = do
    candidate ← read_inode inode
    elim (not (candidate.kind == 0) && candidate.parent == parent) [
      | true ↦ throw VfsError.directory_not_empty
      | false ↦ no_child_from rounds (suc inode) parent
    ]

  unfoldable pub remove : ℕ → List ℕ → M Disk (Unit {0})
  unfolding find_child read_inode no_child_from write_inode
  remove parent name = do
    inode ← find_child parent name
    entry ← read_inode inode
    (if entry.kind == 2 then no_child_from 63 2 inode else pure tt)
    write_inode inode empty_inode

  unfoldable pub metadata : ℕ → M Disk Metadata
  unfolding read_inode node_kind
  metadata inode = do
    entry ← read_inode inode
    kind ← lift (node_kind entry)
    pure (record { inode = inode; kind = kind; len = (if entry.kind == 1 then entry.len else 0) })
