-- ===== src/Vfs/RamFs.antt =====
-- crates/kernel-core/src/vfs.rs: `RamFs`, the file system in memory. The two `BTreeMap`s are lists of
-- their entries; the children of a directory stand in the order of their names.
pub mod Lookup
pub mod Contents
pub mod Names
mod Tests
use generic_kernel.Common.{
  ℕ, suc, ◌+◌, ◌-◌, Bool, true, false, not, ◌&&◌, List, [], ◌∷◌, ◌++◌, leb, ltb, ◌==◌,
  if◌then◌else◌, length, Result, ok, err, ok_or, Option, none, some, take, replicate, min,
  checked_add, u64_mod,
}
use generic_kernel.Bytes.{slice, write_at}
use generic_kernel.Vfs.{
  VfsError, NodeKind, file, directory, Metadata, DirEntry, same_bytes, le_bytes, is_directory_kind,
  validate, validate_name,
}
use generic_kernel.Vfs.Action.{M, pure, throw, lift, then, ◌>>=◌, ◌>>◌}

pub record Child : Type 0 where
  pub name : List ℕ
  pub inode : ℕ

pub record RamNode : Type 0 where
  pub kind : NodeKind
  pub children : List Child
  pub bytes : List ℕ

pub record Slot : Type 0 where
  pub inode : ℕ
  pub node : RamNode

pub record RamFs : Type 0 where
  pub nodes : List Slot
  pub next_inode : ℕ

-- `RamNode::directory` and `RamNode::file`.
abbrev pub empty_node : NodeKind → RamNode
empty_node kind = record { kind = kind; children = []; bytes = [] }

abbrev pub new_ramfs : RamFs
new_ramfs = record {
  nodes = record { inode = 1; node = empty_node directory } ∷ [];
  next_inode = 2;
}

-- The map from inodes to nodes.
abbrev pub get_node : List Slot → ℕ → Option RamNode
get_node [] inode = none
get_node (s ∷ ss) inode = if s.inode == inode then some s.node else get_node ss inode

-- Replaces the node of an inode, or adds it.
abbrev pub put_node : List Slot → ℕ → RamNode → List Slot
put_node [] inode node = record { inode = inode; node = node } ∷ []
put_node (s ∷ ss) inode node =
    if s.inode == inode
    then record { inode = inode; node = node } ∷ ss
    else s ∷ put_node ss inode node

abbrev pub drop_node : List Slot → ℕ → List Slot
drop_node [] inode = []
drop_node (s ∷ ss) inode = if s.inode == inode then ss else s ∷ drop_node ss inode

-- The map from names to inodes.
abbrev pub get_child : List Child → List ℕ → Option ℕ
get_child [] name = none
get_child (c ∷ cs) name = if same_bytes c.name name then some c.inode else get_child cs name

abbrev pub put_child : List Child → List ℕ → ℕ → List Child
put_child [] name inode = record { name = name; inode = inode } ∷ []
put_child (c ∷ cs) name inode =
    if same_bytes c.name name
    then record c { inode = inode } ∷ cs
    else if le_bytes name c.name
    then record { name = name; inode = inode } ∷ c ∷ cs
    else c ∷ put_child cs name inode

abbrev pub drop_child : List Child → List ℕ → List Child
drop_child [] name = []
drop_child (c ∷ cs) name = if same_bytes c.name name then cs else c ∷ drop_child cs name

abbrev pub is_some {ℓ} : {A : Type ℓ} → Option A → Bool
is_some none = false
is_some (some a) = true

abbrev pub refuse : Bool → VfsError → M RamFs (Unit {0})
refuse bad e = lift (if bad then err e else ok tt)

-- `self.node(inode)?`.
abbrev pub node_of : ℕ → M RamFs RamNode
node_of inode s = (ok_or (get_node s.nodes inode) VfsError.not_found, s)

-- A directory, or the error for a file.
abbrev pub directory_of : ℕ → M RamFs RamNode
directory_of inode = do
  node ← node_of inode
  refuse (not (is_directory_kind node.kind)) VfsError.not_directory
  pure node

abbrev pub file_of : ℕ → M RamFs RamNode
file_of inode = do
  node ← node_of inode
  refuse (is_directory_kind node.kind) VfsError.is_directory
  pure node

abbrev pub set_node : ℕ → RamNode → M RamFs (Unit {0})
set_node inode node s = (ok tt, record s { nodes = put_node s.nodes inode node })

-- The end of `create_node`: the new node, then its name in the parent.
abbrev pub add_child : ℕ → RamNode → List ℕ → NodeKind → RamFs → Result VfsError ℕ × RamFs
add_child parent parent_node name kind s = elim (checked_add s.next_inode 1) [
  | none ↦ (err VfsError.inode_exhausted, s)
  | some next ↦
      let nodes = put_node s.nodes s.next_inode (empty_node kind) in
      let changed : RamNode = record parent_node {
        children = put_child parent_node.children name s.next_inode;
      } in
      (ok s.next_inode, record { nodes = put_node nodes parent changed; next_inode = next })
]

unfoldable pub create_node : ℕ → List ℕ → NodeKind → M RamFs ℕ
unfolding validate
create_node parent name kind = do
  lift (validate_name name)
  parent_node ← directory_of parent
  refuse (is_some (get_child parent_node.children name)) VfsError.already_exists
  add_child parent parent_node name kind

unfoldable pub ram_metadata : ℕ → M RamFs Metadata
ram_metadata inode = do
  node ← node_of inode
  pure (record {
    inode = inode;
    kind = node.kind;
    len = (if is_directory_kind node.kind then 0 else length node.bytes);
  })

unfoldable pub lookup : ℕ → List ℕ → M RamFs ℕ
unfolding validate
lookup parent name = do
  lift (validate_name name)
  node ← directory_of parent
  lift (ok_or (get_child node.children name) VfsError.not_found)

abbrev pub entries_of : List Child → M RamFs (List DirEntry)
entries_of [] = pure []
entries_of (c ∷ cs) = do
  meta ← ram_metadata c.inode
  rest ← entries_of cs
  pure (record { name = c.name; metadata = meta } ∷ rest)

unfoldable pub ram_read_dir : ℕ → M RamFs (List DirEntry)
ram_read_dir inode = do node ← directory_of inode; entries_of node.children

-- The bytes that `read` copies into a buffer of `size` bytes.
unfoldable pub ram_read : ℕ → ℕ → ℕ → M RamFs (List ℕ)
ram_read inode offset size = do
  node ← file_of inode
  pure (
      if leb (length node.bytes) offset
      then []
      else slice offset (min size (length node.bytes - offset)) node.bytes)

-- `data.resize(len, 0)`.
abbrev pub resize : ℕ → List ℕ → List ℕ
resize len xs = take len xs ++ replicate (len - length xs) 0

unfoldable pub ram_write : ℕ → ℕ → List ℕ → M RamFs ℕ
unfolding write_at
ram_write inode offset bytes = do
  node ← file_of inode
  refuse (leb u64_mod (offset + length bytes)) VfsError.offset_overflow
  let end = offset + length bytes
  let grown = if ltb (length node.bytes) end then resize end node.bytes else node.bytes
  set_node inode (record node { bytes = write_at offset bytes grown })
  pure (length bytes)

unfoldable pub ram_truncate : ℕ → ℕ → M RamFs (Unit {0})
ram_truncate inode len = do
  node ← file_of inode
  set_node inode (record node { bytes = resize len node.bytes })

abbrev pub is_empty : List Child → Bool
is_empty [] = true
is_empty (c ∷ cs) = false

-- The end of `remove`: the name goes out of the parent, as it is then, and the node out of the map.
abbrev pub unlink : ℕ → List ℕ → ℕ → M RamFs (Unit {0})
unlink parent name child = do
  node ← node_of parent
  set_node parent (record node { children = drop_child node.children name })
  λ s. (ok tt, record s { nodes = drop_node s.nodes child })

unfoldable pub ram_remove : ℕ → List ℕ → M RamFs (Unit {0})
unfolding validate
ram_remove parent name = do
  lift (validate_name name)
  node ← directory_of parent
  child ← lift (ok_or (get_child node.children name) VfsError.not_found)
  child_node ← node_of child
  refuse (is_directory_kind child_node.kind && not (is_empty child_node.children))
      VfsError.directory_not_empty
  unlink parent name child
