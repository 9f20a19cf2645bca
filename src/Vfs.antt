-- ===== src/Vfs.antt =====
-- crates/kernel-core/src/vfs.rs: the types that the pathname layer and its file systems share. Names and
-- paths are the bytes of their UTF-8 text.
pub mod Action
pub mod Paths
pub mod Normal
pub mod Canonical
mod Tests
mod Scenarios
pub mod RamFs
pub mod Mounts
pub mod Routing
pub mod Backends
use generic_kernel.Common.{
  ℕ, Bool, true, false, ◌||◌, List, [], ◌∷◌, ltb, ◌==◌, if◌then◌else◌, length, Result, ok, err,
}

pub data VfsError : Type 0 where
  invalid_path invalid_name name_too_long not_found already_exists not_directory is_directory
        directory_not_empty root_immutable already_mounted mount_point_not_directory offset_overflow
        inode_exhausted io no_space corrupt_filesystem :
      VfsError

pub data NodeKind : Type 0 where
  file directory : NodeKind

pub record Metadata : Type 0 where
  pub inode : ℕ
  pub kind : NodeKind
  pub len : ℕ

pub record DirEntry : Type 0 where
  pub name : List ℕ
  pub metadata : Metadata

-- Equality of byte strings.
unfoldable pub same_bytes : List ℕ → List ℕ → Bool
same_bytes [] [] = true
same_bytes [] (b ∷ bs) = false
same_bytes (a ∷ as') [] = false
same_bytes (a ∷ as') (b ∷ bs) = if a == b then same_bytes as' bs else false

unfoldable pub contains_byte : ℕ → List ℕ → Bool
contains_byte c [] = false
contains_byte c (b ∷ bs) = b == c || contains_byte c bs

abbrev pub is_directory_kind : NodeKind → Bool
is_directory_kind file = false
is_directory_kind directory = true

-- The tests that `validate_name` and `validate_disk_name` share: empty, ".", "..", a '/' or a NUL.
unfoldable pub bad_name : List ℕ → Bool
bad_name name =
    same_bytes name []
    || same_bytes name (b'.' ∷ [])
    || same_bytes name (b'.' ∷ b'.' ∷ [])
    || contains_byte b'/' name
    || contains_byte 0 name

-- The check of a name against a limit.
unfoldable pub validate : ℕ → List ℕ → Result VfsError (Unit {0})
unfolding bad_name same_bytes contains_byte
validate limit name =
    if bad_name name
    then err VfsError.invalid_name
    else if ltb limit (length name)
    then err VfsError.name_too_long
    else ok tt

-- `NAME_MAX`.
abbrev pub name_max : ℕ
name_max = 255

abbrev pub validate_name : List ℕ → Result VfsError (Unit {0})
validate_name = validate name_max

-- The order of names: `a.name.cmp(&b.name)`, not greater.
unfoldable pub le_bytes : List ℕ → List ℕ → Bool
le_bytes [] bs = true
le_bytes (a ∷ as') [] = false
le_bytes (a ∷ as') (b ∷ bs) = if a == b then le_bytes as' bs else ltb a b
