-- ===== src/Vfs/Mounts.antt =====
-- crates/kernel-core/src/vfs.rs: the trait `FileSystem`, and `Vfs`, which resolves paths and routes them to
-- the mounted file systems.
use generic_kernel.Common.{
  ℕ, zero, suc, Bool, true, false, not, ◌&&◌, ◌||◌, List, [], ◌∷◌, ◌++◌, ltb, if◌then◌else◌, length,
  Result, ok, err, ok_or, Option, none, some, drop,
}
use generic_kernel.Vfs.{
  VfsError, Metadata, DirEntry, same_bytes, is_directory_kind, validate, validate_name,
}
use generic_kernel.Vfs.Action.{M, pure, throw, lift, ◌>>=◌, ◌>>◌}
use generic_kernel.Vfs.Paths.{
  slash, split, trim_slashes, rsplit_once, strip_prefix, starts_with_slash, normalize_path,
}

-- `read` returns the bytes that it copies into a buffer of the given size.
pub record FileSystem : Type 1 where
  pub State : Type 0
  pub name : List ℕ
  pub root_inode : ℕ
  pub metadata : ℕ → M State Metadata
  pub lookup : ℕ → List ℕ → M State ℕ
  pub read_dir : ℕ → M State (List DirEntry)
  pub create_file : ℕ → List ℕ → M State ℕ
  pub create_dir : ℕ → List ℕ → M State ℕ
  pub read : ℕ → ℕ → ℕ → M State (List ℕ)
  pub write : ℕ → ℕ → List ℕ → M State ℕ
  pub truncate : ℕ → ℕ → M State (Unit {0})
  pub remove : ℕ → List ℕ → M State (Unit {0})

module _ (fs : FileSystem) where
  open fs use {State}

  abbrev pub lookup_all : ℕ → List (List ℕ) → M State ℕ
  lookup_all inode [] = pure inode
  lookup_all inode (c ∷ cs) = do child ← fs.lookup inode c; lookup_all child cs

  unfoldable pub resolve_inode : List ℕ → M State ℕ
  unfolding same_bytes split
  resolve_inode path = elim (same_bytes path (slash ∷ [])) [
    | true ↦ pure fs.root_inode
    | false ↦ lookup_all fs.root_inode (split (trim_slashes path))
  ]

  abbrev pub parent_path : List ℕ → List ℕ
  parent_path [] = slash ∷ []
  parent_path (c ∷ cs) = c ∷ cs

  unfoldable pub resolve_parent : List ℕ → M State (ℕ × List ℕ)
  unfolding same_bytes rsplit_once validate resolve_inode
  resolve_parent path = elim (same_bytes path (slash ∷ [])) [
    | true ↦ throw VfsError.root_immutable
    | false ↦ do
      parts ← lift (ok_or (rsplit_once path) VfsError.invalid_path)
      lift (validate_name parts.1)
      parent ← resolve_inode (parent_path parts.0)
      meta ← fs.metadata parent
      elim (is_directory_kind meta.kind) [
        | true ↦ pure (parent, parts.1)
        | false ↦ throw VfsError.not_directory
      ]
  ]

-- `Mount`, with the state that its file system is in.
pub record Mount : Type 1 where
  pub path : List ℕ
  pub filesystem : FileSystem
  pub state : filesystem.State

-- `Vfs`: `mounts[0]` is the root, which `new` puts there and nothing takes away.
pub record Vfs : Type 1 where
  pub root : Mount
  pub others : List Mount

abbrev pub new_vfs : (fs : FileSystem) → fs.State → Vfs
new_vfs fs s = record {
  root = record { path = slash ∷ []; filesystem = fs; state = s };
  others = [];
}

-- `path.strip_prefix(&mount.path).is_some_and(|rest| rest.starts_with('/'))`.
abbrev pub begins_with_slash : Option (List ℕ) → Bool
begins_with_slash none = false
begins_with_slash (some rest) = starts_with_slash rest

unfoldable pub covers_path : List ℕ → List ℕ → Bool
unfolding same_bytes strip_prefix
covers_path mount path = same_bytes path mount || begins_with_slash (strip_prefix mount path)

-- The loop of `route` over the mounts from `index` on: the best index so far, and its length.
unfoldable pub best_mount : List (List ℕ) → List ℕ → ℕ → ℕ → ℕ → ℕ × ℕ
unfolding covers_path
best_mount [] path index best best_len = (best, best_len)
best_mount (m ∷ ms) path index best best_len =
    elim (covers_path m path && ltb best_len (length m)) [
      | true ↦ best_mount ms path (suc index) index (length m)
      | false ↦ best_mount ms path (suc index) best best_len
    ]

abbrev pub paths : List Mount → List (List ℕ)
paths [] = []
paths (m ∷ ms) = m.path ∷ paths ms

-- `mounts[index]`, and the table with another mount there; no index that `route` returns is beyond it.
abbrev pub mount_at : Mount → List Mount → ℕ → Mount
mount_at root others zero = root
mount_at root [] (suc i) = root
mount_at root (m ∷ ms) (suc i) = mount_at m ms i

abbrev pub replace_at : Vfs → ℕ → Mount → Vfs
replace_at v zero m = record v { root = m }
replace_at v (suc i) m = record v { others = replace v.others i }
  where
    replace : List Mount → ℕ → List Mount
    replace [] j = []
    replace (n ∷ ns) zero = m ∷ ns
    replace (n ∷ ns) (suc j) = n ∷ replace ns j

abbrev pub relative_path : List ℕ → List ℕ
relative_path [] = slash ∷ []
relative_path (c ∷ cs) = c ∷ cs

unfoldable pub route : Vfs → List ℕ → ℕ × List ℕ
unfolding best_mount same_bytes
route v path =
    let index = (best_mount (paths v.others) path 1 0 1).0 in
    let mount_path = (mount_at v.root v.others index).path in
    if same_bytes mount_path (slash ∷ [])
    then (index, path)
    else (index, relative_path (drop (length mount_path) path))

-- An operation of the mount at an index, on the state that it is in.
abbrev pub store_result {ℓ} :
    {A : Type ℓ} (v : Vfs) (index : ℕ) (m : Mount)
    → Result VfsError A × m.filesystem.State
    → Result VfsError A × Vfs
store_result v index m (r, s) = (r, replace_at v index (record m { state = s }))

abbrev pub on_mount {ℓ} :
    {A : Type ℓ} → Vfs → ℕ → ((fs : FileSystem) → M fs.State A) → Result VfsError A × Vfs
on_mount v index action =
    let m : Mount = mount_at v.root v.others index in
    store_result v index m (action m.filesystem m.state)

-- What every operation begins with: the path is normalized and routed.
unfoldable pub on_path {ℓ} :
    {A : Type ℓ}
    → List ℕ
    → ((fs : FileSystem) → List ℕ → M fs.State A)
    → Vfs
    → Result VfsError A × Vfs
unfolding normalize_path route
on_path path action v = elim (normalize_path (slash ∷ []) path) [
  | err e ↦ (err e, v)
  | ok normal ↦ let target = route v normal in on_mount v target.0 (λ fs. action fs target.1)
]

abbrev pub vfs_metadata : List ℕ → Vfs → Result VfsError Metadata × Vfs
vfs_metadata path = on_path path (λ fs p. do inode ← resolve_inode fs p; fs.metadata inode)

abbrev pub vfs_read_dir : List ℕ → Vfs → Result VfsError (List DirEntry) × Vfs
vfs_read_dir path = on_path path (λ fs p. do inode ← resolve_inode fs p; fs.read_dir inode)

abbrev pub vfs_create_file : List ℕ → Vfs → Result VfsError Metadata × Vfs
vfs_create_file path = on_path path (λ fs p. do
  target ← resolve_parent fs p
  inode ← fs.create_file target.0 target.1
  fs.metadata inode)

abbrev pub vfs_create_dir : List ℕ → Vfs → Result VfsError Metadata × Vfs
vfs_create_dir path = on_path path (λ fs p. do
  target ← resolve_parent fs p
  inode ← fs.create_dir target.0 target.1
  fs.metadata inode)

abbrev pub vfs_remove : List ℕ → Vfs → Result VfsError (Unit {0}) × Vfs
vfs_remove path =
    on_path path (λ fs p. do target ← resolve_parent fs p; fs.remove target.0 target.1)

abbrev pub vfs_read : List ℕ → ℕ → ℕ → Vfs → Result VfsError (List ℕ) × Vfs
vfs_read path offset size =
    on_path path (λ fs p. do inode ← resolve_inode fs p; fs.read inode offset size)

abbrev pub vfs_write : List ℕ → ℕ → List ℕ → Vfs → Result VfsError ℕ × Vfs
vfs_write path offset bytes =
    on_path path (λ fs p. do inode ← resolve_inode fs p; fs.write inode offset bytes)

abbrev pub vfs_truncate : List ℕ → ℕ → Vfs → Result VfsError (Unit {0}) × Vfs
vfs_truncate path len = on_path path (λ fs p. do inode ← resolve_inode fs p; fs.truncate inode len)

abbrev pub read_whole : List ℕ → Result VfsError Metadata × Vfs → Result VfsError (List ℕ) × Vfs
read_whole path (err e, v) = (err e, v)
read_whole path (ok meta, v) =
    if is_directory_kind meta.kind
    then (err VfsError.is_directory, v)
    else vfs_read path 0 meta.len v

abbrev pub read_all : List ℕ → Vfs → Result VfsError (List ℕ) × Vfs
read_all path v = read_whole path (vfs_metadata path v)

abbrev pub any_path : List (List ℕ) → List ℕ → Bool
any_path [] path = false
any_path (m ∷ ms) path = same_bytes m path || any_path ms path

abbrev pub add_mount :
    List ℕ → Mount → Result VfsError Metadata × Vfs → Result VfsError (Unit {0}) × Vfs
add_mount path m (err e, v) = (err e, v)
add_mount path m (ok meta, v) =
    if not (is_directory_kind meta.kind)
    then (err VfsError.mount_point_not_directory, v)
    else (ok tt, record v { others = v.others ++ (record m { path = path } ∷ []) })

unfoldable pub vfs_mount : List ℕ → Mount → Vfs → Result VfsError (Unit {0}) × Vfs
unfolding normalize_path on_path same_bytes
vfs_mount path m v = elim (normalize_path (slash ∷ []) path) [
  | err e ↦ (err e, v)
  | ok normal ↦
      if same_bytes normal (slash ∷ []) || any_path (v.root.path ∷ paths v.others) normal
      then (err VfsError.already_mounted, v)
      else add_mount normal m (vfs_metadata normal v)
]
