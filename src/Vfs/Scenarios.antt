-- ===== src/Vfs/Scenarios.antt =====
-- The tests of vfs.rs and genericfs.rs that go through `Vfs`, and the theorem about `route` at two mounts.
use generic_kernel.Common.{ℕ, ◌≡◌, refl, List, [], ◌∷◌, ok}
use generic_kernel.Vfs.Paths.{slash}
use generic_kernel.Vfs.Mounts.{
  on_path, resolve_inode, resolve_parent, Vfs, new_vfs, vfs_create_file, vfs_write, read_all,
  vfs_create_dir, route, paths,
}
use generic_kernel.Vfs.Routing.{Best, route-Best}
use generic_kernel.Vfs.Backends.{ramfs}
use generic_kernel.Vfs.RamFs.{new_ramfs, create_node, ram_write, ram_read, ram_metadata, lookup}

abbrev etc : List ℕ
etc = slash ∷ b'e' ∷ b't' ∷ b'c' ∷ []

abbrev config : List ℕ
config = slash ∷ b'e' ∷ b't' ∷ b'c' ∷ slash ∷ b'c' ∷ []

abbrev with_file : Vfs
with_file =
    (vfs_write config 0 (5 ∷ 6 ∷ [])
      (vfs_create_file config (vfs_create_dir etc (new_vfs ramfs new_ramfs)).1).1).1

stored : (read_all config with_file).0 ≡ ok (5 ∷ 6 ∷ [])
unfolding on_path create_node ram_write ram_read ram_metadata lookup resolve_inode resolve_parent
stored = refl

-- A second file system at "/etc" hides the first one's directory.
abbrev mounted : Vfs
mounted = record (new_vfs ramfs new_ramfs) {
  others = record { path = etc; filesystem = ramfs; state = new_ramfs } ∷ [];
}

to_etc : route mounted config ≡ (1, slash ∷ b'c' ∷ [])
unfolding route
to_etc = refl

route-Best_example :
    (l : ℕ) × Best (paths mounted.others) config 1 0 1 ((route mounted config).0, l)
route-Best_example = route-Best mounted config
