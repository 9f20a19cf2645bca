-- ===== src/Vfs/RamFs/Tests.antt =====
-- The theorems about `RamFs` at a file system with two files.
use generic_kernel.Common.{ℕ, ◌≡◌, refl, List, [], ◌∷◌, ok, length}
use generic_kernel.Vfs.{file}
use generic_kernel.Vfs.RamFs.{RamFs, new_ramfs, create_node, lookup, ram_read, ram_write}
use generic_kernel.Vfs.RamFs.Contents.{ram_read-ram_write}
use generic_kernel.Vfs.RamFs.Names.{lookup-create_node}

abbrev one : RamFs
one = (create_node 1 (b'a' ∷ []) file new_ramfs).1

abbrev two : RamFs
two = (create_node 1 (b'b' ∷ []) file one).1

created : create_node 1 (b'b' ∷ []) file one ≡ (ok 3, two)
unfolding create_node
created = refl

lookup-create_node_example : (3 ≡ one.next_inode) × (lookup 1 (b'b' ∷ []) two ≡ (ok 3, two))
lookup-create_node_example = lookup-create_node 1 3 (b'b' ∷ []) file one two created

abbrev digits : List ℕ
digits = 7 ∷ 8 ∷ []

abbrev filled : RamFs
filled = (ram_write 3 2 digits two).1

wrote : ram_write 3 2 digits two ≡ (ok 2, filled)
unfolding ram_write create_node
wrote = refl

ram_read-ram_write_example : (2 ≡ length digits) × (ram_read 3 2 2 filled ≡ (ok digits, filled))
ram_read-ram_write_example = ram_read-ram_write 3 2 2 digits two filled wrote

empty_file : ram_read 2 0 5 two ≡ (ok [], two)
unfolding ram_read create_node
empty_file = refl

-- The gap before the bytes reads as zeros.
gap : ram_read 3 0 9 filled ≡ (ok (0 ∷ 0 ∷ 7 ∷ 8 ∷ []), filled)
unfolding ram_read ram_write create_node
gap = refl
