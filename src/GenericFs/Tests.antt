-- ===== src/GenericFs/Tests.antt =====
-- The theorems about genericfs.rs on the device in memory.
use generic_kernel.Common.{ℕ, ◌+◌, ◌<◌, ◌≤◌, ◌≡◌, refl, inr, List, [], ◌∷◌, arith, ok, replicate}
use generic_kernel.GenericFs.Memory.{memory, Write}
use generic_kernel.GenericFs.Codec.{DiskInode, empty_inode}
use generic_kernel.GenericFs.RoundTrip.{IsEntry}
use generic_kernel.GenericFs.Table.{read_inode, write_inode, zero_sector, data_start}
use generic_kernel.GenericFs.Slots.{read_inode-write_inode, read_inode-write_inode_other}
use generic_kernel.GenericFs.Extent.{ensure_capacity, find_extent, used_from, extent_of}
use generic_kernel.GenericFs.Ops.{read_file, write_file}
use generic_kernel.GenericFs.Gaps.{Apart, Files, Fits, used-Files, find_extent-Apart}
use generic_kernel.GenericFs.Capacity.{ensure_capacity-keeps, ensure_capacity-loses}

-- The entry of a file of ten bytes in one sector.
abbrev notes : DiskInode
notes = record empty_inode {
  kind = 1;
  name_len = 1;
  parent = 1;
  len = 10;
  start_sector = 17;
  sector_count = 1;
  name = b'n' ∷ replicate 63 0;
}

notes-IsEntry : IsEntry notes
notes-IsEntry = record {
  kind_ok = omega arith;
  name_ok = omega arith;
  parent_word = omega arith;
  len_word = omega arith;
  start_word = omega arith;
  count_word = omega arith;
  name_room = refl;
}

-- The disk after `notes` is written to slot 2 of an empty table.
abbrev noted : List Write
noted = (write_inode memory 2 notes []).1

written : write_inode memory 2 notes [] ≡ (ok tt, noted)
unfolding write_inode
written = refl

read_inode-write_inode_example : read_inode memory 2 noted ≡ (ok notes, noted)
read_inode-write_inode_example =
    read_inode-write_inode memory [] noted 2 notes notes-IsEntry written

blank_slot : read_inode memory 3 [] ≡ (ok empty_inode, [])
unfolding read_inode
blank_slot = refl

read_inode-write_inode_other_example : read_inode memory 3 noted ≡ (ok empty_inode, noted)
read_inode-write_inode_other_example =
    read_inode-write_inode_other memory [] noted 2 3 notes empty_inode (ground arith) written
      blank_slot

-- The file is the only one, and its sector holds nines.
abbrev filled : List Write
filled = record { place = 17; bytes = replicate 512 9 } ∷ noted

alone : used_from memory 63 2 2 filled ≡ (ok [], filled)
unfolding used_from write_inode
alone = refl

abbrev grown : List Write
grown = (ensure_capacity memory 2 notes 2 filled).1

abbrev grown_notes : DiskInode
grown_notes = record notes { sector_count = 2 }

grows : ensure_capacity memory 2 notes 2 filled ≡ (ok grown_notes, grown)
unfolding ensure_capacity write_inode
grows = refl

ensure_capacity-loses_example :
    (data_start ≡ data_start)
    × ((k : ℕ) → k < 2 → memory.read_sector grown (data_start + k) ≡ ok zero_sector)
ensure_capacity-loses_example =
    ensure_capacity-loses memory 2 2 notes grown_notes filled grown (omega arith) (omega arith) refl
      alone grows

-- Another file has the sector behind it.
abbrev other_file : DiskInode
other_file = record notes { start_sector = 18 }

abbrev shared : List Write
shared = (write_inode memory 3 other_file filled).1

abbrev moved : List Write
moved = (ensure_capacity memory 2 notes 2 shared).1

abbrev moved_notes : DiskInode
moved_notes = record notes { start_sector = 19; sector_count = 2 }

moves : ensure_capacity memory 2 notes 2 shared ≡ (ok moved_notes, moved)
unfolding ensure_capacity write_inode
moves = refl

ensure_capacity-keeps_example :
    (0 < 1 → memory.read_sector moved 19 ≡ memory.read_sector shared 17)
    × (1 ≤ 0 → 0 < 2 → memory.read_sector moved 19 ≡ ok zero_sector)
ensure_capacity-keeps_example =
    ensure_capacity-keeps memory 2 2 0 notes moved_notes shared moved (omega arith) moves
      (omega arith) (omega arith) (inr (omega arith))

others : used_from memory 63 2 2 shared ≡ (ok (extent_of other_file ∷ []), shared)
unfolding used_from write_inode
others = refl

extent_found : find_extent memory 2 2 shared ≡ (ok 19, shared)
unfolding find_extent write_inode
extent_found = refl

other_slot : read_inode memory 3 shared ≡ (ok other_file, shared)
unfolding read_inode write_inode
other_slot = refl

find_extent-Apart_example :
    (data_start ≤ 19)
    × (19 + 2 ≤ memory.sector_count shared)
    × Files memory shared 63 2 2 (Apart 19 2)
find_extent-Apart_example =
    find_extent-Apart memory 2 2 19 shared shared (omega arith) (omega arith) extent_found
      ((used-Files memory 63 2 2 shared shared (extent_of other_file ∷ []) (Fits 2) others).2
        (omega arith, tt))
      ((used-Files memory 63 2 2 shared shared (extent_of other_file ∷ [])
          (λ x. x.first ≤ memory.sector_count shared) others).2
        (omega arith, tt))

abbrev three : List ℕ
three = 1 ∷ 2 ∷ 3 ∷ []

-- A file that is grown past its first sector has lost what it held.
grown_file_lost :
    (read_file memory 2 0 3 (write_file memory 2 512 three filled).1).0 ≡ ok (0 ∷ 0 ∷ 0 ∷ [])
unfolding read_file write_file write_inode
grown_file_lost = refl
