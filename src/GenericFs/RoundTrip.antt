-- ===== src/GenericFs/RoundTrip.antt =====
-- An entry survives its slot: `decode_inode` after `encode_inode`.
use generic_kernel.Common.{
  ℕ, ◌^◌, ◌≤◌, ◌<◌, ◌≡◌, ap, ◌∙◌, List, arith, length, ok, replicate, length-replicate,
}
use generic_kernel.Bytes.{slice, write_at, to_le, from_le}
use generic_kernel.Bytes.Slices.{length-write_at, slice-write_at, slice-write_at_before}
use generic_kernel.Bytes.Little.{length-to_le, from_le-to_le}
use generic_kernel.GenericFs.Codec.{
  DiskInode, inode_size, max_disk_name, read_word, write_word, encode_inode, decode_inode,
}

-- The values that the fields of an entry can hold.
pub record IsEntry (e : DiskInode) : Type 0 where
  pub kind_ok : e.kind ≤ 2
  pub name_ok : e.name_len ≤ max_disk_name
  pub parent_word : e.parent < 256 ^ 8
  pub len_word : e.len < 256 ^ 8
  pub start_word : e.start_sector < 256 ^ 8
  pub count_word : e.sector_count < 256 ^ 4
  pub name_room : length e.name ≡ 64

-- The buffers between the seven writes of `encode_inode`, and what a read finds: every write stands after
-- the ones before it, so that it disturbs none of them.
module _ (raw : List ℕ) (e : DiskInode) (v : IsEntry e) (room : length raw ≡ inode_size) where
  abbrev blank : List ℕ
  blank = replicate (length raw) 0

  abbrev after_kind : List ℕ
  after_kind = write_word 1 0 e.kind blank

  after_kind_room : length after_kind ≡ inode_size
  after_kind_room =
      length-write_at 0 (to_le 1 e.kind) blank ∙ length-replicate (length raw) (0) ∙ room

  abbrev after_name_len : List ℕ
  after_name_len = write_word 1 2 e.name_len after_kind

  after_name_len_room : length after_name_len ≡ inode_size
  after_name_len_room = length-write_at 2 (to_le 1 e.name_len) after_kind ∙ after_kind_room

  abbrev after_parent : List ℕ
  after_parent = write_word 8 4 e.parent after_name_len

  after_parent_room : length after_parent ≡ inode_size
  after_parent_room = length-write_at 4 (to_le 8 e.parent) after_name_len ∙ after_name_len_room

  abbrev after_len : List ℕ
  after_len = write_word 8 12 e.len after_parent

  after_len_room : length after_len ≡ inode_size
  after_len_room = length-write_at 12 (to_le 8 e.len) after_parent ∙ after_parent_room

  abbrev after_start_sector : List ℕ
  after_start_sector = write_word 8 20 e.start_sector after_len

  after_start_sector_room : length after_start_sector ≡ inode_size
  after_start_sector_room = length-write_at 20 (to_le 8 e.start_sector) after_len ∙ after_len_room

  abbrev after_sector_count : List ℕ
  after_sector_count = write_word 4 28 e.sector_count after_start_sector

  after_sector_count_room : length after_sector_count ≡ inode_size
  after_sector_count_room =
      length-write_at 28 (to_le 4 e.sector_count) after_start_sector ∙ after_start_sector_room

  read-kind : read_word 1 (write_at 32 e.name after_sector_count) 0 ≡ e.kind
  read-kind =
      ap from_le (
        slice-write_at_before 0 1 32 e.name after_sector_count (omega arith)
        ∙ slice-write_at_before 0 1 28 (to_le 4 e.sector_count) after_start_sector (omega arith)
        ∙ slice-write_at_before 0 1 20 (to_le 8 e.start_sector) after_len (omega arith)
        ∙ slice-write_at_before 0 1 12 (to_le 8 e.len) after_parent (omega arith)
        ∙ slice-write_at_before 0 1 4 (to_le 8 e.parent) after_name_len (omega arith)
        ∙ slice-write_at_before 0 1 2 (to_le 1 e.name_len) after_kind (omega arith)
        ∙ slice-write_at 0 1 (to_le 1 e.kind) blank (length-to_le 1 e.kind)
            (omega (arith, length-replicate {A = ℕ} (length raw) 0, room)))
      ∙ from_le-to_le 1 e.kind (omega (arith, v.kind_ok))

  read-name_len : read_word 1 (write_at 32 e.name after_sector_count) 2 ≡ e.name_len
  read-name_len =
      ap from_le (
        slice-write_at_before 2 1 32 e.name after_sector_count (omega arith)
        ∙ slice-write_at_before 2 1 28 (to_le 4 e.sector_count) after_start_sector (omega arith)
        ∙ slice-write_at_before 2 1 20 (to_le 8 e.start_sector) after_len (omega arith)
        ∙ slice-write_at_before 2 1 12 (to_le 8 e.len) after_parent (omega arith)
        ∙ slice-write_at_before 2 1 4 (to_le 8 e.parent) after_name_len (omega arith)
        ∙ slice-write_at 2 1 (to_le 1 e.name_len) after_kind (length-to_le 1 e.name_len)
            (omega (arith, after_kind_room)))
      ∙ from_le-to_le 1 e.name_len (omega (arith, v.name_ok))

  read-parent : read_word 8 (write_at 32 e.name after_sector_count) 4 ≡ e.parent
  read-parent =
      ap from_le (
        slice-write_at_before 4 8 32 e.name after_sector_count (omega arith)
        ∙ slice-write_at_before 4 8 28 (to_le 4 e.sector_count) after_start_sector (omega arith)
        ∙ slice-write_at_before 4 8 20 (to_le 8 e.start_sector) after_len (omega arith)
        ∙ slice-write_at_before 4 8 12 (to_le 8 e.len) after_parent (omega arith)
        ∙ slice-write_at 4 8 (to_le 8 e.parent) after_name_len (length-to_le 8 e.parent)
            (omega (arith, after_name_len_room)))
      ∙ from_le-to_le 8 e.parent (omega (arith, v.parent_word))

  read-len : read_word 8 (write_at 32 e.name after_sector_count) 12 ≡ e.len
  read-len =
      ap from_le (
        slice-write_at_before 12 8 32 e.name after_sector_count (omega arith)
        ∙ slice-write_at_before 12 8 28 (to_le 4 e.sector_count) after_start_sector (omega arith)
        ∙ slice-write_at_before 12 8 20 (to_le 8 e.start_sector) after_len (omega arith)
        ∙ slice-write_at 12 8 (to_le 8 e.len) after_parent (length-to_le 8 e.len)
            (omega (arith, after_parent_room)))
      ∙ from_le-to_le 8 e.len (omega (arith, v.len_word))

  read-start_sector : read_word 8 (write_at 32 e.name after_sector_count) 20 ≡ e.start_sector
  read-start_sector =
      ap from_le (
        slice-write_at_before 20 8 32 e.name after_sector_count (omega arith)
        ∙ slice-write_at_before 20 8 28 (to_le 4 e.sector_count) after_start_sector (omega arith)
        ∙ slice-write_at 20 8 (to_le 8 e.start_sector) after_len (length-to_le 8 e.start_sector)
            (omega (arith, after_len_room)))
      ∙ from_le-to_le 8 e.start_sector (omega (arith, v.start_word))

  read-sector_count : read_word 4 (write_at 32 e.name after_sector_count) 28 ≡ e.sector_count
  read-sector_count =
      ap from_le (
        slice-write_at_before 28 4 32 e.name after_sector_count (omega arith)
        ∙ slice-write_at 28 4 (to_le 4 e.sector_count) after_start_sector
            (length-to_le 4 e.sector_count) (omega (arith, after_start_sector_room)))
      ∙ from_le-to_le 4 e.sector_count (omega (arith, v.count_word))

  read-name : slice 32 64 (write_at 32 e.name after_sector_count) ≡ e.name
  read-name =
      slice-write_at 32 64 e.name after_sector_count v.name_room
        (omega (arith, after_sector_count_room))

  -- An entry whose fields are in range is read back from its slot as it was written.
  pub decode_inode-encode_inode : decode_inode (encode_inode raw e) ≡ ok e
  unfolding decode_inode encode_inode
  decode_inode-encode_inode =
      rw
        (
          read-kind, read-name_len, read-parent, read-len, read-start_sector, read-sector_count,
          read-name,
        )
        (ground (arith, v.kind_ok, v.name_ok))

pub length-encode_inode : (raw : List ℕ) (e : DiskInode) → length (encode_inode raw e) ≡ length raw
unfolding encode_inode
length-encode_inode raw e = simp (length-write_at, length-replicate)
