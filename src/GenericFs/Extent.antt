-- ===== src/GenericFs/Extent.antt =====
-- Where genericfs.rs keeps a file's sectors: `find_extent`, `ensure_capacity` and `zero_range`.
use generic_kernel.Common.{
  ℕ, zero, suc, ◌+◌, ◌-◌, ◌/◌, ◌%◌, ◌^◌, Bool, true, false, not, ◌&&◌, ◌||◌, List, [], ◌∷◌, ltb,
  leb, ◌==◌, if◌then◌else◌, ok, err, replicate, max, min, u64_mod,
}
use generic_kernel.Bytes.{write_at}
use generic_kernel.Vfs.{VfsError}
use generic_kernel.GenericFs.Device.{BlockDevice, sector_size, M, pure, lift, ◌>>=◌, ◌>>◌}
use generic_kernel.GenericFs.Codec.{DiskInode}
use generic_kernel.GenericFs.Table.{read_inode, read, write, zero_sector, data_start}

-- `a + b` on u64.
abbrev pub add64 : ℕ → ℕ → ℕ
add64 a b = (a + b) % u64_mod

-- The sectors `[first, past)` of a file.
pub record Extent : Type 0 where
  pub first : ℕ
  pub past : ℕ

abbrev pub extent_of : DiskInode → Extent
extent_of e = record { first = e.start_sector; past = add64 e.start_sector e.sector_count }

-- `used.sort_unstable_by_key(|extent| extent.0)`.
unfoldable pub insert_extent : Extent → List Extent → List Extent
insert_extent x [] = x ∷ []
insert_extent x (y ∷ ys) = if leb x.first y.first then x ∷ y ∷ ys else y ∷ insert_extent x ys

unfoldable pub sort_extents : List Extent → List Extent
unfolding insert_extent
sort_extents [] = []
sort_extents (x ∷ xs) = insert_extent x (sort_extents xs)

-- The first gap of `sectors` sectors from `candidate` on, or the end of the used extents.
unfoldable pub first_gap : ℕ → ℕ → List Extent → ℕ
first_gap sectors candidate [] = candidate
first_gap sectors candidate (x ∷ xs) = elim (leb (add64 candidate sectors) x.first) [
  | true ↦ candidate
  | false ↦ first_gap sectors (max candidate x.past) xs
]

-- Is the gap before one of the extents? Then the end of the device is not looked at.
unfoldable pub gap_inside : ℕ → ℕ → List Extent → Bool
gap_inside sectors candidate [] = false
gap_inside sectors candidate (x ∷ xs) = elim (leb (add64 candidate sectors) x.first) [
  | true ↦ true
  | false ↦ gap_inside sectors (max candidate x.past) xs
]

-- `sectors_for_len`.
unfoldable pub sectors_for_len : ℕ → ℕ
sectors_for_len len = if len == 0 then 0 else add64 len (sector_size - 1) / sector_size

module _ (dev : BlockDevice) where
  open dev use {Disk, sector_count}

  -- The loop of `find_extent` that collects the extents of the other files.
  unfoldable pub used_from : ℕ → ℕ → ℕ → M Disk (List Extent)
  unfolding read_inode
  used_from zero inode exclude = pure []
  used_from (suc rounds) inode exclude = elim (inode == exclude) [
    | true ↦ used_from rounds (suc inode) exclude
    | false ↦ do
      entry ← read_inode dev inode
      rest ← used_from rounds (suc inode) exclude
      pure (
          if entry.kind == 1 && not (entry.sector_count == 0) then extent_of entry ∷ rest else rest)
  ]

  unfoldable pub find_extent : ℕ → ℕ → M Disk ℕ
  unfolding used_from sort_extents first_gap gap_inside
  find_extent sectors exclude = elim (sectors == 0) [
    | true ↦ pure 0
    | false ↦ do
      used ← used_from 63 2 exclude
      let sorted = sort_extents used
      let candidate = first_gap sectors data_start sorted
      λ d.
          if gap_inside sectors data_start sorted || leb (add64 candidate sectors) (sector_count d)
          then (ok candidate, d)
          else (err VfsError.no_space, d)
  ]

  -- The two loops of `ensure_capacity`, from `sector` on.
  unfoldable pub zero_sectors : ℕ → ℕ → ℕ → M Disk (Unit {0})
  zero_sectors zero sector start = pure tt
  zero_sectors (suc rounds) sector start = do
    write dev (add64 start sector) zero_sector
    zero_sectors rounds (suc sector) start

  unfoldable pub copy_sectors : ℕ → ℕ → ℕ → ℕ → M Disk (Unit {0})
  copy_sectors zero sector from start = pure tt
  copy_sectors (suc rounds) sector from start = do
    buffer ← read dev (add64 from sector)
    write dev (add64 start sector) buffer
    copy_sectors rounds (suc sector) from start

  -- Returns the entry as it leaves `ensure_capacity`.
  unfoldable pub ensure_capacity : ℕ → DiskInode → ℕ → M Disk DiskInode
  unfolding find_extent zero_sectors copy_sectors
  ensure_capacity inode entry needed = elim (leb needed entry.sector_count) [
    | true ↦ pure entry
    | false ↦ do
      new_start ← find_extent needed inode
      zero_sectors needed 0 new_start
      copy_sectors entry.sector_count 0 entry.start_sector new_start
      lift (
          if ltb needed (2 ^ 32)
          then ok (record entry { start_sector = new_start; sector_count = needed })
          else err VfsError.no_space)
  ]

  -- One round of a loop over the bytes `[position, end)` of a file: the part in one sector.
  abbrev pub part : ℕ → ℕ → ℕ
  part position end = min (sector_size - position % sector_size) (end - position)

  -- `zero_range`, with the rounds that are left: each moves on by a byte or more.
  unfoldable pub zero_from : ℕ → DiskInode → ℕ → ℕ → M Disk (Unit {0})
  unfolding write_at
  zero_from zero entry position end = pure tt
  zero_from (suc rounds) entry position end = elim (ltb position end) [
    | false ↦ pure tt
    | true ↦ do
      let place = add64 entry.start_sector (position / sector_size)
      let count = part position end
      buffer ← read dev place
      write dev place (write_at (position % sector_size) (replicate count 0) buffer)
      zero_from rounds entry (position + count) end
  ]

  unfoldable pub zero_range : DiskInode → ℕ → ℕ → M Disk (Unit {0})
  unfolding zero_from
  zero_range entry start end = zero_from (end - start) entry start end
