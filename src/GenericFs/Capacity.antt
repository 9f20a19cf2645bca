-- ===== src/GenericFs/Capacity.antt =====
-- `ensure_capacity` of genericfs.rs when a file outgrows its sectors.
use generic_kernel.Common.{
  ℕ, ◌+◌, ◌^◌, ◌≤◌, ◌<◌, ◌≡◌, sym, ap, subst, ◌∙◌, ◌⊎◌, inr, Bool, true, false, [], arith, leb,
  ◌==◌, Result, ok, err, u64_mod, ok-injective, if◌then◌else◌,
}
use generic_kernel.Vfs.{VfsError}
use generic_kernel.GenericFs.Device.{BlockDevice, lift}
use generic_kernel.GenericFs.Codec.{DiskInode}
use generic_kernel.GenericFs.Table.{zero_sector, data_start}
use generic_kernel.GenericFs.Steps.{bind-inv, step-inv}
use generic_kernel.GenericFs.Gaps.{find_extent-disk, placed}
use generic_kernel.GenericFs.Growth.{
  zero_sectors-AllZero, zero_sectors_other, copy_sectors-AllZero, copy_sectors_other,
  copy_sectors-copies,
}
use generic_kernel.GenericFs.Extent.{
  used_from, find_extent, first_gap, gap_inside, sort_extents, zero_sectors, copy_sectors,
  ensure_capacity,
}

module _ (dev : BlockDevice) where
  open dev use {Disk, read_sector, sector_count}

  -- The steps of a growth that succeeds.
  abbrev Grown : ℕ → DiskInode → ℕ → Disk → DiskInode → Disk → Type 0
  Grown i entry needed d entry' d' =
      (d1 : Disk) × (find_extent dev needed i d ≡ (ok entry'.start_sector, d))
      × (zero_sectors dev needed 0 entry'.start_sector d ≡ (ok tt, d1))
      × (copy_sectors dev entry.sector_count 0 entry.start_sector entry'.start_sector d1
          ≡ (ok tt, d'))
      × (entry'.sector_count ≡ needed)

  fitted :
      (b : Bool) (x y : DiskInode) (d d' : Disk)
      → ◌≡◌ {A = Result VfsError DiskInode × Disk}
          (lift (if b then ok x else err VfsError.no_space) d)
          (ok y, d')
      → (x ≡ y) × (d ≡ d')
  fitted true x y d d' h = (ok-injective {E = VfsError} x y (ap (λ p. p.0) h), ap (λ p. p.1) h)
  fitted false x y d d' h = absurd (cc)

  ensure_capacity-Grown :
      (i needed : ℕ) (entry entry' : DiskInode) (d d' : Disk)
      → entry.sector_count < needed
      → ensure_capacity dev i entry needed d ≡ (ok entry', d')
      → Grown i entry needed d entry' d'
  unfolding ensure_capacity
  ensure_capacity-Grown i needed entry entry' d d' more h =
      let short : leb needed entry.sector_count ≡ false = ground arith in
      let (g, d0, found, next) =
        bind-inv (find_extent dev needed i) _ d d' entry' (rw (short, ensure_capacity) at h) in
      let (d1, zeroed, next') = step-inv (zero_sectors dev needed 0 g) _ d0 d' entry' next in
      let (d2, copied, last) =
        step-inv (copy_sectors dev entry.sector_count 0 entry.start_sector g) _ d1 d' entry'
          next' in
      let (same, end) = fitted _ _ entry' d2 d' last in
      let kept : d0 ≡ d = find_extent-disk dev needed i g d d0 (omega arith) found in
      let place : g ≡ entry'.start_sector = ap (λ e. e.start_sector) same in
      (
        d1,
        found ∙ ap (λ x. (ok x, d0)) place ∙ ap (λ x. (ok entry'.start_sector, x)) kept,
        subst (λ x. zero_sectors dev needed 0 x d ≡ (ok tt, d1)) place
            (subst (λ x. zero_sectors dev needed 0 g x ≡ (ok tt, d1)) kept zeroed),
        subst (λ x. copy_sectors dev entry.sector_count 0 entry.start_sector x d1 ≡ (ok tt, d2))
              place copied
            ∙ ap (λ x. (ok tt, x)) end,
        sym (ap (λ e. e.sector_count) same),
      )

  -- A file that grows keeps its contents, followed by zeros, when its new sectors are apart from its old
  -- ones.
  pub ensure_capacity-keeps :
      (i needed k : ℕ) (entry entry' : DiskInode) (d d' : Disk)
      → entry.sector_count < needed
      → ensure_capacity dev i entry needed d ≡ (ok entry', d')
      → entry.start_sector + entry.sector_count < u64_mod
      → entry'.start_sector + needed < u64_mod
      → (entry'.start_sector + needed ≤ entry.start_sector)
        ⊎ (entry.start_sector + entry.sector_count ≤ entry'.start_sector)
      → (k < entry.sector_count
          → read_sector d' (entry'.start_sector + k) ≡ read_sector d (entry.start_sector + k))
        × (entry.sector_count ≤ k
            → k < needed
            → read_sector d' (entry'.start_sector + k) ≡ ok zero_sector)
  ensure_capacity-keeps i needed k entry entry' d d' more h word word' apart =
      let (d1, found, zeroed, copied, count) =
        ensure_capacity-Grown i needed entry entry' d d' more h in
      let from : ℕ = entry.start_sector in
      let to : ℕ = entry'.start_sector in
      let zeros =
        zero_sectors-AllZero dev needed 0 to d d1 (omega arith) zeroed
          (λ t low high. absurd (omega arith)) in
      (
        λ inside.
            copy_sectors-copies dev entry.sector_count 0 from to k d1 d' (omega arith) (omega arith)
              (ground arith) copied (omega arith) (omega arith)
            ∙ zero_sectors_other dev needed 0 to d d1 (from + k) (omega arith) zeroed
                (ground arith),
        λ past inside.
            copy_sectors_other dev entry.sector_count 0 from to d1 d' (to + k) (omega arith) copied
              (inr (omega arith))
            ∙ zeros (to + k) (omega arith) (omega arith),
      )

  found_alone :
      (needed i g : ℕ) (d : Disk)
      → (needed == 0) ≡ false
      → used_from dev 63 2 i d ≡ (ok [], d)
      → find_extent dev needed i d ≡ (ok g, d)
      → g ≡ data_start
  unfolding find_extent sort_extents first_gap gap_inside
  found_alone needed i g d none alone h =
      sym (placed dev _ data_start g d d (rw (none, alone, find_extent) at h))

  -- The only file with sectors loses its contents when it outgrows them: its new sectors begin where the
  -- old ones do, and all of them read as zeros afterwards.
  pub ensure_capacity-loses :
      (i needed : ℕ) (entry entry' : DiskInode) (d d' : Disk)
      → entry.sector_count < needed
      → needed < 2 ^ 32
      → entry.start_sector ≡ data_start
      → used_from dev 63 2 i d ≡ (ok [], d)
      → ensure_capacity dev i entry needed d ≡ (ok entry', d')
      → (entry'.start_sector ≡ data_start)
        × ((k : ℕ) → k < needed → read_sector d' (data_start + k) ≡ ok zero_sector)
  ensure_capacity-loses i needed entry entry' d d' more small first alone h =
      let (d1, found, zeroed, copied, count) =
        ensure_capacity-Grown i needed entry entry' d d' more h in
      let place : entry'.start_sector ≡ data_start =
        found_alone needed i entry'.start_sector d (ground arith) alone found in
      let zeros =
        zero_sectors-AllZero dev needed 0 data_start d d1 (omega arith)
          (subst (λ x. zero_sectors dev needed 0 x d ≡ (ok tt, d1)) place zeroed)
          (λ t low high. absurd (omega arith)) in
      let onto : copy_sectors dev entry.sector_count 0 data_start data_start d1 ≡ (ok tt, d') =
        subst (λ x. copy_sectors dev entry.sector_count 0 x data_start d1 ≡ (ok tt, d')) first
          (subst (λ x. copy_sectors dev entry.sector_count 0 entry.start_sector x d1 ≡ (ok tt, d'))
            place copied) in
      (
        place,
        λ k inside.
            copy_sectors-AllZero dev entry.sector_count 0 data_start (data_start + needed) d1 d'
              (omega arith) (omega arith) onto zeros (data_start + k) (omega arith) (omega arith),
      )
