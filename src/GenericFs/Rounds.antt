-- ===== src/GenericFs/Rounds.antt =====
-- The loops over the bytes of a file in genericfs.rs end: a round for every byte that is left is enough.
use generic_kernel.Common.{
  ℕ, zero, suc, ◌+◌, ◌/◌, ◌%◌, ◌≤◌, ◌<◌, ◌≡◌, refl, sym, ap, ◌∙◌, true, false, List, [], ◌++◌,
  Result, ok, err, ltb, length, arith, Bool-cases, inl, inr, replicate,
}
use generic_kernel.Bytes.{slice, write_at}
use generic_kernel.Vfs.{VfsError}
use generic_kernel.GenericFs.Device.{BlockDevice, M, then, pure, sector_size, ◌>>◌}
use generic_kernel.GenericFs.Codec.{DiskInode}
use generic_kernel.GenericFs.Table.{read, write}
use generic_kernel.GenericFs.Extent.{add64, part, zero_from}
use generic_kernel.GenericFs.Ops.{read_from, write_from}

then-same {κ} :
    {D : Type 0} {A : Type 0} {B : Type κ} (r : Result VfsError A × D) (f g : A → M D B)
    → ((a : A) (d : D) → f a d ≡ g a d)
    → then r f ≡ then r g
then-same (ok a, d) f g same = same a d
then-same (err e, d) f g same = refl

module _ (dev : BlockDevice) where
  open dev use {Disk}

  part_pos : (position end : ℕ) → position < end → 0 < part dev position end
  part_pos position end h = omega arith

  -- One round of each loop, where bytes are left and where none is.
  zero_step :
      (k : ℕ) (entry : DiskInode) (position end : ℕ) (d : Disk)
      → ltb position end ≡ true
      → zero_from dev (suc k) entry position end d
        ≡ then (read dev (add64 entry.start_sector (position / sector_size)) d) (λ buffer.
          write dev
            (add64 entry.start_sector (position / sector_size))
            (write_at (position % sector_size) (replicate (part dev position end) 0) buffer)
          >> zero_from dev k entry (position + part dev position end) end)
  unfolding zero_from
  zero_step k entry position end d more = rw (more, zero_from) refl

  zero_stop :
      (k : ℕ) (entry : DiskInode) (position end : ℕ) (d : Disk)
      → ltb position end ≡ false
      → zero_from dev k entry position end d ≡ (ok tt, d)
  unfolding zero_from
  zero_stop zero entry position end d stop = refl
  zero_stop (suc k) entry position end d stop = rw (stop, zero_from) refl

  -- The zeroing of a range does the same with any number of rounds from the number of its bytes on.
  pub zero_from_fuel :
      (rounds more : ℕ) (entry : DiskInode) (position end : ℕ) (d : Disk)
      → end ≤ position + rounds
      → zero_from dev (rounds + more) entry position end d
        ≡ zero_from dev rounds entry position end d
  zero_from_fuel zero more entry position end d enough =
      let stop : ltb position end ≡ false = ground arith in
      zero_stop (zero + more) entry position end d stop
      ∙ sym (zero_stop zero entry position end d stop)
  zero_from_fuel (suc rounds) more entry position end d enough =
      let shift : suc rounds + more ≡ suc (rounds + more) = omega arith in
      elim (Bool-cases (ltb position end)) [
        | inr stop ↦
            zero_stop (suc rounds + more) entry position end d stop
            ∙ sym (zero_stop (suc rounds) entry position end d stop)
        | inl left ↦
            let further = part_pos position end (ground arith) in
            ap (λ k. zero_from dev k entry position end d) shift
            ∙ zero_step (rounds + more) entry position end d left
            ∙ then-same (read dev (add64 entry.start_sector (position / sector_size)) d) _ _
                (λ buffer d1. then-same _ _ _ (λ u d2.
                  zero_from_fuel rounds more entry (position + part dev position end) end d2
                    (omega (arith, further))))
            ∙ sym (zero_step rounds entry position end d left)
      ]

  write_step :
      (k : ℕ) (entry : DiskInode) (offset : ℕ) (bytes : List ℕ) (done : ℕ) (d : Disk)
      → ltb done (length bytes) ≡ true
      → write_from dev (suc k) entry offset bytes done d
        ≡ then (read dev (add64 entry.start_sector ((offset + done) / sector_size)) d) (λ sector.
          write dev (add64 entry.start_sector ((offset + done) / sector_size)) (
            write_at
              ((offset + done) % sector_size)
              (slice done (part dev (offset + done) (offset + length bytes)) bytes)
              sector)
          >> write_from dev k entry offset bytes
              (done + part dev (offset + done) (offset + length bytes)))
  unfolding write_from
  write_step k entry offset bytes done d more = rw (more, write_from) refl

  write_stop :
      (k : ℕ) (entry : DiskInode) (offset : ℕ) (bytes : List ℕ) (done : ℕ) (d : Disk)
      → ltb done (length bytes) ≡ false
      → write_from dev k entry offset bytes done d ≡ (ok tt, d)
  unfolding write_from
  write_stop zero entry offset bytes done d stop = refl
  write_stop (suc k) entry offset bytes done d stop = rw (stop, write_from) refl

  -- The loop of `write` does the same with any number of rounds from the number of bytes left on.
  pub write_from_fuel :
      (rounds more : ℕ) (entry : DiskInode) (offset : ℕ) (bytes : List ℕ) (done : ℕ) (d : Disk)
      → length bytes ≤ done + rounds
      → write_from dev (rounds + more) entry offset bytes done d
        ≡ write_from dev rounds entry offset bytes done d
  write_from_fuel zero more entry offset bytes done d enough =
      let stop : ltb done (length bytes) ≡ false = ground arith in
      write_stop (zero + more) entry offset bytes done d stop
      ∙ sym (write_stop zero entry offset bytes done d stop)
  write_from_fuel (suc rounds) more entry offset bytes done d enough =
      let shift : suc rounds + more ≡ suc (rounds + more) = omega arith in
      elim (Bool-cases (ltb done (length bytes))) [
        | inr stop ↦
            write_stop (suc rounds + more) entry offset bytes done d stop
            ∙ sym (write_stop (suc rounds) entry offset bytes done d stop)
        | inl left ↦
            let further = part_pos (offset + done) (offset + length bytes) (ground arith) in
            ap (λ k. write_from dev k entry offset bytes done d) shift
            ∙ write_step (rounds + more) entry offset bytes done d left
            ∙ then-same (read dev (add64 entry.start_sector ((offset + done) / sector_size)) d) _ _
                (λ sector d1. then-same _ _ _ (λ u d2.
                  write_from_fuel rounds more entry offset bytes
                    (done + part dev (offset + done) (offset + length bytes)) d2
                    (omega (arith, further))))
            ∙ sym (write_step rounds entry offset bytes done d left)
      ]

  read_step :
      (k : ℕ) (entry : DiskInode) (offset total done : ℕ) (d : Disk)
      → ltb done total ≡ true
      → read_from dev (suc k) entry offset total done d
        ≡ then (read dev (add64 entry.start_sector ((offset + done) / sector_size)) d) (λ sector d1.
          then
            (read_from dev k entry offset total
              (done + part dev (offset + done) (offset + total))
              d1)
            (λ rest. pure (
              slice
                ((offset + done) % sector_size)
                (part dev (offset + done) (offset + total))
                sector
              ++ rest)))
  unfolding read_from
  read_step k entry offset total done d more = rw (more, read_from) refl

  read_stop :
      (k : ℕ) (entry : DiskInode) (offset total done : ℕ) (d : Disk)
      → ltb done total ≡ false
      → read_from dev k entry offset total done d ≡ (ok [], d)
  unfolding read_from
  read_stop zero entry offset total done d stop = refl
  read_stop (suc k) entry offset total done d stop = rw (stop, read_from) refl

  -- The loop of `read` does the same with any number of rounds from the number of bytes left on.
  pub read_from_fuel :
      (rounds more : ℕ) (entry : DiskInode) (offset total done : ℕ) (d : Disk)
      → total ≤ done + rounds
      → read_from dev (rounds + more) entry offset total done d
        ≡ read_from dev rounds entry offset total done d
  read_from_fuel zero more entry offset total done d enough =
      let stop : ltb done total ≡ false = ground arith in
      read_stop (zero + more) entry offset total done d stop
      ∙ sym (read_stop zero entry offset total done d stop)
  read_from_fuel (suc rounds) more entry offset total done d enough =
      let shift : suc rounds + more ≡ suc (rounds + more) = omega arith in
      elim (Bool-cases (ltb done total)) [
        | inr stop ↦
            read_stop (suc rounds + more) entry offset total done d stop
            ∙ sym (read_stop (suc rounds) entry offset total done d stop)
        | inl left ↦
            let further = part_pos (offset + done) (offset + total) (ground arith) in
            ap (λ k. read_from dev k entry offset total done d) shift
            ∙ read_step (rounds + more) entry offset total done d left
            ∙ then-same (read dev (add64 entry.start_sector ((offset + done) / sector_size)) d) _ _
                (λ sector d1.
                  ap
                    (λ r. then r (λ rest. pure (
                      slice ((offset + done) % sector_size)
                        (part dev (offset + done) (offset + total)) sector
                      ++ rest)))
                    (read_from_fuel rounds more entry offset total
                      (done + part dev (offset + done) (offset + total)) d1
                      (omega (arith, further))))
            ∙ sym (read_step rounds entry offset total done d left)
      ]
