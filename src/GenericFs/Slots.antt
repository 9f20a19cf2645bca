-- ===== src/GenericFs/Slots.antt =====
-- The inode table as an array of entries: a slot reads as it was written, and no other slot changes.
use generic_kernel.Common.{
  ℕ, ◌+◌, ◌≤◌, ◌<◌, ◌≡◌, ◌≢◌, sym, ap, subst, ◌∙◌, inl, inr, arith, length, ltb, ◌==◌, ==_iff, ok,
  Bool-cases, ok-injective,
}
use generic_kernel.Bytes.{slice, write_at}
use generic_kernel.Bytes.Slices.{
  slice-write_at, slice-write_at_before, slice-write_at_after, length-slice,
}
use generic_kernel.GenericFs.Device.{BlockDevice, BlockError, Sector, sector_size, M, then}
use generic_kernel.GenericFs.Codec.{DiskInode, inode_size, encode_inode, decode_inode}
use generic_kernel.GenericFs.RoundTrip.{IsEntry, decode_inode-encode_inode, length-encode_inode}
use generic_kernel.GenericFs.Steps.{bind-inv, lift-inv, read-inv, write-ok, read-step}
use generic_kernel.GenericFs.Table.{
  inode_index, slot_sector, slot_offset, read_inode, write_inode, inode_count,
}

pub inode_index-ok : (i k : ℕ) → inode_index i ≡ ok k → (i ≡ k + 1) × (k < inode_count)
unfolding inode_index
inode_index-ok i k h = ground arith

module _ (dev : BlockDevice) where
  open dev use {
    Disk, sector_count, read_sector, write_sector, read_written, read_other, sector_length,
  }

  -- The sector that a write of the entry `e` to slot `k` leaves.
  abbrev pub patched : ℕ → DiskInode → Sector → Sector
  patched k e raw =
      write_at (slot_offset k) (encode_inode (slice (slot_offset k) inode_size raw) e) raw

  pub read_inode-slot :
      (d : Disk) (i k : ℕ) (raw : Sector)
      → inode_index i ≡ ok k
      → read_sector d (slot_sector k) ≡ ok raw
      → read_inode dev i d ≡ (decode_inode (slice (slot_offset k) inode_size raw), d)
  unfolding read_inode
  read_inode-slot d i k raw index found = rw index (read-step dev (slot_sector k) raw _ d found)

  -- A write of an entry that succeeds has found, patched and written its sector.
  pub write_inode-slot :
      (d d' : Disk) (i : ℕ) (e : DiskInode)
      → write_inode dev i e d ≡ (ok tt, d')
      → (k : ℕ) × (raw : Sector) × (inode_index i ≡ ok k)
        × (read_sector d (slot_sector k) ≡ ok raw)
        × (write_sector d (slot_sector k) (patched k e raw) ≡ (ok tt, d'))
  unfolding write_inode
  write_inode-slot d d' i e h =
      let (k, index, next) = lift-inv (inode_index i) _ d d' tt h in
      let (raw, found, last) = read-inv dev (slot_sector k) _ d d' tt next in
      (k, raw, index, found, write-ok dev (slot_sector k) (patched k e raw) d d' last)

  patched_slot :
      (k : ℕ) (e : DiskInode) (raw : Sector)
      → length raw ≡ sector_size
      → IsEntry e
      → decode_inode (slice (slot_offset k) inode_size (patched k e raw)) ≡ ok e
  patched_slot k e raw full v =
      let room : slot_offset k + inode_size ≤ length raw = omega arith in
      let size = length-slice (slot_offset k) inode_size raw room in
      ap decode_inode (
        slice-write_at (slot_offset k) inode_size
          (encode_inode (slice (slot_offset k) inode_size raw) e) raw
          (length-encode_inode (slice (slot_offset k) inode_size raw) e ∙ size) room)
      ∙ decode_inode-encode_inode (slice (slot_offset k) inode_size raw) e v size

  patched_other :
      (k j : ℕ) (e : DiskInode) (raw : Sector)
      → length raw ≡ sector_size
      → k ≢ j
      → slot_sector k ≡ slot_sector j
      → slice (slot_offset j) inode_size (patched k e raw) ≡ slice (slot_offset j) inode_size raw
  patched_other k j e raw full apart same =
      let source = encode_inode (slice (slot_offset k) inode_size raw) e in
      let size : length source ≡ inode_size =
        length-encode_inode (slice (slot_offset k) inode_size raw) e
        ∙ length-slice (slot_offset k) inode_size raw (omega arith) in
      elim (Bool-cases (ltb (slot_offset k) (slot_offset j))) [
        | inl before ↦
            slice-write_at_after (slot_offset j) inode_size (slot_offset k) source raw
              (ground (arith, size, apart))
        | inr after ↦
            slice-write_at_before (slot_offset j) inode_size (slot_offset k) source raw
              (ground (arith, apart))
      ]

  -- An inode that has been written is read back as it was written, whatever its slot held.
  pub read_inode-write_inode :
      (d d' : Disk) (i : ℕ) (e : DiskInode)
      → IsEntry e
      → write_inode dev i e d ≡ (ok tt, d')
      → read_inode dev i d' ≡ (ok e, d')
  read_inode-write_inode d d' i e v h =
      let (k, raw, index, found, done) = write_inode-slot d d' i e h in
      let there = read_written d d' (slot_sector k) (patched k e raw) done in
      read_inode-slot d' i k (patched k e raw) index there
      ∙ ap (λ r. (r, d')) (patched_slot k e raw (sector_length d (slot_sector k) raw found) v)

  -- Writing an inode changes what no other inode reads as, although four of them share a sector.
  pub read_inode-write_inode_other :
      (d d' : Disk) (i j : ℕ) (e found : DiskInode)
      → i ≢ j
      → write_inode dev i e d ≡ (ok tt, d')
      → read_inode dev j d ≡ (ok found, d)
      → read_inode dev j d' ≡ (ok found, d')
  unfolding read_inode
  read_inode-write_inode_other d d' i j e found apart h there =
      let (k, raw, index, got, done) = write_inode-slot d d' i e h in
      let (l, index', next) = lift-inv (inode_index j) _ d d found there in
      let (raw', got', last) = read-inv dev (slot_sector l) _ d d found next in
      let value : decode_inode (slice (slot_offset l) inode_size raw') ≡ ok found =
        ap (λ p. p.0) last in
      let distinct : k ≢ l =
        λ same. apart (omega (arith, inode_index-ok i k index, inode_index-ok j l index')) in
      elim (Bool-cases (slot_sector k == slot_sector l)) [
        | inr other ↦
            read_inode-slot d' j l raw' index' (
              read_other d d' (slot_sector k) (slot_sector l) (patched k e raw) done (ground arith)
              ∙ got')
            ∙ ap (λ r. (r, d')) value
        | inl shared ↦
            let one : slot_sector k ≡ slot_sector l = (==_iff _ _).0 shared in
            let same_raw : raw ≡ raw' =
              ok-injective {E = BlockError} raw raw'
                (sym got ∙ ap (dev.read_sector d) one ∙ got') in
            read_inode-slot d' j l (patched k e raw) index' (
              ap (dev.read_sector d') (sym one)
              ∙ read_written d d' (slot_sector k) (patched k e raw) done)
            ∙ ap (λ r. (r, d'))
                (ap decode_inode (
                    patched_other k l e raw (sector_length d (slot_sector k) raw got) distinct one
                    ∙ ap (slice (slot_offset l) inode_size) same_raw)
                  ∙ value)
      ]

  -- Reading an inode leaves the disk alone.
  pub read_inode-inv {κ} :
      {B : Type κ} (i : ℕ) (f : DiskInode → M Disk B) (d d'' : Disk) (b : B)
      → then (read_inode dev i d) f ≡ (ok b, d'')
      → (entry : DiskInode) × (read_inode dev i d ≡ (ok entry, d)) × (f entry d ≡ (ok b, d''))
  unfolding read_inode
  read_inode-inv i f d d'' b h =
      let (entry, d1, e, rest) = bind-inv (read_inode dev i) f d d'' b h in
      let (k, index, next) = lift-inv (inode_index i) _ d d1 entry e in
      let (raw, got, last) = read-inv dev (slot_sector k) _ d d1 entry next in
      let same : d ≡ d1 = ap (λ p. p.1) last in
      (
        entry,
        e ∙ ap (λ x. (ok entry, x)) (sym same),
        subst (λ x. f entry x ≡ (ok b, d'')) (sym same) rest,
      )
