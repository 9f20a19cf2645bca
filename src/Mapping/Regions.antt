-- ===== src/Mapping/Regions.antt =====
-- `allocate_dma` and `verify_physical_memory`: the frames that they take and return.
use generic_kernel.Common.{
  ℕ, ◌+◌, ◌-◌, ◌*◌, ◌%◌, ◌<◌, ◌≤◌, ◌≡◌, refl, sym, ap, subst, ◌∙◌, ◌⊎◌, inl, inr, Bool, true, false,
  ◌&&◌, Option, none, some, Result, ok, err, ltb, leb, ◌==◌, Bool-cases, arith, checked_add,
  checked_add-inv, checked_mul, checked_mul-inv,
}
use generic_kernel.Ranges.{covers, inside}
use generic_kernel.Pmm.{PhysicalMemory, PhysicalMemoryError, page_size, allocate_pages}
use generic_kernel.Pmm.Inv.{IsValid}
use generic_kernel.Pmm.Allocate.{Allocated}
use generic_kernel.Pmm.Blocks.{allocate-Allocated, allocate-none, allocate-err}
use generic_kernel.Mapping.Clearing.{or-true, and-false}
use generic_kernel.Mapping.Dma.{
  DmaRegion, DmaState, dma_cleared, dma_addressed, dma_allocated, dma_locked, allocate_dma,
}

module _ (n : ℕ) where
  abbrev pub IsValidLock : Option PhysicalMemory → Type 0
  IsValidLock none = Unit {0}
  IsValidLock (some m) = IsValid n m

  -- Whether an address is free.
  abbrev pub free_in : Option PhysicalMemory → ℕ → Bool
  free_in none a = false
  free_in (some m) a = covers m.free a

  pub record HasRegion (pages : ℕ) (s : DmaState) (r : DmaRegion) (s' : DmaState) : Type 0 where
    pub size : r.pages ≡ pages
    pub aligned : r.physical % page_size ≡ 0
    pub offset : s.offset ≡ some (r.virtual_address - r.physical)
    pub above : r.physical ≤ r.virtual_address
    pub was_free : (i : ℕ) → i < pages * page_size → free_in s.pmm (r.physical + i) ≡ true
    pub is_taken : (i : ℕ) → i < pages * page_size → free_in s'.pmm (r.physical + i) ≡ false
    pub is_zero : (i : ℕ) → i < pages * page_size → s'.ram (r.virtual_address + i) ≡ 0
    pub around :
        (a : ℕ)
        → (a < r.virtual_address) ⊎ (r.virtual_address + pages * page_size ≤ a)
        → s'.ram a ≡ s.ram a

  abbrev pub IsRegion : ℕ → DmaState → Option DmaRegion × DmaState → Type 0
  IsRegion pages s (none, s') = (s'.ram ≡ s.ram) × IsValidLock s'.pmm
  IsRegion pages s (some r, s') = HasRegion pages s r s' × IsValidLock s'.pmm

  cleared-IsRegion :
      (pages start offset base : ℕ) (s : DmaState) (m m' : PhysicalMemory) (o : Option ℕ)
      → s.pmm ≡ some m
      → s.offset ≡ some offset
      → Allocated n m pages 1 start m'
      → offset + start ≡ base
      → checked_mul pages page_size ≡ o
      → IsRegion pages s (dma_cleared pages start base (record s { pmm = some m' }) o)
  cleared-IsRegion pages start offset base s m m' none lock off done at h = (refl, done.valid)
  cleared-IsRegion pages start offset base s m m' (some bytes) lock off done at h =
      let size = checked_mul-inv pages page_size bytes h in
      (
        record {
          size = refl;
          aligned = omega (arith, done.multiple.1);
          offset = let same : offset ≡ base - start = omega (arith, at) in off ∙ ap some same;
          above = omega (arith, at);
          was_free = λ i lt.
              let within : inside start (start + pages * page_size) (start + i) ≡ true =
                ground (arith, lt) in
              ap (λ l. free_in l (start + i)) lock
              ∙ done.was_free (start + i)
              ∙ rw within (or-true (covers m'.free (start + i)));
          is_taken = λ i lt.
              let within : inside start (start + pages * page_size) (start + i) ≡ true =
                ground (arith, lt) in
              done.taken_out (start + i) ∙ rw within (and-false (covers m.free (start + i)));
          is_zero = λ i lt.
              let within : (leb base (base + i) && ltb (base + i) (base + bytes)) ≡ true =
                ground (arith, lt, size) in
              rw within;
          around = λ a out.
              let outside : (leb base a && ltb a (base + bytes)) ≡ false = elim out [
                | inl below ↦ ground (arith, size)
                | inr over ↦ ground (arith, size)
              ] in
              rw outside;
        },
        done.valid,
      )

  addressed-IsRegion :
      (pages start offset : ℕ) (s : DmaState) (m m' : PhysicalMemory) (o : Option ℕ)
      → s.pmm ≡ some m
      → s.offset ≡ some offset
      → Allocated n m pages 1 start m'
      → checked_add offset start ≡ o
      → IsRegion pages s (dma_addressed pages start (record s { pmm = some m' }) o)
  addressed-IsRegion pages start offset s m m' none lock off done h = (refl, done.valid)
  addressed-IsRegion pages start offset s m m' (some base) lock off done h =
      cleared-IsRegion pages start offset base s m m' _ lock off done (checked_add-inv _ _ _ h) refl

  allocated-IsRegion :
      (pages offset : ℕ) (s : DmaState) (m : PhysicalMemory)
      (o : Result PhysicalMemoryError (Option ℕ) × PhysicalMemory)
      → s.pmm ≡ some m
      → s.offset ≡ some offset
      → IsValid n m
      → allocate_pages n m pages 1 ≡ o
      → IsRegion pages s (dma_allocated pages offset s o)
  allocated-IsRegion pages offset s m (err e, m') lock off v h =
      (refl, subst (IsValid n) (sym (allocate-err n m m' pages 1 e h)) v)
  allocated-IsRegion pages offset s m (ok none, m') lock off v h =
      (refl, subst (IsValid n) (sym (allocate-none n m m' pages 1 0 v h).0) v)
  allocated-IsRegion pages offset s m (ok (some start), m') lock off v h =
      addressed-IsRegion pages start offset s m m' _ lock off
        (allocate-Allocated n m m' pages 1 start v h) refl

  locked-IsRegion :
      (pages : ℕ) (s : DmaState) (offset : Option ℕ) (lock : Option PhysicalMemory)
      → s.offset ≡ offset
      → s.pmm ≡ lock
      → IsValidLock s.pmm
      → IsRegion pages s (dma_locked n pages s offset lock)
  locked-IsRegion pages s none lock h h' v = (refl, v)
  locked-IsRegion pages s (some offset) none h h' v = (refl, v)
  locked-IsRegion pages s (some offset) (some m) h h' v =
      allocated-IsRegion pages offset s m _ h' h (subst IsValidLock h' v) refl

  -- On a valid physical memory a region that `allocate_dma` returns has the number of pages asked for,
  -- which were free and are taken, one behind the other from a multiple of the page size on; its virtual
  -- address is that of the direct map, where every byte of it is zero, and no other byte has changed. Where
  -- there is no region, no byte has changed. The physical memory stays valid.
  pub allocate_dma-IsRegion :
      (pages : ℕ) (s : DmaState) → IsValidLock s.pmm → IsRegion pages s (allocate_dma n pages s)
  unfolding allocate_dma
  allocate_dma-IsRegion pages s v = elim (Bool-cases (pages == 0)) [
    | inl nothing ↦ rw (nothing, IsRegion) (refl, v)
    | inr some_pages ↦ rw some_pages (locked-IsRegion pages s s.offset s.pmm refl refl v)
  ]
