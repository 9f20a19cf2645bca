-- ===== src/Mapping/Taking.antt =====
-- The frames that `PmmFrameAllocator` takes from a valid physical memory manager.
use generic_kernel.Common.{
  ℕ, ◌+◌, ◌*◌, ◌≡◌, refl, sym, ap, subst, ◌∙◌, false, Option, none, some, Result, ok, err, arith,
}
use generic_kernel.Ranges.{covers}
use generic_kernel.Pmm.{
  PhysicalMemory, PhysicalMemoryError, page_size, allocate_pages, allocate_frame,
}
use generic_kernel.Pmm.Inv.{IsValid}
use generic_kernel.Pmm.Blocks.{allocate-Allocated, allocate-none, allocate-err}
use generic_kernel.Mapping.{PmmFrameAllocator, counted_frame, allocate_physical}

module _ (n : ℕ) where
  -- From the memory `m`: the memory is valid, and the frames that were taken are counted.
  pub record HasTaken (total : ℕ) (a : PmmFrameAllocator) : Type 0 where
    pub valid : IsValid n a.pmm
    pub sum : a.pmm.free_bytes + a.allocated * page_size ≡ total

  -- What an answer of `allocate_frame` leaves.
  counted-HasTaken :
      (total : ℕ) (a : PmmFrameAllocator)
      (o : Result PhysicalMemoryError (Option ℕ) × PhysicalMemory)
      → allocate_pages n a.pmm 1 1 ≡ o
      → HasTaken total a
      → HasTaken total (counted_frame a.allocated o).1
  counted-HasTaken total a (err e, m) h t =
      let same = allocate-err n a.pmm m 1 1 e h in
      record {
        valid = subst (IsValid n) (sym same) t.valid;
        sum = ap (λ k. k.free_bytes + a.allocated * page_size) same ∙ t.sum;
      }
  counted-HasTaken total a (ok none, m) h t =
      let same = (allocate-none n a.pmm m 1 1 0 t.valid h).0 in
      record {
        valid = subst (IsValid n) (sym same) t.valid;
        sum = ap (λ k. k.free_bytes + a.allocated * page_size) same ∙ t.sum;
      }
  counted-HasTaken total a (ok (some f), m) h t =
      let done = allocate-Allocated n a.pmm m 1 1 f t.valid h in
      record { valid = done.valid; sum = omega (arith, done.counted, t.sum) }

  pub allocate_physical-HasTaken :
      (total : ℕ) (a : PmmFrameAllocator)
      → HasTaken total a
      → HasTaken total (allocate_physical n a).1
  unfolding allocate_physical allocate_frame
  allocate_physical-HasTaken total a t =
      counted-HasTaken total a (allocate_pages n a.pmm 1 1) refl t

  -- An address that is taken stays so.
  abbrev pub IsTaken : ℕ → PmmFrameAllocator → Type 0
  IsTaken x a = IsValid n a.pmm × (covers a.pmm.free x ≡ false)

  counted-IsTaken :
      (x : ℕ) (a : PmmFrameAllocator) (o : Result PhysicalMemoryError (Option ℕ) × PhysicalMemory)
      → allocate_pages n a.pmm 1 1 ≡ o
      → IsTaken x a
      → IsTaken x (counted_frame a.allocated o).1
  counted-IsTaken x a (err e, m) h (valid, out) =
      let same = allocate-err n a.pmm m 1 1 e h in
      (subst (IsValid n) (sym same) valid, ap (λ k. covers k.free x) same ∙ out)
  counted-IsTaken x a (ok none, m) h (valid, out) =
      let same = (allocate-none n a.pmm m 1 1 0 valid h).0 in
      (subst (IsValid n) (sym same) valid, ap (λ k. covers k.free x) same ∙ out)
  counted-IsTaken x a (ok (some f), m) h (valid, out) =
      let done = allocate-Allocated n a.pmm m 1 1 f valid h in
      (done.valid, done.taken_out x ∙ rw out)

  pub allocate_physical-IsTaken :
      (x : ℕ) (a : PmmFrameAllocator) → IsTaken x a → IsTaken x (allocate_physical n a).1
  unfolding allocate_physical allocate_frame
  allocate_physical-IsTaken x a t = counted-IsTaken x a (allocate_pages n a.pmm 1 1) refl t

  pub allocate_physical-IsValid :
      (a : PmmFrameAllocator) → IsValid n a.pmm → IsValid n (allocate_physical n a).1.pmm
  allocate_physical-IsValid a v =
      (allocate_physical-HasTaken (a.pmm.free_bytes + a.allocated * page_size) a
        (record { valid = v; sum = refl })).valid
