-- ===== src/Mapping/Devices.antt =====
-- `map_mmio`: the bytes of a device appear, in their order, at the address that it returns.
use generic_kernel.Common.{
  ℕ, zero, suc, ◌+◌, ◌-◌, ◌*◌, ◌/◌, ◌%◌, ◌<◌, ◌≤◌, ◌≡◌, ◌≢◌, refl, sym, ap, subst, ◌∙◌, ◌⊎◌, inl,
  inr, Bool, true, false, not, ◌||◌, Option, none, some, ok, err, ltb, ◌==◌, Bool-cases, arith,
  checked_add, checked_add-inv, checked_mul, checked_mul-inv, align_down, align_down_lem, u64_mod,
}
use generic_kernel.Ranges.{covers}
use generic_kernel.Pmm.{PhysicalMemory, page_size}
use generic_kernel.Pmm.Inv.{IsValid}
use generic_kernel.Mapping.{PmmFrameAllocator, Mapper}
use generic_kernel.Mapping.Taking.{IsTaken, allocate_physical-IsTaken, allocate_physical-IsValid}
use generic_kernel.Mapping.Mmio.{
  MmioState, Run, after_map, mmio_page, mmio_round, mmio_flags, map_mmio_pages, map_mmio_range,
  mapped_at, reserved, sized, spanned, summed, map_mmio,
}

checked_add-lt : (a b sum : ℕ) → checked_add a b ≡ some sum → sum < u64_mod
checked_add-lt a b sum h = elim (Bool-cases (ltb (a + b) u64_mod)) [
  | inl fits ↦ let e = checked_add-inv a b sum h in ground arith
  | inr over ↦ absurd (let no : none ≡ some sum = sym (rw over refl) ∙ h in cc)
]

checked_mul-lt : (a b product : ℕ) → checked_mul a b ≡ some product → a * b < u64_mod
checked_mul-lt a b product h = elim (Bool-cases (ltb (a * b) u64_mod)) [
  | inl fits ↦ ground arith
  | inr over ↦ absurd (let no : none ≡ some product = sym (rw over refl) ∙ h in cc)
]

module _ {n : ℕ} (mapper : Mapper n) (root : ℕ) where
  open mapper use {Tables, translate, map_to, maps, fails, others, takes}

  module _ (virtual_start physical_start : ℕ) where
    -- What a run over the pages from `index` on keeps.
    record IsKept (index rounds : ℕ) (t : Tables) (a : PmmFrameAllocator) (t' : Tables)
        (a' : PmmFrameAllocator) : Type 0 where
      lower :
          (address : ℕ)
          → address < virtual_start + index * page_size
          → translate t' root address ≡ translate t root address
      upper :
          (address : ℕ)
          → virtual_start + (index + rounds) * page_size ≤ address
          → translate t' root address ≡ translate t root address
      valid : IsValid n a'.pmm
      taken : (x : ℕ) → covers a.pmm.free x ≡ false → covers a'.pmm.free x ≡ false

    -- What it has mapped, a byte of the range at a time.
    record IsPlaced (index rounds : ℕ) (t' : Tables) : Type 0 where
      bytes :
          (i : ℕ)
          → index * page_size ≤ i
          → i < (index + rounds) * page_size
          → translate t' root (virtual_start + i) ≡ some (physical_start + i)
      below :
          (i : ℕ)
          → index * page_size ≤ i
          → i < (index + rounds) * page_size
          → virtual_start + i < u64_mod

    abbrev IsRun : ℕ → ℕ → Tables → PmmFrameAllocator → Run mapper root → Type 0
    IsRun index rounds t a (ok _, t', a') = IsPlaced index rounds t' × IsKept index rounds t a t' a'
    IsRun index rounds t a (err e, t', a') = IsKept index rounds t a t' a'

    same-IsKept :
        (index rounds : ℕ) (t : Tables) (a : PmmFrameAllocator)
        → IsValid n a.pmm
        → IsKept index rounds t a t a
    same-IsKept index rounds t a v = record {
      lower = λ address h. refl;
      upper = λ address h. refl;
      valid = v;
      taken = λ x h. h;
    }

    -- One page that was mapped.
    record IsStepped (index : ℕ) (t : Tables) (a : PmmFrameAllocator) (t' : Tables)
        (a' : PmmFrameAllocator) : Type 0 where
      page :
          (i : ℕ)
          → i < page_size
          → translate t' root (virtual_start + index * page_size + i)
            ≡ some (physical_start + index * page_size + i)
      below : virtual_start + index * page_size < u64_mod
      other :
          (address : ℕ)
          → address / page_size ≢ (virtual_start + index * page_size) / page_size
          → translate t' root address ≡ translate t root address
      valid : IsValid n a'.pmm
      taken : (x : ℕ) → covers a.pmm.free x ≡ false → covers a'.pmm.free x ≡ false

    module _ (aligned : virtual_start % page_size ≡ 0)
        (aligned' : physical_start % page_size ≡ 0) where
      IsKept-step :
          (index rounds : ℕ) (t t' t'' : Tables) (a a' a'' : PmmFrameAllocator)
          → IsStepped index t a t' a'
          → IsKept (suc index) rounds t' a' t'' a''
          → IsKept index (suc rounds) t a t'' a''
      IsKept-step index rounds t t' t'' a a' a'' step rest = record {
        lower = λ address h.
            rest.lower address (omega (arith, h)) ∙ step.other address (omega (arith, h, aligned));
        upper = λ address h.
            rest.upper address (omega (arith, h)) ∙ step.other address (omega (arith, h, aligned));
        valid = rest.valid;
        taken = λ x h. rest.taken x (step.taken x h);
      }

      IsPlaced-step :
          (index rounds : ℕ) (t t' t'' : Tables) (a a' a'' : PmmFrameAllocator)
          → IsStepped index t a t' a'
          → IsKept (suc index) rounds t' a' t'' a''
          → IsPlaced (suc index) rounds t''
          → IsPlaced index (suc rounds) t''
      IsPlaced-step index rounds t t' t'' a a' a'' step kept rest = record {
        bytes = λ i low high. elim (Bool-cases (ltb i (suc index * page_size))) [
          | inr later ↦ rest.bytes i (ground arith) (omega (arith, high))
          | inl here ↦
              let lt : i < suc index * page_size = ground arith in
              let j : virtual_start + i
                  ≡ virtual_start + index * page_size + (i - index * page_size) =
                omega (arith, low) in
              let k : physical_start + index * page_size + (i - index * page_size)
                  ≡ physical_start + i =
                omega (arith, low) in
              kept.lower (virtual_start + i) (omega (arith, lt))
              ∙ ap (translate t' root) j
              ∙ step.page (i - index * page_size) (omega (arith, lt, low))
              ∙ ap some k
        ];
        below = λ i low high. elim (Bool-cases (ltb i (suc index * page_size))) [
          | inr later ↦ rest.below i (ground arith) (omega (arith, high))
          | inl here ↦
              let lt : i < suc index * page_size = ground arith in
              omega (arith, lt, low, aligned, step.below)
        ];
      }

      run-step :
          (index rounds : ℕ) (t t' : Tables) (a a' : PmmFrameAllocator) (r : Run mapper root)
          → IsStepped index t a t' a'
          → IsRun (suc index) rounds t' a' r
          → IsRun index (suc rounds) t a r
      run-step index rounds t t' a a' (err e, t'', a'') step rest =
          IsKept-step index rounds t t' t'' a a' a'' step rest
      run-step index rounds t t' a a' (ok _, t'', a'') step (placed, kept) = (
        IsPlaced-step index rounds t t' t'' a a' a'' step kept placed,
        IsKept-step index rounds t t' t'' a a' a'' step kept,
      )

      after-IsRun :
          (index rounds page frame : ℕ) (t : Tables) (a : PmmFrameAllocator)
          (rest : Tables → PmmFrameAllocator → Run mapper root)
          (o : Bool × Tables × PmmFrameAllocator)
          → map_to t a root page frame mmio_flags ≡ o
          → virtual_start + index * page_size ≡ page
          → physical_start + index * page_size ≡ frame
          → page < u64_mod
          → IsValid n a.pmm
          → ((t' : Tables) (a' : PmmFrameAllocator)
              → IsValid n a'.pmm
              → IsRun (suc index) rounds t' a' (rest t' a'))
          → IsRun index (suc rounds) t a (after_map mapper root rest o)
      after-IsRun index rounds page frame t a rest (false, t', a') h at at' lt v deeper =
          let same : (address : ℕ) → translate t' root address ≡ translate t root address =
            λ address.
              subst (λ o. translate o.1 root address ≡ translate t root address) h
                (fails t a root page frame mmio_flags (ap (λ o. o.0) h) address) in
          record {
            lower = λ address _. same address;
            upper = λ address _. same address;
            valid =
                subst (λ o. IsValid n o.2.pmm) h
                  (takes (λ k. IsValid n k.pmm) (allocate_physical-IsValid n) t a root page frame
                    mmio_flags v);
            taken = λ x out.
                subst (λ o. covers o.2.pmm.free x ≡ false) h
                  (takes (IsTaken n x) (allocate_physical-IsTaken n x) t a root page frame
                    mmio_flags (v, out)).1;
          }
      after-IsRun index rounds page frame t a rest (true, t', a') h at at' lt v deeper =
          run-step index rounds t t' a a' (rest t' a') step (deeper t' a' step.valid)
        where
          step : IsStepped index t a t' a'
          step = record {
            page = λ i within.
                subst
                  (λ p. translate t' root (p + i) ≡ some (physical_start + index * page_size + i))
                  (sym at)
                  (subst (λ f. translate t' root (page + i) ≡ some (f + i)) (sym at')
                    (subst (λ o. translate o.1 root (page + i) ≡ some (frame + i)) h
                      (maps t a root page frame mmio_flags (omega (arith, at, aligned))
                        (omega (arith, at', aligned')) (ap (λ o. o.0) h) i within)));
            below = omega (arith, at, lt);
            other = λ address ne.
                subst (λ o. translate o.1 root address ≡ translate t root address) h
                  (others t a root page frame mmio_flags address (λ e. ne (omega (arith, e, at))));
            valid =
                subst (λ o. IsValid n o.2.pmm) h
                  (takes (λ k. IsValid n k.pmm) (allocate_physical-IsValid n) t a root page frame
                    mmio_flags v);
            taken = λ x out.
                subst (λ o. covers o.2.pmm.free x ≡ false) h
                  (takes (IsTaken n x) (allocate_physical-IsTaken n x) t a root page frame
                    mmio_flags (v, out)).1;
          }

      page-IsRun :
          (index rounds page frame : ℕ) (t : Tables) (a : PmmFrameAllocator)
          (rest : Tables → PmmFrameAllocator → Run mapper root) (o : Option ℕ)
          → virtual_start + index * page_size ≡ page
          → physical_start + index * page_size ≡ frame
          → page < u64_mod
          → IsValid n a.pmm
          → ((t' : Tables) (a' : PmmFrameAllocator)
              → IsValid n a'.pmm
              → IsRun (suc index) rounds t' a' (rest t' a'))
          → IsRun index (suc rounds) t a (mmio_page mapper root rest t a page frame o)
      page-IsRun index rounds page frame t a rest (some f) at at' lt v deeper =
          same-IsKept index (suc rounds) t a v
      page-IsRun index rounds page frame t a rest none at at' lt v deeper =
          after-IsRun index rounds page frame t a rest _ refl at at' lt v deeper

      round-IsRun :
          (index rounds : ℕ) (t : Tables) (a : PmmFrameAllocator)
          (rest : Tables → PmmFrameAllocator → Run mapper root) (o p : Option ℕ)
          → checked_add virtual_start (index * page_size % u64_mod) ≡ o
          → checked_add physical_start (index * page_size % u64_mod) ≡ p
          → index * page_size < u64_mod
          → IsValid n a.pmm
          → ((t' : Tables) (a' : PmmFrameAllocator)
              → IsValid n a'.pmm
              → IsRun (suc index) rounds t' a' (rest t' a'))
          → IsRun index (suc rounds) t a (mmio_round mapper root rest t a o p)
      round-IsRun index rounds t a rest none p h h' small v deeper =
          same-IsKept index (suc rounds) t a v
      round-IsRun index rounds t a rest (some page) none h h' small v deeper =
          same-IsKept index (suc rounds) t a v
      round-IsRun index rounds t a rest (some page) (some frame) h h' small v deeper =
          page-IsRun index rounds page frame t a rest (translate t root page)
            (omega (arith, small, checked_add-inv _ _ _ h))
            (omega (arith, small, checked_add-inv _ _ _ h')) (checked_add-lt _ _ _ h) v deeper

      loop-IsRun :
          (rounds index : ℕ) (t : Tables) (a : PmmFrameAllocator)
          → (index + rounds) * page_size ≤ u64_mod
          → IsValid n a.pmm
          → IsRun index rounds t a
              (map_mmio_pages mapper root virtual_start physical_start rounds index t a)
      unfolding map_mmio_pages
      loop-IsRun zero index t a fits v = (
        record {
          bytes = λ i low high. absurd (omega (arith, low, high));
          below = λ i low high. absurd (omega (arith, low, high));
        },
        same-IsKept index zero t a v,
      )
      loop-IsRun (suc rounds) index t a fits v =
          round-IsRun index rounds t a _ _ _ refl refl (omega (arith, fits)) v
            (λ t' a' v'. loop-IsRun rounds (suc index) t' a' (omega (arith, fits)) v')

  -- A lock that is empty, or holds a valid memory.
  abbrev pub IsValidLock : Option PhysicalMemory → Type 0
  IsValidLock none = Unit {0}
  IsValidLock (some m) = IsValid n m

  pub record IsUntouched (s s' : MmioState Tables) : Type 0 where
    pub lookups :
        (address : ℕ)
        → address < s.next_mmio
        → translate s'.tables root address ≡ translate s.tables root address
    pub valid : IsValidLock s'.pmm

  pub record IsVisible (physical bytes address : ℕ) (s s' : MmioState Tables) : Type 0 where
    pub visible : (i : ℕ) → i < bytes → translate s'.tables root (address + i) ≡ some (physical + i)
    pub above : s.next_mmio ≤ address
    pub next : (address + bytes ≤ s'.next_mmio) ⊎ (s'.next_mmio ≡ 0)

  abbrev pub IsDevice : ℕ → ℕ → MmioState Tables → Option ℕ × MmioState Tables → Type 0
  IsDevice physical bytes s (none, s') = IsUntouched s s'
  IsDevice physical bytes s (some address, s') =
      IsVisible physical bytes address s s' × IsUntouched s s'

  range-IsRun :
      (virtual_start physical_start pages : ℕ) (t : Tables) (m : PhysicalMemory)
      → pages * page_size ≤ u64_mod
      → IsValid n m
      → IsRun virtual_start physical_start 0 pages t
          (record { pmm = m; allocated = 0 })
          (map_mmio_range mapper root virtual_start physical_start pages t m)
  unfolding map_mmio_range
  range-IsRun virtual_start physical_start pages t m fits v =
      let a : PmmFrameAllocator = record { pmm = m; allocated = 0 } in
      let bad : Bool =
        pages == 0
        || not (virtual_start % page_size == 0)
        || not (physical_start % page_size == 0) in
      elim (Bool-cases bad) [
        | inl refused ↦ rw (refused, IsRun) (same-IsKept virtual_start physical_start 0 pages t a v)
        | inr good ↦
            rw (good, IsRun)
              (loop-IsRun virtual_start physical_start (ground arith) (ground arith) pages 0 t a
                (omega (arith, fits)) v)
      ]

  -- From the run of the loop on.
  answered-IsDevice :
      (physical bytes page_offset pages : ℕ) (s : MmioState Tables) (t : Tables)
      (a a' : PmmFrameAllocator) (o : Option ℕ)
      → physical % page_size ≡ page_offset
      → 0 < bytes
      → page_offset + bytes ≤ pages * page_size
      → checked_add s.next_mmio page_offset ≡ o
      → IsPlaced s.next_mmio (physical / page_size * page_size) 0 pages t
      → IsKept s.next_mmio (physical / page_size * page_size) 0 pages s.tables a t a'
      → IsDevice physical bytes s (
        o,
        record s {
          tables = t;
          pmm = some a'.pmm;
          next_mmio = (s.next_mmio + pages * page_size) % u64_mod;
        },
      )
  answered-IsDevice physical bytes off pages s t a a' none eq pos fits h placed kept = record {
    lookups = λ address lt. kept.lower address (omega (arith, lt));
    valid = kept.valid;
  }
  answered-IsDevice physical bytes off pages s t a a' (some address) eq pos fits h placed kept =
      let sum = checked_add-inv s.next_mmio off address h in
      (
        record {
          visible = λ i lt.
              let here : s.next_mmio + (off + i) ≡ address + i = omega (arith, sum) in
              let there : physical / page_size * page_size + (off + i) ≡ physical + i =
                omega (arith, eq) in
              subst (λ p. translate t root p ≡ some (physical + i)) here
                (placed.bytes (off + i) (omega arith) (omega (arith, lt, fits)) ∙ ap some there);
          above = omega (arith, sum);
          next =
              let last = placed.below (off + bytes - 1) (omega arith) (omega (arith, pos, fits)) in
              let top =
                placed.below (pages * page_size - 1) (omega arith) (omega (arith, pos, fits)) in
              elim (Bool-cases (s.next_mmio + pages * page_size == u64_mod)) [
                | inl full ↦ inr (ground arith)
                | inr room ↦ inl (ground (arith, sum, fits, top))
              ];
        },
        record {
          lookups = λ address lt. kept.lower address (omega (arith, lt));
          valid = kept.valid;
        },
      )

  mapped-IsDevice :
      (physical bytes page_offset pages : ℕ) (s : MmioState Tables) (m : PhysicalMemory)
      (r : Run mapper root)
      → physical % page_size ≡ page_offset
      → 0 < bytes
      → page_offset + bytes ≤ pages * page_size
      → IsRun s.next_mmio
          (physical / page_size * page_size)
          0
          pages
          s.tables
          (record { pmm = m; allocated = 0 })
          r
      → IsDevice physical bytes s (
          mapped_at mapper root s.next_mmio page_offset
            (record s { next_mmio = (s.next_mmio + pages * page_size) % u64_mod })
            r)
  mapped-IsDevice physical bytes off pages s m (err e, t, a) eq pos fits kept = record {
    lookups = λ address lt. kept.lower address (omega (arith, lt));
    valid = kept.valid;
  }
  mapped-IsDevice physical bytes off pages s m (ok _, t, a) eq pos fits (placed, kept) =
      answered-IsDevice physical bytes off pages s t _ a _ eq pos fits refl placed kept

  reserved-IsDevice :
      (physical bytes page_offset pages : ℕ) (s : MmioState Tables) (offset : Option ℕ)
      (lock : Option PhysicalMemory)
      → physical % page_size ≡ page_offset
      → 0 < bytes
      → page_offset + bytes ≤ pages * page_size
      → pages * page_size < u64_mod
      → IsValidLock s.pmm
      → IsValidLock lock
      → IsDevice physical bytes s (
          reserved mapper root s.next_mmio
            (physical / page_size * page_size)
            page_offset
            pages
            (record s { next_mmio = (s.next_mmio + pages * page_size) % u64_mod })
            offset
            lock)
  reserved-IsDevice physical bytes off pages s none lock eq pos fits small v v' = record {
    lookups = λ address lt. refl;
    valid = v;
  }
  reserved-IsDevice physical bytes off pages s (some offset) none eq pos fits small v v' = record {
    lookups = λ address lt. refl;
    valid = v;
  }
  reserved-IsDevice physical bytes off pages s (some offset) (some m) eq pos fits small v v' =
      mapped-IsDevice physical bytes off pages s m _ eq pos fits (
        range-IsRun s.next_mmio (physical / page_size * page_size) pages s.tables m
          (omega (arith, small)) v')

  sized-IsDevice :
      (physical bytes page_offset pages : ℕ) (s : MmioState Tables) (o : Option ℕ)
      → physical % page_size ≡ page_offset
      → 0 < bytes
      → page_offset + bytes ≤ pages * page_size
      → IsValidLock s.pmm
      → checked_mul pages page_size ≡ o
      → IsDevice physical bytes s
          (sized mapper root (physical / page_size * page_size) page_offset pages s o)
  sized-IsDevice physical bytes off pages s none eq pos fits v h = record {
    lookups = λ address lt. refl;
    valid = v;
  }
  sized-IsDevice physical bytes off pages s (some rounded) eq pos fits v h =
      let product = checked_mul-inv pages page_size rounded h in
      subst
        (λ r.
          IsDevice physical bytes s
            (sized mapper root (physical / page_size * page_size) off pages s (some r)))
        product
        (reserved-IsDevice physical bytes off pages s s.offset s.pmm eq pos fits
          (checked_mul-lt pages page_size rounded h) v v)

  spanned-IsDevice :
      (physical bytes span : ℕ) (s : MmioState Tables) (o : Option ℕ)
      → 0 < bytes
      → physical % page_size + bytes ≡ span
      → IsValidLock s.pmm
      → checked_add span (page_size - 1) ≡ o
      → IsDevice physical bytes s
          (spanned mapper root (physical / page_size * page_size) (physical % page_size) s o)
  spanned-IsDevice physical bytes span s none pos eq v h = record {
    lookups = λ address lt. refl;
    valid = v;
  }
  spanned-IsDevice physical bytes span s (some raised) pos eq v h =
      let sum = checked_add-inv span (page_size - 1) raised h in
      sized-IsDevice physical bytes (physical % page_size) (raised / page_size) s _ refl pos
        (omega (arith, sum, eq)) v refl

  summed-IsDevice :
      (physical bytes page : ℕ) (s : MmioState Tables) (o : Option ℕ)
      → 0 < bytes
      → physical / page_size * page_size ≡ page
      → IsValidLock s.pmm
      → checked_add (physical - page) bytes ≡ o
      → IsDevice physical bytes s (summed mapper root page (physical - page) s o)
  summed-IsDevice physical bytes page s none pos at v h = record {
    lookups = λ address lt. refl;
    valid = v;
  }
  summed-IsDevice physical bytes page s (some span) pos at v h =
      let off : physical % page_size ≡ physical - page = omega (arith, at) in
      subst
        (λ k.
          IsDevice physical bytes s
            (spanned mapper root k (physical - page) s (checked_add span (page_size - 1))))
        at
        (subst
          (λ k. IsDevice physical bytes s (
            spanned mapper root (physical / page_size * page_size) k s
              (checked_add span (page_size - 1))))
          off
          (spanned-IsDevice physical bytes span s _ pos (omega (arith, at, checked_add-inv _ _ _ h))
            v refl))

  -- When `map_mmio` answers with an address, the bytes of the device at `physical` are looked up there one
  -- by one, at or above the address that NEXT_MMIO held; NEXT_MMIO then lies behind them, or is 0 since the
  -- addresses are used up. In every case the addresses below NEXT_MMIO are looked up as before, and the
  -- physical memory stays valid.
  pub map_mmio-IsDevice :
      (physical bytes : ℕ) (s : MmioState Tables)
      → physical < u64_mod
      → IsValidLock s.pmm
      → IsDevice physical bytes s (map_mmio mapper root physical bytes s)
  unfolding map_mmio
  map_mmio-IsDevice physical bytes s small v =
      let page = align_down_lem physical page_size (12, omega arith, refl) small in
      elim (Bool-cases (bytes == 0)) [
        | inl empty ↦ rw (empty, IsDevice) (record { lookups = λ address lt. refl; valid = v })
        | inr some_bytes ↦ rw some_bytes (
            summed-IsDevice physical bytes (align_down physical page_size) s _ (ground arith)
              (sym page) v refl)
      ]
