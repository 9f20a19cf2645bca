-- ===== src/Pmm/Allocate.antt =====
-- What `allocate_pages` promises on a valid memory.
use generic_kernel.Common.{
  ℕ, ◌+◌, ◌*◌, ◌%◌, ◌^◌, ◌<◌, ◌≡◌, refl, sym, true, not, ◌&&◌, ◌||◌, List, some, arith, length, ltb,
  leb, ltb→lt, leb→le, ◌⊎◌, ◌==◌, Bool-cases, inl, inr, ok, err, u64_mod, IsPower, is_power_of_two,
  is_power_of_two-IsPower, sub64, pow-add,
}
use native.Mathlib.Nat.{pow-le-pow_right}
use generic_kernel.Ranges.{Region, covers, inside}
use generic_kernel.Pmm.{PhysicalMemory, PhysicalMemoryError, scan, taken, page_size, allocate_pages}
use generic_kernel.Pmm.Scan.{ScanOutcome}
use generic_kernel.Pmm.Inv.{IsValid, max_address, free-le-total, total-lt}

-- The alignment in bytes is a power of two, if it is a word.
bytes-IsPower :
    (a : ℕ) → is_power_of_two a ≡ true → a * page_size < u64_mod → IsPower (a * page_size)
bytes-IsPower a power small =
    let (k, below, eq) = is_power_of_two-IsPower a power in
    let wide : a * page_size ≡ 2 ^ (k + 12) = rw eq (sym (pow-add k 12)) in
    elim (Bool-cases (leb 64 (k + 12))) [
      | inl big ↦
          absurd
            (omega (arith, wide, pow-le-pow_right {n = 2} (omega arith) {i = 64} (leb→le _ _ big)))
      | inr little ↦ (k + 12, ground arith, wide)
    ]

module _ (n : ℕ) where
  -- The checks before the loop, and the loop.
  abbrev pub Shape : PhysicalMemory → ℕ → ℕ → Type 0
  Shape m pages align =
      ((e : PhysicalMemoryError) × (allocate_pages n m pages align ≡ (err e, m)))
      ⊎ ((0 < pages)
          × IsPower (align * page_size)
          × (allocate_pages n m pages align
              ≡ taken m (pages * page_size)
                  (scan (length m.free == n) (pages * page_size) (align * page_size) m.free)))

  pub allocate-Shape : (m : PhysicalMemory) (pages align : ℕ) → Shape m pages align
  unfolding allocate_pages
  allocate-Shape m pages align =
      elim (Bool-cases (pages == 0 || align == 0 || not (is_power_of_two align))) [
        | inl bad ↦ inl (PhysicalMemoryError.invalid_request, rw bad)
        | inr good ↦ elim (Bool-cases (ltb (pages * page_size) u64_mod)) [
          | inr over ↦ inl (PhysicalMemoryError.overflow, rw (good, over))
          | inl fits ↦ elim (Bool-cases (ltb (align * page_size) u64_mod)) [
            | inr over ↦ inl (PhysicalMemoryError.overflow, rw (good, fits, over))
            | inl word ↦ inr (
              ground arith,
              bytes-IsPower align (ground arith) (ltb→lt _ _ word),
              rw (good, fits, word),
            )
          ]
        ]
      ]

  -- The block `[s, s + pages * page_size)` has been handed out of `m`, which became `m'`.
  pub record Allocated (m : PhysicalMemory) (pages align s : ℕ) (m' : PhysicalMemory) : Type 0 where
    pub valid : IsValid n m'
    pub multiple : (q : ℕ) × (s ≡ q * (align * page_size))
    pub managed_kept : m'.managed ≡ m.managed
    pub total_kept : m'.total_bytes ≡ m.total_bytes
    pub counted : m'.free_bytes + pages * page_size ≡ m.free_bytes
    pub taken_out :
        (a : ℕ) → covers m'.free a ≡ covers m.free a && not (inside s (s + pages * page_size) a)
    pub was_free :
        (a : ℕ) → covers m.free a ≡ covers m'.free a || inside s (s + pages * page_size) a

  pub scanned-Allocated :
      (m : PhysicalMemory) (pages align s : ℕ) (t : List Region)
      → 0 < pages
      → (power : IsPower (align * page_size)) → IsValid n m
      → ScanOutcome
          (pages * page_size)
          (align * page_size)
          power
          (length m.free == n)
          page_size
          max_address
          m.free
          (ok (some (s, t)))
      → Allocated m pages align s
          (record m { free = t; free_bytes = sub64 m.free_bytes (pages * page_size) })
  scanned-Allocated m pages align s t pos power v out =
      let (mult, above, below, canon, sum, size_le, tight, al, free, same, undo) = out in
      let left : (a : ℕ) → covers t a ≡ true → covers m.free a ≡ true =
        λ a h. ground (arith, same a) in
      let unit : s % 4096 ≡ 0 = omega (arith, mult.1) in
      record {
        valid = record {
          canon = canon;
          managed_canon = v.managed_canon;
          aligned = al unit (omega arith) v.aligned;
          fits = ground (arith, tight, size_le, v.fits);
          managed_fits = v.managed_fits;
          total = v.total;
          free_sum = omega (arith, v.free_sum, free-le-total v, total-lt v);
          within = λ a h. v.within a (left a h);
        };
        multiple = mult;
        managed_kept = refl;
        total_kept = refl;
        counted = omega (arith, v.free_sum, free-le-total v, total-lt v);
        taken_out = same;
        was_free = λ a. ground (arith, same a, free a);
      }
