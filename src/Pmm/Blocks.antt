-- ===== src/Pmm/Blocks.antt =====
-- The cases of `allocate_pages` on a valid memory: a block, no block, an error.
use generic_kernel.Common.{
  ℕ, suc, ◌+◌, ◌*◌, ◌≤◌, ◌<◌, ◌≡◌, true, false, List, [], ◌∷◌, none, some, arith, inl, inr, ok, err,
  IsPower, ap, subst, length, ◌==◌, ltb, leb, leb→le, Bool-cases, refl, sym, ◌∙◌,
}
use generic_kernel.Ranges.{Region, covers, inside}
use generic_kernel.Ranges.Canon.{Canon, covers-below}
use generic_kernel.Pmm.{
  PhysicalMemory, PhysicalMemoryError, scan, Scanned, taken, page_size, allocate_pages,
}
use generic_kernel.Pmm.Scan.{scan-Outcome, ScanOutcome, NoFit}
use generic_kernel.Pmm.Inv.{IsValid, max_address}
use generic_kernel.Pmm.Allocate.{Allocated, scanned-Allocated, allocate-Shape}

-- A canonical table covers a whole block only by one of its entries.
NoFit-gap :
    (size alignment q lo hi : ℕ) (t : List Region)
    → 0 < size
    → Canon lo hi t
    → NoFit size alignment t
    → (a : ℕ) × (inside (q * alignment) (q * alignment + size) a ≡ true) × (covers t a ≡ false)
unfolding covers
NoFit-gap size alignment q lo hi [] pos c fit = (q * alignment, ground arith, refl)
NoFit-gap size alignment q lo hi (r ∷ rest) pos c fit =
    let s = q * alignment in
    elim (Bool-cases (ltb s r.end)) [
      | inl here ↦ elim (Bool-cases (ltb s r.start)) [
        | inl before ↦ (s, ground arith, ground (arith, covers-below (suc r.end) hi rest s c.3))
        | inr from ↦
            let past : r.end < s + size = past_end r s (ground arith) (fit.0 q) in
            (
              r.end,
              ground arith,
              ground (arith, covers-below (suc r.end) hi rest r.end c.3 (omega arith)),
            )
      ]
      | inr later ↦
          let (a, i, out) = NoFit-gap size alignment q (suc r.end) hi rest pos c.3 fit.1 in
          (a, i, ground arith)
    ]
  where
    past_end :
        (r : Region) (s : ℕ) → r.start ≤ s → (r.start ≤ s → s + size ≤ r.end → ⊥) → r.end < s + size
    past_end r s low no_fit = elim (Bool-cases (leb (s + size) r.end)) [
      | inl fits ↦ absurd (no_fit low (leb→le _ _ fits))
      | inr over ↦ ground arith
    ]

module _ (n : ℕ) where
  pub scanned :
      (m : PhysicalMemory) (pages align : ℕ)
      → 0 < pages
      → (power : IsPower (align * page_size)) → IsValid n m
      → ScanOutcome
          (pages * page_size)
          (align * page_size)
          power
          (length m.free == n)
          page_size
          max_address
          m.free
          (scan (length m.free == n) (pages * page_size) (align * page_size) m.free)
  scanned m pages align pos power v =
      scan-Outcome (pages * page_size) (align * page_size) power (length m.free == n) page_size
        max_address m.free (omega arith) (omega arith) v.canon

  taken-Allocated :
      (m m' : PhysicalMemory) (pages align s : ℕ)
      → 0 < pages
      → (power : IsPower (align * page_size)) → IsValid n m
      → (o : Scanned)
      → ScanOutcome
          (pages * page_size)
          (align * page_size)
          power
          (length m.free == n)
          page_size
          max_address
          m.free
          o
      → taken m (pages * page_size) o ≡ (ok (some s), m')
      → Allocated n m pages align s m'
  taken-Allocated m m' pages align s pos power v (ok none) out h = absurd (cc)
  taken-Allocated m m' pages align s pos power v (err e) out h = absurd (cc)
  taken-Allocated m m' pages align s pos power v (ok (some (s', t))) out h =
      let done = scanned-Allocated n m pages align s' t pos power v out in
      subst (λ k. Allocated n m pages align s k) (ap (λ p. p.1) h)
        (subst
          (λ k. Allocated n m pages align k (taken m (pages * page_size) (ok (some (s', t)))).1)
          (ground arith) done)

  taken-none :
      (m m' : PhysicalMemory) (pages align : ℕ)
      → (power : IsPower (align * page_size)) → (o : Scanned)
      → ScanOutcome
          (pages * page_size)
          (align * page_size)
          power
          (length m.free == n)
          page_size
          max_address
          m.free
          o
      → taken m (pages * page_size) o ≡ (ok none, m')
      → (m' ≡ m) × NoFit (pages * page_size) (align * page_size) m.free
  taken-none m m' pages align power (ok none) out h = (ground arith, out)
  taken-none m m' pages align power (err e) out h = absurd (cc)
  taken-none m m' pages align power (ok (some (s', t))) out h = absurd (ground arith)

  taken-err :
      (m m' : PhysicalMemory) (size : ℕ) (e : PhysicalMemoryError) (o : Scanned)
      → taken m size o ≡ (err e, m')
      → m' ≡ m
  taken-err m m' size e (ok none) h = absurd (cc)
  taken-err m m' size e (err e') h = ground arith
  taken-err m m' size e (ok (some (s', t))) h = absurd (cc)

  -- On a valid memory, a successful `allocate_pages` hands out a block at a multiple of the alignment,
  -- all of whose addresses were free and are no longer, leaves every other address as it was, counts
  -- the bytes, and keeps the memory valid.
  pub allocate-Allocated :
      (m m' : PhysicalMemory) (pages align s : ℕ)
      → IsValid n m
      → allocate_pages n m pages align ≡ (ok (some s), m')
      → Allocated n m pages align s m'
  allocate-Allocated m m' pages align s v h = elim (allocate-Shape n m pages align) [
    | inl (e, eq) ↦ absurd (cc)
    | inr (pos, power, eq) ↦
        taken-Allocated m m' pages align s pos power v _ (scanned m pages align pos power v)
          (sym eq ∙ h)
  ]

  -- On a valid memory, `allocate_pages` answers `Ok(None)` only if every block of the size at a multiple
  -- of the alignment has an address that is not free; the memory stays as it was.
  pub allocate-none :
      (m m' : PhysicalMemory) (pages align q : ℕ)
      → IsValid n m
      → allocate_pages n m pages align ≡ (ok none, m')
      → (m' ≡ m)
        × (a : ℕ) × (inside
              (q * (align * page_size))
              (q * (align * page_size) + pages * page_size)
              a
            ≡ true)
        × (covers m.free a ≡ false)
  allocate-none m m' pages align q v h = elim (allocate-Shape n m pages align) [
    | inl (e, eq) ↦ absurd (cc)
    | inr (pos, power, eq) ↦
        let (same, fit) =
          taken-none m m' pages align power _ (scanned m pages align pos power v) (sym eq ∙ h) in
        let (a, i, out) =
          NoFit-gap (pages * page_size) (align * page_size) q page_size max_address m.free
            (omega arith) v.canon fit in
        (same, a, i, out)
  ]

  -- An `allocate_pages` that fails leaves the memory as it was.
  pub allocate-err :
      (m m' : PhysicalMemory) (pages align : ℕ) (e : PhysicalMemoryError)
      → allocate_pages n m pages align ≡ (err e, m')
      → m' ≡ m
  allocate-err m m' pages align e h = elim (allocate-Shape n m pages align) [
    | inl (e', eq) ↦ ground arith
    | inr (pos, power, eq) ↦ taken-err m m' (pages * page_size) e _ (sym eq ∙ h)
  ]
