-- ===== src/Pmm/RoundTrip.antt =====
-- Freeing what was just allocated restores the memory.
use generic_kernel.Common.{
  ℕ, suc, ltb, [], ◌∷◌, ◌+◌, ◌*◌, ◌≤◌, ◌<◌, ◌≡◌, sym, ap, subst, ◌∙◌, true, List, none, some, arith,
  length, ◌==◌, Bool-cases, inl, inr, ok, err, IsPower, sub64,
}
use generic_kernel.Ranges.{Region, table, covers, inside, bytes}
use generic_kernel.Ranges.Canon.{Canon, covers-below}
use generic_kernel.Pmm.{
  PhysicalMemory, page_size, is_managed, returned, free_pages, allocate_pages, Scanned, taken,
}
use generic_kernel.Pmm.Scan.{ScanOutcome}
use generic_kernel.Pmm.Inv.{IsValid, max_address, free-le-total, total-lt}
use generic_kernel.Pmm.Allocate.{Allocated, scanned-Allocated, allocate-Shape}
use generic_kernel.Pmm.Free.{IsBlock, room, block_shape}
use generic_kernel.Pmm.Blocks.{scanned}

-- A block of free addresses of a valid memory lies in one managed region.
covers-is_managed :
    (lo hi s e : ℕ) (ms : List Region)
    → s < e
    → Canon lo hi ms
    → ((a : ℕ) → inside s e a ≡ true → covers ms a ≡ true)
    → is_managed ms s e ≡ true
unfolding covers is_managed
covers-is_managed lo hi s e [] pos c all = absurd (ground (arith, all s))
covers-is_managed lo hi s e (r ∷ rest) pos c all = elim (Bool-cases (ltb s r.end)) [
  | inl here ↦
      let low = all s (ground arith) in
      let none_low = covers-below (suc r.end) hi rest s c.3 (ground arith) in
      let none_high = covers-below (suc r.end) hi rest r.end c.3 (omega arith) in
      ground (arith, all r.end)
  | inr later ↦
      ground
        (arith, covers-is_managed (suc r.end) hi s e rest pos c.3 (λ a i. ground (arith, all a i)))
]

module _ (n : ℕ) where
  taken-IsBlock :
      (m m' : PhysicalMemory) (pages align s : ℕ)
      → 0 < pages
      → IsValid n m
      → page_size ≤ s
      → s + pages * page_size ≤ max_address
      → Allocated n m pages align s m'
      → IsBlock n m' s pages
  taken-IsBlock m m' pages align s pos v low high done = record {
    some_page = pos;
    not_null = low;
    page_aligned = omega (arith, done.multiple.1);
    managed_block = rw done.managed_kept (
        covers-is_managed page_size max_address s (s + pages * page_size) m.managed (omega arith)
          v.managed_canon (λ a i. v.within a (ground (arith, done.was_free a))));
    word = omega arith;
  }

  restored :
      (m : PhysicalMemory) (pages s : ℕ) (t : List Region)
      → IsValid n m
      → m.free_bytes ≡ bytes t + pages * page_size
      → returned
          (record m { free = t; free_bytes = sub64 m.free_bytes (pages * page_size) })
          (pages * page_size)
          (table m.free)
        ≡ (ok tt, m)
  restored m pages s t v sum = let top = total-lt v in let le = free-le-total v in ground arith

  taken-free :
      (m m' : PhysicalMemory) (pages align s : ℕ)
      → 0 < pages
      → (power : IsPower (align * page_size)) → IsValid n m
      → (o : Scanned)
      → ScanOutcome
          (pages * page_size)
          (align * page_size)
          power
          (length m.free == n)
          page_size
          max_address
          m.free
          o
      → taken m (pages * page_size) o ≡ (ok (some s), m')
      → free_pages n m' s pages ≡ (ok tt, m)
  taken-free m m' pages align s pos power v (ok none) out h = absurd (cc)
  taken-free m m' pages align s pos power v (err e) out h = absurd (cc)
  taken-free m m' pages align s pos power v (ok (some (s', t))) out h =
      let after = (taken m (pages * page_size) (ok (some (s', t)))).1 in
      let done = scanned-Allocated n m pages align s' t pos power v out in
      let block = taken-IsBlock m after pages align s' pos v out.1 out.2 done in
      let undo = out.10 (room n after) page_size none v.canon (λ h. ground (arith, v.fits)) in
      let back : free_pages n after s' pages ≡ (ok tt, m) =
        block_shape n after s' pages block
        ∙ rw undo (restored m pages s' t v (omega (arith, v.free_sum, out.4))) in
      subst (λ k. free_pages n k s pages ≡ (ok tt, m)) (ap (λ p. p.1) h)
        (subst (λ k. free_pages n after k pages ≡ (ok tt, m)) (ground arith) back)

  -- On a valid memory, freeing the block that `allocate_pages` has just handed out succeeds and gives
  -- back the memory as it was before, ranges and counters.
  pub free_pages-allocate_pages :
      (m m' : PhysicalMemory) (pages align s : ℕ)
      → IsValid n m
      → allocate_pages n m pages align ≡ (ok (some s), m')
      → free_pages n m' s pages ≡ (ok tt, m)
  free_pages-allocate_pages m m' pages align s v h = elim (allocate-Shape n m pages align) [
    | inl (e, eq) ↦ absurd (cc)
    | inr (pos, power, eq) ↦
        taken-free m m' pages align s pos power v _ (scanned n m pages align pos power v)
          (sym eq ∙ h)
  ]
