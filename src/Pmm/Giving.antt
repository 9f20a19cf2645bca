-- ===== src/Pmm/Giving.antt =====
-- The cases of `free_pages` on a valid memory: success, double free, an error of any kind.
use generic_kernel.Common.{
  ℕ, ◌+◌, ◌*◌, ◌<◌, ◌≡◌, refl, sym, ap, subst, ◌∙◌, true, false, arith, length, inl, inr, ok, err,
}
use generic_kernel.Ranges.{Released, overlap, full, table, covers, inside}
use generic_kernel.Ranges.Walk.{Outcome}
use generic_kernel.Pmm.{PhysicalMemory, PhysicalMemoryError, page_size, returned, free_pages}
use generic_kernel.Pmm.Inv.{IsValid, max_address}
use generic_kernel.Pmm.Free.{IsBlock, Freed, room, free_shape, block_shape, walked, table-Freed}

module _ (n : ℕ) where
  abbrev Walked : PhysicalMemory → ℕ → ℕ → Released → Type 0
  Walked m start pages o =
      Outcome (room n m) page_size max_address start (start + pages * page_size) m.free o

  returned-Freed :
      (m m' : PhysicalMemory) (start pages : ℕ)
      → IsValid n m
      → IsBlock n m start pages
      → (o : Released) → Walked m start pages o
      → returned m (pages * page_size) o ≡ (ok tt, m')
      → Freed n m start pages m'
  returned-Freed m m' start pages v b overlap out h = absurd (cc)
  returned-Freed m m' start pages v b full out h = absurd (cc)
  returned-Freed m m' start pages v b (table t) out h =
      let (same, done) = table-Freed n m start pages t v b out in
      subst (λ k. Freed n m start pages k) (ap (λ p. p.1) (sym same ∙ h)) done

  returned-err :
      (m m' : PhysicalMemory) (start pages : ℕ)
      → IsValid n m
      → IsBlock n m start pages
      → (o : Released) (e : PhysicalMemoryError) → Walked m start pages o
      → returned m (pages * page_size) o ≡ (err e, m')
      → m' ≡ m
  returned-err m m' start pages v b overlap e out h = ground arith
  returned-err m m' start pages v b full e out h = ground arith
  returned-err m m' start pages v b (table t) e out h =
      let (same, done) = table-Freed n m start pages t v b out in absurd (cc)

  returned-overlap :
      (m : PhysicalMemory) (start pages a : ℕ) (o : Released)
      → Walked m start pages o
      → inside start (start + pages * page_size) a ≡ true
      → covers m.free a ≡ true
      → returned m (pages * page_size) o ≡ (err PhysicalMemoryError.invalid_free, m)
  returned-overlap m start pages a overlap out i c = refl
  returned-overlap m start pages a full out i c = absurd (ground (arith, out.1 a))
  returned-overlap m start pages a (table t) out i c = absurd (ground (arith, out.5 a))

  returned-succeeds :
      (m : PhysicalMemory) (start pages : ℕ)
      → IsValid n m
      → IsBlock n m start pages
      → (o : Released) → Walked m start pages o
      → length m.free < n
      → ((a : ℕ) → inside start (start + pages * page_size) a ≡ true → covers m.free a ≡ false)
      → (m' : PhysicalMemory) × (returned m (pages * page_size) o ≡ (ok tt, m'))
  returned-succeeds m start pages v b overlap out space apart = absurd (ground (arith, apart out.0))
  returned-succeeds m start pages v b full out space apart = absurd (ground arith)
  returned-succeeds m start pages v b (table t) out space apart =
      (_, (table-Freed n m start pages t v b out).0)

  -- On a valid memory, a successful `free_pages` makes exactly the block free, all of whose addresses
  -- were taken, counts its bytes, and keeps the memory valid.
  pub free_pages-Freed :
      (m m' : PhysicalMemory) (start pages : ℕ)
      → IsValid n m
      → free_pages n m start pages ≡ (ok tt, m')
      → Freed n m start pages m'
  free_pages-Freed m m' start pages v h = elim (free_shape n m start pages) [
    | inl (e, eq) ↦ absurd (cc)
    | inr (b, eq) ↦ returned-Freed m m' start pages v b _ (walked n m start pages v b) (sym eq ∙ h)
  ]

  -- On a valid memory, a `free_pages` that fails leaves the memory as it was: its late checks, which
  -- come after the table has changed, do not fail.
  pub free_pages-err :
      (m m' : PhysicalMemory) (start pages : ℕ) (e : PhysicalMemoryError)
      → IsValid n m
      → free_pages n m start pages ≡ (err e, m')
      → m' ≡ m
  free_pages-err m m' start pages e v h = elim (free_shape n m start pages) [
    | inl (e', eq) ↦ ground arith
    | inr (b, eq) ↦ returned-err m m' start pages v b _ e (walked n m start pages v b) (sym eq ∙ h)
  ]

  -- On a valid memory, a block of which any address is already free is refused with an error, and the
  -- memory stays as it was.
  pub free_pages_twice :
      (m : PhysicalMemory) (start pages a : ℕ)
      → IsValid n m
      → inside start (start + pages * page_size) a ≡ true
      → covers m.free a ≡ true
      → (e : PhysicalMemoryError) × (free_pages n m start pages ≡ (err e, m))
  free_pages_twice m start pages a v i c = elim (free_shape n m start pages) [
    | inl (e, eq) ↦ (e, eq)
    | inr (b, eq) ↦ (
      PhysicalMemoryError.invalid_free,
      eq ∙ returned-overlap m start pages a _ (walked n m start pages v b) i c,
    )
  ]

  -- On a valid memory whose table has room for one more range, a page-aligned block of managed
  -- addresses, none of them free, is taken back.
  pub free_pages-succeeds :
      (m : PhysicalMemory) (start pages : ℕ)
      → IsValid n m
      → IsBlock n m start pages
      → length m.free < n
      → ((a : ℕ) → inside start (start + pages * page_size) a ≡ true → covers m.free a ≡ false)
      → (m' : PhysicalMemory) × (free_pages n m start pages ≡ (ok tt, m'))
  free_pages-succeeds m start pages v b space apart =
      let (m', done) =
        returned-succeeds m start pages v b _ (walked n m start pages v b) space apart in
      (m', block_shape n m start pages b ∙ done)
