-- ===== src/Pmm/Free.antt =====
-- What `free_pages` promises on a valid memory, and that it undoes an allocation.
use generic_kernel.Common.{
  ℕ, suc, ◌+◌, ◌*◌, ◌%◌, ◌≤◌, ◌<◌, ◌≡◌, refl, ◌⊎◌, Bool, true, false, not, ◌&&◌, ◌||◌, List, [],
  ◌∷◌, none, arith, length, ltb, ltb→lt, lt→ltb, ◌==◌, Bool-cases, inl, inr, ok, err, u64_mod,
}
use generic_kernel.Ranges.{Region, table, walk, covers, inside}
use generic_kernel.Ranges.Canon.{Canon}
use generic_kernel.Ranges.Cover.{bytes_mono}
use generic_kernel.Ranges.Walk.{Outcome, walk-Outcome}
use generic_kernel.Pmm.{
  PhysicalMemory, PhysicalMemoryError, page_size, is_managed, returned, free_pages,
}
use generic_kernel.Pmm.Inv.{IsValid, max_address, total-lt}

is_managed-covers :
    (ms : List Region) (s e a : ℕ)
    → is_managed ms s e ≡ true
    → inside s e a ≡ true
    → covers ms a ≡ true
unfolding is_managed covers
is_managed-covers [] s e a h i = cc
is_managed-covers (r ∷ rest) s e a h i = ground (arith, is_managed-covers rest s e a)

is_managed-bounds :
    (lo hi : ℕ) (ms : List Region) (s e : ℕ)
    → Canon lo hi ms
    → is_managed ms s e ≡ true
    → (lo ≤ s) × (e ≤ hi)
unfolding is_managed
is_managed-bounds lo hi [] s e c h = absurd (cc)
is_managed-bounds lo hi (r ∷ rest) s e c h =
    ground (arith, is_managed-bounds (suc r.end) hi rest s e c.3)

module _ (n : ℕ) where
  abbrev pub room : PhysicalMemory → Bool
  room m = not (length m.free == n)

  -- A block that `free_pages` looks for in the free table.
  pub record IsBlock (m : PhysicalMemory) (start pages : ℕ) : Type 0 where
    pub some_page : 0 < pages
    pub not_null : page_size ≤ start
    pub page_aligned : start % page_size ≡ 0
    pub managed_block : is_managed m.managed start (start + pages * page_size) ≡ true
    pub word : start + pages * page_size < u64_mod

  -- The checks before the walk, and the walk.
  pub free_shape :
      (m : PhysicalMemory) (start pages : ℕ)
      → ((e : PhysicalMemoryError) × (free_pages n m start pages ≡ (err e, m)))
        ⊎ (IsBlock m start pages
            × (free_pages n m start pages
                ≡ returned m
                    (pages * page_size)
                    (walk (room m) start (start + pages * page_size) none m.free)))
  unfolding free_pages
  free_shape m start pages =
      elim (Bool-cases (pages == 0 || ltb start page_size || not (start % page_size == 0))) [
        | inl bad ↦ inl (PhysicalMemoryError.invalid_free, rw bad)
        | inr good ↦ elim (Bool-cases (ltb (pages * page_size) u64_mod)) [
          | inr over ↦ inl (PhysicalMemoryError.overflow, rw (good, over))
          | inl fits ↦ elim (Bool-cases (ltb (start + pages * page_size) u64_mod)) [
            | inr over ↦ inl (PhysicalMemoryError.overflow, rw (good, fits, over))
            | inl word ↦
                elim (Bool-cases (
                  not ((start + pages * page_size) % page_size == 0)
                  || not (is_managed m.managed start (start + pages * page_size)))) [
                    | inl foreign ↦
                        inl (PhysicalMemoryError.invalid_free, rw (good, fits, word, foreign))
                    | inr own ↦ inr (
                      record {
                        some_page = ground arith;
                        not_null = ground arith;
                        page_aligned = ground arith;
                        managed_block = ground arith;
                        word = ltb→lt _ _ word;
                      },
                      rw (good, fits, word, own),
                    )
                  ]
          ]
        ]
      ]

  -- The checks pass for a block.
  pub block_shape :
      (m : PhysicalMemory) (start pages : ℕ)
      → IsBlock m start pages
      → free_pages n m start pages
        ≡ returned m
            (pages * page_size)
            (walk (room m) start (start + pages * page_size) none m.free)
  unfolding free_pages
  block_shape m start pages b =
      let good : (pages == 0 || ltb start page_size || not (start % page_size == 0)) ≡ false =
        ground arith in
      let word = lt→ltb _ _ b.word in
      let fits = lt→ltb (pages * page_size) u64_mod (omega arith) in
      let own : (not ((start + pages * page_size) % page_size == 0)
            || not (is_managed m.managed start (start + pages * page_size)))
          ≡ false =
        ground arith in
      rw (good, fits, word, own)

  -- The block `[start, start + pages * page_size)` has come back to `m`, which became `m'`.
  pub record Freed (m : PhysicalMemory) (start pages : ℕ) (m' : PhysicalMemory) : Type 0 where
    pub valid : IsValid n m'
    pub managed_kept : m'.managed ≡ m.managed
    pub total_kept : m'.total_bytes ≡ m.total_bytes
    pub counted : m'.free_bytes ≡ m.free_bytes + pages * page_size
    pub put_back :
        (a : ℕ) → covers m'.free a ≡ inside start (start + pages * page_size) a || covers m.free a
    pub was_taken :
        (a : ℕ)
        → covers m.free a ≡ covers m'.free a && not (inside start (start + pages * page_size) a)

  pub walked :
      (m : PhysicalMemory) (start pages : ℕ)
      → IsValid n m
      → IsBlock m start pages
      → Outcome
          (room m)
          page_size
          max_address
          start
          (start + pages * page_size)
          m.free
          (walk (room m) start (start + pages * page_size) none m.free)
  walked m start pages v b =
      let bounds =
        is_managed-bounds page_size max_address m.managed start (start + pages * page_size)
          v.managed_canon b.managed_block in
      walk-Outcome (room m) max_address start (start + pages * page_size) (omega arith) bounds.1
        page_size none m.free v.canon bounds.0

  -- A new table counts no more bytes than are managed, so the two checks at the end pass.
  pub table-Freed :
      (m : PhysicalMemory) (start pages : ℕ) (t : List Region)
      → IsValid n m
      → IsBlock m start pages
      → Outcome (room m) page_size max_address start (start + pages * page_size) m.free (table t)
      → (returned m (pages * page_size) (table t)
          ≡ (ok tt, record m { free = t; free_bytes = m.free_bytes + pages * page_size }))
        × Freed m start pages (record m { free = t; free_bytes = m.free_bytes + pages * page_size })
  table-Freed m start pages t v b out =
      let (canon, sum, size, tight, al, apart, same) = out in
      let owned : (a : ℕ) → covers t a ≡ true → covers m.managed a ≡ true = λ a h. ground (
        arith,
        same a,
        v.within a,
        is_managed-covers m.managed start (start + pages * page_size) a b.managed_block,
      ) in
      let bounded =
        bytes_mono page_size max_address page_size max_address t m.managed canon v.managed_canon
          (omega arith) owned in
      let total : m.free_bytes + pages * page_size ≤ m.total_bytes =
        omega (arith, v.free_sum, v.total, sum) in
      let top = total-lt v in
      (
        ground arith,
        record {
          valid = record {
            canon = canon;
            managed_canon = v.managed_canon;
            aligned = al b.page_aligned (omega (arith, b.page_aligned)) v.aligned;
            fits = ground (arith, v.fits);
            managed_fits = v.managed_fits;
            total = v.total;
            free_sum = omega (arith, v.free_sum, sum);
            within = owned;
          };
          managed_kept = refl;
          total_kept = refl;
          counted = refl;
          put_back = same;
          was_taken = λ a. ground (arith, same a, apart a);
        },
      )
