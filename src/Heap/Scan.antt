-- ===== src/Heap/Scan.antt =====
-- The loop of the heap's `allocate`: the outcome on every branch, and its undoing.
use generic_kernel.Common.{
  ℕ, suc, ◌+◌, ◌*◌, ◌≤◌, ◌<◌, ◌≡◌, refl, Bool, true, false, not, ◌&&◌, ◌||◌, List, [], ◌∷◌, Option,
  none, some, arith, length, ltb, lt→ltb, Bool-cases, Option-cases, inl, inr, u64_mod, IsPower,
  align_up, align_up-AlignedUp,
}
use generic_kernel.Ranges.{Region, table, keep, carve, needs_slot, walk, bytes, covers, inside}
use generic_kernel.Ranges.Canon.{Canon}
use generic_kernel.Ranges.Carve.{carve-Canon, covers-carve, bytes-carve, length-carve}
use generic_kernel.Ranges.Undo.{walk-carve}
use generic_kernel.Heap.{scan, Scanned, passed}

abbrev pub ScanOutcome : ℕ → ℕ → Bool → ℕ → ℕ → List Region → Scanned → Type 0
ScanOutcome size alignment crowded lo hi t none = Unit {0}
ScanOutcome size alignment crowded lo hi t (some (s, t')) =
    ((q : ℕ) × (s ≡ q * alignment))
    × (lo ≤ s)
    × (s + size ≤ hi)
    × Canon lo hi t'
    × (bytes t' + size ≡ bytes t)
    × (length t' ≤ suc (length t))
    × (crowded ≡ true → length t' ≤ length t)
    × ((a : ℕ) → inside s (s + size) a ≡ true → covers t a ≡ true)
    × ((a : ℕ) → covers t' a ≡ covers t a && not (inside s (s + size) a))
    × ((room : Bool) (lo' : ℕ) (prev : Option Region)
        → Canon lo' hi (keep prev t)
        → (length t' < length t → room ≡ true)
        → walk room s (s + size) prev t' ≡ table (keep prev t))

module _ (size alignment : ℕ) (power : IsPower alignment) (pos : 0 < size) where
  passed-Outcome :
      (crowded : Bool) (lo hi : ℕ) (r : Region) (rest : List Region) (o : Scanned)
      → Canon lo hi (r ∷ rest)
      → ScanOutcome size alignment crowded (suc r.end) hi rest o
      → ScanOutcome size alignment crowded lo hi (r ∷ rest) (passed r o)
  unfolding covers bytes walk
  passed-Outcome crowded lo hi r rest none c out = tt
  passed-Outcome crowded lo hi r rest (some (s, t)) c out =
      let (mult, above, below, canon, sum, size_le, tight, free, same, undo) = out in
      let low = lt→ltb r.start s (omega arith) in
      (
        mult,
        omega arith,
        below,
        (c.0, c.1, c.2, canon),
        omega arith,
        omega arith,
        (λ off. omega (arith, tight off)),
        (λ a i. ground (arith, free a i)),
        (λ a. ground (arith, same a)),
        λ room lo' prev c' fits.
            rw (low, walk, undo room lo (some r) c (λ h. fits (omega arith))) refl,
      )

  carve-total :
      (r : Region) (rest : List Region) (s e : ℕ)
      → r.start ≡ s
      → r.end ≡ e
      → length (carve r s e rest) < suc (length rest)
  unfolding carve
  carve-total r rest s e hs he = ground arith

  cut-Outcome :
      (crowded : Bool) (lo hi : ℕ) (r : Region) (rest : List Region) (s : ℕ)
      → Canon lo hi (r ∷ rest)
      → r.start ≤ s
      → s + size ≤ r.end
      → (q : ℕ) × (s ≡ q * alignment)
      → (needs_slot r s (s + size) && crowded) ≡ false
      → ScanOutcome size alignment crowded lo hi (r ∷ rest) (some (s, carve r s (s + size) rest))
  unfolding covers
  cut-Outcome crowded lo hi r rest s c after before mult slot =
      let e = s + size in
      let nonempty : s < s + size = omega arith in
      let n = length rest in
      let total = carve-total r rest s e in
      (
        mult,
        omega arith,
        omega arith,
        carve-Canon lo hi r rest s e c after nonempty before,
        omega (arith, bytes-carve lo hi r rest s e c after nonempty before),
        length-carve lo hi r rest s e c after nonempty before (suc (suc n)) (omega arith)
            (λ _. omega arith),
        (λ full.
            length-carve lo hi r rest s e c after nonempty before (suc n) (omega arith)
              (λ need. ground arith)),
        (λ a i. ground arith),
        (λ a. covers-carve lo hi r rest s e c after nonempty before a),
        λ room lo' prev c' fits.
            walk-carve room hi s e nonempty lo' prev r rest c' after before
              (λ same_start same_end. fits (total same_start same_end)),
      )

  pub scan-Outcome :
      (crowded : Bool) (lo hi : ℕ) (t : List Region)
      → Canon lo hi t
      → ScanOutcome size alignment crowded lo hi t (scan crowded size alignment t)
  unfolding scan
  scan-Outcome crowded lo hi [] c = tt
  scan-Outcome crowded lo hi (r ∷ rest) c =
      let up = align_up-AlignedUp r.start alignment power in
      elim (Option-cases (align_up r.start alignment)) [
        | inl e ↦ rw (e, scan) tt
        | inr (s, e) ↦ elim (Bool-cases (ltb (s + size) u64_mod)) [
          | inr over ↦ rw (e, scan, over) tt
          | inl word ↦
              let place = rw e at up in
              elim (Bool-cases (ltb r.end (s + size) || (needs_slot r s (s + size) && crowded))) [
                | inl stop ↦
                    rw (e, scan, word, stop)
                      (passed-Outcome crowded lo hi r rest _ c
                        (scan-Outcome crowded (suc r.end) hi rest c.3))
                | inr go ↦
                    rw (e, scan, word, go)
                      (cut-Outcome crowded lo hi r rest s c place.0 (ground arith) place.3
                        (ground arith))
              ]
        ]
      ]
