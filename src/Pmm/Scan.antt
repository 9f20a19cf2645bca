-- ===== src/Pmm/Scan.antt =====
-- The loop of `allocate_pages` over the free ranges: the outcome on every branch, and its undoing.
use generic_kernel.Common.{
  ℕ, suc, ◌+◌, ◌-◌, ◌*◌, ◌%◌, ◌^◌, ◌≤◌, ◌<◌, ◌≡◌, refl, Bool, true, false, not, ◌&&◌, List, [], ◌∷◌,
  Option, none, some, arith, length, ltb, leb, Bool-cases, Option-cases, inl, inr, ok, err, u64_mod,
  IsPower, AlignedUp, align_up, align_up-AlignedUp, lt→ltb, IsPower-pos, exponents,
}
use generic_kernel.Ranges.{Region, table, keep, carve, needs_slot, walk, bytes, covers, inside}
use generic_kernel.Ranges.Canon.{Canon, Aligned}
use generic_kernel.Ranges.Carve.{
  carve-Canon, covers-carve, bytes-carve, carve-Aligned, length-carve,
}
use generic_kernel.Ranges.Undo.{walk-carve}
use generic_kernel.Pmm.{PhysicalMemoryError, place, scan, Scanned, passed}

module _ (size alignment : ℕ) where
  -- No block of the size fits at a multiple of the alignment in any entry.
  abbrev pub NoFit : List Region → Type 0
  NoFit [] = Unit {0}
  NoFit (r ∷ rest) =
      ((q : ℕ) → r.start ≤ q * alignment → q * alignment + size ≤ r.end → ⊥) × NoFit rest

module _ (size alignment : ℕ) (power : IsPower alignment) where
  -- What `place` finds: the first multiple of the alignment in the range, if the block fits there.
  abbrev Placed : Region → Option ℕ → Type 0
  Placed r none = (q : ℕ) → r.start ≤ q * alignment → q * alignment + size ≤ r.end → ⊥
  Placed r (some s) = (r.start ≤ s) × (s + size ≤ r.end) × ((q : ℕ) × (s ≡ q * alignment))

  least :
      (v s k q : ℕ) → s ≡ k * alignment → s < v + alignment → v ≤ q * alignment → s ≤ q * alignment
  least v s k q e near above = elim (Bool-cases (leb k q)) [
    | inl le ↦ let h : k ≤ q = ground arith in grind arith
    | inr gt ↦ let h : suc q ≤ k = ground arith in absurd (grind arith)
  ]

  -- Where rounding up overflows, no multiple of the alignment is left in the range.
  overflow-none : (r : Region) → r.end < u64_mod → AlignedUp r.start alignment none → Placed r none
  overflow-none r small over q above fits =
      let (k, below, eq) = power in
      let whole : u64_mod ≡ 2 ^ (64 - k) * alignment =
        rw eq (exponents 64 (64 - k) k (omega arith)) in
      let past =
        least r.start u64_mod (2 ^ (64 - k)) q whole
          (omega (arith, IsPower-pos {a = alignment} power)) above in
      absurd (omega arith)

  fitting :
      (r : Region) (s : ℕ)
      → AlignedUp r.start alignment (some s)
      → align_up r.start alignment ≡ some s
      → r.end < u64_mod
      → Placed r (place r size alignment)
  unfolding place
  fitting r s up e small = elim (Bool-cases (ltb (s + size) u64_mod)) [
    | inr over ↦
        rw (e, place, over)
          λ q above fits.
            let low = least r.start s up.3.0 q up.3.1 up.1 above in absurd (ground arith)
    | inl fine ↦ elim (Bool-cases (ltb r.end (s + size))) [
      | inl past ↦
          rw (e, place, fine, past)
            λ q above fits.
              let low = least r.start s up.3.0 q up.3.1 up.1 above in absurd (ground arith)
      | inr within ↦ rw (e, place, fine, within) (up.0, ground arith, up.3)
    ]
  ]

  pub place-Placed : (r : Region) → r.end < u64_mod → Placed r (place r size alignment)
  unfolding place
  place-Placed r small =
      let up = align_up-AlignedUp r.start alignment power in
      elim (Option-cases (align_up r.start alignment)) [
        | inl e ↦ rw (e, place) (overflow-none r small (rw e at up))
        | inr (s, e) ↦ fitting r s (rw e at up) e small
      ]

  abbrev pub ScanOutcome : Bool → ℕ → ℕ → List Region → Scanned → Type 0
  ScanOutcome crowded lo hi t (ok none) = NoFit size alignment t
  ScanOutcome crowded lo hi t (err e) = (crowded ≡ true) × (e ≡ PhysicalMemoryError.capacity)
  ScanOutcome crowded lo hi t (ok (some (s, t'))) =
      ((q : ℕ) × (s ≡ q * alignment))
      × (lo ≤ s)
      × (s + size ≤ hi)
      × Canon lo hi t'
      × (bytes t' + size ≡ bytes t)
      × (length t' ≤ suc (length t))
      × (crowded ≡ true → length t' ≤ length t)
      × (s % 4096 ≡ 0 → (s + size) % 4096 ≡ 0 → Aligned t → Aligned t')
      × ((a : ℕ) → inside s (s + size) a ≡ true → covers t a ≡ true)
      × ((a : ℕ) → covers t' a ≡ covers t a && not (inside s (s + size) a))
      × ((room : Bool) (lo' : ℕ) (prev : Option Region)
          → Canon lo' hi (keep prev t)
          → (length t' < length t → room ≡ true)
          → walk room s (s + size) prev t' ≡ table (keep prev t))

  passed-Outcome :
      (crowded : Bool) (lo hi : ℕ) (r : Region) (rest : List Region) (o : Scanned)
      → 0 < size
      → Canon lo hi (r ∷ rest)
      → Placed r none
      → ScanOutcome crowded (suc r.end) hi rest o
      → ScanOutcome crowded lo hi (r ∷ rest) (passed r o)
  unfolding covers bytes walk
  passed-Outcome crowded lo hi r rest (ok none) pos c p out = (p, out)
  passed-Outcome crowded lo hi r rest (err e) pos c p out = out
  passed-Outcome crowded lo hi r rest (ok (some (s, t))) pos c p out =
      let (mult, above, below, canon, sum, size_le, tight, al, free, same, undo) = out in
      let low = lt→ltb r.start s (omega arith) in
      (
        mult,
        omega arith,
        below,
        (c.0, c.1, c.2, canon),
        omega arith,
        omega arith,
        (λ off. omega (arith, tight off)),
        (λ hs he a. (a.0, a.1, al hs he a.2)),
        (λ a i. ground (arith, free a i)),
        (λ a. ground (arith, same a)),
        λ room lo' prev c' fits.
            rw (low, walk, undo room lo (some r) c (λ h. fits (omega arith))) refl,
      )

  carve-total :
      (r : Region) (rest : List Region) (s e : ℕ)
      → r.start ≡ s
      → r.end ≡ e
      → length (carve r s e rest) < suc (length rest)
  unfolding carve
  carve-total r rest s e hs he = ground arith

  cut-Outcome :
      (crowded : Bool) (lo hi : ℕ) (r : Region) (rest : List Region) (s : ℕ)
      → 0 < size
      → Canon lo hi (r ∷ rest)
      → Placed r (some s)
      → (needs_slot r s (s + size) && crowded) ≡ false
      → ScanOutcome crowded lo hi (r ∷ rest) (ok (some (s, carve r s (s + size) rest)))
  unfolding covers
  cut-Outcome crowded lo hi r rest s pos c p slot =
      let (after, before, mult) = p in
      let e = s + size in
      let nonempty : s < s + size = omega arith in
      let total = carve-total r rest s e in
      (
        mult,
        omega arith,
        omega arith,
        carve-Canon lo hi r rest s e c after nonempty before,
        omega (arith, bytes-carve lo hi r rest s e c after nonempty before),
        length-carve lo hi r rest s e c after nonempty before (suc (suc (length rest)))
            (omega arith) (λ _. omega arith),
        (λ full.
            length-carve lo hi r rest s e c after nonempty before (suc (length rest)) (omega arith)
              (λ need. ground arith)),
        (λ hs he al. carve-Aligned lo hi r rest s e c after nonempty before hs he al),
        (λ a i. ground arith),
        (λ a. covers-carve lo hi r rest s e c after nonempty before a),
        λ room lo' prev c' fits.
            walk-carve room hi s e nonempty lo' prev r rest c' after before
              (λ same_start same_end. fits (total same_start same_end)),
      )

  pub scan-Outcome :
      (crowded : Bool) (lo hi : ℕ) (t : List Region)
      → 0 < size
      → hi < u64_mod
      → Canon lo hi t
      → ScanOutcome crowded lo hi t (scan crowded size alignment t)
  unfolding scan
  scan-Outcome crowded lo hi [] pos small c = tt
  scan-Outcome crowded lo hi (r ∷ rest) pos small c =
      let placed = place-Placed r (omega arith) in
      elim (Option-cases (place r size alignment)) [
        | inl e ↦
            rw (e, scan)
              (passed-Outcome crowded lo hi r rest _ pos c (rw e at placed)
                (scan-Outcome crowded (suc r.end) hi rest pos small c.3))
        | inr (s, e) ↦ elim (Bool-cases (needs_slot r s (s + size) && crowded)) [
          | inl stop ↦ rw (e, scan, stop) (ground arith, refl)
          | inr go ↦ rw (e, scan, go) (cut-Outcome crowded lo hi r rest s pos c (rw e at placed) go)
        ]
      ]
