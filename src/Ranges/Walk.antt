-- ===== src/Ranges/Walk.antt =====
-- Giving a block back: the outcome of the walk through the table, on every branch.
use generic_kernel.Common.{
  ℕ, suc, ◌+◌, ◌-◌, ◌≤◌, ◌<◌, ◌%◌, ◌≡◌, refl, Bool, true, false, ◌||◌, List, [], ◌∷◌, Option, none,
  some, arith, length, ltb, ltb→lt, Bool-cases, inl, inr,
}
use generic_kernel.Ranges.{
  Region, Released, overlap, full, table, keep, kept, merge, settle, walk, bytes, covers, inside,
  ends_past, starts_before,
}
use generic_kernel.Ranges.Canon.{Canon, Aligned, covers-below}

-- The entry before the position lies to the left of the block.
abbrev pub IsLeft : ℕ → ℕ → Option Region → Type 0
IsLeft lo s none = lo ≤ s
IsLeft lo s (some p) = p.start < s

-- The position that the loop stops at.
abbrev pub StartsAfter : ℕ → List Region → Type 0
StartsAfter s [] = Unit {0}
StartsAfter s (r ∷ rest) = s ≤ r.start

-- What the block `[s, e)` and the table `t` come to.
abbrev pub Outcome : Bool → ℕ → ℕ → ℕ → ℕ → List Region → Released → Type 0
Outcome room lo hi s e t overlap = (a : ℕ) × (inside s e a ≡ true) × (covers t a ≡ true)
Outcome room lo hi s e t full =
    (room ≡ false) × ((a : ℕ) → inside s e a ≡ true → covers t a ≡ false)
Outcome room lo hi s e t (table t') =
    Canon lo hi t'
    × (bytes t' ≡ bytes t + (e - s))
    × (length t' ≤ suc (length t))
    × (room ≡ false → length t' ≤ length t)
    × (s % 4096 ≡ 0 → e % 4096 ≡ 0 → Aligned t → Aligned t')
    × ((a : ℕ) → inside s e a ≡ true → covers t a ≡ false)
    × ((a : ℕ) → covers t' a ≡ inside s e a || covers t a)

module _ (room : Bool) (hi s e : ℕ) (nonempty : s < e) (bounded : e ≤ hi) where
  covers-after :
      (lo a : ℕ) (rest : List Region)
      → Canon lo hi rest
      → s ≤ a
      → a < e
      → starts_before rest e ≡ false
      → covers rest a ≡ false
  unfolding covers
  covers-after lo a [] c h k n = ground arith
  covers-after lo a (r ∷ rest) c h k n = ground (arith, covers-below (suc r.end) hi rest a c.3)

  -- The facts at the position found: the entry before ends at the block or below, and the entry after
  -- starts at its end or above.
  abbrev Clear : Option Region → List Region → Type 0
  Clear prev rest = (ends_past prev s ≡ false) × (starts_before rest e ≡ false)

  Clear-apart :
      (lo : ℕ) (prev : Option Region) (rest : List Region)
      → Canon lo hi (keep prev rest)
      → Clear prev rest
      → (a : ℕ) → inside s e a ≡ true
      → covers (keep prev rest) a ≡ false
  unfolding covers
  Clear-apart lo none rest c k a n = covers-after lo a rest c (ground arith) (ground arith) k.1
  Clear-apart lo (some p) rest c k a n =
      ground (arith, covers-after (suc p.end) a rest c.3 (ground arith) (ground arith) k.1)

  merge-Canon :
      (lo : ℕ) (prev : Option Region) (rest : List Region) (t : List Region)
      → Canon lo hi (keep prev rest)
      → IsLeft lo s prev
      → Clear prev rest
      → merge room s e prev rest ≡ table t
      → Canon lo hi t
  unfolding merge
  merge-Canon lo none [] t c l k h = ground arith
  merge-Canon lo none (r ∷ rest) t c l k h = ground arith
  merge-Canon lo (some p) [] t c l k h = ground arith
  merge-Canon lo (some p) (r ∷ rest) t c l k h = ground arith

  merge-sizes :
      (lo : ℕ) (prev : Option Region) (rest : List Region) (t : List Region)
      → Canon lo hi (keep prev rest)
      → merge room s e prev rest ≡ table t
      → (bytes t ≡ bytes (keep prev rest) + (e - s))
        × (length t ≤ suc (length (keep prev rest)))
        × (room ≡ false → length t ≤ length (keep prev rest))
        × (s % 4096 ≡ 0 → e % 4096 ≡ 0 → Aligned (keep prev rest) → Aligned t)
  unfolding merge bytes
  merge-sizes lo none [] t c h = ground arith
  merge-sizes lo none (r ∷ rest) t c h = ground arith
  merge-sizes lo (some p) [] t c h = ground arith
  merge-sizes lo (some p) (r ∷ rest) t c h = ground arith

  merge-covers :
      (lo : ℕ) (prev : Option Region) (rest : List Region) (t : List Region)
      → Canon lo hi (keep prev rest)
      → merge room s e prev rest ≡ table t
      → (a : ℕ) → covers t a ≡ inside s e a || covers (keep prev rest) a
  unfolding merge covers
  merge-covers lo none [] t c h a = ground arith
  merge-covers lo none (r ∷ rest) t c h a = ground arith
  merge-covers lo (some p) [] t c h a = ground arith
  merge-covers lo (some p) (r ∷ rest) t c h a = ground arith

  merge-ne-overlap :
      (prev : Option Region) (rest : List Region) → ¬ (merge room s e prev rest ≡ overlap)
  unfolding merge
  merge-ne-overlap none [] h = ground arith
  merge-ne-overlap none (r ∷ rest) h = ground arith
  merge-ne-overlap (some p) [] h = ground arith
  merge-ne-overlap (some p) (r ∷ rest) h = ground arith

  merge-full :
      (prev : Option Region) (rest : List Region) → merge room s e prev rest ≡ full → room ≡ false
  unfolding merge
  merge-full none [] h = ground arith
  merge-full none (r ∷ rest) h = ground arith
  merge-full (some p) [] h = ground arith
  merge-full (some p) (r ∷ rest) h = ground arith

  past-overlap :
      (lo : ℕ) (prev : Option Region) (rest : List Region)
      → Canon lo hi (keep prev rest)
      → IsLeft lo s prev
      → ends_past prev s ≡ true
      → (a : ℕ) × (inside s e a ≡ true) × (covers (keep prev rest) a ≡ true)
  unfolding covers
  past-overlap lo none rest c l h = cc
  past-overlap lo (some p) rest c l h = (s, ground arith, ground arith)

  early-overlap :
      (lo : ℕ) (prev : Option Region) (rest : List Region)
      → Canon lo hi (keep prev rest)
      → StartsAfter s rest
      → starts_before rest e ≡ true
      → (a : ℕ) × (inside s e a ≡ true) × (covers (keep prev rest) a ≡ true)
  unfolding covers
  early-overlap lo prev [] c r h = cc
  early-overlap lo none (n ∷ rest) c r h = (n.start, ground arith, ground arith)
  early-overlap lo (some p) (n ∷ rest) c r h = (n.start, ground arith, ground arith)

  merge-Outcome :
      (lo : ℕ) (prev : Option Region) (rest : List Region) (o : Released)
      → Canon lo hi (keep prev rest)
      → IsLeft lo s prev
      → Clear prev rest
      → merge room s e prev rest ≡ o
      → Outcome room lo hi s e (keep prev rest) o
  merge-Outcome lo prev rest overlap c l k h = absurd (merge-ne-overlap prev rest h)
  merge-Outcome lo prev rest full c l k h = (merge-full prev rest h, Clear-apart lo prev rest c k)
  merge-Outcome lo prev rest (table t) c l k h =
      let sizes = merge-sizes lo prev rest t c h in
      (
        merge-Canon lo prev rest t c l k h,
        sizes.0,
        sizes.1,
        sizes.2,
        sizes.3,
        Clear-apart lo prev rest c k,
        merge-covers lo prev rest t c h,
      )

  settle-Outcome :
      (lo : ℕ) (prev : Option Region) (rest : List Region)
      → Canon lo hi (keep prev rest)
      → IsLeft lo s prev
      → StartsAfter s rest
      → Outcome room lo hi s e (keep prev rest) (settle room s e prev rest)
  unfolding settle
  settle-Outcome lo prev rest c l r = elim (Bool-cases (ends_past prev s)) [
    | inl past ↦ rw past (past-overlap lo prev rest c l past)
    | inr fine ↦ elim (Bool-cases (starts_before rest e)) [
      | inl early ↦ rw (fine, early) (early-overlap lo prev rest c r early)
      | inr late ↦
          rw (fine, late)
            (merge-Outcome lo prev rest (merge room s e prev rest) c l (fine, late) refl)
    ]
  ]

  kept-Outcome :
      (lo : ℕ) (prev : Option Region) (r : Region) (rest : List Region) (o : Released)
      → Canon lo hi (keep prev (r ∷ rest))
      → r.start < s
      → ((lo' : ℕ) → Canon lo' hi (r ∷ rest) → Outcome room lo' hi s e (r ∷ rest) o)
      → Outcome room lo hi s e (keep prev (r ∷ rest)) (kept prev o)
  unfolding covers bytes
  kept-Outcome lo none r rest overlap c h out = out lo c
  kept-Outcome lo none r rest full c h out = out lo c
  kept-Outcome lo none r rest (table t) c h out = out lo c
  kept-Outcome lo (some p) r rest overlap c h out =
      let (a, i, k) = out (suc p.end) c.3 in (a, i, ground arith)
  kept-Outcome lo (some p) r rest full c h out =
      let (off, apart) = out (suc p.end) c.3 in (off, λ a i. ground (arith, apart a i))
  kept-Outcome lo (some p) r rest (table t) c h out =
      let (canon, sum, size, tight, aligned, apart, same) = out (suc p.end) c.3 in
      (
        (c.0, c.1, c.2, canon),
        omega arith,
        omega arith,
        (λ off. omega (arith, tight off)),
        (λ hs he al. (al.0, al.1, aligned hs he al.2)),
        (λ a i. ground (arith, apart a i)),
        λ a. ground (arith, same a),
      )

  pub walk-Outcome :
      (lo : ℕ) (prev : Option Region) (rest : List Region)
      → Canon lo hi (keep prev rest)
      → IsLeft lo s prev
      → Outcome room lo hi s e (keep prev rest) (walk room s e prev rest)
  unfolding walk
  walk-Outcome lo prev [] c l = settle-Outcome lo prev [] c l tt
  walk-Outcome lo prev (r ∷ rest) c l = elim (Bool-cases (ltb r.start s)) [
    | inl low ↦ rw low (
        kept-Outcome lo prev r rest (walk room s e (some r) rest) c (ltb→lt _ _ low)
          λ lo' c'. walk-Outcome lo' (some r) rest c' (ltb→lt _ _ low))
    | inr high ↦ rw high (settle-Outcome lo prev (r ∷ rest) c l (ground arith))
  ]
