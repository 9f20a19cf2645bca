-- ===== src/Ranges/Carve.antt =====
-- Cutting a block out of a free range: the table stays canonical, loses exactly the block, and grows
-- by one entry at most.
use generic_kernel.Common.{
  ℕ, suc, ◌+◌, ◌-◌, ◌≤◌, ◌<◌, ◌%◌, ◌≡◌, true, not, ◌&&◌, List, ◌∷◌, arith, length, ltb, Bool-cases,
  inl, inr,
}
use generic_kernel.Ranges.{Region, carve, needs_slot, bytes, covers, inside}
use generic_kernel.Ranges.Canon.{Canon, Canon-lower, Aligned, covers-below}

module _ (lo hi : ℕ) (r : Region) (rest : List Region) (s e : ℕ) (canon : Canon lo hi (r ∷ rest))
    (after : r.start ≤ s) (nonempty : s < e) (before : e ≤ r.end) where
  pub carve-Canon : Canon lo hi (carve r s e rest)
  unfolding carve
  carve-Canon = elim (Bool-cases (ltb r.start s)) [
    | inl left ↦ elim (Bool-cases (ltb e r.end)) [
      | inl right ↦ rw (left, right) (ground arith)
      | inr right ↦ rw (left, right) (ground (arith, Canon-lower (suc r.end) (suc s) hi rest))
    ]
    | inr left ↦ elim (Bool-cases (ltb e r.end)) [
      | inl right ↦ rw (left, right) (ground arith)
      | inr right ↦ rw (left, right) (ground (arith, Canon-lower (suc r.end) lo hi rest))
    ]
  ]

  pub covers-carve :
      (a : ℕ) → covers (carve r s e rest) a ≡ covers (r ∷ rest) a && not (inside s e a)
  unfolding carve covers
  covers-carve a = ground (arith, covers-below (suc r.end) hi rest a canon.3)

  pub bytes-carve : bytes (carve r s e rest) + (e - s) ≡ bytes (r ∷ rest)
  unfolding carve bytes
  bytes-carve = ground arith

  pub carve-Aligned : s % 4096 ≡ 0 → e % 4096 ≡ 0 → Aligned (r ∷ rest) → Aligned (carve r s e rest)
  unfolding carve
  carve-Aligned hs he al = ground arith

  pub length-carve :
      (n : ℕ)
      → length (r ∷ rest) ≤ n
      → (needs_slot r s e ≡ true → length (r ∷ rest) < n)
      → length (carve r s e rest) ≤ n
  unfolding carve
  length-carve n fits room = ground arith
