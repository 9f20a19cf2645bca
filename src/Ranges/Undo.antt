-- ===== src/Ranges/Undo.antt =====
-- Giving back a block that was just cut out restores the table, entry for entry.
use generic_kernel.Common.{ℕ, ◌≤◌, ◌<◌, ◌≡◌, Bool, true, List, [], ◌∷◌, Option, none, some, arith}
use generic_kernel.Ranges.{Region, table, keep, merge, settle, walk, carve, split_match}
use generic_kernel.Ranges.Canon.{Canon}

module _ (room : Bool) (hi s e : ℕ) (nonempty : s < e) where
  -- `room` is needed only where the whole range had been taken.
  pub walk-carve :
      (lo : ℕ) (prev : Option Region) (r : Region) (rest : List Region)
      → Canon lo hi (keep prev (r ∷ rest))
      → r.start ≤ s
      → e ≤ r.end
      → (r.start ≡ s → r.end ≡ e → room ≡ true)
      → walk room s e prev (carve r s e rest) ≡ table (keep prev (r ∷ rest))
  unfolding walk carve settle merge split_match
  walk-carve lo none r [] c a b free = ground arith
  walk-carve lo none r (n ∷ rest) c a b free = ground arith
  walk-carve lo (some p) r [] c a b free = ground arith
  walk-carve lo (some p) r (n ∷ rest) c a b free = ground arith
