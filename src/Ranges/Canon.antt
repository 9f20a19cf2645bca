-- ===== src/Ranges/Canon.antt =====
-- Canonical tables: sorted, no range empty, and no two ranges touching, so that every set of
-- addresses has one table.
use generic_kernel.Common.{ℕ, suc, ◌-◌, ◌≤◌, ◌<◌, ◌%◌, ◌≡◌, false, List, [], ◌∷◌, arith}
use generic_kernel.Ranges.{Region, bytes, covers}

-- Every range starts at `lo` or above, ends at `hi` or below, and leaves a gap before the next.
abbrev pub Canon : ℕ → ℕ → List Region → Type 0
Canon lo hi [] = Unit {0}
Canon lo hi (r ∷ rest) =
    (lo ≤ r.start) × (r.start < r.end) × (r.end ≤ hi) × Canon (suc r.end) hi rest

pub Canon-lower : (lo lo' hi : ℕ) (t : List Region) → lo' ≤ lo → Canon lo hi t → Canon lo' hi t
Canon-lower lo lo' hi [] h c = tt
Canon-lower lo lo' hi (r ∷ rest) h c = (omega arith, c.1, c.2, c.3)

-- Every bound of a table is a multiple of `unit`.
abbrev pub Aligned : List Region → Type 0
Aligned [] = Unit {0}
Aligned (r ∷ rest) = (r.start % 4096 ≡ 0) × (r.end % 4096 ≡ 0) × Aligned rest

-- A canonical table covers nothing below its bound.
pub covers-below :
    (lo hi : ℕ) (t : List Region) (a : ℕ) → Canon lo hi t → a < lo → covers t a ≡ false
unfolding covers
covers-below lo hi [] a c h = ground arith
covers-below lo hi (r ∷ rest) a c h = ground (arith, covers-below (suc r.end) hi rest a c.3)

pub bytes-le : (lo hi : ℕ) (t : List Region) → Canon lo hi t → lo ≤ hi → bytes t ≤ hi - lo
unfolding bytes
bytes-le lo hi [] c h = omega arith
bytes-le lo hi (r ∷ []) c h = omega arith
bytes-le lo hi (r ∷ s ∷ rest) c h =
    omega (arith, bytes-le (suc r.end) hi (s ∷ rest) c.3 (omega arith))
