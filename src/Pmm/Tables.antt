-- ===== src/Pmm/Tables.antt =====
-- The two ways in which `push_initial` lengthens a table: extend its last entry, or append one.
use generic_kernel.Common.{
  ℕ, suc, ◌+◌, ◌-◌, ◌%◌, ◌≤◌, ◌<◌, ◌≡◌, refl, true, false, ◌||◌, List, [], ◌∷◌, ◌++◌, arith, length,
}
use generic_kernel.Ranges.{Region, bytes, covers, inside}
use generic_kernel.Ranges.Canon.{Canon, Aligned}
use generic_kernel.Pmm.{touches, set_last_end}

pub Canon-upper : (lo hi hi' : ℕ) (t : List Region) → hi ≤ hi' → Canon lo hi t → Canon lo hi' t
Canon-upper lo hi hi' [] h c = tt
Canon-upper lo hi hi' (r ∷ rest) h c =
    (c.0, c.1, omega arith, Canon-upper (suc r.end) hi hi' rest h c.3)

module _ (hi s e : ℕ) (above : hi ≤ s) (nonempty : s < e) where
  pub append-Canon :
      (lo : ℕ) (t : List Region)
      → lo ≤ s
      → Canon lo hi t
      → touches t s ≡ false
      → Canon lo e (t ++ record { start = s; end = e } ∷ [])
  unfolding touches
  append-Canon lo [] l c k = (l, nonempty, omega arith, tt)
  append-Canon lo (r ∷ []) l c k = ground arith
  append-Canon lo (r ∷ n ∷ rest) l c k =
      (c.0, c.1, omega arith, append-Canon (suc r.end) (n ∷ rest) (omega arith) c.3 k)

  pub extend-Canon :
      (lo : ℕ) (t : List Region)
      → Canon lo hi t
      → touches t s ≡ true
      → Canon lo e (set_last_end t e)
  unfolding touches set_last_end
  extend-Canon lo [] c k = absurd (cc)
  extend-Canon lo (r ∷ []) c k = ground arith
  extend-Canon lo (r ∷ n ∷ rest) c k =
      (c.0, c.1, omega arith, extend-Canon (suc r.end) (n ∷ rest) c.3 k)

  pub extend-sizes :
      (lo : ℕ) (t : List Region)
      → Canon lo hi t
      → touches t s ≡ true
      → (bytes (set_last_end t e) ≡ bytes t + (e - s))
        × (length (set_last_end t e) ≡ length t)
        × (e % 4096 ≡ 0 → Aligned t → Aligned (set_last_end t e))
  unfolding touches set_last_end bytes
  extend-sizes lo [] c k = absurd (cc)
  extend-sizes lo (r ∷ []) c k = ground arith
  extend-sizes lo (r ∷ n ∷ rest) c k =
      let (sum, size, al) = extend-sizes (suc r.end) (n ∷ rest) c.3 k in
      (omega arith, omega arith, λ h a. (a.0, a.1, al h a.2))

  pub extend-covers :
      (lo : ℕ) (t : List Region) (a : ℕ)
      → Canon lo hi t
      → touches t s ≡ true
      → covers (set_last_end t e) a ≡ covers t a || inside s e a
  unfolding touches set_last_end covers
  extend-covers lo [] a c k = absurd (cc)
  extend-covers lo (r ∷ []) a c k = ground arith
  extend-covers lo (r ∷ n ∷ rest) a c k =
      ground (arith, extend-covers (suc r.end) (n ∷ rest) a c.3 k)

pub append-covers :
    (r : Region) (t : List Region) (a : ℕ)
    → covers (t ++ r ∷ []) a ≡ covers t a || inside r.start r.end a
unfolding covers
append-covers r [] a = ground arith
append-covers r (n ∷ rest) a = ground (arith, append-covers r rest a)

pub append-sizes :
    (r : Region) (t : List Region)
    → (bytes (t ++ r ∷ []) ≡ bytes t + (r.end - r.start))
      × (length (t ++ r ∷ []) ≡ suc (length t))
      × (r.start % 4096 ≡ 0 → r.end % 4096 ≡ 0 → Aligned t → Aligned (t ++ r ∷ []))
unfolding bytes
append-sizes r [] = (omega arith, refl, λ h k a. (h, k, tt))
append-sizes r (n ∷ rest) =
    let (sum, size, al) = append-sizes r rest in
    (omega arith, omega arith, λ h k a. (a.0, a.1, al h k a.2))
