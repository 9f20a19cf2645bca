-- ===== src/Ranges/Cover.antt =====
-- The bytes of a canonical table are the number of addresses that it covers, so a table that covers
-- less has fewer bytes.
use generic_kernel.Common.{
  ℕ, zero, suc, ◌+◌, ◌-◌, ◌≤◌, ◌≡◌, refl, Bool, true, false, ◌||◌, List, [], ◌∷◌, arith, min,
  if◌then◌else◌,
}
use generic_kernel.Ranges.{Region, bytes, covers, inside}
use generic_kernel.Ranges.Canon.{Canon, covers-below}

count : ℕ → (ℕ → Bool) → ℕ
count zero f = 0
count (suc n) f = (if f n then 1 else 0) + count n f

count_mono : (n : ℕ) (f g : ℕ → Bool) → ((a : ℕ) → f a ≡ true → g a ≡ true) → count n f ≤ count n g
unfolding count
count_mono zero f g h = omega arith
count_mono (suc n) f g h = ground (arith, h n, count_mono n f g h)

count-or :
    (n : ℕ) (f g k : ℕ → Bool)
    → ((a : ℕ) → f a ≡ g a || k a)
    → ((a : ℕ) → g a ≡ true → k a ≡ false)
    → count n f ≡ count n g + count n k
unfolding count
count-or zero f g k e h = omega arith
count-or (suc n) f g k e h = ground (arith, e n, h n, count-or n f g k e h)

count-false : (n : ℕ) (f : ℕ → Bool) → ((a : ℕ) → f a ≡ false) → count n f ≡ 0
unfolding count
count-false zero f h = refl
count-false (suc n) f h = ground (arith, h n, count-false n f h)

count-inside : (n s e : ℕ) → count n (inside s e) ≡ min n e - s
unfolding count
count-inside zero s e = omega arith
count-inside (suc n) s e = ground (arith, count-inside n s e)

count-covers :
    (n lo hi : ℕ) (t : List Region) → Canon lo hi t → hi ≤ n → count n (covers t) ≡ bytes t
unfolding covers bytes
count-covers n lo hi [] c h = count-false n (covers []) (λ a. refl)
count-covers n lo hi (r ∷ rest) c h =
    let parts =
      count-or n (covers (r ∷ rest)) (inside r.start r.end) (covers rest) (λ a. refl)
        (λ a i. covers-below (suc r.end) hi rest a c.3 (ground arith)) in
    omega (arith, parts, count-inside n r.start r.end, count-covers n (suc r.end) hi rest c.3 h)

-- If every address of `t` is one of `m`, `t` has at most the bytes of `m`.
pub bytes_mono :
    (lo hi lo' hi' : ℕ) (t m : List Region)
    → Canon lo hi t
    → Canon lo' hi' m
    → hi ≤ hi'
    → ((a : ℕ) → covers t a ≡ true → covers m a ≡ true)
    → bytes t ≤ bytes m
bytes_mono lo hi lo' hi' t m c c' h sub = omega (
  arith,
  count_mono hi' (covers t) (covers m) sub,
  count-covers hi' lo hi t c h,
  count-covers hi' lo' hi' m c' (omega arith),
)
