-- ===== src/Bytes/Slices.antt =====
-- Reading back what was written into a buffer, and beside it.
use generic_kernel.Common.{
  ℕ, zero, suc, ◌+◌, ◌≤◌, ◌≡◌, refl, ap, List, [], ◌∷◌, arith, length, take, drop, length-take,
  length-drop,
}
use generic_kernel.Bytes.{slice, write_at}

pub length-write_at :
    (offset : ℕ) (source buffer : List ℕ) → length (write_at offset source buffer) ≡ length buffer
unfolding write_at
length-write_at offset source [] = refl
length-write_at zero [] (b ∷ buffer) = refl
length-write_at zero (s ∷ source) (b ∷ buffer) = ap suc (length-write_at zero source buffer)
length-write_at (suc offset) source (b ∷ buffer) = ap suc (length-write_at offset source buffer)

-- The slice that was written.
pub slice-write_at :
    (offset n : ℕ) (source buffer : List ℕ)
    → length source ≡ n
    → offset + n ≤ length buffer
    → slice offset n (write_at offset source buffer) ≡ source
unfolding write_at
slice-write_at offset n [] [] e h = rw (← e)
slice-write_at offset n (s ∷ source) [] e h = absurd (omega arith)
slice-write_at zero zero [] (b ∷ buffer) e h = refl
slice-write_at zero (suc n) [] (b ∷ buffer) e h = absurd (omega arith)
slice-write_at zero zero (s ∷ source) (b ∷ buffer) e h = absurd (omega arith)
slice-write_at zero (suc n) (s ∷ source) (b ∷ buffer) e h =
    ap (λ xs. s ∷ xs) (slice-write_at zero n source buffer (omega arith) (omega arith))
slice-write_at (suc offset) n source (b ∷ buffer) e h =
    slice-write_at offset n source buffer e (omega arith)

take-write_at :
    (n offset : ℕ) (source buffer : List ℕ)
    → n ≤ offset
    → take n (write_at offset source buffer) ≡ take n buffer
unfolding write_at
take-write_at zero offset source buffer h = refl
take-write_at (suc n) offset source [] h = refl
take-write_at (suc n) zero source (b ∷ buffer) h = absurd (omega arith)
take-write_at (suc n) (suc offset) source (b ∷ buffer) h =
    ap (λ xs. b ∷ xs) (take-write_at n offset source buffer (omega arith))

drop-write_at :
    (k offset : ℕ) (source buffer : List ℕ)
    → offset + length source ≤ k
    → drop k (write_at offset source buffer) ≡ drop k buffer
unfolding write_at
drop-write_at k offset source [] h = refl
drop-write_at zero zero [] (b ∷ buffer) h = refl
drop-write_at zero zero (s ∷ source) (b ∷ buffer) h = absurd (omega arith)
drop-write_at zero (suc offset) source (b ∷ buffer) h = absurd (omega arith)
drop-write_at (suc k) zero [] (b ∷ buffer) h = refl
drop-write_at (suc k) zero (s ∷ source) (b ∷ buffer) h =
    drop-write_at k zero source buffer (omega arith)
drop-write_at (suc k) (suc offset) source (b ∷ buffer) h =
    drop-write_at k offset source buffer (omega arith)

-- A slice that ends before the write.
pub slice-write_at_before :
    (k n offset : ℕ) (source buffer : List ℕ)
    → k + n ≤ offset
    → slice k n (write_at offset source buffer) ≡ slice k n buffer
unfolding write_at
slice-write_at_before k n offset source [] h = refl
slice-write_at_before zero n offset source (b ∷ buffer) h =
    take-write_at n offset source (b ∷ buffer) (omega arith)
slice-write_at_before (suc k) n zero source (b ∷ buffer) h = absurd (omega arith)
slice-write_at_before (suc k) n (suc offset) source (b ∷ buffer) h =
    slice-write_at_before k n offset source buffer (omega arith)

-- A slice that starts after the write.
pub slice-write_at_after :
    (k n offset : ℕ) (source buffer : List ℕ)
    → offset + length source ≤ k
    → slice k n (write_at offset source buffer) ≡ slice k n buffer
slice-write_at_after k n offset source buffer h =
    ap (take n) (drop-write_at k offset source buffer h)

pub length-slice :
    (k n : ℕ) (buffer : List ℕ) → k + n ≤ length buffer → length (slice k n buffer) ≡ n
length-slice k n buffer h = omega (arith, length-take n (drop k buffer), length-drop k buffer)
