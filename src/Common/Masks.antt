-- ===== src/Common/Masks.antt =====
-- Laws of `&` and `|` that hold at every operand: a word split by a mask and its complement.
use Prim.Native.Nat.{
  ℕ, zero, suc, ◌+◌, ◌*◌, ◌/◌, ◌%◌, ◌^◌, ◌≤◌, ◌<◌, max, bit_and, bit_or, digits, bit_or-bitwise,
}
use mathlib.Core.Path.{◌≡◌, refl}
use native.Mathlib.Omega.{arith}
use native.Mathlib.Nat.{pow-suc, one-le-pow}
use generic_kernel.Common.Words.{bit_and_halves}

abbrev upper : ℕ → ℕ → ℕ → ℕ
upper fuel x y = digits (λ b. b) max fuel x y

upper_same : (x y fuel more : ℕ) → x ≤ more → x ≤ fuel → upper more x y ≡ upper fuel x y
upper_same zero y zero zero above enough = refl
upper_same zero y zero (suc more) above enough = refl
upper_same zero y (suc fuel) zero above enough = refl
upper_same zero y (suc fuel) (suc more) above enough = refl
upper_same (suc x) y zero more above enough = absurd (omega arith)
upper_same (suc x) y (suc fuel) zero above enough = absurd (omega arith)
upper_same (suc x) y (suc fuel) (suc more) above enough =
    let halved = upper_same (suc x / 2) (y / 2) fuel more (omega arith) (omega arith) in
    omega (arith, halved)

bit_or-zero_left : (y : ℕ) → bit_or 0 y ≡ y
bit_or-zero_left y = bit_or-bitwise 0 y

pub bit_or_halves : (x y : ℕ) → bit_or x y ≡ max (x % 2) (y % 2) + 2 * bit_or (x / 2) (y / 2)
bit_or_halves zero y = omega (arith, bit_or-zero_left (y / 2), bit_or-zero_left y)
bit_or_halves (suc x) y =
    let whole = bit_or-bitwise (suc x) y in
    let part = bit_or-bitwise (suc x / 2) (y / 2) in
    let fuel = upper_same (suc x / 2) (y / 2) (suc x / 2) x (omega arith) (omega arith) in
    omega (arith, fuel, part, whole)

bit_and-zero_below : (w x : ℕ) → x ≤ w → bit_and x 0 ≡ 0
bit_and-zero_below zero x h =
    let e : x ≡ 0 = omega arith in rw e (omega (arith, bit_and_halves 0 0))
bit_and-zero_below (suc w) zero h = omega (arith, bit_and_halves 0 0)
bit_and-zero_below (suc w) (suc x) h =
    omega (arith, bit_and_halves (suc x) 0, bit_and-zero_below w (suc x / 2) (omega arith))

pub bit_and-zero_right : (x : ℕ) → bit_and x 0 ≡ 0
bit_and-zero_right x = bit_and-zero_below x x (omega arith)

bit_and_half : (x y : ℕ) → bit_and x y / 2 ≡ bit_and (x / 2) (y / 2)
bit_and_half x y = omega (arith, bit_and_halves x y)

bit_or_half : (x y : ℕ) → bit_or x y / 2 ≡ bit_or (x / 2) (y / 2)
bit_or_half x y = omega (arith, bit_or_halves x y)

-- Half of the word that `merge_under` and `merge_outside` are about.
merged_half : (e n c : ℕ) → bit_or (bit_and e n) c / 2 ≡ bit_or (bit_and (e / 2) (n / 2)) (c / 2)
merged_half e n c = rw (bit_or_half (bit_and e n) c, bit_and_half e n)

-- A mask and its complement of `w` bits; a word with its part under the complement kept, and the part
-- under the mask replaced by a word that has no other.
pub merge_under :
    (w mask n e c : ℕ)
    → n + mask + 1 ≡ 2 ^ w
    → c < 2 ^ w
    → bit_and c n ≡ 0
    → bit_and (bit_or (bit_and e n) c) mask ≡ c
merge_under zero mask n e c whole hc h =
    let m : mask ≡ 0 = omega arith in
    let k : c ≡ 0 = omega arith in rw (m, k) (bit_and-zero_right (bit_or (bit_and e n) 0))
merge_under (suc w) mask n e c whole hc h =
    let low : n / 2 + mask / 2 + 1 ≡ 2 ^ w =
      omega (arith, pow-suc 2 w, one-le-pow w 2 (omega arith)) in
    let rec =
      merge_under w (mask / 2) (n / 2) (e / 2) (c / 2) low (omega (arith, pow-suc 2 w))
        (omega (arith, bit_and_halves c n)) in
    let r = bit_or (bit_and e n) c in
    let high : bit_and (r / 2) (mask / 2) ≡ c / 2 = rw (merged_half e n c) rec in
    omega (
      arith,
      bit_and_halves r mask,
      high,
      bit_or_halves (bit_and e n) c,
      bit_and_halves e n,
      bit_and_halves c n,
      pow-suc 2 w,
      one-le-pow w 2 (omega arith),
    )

pub merge_outside :
    (w n e c : ℕ) → n < 2 ^ w → bit_and c n ≡ 0 → bit_and (bit_or (bit_and e n) c) n ≡ bit_and e n
merge_outside zero n e c small h =
    let m : n ≡ 0 = omega arith in
    rw m (omega (arith, bit_and-zero_right (bit_or (bit_and e 0) c), bit_and-zero_right e))
merge_outside (suc w) n e c small h =
    let rec =
      merge_outside w (n / 2) (e / 2) (c / 2) (omega (arith, pow-suc 2 w))
        (omega (arith, bit_and_halves c n)) in
    let r = bit_or (bit_and e n) c in
    let high : bit_and (r / 2) (n / 2) ≡ bit_and (e / 2) (n / 2) = rw (merged_half e n c) rec in
    omega (
      arith,
      bit_and_halves r n,
      high,
      bit_or_halves (bit_and e n) c,
      bit_and_halves e n,
      bit_and_halves c n,
    )

pub bit_and_assoc : (w x y z : ℕ) → z < 2 ^ w → bit_and (bit_and x y) z ≡ bit_and x (bit_and y z)
bit_and_assoc zero x y z small =
    let m : z ≡ 0 = omega arith in
    rw (m, bit_and-zero_right (bit_and x y), bit_and-zero_right y)
      (omega (arith, bit_and-zero_right x))
bit_and_assoc (suc w) x y z small =
    let rec = bit_and_assoc w (x / 2) (y / 2) (z / 2) (omega (arith, pow-suc 2 w)) in
    let left : bit_and (bit_and x y / 2) (z / 2) ≡ bit_and (bit_and (x / 2) (y / 2)) (z / 2) =
      rw (bit_and_half x y) in
    let right : bit_and (x / 2) (bit_and y z / 2) ≡ bit_and (x / 2) (bit_and (y / 2) (z / 2)) =
      rw (bit_and_half y z) in
    omega (
      arith,
      bit_and_halves (bit_and x y) z,
      bit_and_halves x (bit_and y z),
      bit_and_halves x y,
      bit_and_halves y z,
      left,
      right,
      rec,
    )
