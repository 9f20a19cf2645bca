-- ===== src/Common/Words.antt =====
-- Machine words of 64 bits (`u64`, and `usize` on x86_64) as native numbers: checked and wrapping
-- operations, `is_power_of_two`, and the mask `value & !(alignment - 1)` with its meaning.
use Prim.Native.Nat.{
  ℕ, zero, suc, ◌+◌, ◌-◌, ◌*◌, ◌/◌, ◌%◌, ◌^◌, ◌≤◌, ◌<◌, min, bit_and, digits, bit_and-bitwise,
}
use mathlib.Core.Path.{◌≡◌, refl, sym, ap}
use mathlib.Core.Bool.{Bool, true, false, ◌||◌}
use mathlib.Core.Option
use mathlib.Core.Option.{Option, none, some}
use mathlib.Core.Logic.{inl, inr}
use native.Mathlib.Omega.{arith}
use native.Mathlib.Nat.{
  pow-suc, pow-succ', one-le-pow, mul-one, mul_assoc, div-one, div-div-eq-div-mul, add-zero,
  div-add-mod', mod-lt,
}
use generic_kernel.Common.Tests.{ltb, ltb→lt, ◌==◌, ==_iff, if◌then◌else◌, Bool-cases}

abbrev pub u64_mod : ℕ
u64_mod = 2 ^ 64

-- `checked_add` and `checked_mul`.
abbrev pub checked_add : ℕ → ℕ → Option ℕ
checked_add a b = if ltb (a + b) u64_mod then some (a + b) else none

abbrev pub checked_mul : ℕ → ℕ → Option ℕ
checked_mul a b = if ltb (a * b) u64_mod then some (a * b) else none

-- `a - b` on u64, wrapping.
abbrev pub sub64 : ℕ → ℕ → ℕ
sub64 a b = (a + u64_mod - b) % u64_mod

-- `!a` on u64.
abbrev pub not64 : ℕ → ℕ
not64 a = u64_mod - 1 - a

-- Is `n` one of the powers 2 ^ 0, …, 2 ^ (k - 1)?
pub power_below : ℕ → ℕ → Bool
power_below zero n = false
power_below (suc k) n = n == 2 ^ k || power_below k n

unfoldable pub is_power_of_two : ℕ → Bool
unfolding power_below
is_power_of_two n = power_below 64 n

pub power_below_exponent : (k n : ℕ) → power_below k n ≡ true → (j : ℕ) × (j < k) × (n ≡ 2 ^ j)
unfolding power_below
power_below_exponent zero n h = cc
power_below_exponent (suc k) n h = elim (Bool-cases (n == 2 ^ k)) [
  | inl e ↦ (k, omega arith, (==_iff _ _).0 e)
  | inr e ↦ let (j, lt, eq) = power_below_exponent k n (rw e at h) in (j, omega arith, eq)
]

pub is_power_of_two_exponent : (n : ℕ) → is_power_of_two n ≡ true → (j : ℕ) × (j < 64) × (n ≡ 2 ^ j)
unfolding is_power_of_two
is_power_of_two_exponent n h = power_below_exponent 64 n h

-- `bit_and` is defined by a digit recursion with fuel; any fuel from the first operand on will do.
abbrev lower : ℕ → ℕ → ℕ → ℕ
lower fuel x y = digits (λ _. zero) min fuel x y

lower_same : (x y fuel more : ℕ) → x ≤ more → x ≤ fuel → lower more x y ≡ lower fuel x y
lower_same zero y zero zero above enough = refl
lower_same zero y zero (suc more) above enough = refl
lower_same zero y (suc fuel) zero above enough = refl
lower_same zero y (suc fuel) (suc more) above enough = refl
lower_same (suc x) y zero more above enough = absurd (omega arith)
lower_same (suc x) y (suc fuel) zero above enough = absurd (omega arith)
lower_same (suc x) y (suc fuel) (suc more) above enough =
    let halved = lower_same (suc x / 2) (y / 2) fuel more (omega arith) (omega arith) in
    omega (arith, halved)

bit_and-zero_left : (y : ℕ) → bit_and 0 y ≡ 0
bit_and-zero_left y = bit_and-bitwise 0 y

-- So it goes digit by digit.
pub bit_and_halves : (x y : ℕ) → bit_and x y ≡ min (x % 2) (y % 2) + 2 * bit_and (x / 2) (y / 2)
bit_and_halves zero y = omega (arith, bit_and-zero_left (y / 2), bit_and-zero_left y)
bit_and_halves (suc x) y =
    let whole = bit_and-bitwise (suc x) y in
    let part = bit_and-bitwise (suc x / 2) (y / 2) in
    let fuel = lower_same (suc x / 2) (y / 2) (suc x / 2) x (omega arith) (omega arith) in
    omega (arith, fuel, part, whole)

-- A mask of ones keeps a word.
bit_and-ones : (w a : ℕ) → a < 2 ^ w → bit_and a (2 ^ w - 1) ≡ a
bit_and-ones zero a h = let none_left : a ≡ 0 = omega arith in rw none_left (bit_and-zero_left 0)
bit_and-ones (suc w) a h =
    let half : (2 ^ suc w - 1) / 2 ≡ 2 ^ w - 1 =
      omega (arith, pow-suc 2 w, one-le-pow w 2 (omega arith)) in
    let rec : bit_and (a / 2) ((2 ^ suc w - 1) / 2) ≡ a / 2 =
      rw half (bit_and-ones w (a / 2) (omega (arith, pow-suc 2 w))) in
    omega (arith, bit_and_halves a (2 ^ suc w - 1), rec, pow-suc 2 w, one-le-pow w 2 (omega arith))

div-pow-suc : (k a : ℕ) → a / 2 ^ suc k ≡ a / 2 / 2 ^ k
div-pow-suc k a = rw (pow-succ' 2 k) (sym (div-div-eq-div-mul a 2 (2 ^ k)))

-- A mask that clears the low `k` bits rounds down to a multiple of 2 ^ k.
pub bit_and-high :
    (k j a : ℕ) → a < 2 ^ j * 2 ^ k → bit_and a (2 ^ j * 2 ^ k - 2 ^ k) ≡ a / 2 ^ k * 2 ^ k
bit_and-high zero j a h =
    rw (mul-one (2 ^ j), div-one a, mul-one a) (bit_and-ones j a (rw mul-one at h))
bit_and-high (suc k) j a h =
    let p = pow-suc 2 k in
    let bound : a / 2 < 2 ^ j * 2 ^ k = omega (arith, ap (λ (t : ℕ). 2 ^ j * t) p) in
    let half : (2 ^ j * 2 ^ suc k - 2 ^ suc k) / 2 ≡ 2 ^ j * 2 ^ k - 2 ^ k =
      omega (arith, ap (λ (t : ℕ). 2 ^ j * t) p, p) in
    let rec : bit_and (a / 2) ((2 ^ j * 2 ^ suc k - 2 ^ suc k) / 2) ≡ a / 2 / 2 ^ k * 2 ^ k =
      rw half (bit_and-high k j (a / 2) bound) in
    let double : a / 2 ^ suc k * 2 ^ suc k ≡ a / 2 / 2 ^ k * 2 ^ k * 2 =
      rw (div-pow-suc k a, p) (sym (mul_assoc (a / 2 / 2 ^ k) (2 ^ k) 2)) in
    omega (
      arith,
      bit_and_halves a (2 ^ j * 2 ^ suc k - 2 ^ suc k),
      rec,
      double,
      p,
      ap (λ (t : ℕ). 2 ^ j * t) p,
    )

pub pow-add : (j k : ℕ) → 2 ^ (j + k) ≡ 2 ^ j * 2 ^ k
pow-add j zero = rw (add-zero j) (sym (mul-one (2 ^ j)))
pow-add j (suc k) =
    let shift : j + suc k ≡ suc (j + k) = omega arith in
    rw (shift, pow-suc 2 (j + k), pow-suc 2 k, pow-add j k) (mul_assoc (2 ^ j) (2 ^ k) 2)

-- `value & !(alignment - 1)`.
unfoldable pub align_down : ℕ → ℕ → ℕ
align_down value alignment = bit_and value (not64 (alignment - 1))

pub exponents : (n j k : ℕ) → n ≡ j + k → 2 ^ n ≡ 2 ^ j * 2 ^ k
exponents n j k e = rw e (pow-add j k)

-- The alignments that the code is given: powers of two up to the word.
abbrev pub IsPower : ℕ → Type 0
IsPower a = (k : ℕ) × (k ≤ 64) × (a ≡ 2 ^ k)

pub is_power_of_two-IsPower : (n : ℕ) → is_power_of_two n ≡ true → IsPower n
is_power_of_two-IsPower n h =
    let (k, below, eq) = is_power_of_two_exponent n h in (k, omega arith, eq)

-- For a power of two the mask rounds down to a multiple.
pub align_down_lem :
    (value alignment : ℕ)
    → IsPower alignment
    → value < u64_mod
    → align_down value alignment ≡ value / alignment * alignment
unfolding align_down
align_down_lem value alignment (k, below, eq) small =
    let whole : 64 ≡ 64 - k + k = omega arith in
    let split : 2 ^ 64 ≡ 2 ^ (64 - k) * 2 ^ k = exponents 64 (64 - k) k whole in
    let mask : not64 (alignment - 1) ≡ 2 ^ (64 - k) * 2 ^ k - 2 ^ k =
      omega (arith, split, eq, one-le-pow k 2 (omega arith)) in
    rw (mask, eq) (bit_and-high k (64 - k) value (omega (arith, split)))

-- `align_up`: the next multiple, or `None` where the addition overflows.
unfoldable pub align_up : ℕ → ℕ → Option ℕ
unfolding align_down
align_up value alignment =
    Option.map (λ rounded. bit_and rounded (not64 (alignment - 1)))
      (checked_add value (alignment - 1))

pub IsPower-pos : {a : ℕ} → IsPower a → 0 < a
IsPower-pos {a} (k, below, eq) = omega (arith, eq, one-le-pow k 2 (omega arith))

-- What `align_up` promises: a multiple, at or above the value, less than one step away.
abbrev pub AlignedUp : ℕ → ℕ → Option ℕ → Type 0
AlignedUp value alignment none = u64_mod ≤ value + alignment - 1
AlignedUp value alignment (some s) =
    (value ≤ s) × (s < value + alignment) × (s < u64_mod) × ((q : ℕ) × (s ≡ q * alignment))

rounding :
    (value alignment : ℕ)
    → 0 < alignment
    → value + (alignment - 1) < u64_mod
    → AlignedUp value alignment (some ((value + (alignment - 1)) / alignment * alignment))
rounding value alignment pos small =
    let sum = value + (alignment - 1) in
    let whole = div-add-mod' sum alignment in
    let part = mod-lt sum {m = alignment} pos in
    (omega arith, omega arith, omega arith, (sum / alignment, refl))

pub align_up-AlignedUp :
    (value alignment : ℕ) → IsPower alignment → AlignedUp value alignment (align_up value alignment)
unfolding align_up align_down
align_up-AlignedUp value alignment power =
    let sum = value + (alignment - 1) in
    let pos = IsPower-pos {a = alignment} power in
    elim (Bool-cases (ltb sum u64_mod)) [
      | inl fits ↦
          rw (fits, align_down_lem sum alignment power (ltb→lt _ _ fits))
            (rounding value alignment pos (ltb→lt _ _ fits))
      | inr over ↦ rw over (ground arith)
    ]

-- What a checked operation returns.
pub checked_add-inv : (a b sum : ℕ) → checked_add a b ≡ some sum → a + b ≡ sum
checked_add-inv a b sum h = elim (Bool-cases (ltb (a + b) u64_mod)) [
  | inl small ↦ let h' : some (a + b) ≡ some sum = rw small at h in cc
  | inr over ↦ let h' : ◌≡◌ {A = Option ℕ} none (some sum) = rw over at h in absurd (cc)
]

pub checked_mul-inv : (a b product : ℕ) → checked_mul a b ≡ some product → a * b ≡ product
checked_mul-inv a b product h = elim (Bool-cases (ltb (a * b) u64_mod)) [
  | inl small ↦ let h' : some (a * b) ≡ some product = rw small at h in cc
  | inr over ↦ let h' : ◌≡◌ {A = Option ℕ} none (some product) = rw over at h in absurd (cc)
]
