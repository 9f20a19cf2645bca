-- ===== src/Bytes/Little.antt =====
-- Little-endian words: the round trip at every width.
use generic_kernel.Common.{ℕ, zero, suc, ◌/◌, ◌^◌, ◌<◌, ◌≡◌, refl, ap, arith, length}
use native.Mathlib.Nat.{pow-suc}
use generic_kernel.Bytes.{to_le, from_le}

pub length-to_le : (n value : ℕ) → length (to_le n value) ≡ n
unfolding to_le
length-to_le zero value = refl
length-to_le (suc n) value = ap suc (length-to_le n (value / 256))

pub from_le-to_le : (n value : ℕ) → value < 256 ^ n → from_le (to_le n value) ≡ value
unfolding from_le to_le
from_le-to_le zero value h = omega arith
from_le-to_le (suc n) value h =
    omega (arith, from_le-to_le n (value / 256) (omega (arith, pow-suc 256 n)))
