-- ===== src/PageTables/Words.antt =====
-- A table of 2 ^ n words, as a tree.
use generic_kernel.Common.{
  ℕ, zero, suc, ◌/◌, ◌%◌, ◌^◌, ◌<◌, ◌≡◌, ◌≢◌, inl, inr, refl, Bool, true, false, ◌==◌,
  if◌then◌else◌, Bool-cases, arith,
}
use native.Mathlib.Nat.{pow-suc}

-- 2 ^ n words, told apart by the bits of their index from the lowest on.
abbrev pub Table : ℕ → Type 0
Table zero = ℕ
Table (suc n) = Table n × Table n

unfoldable pub blank : (n : ℕ) → Table n
blank zero = 0
blank (suc n) = (blank n, blank n)

unfoldable pub get : (n : ℕ) → Table n → ℕ → ℕ
get zero w i = w
get (suc n) (a, b) i = get n (if i % 2 == 0 then a else b) (i / 2)

abbrev side : (n : ℕ) → Bool → Table n → Table n → Table n → Table n × Table n
side n true a b c = (c, b)
side n false a b c = (a, c)

unfoldable pub put : (n : ℕ) → Table n → ℕ → ℕ → Table n
put zero w i e = e
put (suc n) (a, b) i e = side n (i % 2 == 0) a b (put n (if i % 2 == 0 then a else b) (i / 2) e)

pub get-put : (n : ℕ) (r : Table n) (i e : ℕ) → get n (put n r i e) i ≡ e
unfolding get put
get-put zero w i e = refl
get-put (suc n) (a, b) i e = elim (Bool-cases (i % 2 == 0)) [
  | inl even ↦ rw even (get-put n a (i / 2) e)
  | inr odd ↦ rw odd (get-put n b (i / 2) e)
]

pub get-put_other :
    (n : ℕ) (r : Table n) (i j e : ℕ)
    → i < 2 ^ n
    → j < 2 ^ n
    → j ≢ i
    → get n (put n r i e) j ≡ get n r j
unfolding get put
get-put_other zero w i j e hi hj ne = absurd (ne (omega arith))
get-put_other (suc n) (a, b) i j e hi hj ne =
    let half_i : i / 2 < 2 ^ n = omega (arith, pow-suc 2 n) in
    let half_j : j / 2 < 2 ^ n = omega (arith, pow-suc 2 n) in
    elim (Bool-cases (i % 2 == 0)) [
      | inl i_even ↦ elim (Bool-cases (j % 2 == 0)) [
        | inl j_even ↦
            let apart : j / 2 ≢ i / 2 = λ h. ne (ground arith) in
            rw (i_even, j_even) (get-put_other n a (i / 2) (j / 2) e half_i half_j apart)
        | inr j_odd ↦ rw (i_even, j_odd)
      ]
      | inr i_odd ↦ elim (Bool-cases (j % 2 == 0)) [
        | inl j_even ↦ rw (i_odd, j_even)
        | inr j_odd ↦
            let apart : j / 2 ≢ i / 2 = λ h. ne (ground arith) in
            rw (i_odd, j_odd) (get-put_other n b (i / 2) (j / 2) e half_i half_j apart)
      ]
    ]
