-- ===== src/Psf/Fuel.antt =====
-- The search of the Unicode table of psf.rs ends, reads inside the table and finds glyphs of the font.
use generic_kernel.Common.{
  ℕ, zero, suc, ◌+◌, ◌≤◌, ◌<◌, Bool, true, false, ◌&&◌, List, Option, none, some, ltb, leb, ◌==◌,
  if◌then◌else◌, length, arith, Bool-cases, inl, inr,
}
use generic_kernel.Bytes.{slice}
use generic_kernel.Tasks.Lookup.{lt-get_elem?}
use generic_kernel.Psf.{
  GlyphSearch, found, missing, out_of_bounds, out_of_fuel, find_glyph, byte_round, wide_round,
  utf8_sequence_len, spells,
}

abbrev Positive : Option ℕ → Type 0
Positive none = Unit {0}
Positive (some n) = 0 < n

utf8_sequence_len-Positive : (b : ℕ) → Positive (utf8_sequence_len b)
unfolding utf8_sequence_len
utf8_sequence_len-Positive b =
    go (leb b 127) (leb 194 b && leb b 223) (leb 224 b && leb b 239) (leb 240 b && leb b 244)
  where
    go :
        (w x y z : Bool)
        → Positive (
            if w
            then some 1
            else if x
            then some 2
            else if y
            then some 3
            else if z
            then some 4
            else none)
    go true x y z = omega arith
    go false true y z = omega arith
    go false false true z = omega arith
    go false false false true = omega arith
    go false false false false = tt

-- The search came to an end without a panic, and a glyph that it found is one of the `n` of the font.
abbrev pub Returns : ℕ → GlyphSearch → Type 0
Returns n (found glyph) = glyph < n
Returns n missing = Unit {0}
Returns n out_of_bounds = ⊥
Returns n out_of_fuel = ⊥

module _ (n : ℕ) (table : List ℕ) (character glyph position : ℕ) (rest : ℕ → ℕ → GlyphSearch)
    (low : glyph < n) (in_table : position < length table)
    (later : (i p : ℕ) → position < p → p ≤ length table → Returns n (rest i p)) where
  wide_round-Returns :
      (size : Option ℕ)
      → Positive size
      → Returns n (wide_round rest table character glyph position size)
  wide_round-Returns none pos = tt
  wide_round-Returns (some width) pos = elim (Bool-cases (leb (position + width) (length table))) [
    | inr out ↦ rw (out, Returns) tt
    | inl inside ↦ elim (Bool-cases (spells (slice position width table) character)) [
      | inl here ↦ rw (inside, here, Returns) low
      | inr other ↦
          rw (inside, other, Returns)
            (later glyph (position + width) (omega arith) (ground (arith, inside)))
    ]
  ]

  byte_round-Returns :
      (byte : ℕ) → Returns n (byte_round rest table character glyph position (some byte))
  byte_round-Returns byte = elim (Bool-cases (byte == 255)) [
    | inl end ↦ rw (end, Returns) (later (suc glyph) (suc position) (omega arith) (omega arith))
    | inr glyph_goes_on ↦ elim (Bool-cases (byte == 254)) [
      | inl skip ↦
          rw (glyph_goes_on, skip, Returns) (later glyph (suc position) (omega arith) (omega arith))
      | inr text ↦
          rw (glyph_goes_on, text, Returns)
            (wide_round-Returns (utf8_sequence_len byte) (utf8_sequence_len-Positive byte))
    ]
  ]

-- With more rounds than the table has bytes left the search returns.
pub find_glyph-Returns :
    (rounds n : ℕ) (table : List ℕ) (character glyph position : ℕ)
    → length table < position + rounds
    → position ≤ length table
    → Returns n (find_glyph rounds n table character glyph position)
unfolding find_glyph
find_glyph-Returns zero n table character glyph position enough inside = absurd (omega arith)
find_glyph-Returns (suc rounds) n table character glyph position enough inside =
    elim (Bool-cases (ltb glyph n && ltb position (length table))) [
      | inr over ↦ rw (over, Returns) tt
      | inl more ↦
          let (byte, there) = lt-get_elem? table position (ground (arith, more)) in
          rw (more, there, Returns)
            (byte_round-Returns n table character glyph position
              (find_glyph rounds n table character) (ground (arith, more)) (ground (arith, more))
              (λ i p after within.
                find_glyph-Returns rounds n table character i p (omega arith) within)
              byte)
    ]
