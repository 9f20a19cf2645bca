-- ===== src/Bytes.antt =====
-- Byte buffers: slices, writes into a slice, little-endian words (`from_le_bytes`, `to_le_bytes`), and
-- the UTF-8 check of `core::str::from_utf8`.
pub mod Slices
pub mod Little
use generic_kernel.Common.{
  ℕ, zero, suc, ◌+◌, ◌-◌, ◌*◌, ◌/◌, ◌%◌, Bool, true, false, ◌&&◌, ◌||◌, List, [], ◌∷◌, leb, ltb,
  ◌==◌, if◌then◌else◌, take, drop,
}

-- `&buffer[offset..offset + n]`.
abbrev pub slice : ℕ → ℕ → List ℕ → List ℕ
slice offset n buffer = take n (drop offset buffer)

-- `buffer[offset..offset + source.len()].copy_from_slice(source)`.
unfoldable pub write_at : ℕ → List ℕ → List ℕ → List ℕ
write_at offset source [] = []
write_at zero [] (b ∷ buffer) = b ∷ buffer
write_at zero (s ∷ source) (b ∷ buffer) = s ∷ write_at zero source buffer
write_at (suc offset) source (b ∷ buffer) = b ∷ write_at offset source buffer

-- `value.to_le_bytes()` at a width of `n` bytes, and back.
unfoldable pub to_le : ℕ → ℕ → List ℕ
to_le zero value = []
to_le (suc n) value = value % 256 ∷ to_le n (value / 256)

unfoldable pub from_le : List ℕ → ℕ
from_le [] = 0
from_le (b ∷ bytes) = b + 256 * from_le bytes

abbrev pub between : ℕ → ℕ → ℕ → Bool
between lo hi b = leb lo b && leb b hi

-- The second byte that may follow a lead byte of three or four bytes.
abbrev pub second_of_three : ℕ → ℕ → Bool
second_of_three a b =
    if a == 0xe0
    then between 0xa0 0xbf b
    else if a == 0xed
    then between 0x80 0x9f b
    else between 0x80 0xbf b

abbrev pub second_of_four : ℕ → ℕ → Bool
second_of_four a b =
    if a == 0xf0
    then between 0x90 0xbf b
    else if a == 0xf4
    then between 0x80 0x8f b
    else between 0x80 0xbf b

unfoldable pub is_utf8 : List ℕ → Bool
is_utf8 [] = true
is_utf8 (a ∷ []) = ltb a 0x80
is_utf8 (a ∷ b ∷ []) = if ltb a 0x80 then ltb b 0x80 else between 0xc2 0xdf a && between 0x80 0xbf b
is_utf8 (a ∷ b ∷ c ∷ []) =
    if ltb a 0x80
    then is_utf8 (b ∷ c ∷ [])
    else if between 0xc2 0xdf a
    then between 0x80 0xbf b && ltb c 0x80
    else between 0xe0 0xef a && second_of_three a b && between 0x80 0xbf c
is_utf8 (a ∷ b ∷ c ∷ d ∷ rest) = elim (ltb a 0x80) [
  | true ↦ is_utf8 (b ∷ c ∷ d ∷ rest)
  | false ↦ elim (between 0xc2 0xdf a) [
    | true ↦ elim (between 0x80 0xbf b) [ true ↦ is_utf8 (c ∷ d ∷ rest) | false ↦ false ]
    | false ↦ elim (between 0xe0 0xef a && second_of_three a b && between 0x80 0xbf c) [
      | true ↦ is_utf8 (d ∷ rest)
      | false ↦
          elim (between 0xf0 0xf4 a
            && second_of_four a b
            && between 0x80 0xbf c
            && between 0x80 0xbf d) [ true ↦ is_utf8 rest | false ↦ false ]
    ]
  ]
]
