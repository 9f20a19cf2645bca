-- ===== src/Psf.antt =====
-- crates/kernel-core/src/psf.rs: PSF2 bitmap fonts. An index out of bounds, which panics, is `none`.
pub mod Bounds
pub mod Fuel
mod Tests
use generic_kernel.Common.{
  ℕ, zero, suc, ◌+◌, ◌*◌, ◌/◌, ◌%◌, ◌^◌, ◌-◌, Bool, true, false, not, ◌&&◌, ◌||◌, List, [], ◌∷◌,
  Option, none, some, Result, ok, err, ok_or, refuse_if, ◌>>=◌, ◌>>◌, leb, ltb, ◌==◌, if◌then◌else◌,
  length, checked_add, checked_mul, bit_and, get_elem?, drop,
}
use generic_kernel.Bytes.{slice, from_le, is_utf8}

pub data PsfError : Type 0 where
  too_small bad_magic unsupported_version invalid_header invalid_dimensions invalid_glyph_count
        invalid_char_size truncated_glyph_data :
      PsfError

pub record Psf2Font : Type 0 where
  pub bytes : List ℕ
  pub header_size : ℕ
  pub glyph_count : ℕ
  pub char_size : ℕ
  pub height : ℕ
  pub width : ℕ
  pub bytes_per_row : ℕ
  pub flags : ℕ
  pub glyph_data_end : ℕ

abbrev pub psf2_header_size : ℕ
psf2_header_size = 32

abbrev pub psf2_magic : ℕ
psf2_magic = 2253043058

abbrev pub max_dimension : ℕ
max_dimension = 64

abbrev pub max_glyphs : ℕ
max_glyphs = 65536

-- `read_u32`, at the offsets of the header, which `parse` knows to be there.
unfoldable pub read_u32 : List ℕ → ℕ → ℕ
unfolding from_le
read_u32 file offset = from_le (slice offset 4 file)

-- `width.div_ceil(8)`.
abbrev pub row_bytes : ℕ → ℕ
row_bytes width = (width + 7) / 8

-- The part of `parse` after the fields of the header are read.
unfoldable pub font_of : List ℕ → ℕ → ℕ → ℕ → ℕ → ℕ → ℕ → Result PsfError Psf2Font
font_of file header_size flags glyph_count char_size height width = do
  refuse_if (ltb header_size psf2_header_size || ltb (length file) header_size)
      PsfError.invalid_header
  refuse_if (width == 0 || height == 0 || ltb max_dimension width || ltb max_dimension height)
      PsfError.invalid_dimensions
  refuse_if (glyph_count == 0 || ltb max_glyphs glyph_count) PsfError.invalid_glyph_count
  minimum_char_size ← ok_or (checked_mul (row_bytes width) height) PsfError.invalid_char_size
  refuse_if (ltb char_size minimum_char_size) PsfError.invalid_char_size
  glyph_bytes ← ok_or (checked_mul glyph_count char_size) PsfError.truncated_glyph_data
  glyph_data_end ← ok_or (checked_add header_size glyph_bytes) PsfError.truncated_glyph_data
  refuse_if (ltb (length file) glyph_data_end) PsfError.truncated_glyph_data
  ok (record {
    bytes = file;
    header_size = header_size;
    glyph_count = glyph_count;
    char_size = char_size;
    height = height;
    width = width;
    bytes_per_row = row_bytes width;
    flags = flags;
    glyph_data_end = glyph_data_end;
  })

unfoldable pub parse_font : List ℕ → Result PsfError Psf2Font
unfolding read_u32 font_of
parse_font file = do
  refuse_if (ltb (length file) psf2_header_size) PsfError.too_small
  refuse_if (not (read_u32 file 0 == psf2_magic)) PsfError.bad_magic
  refuse_if (not (read_u32 file 4 == 0)) PsfError.unsupported_version
  font_of file (read_u32 file 8) (read_u32 file 12) (read_u32 file 16) (read_u32 file 20)
      (read_u32 file 24) (read_u32 file 28)

abbrev pub in_range : ℕ → ℕ → ℕ → Bool
in_range lo hi b = leb lo b && leb b hi

-- `utf8_sequence_len`.
unfoldable pub utf8_sequence_len : ℕ → Option ℕ
utf8_sequence_len first =
    if leb first 127
    then some 1
    else if in_range 194 223 first
    then some 2
    else if in_range 224 239 first
    then some 3
    else if in_range 240 244 first
    then some 4
    else none

-- `text.chars().next()` on a text of one character: its code point.
unfoldable pub first_char : List ℕ → Option ℕ
first_char [] = none
first_char (a ∷ []) = some a
first_char (a ∷ b ∷ []) = some ((a % 32) * 64 + b % 64)
first_char (a ∷ b ∷ c ∷ []) = some ((a % 16) * 4096 + (b % 64) * 64 + c % 64)
first_char (a ∷ b ∷ c ∷ d ∷ rest) =
    some ((a % 8) * 262144 + (b % 64) * 4096 + (c % 64) * 64 + d % 64)

abbrev pub is_some_of : ℕ → Option ℕ → Bool
is_some_of n none = false
is_some_of n (some m) = m == n

-- `str::from_utf8(bytes)` holds the character first.
unfoldable pub spells : List ℕ → ℕ → Bool
unfolding is_utf8 first_char
spells text character = is_utf8 text && is_some_of character (first_char text)

-- What the search of the Unicode table comes to: a glyph, no glyph (`None`), the panic of an index out of
-- bounds, or the end of the fuel.
pub data GlyphSearch : Type 0 where
  found : ℕ → GlyphSearch
  missing out_of_bounds out_of_fuel : GlyphSearch

-- One round of the loop from the width of the character on, with the rest of the loop for the glyph and
-- the position that follow.
abbrev pub wide_round : (ℕ → ℕ → GlyphSearch) → List ℕ → ℕ → ℕ → ℕ → Option ℕ → GlyphSearch
wide_round rest table character glyph position none = missing
wide_round rest table character glyph position (some width) =
    elim (leb (position + width) (length table)) [
      | false ↦ missing
      | true ↦ elim (spells (slice position width table) character) [
        | true ↦ found glyph
        | false ↦ rest glyph (position + width)
      ]
    ]

-- One round from `table[position]` on.
abbrev pub byte_round : (ℕ → ℕ → GlyphSearch) → List ℕ → ℕ → ℕ → ℕ → Option ℕ → GlyphSearch
byte_round rest table character glyph position none = out_of_bounds
byte_round rest table character glyph position (some byte) = elim (byte == 255) [
  | true ↦ rest (suc glyph) (suc position)
  | false ↦ elim (byte == 254) [
    | true ↦ rest glyph (suc position)
    | false ↦ wide_round rest table character glyph position (utf8_sequence_len byte)
  ]
]

-- The loop of `unicode_glyph_index`, with fuel for the tests of its condition.
unfoldable pub find_glyph : ℕ → ℕ → List ℕ → ℕ → ℕ → ℕ → GlyphSearch
find_glyph zero glyph_count table character glyph position = out_of_fuel
find_glyph (suc rounds) glyph_count table character glyph position =
    elim (ltb glyph glyph_count && ltb position (length table)) [
      | false ↦ missing
      | true ↦
          byte_round (find_glyph rounds glyph_count table character) table character glyph position
            (get_elem? table position)
    ]

-- Each round moves on by a byte or more, so one test for each byte and the last one are enough.
unfoldable pub unicode_glyph_index : Psf2Font → ℕ → GlyphSearch
unicode_glyph_index font character =
    let table = drop font.glyph_data_end font.bytes in
    if ltb (length font.bytes) font.glyph_data_end
    then missing
    else find_glyph (suc (length table)) font.glyph_count table character 0 0

-- The glyph of a character that the table does not have: its code, '?', or the first one.
abbrev pub direct_index : ℕ → ℕ → ℕ
direct_index glyph_count character =
    if ltb character glyph_count then character else if ltb 63 glyph_count then 63 else 0

abbrev pub or_direct : GlyphSearch → ℕ → ℕ → Option ℕ
or_direct (found index) glyph_count character = some index
or_direct missing glyph_count character = some (direct_index glyph_count character)
or_direct out_of_bounds glyph_count character = none
or_direct out_of_fuel glyph_count character = none

-- `none` is a panic, or the end of the fuel of the search.
unfoldable pub glyph_index : Psf2Font → ℕ → Option ℕ
glyph_index font character =
    if not (bit_and font.flags 1 == 0)
    then or_direct (unicode_glyph_index font character) font.glyph_count character
    else some (direct_index font.glyph_count character)

-- `byte & (0x80 >> (x % 8)) != 0` on the byte that was read.
abbrev pub bit_of : Option ℕ → ℕ → Option Bool
bit_of none x = none
bit_of (some byte) x = some (not (bit_and byte (2 ^ (7 - x % 8)) == 0))

-- The pixel of a glyph, from `self.data[row + x / 8]` on.
abbrev pub pixel_of : Psf2Font → ℕ → ℕ → Option ℕ → Option Bool
pixel_of font x y none = none
pixel_of font x y (some glyph) =
    bit_of
      (get_elem? font.bytes
        (font.header_size + glyph * font.char_size + y * font.bytes_per_row + x / 8))
      x

unfoldable pub pixel : Psf2Font → ℕ → ℕ → ℕ → Option Bool
pixel font character x y =
    if leb font.width x || leb font.height y
    then some false
    else pixel_of font x y (glyph_index font character)
