-- ===== src/Psf/Tests.antt =====
-- A font of two glyphs of eight by two pixels, and one with a Unicode table.
use generic_kernel.Common.{ℕ, ◌≡◌, refl, Bool, true, List, [], ◌∷◌, ◌++◌, some, ok, err}
use generic_kernel.Bytes.{to_le}
use generic_kernel.Psf.{
  PsfError, Psf2Font, GlyphSearch, parse_font, pixel, glyph_index, unicode_glyph_index, find_glyph,
  spells, utf8_sequence_len, psf2_magic,
}
use generic_kernel.Psf.Bounds.{pixel-returns}

abbrev word : ℕ → List ℕ
word = to_le 4

-- The header of a font: its flags, and the rest of the file.
abbrev font_file : ℕ → List ℕ → List ℕ
font_file flags rest =
    word psf2_magic
    ++ word 0
    ++ word 32
    ++ word flags
    ++ word 2
    ++ word 2
    ++ word 2
    ++ word 8
    ++ rest

abbrev glyphs : List ℕ
glyphs = 128 ∷ 0 ∷ 1 ∷ 255 ∷ []

abbrev small_font : Psf2Font
small_font = record {
  bytes = font_file 1 (glyphs ++ (b'A' ∷ 255 ∷ 195 ∷ 169 ∷ 255 ∷ []));
  header_size = 32;
  glyph_count = 2;
  char_size = 2;
  height = 2;
  width = 8;
  bytes_per_row = 1;
  flags = 1;
  glyph_data_end = 36;
}

small_font-parsed : parse_font small_font.bytes ≡ ok small_font
unfolding parse_font to_le
small_font-parsed = refl

-- Glyph 1 stands for U+00E9, by the table.
accented : glyph_index small_font 233 ≡ some 1
unfolding glyph_index unicode_glyph_index find_glyph spells utf8_sequence_len to_le
accented = refl

lit : pixel small_font 233 7 0 ≡ some true
unfolding pixel glyph_index unicode_glyph_index find_glyph spells utf8_sequence_len to_le
lit = refl

truncated : parse_font (font_file 0 (1 ∷ 2 ∷ 3 ∷ [])) ≡ err PsfError.truncated_glyph_data
unfolding parse_font to_le
truncated = refl

pixel-returns_example : (b : Bool) × (pixel small_font 233 7 0 ≡ some b)
pixel-returns_example = pixel-returns small_font.bytes small_font 233 7 0 small_font-parsed

-- A search with too few rounds is told from one that finds nothing.
no_rounds : find_glyph 1 2 (254 ∷ []) 65 0 0 ≡ GlyphSearch.out_of_fuel
unfolding find_glyph
no_rounds = refl

no_glyph : find_glyph 2 2 (254 ∷ []) 65 0 0 ≡ GlyphSearch.missing
unfolding find_glyph
no_glyph = refl
