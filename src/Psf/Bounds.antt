-- ===== src/Psf/Bounds.antt =====
-- `pixel` of psf.rs never reads out of bounds, for a font that `parse` has accepted.
use generic_kernel.Common.{
  ℕ, suc, ◌+◌, ◌*◌, ◌/◌, ◌%◌, ◌-◌, ◌^◌, ◌≤◌, ◌<◌, ◌≡◌, refl, subst, Bool, false, not, ◌||◌, List,
  Option, some, ok, refuse_if-ok, ok_or-ok, or-inv, checked_add-inv, checked_mul-inv, ok-injective,
  ltb, leb, ◌==◌, length, checked_add, checked_mul, arith, Bool-cases, inl, inr, bit_and, drop,
}
use native.Mathlib.Nat.{mul-le-mul_right, mul_comm, suc-mul}
use generic_kernel.Psf.Fuel.{Returns, find_glyph-Returns}
use generic_kernel.Tasks.Lookup.{lt-get_elem?}
use generic_kernel.Psf.{
  PsfError, Psf2Font, font_of, parse_font, row_bytes, psf2_header_size, max_dimension, max_glyphs,
  GlyphSearch, found, missing, out_of_bounds, out_of_fuel, unicode_glyph_index, glyph_index,
  direct_index, or_direct, pixel, read_u32,
}

-- The glyphs of a font lie in its file.
pub record IsFont (f : Psf2Font) : Type 0 where
  pub glyphs : 0 < f.glyph_count
  pub rows : f.bytes_per_row ≡ row_bytes f.width
  pub glyph_room : f.bytes_per_row * f.height ≤ f.char_size
  pub file_room : f.header_size + f.glyph_count * f.char_size ≤ length f.bytes

font_of-IsFont :
    (file : List ℕ) (header_size flags glyph_count char_size height width : ℕ) (f : Psf2Font)
    → font_of file header_size flags glyph_count char_size height width ≡ ok f
    → IsFont f
unfolding font_of
font_of-IsFont file header_size flags glyph_count char_size height width f h =
    let (r1, h1) =
      refuse_if-ok (ltb header_size psf2_header_size || ltb (length file) header_size)
        PsfError.invalid_header _ f h in
    let (r2, h2) =
      refuse_if-ok
        (width == 0 || height == 0 || ltb max_dimension width || ltb max_dimension height)
        PsfError.invalid_dimensions _ f h1 in
    let (r3, h3) =
      refuse_if-ok (glyph_count == 0 || ltb max_glyphs glyph_count) PsfError.invalid_glyph_count _ f
        h2 in
    let (least, e4, h4) =
      ok_or-ok (checked_mul (row_bytes width) height) PsfError.invalid_char_size _ f h3 in
    let (r5, h5) = refuse_if-ok (ltb char_size least) PsfError.invalid_char_size _ f h4 in
    let (glyph_bytes, e6, h6) =
      ok_or-ok (checked_mul glyph_count char_size) PsfError.truncated_glyph_data _ f h5 in
    let (end, e7, h7) =
      ok_or-ok (checked_add header_size glyph_bytes) PsfError.truncated_glyph_data _ f h6 in
    let (r8, h8) = refuse_if-ok (ltb (length file) end) PsfError.truncated_glyph_data _ f h7 in
    let (no_glyph, few) = or-inv (glyph_count == 0) (ltb max_glyphs glyph_count) r3 in
    let row : row_bytes width * height ≡ least =
      checked_mul-inv (row_bytes width) height least e4 in
    let glyphs : glyph_count * char_size ≡ glyph_bytes =
      checked_mul-inv glyph_count char_size glyph_bytes e6 in
    let total : header_size + glyph_bytes ≡ end = checked_add-inv header_size glyph_bytes end e7 in
    let enough : least ≤ char_size = ground (arith, r5) in
    let room : end ≤ length file = ground (arith, r8) in
    subst IsFont (ok-injective {E = PsfError} _ f h8) (record {
      glyphs = ground (arith, no_glyph);
      rows = refl;
      glyph_room = omega (arith, row, enough);
      file_room = omega (arith, glyphs, total, room);
    })

parse_font-IsFont : (file : List ℕ) (f : Psf2Font) → parse_font file ≡ ok f → IsFont f
unfolding parse_font
parse_font-IsFont file f h =
    let (r1, h1) = refuse_if-ok _ PsfError.too_small _ f h in
    let (r2, h2) = refuse_if-ok _ PsfError.bad_magic _ f h1 in
    let (r3, h3) = refuse_if-ok _ PsfError.unsupported_version _ f h2 in
    font_of-IsFont file (read_u32 file 8) (read_u32 file 12) (read_u32 file 16) (read_u32 file 20)
      (read_u32 file 24) (read_u32 file 28) f h3

unicode_glyph_index-Returns :
    (f : Psf2Font) (character : ℕ) → Returns f.glyph_count (unicode_glyph_index f character)
unfolding unicode_glyph_index
unicode_glyph_index-Returns f character =
    elim (Bool-cases (ltb (length f.bytes) f.glyph_data_end)) [
      | inl short ↦ rw (short, Returns) tt
      | inr long ↦
          let table : List ℕ = drop f.glyph_data_end f.bytes in
          rw long (
            find_glyph-Returns (suc (length table)) f.glyph_count table character 0 0 (omega arith)
              (omega arith))
    ]

direct_index-lt : (n character : ℕ) → 0 < n → direct_index n character < n
direct_index-lt n character some_glyph = ground arith

-- The glyph that is drawn is one of the font.
abbrev IsGlyph : ℕ → Option ℕ → Type 0
IsGlyph n o = (glyph : ℕ) × (o ≡ some glyph) × (glyph < n)

or_direct-IsGlyph :
    (n character : ℕ) (o : GlyphSearch) → 0 < n → Returns n o → IsGlyph n (or_direct o n character)
or_direct-IsGlyph n character (found glyph) some_glyph low = (glyph, refl, low)
or_direct-IsGlyph n character missing some_glyph low =
    (direct_index n character, refl, direct_index-lt n character some_glyph)
or_direct-IsGlyph n character out_of_bounds some_glyph low = absurd low
or_direct-IsGlyph n character out_of_fuel some_glyph low = absurd low

glyph_index-IsGlyph :
    (f : Psf2Font) (character : ℕ) → IsFont f → IsGlyph f.glyph_count (glyph_index f character)
unfolding glyph_index
glyph_index-IsGlyph f character v = elim (Bool-cases (bit_and f.flags 1 == 0)) [
  | inl plain ↦
      rw plain (
        direct_index f.glyph_count character,
        refl,
        direct_index-lt f.glyph_count character v.glyphs,
      )
  | inr unicode ↦ rw unicode (
      or_direct-IsGlyph f.glyph_count character (unicode_glyph_index f character) v.glyphs
        (unicode_glyph_index-Returns f character))
]

-- The byte of a pixel lies in the glyphs of the file.
place-lt :
    (f : Psf2Font) (glyph x y : ℕ)
    → IsFont f
    → glyph < f.glyph_count
    → x < f.width
    → y < f.height
    → f.header_size + glyph * f.char_size + y * f.bytes_per_row + x / 8 < length f.bytes
place-lt f glyph x y v low left up =
    let column : x / 8 < f.bytes_per_row = omega (arith, v.rows) in
    let row : suc y * f.bytes_per_row ≤ f.height * f.bytes_per_row =
      mul-le-mul_right f.bytes_per_row up in
    let whole : suc glyph * f.char_size ≤ f.glyph_count * f.char_size =
      mul-le-mul_right f.char_size low in
    let row' : suc y * f.bytes_per_row ≡ y * f.bytes_per_row + f.bytes_per_row =
      suc-mul y f.bytes_per_row in
    let whole' : suc glyph * f.char_size ≡ glyph * f.char_size + f.char_size =
      suc-mul glyph f.char_size in
    let swap : f.height * f.bytes_per_row ≡ f.bytes_per_row * f.height =
      mul_comm f.height f.bytes_per_row in
    omega (arith, v.glyph_room, v.file_room)

-- `pixel` returns for every character and every coordinate, on a font that `parse` has accepted: its
-- search of the Unicode table ends, and no read of the table or of the glyphs is out of bounds.
pub pixel-returns :
    (file : List ℕ) (f : Psf2Font) (character x y : ℕ)
    → parse_font file ≡ ok f
    → (b : Bool) × (pixel f character x y ≡ some b)
unfolding pixel
pixel-returns file f character x y h =
    let v = parse_font-IsFont file f h in
    elim (Bool-cases (leb f.width x || leb f.height y)) [
      | inl outside ↦ (false, rw outside refl)
      | inr inside ↦
          let (left, up) = or-inv (leb f.width x) (leb f.height y) inside in
          let (glyph, drawn, low) = glyph_index-IsGlyph f character v in
          let (byte, there) =
            lt-get_elem? f.bytes (f.header_size + glyph * f.char_size + y * f.bytes_per_row + x / 8)
              (place-lt f glyph x y v low (ground arith) (ground arith)) in
          (not (bit_and byte (2 ^ (7 - x % 8)) == 0), rw (inside, drawn, there) refl)
    ]
