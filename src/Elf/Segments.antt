-- ===== src/Elf/Segments.antt =====
-- The segments of an image that `parse` of elf.rs accepts.
use generic_kernel.Common.{
  ℕ, zero, suc, ◌+◌, ◌*◌, ◌%◌, ◌≤◌, ◌≡◌, ◌≢◌, sym, ap, subst, ◌⊎◌, inl, inr, Bool, true, false, not,
  ◌&&◌, ◌||◌, List, [], ◌∷◌, some, Result, ok, ◌>>=◌, >>=-ok, refuse_if-ok, ok_or-ok, or-inv,
  checked_add-inv, ok-injective, ltb, ◌==◌, length, checked_add, arith, Bool-cases, is_power_of_two,
}
use generic_kernel.Bytes.{slice}
use generic_kernel.Bytes.Slices.{length-slice}
use generic_kernel.Elf.{
  ElfError, LoadSegment, ElfImage, read_le, bad_segment, has_flag, load_segment, segments_from,
  image_of, parse_body, parse, header_end, pt_load, program_header_size,
}

-- The bytes of a segment are bytes of the image at an offset, they fit into its memory, and its address
-- and the offset agree modulo the alignment.
pub record IsSegment (image : List ℕ) (s : LoadSegment) : Type 0 where
  pub offset : ℕ
  pub inside : offset + length s.file_data ≤ length image
  pub contents : s.file_data ≡ slice offset (length s.file_data) image
  pub fits : length s.file_data ≤ s.memory_size
  pub power : (s.alignment ≡ 0) ⊎ (is_power_of_two s.alignment ≡ true)
  pub agree : (s.alignment ≤ 1) ⊎ (s.virtual_address % s.alignment ≡ offset % s.alignment)

abbrev pub All : List ℕ → List LoadSegment → Type 0
All image [] = Unit {0}
All image (s ∷ ss) = IsSegment image s × All image ss

aligned :
    (alignment virtual_address offset : ℕ)
    → (ltb 1 alignment && not (virtual_address % alignment == offset % alignment)) ≡ false
    → (alignment ≤ 1) ⊎ (virtual_address % alignment ≡ offset % alignment)
aligned alignment virtual_address offset h = elim (Bool-cases (ltb 1 alignment)) [
  | inr small ↦ inl (ground arith)
  | inl large ↦ inr (ground arith)
]

powered :
    (alignment : ℕ)
    → (not (alignment == 0) && not (is_power_of_two alignment)) ≡ false
    → (alignment ≡ 0) ⊎ (is_power_of_two alignment ≡ true)
powered alignment h = elim (Bool-cases (is_power_of_two alignment)) [
  | inl yes_it_is ↦ inr yes_it_is
  | inr not_it ↦ inl (ground arith)
]

made :
    (image : List ℕ) (flags offset virtual_address file_size memory_size alignment end : ℕ)
    (s : LoadSegment)
    → bad_segment memory_size file_size alignment virtual_address offset ≡ false
    → checked_add offset file_size ≡ some end
    → ltb (length image) end ≡ false
    → record {
      virtual_address = virtual_address;
      memory_size = memory_size;
      file_data = slice offset file_size image;
      readable = has_flag flags 4;
      writable = has_flag flags 2;
      executable = has_flag flags 1;
      alignment = alignment;
    }
      ≡ s
    → IsSegment image s
made image flags offset virtual_address file_size memory_size alignment end s good sum room same =
    let total : offset + file_size ≡ end = checked_add-inv offset file_size end sum in
    let inside : offset + file_size ≤ length image = ground arith in
    let size : length (slice offset file_size image) ≡ file_size =
      length-slice offset file_size image inside in
    let (first, third) =
      or-inv
        (ltb memory_size file_size || (not (alignment == 0) && not (is_power_of_two alignment))) _
        good in
    let (small, second) = or-inv (ltb memory_size file_size) _ first in
    subst (IsSegment image) same (record {
      offset = offset;
      inside = omega (arith, size);
      contents = ap (λ n. slice offset n image) (sym size);
      fits = ground (arith, size);
      power = powered alignment second;
      agree = aligned alignment virtual_address offset third;
    })

load_segment-IsSegment :
    (image : List ℕ) (base : ℕ) (s : LoadSegment)
    → load_segment image base ≡ ok s
    → IsSegment image s
unfolding load_segment
load_segment-IsSegment image base s h =
    let (flags, e1, h1) = >>=-ok (read_le 4 image (base + 4)) _ h in
    let (offset, e2, h2) = >>=-ok (read_le 8 image (base + 8)) _ h1 in
    let (virtual_address, e3, h3) = >>=-ok (read_le 8 image (base + 16)) _ h2 in
    let (file_size, e4, h4) = >>=-ok (read_le 8 image (base + 32)) _ h3 in
    let (memory_size, e5, h5) = >>=-ok (read_le 8 image (base + 40)) _ h4 in
    let (alignment, e6, h6) = >>=-ok (read_le 8 image (base + 48)) _ h5 in
    let (good, h7) = refuse_if-ok _ ElfError.invalid_segment _ s h6 in
    let (end, sum, h8) =
      ok_or-ok (checked_add offset file_size) ElfError.truncated_segment _ s h7 in
    let (room, h9) = refuse_if-ok _ ElfError.truncated_segment _ s h8 in
    made image flags offset virtual_address file_size memory_size alignment end s good sum room
      (ok-injective {E = ElfError} _ s h9)

segments_from-All :
    (rounds index phoff : ℕ) (image : List ℕ) (ss : List LoadSegment)
    → segments_from rounds index phoff image ≡ ok ss
    → All image ss
unfolding segments_from
segments_from-All zero index phoff image ss h =
    subst (All image) (ok-injective {E = ElfError} [] ss h) tt
segments_from-All (suc rounds) index phoff image ss h =
    let base : ℕ = phoff + index * program_header_size in
    let (kind, e, next) = >>=-ok (read_le 4 image base) _ h in
    go (kind == pt_load) (segments_from-All rounds (suc index) phoff image) next
  where
    go :
        (load : Bool)
        → ((rest : List LoadSegment)
            → segments_from rounds (suc index) phoff image ≡ ok rest
            → All image rest)
        → ◌≡◌ {A = Result ElfError (List LoadSegment)}
            (elim load [
              | false ↦ segments_from rounds (suc index) phoff image
              | true ↦ load_segment image (phoff + index * program_header_size) >>= λ segment.
                  segments_from rounds (suc index) phoff image >>= λ rest. ok (segment ∷ rest)
            ])
            (ok ss)
        → All image ss
    go false rec next = rec ss next
    go true rec next =
        let (segment, made_it, more) =
          >>=-ok (load_segment image (phoff + index * program_header_size)) _ next in
        let (rest, found, last) = >>=-ok (segments_from rounds (suc index) phoff image) _ more in
        subst (All image) (ok-injective {E = ElfError} (segment ∷ rest) ss last) (
          load_segment-IsSegment image (phoff + index * program_header_size) segment made_it,
          rec rest found,
        )

-- An image with a segment or more, every one of them sound, and the entry point of the header.
abbrev pub IsImage : List ℕ → ElfImage → Type 0
IsImage image e = (e.segments ≢ []) × All image e.segments × (read_le 8 image 24 ≡ ok e.entry)

imaged :
    (image : List ℕ) (entry : ℕ) (ss : List LoadSegment) (e : ElfImage)
    → image_of entry ss ≡ ok e
    → All image ss
    → read_le 8 image 24 ≡ ok entry
    → IsImage image e
imaged image entry [] e h all word = absurd (cc)
imaged image entry (s ∷ ss) e h all word =
    subst (IsImage image)
      (ok-injective {E = ElfError} (record { entry = entry; segments = s ∷ ss }) e h)
      (λ none_left. absurd (cc), all, word)

parse_body-IsImage : (image : List ℕ) (e : ElfImage) → parse_body image ≡ ok e → IsImage image e
unfolding parse_body
parse_body-IsImage image e h =
    let (entry, word, h1) = >>=-ok (read_le 8 image 24) _ h in
    let (phoff, e2, h2) = >>=-ok (read_le 8 image 32) _ h1 in
    let (ehsize, e3, h3) = >>=-ok (read_le 2 image 52) _ h2 in
    let (phentsize, e4, h4) = >>=-ok (read_le 2 image 54) _ h3 in
    let (phnum, e5, h5) = >>=-ok (read_le 2 image 56) _ h4 in
    let (sizes, h6) = refuse_if-ok _ ElfError.invalid_header _ e h5 in
    let (end, sum, h7) =
      ok_or-ok (header_end phoff phentsize phnum) ElfError.truncated_program_headers _ e h6 in
    let (room, h8) = refuse_if-ok _ ElfError.truncated_program_headers _ e h7 in
    let (ss, found, last) = >>=-ok (segments_from phnum 0 phoff image) _ h8 in
    imaged image entry ss e last (segments_from-All phnum 0 phoff image ss found) word

-- An image that `parse` accepts has the entry point of its header and a segment or more, and each
-- segment's bytes lie in the image, fit into the segment's memory and are aligned as the segment asks.
pub parse-IsImage : (image : List ℕ) (e : ElfImage) → parse image ≡ ok e → IsImage image e
unfolding parse
parse-IsImage image e h =
    let (r1, h1) = refuse_if-ok _ ElfError.too_small _ e h in
    let (r2, h2) = refuse_if-ok _ ElfError.bad_magic _ e h1 in
    let (r3, h3) = refuse_if-ok _ ElfError.unsupported_class _ e h2 in
    let (r4, h4) = refuse_if-ok _ ElfError.unsupported_endian _ e h3 in
    let (r5, h5) = refuse_if-ok _ ElfError.unsupported_version _ e h4 in
    let (kind, e6, h6) = >>=-ok (read_le 2 image 16) _ h5 in
    let (r7, h7) = refuse_if-ok _ ElfError.unsupported_type _ e h6 in
    let (machine, e8, h8) = >>=-ok (read_le 2 image 18) _ h7 in
    let (r9, h9) = refuse_if-ok _ ElfError.unsupported_machine _ e h8 in
    let (version, e10, h10) = >>=-ok (read_le 4 image 20) _ h9 in
    let (r11, h11) = refuse_if-ok _ ElfError.unsupported_version _ e h10 in
    parse_body-IsImage image e h11
