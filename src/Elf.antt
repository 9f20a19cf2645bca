-- ===== src/Elf.antt =====
-- crates/kernel-core/src/elf.rs: the loader's view of an ELF image.
pub mod Segments
pub mod Fixture
mod Tests
use generic_kernel.Common.{
  ℕ, zero, suc, ◌+◌, ◌*◌, ◌%◌, ◌^◌, Bool, true, false, not, ◌&&◌, ◌||◌, List, [], ◌∷◌, Option, none,
  some, Result, ok, err, ok_or, refuse_if, ◌>>=◌, ◌>>◌, leb, ltb, ◌==◌, if◌then◌else◌, length,
  checked_add, checked_mul, bit_and, is_power_of_two, get_or,
}
use generic_kernel.Bytes.{slice, from_le}
use generic_kernel.Vfs.{same_bytes}

pub data ElfError : Type 0 where
  too_small bad_magic unsupported_class unsupported_endian unsupported_version unsupported_type
        unsupported_machine invalid_header truncated_program_headers invalid_segment
        truncated_segment :
      ElfError

pub record LoadSegment : Type 0 where
  pub virtual_address : ℕ
  pub memory_size : ℕ
  pub file_data : List ℕ
  pub readable : Bool
  pub writable : Bool
  pub executable : Bool
  pub alignment : ℕ

pub record ElfImage : Type 0 where
  pub entry : ℕ
  pub segments : List LoadSegment

abbrev pub elf_header_size : ℕ
elf_header_size = 64

abbrev pub program_header_size : ℕ
program_header_size = 56

abbrev pub pt_load : ℕ
pt_load = 1

-- `read_u16`, `read_u32` and `read_u64`, at a width of `n` bytes.
unfoldable pub read_le : ℕ → List ℕ → ℕ → Result ElfError ℕ
unfolding from_le
read_le n image offset =
    if leb (offset + n) (length image)
    then ok (from_le (slice offset n image))
    else err ElfError.invalid_header

-- The tests of a segment's sizes and alignment.
abbrev pub bad_segment : ℕ → ℕ → ℕ → ℕ → ℕ → Bool
bad_segment memory_size file_size alignment virtual_address offset =
    ltb memory_size file_size
    || (not (alignment == 0) && not (is_power_of_two alignment))
    || (ltb 1 alignment && not (virtual_address % alignment == offset % alignment))

abbrev pub has_flag : ℕ → ℕ → Bool
has_flag flags bit = not (bit_and flags bit == 0)

-- One round of the loop over the program headers, for a header that is loaded.
unfoldable pub load_segment : List ℕ → ℕ → Result ElfError LoadSegment
unfolding read_le is_power_of_two
load_segment image base = do
  flags ← read_le 4 image (base + 4)
  offset ← read_le 8 image (base + 8)
  virtual_address ← read_le 8 image (base + 16)
  file_size ← read_le 8 image (base + 32)
  memory_size ← read_le 8 image (base + 40)
  alignment ← read_le 8 image (base + 48)
  refuse_if (bad_segment memory_size file_size alignment virtual_address offset)
      ElfError.invalid_segment
  end ← ok_or (checked_add offset file_size) ElfError.truncated_segment
  refuse_if (ltb (length image) end) ElfError.truncated_segment
  ok (record {
    virtual_address = virtual_address;
    memory_size = memory_size;
    file_data = slice offset file_size image;
    readable = has_flag flags 4;
    writable = has_flag flags 2;
    executable = has_flag flags 1;
    alignment = alignment;
  })

-- The loop, from the header `index` on.
unfoldable pub segments_from : ℕ → ℕ → ℕ → List ℕ → Result ElfError (List LoadSegment)
unfolding load_segment
segments_from zero index phoff image = ok []
segments_from (suc rounds) index phoff image = do
  kind ← read_le 4 image (phoff + index * program_header_size)
  elim (kind == pt_load) [
    | false ↦ segments_from rounds (suc index) phoff image
    | true ↦ do
      segment ← load_segment image (phoff + index * program_header_size)
      rest ← segments_from rounds (suc index) phoff image
      ok (segment ∷ rest)
  ]

abbrev pub header_end : ℕ → ℕ → ℕ → Option ℕ
header_end phoff phentsize phnum = elim (checked_mul phentsize phnum) [
  | none ↦ none
  | some size ↦ checked_add phoff size
]

abbrev pub image_of : ℕ → List LoadSegment → Result ElfError ElfImage
image_of entry [] = err ElfError.invalid_segment
image_of entry (s ∷ ss) = ok (record { entry = entry; segments = s ∷ ss })

-- The part of `parse` that reads the program headers.
unfoldable pub parse_body : List ℕ → Result ElfError ElfImage
unfolding segments_from
parse_body image = do
  entry ← read_le 8 image 24
  phoff ← read_le 8 image 32
  ehsize ← read_le 2 image 52
  phentsize ← read_le 2 image 54
  phnum ← read_le 2 image 56
  refuse_if (ltb ehsize elf_header_size || not (phentsize == program_header_size))
      ElfError.invalid_header
  end ← ok_or (header_end phoff phentsize phnum) ElfError.truncated_program_headers
  refuse_if (ltb (length image) end) ElfError.truncated_program_headers
  segments ← segments_from phnum 0 phoff image
  image_of entry segments

-- "\x7fELF".
abbrev pub elf_magic : List ℕ
elf_magic = 127 ∷ b'E' ∷ b'L' ∷ b'F' ∷ []

unfoldable pub parse : List ℕ → Result ElfError ElfImage
unfolding parse_body same_bytes
parse image = do
  refuse_if (ltb (length image) elf_header_size) ElfError.too_small
  refuse_if (not (same_bytes (slice 0 4 image) elf_magic)) ElfError.bad_magic
  refuse_if (not (get_or image 4 0 == 2)) ElfError.unsupported_class
  refuse_if (not (get_or image 5 0 == 1)) ElfError.unsupported_endian
  refuse_if (not (get_or image 6 0 == 1)) ElfError.unsupported_version
  kind ← read_le 2 image 16
  refuse_if (not (kind == 2)) ElfError.unsupported_type
  machine ← read_le 2 image 18
  refuse_if (not (machine == 62)) ElfError.unsupported_machine
  version ← read_le 4 image 20
  refuse_if (not (version == 1)) ElfError.unsupported_version
  parse_body image
