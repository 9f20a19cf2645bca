-- ===== src/Elf/Tests.antt =====
-- Tests of `parse` at the image of the tests of elf.rs.
use generic_kernel.Common.{◌≡◌, refl, ok, err}
use generic_kernel.Bytes.{write_at, to_le}
use generic_kernel.Elf.{ElfError, parse}
use generic_kernel.Elf.Fixture.{word, fixture, loaded_image}
use generic_kernel.Elf.Segments.{IsImage, parse-IsImage}

parsed : parse fixture ≡ ok loaded_image
unfolding parse write_at to_le
parsed = refl

truncated : parse (word 8 104 128 (word 8 96 128 fixture)) ≡ err ElfError.truncated_segment
unfolding parse write_at to_le
truncated = refl

other_machine : parse (word 2 18 3 fixture) ≡ err ElfError.unsupported_machine
unfolding parse write_at to_le
other_machine = refl

bad_alignment : parse (word 8 112 3 fixture) ≡ err ElfError.invalid_segment
unfolding parse write_at to_le
bad_alignment = refl

parse-IsImage_example : IsImage fixture loaded_image
parse-IsImage_example = parse-IsImage fixture loaded_image parsed
