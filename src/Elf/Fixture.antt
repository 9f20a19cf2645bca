-- ===== src/Elf/Fixture.antt =====
-- The image of the tests of elf.rs.
use generic_kernel.Common.{ℕ, true, false, List, [], ◌∷◌, replicate}
use generic_kernel.Bytes.{write_at, to_le}
use generic_kernel.Elf.{ElfImage, elf_magic}

-- A word of `n` bytes at an offset.
abbrev pub word : ℕ → ℕ → ℕ → List ℕ → List ℕ
word n offset value image = write_at offset (to_le n value) image

abbrev pub header : List ℕ
header = word 2 56 1 (
    word 2 54 56 (
      word 2 52 64 (
        word 8 32 64 (
          word 8 24 4194304 (
            word 4 20 1 (
              word 2 18 62 (
                word 2 16 2 (
                  word 1 6 1
                    (word 1 5 1 (word 1 4 2 (write_at 0 elf_magic (replicate 260 0))))))))))))

abbrev pub code : List ℕ
code = 144 ∷ 144 ∷ 205 ∷ 128 ∷ []

abbrev pub fixture : List ℕ
fixture = write_at 256 code (
    word 8 112 256 (
      word 8 104 16
        (word 8 96 4 (word 8 80 4194304 (word 8 72 256 (word 4 68 5 (word 4 64 1 header)))))))

abbrev pub loaded_image : ElfImage
loaded_image = record {
  entry = 4194304;
  segments =
      record {
        virtual_address = 4194304;
        memory_size = 16;
        file_data = code;
        readable = true;
        writable = false;
        executable = true;
        alignment = 256;
      }
      ∷ [];
}
