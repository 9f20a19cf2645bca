-- ===== src/UserMemory/Tests.antt =====
-- A process with one writable page at 0x400000 and one read-only page behind it.
use generic_kernel.Common.{
  ℕ, ◌+◌, ◌^◌, ◌≡◌, refl, true, false, List, [], ◌∷◌, some, ◌==◌, if◌then◌else◌, arith, ok,
  align_down,
}
use generic_kernel.UserMemory.{
  user_page_accessible, user_range_accessible, pages_accessible, walk_levels,
  page_table_entry_pointer, Active, Bytes, validate_user_range, copy_to_user, copy_from_user,
  store_bytes,
}
use generic_kernel.UserMemory.Ranges.{Decides, IsAccessible, user_range_accessible-Decides}
use generic_kernel.UserMemory.Copies.{IsCopy, copy_to_user-IsCopy, copy_from_user-copy_to_user}

-- The tables at 0x1000, 0x2000, 0x3000 and 0x4000; the direct map starts at 2 ^ 40.
abbrev words : ℕ → ℕ
words a =
    if a == 2 ^ 40 + 0x1000
    then 0x2007
    else if a == 2 ^ 40 + 0x2000
    then 0x3007
    else if a == 2 ^ 40 + 0x3000 + 16
    then 0x4007
    else if a == 2 ^ 40 + 0x4000
    then 0x9007
    else if a == 2 ^ 40 + 0x4000 + 8
    then 0xa005
    else 0

abbrev process : Active
process = record { physical_memory_offset = some (2 ^ 40); root = 0x1000 }

abbrev zeroes : Bytes
zeroes a = 0

-- A range over both pages may be read and not written.
read_both : user_range_accessible words (2 ^ 40) 0x1000 0x400ffe 4 false ≡ some true
unfolding user_range_accessible pages_accessible user_page_accessible walk_levels
    page_table_entry_pointer align_down
read_both = refl

write_both : user_range_accessible words (2 ^ 40) 0x1000 0x400ffe 4 true ≡ some false
unfolding user_range_accessible pages_accessible user_page_accessible walk_levels
    page_table_entry_pointer align_down
write_both = refl

user_range_accessible-Decides_example :
    Decides
      (user_range_accessible words (2 ^ 40) 0x1000 0x400ffe 4 false)
      (IsAccessible words (2 ^ 40) 0x1000 0x400ffe 4 false)
user_range_accessible-Decides_example =
    user_range_accessible-Decides words (2 ^ 40) 0x1000 0x400ffe 4 false

abbrev message : List ℕ
message = 1 ∷ 2 ∷ 3 ∷ []

copy_to_user-IsCopy_example :
    IsCopy words process
      (2 ^ 40)
      refl
      0x400010
      message
      8
      zeroes
      (copy_to_user words process 0x400010 message 8 zeroes)
copy_to_user-IsCopy_example =
    copy_to_user-IsCopy words process (2 ^ 40) refl 0x400010 message 8 zeroes

abbrev copied : Bytes
copied = store_bytes zeroes 0x400010 message

done : copy_to_user words process 0x400010 message 8 zeroes ≡ (ok tt, copied)
unfolding copy_to_user validate_user_range user_range_accessible pages_accessible
    user_page_accessible walk_levels page_table_entry_pointer align_down
done = refl

copy_from_user-copy_to_user_example : copy_from_user words process 0x400010 3 16 copied ≡ ok message
copy_from_user-copy_to_user_example =
    copy_from_user-copy_to_user words process (2 ^ 40) refl 0x400010 message 8 16 zeroes copied done
      (omega arith)
