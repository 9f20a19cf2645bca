-- ===== src/UserMemory.antt =====
-- kernel/src/arch/memory.rs and kernel/src/mm/mod.rs: the checks of a range of user addresses against
-- the page tables, and the copies between the kernel and a process. `load` is the word at an address of
-- the direct map of physical memory, which the hardware keeps; such an address is canonical.
pub mod Ranges
pub mod Copies
mod Tests
use generic_kernel.Common.{
  ℕ, zero, suc, ◌+◌, ◌-◌, ◌*◌, ◌/◌, ◌%◌, ◌^◌, ◌<◌, ◌≤◌, Bool, true, false, not, ◌&&◌, ◌||◌, List,
  [], ◌∷◌, Option, none, some, Result, ok, err, ◌>>=◌, ◌>>◌, refuse_if, ok_or, ltb, leb, ◌==◌,
  if◌then◌else◌, bit_and, checked_add, align_down, length, get_or,
}
use generic_kernel.Pmm.{page_size}
use generic_kernel.PageTables.{address_mask}

-- `USER_ADDRESS_LIMIT`.
abbrev pub user_address_limit : ℕ
user_address_limit = 2 ^ 39

abbrev pub user_present : ℕ
user_present = 1

abbrev pub user_writable : ℕ
user_writable = 2

abbrev pub user_bit : ℕ
user_bit = 4

abbrev pub user_huge : ℕ
user_huge = 128

-- `page_table_entry_pointer`.
unfoldable pub page_table_entry_pointer : ℕ → ℕ → ℕ → Option ℕ
page_table_entry_pointer offset table index =
    if leb 512 index || not (table % page_size == 0)
    then none
    else elim (checked_add offset table) [ none ↦ none | some base ↦ checked_add base (index * 8) ]

-- The four indexes of a virtual address, from the root table on.
abbrev pub indexes : ℕ → List ℕ
indexes virtual_address =
    (virtual_address / 2 ^ 39 % 512)
    ∷ (virtual_address / 2 ^ 30 % 512)
    ∷ (virtual_address / 2 ^ 21 % 512)
    ∷ (virtual_address / 2 ^ 12 % 512)
    ∷ []

-- The tests of an entry: present, for the user, and writable if that is asked for.
abbrev pub entry_allows : Bool → ℕ → Bool
entry_allows writable entry =
    not (bit_and entry user_present == 0 || bit_and entry user_bit == 0)
    && not (writable && bit_and entry user_writable == 0)

-- One round of the loop of `user_page_accessible`, from the pointer to the entry on, with the rest of
-- the loop for the next table.
abbrev pub round : (ℕ → ℕ) → ℕ → Bool → (ℕ → Bool) → Option ℕ → Bool
round load level w deeper none = false
round load level w deeper (some pointer) =
    if not (entry_allows w (load pointer))
    then false
    else if level == 3 || (leb 1 level && not (bit_and (load pointer) user_huge == 0))
    then true
    else if bit_and (load pointer) address_mask == 0
    then false
    else deeper (bit_and (load pointer) address_mask)

module _ (load : ℕ → ℕ) (offset : ℕ) where
  -- The loop of `user_page_accessible`, at a level of 0 to 3 that counts from the root.
  unfoldable pub walk_levels : Bool → ℕ → ℕ → List ℕ → Bool
  walk_levels writable level table [] = false
  walk_levels writable level table (index ∷ rest) =
      round load level writable (λ next. walk_levels writable (suc level) next rest)
        (page_table_entry_pointer offset table index)

  unfoldable pub user_page_accessible : ℕ → ℕ → Bool → Bool
  user_page_accessible root virtual_address writable =
      walk_levels writable 0 root (indexes virtual_address)

  -- The loop over the pages, with fuel for the rounds; `none` is the end of the fuel.
  unfoldable pub pages_accessible : ℕ → ℕ → ℕ → Bool → ℕ → Option Bool
  pages_accessible root last_page zero writable page = none
  pages_accessible root last_page (suc fuel) writable page =
      let rest = pages_accessible root last_page fuel writable in
      if not (user_page_accessible root page writable)
      then some false
      else if page == last_page
      then some true
      else elim (checked_add page page_size) [ none ↦ some false | some next ↦ rest next ]

  -- One round for each page from the first to the last.
  unfoldable pub user_range_accessible : ℕ → ℕ → ℕ → Bool → Option Bool
  user_range_accessible root address size writable =
      if size == 0
      then some (ltb address user_address_limit)
      else elim (checked_add address (size - 1)) [
        | none ↦ some false
        | some last ↦
            if leb user_address_limit address || leb user_address_limit last
            then some false
            else let first_page = align_down address page_size in
              let last_page = align_down last page_size in
              pages_accessible root last_page (suc ((last_page - first_page) / page_size)) writable
                first_page
      ]

-- The messages of the functions below.
pub data MmError : Type 0 where
  not_initialized exceeds_syscall_limit invalid_write_buffer invalid_read_buffer : MmError

-- `PHYSICAL_MEMORY_OFFSET` and the root of the active address space.
pub record Active : Type 0 where
  pub physical_memory_offset : Option ℕ
  pub root : ℕ

-- The bytes of the active address space.
abbrev pub Bytes : Type 0
Bytes = ℕ → ℕ

-- `copy_nonoverlapping` to an address, and the bytes of a raw slice.
abbrev pub store_bytes : Bytes → ℕ → List ℕ → Bytes
store_bytes bytes address new a =
    if leb address a && ltb a (address + length new) then get_or new (a - address) 0 else bytes a

unfoldable pub load_bytes : Bytes → ℕ → ℕ → List ℕ
load_bytes bytes address zero = []
load_bytes bytes address (suc n) = bytes address ∷ load_bytes bytes (suc address) n

abbrev pub after_check :
    {A : Type 0} → Result MmError (Unit {0}) → A → A → Result MmError (Unit {0}) × A
after_check (ok _) done kept = (ok tt, done)
after_check (err e) done kept = (err e, kept)

module _ (load : ℕ → ℕ) (active : Active) where
  unfoldable pub validate_user_range : ℕ → ℕ → Bool → Result MmError (Unit {0})
  validate_user_range address size writable =
      if size == 0 then ok tt else elim active.physical_memory_offset [
        | none ↦ err MmError.not_initialized
        | some offset ↦ elim (user_range_accessible load offset active.root address size writable) [
          | some true ↦ ok tt
          | _ ↦ err (if writable then MmError.invalid_write_buffer else MmError.invalid_read_buffer)
        ]
      ]

  unfoldable pub copy_to_user : ℕ → List ℕ → ℕ → Bytes → Result MmError (Unit {0}) × Bytes
  copy_to_user address new maximum bytes =
      if ltb maximum (length new)
      then (err MmError.exceeds_syscall_limit, bytes)
      else after_check (validate_user_range address (length new) true)
          (if length new == 0 then bytes else store_bytes bytes address new) bytes

  unfoldable pub copy_from_user : ℕ → ℕ → ℕ → Bytes → Result MmError (List ℕ)
  copy_from_user address size maximum bytes =
      if ltb maximum size
      then err MmError.exceeds_syscall_limit
      else if size == 0
      then ok []
      else do validate_user_range address size false; ok (load_bytes bytes address size)
