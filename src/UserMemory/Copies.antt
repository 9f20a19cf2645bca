-- ===== src/UserMemory/Copies.antt =====
-- `copy_to_user` and `copy_from_user`: what they write and read, and when they refuse.
use generic_kernel.Common.{
  ℕ, suc, ◌+◌, ◌-◌, ◌*◌, ◌/◌, ◌<◌, ◌≤◌, ◌≡◌, ◌≢◌, refl, ap, subst, ◌⊎◌, inl, inr, Bool, true, false,
  not, ◌||◌, ◌&&◌, List, [], ◌∷◌, Option, none, some, ltb, leb, ◌==◌, if◌then◌else◌, Bool-cases,
  arith, Result, ok, err, length, get_or, bit_and,
}
use native.Mathlib.Nat.{add-zero}
use generic_kernel.Pmm.{page_size}
use generic_kernel.UserMemory.{
  user_page_accessible, walk_levels, indexes, page_table_entry_pointer, entry_allows, round,
  user_huge, MmError, Active, Bytes, store_bytes, load_bytes, after_check, validate_user_range,
  copy_to_user, copy_from_user,
}
use generic_kernel.PageTables.{address_mask}
use generic_kernel.UserMemory.Ranges.{IsAccessible, Decides, user_range_accessible-Decides}

readable_entry : (entry : ℕ) → entry_allows true entry ≡ true → entry_allows false entry ≡ true
readable_entry entry h = ground arith

round_readable :
    (load : ℕ → ℕ) (level : ℕ) (o : Option ℕ) (deep deep' : ℕ → Bool)
    → ((next : ℕ) → deep next ≡ true → deep' next ≡ true)
    → round load level true deep o ≡ true
    → round load level false deep' o ≡ true
round_readable load level none deep deep' ih h = h
round_readable load level (some pointer) deep deep' ih h =
    let next = bit_and (load pointer) address_mask in
    elim (Bool-cases (entry_allows true (load pointer))) [
      | inr denied ↦ absurd (ground arith)
      | inl allowed ↦
          let allowed' = readable_entry (load pointer) allowed in
          elim (Bool-cases
            (level == 3 || (leb 1 level && not (bit_and (load pointer) user_huge == 0)))) [
              | inl last ↦ rw (allowed', last)
              | inr more ↦
                  let h' = rw (allowed, more) at h in
                  elim (Bool-cases (next == 0)) [
                    | inl null ↦ let h'' = rw null at h' in absurd (cc)
                    | inr there ↦
                        let h'' = rw there at h' in rw (allowed', more, there) (ih next h'')
                  ]
            ]
    ]

-- A page that may be written may be read.
walk_readable :
    (load : ℕ → ℕ) (offset level table : ℕ) (path : List ℕ)
    → walk_levels load offset true level table path ≡ true
    → walk_levels load offset false level table path ≡ true
unfolding walk_levels
walk_readable load offset level table [] h = h
walk_readable load offset level table (index ∷ rest) h =
    round_readable load level (page_table_entry_pointer offset table index) _ _
      (λ next. walk_readable load offset (suc level) next rest) h

user_page_readable :
    (load : ℕ → ℕ) (offset root page : ℕ)
    → user_page_accessible load offset root page true ≡ true
    → user_page_accessible load offset root page false ≡ true
unfolding user_page_accessible
user_page_readable load offset root page h = walk_readable load offset 0 root (indexes page) h

empty_list : (new : List ℕ) → length new ≡ 0 → [] ≡ new
empty_list [] h = refl
empty_list (x ∷ new) h = absurd (omega arith)

store_inside :
    (bytes : Bytes) (address : ℕ) (new : List ℕ) (i : ℕ)
    → i < length new
    → store_bytes bytes address new (address + i) ≡ get_or new i 0
store_inside bytes address new i h =
    let test : (leb address (address + i) && ltb (address + i) (address + length new)) ≡ true =
      ground arith in
    let index : address + i - address ≡ i = omega arith in rw (test, index)

store_outside :
    (bytes : Bytes) (address : ℕ) (new : List ℕ) (a : ℕ)
    → (a < address) ⊎ (address + length new ≤ a)
    → store_bytes bytes address new a ≡ bytes a
store_outside bytes address new a (inl h) = ground arith
store_outside bytes address new a (inr h) = ground arith

module _ (load : ℕ → ℕ) (active : Active) (offset : ℕ)
    (ready : active.physical_memory_offset ≡ some offset) where
  -- What a check of a range gives.
  abbrev Checked : ℕ → ℕ → Bool → Result MmError (Unit {0}) → Type 0
  Checked address size writable (ok _) =
      (size ≢ 0) → IsAccessible load offset active.root address size writable
  Checked address size writable (err e) =
      ¬ IsAccessible load offset active.root address size writable × (size ≢ 0)

  validate-Checked :
      (address size : ℕ) (writable : Bool)
      → Checked address size writable (validate_user_range load active address size writable)
  unfolding validate_user_range
  validate-Checked address size writable = elim (Bool-cases (size == 0)) [
    | inl e ↦ rw e (λ ne. absurd (ground arith))
    | inr ne ↦
        rw (ne, ready)
          (decided address size writable (ground arith) _
            (user_range_accessible-Decides load offset active.root address size writable))
  ]
    where
      decided :
          (address size : ℕ) (writable : Bool)
          → size ≢ 0
          → (o : Option Bool)
          → Decides o (IsAccessible load offset active.root address size writable)
          → Checked address size writable (elim o [
            | some true ↦ ok tt
            | _ ↦
                err (if writable then MmError.invalid_write_buffer else MmError.invalid_read_buffer)
          ])
      decided address size writable ne none h = absurd h
      decided address size writable ne (some true) (to, from) = λ _. to refl
      decided address size writable ne (some false) (to, from) =
          (λ pass. absurd (cc (from pass)), ne)

  -- What `copy_to_user` promises.
  abbrev pub IsCopy : ℕ → List ℕ → ℕ → Bytes → Result MmError (Unit {0}) × Bytes → Type 0
  IsCopy address new maximum bytes (ok _, bytes') =
      (length new ≤ maximum)
      × ((length new ≢ 0) → IsAccessible load offset active.root address (length new) true)
      × ((i : ℕ) → i < length new → bytes' (address + i) ≡ get_or new i 0)
      × ((a : ℕ) → (a < address) ⊎ (address + length new ≤ a) → bytes' a ≡ bytes a)
  IsCopy address new maximum bytes (err e, bytes') =
      (bytes' ≡ bytes)
      × ((maximum < length new)
          ⊎ (¬ IsAccessible load offset active.root address (length new) true × (length new ≢ 0)))

  stored :
      (address : ℕ) (new : List ℕ) (maximum : ℕ) (bytes : Bytes)
      → length new ≤ maximum
      → (o : Result MmError (Unit {0})) → Checked address (length new) true o
      → IsCopy address new maximum bytes
          (after_check o (if length new == 0 then bytes else store_bytes bytes address new) bytes)
  stored address new maximum bytes fits (err e) h = (refl, inr h)
  stored address new maximum bytes fits (ok _) h = elim (Bool-cases (length new == 0)) [
    | inl empty ↦ rw empty (fits, h, λ i lt. absurd (ground arith), λ a out. refl)
    | inr bytes_there ↦ rw bytes_there (
      fits,
      h,
      λ i lt. store_inside bytes address new i lt,
      λ a out. store_outside bytes address new a out,
    )
  ]

  -- `copy_to_user` succeeds exactly if the data is within the limit of the call and its pages may be
  -- written by the user. Then the bytes from the address on are the data, and no other byte has changed;
  -- where it fails, none has.
  pub copy_to_user-IsCopy :
      (address : ℕ) (new : List ℕ) (maximum : ℕ) (bytes : Bytes)
      → IsCopy address new maximum bytes (copy_to_user load active address new maximum bytes)
  unfolding copy_to_user
  copy_to_user-IsCopy address new maximum bytes = elim (Bool-cases (ltb maximum (length new))) [
    | inl long ↦ rw long (refl, inl (ground arith))
    | inr fits ↦ rw fits (
        stored address new maximum bytes (ground arith)
          (validate_user_range load active address (length new) true)
          (validate-Checked address (length new) true))
  ]

  loaded :
      (bytes : Bytes) (address : ℕ) (new : List ℕ)
      → ((i : ℕ) → i < length new → bytes (address + i) ≡ get_or new i 0)
      → load_bytes bytes address (length new) ≡ new
  unfolding load_bytes
  loaded bytes address [] h = refl
  loaded bytes address (x ∷ new) h =
      let first : bytes address ≡ x =
        subst (λ k. bytes k ≡ x) (add-zero address) (h 0 (omega arith)) in
      let rest = loaded bytes (suc address) new λ i lt.
        let shift : address + suc i ≡ suc address + i = omega arith in
        subst (λ k. bytes k ≡ get_or new i 0) shift (h (suc i) (omega arith)) in
      rw (first, rest)

  -- A range that may be written may be read, so its check passes.
  readable :
      (address size : ℕ)
      → ((size ≢ 0) → IsAccessible load offset active.root address size true)
      → validate_user_range load active address size false ≡ ok tt
  readable address size h = passed _ (validate-Checked address size false)
    where
      passed : (o : Result MmError (Unit {0})) → Checked address size false o → o ≡ ok tt
      passed (ok tt) c = refl
      passed (err e) (bad, ne) =
          let (below, fits, pass) = h ne in
          absurd (
            bad (
              below,
              fits,
              λ a le lt.
                  user_page_readable load offset active.root (a / page_size * page_size)
                    (pass a le lt),
            ))

  -- What `copy_to_user` has written, `copy_from_user` reads back.
  pub copy_from_user-copy_to_user :
      (address : ℕ) (new : List ℕ) (maximum maximum' : ℕ) (bytes bytes' : Bytes)
      → copy_to_user load active address new maximum bytes ≡ (ok tt, bytes')
      → length new ≤ maximum'
      → copy_from_user load active address (length new) maximum' bytes' ≡ ok new
  unfolding copy_from_user
  copy_from_user-copy_to_user address new maximum maximum' bytes bytes' h fits =
      let (_, access, inside, _) =
        subst (IsCopy address new maximum bytes) h
          (copy_to_user-IsCopy address new maximum bytes) in
      let short : ltb maximum' (length new) ≡ false = ground arith in
      elim (Bool-cases (length new == 0)) [
        | inl empty ↦ rw (short, empty) (ap ok (empty_list new (ground arith)))
        | inr there ↦
            rw (short, there, readable address (length new) access)
              (ap ok (loaded bytes' address new inside))
      ]
