-- ===== src/PageTables/Entries.antt =====
-- The entry that links a copied table: `(entry & !ADDRESS) | child`.
use generic_kernel.Common.{
  ℕ, ◌<◌, ◌≡◌, refl, sym, ap, ◌∙◌, Bool, false, ◌==◌, ==_iff, or-inv, u64_mod, bit_and, arith,
  not64,
}
use generic_kernel.Common.Masks.{merge_under, merge_outside, bit_and_assoc}
use generic_kernel.PageTables.{address_of, flags_of, link, bad_frame, address_mask}
use generic_kernel.PageTables.Tree.{is_table}

bad_frame_flags : (frame : ℕ) → bad_frame frame ≡ false → bit_and frame (not64 address_mask) ≡ 0
unfolding bad_frame flags_of
bad_frame_flags frame h =
    let (zero_it, bits) = or-inv (frame == 0) _ h in
    let e : (bit_and frame (not64 address_mask) == 0) ≡ Bool.true = ground arith in (==_iff _ _).0 e

pub address_of-link :
    (entry child : ℕ)
    → child < u64_mod
    → bad_frame child ≡ false
    → address_of (link entry child) ≡ child
unfolding address_of link flags_of
address_of-link entry child small good =
    merge_under 64 address_mask (not64 address_mask) entry child refl small
      (bad_frame_flags child good)

pub flags_of-link :
    (entry child : ℕ) → bad_frame child ≡ false → flags_of (link entry child) ≡ flags_of entry
unfolding link flags_of
flags_of-link entry child good =
    merge_outside 64 (not64 address_mask) entry child (omega arith) (bad_frame_flags child good)

-- The low bits of an entry are among its flags.
bit_of_flags :
    (entry bit : ℕ)
    → bit < u64_mod
    → bit_and (not64 address_mask) bit ≡ bit
    → bit_and (flags_of entry) bit ≡ bit_and entry bit
unfolding flags_of
bit_of_flags entry bit small inside =
    bit_and_assoc 64 entry (not64 address_mask) bit small ∙ ap (bit_and entry) inside

-- Whether an entry names a table is told by its flags.
pub is_table-flags : (level e r : ℕ) → flags_of r ≡ flags_of e → is_table level r ≡ is_table level e
unfolding is_table
is_table-flags level e r same =
    let bit : (b : ℕ)
        → b < u64_mod
        → bit_and (not64 address_mask) b ≡ b
        → bit_and r b ≡ bit_and e b =
      λ b small inside.
        sym (bit_of_flags r b small inside)
        ∙ ap (λ x. bit_and x b) same
        ∙ bit_of_flags e b small inside in
    rw (bit 1 (omega arith) refl, bit 128 (omega arith) refl)
