-- ===== src/Mapping/Clearing.antt =====
-- `zero_physical_frame` of kernel/src/arch/memory.rs, and the tests that tell a frame.
use generic_kernel.Common.{
  ℕ, ◌≡◌, refl, Bool, true, false, not, ◌&&◌, ◌||◌, Option, none, some, if◌then◌else◌, checked_add,
}
use generic_kernel.Mapping.{Ram, zero_physical_frame, inside_page}

abbrev pub cleared : ℕ → Ram → Ram
cleared base ram a = if inside_page base a then 0 else ram a

abbrev pub cleared_at : Option ℕ → Ram → Option Ram
cleared_at none ram = none
cleared_at (some base) ram = some (cleared base ram)

pub zero_frame_lem :
    (offset frame : ℕ) (ram : Ram)
    → cleared_at (checked_add offset frame) ram ≡ zero_physical_frame offset frame ram
unfolding zero_physical_frame
zero_frame_lem offset frame ram =
    elim (checked_add offset frame)
      as (λ o. cleared_at o ram ≡ (elim o [
        | none ↦ none
        | some base ↦ some (λ a. if inside_page base a then 0 else ram a)
      ])) [ none ↦ refl | some base ↦ refl ]

pub or-true : (b : Bool) → (b || true) ≡ true
or-true true = refl
or-true false = refl

pub and-false : (b : Bool) → (b && not true) ≡ false
and-false true = refl
and-false false = refl
