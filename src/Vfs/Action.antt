-- ===== src/Vfs/Action.antt =====
-- The operations of a file system as actions: a result, and the state that is left.
use generic_kernel.Common.{Result, ok, err}
use generic_kernel.Vfs.{VfsError}

-- An action on a disk: a result, and the disk that is left.
abbrev pub M {ℓ} : Type 0 → Type ℓ → Type ℓ
M D A = D → Result VfsError A × D

abbrev pub pure {ℓ} : {D : Type 0} {A : Type ℓ} → A → M D A
pure a d = (ok a, d)

abbrev pub throw {ℓ} : {D : Type 0} {A : Type ℓ} → VfsError → M D A
throw e d = (err e, d)

-- `?` on a result that was computed without the device.
abbrev pub lift {ℓ} : {D : Type 0} {A : Type ℓ} → Result VfsError A → M D A
lift r d = (r, d)

abbrev pub then {ℓ κ} :
    {D : Type 0} {A : Type ℓ} {B : Type κ}
    → Result VfsError A × D
    → (A → M D B)
    → Result VfsError B × D
then (ok a, d) f = f a d
then (err e, d) f = (err e, d)

infixl 5 ◌>>=◌ ◌>>◌
abbrev pub ◌>>=◌ {ℓ κ} : {D : Type 0} {A : Type ℓ} {B : Type κ} → M D A → (A → M D B) → M D B
◌>>=◌ m f d = then (m d) f

abbrev pub ◌>>◌ {κ} : {D : Type 0} {B : Type κ} → M D (Unit {0}) → M D B → M D B
◌>>◌ m k d = then (m d) (λ _. k)
