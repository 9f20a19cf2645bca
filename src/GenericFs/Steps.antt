-- ===== src/GenericFs/Steps.antt =====
-- Taking a successful action on the device apart, step by step, and putting one together.
use generic_kernel.Common.{◌≡◌, refl, ap, ◌∙◌, ℕ, Result, ok, err}
use generic_kernel.Vfs.{VfsError}
use generic_kernel.GenericFs.Device.{BlockDevice, BlockError, Sector, M, then}
use generic_kernel.GenericFs.Table.{read, write, mapped, fetched}

pub bind-inv {ℓ κ} :
    {D : Type 0} {A : Type ℓ} {B : Type κ} (m : M D A) (f : A → M D B) (d d'' : D) (b : B)
    → then (m d) f ≡ (ok b, d'')
    → (a : A) × (d' : D) × (m d ≡ (ok a, d')) × (f a d' ≡ (ok b, d''))
bind-inv {D} {A} {B} m f d d'' b h = go (m d) refl h
  where
    go :
        (r : Result VfsError A × D)
        → m d ≡ r
        → then r f ≡ (ok b, d'')
        → (a : A) × (d' : D) × (m d ≡ (ok a, d')) × (f a d' ≡ (ok b, d''))
    go (ok a, d') e h = (a, d', e, h)
    go (err x, d') e h = absurd (cc)

-- The same for an action without a result.
pub step-inv {κ} :
    {D : Type 0} {B : Type κ} (m : M D (Unit {0})) (k : M D B) (d d'' : D) (b : B)
    → then (m d) (λ _. k) ≡ (ok b, d'')
    → (d' : D) × (m d ≡ (ok tt, d')) × (k d' ≡ (ok b, d''))
step-inv {D} {B} m k d d'' b h = go (m d) refl h
  where
    go :
        (r : Result VfsError (Unit {0}) × D)
        → m d ≡ r
        → then r (λ _. k) ≡ (ok b, d'')
        → (d' : D) × (m d ≡ (ok tt, d')) × (k d' ≡ (ok b, d''))
    go (ok tt, d') e h = (d', e, h)
    go (err x, d') e h = absurd (cc)

pub lift-inv {ℓ κ} :
    {D : Type 0} {A : Type ℓ} {B : Type κ} (r : Result VfsError A) (f : A → M D B) (d d'' : D)
    (b : B)
    → then (r, d) f ≡ (ok b, d'')
    → (a : A) × (r ≡ ok a) × (f a d ≡ (ok b, d''))
lift-inv (ok a) f d d'' b h = (a, refl, h)
lift-inv (err x) f d d'' b h = absurd (cc)

module _ (dev : BlockDevice) where
  open dev use {Disk, read_sector, write_sector}

  pub read-inv {κ} :
      {B : Type κ} (s : ℕ) (f : Sector → M Disk B) (d d'' : Disk) (b : B)
      → then (read dev s d) f ≡ (ok b, d'')
      → (raw : Sector) × (read_sector d s ≡ ok raw) × (f raw d ≡ (ok b, d''))
  read-inv {B} s f d d'' b h = go (read_sector d s) refl h
    where
      go :
          (r : Result BlockError Sector)
          → read_sector d s ≡ r
          → then (fetched dev d r) f ≡ (ok b, d'')
          → (raw : Sector) × (read_sector d s ≡ ok raw) × (f raw d ≡ (ok b, d''))
      go (ok raw) e h = (raw, e, h)
      go (err x) e h = absurd (cc)

  pub write-inv {κ} :
      {B : Type κ} (s : ℕ) (raw : Sector) (f : Unit {0} → M Disk B) (d d'' : Disk) (b : B)
      → then (write dev s raw d) f ≡ (ok b, d'')
      → (d' : Disk) × (write_sector d s raw ≡ (ok tt, d')) × (f tt d' ≡ (ok b, d''))
  write-inv {B} s raw f d d'' b h = go (write_sector d s raw) refl h
    where
      go :
          (r : Result BlockError (Unit {0}) × Disk)
          → write_sector d s raw ≡ r
          → then (mapped dev r) f ≡ (ok b, d'')
          → (d' : Disk) × (write_sector d s raw ≡ (ok tt, d')) × (f tt d' ≡ (ok b, d''))
      go (ok u, d') e h = (d', e, h)
      go (err x, d') e h = absurd (cc)

  pub write-ok :
      (s : ℕ) (raw : Sector) (d d' : Disk)
      → write dev s raw d ≡ (ok tt, d')
      → write_sector d s raw ≡ (ok tt, d')
  write-ok s raw d d' h = go (write_sector d s raw) refl h
    where
      go :
          (r : Result BlockError (Unit {0}) × Disk)
          → write_sector d s raw ≡ r
          → mapped dev r ≡ (ok tt, d')
          → write_sector d s raw ≡ (ok tt, d')
      go (ok u, d1) e h = e ∙ ap (λ k. (ok tt, k)) (ap (λ p. p.1) h)
      go (err x, d1) e h = absurd (cc)

  -- A read that the device answers.
  pub read-step {κ} :
      {B : Type κ} (s : ℕ) (raw : Sector) (f : Sector → M Disk B) (d : Disk)
      → read_sector d s ≡ ok raw
      → then (read dev s d) f ≡ f raw d
  read-step s raw f d e = ap (λ r. then (fetched dev d r) f) e
