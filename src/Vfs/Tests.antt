-- ===== src/Vfs/Tests.antt =====
-- Paths of the tests of vfs.rs, and the theorems about `normalize_path` at one of them.
use generic_kernel.Common.{ℕ, ◌≡◌, refl, List, [], ◌∷◌, ok, err}
use generic_kernel.Vfs.{VfsError}
use generic_kernel.Vfs.Paths.{normalize_path, slash}
use generic_kernel.Vfs.Normal.{IsNormal}
use generic_kernel.Vfs.Canonical.{normalize_path-IsNormal}

-- "/a" and "b/../c/./d".
abbrev base : List ℕ
base = slash ∷ b'a' ∷ []

abbrev relative : List ℕ
relative = b'b' ∷ slash ∷ b'.' ∷ b'.' ∷ slash ∷ b'c' ∷ slash ∷ b'.' ∷ slash ∷ b'd' ∷ []

-- "/a/c/d".
abbrev absolute : List ℕ
absolute = slash ∷ b'a' ∷ slash ∷ b'c' ∷ slash ∷ b'd' ∷ []

normalized : normalize_path base relative ≡ ok absolute
unfolding normalize_path
normalized = refl

above_root : normalize_path base (slash ∷ b'.' ∷ b'.' ∷ []) ≡ ok (slash ∷ [])
unfolding normalize_path
above_root = refl

no_path : normalize_path base [] ≡ err VfsError.invalid_path
unfolding normalize_path
no_path = refl

normalize_path-IsNormal_example : IsNormal absolute
normalize_path-IsNormal_example = normalize_path-IsNormal base relative absolute normalized
