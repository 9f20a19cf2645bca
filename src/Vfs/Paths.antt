-- ===== src/Vfs/Paths.antt =====
-- crates/kernel-core/src/vfs.rs: `normalize_path` and the functions that it stands on.
use generic_kernel.Common.{
  ℕ, Bool, false, not, ◌||◌, List, [], ◌∷◌, ◌++◌, ltb, ◌==◌, if◌then◌else◌, length, Result, ok, err,
  ◌>>=◌, ◌>>◌, Option, none, some,
}
use generic_kernel.Vfs.{VfsError, same_bytes, contains_byte, validate, validate_name}

abbrev pub slash : ℕ
slash = b'/'

abbrev pub path_max : ℕ
path_max = 4096

abbrev pub cons_first : ℕ → List (List ℕ) → List (List ℕ)
cons_first c [] = (c ∷ []) ∷ []
cons_first c (p ∷ ps) = (c ∷ p) ∷ ps

-- `path.split('/')`.
unfoldable pub split : List ℕ → List (List ℕ)
split [] = [] ∷ []
split (c ∷ cs) = let rest = split cs in if c == slash then [] ∷ rest else cons_first c rest

abbrev pub starts_with_slash : List ℕ → Bool
starts_with_slash [] = false
starts_with_slash (c ∷ cs) = c == slash

-- `components.pop()`.
abbrev pub pop : List (List ℕ) → List (List ℕ)
pop [] = []
pop (c ∷ []) = []
pop (c ∷ d ∷ cs) = c ∷ pop (d ∷ cs)

-- One round of `push_components`.
unfoldable pub push_component : List (List ℕ) → List ℕ → Result VfsError (List (List ℕ))
unfolding validate
push_component components component =
    if same_bytes component [] || same_bytes component (b'.' ∷ [])
    then ok components
    else if same_bytes component (b'.' ∷ b'.' ∷ [])
    then ok (pop components)
    else (do validate_name component; ok (components ++ (component ∷ [])))

unfoldable pub push_all : List (List ℕ) → List (List ℕ) → Result VfsError (List (List ℕ))
unfolding push_component
push_all components [] = ok components
push_all components (c ∷ cs) = do pushed ← push_component components c; push_all pushed cs

unfoldable pub push_components : List (List ℕ) → List ℕ → Result VfsError (List (List ℕ))
unfolding push_all split
push_components components path = push_all components (split path)

-- The components with a '/' between two of them.
abbrev pub join : List (List ℕ) → List ℕ
join [] = []
join (c ∷ []) = c
join (c ∷ d ∷ cs) = c ++ (slash ∷ join (d ∷ cs))

abbrev pub base_components : List ℕ → List ℕ → Result VfsError (List (List ℕ))
base_components base path = if starts_with_slash path then ok [] else push_components [] base

unfoldable pub normalize_path : List ℕ → List ℕ → Result VfsError (List ℕ)
unfolding push_components same_bytes contains_byte
normalize_path base path =
    if same_bytes path [] || contains_byte 0 path
    then err VfsError.invalid_path
    else if not (starts_with_slash base) || contains_byte 0 base
    then err VfsError.invalid_path
    else (do
      from_base ← base_components base path
      components ← push_components from_base path
      let normalized = slash ∷ join components
      if ltb path_max (length normalized) then err VfsError.name_too_long else ok normalized)

-- `path.trim_start_matches('/')`.
abbrev pub trim_slashes : List ℕ → List ℕ
trim_slashes [] = []
trim_slashes (c ∷ cs) = let rest = trim_slashes cs in if c == slash then rest else c ∷ cs

-- `path.rsplit_once('/')`.
unfoldable pub rsplit_once : List ℕ → Option (List ℕ × List ℕ)
rsplit_once [] = none
rsplit_once (c ∷ cs) = elim (rsplit_once cs) [
  | some (parent, name) ↦ some (c ∷ parent, name)
  | none ↦ if c == slash then some ([], cs) else none
]

-- `path.strip_prefix(prefix)`.
unfoldable pub strip_prefix : List ℕ → List ℕ → Option (List ℕ)
strip_prefix [] path = some path
strip_prefix (p ∷ ps) [] = none
strip_prefix (p ∷ ps) (c ∷ cs) = let rest = strip_prefix ps cs in if p == c then rest else none
