-- ===== src/Vfs/Canonical.antt =====
-- `normalize_path` as a whole.
use generic_kernel.Common.{
  ℕ, ◌≤◌, ◌≡◌, refl, sym, ap, subst, ◌∙◌, Bool, true, false, not, ◌||◌, List, [], ◌∷◌, Result, ok,
  err, >>=-ok, ◌>>=◌, ltb, if◌then◌else◌, arith, length, ok-injective,
}
use generic_kernel.Vfs.{VfsError, same_bytes, contains_byte}
use generic_kernel.Vfs.Paths.{
  slash, path_max, starts_with_slash, push_components, join, base_components, normalize_path, split,
}
use generic_kernel.Vfs.Normal.{Names, IsNormal, pushed_back, join_no_nul, push_all-Names}

-- The path that is returned, when it is not too long.
abbrev finish : List (List ℕ) → Result VfsError (List ℕ)
finish cs =
    if ltb path_max (length (slash ∷ join cs))
    then err VfsError.name_too_long
    else ok (slash ∷ join cs)

abbrev whole :
    Bool
    → Bool
    → Result VfsError (List (List ℕ))
    → (List (List ℕ) → Result VfsError (List (List ℕ)))
    → Result VfsError (List ℕ)
whole x y m k =
    if x
    then err VfsError.invalid_path
    else if y
    then err VfsError.invalid_path
    else (m >>= λ from_base. k from_base >>= finish)

finished :
    (long : Bool) (q p : List ℕ)
    → ◌≡◌ {A = Result VfsError (List ℕ)} (if long then err VfsError.name_too_long else ok q) (ok p)
    → (long ≡ false) × (q ≡ p)
finished true q p h = absurd (cc)
finished false q p h = (refl, ok-injective {E = VfsError} q p h)

whole-inv :
    (x y : Bool) (m : Result VfsError (List (List ℕ)))
    (k : List (List ℕ) → Result VfsError (List (List ℕ))) (p : List ℕ)
    → whole x y m k ≡ ok p
    → (x ≡ false)
      × (y ≡ false)
      × (from_base : List (List ℕ)) × (cs : List (List ℕ)) × (m ≡ ok from_base)
      × (k from_base ≡ ok cs)
      × (ltb path_max (length (slash ∷ join cs)) ≡ false)
      × (slash ∷ join cs ≡ p)
whole-inv true y m k p h = absurd (cc)
whole-inv false true m k p h = absurd (cc)
whole-inv false false m k p h =
    let (from_base, base_ok, next) = >>=-ok m (λ from_base. k from_base >>= finish) h in
    let (cs, path_ok, last) = >>=-ok (k from_base) finish next in
    let (fits, same) = finished _ (slash ∷ join cs) p last in
    (refl, refl, from_base, cs, base_ok, path_ok, fits, same)

base-Names :
    (base path : List ℕ) (cs : List (List ℕ)) → base_components base path ≡ ok cs → Names cs
unfolding push_components
base-Names base path cs h = go (starts_with_slash path) h
  where
    go :
        (x : Bool)
        → ◌≡◌ {A = Result VfsError (List (List ℕ))}
            (if x then ok [] else push_components [] base)
            (ok cs)
        → Names cs
    go true h = subst Names (ok-injective {E = VfsError} [] cs h) tt
    go false h = push_all-Names [] cs (split base) h tt

-- `normalize_path` returns an absolute path of valid names, none of them empty, "." or "..", that is not
-- longer than `PATH_MAX`.
pub normalize_path-IsNormal : (base path p : List ℕ) → normalize_path base path ≡ ok p → IsNormal p
unfolding normalize_path push_components
normalize_path-IsNormal base path p h =
    let (some_path, good_base, from_base, cs, base_ok, path_ok, fits, same) =
      whole-inv (same_bytes path [] || contains_byte 0 path)
        (not (starts_with_slash base) || contains_byte 0 base) (base_components base path)
        (λ from_base. push_components from_base path) p h in
    (
      cs,
      sym same,
      push_all-Names from_base cs (split path) path_ok (base-Names base path from_base base_ok),
      subst (λ q. length q ≤ path_max) same (ground arith),
    )

-- Normalizing what was normalized changes nothing.
pub normalize_path_twice :
    (base path p : List ℕ) → normalize_path base path ≡ ok p → normalize_path base p ≡ ok p
unfolding normalize_path same_bytes contains_byte
normalize_path_twice base path p h =
    let (some_path, good_base, from_base, cs0, base_ok, path_ok, fits0, same0) =
      whole-inv (same_bytes path [] || contains_byte 0 path)
        (not (starts_with_slash base) || contains_byte 0 base) (base_components base path)
        (λ from_base. push_components from_base path) p h in
    let (cs, same, names, fits) = normalize_path-IsNormal base path p h in
    let q : List ℕ = slash ∷ join cs in
    let long : ltb path_max (length q) ≡ false =
      subst (λ r. ltb path_max (length r) ≡ false) same (ground arith) in
    subst (λ r. normalize_path base r ≡ ok r) (sym same)
      (ap
          (λ x.
            whole x (not (starts_with_slash base) || contains_byte 0 base) (ok [])
              (λ f. push_components f q))
          (join_no_nul cs names)
        ∙ ap (λ y. whole false y (ok []) (λ f. push_components f q)) good_base
        ∙ ap (λ r. r >>= finish) (pushed_back cs names)
        ∙ ap (λ x. if x then err VfsError.name_too_long else ok q) long)
