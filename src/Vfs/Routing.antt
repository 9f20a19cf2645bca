-- ===== src/Vfs/Routing.antt =====
-- `route` of vfs.rs takes the longest mount that the path lies under.
use generic_kernel.Common.{
  ℕ, zero, suc, ◌+◌, ◌≤◌, ◌≡◌, refl, sym, ap, subst, ◌∙◌, ◌⊎◌, inl, inr, Bool, true, false, ◌&&◌,
  List, [], ◌∷◌, some, ltb, arith, length, get_elem?, Bool-cases, if◌then◌else◌,
}
use generic_kernel.Vfs.{same_bytes}
use generic_kernel.Vfs.Paths.{slash}
use generic_kernel.Vfs.Mounts.{Vfs, covers_path, best_mount, paths, route, mount_at}

-- The mount `i` of the list covers the path, and has the length `l`.
abbrev pub IsMatch : List (List ℕ) → List ℕ → ℕ → ℕ → Type 0
IsMatch ms path i l =
    (m : List ℕ) × (get_elem? ms i ≡ some m) × (covers_path m path ≡ true) × (length m ≡ l)

-- The outcome of the search, from a best index and length so far.
abbrev pub Best : List (List ℕ) → List ℕ → ℕ → ℕ → ℕ → ℕ × ℕ → Type 0
Best ms path index best best_len (b, l) =
    (best_len ≤ l)
    × ((i : ℕ) (m : List ℕ) → get_elem? ms i ≡ some m → covers_path m path ≡ true → length m ≤ l)
    × (((b ≡ best) × (l ≡ best_len)) ⊎ ((i : ℕ) × (b ≡ index + i) × IsMatch ms path i l))

further :
    (m : List ℕ) (ms : List (List ℕ)) (path : List ℕ) (index best best_len : ℕ) (r : ℕ × ℕ)
    → (covers_path m path && ltb best_len (length m)) ≡ false
    → Best ms path (suc index) best best_len r
    → Best (m ∷ ms) path index best best_len r
further m ms path index best best_len (b, l) miss (up, all, from) = (
  up,
  every,
  elim from [
    | inl same ↦ inl same
    | inr (i, place, there) ↦ inr (suc i, omega (arith, place), there)
  ],
)
  where
    every :
        (i : ℕ) (n : List ℕ)
        → get_elem? (m ∷ ms) i ≡ some n
        → covers_path n path ≡ true
        → length n ≤ l
    every zero n at covered =
        let same : m ≡ n = cc in
        let covered' : covers_path m path ≡ true = ap (λ x. covers_path x path) same ∙ covered in
        let short : ltb best_len (length m) ≡ false = ground arith in
        let size : length m ≤ best_len = ground arith in
        subst (λ x. length x ≤ l) same (omega arith)
    every (suc i) n at covered = all i n at covered

taken :
    (m : List ℕ) (ms : List (List ℕ)) (path : List ℕ) (index best best_len : ℕ) (r : ℕ × ℕ)
    → covers_path m path ≡ true
    → best_len ≤ length m
    → Best ms path (suc index) index (length m) r
    → Best (m ∷ ms) path index best best_len r
taken m ms path index best best_len (b, l) covered longer (up, all, from) = (
  omega arith,
  every,
  elim from [
    | inl (place, size) ↦ inr (zero, omega (arith, place), (m, refl, covered, sym size))
    | inr (i, place, there) ↦ inr (suc i, omega (arith, place), there)
  ],
)
  where
    every :
        (i : ℕ) (n : List ℕ)
        → get_elem? (m ∷ ms) i ≡ some n
        → covers_path n path ≡ true
        → length n ≤ l
    every zero n at covered' = let same : m ≡ n = cc in subst (λ x. length x ≤ l) same up
    every (suc i) n at covered' = all i n at covered'

best_mount-Best :
    (ms : List (List ℕ)) (path : List ℕ) (index best best_len : ℕ)
    → Best ms path index best best_len (best_mount ms path index best best_len)
unfolding best_mount
best_mount-Best [] path index best best_len =
    (omega arith, λ i m at covered. absurd (cc), inl (refl, refl))
best_mount-Best (m ∷ ms) path index best best_len =
    elim (Bool-cases (covers_path m path && ltb best_len (length m))) [
      | inl hit ↦
          let covered : covers_path m path ≡ true = ground arith in
          let longer : best_len ≤ length m = ground arith in
          let step : best_mount (m ∷ ms) path index best best_len
              ≡ best_mount ms path (suc index) index (length m) =
            rw (hit, best_mount) refl in
          subst (Best (m ∷ ms) path index best best_len) (sym step) (
            taken m ms path index best best_len _ covered longer
              (best_mount-Best ms path (suc index) index (length m)))
      | inr miss ↦
          let step : best_mount (m ∷ ms) path index best best_len
              ≡ best_mount ms path (suc index) best best_len =
            rw (miss, best_mount) refl in
          subst (Best (m ∷ ms) path index best best_len) (sym step) (
            further m ms path index best best_len _ miss
              (best_mount-Best ms path (suc index) best best_len))
    ]

routed :
    (b : Bool) (index : ℕ) (p q : List ℕ)
    → let r : ℕ × List ℕ = if b then (index, p) else (index, q) in r.0 ≡ index
routed true index p q = refl
routed false index p q = refl

-- The mount that `route` takes covers the path, and no mount that covers it is longer; it takes the root
-- only when every other mount that covers the path is no longer than one byte.
pub route-Best :
    (v : Vfs) (path : List ℕ) → (l : ℕ) × Best (paths v.others) path 1 0 1 ((route v path).0, l)
unfolding route
route-Best v path =
    let ms = paths v.others in
    let best = best_mount ms path 1 0 1 in
    let mount_path = (mount_at v.root v.others best.0).path in
    (
      best.1,
      subst (λ i. Best ms path 1 0 1 (i, best.1))
          (sym (routed (same_bytes mount_path (slash ∷ [])) best.0 path _))
          (best_mount-Best ms path 1 0 1),
    )
