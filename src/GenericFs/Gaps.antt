-- ===== src/GenericFs/Gaps.antt =====
-- `find_extent` finds sectors that no other file uses.
use generic_kernel.Common.{
  ℕ, zero, suc, ◌+◌, ◌-◌, ◌≤◌, ◌<◌, ◌≡◌, ◌≢◌, refl, sym, ap, ◌∙◌, ◌⊎◌, inl, inr, Bool, true, false,
  not, ◌&&◌, ◌||◌, List, [], ◌∷◌, arith, leb, ◌==◌, ==_iff, Result, ok, err, Bool-cases, max,
  u64_mod, subst, ok-injective, if◌then◌else◌,
}
use generic_kernel.Vfs.{VfsError}
use generic_kernel.GenericFs.Device.{BlockDevice}
use generic_kernel.GenericFs.Codec.{DiskInode}
use generic_kernel.GenericFs.Table.{read_inode, data_start}
use generic_kernel.GenericFs.Slots.{read_inode-inv}
use generic_kernel.GenericFs.Steps.{bind-inv}
use generic_kernel.GenericFs.Extent.{
  Extent, extent_of, add64, insert_extent, sort_extents, first_gap, gap_inside, used_from,
  find_extent,
}

-- The sectors `[g, g + n)` and an extent have no sector in common.
abbrev pub Apart : ℕ → ℕ → Extent → Type 0
Apart g n x = (g + n ≤ x.first) ⊎ (x.past ≤ g)

abbrev pub Each : (Extent → Type 0) → List Extent → Type 0
Each P [] = Unit {0}
Each P (x ∷ xs) = P x × Each P xs

abbrev IsSorted : List Extent → Type 0
IsSorted [] = Unit {0}
IsSorted (x ∷ xs) = Each (λ y. x.first ≤ y.first) xs × IsSorted xs

Each-map :
    (P Q : Extent → Type 0) (xs : List Extent) → ((x : Extent) → P x → Q x) → Each P xs → Each Q xs
Each-map P Q [] f e = tt
Each-map P Q (x ∷ xs) f e = (f x e.0, Each-map P Q xs f e.1)

insert-Each :
    (P : Extent → Type 0) (x : Extent) (xs : List Extent)
    → P x
    → Each P xs
    → Each P (insert_extent x xs)
unfolding insert_extent
insert-Each P x [] p e = (p, tt)
insert-Each P x (y ∷ ys) p e = elim (Bool-cases (leb x.first y.first)) [
  | inl le ↦ rw (le, insert_extent) (p, e)
  | inr gt ↦ rw (gt, insert_extent) (e.0, insert-Each P x ys p e.1)
]

Each-insert :
    (P : Extent → Type 0) (x : Extent) (xs : List Extent)
    → Each P (insert_extent x xs)
    → P x × Each P xs
unfolding insert_extent
Each-insert P x [] e = e
Each-insert P x (y ∷ ys) e = elim (Bool-cases (leb x.first y.first)) [
  | inl le ↦ let h : Each P (x ∷ y ∷ ys) = rw (le, insert_extent) at e in (h.0, h.1)
  | inr gt ↦
      let h : Each P (y ∷ insert_extent x ys) = rw (gt, insert_extent) at e in
      let (p, rest) = Each-insert P x ys h.1 in (p, (h.0, rest))
]

sort-Each : (P : Extent → Type 0) (xs : List Extent) → Each P xs → Each P (sort_extents xs)
unfolding sort_extents
sort-Each P [] e = tt
sort-Each P (x ∷ xs) e = insert-Each P x (sort_extents xs) e.0 (sort-Each P xs e.1)

Each-sort : (P : Extent → Type 0) (xs : List Extent) → Each P (sort_extents xs) → Each P xs
unfolding sort_extents
Each-sort P [] e = tt
Each-sort P (x ∷ xs) e =
    let (p, rest) = Each-insert P x (sort_extents xs) e in (p, Each-sort P xs rest)

insert-IsSorted : (x : Extent) (xs : List Extent) → IsSorted xs → IsSorted (insert_extent x xs)
unfolding insert_extent
insert-IsSorted x [] s = (tt, tt)
insert-IsSorted x (y ∷ ys) s = elim (Bool-cases (leb x.first y.first)) [
  | inl le ↦ rw le (
    (
      ground arith,
      Each-map (λ z. y.first ≤ z.first) (λ z. x.first ≤ z.first) ys (λ z h. ground arith) s.0,
    ),
    s,
  )
  | inr gt ↦
      rw gt (insert-Each (λ z. y.first ≤ z.first) x ys (ground arith) s.0, insert-IsSorted x ys s.1)
]

sort-IsSorted : (xs : List Extent) → IsSorted (sort_extents xs)
unfolding sort_extents
sort-IsSorted [] = tt
sort-IsSorted (x ∷ xs) = insert-IsSorted x (sort_extents xs) (sort-IsSorted xs)

-- No sum of the search wraps.
abbrev pub Fits : ℕ → Extent → Type 0
Fits n x = x.past + n < u64_mod

first_gap-Apart :
    (n c : ℕ) (xs : List Extent)
    → IsSorted xs
    → c + n < u64_mod
    → Each (Fits n) xs
    → (c ≤ first_gap n c xs)
      × (first_gap n c xs + n < u64_mod)
      × Each (Apart (first_gap n c xs) n) xs
unfolding first_gap
first_gap-Apart n c [] s w f = (omega arith, w, tt)
first_gap-Apart n c (x ∷ xs) s w f = elim (Bool-cases (leb (add64 c n) x.first)) [
  | inl gap ↦
      let before : c + n ≤ x.first = ground arith in
      let here : first_gap n c (x ∷ xs) ≡ c = rw (gap, first_gap) refl in
      subst (λ g. (c ≤ g) × (g + n < u64_mod) × Each (Apart g n) (x ∷ xs)) (sym here)
        (
          omega arith,
          w,
          (
            inl before,
            Each-map (λ y. x.first ≤ y.first) (Apart c n) xs (λ y h. inl (omega arith)) s.0,
          ),
        )
  | inr none_here ↦
      let (up, word, rest) = first_gap-Apart n (max c x.past) xs s.1 (omega (arith, f.0)) f.1 in
      let later : first_gap n c (x ∷ xs) ≡ first_gap n (max c x.past) xs =
        rw (none_here, first_gap) refl in
      subst (λ g. (c ≤ g) × (g + n < u64_mod) × Each (Apart g n) (x ∷ xs)) (sym later)
        (omega arith, word, (inr (omega arith), rest))
]

-- The gap before an extent ends where that one starts.
gap_inside-before :
    (n c limit : ℕ) (xs : List Extent)
    → c + n < u64_mod
    → Each (Fits n) xs
    → Each (λ x. x.first ≤ limit) xs
    → gap_inside n c xs ≡ true
    → first_gap n c xs + n ≤ limit
unfolding first_gap gap_inside
gap_inside-before n c limit [] w f low h = absurd (cc)
gap_inside-before n c limit (x ∷ xs) w f low h = elim (Bool-cases (leb (add64 c n) x.first)) [
  | inl gap ↦
      let here : first_gap n c (x ∷ xs) ≡ c = rw (gap, first_gap) refl in
      subst (λ g. g + n ≤ limit) (sym here) (ground (arith, low.0))
  | inr none_here ↦
      let later : first_gap n c (x ∷ xs) ≡ first_gap n (max c x.past) xs =
        rw (none_here, first_gap) refl in
      let more : gap_inside n (max c x.past) xs ≡ true = rw (none_here, gap_inside) at h in
      subst (λ g. g + n ≤ limit) (sym later)
        (gap_inside-before n (max c x.past) limit xs (omega (arith, f.0)) f.1 low.1 more)
]

-- The gap lies before an extent, or the end of the device has been looked at.
gap-within :
    (n c limit : ℕ) (xs : List Extent)
    → c + n < u64_mod
    → first_gap n c xs + n < u64_mod
    → Each (Fits n) xs
    → Each (λ x. x.first ≤ limit) xs
    → (gap_inside n c xs || leb (add64 (first_gap n c xs) n) limit) ≡ true
    → first_gap n c xs + n ≤ limit
gap-within n c limit xs w word f low h = elim (Bool-cases (gap_inside n c xs)) [
  | inl inside ↦ gap_inside-before n c limit xs w f low inside
  | inr last ↦
      let test : leb (add64 (first_gap n c xs) n) limit ≡ true = rw last at h in
      ground (arith, word)
]

module _ (dev : BlockDevice) where
  open dev use {Disk, sector_count}

  -- What holds of the extent of every file but one holds of every collected extent, and back.
  abbrev pub Files : Disk → ℕ → ℕ → ℕ → (Extent → Type 0) → Type 0
  Files d rounds inode exclude P =
      (j : ℕ) (entry : DiskInode)
      → inode ≤ j
      → j < inode + rounds
      → j ≢ exclude
      → read_inode dev j d ≡ (ok entry, d)
      → entry.kind ≡ 1
      → entry.sector_count ≢ 0
      → P (extent_of entry)

  collected :
      (P : Extent → Type 0) (entry : DiskInode) (rest us : List Extent)
      → (if entry.kind == 1 && not (entry.sector_count == 0) then extent_of entry ∷ rest else rest)
        ≡ us
      → ((entry.kind ≡ 1 → entry.sector_count ≢ 0 → P (extent_of entry)) → Each P rest → Each P us)
        × (Each P us
            → (entry.kind ≡ 1 → entry.sector_count ≢ 0 → P (extent_of entry)) × Each P rest)
  collected P entry rest us h =
      elim (Bool-cases (entry.kind == 1 && not (entry.sector_count == 0))) [
        | inl file ↦
            let h' : extent_of entry ∷ rest ≡ us = rw file at h in
            (
              λ p q. subst (Each P) h' (p (ground arith) (ground arith), q),
              λ e. let (p, q) = subst (Each P) (sym h') e in (λ _ _. p, q),
            )
        | inr skip ↦
            let h' : rest ≡ us = rw skip at h in
            (
              λ p q. subst (Each P) h' q,
              λ e. (λ k c. absurd (ground arith), subst (Each P) (sym h') e),
            )
      ]

  -- One slot more: a slot that is read, and is not the excluded one.
  used_step :
      (rounds inode exclude : ℕ) (d : Disk) (first : DiskInode) (rest us : List Extent)
      (P : Extent → Type 0)
      → inode ≢ exclude
      → read_inode dev inode d ≡ (ok first, d)
      → (if first.kind == 1 && not (first.sector_count == 0) then extent_of first ∷ rest else rest)
        ≡ us
      → (Files d rounds (suc inode) exclude P → Each P rest)
        × (Each P rest → Files d rounds (suc inode) exclude P)
      → (Files d (suc rounds) inode exclude P → Each P us)
        × (Each P us → Files d (suc rounds) inode exclude P)
  used_step rounds inode exclude d first rest us P other got choice (there, back) =
      let (put, take_apart) = collected P first rest us choice in
      (
        λ f.
            put (f inode first (omega arith) (omega arith) other got)
              (there (λ j entry lo hi. f j entry (omega arith) (omega arith))),
        λ e j entry lo hi apart found kind some. elim (Bool-cases (inode == j)) [
          | inl here ↦
              let one : inode ≡ j = (==_iff _ _).0 here in
              let same : first ≡ entry = ok-injective {E = VfsError} first entry (
                ap (λ p. p.0)
                  (sym got ∙ subst (λ k. read_inode dev k d ≡ (ok entry, d)) (sym one) found)) in
              subst (λ x. P (extent_of x)) same
                ((take_apart e).0 (ap (λ x. x.kind) same ∙ kind)
                  (λ z. some (sym (ap (λ x. x.sector_count) same) ∙ z)))
          | inr later ↦
              back (take_apart e).1 j entry (ground arith) (omega arith) apart found kind some
        ],
      )

  pub used-Files :
      (rounds inode exclude : ℕ) (d d' : Disk) (us : List Extent) (P : Extent → Type 0)
      → used_from dev rounds inode exclude d ≡ (ok us, d')
      → (d' ≡ d)
        × (Files d rounds inode exclude P → Each P us)
        × (Each P us → Files d rounds inode exclude P)
  unfolding used_from
  used-Files zero inode exclude d d' us P h = (
    sym (ap (λ p. p.1) h),
    λ _. subst (Each P) (ok-injective {E = VfsError} [] us (ap (λ p. p.0) h)) tt,
    λ _ j entry lo hi _ _ _ _. absurd (omega arith),
  )
  used-Files (suc rounds) inode exclude d d' us P h = elim (Bool-cases (inode == exclude)) [
    | inl same ↦
        let h' : used_from dev rounds (suc inode) exclude d ≡ (ok us, d') =
          rw (same, used_from) at h in
        let (kept, there, back) = used-Files rounds (suc inode) exclude d d' us P h' in
        (
          kept,
          λ f. there (λ j entry lo hi. f j entry (omega arith) (omega arith)),
          λ e j entry lo hi apart. back e j entry (ground arith) (omega arith) apart,
        )
    | inr other ↦
        let (first, got, next) = read_inode-inv dev inode _ d d' us (rw (other, used_from) at h) in
        let (rest, d1, more, last) =
          bind-inv (used_from dev rounds (suc inode) exclude) _ d d' us next in
        let found = used-Files rounds (suc inode) exclude d d1 rest P more in
        let both =
          used_step rounds inode exclude d first rest us P (ground arith) got
            (ok-injective {E = VfsError} _ us (ap (λ p. p.0) last)) (found.1, found.2) in
        (sym (ap (λ p. p.1) last) ∙ found.0, both.0, both.1)
  ]

  pub placed :
      (b : Bool) (g' g : ℕ) (d d' : Disk)
      → ◌≡◌ {A = Result VfsError ℕ × Disk}
          (if b then (ok g', d) else (err VfsError.no_space, d))
          (ok g, d')
      → g' ≡ g
  placed true g' g d d' h = ok-injective {E = VfsError} g' g (ap (λ p. p.0) h)
  placed false g' g d d' h = absurd (cc)

  placed_disk :
      (b : Bool) (g' g : ℕ) (d d' : Disk)
      → ◌≡◌ {A = Result VfsError ℕ × Disk}
          (if b then (ok g', d) else (err VfsError.no_space, d))
          (ok g, d')
      → d' ≡ d
  placed_disk true g' g d d' h = sym (ap (λ p. p.1) h)
  placed_disk false g' g d d' h = absurd (cc)

  placed_test :
      (b : Bool) (g' g : ℕ) (d d' : Disk)
      → ◌≡◌ {A = Result VfsError ℕ × Disk}
          (if b then (ok g', d) else (err VfsError.no_space, d))
          (ok g, d')
      → b ≡ true
  placed_test true g' g d d' h = refl
  placed_test false g' g d d' h = absurd (cc)

  -- A search that succeeds leaves the disk alone.
  pub find_extent-disk :
      (sectors i g : ℕ) (d d' : Disk)
      → 0 < sectors
      → find_extent dev sectors i d ≡ (ok g, d')
      → d' ≡ d
  unfolding find_extent
  find_extent-disk sectors i g d d' some h =
      let none : (sectors == 0) ≡ false = ground arith in
      let (us, d1, got, last) =
        bind-inv (used_from dev 63 2 i) _ d d' g (rw (none, find_extent) at h) in
      placed_disk _ _ g d1 d' last ∙ (used-Files 63 2 i d d1 us (λ _. Unit {0}) got).0

  -- The sectors that `find_extent` returns lie between the start of the data area and the end of the
  -- device, and no other file uses one of them, when every other file starts on the device and does not
  -- end within `sectors` of 2^64.
  pub find_extent-Apart :
      (sectors i g : ℕ) (d d' : Disk)
      → 0 < sectors
      → sectors < u64_mod - data_start
      → find_extent dev sectors i d ≡ (ok g, d')
      → Files d 63 2 i (Fits sectors)
      → Files d 63 2 i (λ x. x.first ≤ sector_count d)
      → (data_start ≤ g) × (g + sectors ≤ sector_count d) × Files d 63 2 i (Apart g sectors)
  unfolding find_extent
  find_extent-Apart sectors i g d d' some few h fits starts =
      let none : (sectors == 0) ≡ false = ground arith in
      let (us, d1, got, last) =
        bind-inv (used_from dev 63 2 i) _ d d' g (rw (none, find_extent) at h) in
      let all = sort_extents us in
      let every =
        sort-Each (Fits sectors) us ((used-Files 63 2 i d d1 us (Fits sectors) got).1 fits) in
      let low : (x : Extent) → Type 0 = λ x. x.first ≤ sector_count d in
      let begin = sort-Each low us ((used-Files 63 2 i d d1 us low got).1 starts) in
      let same = (used-Files 63 2 i d d1 us low got).0 in
      let (up, word, apart) =
        first_gap-Apart sectors data_start all (sort-IsSorted us) (omega arith) every in
      let place : first_gap sectors data_start all ≡ g = placed _ _ g d1 d' last in
      let test : (gap_inside sectors data_start all
            || leb (add64 (first_gap sectors data_start all) sectors) (sector_count d))
          ≡ true =
        subst
          (λ e.
            (gap_inside sectors data_start all
              || leb (add64 (first_gap sectors data_start all) sectors) (sector_count e))
            ≡ true)
          same (placed_test _ _ g d1 d' last) in
      (
        omega (arith, place),
        subst (λ k. k + sectors ≤ sector_count d) place
            (gap-within sectors data_start (sector_count d) all (omega arith) word every begin
              test),
        (used-Files 63 2 i d d1 us (Apart g sectors) got).2
            (Each-sort (Apart g sectors) us (subst (λ k. Each (Apart k sectors) all) place apart)),
      )
