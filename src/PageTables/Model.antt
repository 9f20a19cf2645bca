-- ===== src/PageTables/Model.antt =====
-- A concrete memory of tables: a list of frames, each with its table of 512 words or none. It shows that
-- the trait's documentation can be met, and `clone_root` runs on it.
use generic_kernel.Common.{
  ℕ, zero, suc, ◌*◌, ◌/◌, ◌%◌, ◌<◌, ◌≡◌, ◌≢◌, ◌⊎◌, inl, inr, refl, sym, ap, subst, ◌∙◌, List, [],
  ◌∷◌, ◌++◌, Option, none, some, ltb, if◌then◌else◌, Bool-cases, arith, u64_mod, length, set,
}
use generic_kernel.PageTables.{TableMemory}
use generic_kernel.PageTables.Tree.{same_or_not}
use generic_kernel.PageTables.Words.{Table, blank, get, put, get-put, get-put_other}

-- The frame of number `n` is at the address 4096 * n.
abbrev pub Frames : Type 0
Frames = List (Option (Table 9))

unfoldable pub slot : Frames → ℕ → Option (Table 9)
slot [] n = none
slot (x ∷ xs) zero = x
slot (x ∷ xs) (suc n) = slot xs n

pub filled : Frames → ℕ
filled [] = 0
filled (none ∷ xs) = filled xs
filled (some r ∷ xs) = suc (filled xs)

slot-set :
    (xs : Frames) (n : ℕ) (r : Table 9) (x : Option (Table 9))
    → slot xs n ≡ some r
    → slot (set xs n x) n ≡ x
unfolding slot
slot-set [] n r x h = absurd (cc)
slot-set (y ∷ xs) zero r x h = refl
slot-set (y ∷ xs) (suc n) r x h = slot-set xs n r x h

slot-set_ne :
    (xs : Frames) (n k : ℕ) (x : Option (Table 9)) → k ≢ n → slot (set xs n x) k ≡ slot xs k
unfolding slot
slot-set_ne [] n k x ne = refl
slot-set_ne (y ∷ xs) zero zero x ne = absurd (ne refl)
slot-set_ne (y ∷ xs) zero (suc k) x ne = refl
slot-set_ne (y ∷ xs) (suc n) zero x ne = refl
slot-set_ne (y ∷ xs) (suc n) (suc k) x ne = slot-set_ne xs n k x (λ e. ne (ap suc e))

slot_end : (xs : Frames) (k : ℕ) (r : Table 9) → slot xs k ≡ some r → k < length xs
unfolding slot
slot_end [] k r h = absurd (cc)
slot_end (x ∷ xs) zero r h = omega arith
slot_end (x ∷ xs) (suc k) r h = omega (arith, slot_end xs k r h)

slot-append : (xs : Frames) (x : Option (Table 9)) → slot (xs ++ (x ∷ [])) (length xs) ≡ x
unfolding slot
slot-append [] x = refl
slot-append (y ∷ xs) x = slot-append xs x

slot-append_ne :
    (xs : Frames) (x : Option (Table 9)) (k : ℕ)
    → k ≢ length xs
    → slot (xs ++ (x ∷ [])) k ≡ slot xs k
unfolding slot
slot-append_ne [] x zero ne = absurd (ne refl)
slot-append_ne [] x (suc k) ne = refl
slot-append_ne (y ∷ xs) x zero ne = refl
slot-append_ne (y ∷ xs) x (suc k) ne = slot-append_ne xs x k (λ e. ne (ap suc e))

pub filled-append : (xs : Frames) (r : Table 9) → filled (xs ++ (some r ∷ [])) ≡ suc (filled xs)
unfolding filled
filled-append [] r = refl
filled-append (none ∷ xs) r = filled-append xs r
filled-append (some y ∷ xs) r = ap suc (filled-append xs r)

filled-set :
    (xs : Frames) (n : ℕ) (r r' : Table 9)
    → slot xs n ≡ some r
    → filled (set xs n (some r')) ≡ filled xs
unfolding filled slot
filled-set [] n r r' h = absurd (cc)
filled-set (none ∷ xs) zero r r' h = absurd (cc)
filled-set (some y ∷ xs) zero r r' h = refl
filled-set (none ∷ xs) (suc n) r r' h = filled-set xs n r r' h
filled-set (some y ∷ xs) (suc n) r r' h = ap suc (filled-set xs n r r' h)

-- The operations of the trait.
abbrev pub IsFrame : Frames → ℕ → Type 0
IsFrame m f = (r : Table 9) × (f % 4096 ≡ 0) × (slot m (f / 4096) ≡ some r)

unfoldable pub cell : Option (Table 9) → ℕ → ℕ
cell none i = 0
cell (some r) i = get 9 r i

unfoldable pub changed : Option (Table 9) → ℕ → ℕ → Option (Table 9)
changed none i e = none
changed (some r) i e = some (put 9 r i e)

unfoldable pub allocate_table : Frames → Option ℕ × Frames
allocate_table m =
    if ltb (4096 * length m) u64_mod
    then (some (4096 * length m), m ++ (some (blank 9) ∷ []))
    else (none, m)

unfoldable pub release_table : Frames → ℕ → Frames
release_table m f = set m (f / 4096) none

unfoldable pub read_entry : Frames → ℕ → ℕ → ℕ
read_entry m f i = cell (slot m (f / 4096)) i

unfoldable pub write_entry : Frames → ℕ → ℕ → ℕ → Frames
write_entry m f i e = set m (f / 4096) (changed (slot m (f / 4096)) i e)

some-injective : (a b : ℕ) → some a ≡ some b → b ≡ a
some-injective a b h = cc

none-some : (a : ℕ) → ¬ (◌≡◌ {A = Option ℕ} none (some a))
none-some a h = cc

pub allocated :
    (m m' : Frames) (f : ℕ)
    → allocate_table m ≡ (some f, m')
    → (f ≡ 4096 * length m) × (f < u64_mod) × (m' ≡ m ++ (some (blank 9) ∷ []))
unfolding allocate_table
allocated m m' f h = elim (Bool-cases (ltb (4096 * length m) u64_mod)) [
  | inl room ↦
      let h' : ◌≡◌ {A = Option ℕ × Frames} (some (4096 * length m), m ++ (some (blank 9) ∷ []))
          (some f, m') =
        rw room at h in
      let e : f ≡ 4096 * length m = some-injective (4096 * length m) f (ap (λ x. x.0) h') in
      let below : 4096 * length m < u64_mod = ground arith in
      (e, subst (λ x. x < u64_mod) (sym e) below, sym (ap (λ x. x.1) h'))
  | inr full ↦
      let h' : ◌≡◌ {A = Option ℕ × Frames} (none, m) (some f, m') = rw full at h in
      absurd (none-some f (ap (λ x. x.0) h'))
]

pub refused : (m m' : Frames) → allocate_table m ≡ (none, m') → m' ≡ m
unfolding allocate_table
refused m m' h = elim (Bool-cases (ltb (4096 * length m) u64_mod)) [
  | inl room ↦
      let h' : ◌≡◌ {A = Option ℕ × Frames} (some (4096 * length m), m ++ (some (blank 9) ∷ []))
          (none, m') =
        rw room at h in
      absurd (none-some (4096 * length m) (sym (ap (λ x. x.0) h')))
  | inr full ↦
      let h' : ◌≡◌ {A = Option ℕ × Frames} (none, m) (none, m') = rw full at h in
      sym (ap (λ x. x.1) h')
]

-- Frames at different addresses have different numbers.
numbers_ne : (m : Frames) (f g : ℕ) → IsFrame m f → IsFrame m g → g ≢ f → g / 4096 ≢ f / 4096
numbers_ne m f g (_, af, _) (_, ag, _) ne e = ne (omega arith)

pub IsFrame-new : (m m' : Frames) (f : ℕ) → allocate_table m ≡ (some f, m') → ¬ IsFrame m f
IsFrame-new m m' f h (r, aligned, found) =
    let (e, small, same) = allocated m m' f h in
    absurd (omega (arith, slot_end m (f / 4096) r found))

pub IsFrame-given : (m m' : Frames) (f : ℕ) → allocate_table m ≡ (some f, m') → IsFrame m' f
IsFrame-given m m' f h =
    let (e, small, same) = allocated m m' f h in
    let n : length m ≡ f / 4096 = omega arith in
    (
      blank 9,
      omega arith,
      subst (λ x. slot x (f / 4096) ≡ some (blank 9)) (sym same)
          (subst (λ k. slot (m ++ (some (blank 9) ∷ [])) k ≡ some (blank 9)) n
            (slot-append m (some (blank 9)))),
    )

pub IsFrame-only :
    (m m' : Frames) (f g : ℕ)
    → allocate_table m ≡ (some f, m')
    → IsFrame m' g
    → IsFrame m g ⊎ (g ≡ f)
IsFrame-only m m' f g h (r, aligned, found) =
    let (e, small, same) = allocated m m' f h in
    elim (same_or_not g f) [
      | inl new ↦ inr new
      | inr ne ↦
          let ne' : g / 4096 ≢ length m = λ q. ne (omega arith) in
          inl (
            r,
            aligned,
            sym (slot-append_ne m (some (blank 9)) (g / 4096) ne')
                ∙ subst (λ x. slot x (g / 4096) ≡ some r) same found,
          )
    ]

pub IsFrame-other :
    (m m' : Frames) (f g : ℕ)
    → allocate_table m ≡ (some f, m')
    → IsFrame m g
    → IsFrame m' g × ((i : ℕ) → i < 512 → read_entry m' g i ≡ read_entry m g i)
unfolding read_entry
IsFrame-other m m' f g h (r, aligned, found) =
    let (e, small, same) = allocated m m' f h in
    let below = slot_end m (g / 4096) r found in
    let kept : slot m' (g / 4096) ≡ slot m (g / 4096) =
      ap (λ x. slot x (g / 4096)) same
      ∙ slot-append_ne m (some (blank 9)) (g / 4096) (omega arith) in
    ((r, aligned, kept ∙ found), λ i lt. ap (λ s. cell s i) kept)

write_slot :
    (m : Frames) (f i e : ℕ) (r : Table 9)
    → slot m (f / 4096) ≡ some r
    → slot (write_entry m f i e) (f / 4096) ≡ some (put 9 r i e)
unfolding write_entry changed
write_slot m f i e r found =
    slot-set m (f / 4096) r (changed (slot m (f / 4096)) i e) found ∙ ap (λ s. changed s i e) found

write_slot_ne :
    (m : Frames) (f i e g : ℕ)
    → g / 4096 ≢ f / 4096
    → slot (write_entry m f i e) (g / 4096) ≡ slot m (g / 4096)
unfolding write_entry
write_slot_ne m f i e g ne =
    slot-set_ne m (f / 4096) (g / 4096) (changed (slot m (f / 4096)) i e) ne

pub entry_written :
    (m : Frames) (f i e : ℕ) → IsFrame m f → i < 512 → read_entry (write_entry m f i e) f i ≡ e
unfolding read_entry cell
entry_written m f i e (r, aligned, found) lt =
    ap (λ s. cell s i) (write_slot m f i e r found) ∙ get-put 9 r i e

pub entry_other :
    (m : Frames) (f i e g j : ℕ)
    → IsFrame m f
    → IsFrame m g
    → i < 512
    → j < 512
    → (g ≢ f) ⊎ (j ≢ i)
    → read_entry (write_entry m f i e) g j ≡ read_entry m g j
unfolding read_entry cell
entry_other m f i e g j live_f live_g lt lt' (inl ne) =
    ap (λ s. cell s j) (write_slot_ne m f i e g (numbers_ne m f g live_f live_g ne))
entry_other m f i e g j (r, af, found) live_g lt lt' (inr ne) = elim (same_or_not g f) [
  | inr apart ↦
      ap (λ s. cell s j) (write_slot_ne m f i e g (numbers_ne m f g (r, af, found) live_g apart))
  | inl one ↦
      subst (λ k. cell (slot (write_entry m f i e) (k / 4096)) j ≡ cell (slot m (k / 4096)) j)
        (sym one)
        (ap (λ s. cell s j) (write_slot m f i e r found)
          ∙ get-put_other 9 r i j e lt lt' ne
          ∙ ap (λ s. cell s j) (sym found))
]

pub entry_live :
    (m : Frames) (f i e g : ℕ)
    → IsFrame m f
    → i < 512
    → (IsFrame m g → IsFrame (write_entry m f i e) g)
      × (IsFrame (write_entry m f i e) g → IsFrame m g)
entry_live m f i e g (r, af, found) lt = (
  λ (r', aligned, found'). elim (same_or_not (g / 4096) (f / 4096)) [
    | inl one ↦ (
      put 9 r i e,
      aligned,
      subst (λ k. slot (write_entry m f i e) k ≡ some (put 9 r i e)) (sym one)
          (write_slot m f i e r found),
    )
    | inr ne ↦ (r', aligned, write_slot_ne m f i e g ne ∙ found')
  ],
  λ (r', aligned, found'). elim (same_or_not (g / 4096) (f / 4096)) [
    | inl one ↦ (r, aligned, subst (λ k. slot m k ≡ some r) (sym one) found)
    | inr ne ↦ (r', aligned, sym (write_slot_ne m f i e g ne) ∙ found')
  ],
)

pub entry_taken :
    (m : Frames) (f i e : ℕ) → IsFrame m f → i < 512 → filled (write_entry m f i e) ≡ filled m
unfolding write_entry changed
entry_taken m f i e (r, aligned, found) lt =
    ap (λ s. filled (set m (f / 4096) (changed s i e))) found
    ∙ filled-set m (f / 4096) r (put 9 r i e) found

pub IsFrame-released :
    (m : Frames) (f g : ℕ) → IsFrame m f → IsFrame (release_table m f) g → IsFrame m g × (g ≢ f)
unfolding release_table
IsFrame-released m f g (r, af, found) (r', ag, found') = elim (same_or_not (g / 4096) (f / 4096)) [
  | inl one ↦
      let gone = slot-set m (f / 4096) r none found in
      let there = subst (λ k. slot (set m (f / 4096) none) k ≡ some r') one found' in absurd (cc)
  | inr ne ↦ (
    (r', ag, sym (slot-set_ne m (f / 4096) (g / 4096) none ne) ∙ found'),
    λ e. ne (ap (λ k. k / 4096) e),
  )
]

pub IsFrame-released_other :
    (m : Frames) (f g : ℕ)
    → IsFrame m f
    → IsFrame m g
    → g ≢ f
    → IsFrame (release_table m f) g
      × ((i : ℕ) → i < 512 → read_entry (release_table m f) g i ≡ read_entry m g i)
unfolding release_table read_entry
IsFrame-released_other m f g live_f (r, ag, found) ne =
    let kept =
      slot-set_ne m (f / 4096) (g / 4096) none (numbers_ne m f g live_f (r, ag, found) ne) in
    ((r, ag, kept ∙ found), λ i lt. ap (λ s. cell s i) kept)

abbrev pub frames : TableMemory
frames = record {
  Memory = Frames;
  IsLive = IsFrame;
  taken = filled;
  allocate = allocate_table;
  release = release_table;
  read = read_entry;
  write = write_entry;
  none_left = refused;
  fresh = IsFrame-new;
  given = IsFrame-given;
  word = λ m m' f h. (allocated m m' f h).1;
  given_only = IsFrame-only;
  given_other = IsFrame-other;
  taken_one = λ m m' f h. ap filled (allocated m m' f h).2 ∙ filled-append m (blank 9);
  written = entry_written;
  written_other = entry_other;
  written_live = entry_live;
  written_taken = entry_taken;
  released = IsFrame-released;
  released_other = IsFrame-released_other;
}
