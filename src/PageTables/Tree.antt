-- ===== src/PageTables/Tree.antt =====
-- The tree of page tables below a frame: its frames, their separation, and the walk of an address.
use generic_kernel.Common.{
  ℕ, zero, suc, ◌<◌, ◌≡◌, ◌≢◌, ◌⊎◌, inl, inr, refl, sym, ap, subst, ◌∙◌, Bool, true, false, not,
  ◌&&◌, List, [], ◌∷◌, ltb, ◌==◌, if◌then◌else◌, Bool-cases, arith,
}
use generic_kernel.PageTables.{TableMemory, present, huge, address_of, flags_of}

-- Does the entry of a table of this level name a table?
unfoldable pub is_table : ℕ → ℕ → Bool
is_table level entry = ltb 1 level && (present entry && not (huge entry))

pub different : {b : Bool} → b ≡ true → b ≡ false → ⊥
different p q = cc

-- The number is the other one, or not.
pub same_or_not : (i k : ℕ) → (i ≡ k) ⊎ (i ≢ k)
same_or_not i k = elim (Bool-cases (i == k)) [
  | inl e ↦ inl (ground arith)
  | inr e ↦ inr (ground arith)
]

pub is_table_upper :
    (b entry : ℕ) → is_table (suc (suc b)) entry ≡ (present entry && not (huge entry))
unfolding is_table
is_table_upper b entry = ground arith

pub is_table_lowest : (entry : ℕ) → is_table 1 entry ≡ false
unfolding is_table
is_table_lowest entry = refl

module _ (t : TableMemory) where
  open t use {Memory, IsLive, read}

  -- The frames of the tables of the tree.
  abbrev pub In : ℕ → Memory → ℕ → ℕ → Type 0
  In zero m f g = g ≡ f
  In (suc below) m f g =
      (g ≡ f)
      ⊎ ((i : ℕ) × (i < 512)
          × (is_table (suc below) (read m f i) ≡ true)
          × In below m (address_of (read m f i)) g)

  -- No table lies below itself, nor below two entries of one table.
  abbrev pub Apart : ℕ → Memory → ℕ → Type 0
  Apart zero m f = Unit {0}
  Apart (suc below) m f =
      ((i : ℕ)
        → i < 512
        → is_table (suc below) (read m f i) ≡ true
        → Apart below m (address_of (read m f i)) × ¬ In below m (address_of (read m f i)) f)
      × ((i j g : ℕ)
          → i < 512
          → j < 512
          → i ≢ j
          → is_table (suc below) (read m f i) ≡ true
          → is_table (suc below) (read m f j) ≡ true
          → In below m (address_of (read m f i)) g
          → ¬ In below m (address_of (read m f j)) g)

  -- The walk of an address, given by its indexes: the flags of the entries that name tables, and the
  -- entry at which it ends.
  unfoldable pub walk : ℕ → Memory → ℕ → List ℕ → List ℕ
  walk zero m f path = []
  walk (suc below) m f [] = []
  walk (suc below) m f (i ∷ path) =
      let entry = read m f i in
      let rest = walk below m (address_of entry) path in
      if is_table (suc below) entry then flags_of entry ∷ rest else entry ∷ []

  abbrev pub IsPath : List ℕ → Type 0
  IsPath [] = Unit {0}
  IsPath (i ∷ path) = (i < 512) × IsPath path

  -- Every frame of a set reads alike in two memories.
  abbrev pub Agree : (ℕ → Type 0) → Memory → Memory → Type 0
  Agree P m m' = (g : ℕ) → P g → (i : ℕ) → i < 512 → read m' g i ≡ read m g i

  -- A table keeps its life and its entries.
  abbrev pub Kept : Memory → Memory → ℕ → Type 0
  Kept m m' g = IsLive m' g × ((i : ℕ) → i < 512 → read m' g i ≡ read m g i)

  pub In-root : (level : ℕ) (m : Memory) (f : ℕ) → In level m f f
  In-root zero m f = refl
  In-root (suc below) m f = inl refl

  pub In-back :
      (level : ℕ) (m m' : Memory) (f g : ℕ)
      → Agree (In level m f) m m'
      → In level m' f g
      → In level m f g
  In-back zero m m' f g same here = here
  In-back (suc below) m m' f g same (inl here) = inl here
  In-back (suc below) m m' f g same (inr (i, lt, tab, deep)) =
      let e : read m' f i ≡ read m f i = same f (inl refl) i lt in
      let tab' : is_table (suc below) (read m f i) ≡ true = rw e at tab in
      let deep' : In below m' (address_of (read m f i)) g =
        subst (λ x. In below m' (address_of x) g) e deep in
      inr (
        i,
        lt,
        tab',
        In-back below m m' (address_of (read m f i)) g
            (λ h inside. same h (inr (i, lt, tab', inside))) deep',
      )

  pub In-forth :
      (level : ℕ) (m m' : Memory) (f g : ℕ)
      → Agree (In level m f) m m'
      → In level m f g
      → In level m' f g
  In-forth zero m m' f g same here = here
  In-forth (suc below) m m' f g same (inl here) = inl here
  In-forth (suc below) m m' f g same (inr (i, lt, tab, deep)) =
      let e : read m' f i ≡ read m f i = same f (inl refl) i lt in
      inr (
        i,
        lt,
        ap (is_table (suc below)) e ∙ tab,
        subst (λ x. In below m' (address_of x) g) (sym e)
            (In-forth below m m' (address_of (read m f i)) g
              (λ h inside. same h (inr (i, lt, tab, inside))) deep),
      )

  -- A tree that reads alike keeps its walks.
  pub walk-Agree :
      (level : ℕ) (m m' : Memory) (f : ℕ) (path : List ℕ)
      → Agree (In level m f) m m'
      → IsPath path
      → walk level m' f path ≡ walk level m f path
  unfolding walk
  walk-Agree zero m m' f path same h = refl
  walk-Agree (suc below) m m' f [] same h = refl
  walk-Agree (suc below) m m' f (i ∷ path) same (lt, h) =
      let e : read m' f i ≡ read m f i = same f (inl refl) i lt in
      rw e (elim (Bool-cases (is_table (suc below) (read m f i))) [
        | inl tab ↦ rw (
          tab,
          walk-Agree below m m' (address_of (read m f i)) path
              (λ g inside. same g (inr (i, lt, tab, inside))) h,
        )
        | inr leaf ↦ rw leaf
      ])

  pub Apart-Agree :
      (level : ℕ) (m m' : Memory) (f : ℕ)
      → Agree (In level m f) m m'
      → Apart level m f
      → Apart level m' f
  Apart-Agree zero m m' f same apart = tt
  Apart-Agree (suc below) m m' f same (single, pairs) =
      let e : (i : ℕ) → i < 512 → read m' f i ≡ read m f i = λ i lt. same f (inl refl) i lt in
      let sub : (i : ℕ)
          → i < 512
          → is_table (suc below) (read m f i) ≡ true
          → Agree (In below m (address_of (read m f i))) m m' =
        λ i lt tab g inside. same g (inr (i, lt, tab, inside)) in
      let back : (i g : ℕ)
          → i < 512
          → is_table (suc below) (read m f i) ≡ true
          → In below m' (address_of (read m' f i)) g
          → In below m (address_of (read m f i)) g =
        λ i g lt tab inside.
          In-back below m m' (address_of (read m f i)) g (sub i lt tab)
            (subst (λ x. In below m' (address_of x) g) (e i lt) inside) in
      (
        λ i lt tab.
            let tab' = ap (is_table (suc below)) (sym (e i lt)) ∙ tab in
            let (deep, above) = single i lt tab' in
            (
              subst (λ x. Apart below m' (address_of x)) (sym (e i lt))
                  (Apart-Agree below m m' (address_of (read m f i)) (sub i lt tab') deep),
              λ inside. above (back i f lt tab' inside),
            ),
        λ i j g li lj ne ti tj in_i in_j.
            let ti' = ap (is_table (suc below)) (sym (e i li)) ∙ ti in
            let tj' = ap (is_table (suc below)) (sym (e j lj)) ∙ tj in
            pairs i j g li lj ne ti' tj' (back i g li ti' in_i) (back j g lj tj' in_j),
      )
