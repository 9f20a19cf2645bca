-- ===== src/PageTables/Ready.antt =====
-- One round of the loop of `release_tree`: what it needs of the entries that are left.
use generic_kernel.Common.{
  ℕ, suc, ◌≤◌, ◌<◌, ◌≡◌, ◌≢◌, ◌⊎◌, inl, inr, refl, sym, ap, subst, ◌∙◌, true, false, Bool-cases,
  arith, ◌==◌,
}
use generic_kernel.PageTables.{TableMemory, address_of}
use generic_kernel.PageTables.Tree.{
  different, is_table, In, Apart, Kept, In-back, In-forth, Apart-Agree,
}

-- The number is the index, or above it.
past : (index i : ℕ) → index ≤ i → (i ≡ index) ⊎ (suc index ≤ i)
past index i h = elim (Bool-cases (i == index)) [
  | inl e ↦ inl (ground arith)
  | inr e ↦ inr (ground arith)
]

module _ (t : TableMemory) where
  open t use {Memory, IsLive, release, read, released, released_other}

  -- The tables of a set are gone, and all others are as before.
  pub record IsWithout (P : ℕ → Type 0) (m m' : Memory) : Type 0 where
    pub gone : (g : ℕ) → P g → ¬ IsLive m' g
    pub kept : (g : ℕ) → IsLive m g → ¬ P g → Kept t m m' g
    pub less : (g : ℕ) → IsLive m' g → IsLive m g

  -- The tables below the entries of `f` from `index` on.
  abbrev pub Below : ℕ → ℕ → Memory → ℕ → ℕ → Type 0
  Below below index m f g =
      (i : ℕ) × (index ≤ i)
      × (i < 512)
      × (is_table (suc below) (read m f i) ≡ true)
      × In t below m (address_of (read m f i)) g

  -- What the loop needs of the entries that are left.
  pub record Ready (below index : ℕ) (m : Memory) (f : ℕ) : Type 0 where
    pub root : IsLive m f
    pub alive : (g : ℕ) → Below below index m f g → IsLive m g
    pub single :
        (i : ℕ)
        → index ≤ i
        → i < 512
        → is_table (suc below) (read m f i) ≡ true
        → Apart t below m (address_of (read m f i)) × ¬ In t below m (address_of (read m f i)) f
    pub pairs :
        (i j g : ℕ)
        → index ≤ i
        → i < 512
        → index ≤ j
        → j < 512
        → i ≢ j
        → is_table (suc below) (read m f i) ≡ true
        → is_table (suc below) (read m f j) ≡ true
        → In t below m (address_of (read m f i)) g
        → ¬ In t below m (address_of (read m f j)) g

  module _ (below index : ℕ) (m m1 : Memory) (f : ℕ) (small : index < 512)
      (ready : Ready below index m f) where
    open ready use {root, alive, single, pairs}

    -- Without a table at the index, the rest is ready.
    pub skipped : Ready below (suc index) m f
    skipped = record {
      root = root;
      alive = λ g (i, le, lt, tab, deep). alive g (i, omega arith, lt, tab, deep);
      single = λ i le lt tab. single i (omega arith) lt tab;
      pairs =
          λ i j g le lt le' lt' ne ti tj. pairs i j g (omega arith) lt (omega arith) lt' ne ti tj;
    }

    -- The whole loop, where no tree was taken away at the index.
    pub omitted :
        is_table (suc below) (read m f index) ≡ false
        → IsWithout (Below below (suc index) m f) m m1
        → IsWithout (Below below index m f) m m1
    omitted leaf rest = record {
      gone = λ g (i, le, lt, tab, deep) live. elim (past index i le) [
        | inl e ↦
            absurd (different (subst (λ k. is_table (suc below) (read m f k) ≡ true) e tab) leaf)
        | inr above ↦ rest.gone g (i, above, lt, tab, deep) live
      ];
      kept = λ g live out.
          rest.kept g live (λ (i, le, lt, tab, deep). out (i, omega arith, lt, tab, deep));
      less = rest.less;
    }

    module _ (tab : is_table (suc below) (read m f index) ≡ true)
        (done : IsWithout (In t below m (address_of (read m f index))) m m1) where
      root_kept : Kept t m m1 f
      root_kept = done.kept f root (single index (omega arith) small tab).1

      -- The trees of the later entries read as before.
      later :
          (i : ℕ)
          → suc index ≤ i
          → i < 512
          → is_table (suc below) (read m f i) ≡ true
          → (g : ℕ) → In t below m (address_of (read m f i)) g
          → Kept t m m1 g
      later i le lt tab_i g deep =
          done.kept g (alive g (i, omega arith, lt, tab_i, deep))
            (pairs i index g (omega arith) lt (omega arith) small (omega arith) tab_i tab deep)

      older :
          (i : ℕ)
          → i < 512
          → is_table (suc below) (read m1 f i) ≡ true
          → is_table (suc below) (read m f i) ≡ true
      older i lt tab_i = ap (is_table (suc below)) (sym (root_kept.1 i lt)) ∙ tab_i

      back :
          (i g : ℕ)
          → suc index ≤ i
          → i < 512
          → is_table (suc below) (read m1 f i) ≡ true
          → In t below m1 (address_of (read m1 f i)) g
          → In t below m (address_of (read m f i)) g
      back i g le lt tab_i deep =
          In-back t below m m1 (address_of (read m f i)) g
            (λ h inside. (later i le lt (older i lt tab_i) h inside).1)
            (subst (λ x. In t below m1 (address_of x) g) (root_kept.1 i lt) deep)

      forth :
          (i g : ℕ)
          → suc index ≤ i
          → i < 512
          → is_table (suc below) (read m f i) ≡ true
          → In t below m (address_of (read m f i)) g
          → Below below (suc index) m1 f g
      forth i g le lt tab_i deep = (
        i,
        le,
        lt,
        ap (is_table (suc below)) (root_kept.1 i lt) ∙ tab_i,
        subst (λ x. In t below m1 (address_of x) g) (sym (root_kept.1 i lt))
            (In-forth t below m m1 (address_of (read m f i)) g
              (λ h inside. (later i le lt tab_i h inside).1) deep),
      )

      pub cleared : Ready below (suc index) m1 f
      cleared = record {
        root = root_kept.0;
        alive = λ g (i, le, lt, tab_i, deep).
            (later i le lt (older i lt tab_i) g (back i g le lt tab_i deep)).0;
        single = λ i le lt tab_i.
            let old = older i lt tab_i in
            let (apart, above) = single i (omega arith) lt old in
            (
              subst (λ x. Apart t below m1 (address_of x)) (sym (root_kept.1 i lt))
                  (Apart-Agree t below m m1 (address_of (read m f i))
                    (λ h inside. (later i le lt old h inside).1) apart),
              λ inside. above (back i f le lt tab_i inside),
            );
        pairs = λ i j g le lt le' lt' ne ti tj in_i in_j.
            pairs i j g (omega arith) lt (omega arith) lt' ne (older i lt ti) (older j lt' tj)
              (back i g le lt ti in_i) (back j g le' lt' tj in_j);
      }

      -- The whole loop, from the rest of it.
      pub joined :
          (m2 : Memory)
          → IsWithout (Below below (suc index) m1 f) m1 m2
          → IsWithout (Below below index m f) m m2
      joined m2 rest = record {
        gone = λ g (i, le, lt, tab_i, deep) live. elim (past index i le) [
          | inl e ↦
              done.gone g (subst (λ k. In t below m (address_of (read m f k)) g) e deep)
                (rest.less g live)
          | inr above ↦ rest.gone g (forth i g above lt tab_i deep) live
        ];
        kept = λ g live out.
            let (live1, same1) =
              done.kept g live (λ deep. out (index, omega arith, small, tab, deep)) in
            let (live2, same2) = rest.kept g live1 (λ (i, le, lt, tab_i, deep).
              out (i, omega arith, lt, older i lt tab_i, back i g le lt tab_i deep)) in
            (live2, λ i lt. same2 i lt ∙ same1 i lt);
        less = λ g live. done.less g (rest.less g live);
      }

  pub without_none : (P : ℕ → Type 0) (m : Memory) → ((g : ℕ) → ¬ P g) → IsWithout P m m
  without_none P m none_left = record {
    gone = λ g p. absurd (none_left g p);
    kept = λ g live out. (live, λ i lt. refl);
    less = λ g live. live;
  }
