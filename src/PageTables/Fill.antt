-- ===== src/PageTables/Fill.antt =====
-- One round of the copying loop of `clone_table`.
use generic_kernel.Common.{
  ℕ, suc, ◌<◌, ◌≡◌, ◌≢◌, ◌⊎◌, inl, inr, refl, sym, ap, subst, ◌∙◌, true, false, arith,
}
use generic_kernel.PageTables.{TableMemory, address_of}
use generic_kernel.PageTables.Tree.{
  different, same_or_not, is_table, In, Apart, Agree, Kept, walk, In-back, In-forth, walk-Agree,
  Apart-Agree,
}
use generic_kernel.PageTables.Owned.{IsCopied, IsOwned, IsFilled, IsPiece}

module _ (t : TableMemory) where
  open t use {Memory, IsLive, read, write, written, written_other, written_live}

  -- One round of the loop.
  module _ (below k : ℕ) (m0 m m1 : Memory) (source d r : ℕ) (small : k < 512)
      (live_source : (g : ℕ) → In t (suc below) m0 source g → IsLive m0 g)
      (filled : IsFilled t below k m0 m source d)
      (piece : IsPiece t below m m1 (read m source k) r) where
    open filled use {owned}

    m2 : Memory
    m2 = write m1 d k r

    d_live : IsLive m d
    d_live = owned.alive d (inl refl)

    d_new : ¬ IsLive m0 d
    d_new = owned.fresh d (inl refl)

    d_live1 : IsLive m1 d
    d_live1 = (piece.grows d d_live).0

    live2 : (g : ℕ) → IsLive m1 g → IsLive m2 g
    unfolding m2
    live2 g h = (written_live m1 d k r g d_live1 small).0 h

    live1 : (g : ℕ) → IsLive m2 g → IsLive m1 g
    unfolding m2
    live1 g h = (written_live m1 d k r g d_live1 small).1 h

    at_k : read m2 d k ≡ r
    unfolding m2
    at_k = written m1 d k r d_live1 small

    -- A live table other than the destination is not touched.
    stays : (g : ℕ) → IsLive m g → g ≢ d → Kept t m m2 g
    unfolding m2
    stays g live ne =
        let (alive1, same) = piece.grows g live in
        (
          live2 g alive1,
          λ i lt. written_other m1 d k r g i d_live1 alive1 small lt (inl ne) ∙ same i lt,
        )

    at_other : (i : ℕ) → i < 512 → i ≢ k → read m2 d i ≡ read m d i
    unfolding m2
    at_other i lt ne =
        written_other m1 d k r d i d_live1 d_live1 small lt (inr ne) ∙ (piece.grows d d_live).1 i lt

    -- The trees of the earlier entries read as before, and so does the new one.
    old_same :
        (i : ℕ)
        → i < 512
        → is_table (suc below) (read m d i) ≡ true
        → (g : ℕ) → In t below m (address_of (read m d i)) g
        → Kept t m m2 g
    old_same i lt tab g deep =
        stays g (owned.alive g (inr (i, lt, tab, deep)))
          λ e. (owned.apart.0 i lt tab).1 (subst (In t below m (address_of (read m d i))) e deep)

    new_same : is_table (suc below) r ≡ true → Agree t (In t below m1 (address_of r)) m1 m2
    unfolding m2
    new_same tab g deep i lt =
        written_other m1 d k r g i d_live1 (piece.alive g tab deep) small lt
          (inl (λ e. piece.fresh g tab deep (subst (IsLive m) (sym e) d_live)))

    old_table :
        (i : ℕ)
        → i < 512
        → i ≢ k
        → is_table (suc below) (read m2 d i) ≡ true
        → is_table (suc below) (read m d i) ≡ true
    old_table i lt ne tab = ap (is_table (suc below)) (sym (at_other i lt ne)) ∙ tab

    new_table : is_table (suc below) (read m2 d k) ≡ true → is_table (suc below) r ≡ true
    new_table tab = ap (is_table (suc below)) (sym at_k) ∙ tab

    old_back :
        (i g : ℕ)
        → i < 512
        → i ≢ k
        → is_table (suc below) (read m2 d i) ≡ true
        → In t below m2 (address_of (read m2 d i)) g
        → In t below m (address_of (read m d i)) g
    old_back i g lt ne tab deep =
        In-back t below m m2 (address_of (read m d i)) g
          (λ h inside. (old_same i lt (old_table i lt ne tab) h inside).1)
          (subst (λ x. In t below m2 (address_of x) g) (at_other i lt ne) deep)

    new_back :
        (g : ℕ)
        → is_table (suc below) (read m2 d k) ≡ true
        → In t below m2 (address_of (read m2 d k)) g
        → In t below m1 (address_of r) g
    new_back g tab deep =
        In-back t below m1 m2 (address_of r) g (new_same (new_table tab))
          (subst (λ x. In t below m2 (address_of x) g) at_k deep)

    old_forth :
        (g i : ℕ)
        → i < 512
        → i ≢ k
        → is_table (suc below) (read m d i) ≡ true
        → In t below m (address_of (read m d i)) g
        → In t (suc below) m2 d g
    old_forth g i lt ne tab deep = inr (
      i,
      lt,
      ap (is_table (suc below)) (at_other i lt ne) ∙ tab,
      subst (λ x. In t below m2 (address_of x) g) (sym (at_other i lt ne))
          (In-forth t below m m2 (address_of (read m d i)) g
            (λ h inside. (old_same i lt tab h inside).1) deep),
    )

    new_forth :
        (g : ℕ)
        → is_table (suc below) r ≡ true
        → In t below m1 (address_of r) g
        → In t (suc below) m2 d g
    new_forth g tab deep = inr (
      k,
      small,
      ap (is_table (suc below)) at_k ∙ tab,
      subst (λ x. In t below m2 (address_of x) g) (sym at_k)
          (In-forth t below m1 m2 (address_of r) g (new_same tab) deep),
    )

    was_bare : is_table (suc below) (read m d k) ≡ false
    was_bare = filled.rest k (omega arith) small

    carried : (g : ℕ) → In t (suc below) m d g → In t (suc below) m2 d g
    carried g (inl e) = inl e
    carried g (inr (i, lt, tab, deep)) = elim (same_or_not i k) [
      | inl e ↦
          absurd (different (subst (λ j. is_table (suc below) (read m d j) ≡ true) e tab) was_bare)
      | inr ne ↦ old_forth g i lt ne tab deep
    ]

    -- A frame of the grown tree is a frame of the tree before, or of the new subtree.
    split :
        (g : ℕ)
        → In t (suc below) m2 d g
        → In t (suc below) m d g
          ⊎ ((is_table (suc below) r ≡ true) × In t below m1 (address_of r) g)
    split g (inl e) = inl (inl e)
    split g (inr (i, lt, tab, deep)) = elim (same_or_not i k) [
      | inl e ↦
          let tab' = subst (λ j. is_table (suc below) (read m2 d j) ≡ true) e tab in
          let deep' = subst (λ j. In t below m2 (address_of (read m2 d j)) g) e deep in
          inr (new_table tab', new_back g tab' deep')
      | inr ne ↦ inl (inr (i, lt, old_table i lt ne tab, old_back i g lt ne tab deep))
    ]

    grown_fresh : (g : ℕ) → In t (suc below) m2 d g → ¬ IsLive m0 g
    grown_fresh g inside live = elim (split g inside) [
      | inl old ↦ owned.fresh g old live
      | inr (tab, deep) ↦ piece.fresh g tab deep (owned.grows g live).0
    ]

    grown_alive : (g : ℕ) → In t (suc below) m2 d g → IsLive m2 g
    grown_alive g inside = elim (split g inside) [
      | inl old ↦ live2 g (piece.grows g (owned.alive g old)).0
      | inr (tab, deep) ↦ live2 g (piece.alive g tab deep)
    ]

    grown_whole : (g : ℕ) → IsLive m2 g → IsLive m0 g ⊎ In t (suc below) m2 d g
    grown_whole g live = elim (piece.whole g (live1 g live)) [
      | inl old ↦ elim (owned.whole g old) [
        | inl older ↦ inl older
        | inr inside ↦ inr (carried g inside)
      ]
      | inr (tab, deep) ↦ inr (new_forth g tab deep)
    ]

    -- The new subtree has no frame that was there before.
    new_old :
        (i g : ℕ)
        → i < 512
        → is_table (suc below) (read m d i) ≡ true
        → is_table (suc below) r ≡ true
        → In t below m (address_of (read m d i)) g
        → ¬ In t below m1 (address_of r) g
    new_old i g lt tab tab_r old new =
        piece.fresh g tab_r new (owned.alive g (inr (i, lt, tab, old)))

    Apart-one :
        (i : ℕ)
        → i < 512
        → is_table (suc below) (read m2 d i) ≡ true
        → Apart t below m2 (address_of (read m2 d i)) × ¬ In t below m2 (address_of (read m2 d i)) d
    Apart-one i lt tab = elim (same_or_not i k) [
      | inl e ↦
          subst
            (λ j.
              Apart t below m2 (address_of (read m2 d j))
              × ¬ In t below m2 (address_of (read m2 d j)) d)
            (sym e)
            (let tab' = subst (λ j. is_table (suc below) (read m2 d j) ≡ true) e tab in
              let tab_r = new_table tab' in
              (
                subst (λ x. Apart t below m2 (address_of x)) (sym at_k)
                    (Apart-Agree t below m1 m2 (address_of r) (new_same tab_r) (piece.apart tab_r)),
                λ deep. piece.fresh d tab_r (new_back d tab' deep) d_live,
              ))
      | inr ne ↦
          let old = old_table i lt ne tab in
          let (apart, above) = owned.apart.0 i lt old in
          (
            subst (λ x. Apart t below m2 (address_of x)) (sym (at_other i lt ne))
                (Apart-Agree t below m m2 (address_of (read m d i))
                  (λ h inside. (old_same i lt old h inside).1) apart),
            λ deep. above (old_back i d lt ne tab deep),
          )
    ]

    Apart-two :
        (i j g : ℕ)
        → i < 512
        → j < 512
        → i ≢ j
        → is_table (suc below) (read m2 d i) ≡ true
        → is_table (suc below) (read m2 d j) ≡ true
        → In t below m2 (address_of (read m2 d i)) g
        → ¬ In t below m2 (address_of (read m2 d j)) g
    Apart-two i j g li lj ne ti tj in_i in_j = elim (same_or_not i k) [
      | inl ei ↦
          let ti' = subst (λ x. is_table (suc below) (read m2 d x) ≡ true) ei ti in
          let in_k = subst (λ x. In t below m2 (address_of (read m2 d x)) g) ei in_i in
          let nj : j ≢ k = λ ej. ne (ei ∙ sym ej) in
          new_old j g lj (old_table j lj nj tj) (new_table ti') (old_back j g lj nj tj in_j)
            (new_back g ti' in_k)
      | inr ni ↦ elim (same_or_not j k) [
        | inl ej ↦
            let tj' = subst (λ x. is_table (suc below) (read m2 d x) ≡ true) ej tj in
            let in_k = subst (λ x. In t below m2 (address_of (read m2 d x)) g) ej in_j in
            new_old i g li (old_table i li ni ti) (new_table tj') (old_back i g li ni ti in_i)
              (new_back g tj' in_k)
        | inr nj ↦
            owned.apart.1 i j g li lj ne (old_table i li ni ti) (old_table j lj nj tj)
              (old_back i g li ni ti in_i) (old_back j g lj nj tj in_j)
      ]
    ]

    grown : IsOwned t (suc below) m0 m2 d
    grown = record {
      grows = λ g live.
          let (live', same) = owned.grows g live in
          let (live'', same') = stays g live' (λ e. d_new (subst (IsLive m0) e live)) in
          (live'', λ i lt. same' i lt ∙ same i lt);
      fresh = grown_fresh;
      alive = grown_alive;
      whole = grown_whole;
      apart = (Apart-one, Apart-two);
    }

    -- The entries copied before, and the one at `k`.
    copied_old : (i : ℕ) → i < k → i < 512 → IsCopied t below m0 m2 (read m0 source i) (read m2 d i)
    copied_old i below_k lt =
        let ne : i ≢ k = omega arith in
        let old = filled.copied i below_k lt in
        subst (IsCopied t below m0 m2 (read m0 source i)) (sym (at_other i lt ne)) (record {
          tables = old.tables;
          flags = old.flags;
          deep = λ tab path ip.
              let tab' = old.tables ∙ tab in
              walk-Agree t below m m2 (address_of (read m d i)) path
                (λ h inside. (old_same i lt tab' h inside).1) ip
              ∙ old.deep tab path ip;
          plain = old.plain;
        })

    source_same : read m source k ≡ read m0 source k
    source_same = (owned.grows source (live_source source (inl refl))).1 k small

    copied_new : IsCopied t below m0 m2 (read m0 source k) (read m2 d k)
    copied_new = subst (IsCopied t below m0 m2 (read m0 source k)) (sym at_k) (
        subst (λ e. IsCopied t below m0 m2 e r) source_same
          (record {
            tables = piece.copied.tables;
            flags = piece.copied.flags;
            deep = λ tab path ip.
                let tab_r = piece.copied.tables ∙ tab in
                let tab0 = ap (is_table (suc below)) (sym source_same) ∙ tab in
                walk-Agree t below m1 m2 (address_of r) path (new_same tab_r) ip
                ∙ piece.copied.deep tab path ip
                ∙ subst
                    (λ e. walk t below m (address_of e) path ≡ walk t below m0 (address_of e) path)
                    (sym source_same)
                    (walk-Agree t below m0 m (address_of (read m0 source k)) path
                      (λ g inside. (owned.grows g (live_source g (inr (k, small, tab0, inside)))).1)
                      ip);
            plain = piece.copied.plain;
          }))

    next-IsFilled : IsFilled t below (suc k) m0 m2 source d
    next-IsFilled = record {
      owned = grown;
      rest = λ i le lt.
          let ne : i ≢ k = omega arith in
          ap (is_table (suc below)) (at_other i lt ne) ∙ filled.rest i (omega arith) lt;
      copied = λ i below_k lt. elim (same_or_not i k) [
        | inl e ↦
            subst (λ j. IsCopied t below m0 m2 (read m0 source j) (read m2 d j)) (sym e) copied_new
        | inr ne ↦ copied_old i (omega arith) lt
      ];
    }

    pub step-IsFilled : IsFilled t below (suc k) m0 (write m1 d k r) source d
    unfolding m2
    step-IsFilled = next-IsFilled
