-- ===== src/PageTables/Release.antt =====
-- `release_tree` takes away just the tables of a tree.
use generic_kernel.Common.{
  ℕ, zero, suc, ◌+◌, ◌<◌, ◌≡◌, ◌≢◌, inl, inr, refl, sym, ap, subst, ◌∙◌, Bool, true, ltb,
  if◌then◌else◌, Bool-cases, arith,
}
use generic_kernel.PageTables.{TableMemory, address_of, release_entries, release_tree}
use generic_kernel.PageTables.Ready.{
  IsWithout, Below, Ready, skipped, omitted, cleared, joined, without_none,
}
use generic_kernel.PageTables.Tree.{different, is_table, is_table_upper, is_table_lowest, In, Apart}

module _ (t : TableMemory) where
  open t use {Memory, IsLive, release, read, released, released_other}

  -- The loop of `release_tree`, for a `child` that takes a tree away.
  release_entries-IsWithout :
      (b : ℕ) (child : Memory → ℕ → Memory)
      → ((m : Memory) (f : ℕ)
          → ((g : ℕ) → In t (suc b) m f g → IsLive m g)
          → Apart t (suc b) m f
          → IsWithout t (In t (suc b) m f) m (child m f))
      → (rounds index : ℕ) (m : Memory) (f : ℕ) → rounds + index ≡ 512
      → Ready t (suc b) index m f
      → IsWithout t (Below t (suc b) index m f) m (release_entries t child rounds index f m)
  unfolding release_entries
  release_entries-IsWithout b child step zero index m f whole ready =
      without_none t _ m (λ g (i, le, lt, tab, deep). absurd (omega arith))
  release_entries-IsWithout b child step (suc rounds) index m f whole ready =
      let small : index < 512 = omega arith in
      let test = is_table_upper b (read m f index) in
      elim (Bool-cases (is_table (suc (suc b)) (read m f index))) [
        | inl tab ↦
            let m1 = child m (address_of (read m f index)) in
            let done =
              step m (address_of (read m f index))
                (λ g deep. ready.alive g (index, omega arith, small, tab, deep))
                (ready.single index (omega arith) small tab).0 in
            rw (← test, tab)
              (joined t (suc b) index m m1 f small ready tab done _ (
                release_entries-IsWithout b child step rounds (suc index) m1 f (omega arith)
                  (cleared t (suc b) index m m1 f small ready tab done)))
        | inr leaf ↦
            rw (← test, leaf)
              (omitted t (suc b) index m _ f small ready leaf (
                release_entries-IsWithout b child step rounds (suc index) m f (omega arith)
                  (skipped t (suc b) index m m f small ready)))
      ]

  -- The tables below a live frame, and the frame itself.
  with_root :
      (below : ℕ) (m m1 : Memory) (f : ℕ)
      → ((g : ℕ) → In t (suc below) m f g → IsLive m g)
      → ((g : ℕ) → Below t below 0 m f g → g ≢ f)
      → IsWithout t (Below t below 0 m f) m m1
      → IsWithout t (In t (suc below) m f) m (release m1 f)
  with_root below m m1 f alive above rest =
      let live1 : IsLive m1 f =
        (rest.kept f (alive f (inl refl)) (λ inside. above f inside refl)).0 in
      record {
        gone = λ g inside live. elim inside [
          | inl e ↦ (released m1 f g live1 live).1 e
          | inr (i, lt, tab, deep) ↦
              rest.gone g (i, omega arith, lt, tab, deep) (released m1 f g live1 live).0
        ];
        kept = λ g live out.
            let (live', same) =
              rest.kept g live (λ (i, le, lt, tab, deep). out (inr (i, lt, tab, deep))) in
            let (live'', same') = released_other m1 f g live1 live' (λ e. out (inl e)) in
            (live'', λ i lt. same' i lt ∙ same i lt);
        less = λ g live. rest.less g (released m1 f g live1 live).0;
      }

  release_tree_zero : (m : Memory) (f : ℕ) → release m f ≡ release_tree t 0 m f
  unfolding release_tree
  release_tree_zero m f = refl

  release_tree_one : (m : Memory) (f : ℕ) → release m f ≡ release_tree t 1 m f
  unfolding release_tree
  release_tree_one m f = refl

  release_tree_upper :
      (b : ℕ) (m : Memory) (f : ℕ)
      → release_tree t (suc (suc b)) m f
        ≡ release (release_entries t (release_tree t (suc b)) 512 0 f m) f
  unfolding release_tree
  release_tree_upper b m f =
      let test : ltb 1 (suc (suc b)) ≡ true = ground arith in
      ap
        (λ (upper : Bool).
          release (if upper then release_entries t (release_tree t (suc b)) 512 0 f m else m) f)
        test

  -- `release_tree` takes away the tables of a live tree whose tables lie apart, and no other.
  pub release_tree-IsWithout :
      (level : ℕ) (m : Memory) (f : ℕ)
      → ((g : ℕ) → In t level m f g → IsLive m g)
      → Apart t level m f
      → IsWithout t (In t level m f) m (release_tree t level m f)
  release_tree-IsWithout zero m f alive apart =
      subst (IsWithout t (In t 0 m f) m) (release_tree_zero m f) (record {
        gone = λ g e live. (released m f g (alive f refl) live).1 e;
        kept = λ g live out. released_other m f g (alive f refl) live out;
        less = λ g live. (released m f g (alive f refl) live).0;
      })
  release_tree-IsWithout (suc zero) m f alive apart =
      let bare : (g : ℕ) → ¬ Below t 0 0 m f g =
        λ g (i, le, lt, tab, deep). different tab (is_table_lowest (read m f i)) in
      subst (IsWithout t (In t 1 m f) m) (release_tree_one m f)
        (with_root 0 m m f alive (λ g inside. absurd (bare g inside)) (without_none t _ m bare))
  release_tree-IsWithout (suc (suc b)) m f alive apart =
      subst (IsWithout t (In t (suc (suc b)) m f) m) (sym (release_tree_upper b m f)) (
        with_root (suc b) m (release_entries t (release_tree t (suc b)) 512 0 f m) f alive
          (λ g (i, le, lt, tab, deep) e.
            (apart.0 i lt tab).1 (subst (In t (suc b) m (address_of (read m f i))) e deep))
          (release_entries-IsWithout b (release_tree t (suc b)) (release_tree-IsWithout (suc b)) 512
            0 m f refl
            (record {
              root = alive f (inl refl);
              alive = λ g (i, le, lt, tab, deep). alive g (inr (i, lt, tab, deep));
              single = λ i le lt tab. apart.0 i lt tab;
              pairs = λ i j g le lt le' lt' ne ti tj. apart.1 i j g lt lt' ne ti tj;
            })))
