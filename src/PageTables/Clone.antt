-- ===== src/PageTables/Clone.antt =====
-- `clone_table` and `clone_root`: a copy is private and walks as the source, and a failure leaves nothing.
use generic_kernel.Common.{
  ℕ, suc, ◌+◌, ◌≤◌, ◌<◌, ◌≡◌, inl, inr, refl, sym, subst, ◌∙◌, true, false, List, not, ◌&&◌, ◌==◌,
  ltb, Bool-cases, arith, ok, err, u64_mod, if◌then◌else◌, bit_and,
}
use generic_kernel.PageTables.{
  TableMemory, State, Outcome, CloneError, address_of, flags_of, link, present, huge, bad_frame,
  replace, reserved_bits, and_then,
}
use generic_kernel.PageTables.Tree.{different, is_table, In, Apart, Kept, IsPath, walk}
use generic_kernel.PageTables.Entries.{address_of-link, flags_of-link, is_table-flags}
use generic_kernel.PageTables.Owned.{IsOwned, IsPiece}

not_table_leaf : (level e : ℕ) → (present e && ltb 1 level) ≡ false → is_table level e ≡ false
unfolding is_table
not_table_leaf level e h = ground arith

not_table_huge : (level e : ℕ) → huge e ≡ true → is_table level e ≡ false
unfolding is_table
not_table_huge level e h = ground arith

table_entry :
    (level e : ℕ) → (present e && ltb 1 level) ≡ true → huge e ≡ false → is_table level e ≡ true
unfolding is_table
table_entry level e h k = ground arith

module _ (t : TableMemory) where
  open t use {Memory, IsLive, read, write, taken, written_taken}

  -- The tables of a tree are live.
  abbrev pub IsSource : ℕ → Memory → ℕ → Type 0
  IsSource level m source = (g : ℕ) → In t level m source g → IsLive m g

  -- The tables of `m` are those of `m'`, with their entries.
  abbrev pub IsRestored : Memory → Memory → Type 0
  IsRestored m m' = ((g : ℕ) → IsLive m g → Kept t m m' g) × ((g : ℕ) → IsLive m' g → IsLive m g)

  pub record IsClone (level : ℕ) (m m' : Memory) (source d : ℕ) : Type 0 where
    pub owned : IsOwned t level m m' d
    pub same : (path : List ℕ) → IsPath t path → walk t level m' d path ≡ walk t level m source path
    pub good : bad_frame d ≡ false
    pub small : d < u64_mod

  -- The counter grew as the memory's own, and not past the limit.
  abbrev pub IsCounted : ℕ → State Memory → State Memory → Type 0
  IsCounted limit s s' =
      (taken s'.memory + s.count ≡ taken s.memory + s'.count) × (s.count ≤ limit → s'.count ≤ limit)

  abbrev pub Cloned : ℕ → ℕ → ℕ → State Memory → Outcome Memory ℕ → Type 0
  Cloned limit level source s (ok d, s') =
      IsClone level s.memory s'.memory source d × IsCounted limit s s'
  Cloned limit level source s (err e, s') = IsRestored s.memory s'.memory

  abbrev pub Replaced : ℕ → ℕ → ℕ → State Memory → Outcome Memory ℕ → Type 0
  Replaced limit below e s (ok r, s') =
      IsPiece t below s.memory s'.memory e r × IsCounted limit s s'
  Replaced limit below e s (err x, s') = IsRestored s.memory s'.memory

  restored : (m : Memory) → IsRestored m m
  restored m = (λ g live. (live, λ i lt. refl), λ g live. live)

  -- An entry that names no table is kept.
  plain-IsPiece :
      (below : ℕ) (m : Memory) (e : ℕ) → is_table (suc below) e ≡ false → IsPiece t below m m e e
  plain-IsPiece below m e leaf = record {
    grows = (restored m).0;
    fresh = λ g tab. absurd (different tab leaf);
    alive = λ g tab. absurd (different tab leaf);
    whole = λ g live. inl live;
    apart = λ tab. absurd (different tab leaf);
    copied = record {
      tables = refl;
      flags = refl;
      deep = λ tab. absurd (different tab leaf);
      plain = λ leaf'. refl;
    };
  }

  -- An entry that names a table is linked to the copy.
  clone-IsPiece :
      (below : ℕ) (m m1 : Memory) (e c : ℕ)
      → is_table (suc below) e ≡ true
      → IsClone below m m1 (address_of e) c
      → IsPiece t below m m1 e (link e c)
  clone-IsPiece below m m1 e c tab clone =
      let at : address_of (link e c) ≡ c = address_of-link e c clone.small clone.good in
      let flags : flags_of (link e c) ≡ flags_of e = flags_of-link e c clone.good in
      record {
        grows = clone.owned.grows;
        fresh = λ g tab' inside. clone.owned.fresh g (subst (λ x. In t below m1 x g) at inside);
        alive = λ g tab' inside. clone.owned.alive g (subst (λ x. In t below m1 x g) at inside);
        whole = λ g live. elim (clone.owned.whole g live) [
          | inl old ↦ inl old
          | inr inside ↦ inr (
            is_table-flags (suc below) e (link e c) flags ∙ tab,
            subst (λ x. In t below m1 x g) (sym at) inside,
          )
        ];
        apart = λ tab'. subst (Apart t below m1) (sym at) clone.owned.apart;
        copied = record {
          tables = is_table-flags (suc below) e (link e c) flags;
          flags = flags;
          deep = λ tab' path ip.
              subst (λ x. walk t below m1 x path ≡ walk t below m (address_of e) path) (sym at)
                (clone.same path ip);
          plain = λ leaf. absurd (different tab leaf);
        };
      }

  module _ (limit below : ℕ) (child : ℕ → State Memory → Outcome Memory ℕ)
      (step : (a : ℕ) (s : State Memory)
        → IsSource below s.memory a
        → Cloned limit below a s (child a s)) where
    linked :
        (e : ℕ) (s : State Memory)
        → is_table (suc below) e ≡ true
        → (o : Outcome Memory ℕ) → Cloned limit below (address_of e) s o
        → Replaced limit below e s (and_then o (λ copy s'. (ok (link e copy), s')))
    linked e s tab (ok c, s') (clone, counted) = (clone-IsPiece below _ _ e c tab clone, counted)
    linked e s tab (err x, s') h = h

    same_state :
        (e : ℕ) (s : State Memory)
        → is_table (suc below) e ≡ false
        → Replaced limit below e s (ok e, s)
    same_state e s leaf = (plain-IsPiece below s.memory e leaf, (refl, λ h. h))

    huge_leaf :
        (e : ℕ) (s : State Memory)
        → is_table (suc below) e ≡ false
        → Replaced limit below e s (
            if suc below == 4
            then (err CloneError.invalid_huge_page, s)
            else if not (bit_and e (reserved_bits (suc below)) == 0)
            then (err CloneError.invalid_huge_page, s)
            else (ok e, s))
    huge_leaf e s leaf = elim (Bool-cases (suc below == 4)) [
      | inl top ↦ rw top (restored s.memory)
      | inr lower ↦ elim (Bool-cases (not (bit_and e (reserved_bits (suc below)) == 0))) [
        | inl bad ↦ rw (lower, bad) (restored s.memory)
        | inr good ↦ rw (lower, good) (same_state e s leaf)
      ]
    ]

    pub replace-Replaced :
        (e : ℕ) (s : State Memory)
        → (is_table (suc below) e ≡ true → IsSource below s.memory (address_of e))
        → Replaced limit below e s (replace t child (suc below) e s)
    unfolding replace
    replace-Replaced e s alive = elim (Bool-cases (present e && ltb 1 (suc below))) [
      | inr leaf ↦ rw leaf (same_state e s (not_table_leaf (suc below) e leaf))
      | inl up ↦ elim (Bool-cases (huge e)) [
        | inl large ↦ rw (up, large) (huge_leaf e s (not_table_huge (suc below) e large))
        | inr plain ↦
            let tab = table_entry (suc below) e up plain in
            rw (up, plain)
              (linked e s tab (child (address_of e) s) (step (address_of e) s (alive tab)))
      ]
    ]
