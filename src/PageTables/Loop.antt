-- ===== src/PageTables/Loop.antt =====
-- The loop of `clone_table` over the entries of a table.
use generic_kernel.Common.{
  ℕ, zero, suc, ◌+◌, ◌<◌, ◌≡◌, inl, inr, refl, sym, ap, subst, ◌∙◌, true, arith, ok, err,
}
use generic_kernel.PageTables.{
  TableMemory, State, Outcome, address_of, replace, and_then, copy_entries,
}
use generic_kernel.PageTables.Tree.{is_table, In, Agree, In-back, In-forth, Apart-Agree}
use generic_kernel.PageTables.Owned.{IsOwned, IsFilled}
use generic_kernel.PageTables.Fill.{step-IsFilled}
use generic_kernel.PageTables.Clone.{
  IsSource, IsRestored, IsCounted, Cloned, Replaced, replace-Replaced,
}

module _ (t : TableMemory) where
  open t use {Memory, IsLive, read, write, written_taken}

  module _ (limit below : ℕ) (child : ℕ → State Memory → Outcome Memory ℕ)
      (step : (a : ℕ) (s : State Memory)
        → IsSource t below s.memory a
        → Cloned t limit below a s (child a s)) where
    -- The loop, with the memory `m0` before the allocation and the destination `d`.
    module _ (m0 : Memory) (source d : ℕ) (live_source : IsSource t (suc below) m0 source) where
      abbrev pub Looped : State Memory → Outcome Memory (Unit {0}) → Type 0
      Looped s (ok _, s') = IsFilled t below 512 m0 s'.memory source d × IsCounted t limit s s'
      Looped s (err x, s') = IsOwned t (suc below) m0 s'.memory d

      moved :
          (m m1 : Memory)
          → IsOwned t (suc below) m0 m d
          → IsRestored t m m1
          → IsOwned t (suc below) m0 m1 d
      moved m m1 owned (keep, less) =
          let same : Agree t (In t (suc below) m d) m m1 =
            λ g inside. (keep g (owned.alive g inside)).1 in
          let back : (g : ℕ) → In t (suc below) m1 d g → In t (suc below) m d g =
            λ g. In-back t (suc below) m m1 d g same in
          record {
            grows = λ g live.
                let (live', old) = owned.grows g live in
                let (live'', new) = keep g live' in (live'', λ i lt. new i lt ∙ old i lt);
            fresh = λ g inside. owned.fresh g (back g inside);
            alive = λ g inside. (keep g (owned.alive g (back g inside))).0;
            whole = λ g live. elim (owned.whole g (less g live)) [
              | inl old ↦ inl old
              | inr inside ↦ inr (In-forth t (suc below) m m1 d g same inside)
            ];
            apart = Apart-Agree t (suc below) m m1 d same owned.apart;
          }

      -- The subtrees of the source are live in the grown memory too.
      subtree :
          (m : Memory) (k : ℕ)
          → k < 512
          → IsOwned t (suc below) m0 m d
          → is_table (suc below) (read m source k) ≡ true
          → IsSource t below m (address_of (read m source k))
      subtree m k small owned tab g inside =
          let same : read m source k ≡ read m0 source k =
            (owned.grows source (live_source source (inl refl))).1 k small in
          let tab0 = ap (is_table (suc below)) (sym same) ∙ tab in
          let deep : (h : ℕ) → In t below m0 (address_of (read m0 source k)) h → IsLive m0 h =
            λ h in_h. live_source h (inr (k, small, tab0, in_h)) in
          let inside0 =
            In-back t below m0 m (address_of (read m0 source k)) g
              (λ h in_h. (owned.grows h (deep h in_h)).1)
              (subst (λ e. In t below m (address_of e) g) same inside) in
          (owned.grows g (deep g inside0)).0

      -- A write to the destination is not counted.
      counting :
          (k : ℕ) (s s' : State Memory) (r : ℕ)
          → k < 512
          → IsLive s'.memory d
          → IsCounted t limit s s'
          → (o : Outcome Memory (Unit {0}))
          → Looped (record s' { memory = write s'.memory d k r }) o
          → Looped s o
      counting k s s' r small live (grew, bounded) (ok _, s'') (filled, (grew', bounded')) =
          let written = written_taken s'.memory d k r live small in
          (filled, (omega arith, λ h. bounded' (bounded h)))
      counting k s s' r small live counted (err x, s'') owned = owned

      pub loop-Looped :
          (rounds k : ℕ) (s : State Memory)
          → rounds + k ≡ 512
          → IsFilled t below k m0 s.memory source d
          → Looped s (copy_entries t child (suc below) rounds k source d s)
      unfolding copy_entries
      loop-Looped zero k s whole filled =
          let e : k ≡ 512 = omega arith in
          (subst (λ j. IsFilled t below j m0 s.memory source d) e filled, (refl, λ h. h))
      loop-Looped (suc rounds) k s whole filled =
          after (replace t child (suc below) (read s.memory source k) s)
            (replace-Replaced t limit below child step (read s.memory source k) s
              (subtree s.memory k (omega arith) filled.owned))
            (λ s'. loop-Looped rounds (suc k) s' (omega arith))
        where
          after :
              (o : Outcome Memory ℕ)
              → Replaced t limit below (read s.memory source k) s o
              → ((s' : State Memory)
                  → IsFilled t below (suc k) m0 s'.memory source d
                  → Looped s' (copy_entries t child (suc below) rounds (suc k) source d s'))
              → Looped s (
                  and_then o (λ r s'.
                    copy_entries t child
                      (suc below)
                      rounds
                      (suc k)
                      source
                      d
                      (record s' { memory = write s'.memory d k r })))
          after (err x, s') back rec = moved s.memory s'.memory filled.owned back
          after (ok r, s') (piece, counted) rec =
              let small : k < 512 = omega arith in
              let live = (piece.grows d (filled.owned.alive d (inl refl))).0 in
              let next = record s' { memory = write s'.memory d k r } in
              counting k s s' r small live counted _ (
                rec next (
                  step-IsFilled t below k m0 s.memory s'.memory source d r small live_source filled
                    piece))
