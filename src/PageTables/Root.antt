-- ===== src/PageTables/Root.antt =====
-- `clone_root` copies a live tree into private tables, or leaves the memory as it was.
use generic_kernel.Common.{
  ℕ, zero, suc, ◌+◌, ◌≤◌, ◌<◌, ◌≡◌, ◌≢◌, inl, inr, refl, sym, ap, subst, ◌∙◌, false, List, [], ◌∷◌,
  Option, none, some, ◌==◌, Bool-cases, arith, Result, ok, err, set, take, ◌-◌,
}
use generic_kernel.PageTables.{
  TableMemory, State, Outcome, CloneError, OwnedRoot, bad_frame, contains, zero_entries, finish,
  fill_table, with_frame, clone_with, clone_table, owned_root, clone_root, release_tree,
}
use generic_kernel.PageTables.Tree.{different, same_or_not, is_table, In, IsPath, walk}
use generic_kernel.PageTables.Release.{release_tree-IsWithout}
use generic_kernel.PageTables.Owned.{IsOwned, IsFilled}
use generic_kernel.PageTables.Clone.{IsSource, IsRestored, IsClone, Cloned}
use generic_kernel.PageTables.Loop.{Looped, loop-Looped}

zero_leaf : (level : ℕ) → is_table level 0 ≡ false
unfolding is_table
zero_leaf level = ground arith

module _ (t : TableMemory) where
  open t use {
    Memory, IsLive, read, write, taken, allocate, release, written, written_other, written_live,
    written_taken, released, released_other, fresh, given, given_only, given_other, taken_one, word,
    none_left,
  }

  -- The first `k` entries of the new table are 0, and nothing else has changed.
  record IsZeroed (k : ℕ) (m1 m : Memory) (d : ℕ) : Type 0 where
    lives : (g : ℕ) → IsLive m1 g → IsLive m g
    lived : (g : ℕ) → IsLive m g → IsLive m1 g
    other : (g i : ℕ) → IsLive m1 g → g ≢ d → i < 512 → read m g i ≡ read m1 g i
    zeroed : (i : ℕ) → i < k → i < 512 → read m d i ≡ 0
    count : taken m ≡ taken m1

  zero_entries-IsZeroed :
      (rounds k : ℕ) (m1 m : Memory) (d : ℕ)
      → rounds + k ≡ 512
      → IsLive m1 d
      → IsZeroed k m1 m d
      → IsZeroed 512 m1 (zero_entries t rounds k d m) d
  unfolding zero_entries
  zero_entries-IsZeroed zero k m1 m d whole live z =
      let e : k ≡ 512 = omega arith in subst (λ j. IsZeroed j m1 m d) e z
  zero_entries-IsZeroed (suc rounds) k m1 m d whole live z =
      let small : k < 512 = omega arith in
      let here : IsLive m d = z.lives d live in
      zero_entries-IsZeroed rounds (suc k) m1 (write m d k 0) d (omega arith) live (record {
        lives = λ g h. (written_live m d k 0 g here small).0 (z.lives g h);
        lived = λ g h. z.lived g ((written_live m d k 0 g here small).1 h);
        other = λ g i lives ne lt.
            written_other m d k 0 g i here (z.lives g lives) small lt (inl ne)
            ∙ z.other g i lives ne lt;
        zeroed = λ i below lt. elim (same_or_not i k) [
          | inl e ↦ subst (λ j. read (write m d k 0) d j ≡ 0) (sym e) (written m d k 0 here small)
          | inr ne ↦
              written_other m d k 0 d i here here small lt (inr ne) ∙ z.zeroed i (omega arith) lt
        ];
        count = written_taken m d k 0 here small ∙ z.count;
      })

  module _ (m0 m1 : Memory) (d : ℕ) (got : allocate m0 ≡ (some d, m1)) where
    -- A table that was there is not the new one.
    apart_new : (g : ℕ) → IsLive m0 g → g ≢ d
    apart_new g live e = fresh m0 m1 d got (subst (IsLive m0) e live)

    empty-IsFilled :
        (below source : ℕ) (m : Memory) → IsZeroed 512 m1 m d → IsFilled t below 0 m0 m source d
    empty-IsFilled below source m z =
        let leaf : (i : ℕ) → i < 512 → is_table (suc below) (read m d i) ≡ false =
          λ i lt. ap (is_table (suc below)) (z.zeroed i lt lt) ∙ zero_leaf (suc below) in
        let only : (g : ℕ) → In t (suc below) m d g → g ≡ d = λ g inside. elim inside [
          | inl e ↦ e
          | inr (i, lt, tab, deep) ↦ absurd (different tab (leaf i lt))
        ] in
        record {
          owned = record {
            grows = λ g live.
                let (live', same) = given_other m0 m1 d g got live in
                (z.lives g live', λ i lt. z.other g i live' (apart_new g live) lt ∙ same i lt);
            fresh = λ g inside live. apart_new g live (only g inside);
            alive =
                λ g inside. subst (IsLive m) (sym (only g inside)) (z.lives d (given m0 m1 d got));
            whole = λ g live. elim (given_only m0 m1 d g got (z.lived g live)) [
              | inl old ↦ inl old
              | inr e ↦ inr (inl e)
            ];
            apart = (
              λ i lt tab. absurd (different tab (leaf i lt)),
              λ i j g li lj ne ti. absurd (different ti (leaf i li)),
            );
          };
          rest = λ i le lt. leaf i lt;
          copied = λ i below_zero lt. absurd (omega arith);
        }

    -- A bad frame is given back.
    returned : IsRestored t m0 (release m1 d)
    returned = (
      λ g live.
          let (live1, same1) = given_other m0 m1 d g got live in
          let (live2, same2) = released_other m1 d g (given m0 m1 d got) live1 (apart_new g live) in
          (live2, λ i lt. same2 i lt ∙ same1 i lt),
      λ g live.
          let (live1, ne) = released m1 d g (given m0 m1 d got) live in
          elim (given_only m0 m1 d g got live1) [ inl old ↦ old | inr e ↦ absurd (ne e) ],
    )

  -- A partial copy is taken away.
  undone :
      (below : ℕ) (m0 m : Memory) (d : ℕ)
      → IsOwned t (suc below) m0 m d
      → IsRestored t m0 (release_tree t (suc below) m d)
  undone below m0 m d owned =
      let out = release_tree-IsWithout t (suc below) m d owned.alive owned.apart in
      (
        λ g live.
            let (live1, same1) = owned.grows g live in
            let (live2, same2) = out.kept g live1 (λ inside. owned.fresh g inside live) in
            (live2, λ i lt. same2 i lt ∙ same1 i lt),
        λ g live. elim (owned.whole g (out.less g live)) [
          | inl old ↦ old
          | inr inside ↦ absurd (out.gone g inside live)
        ],
      )

  -- A table whose entries are all copied walks as the source.
  filled-walk :
      (below : ℕ) (m0 m : Memory) (source d : ℕ)
      → IsFilled t below 512 m0 m source d
      → (path : List ℕ) → IsPath t path
      → walk t (suc below) m d path ≡ walk t (suc below) m0 source path
  unfolding walk
  filled-walk below m0 m source d filled [] h = refl
  filled-walk below m0 m source d filled (i ∷ path) (lt, h) =
      let c = filled.copied i lt lt in
      elim (Bool-cases (is_table (suc below) (read m0 source i))) [
        | inl tab ↦ rw (c.tables, tab, c.flags, c.deep tab path h)
        | inr leaf ↦ rw (c.tables, leaf, c.plain leaf)
      ]

  module _ (limit below : ℕ) (child : ℕ → State Memory → Outcome Memory ℕ)
      (step : (a : ℕ) (s : State Memory)
        → IsSource t below s.memory a
        → Cloned t limit below a s (child a s)) where
    fill_table-Cloned :
        (source d : ℕ) (s : State Memory) (m1 : Memory)
        → IsSource t (suc below) s.memory source
        → s.count ≢ limit
        → allocate s.memory ≡ (some d, m1)
        → Cloned t limit (suc below) source s (
            fill_table t child (suc below) source d (record s { memory = m1; count = suc s.count }))
    unfolding fill_table
    fill_table-Cloned source d s m1 live_source room got = elim (Bool-cases (bad_frame d)) [
      | inl bad ↦ rw bad (returned s.memory m1 d got)
      | inr good ↦ rw good (
          finished good _ (
            loop-Looped t limit below child step s.memory source d live_source 512 0 start refl
              (empty-IsFilled s.memory m1 d got below source zeroes zeroed)))
    ]
      where
        zeroes : Memory
        zeroes = zero_entries t 512 0 d m1

        start : State Memory
        start = record s { memory = zeroes; count = suc s.count }

        zeroed : IsZeroed 512 m1 zeroes d
        zeroed = zero_entries-IsZeroed 512 0 m1 m1 d refl (given s.memory m1 d got) (record {
          lives = λ g h. h;
          lived = λ g h. h;
          other = λ g i h ne lt. refl;
          zeroed = λ i below_zero lt. absurd (omega arith);
          count = refl;
        })

        finished :
            bad_frame d ≡ false
            → (o : Outcome Memory (Unit {0}))
            → Looped t limit below child step s.memory source d live_source start o
            → Cloned t limit (suc below) source s (finish t (suc below) d o)
        finished good (err x, s') owned = undone below s.memory s'.memory d owned
        finished good (ok _, s') (filled, (grew, bounded)) =
            let one = taken_one s.memory m1 d got in
            let same = zeroed.count in
            (
              record {
                owned = filled.owned;
                same = filled-walk below s.memory s'.memory source d filled;
                good = good;
                small = word s.memory m1 d got;
              },
              (omega arith, λ h. bounded (omega arith)),
            )

    framed :
        (source : ℕ) (s : State Memory)
        → IsSource t (suc below) s.memory source
        → s.count ≢ limit
        → (a : Option ℕ × Memory) → allocate s.memory ≡ a
        → Cloned t limit (suc below) source s (with_frame t child (suc below) source s a)
    framed source s live_source room (none, m) got =
        subst (IsRestored t s.memory) (sym (none_left s.memory m got))
          (λ g live. (live, λ i lt. refl), λ g live. live)
    framed source s live_source room (some d, m) got =
        fill_table-Cloned source d s m live_source room got

    clone_with-Cloned :
        (source : ℕ) (s : State Memory)
        → IsSource t (suc below) s.memory source
        → Cloned t limit (suc below) source s (clone_with t limit child (suc below) source s)
    unfolding clone_with
    clone_with-Cloned source s live_source =
        let kept : IsRestored t s.memory s.memory =
          (λ g live. (live, λ i lt. refl), λ g live. live) in
        let depth = 4 - suc below in
        let marked = record s { ancestors = set s.ancestors depth source } in
        elim (Bool-cases (bad_frame source)) [
          | inl bad ↦ rw bad kept
          | inr good ↦ elim (Bool-cases (contains (take depth s.ancestors) source)) [
            | inl again ↦ rw (good, again) kept
            | inr new ↦ elim (Bool-cases (s.count == limit)) [
              | inl full ↦ rw (good, new, full) kept
              | inr room ↦
                  rw (good, new, room)
                    (framed source marked live_source (ground arith) (allocate s.memory) refl)
            ]
          ]
        ]

  -- Every level.
  clone_table-Cloned :
      (limit level source : ℕ) (s : State Memory)
      → IsSource t level s.memory source
      → Cloned t limit level source s (clone_table t limit level source s)
  unfolding clone_table
  clone_table-Cloned limit zero source s live_source =
      (λ g live. (live, λ i lt. refl), λ g live. live)
  clone_table-Cloned limit (suc below) source s live_source =
      clone_with-Cloned limit below (clone_table t limit below) (clone_table-Cloned limit below)
        source s live_source

  -- What a run of `clone_root` leaves.
  abbrev pub IsRootOf : ℕ → Memory → ℕ → Result CloneError OwnedRoot × Memory → Type 0
  IsRootOf limit m source (ok root, m') =
      IsClone t 4 m m' source root.physical
      × (taken m' ≡ taken m + root.table_frames)
      × (root.table_frames ≤ limit)
  IsRootOf limit m source (err e, m') = IsRestored t m m'

  rooted :
      (limit source : ℕ) (m : Memory) (o : Outcome Memory ℕ)
      → Cloned t limit 4 source (record { memory = m; ancestors = 0 ∷ 0 ∷ 0 ∷ 0 ∷ []; count = 0 }) o
      → IsRootOf limit m source (owned_root t o)
  rooted limit source m (ok d, s) (clone, (grew, bounded)) =
      (clone, omega arith, bounded (omega arith))
  rooted limit source m (err x, s) back = back

  -- From a live tree `clone_root` makes, where it succeeds, a copy of private tables: every walk of an
  -- address through the copy reads the flags and the last entry of the walk through the source, no table
  -- of the copy was live before and none lies in it twice, the tables that were live are as before, and
  -- `table_frames` is the number of frames taken, within the limit. Where it fails, the live tables and
  -- their entries are those from before.
  pub clone_root-IsRootOf :
      (limit : ℕ) (m : Memory) (source : ℕ)
      → IsSource t 4 m source
      → IsRootOf limit m source (clone_root t limit m source)
  unfolding clone_root
  clone_root-IsRootOf limit m source live_source = rooted limit source m _ (
      clone_table-Cloned limit 4 source
        (record { memory = m; ancestors = 0 ∷ 0 ∷ 0 ∷ 0 ∷ []; count = 0 }) live_source)

  -- A copy that `clone_root` made of a live tree is undone by `release_tree`: the live tables and their
  -- entries are those from before the copy.
  pub release_tree-clone_root :
      (limit : ℕ) (m m' : Memory) (source : ℕ) (root : OwnedRoot)
      → IsSource t 4 m source
      → clone_root t limit m source ≡ (ok root, m')
      → IsRestored t m (release_tree t 4 m' root.physical)
  release_tree-clone_root limit m m' source root live_source h =
      let made =
        subst (IsRootOf limit m source) h (clone_root-IsRootOf limit m source live_source) in
      undone 3 m m' root.physical made.0.owned
