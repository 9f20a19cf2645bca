-- ===== src/Mapping/UserPage.antt =====
-- `map_user_page`: what a mapping holds, and what a refusal leaves.
use generic_kernel.Common.{
  ℕ, zero, suc, ◌+◌, ◌-◌, ◌/◌, ◌%◌, ◌<◌, ◌≤◌, ◌≡◌, ◌≢◌, refl, sym, ap, subst, ◌∙◌, ◌⊎◌, inl, inr,
  Bool, true, false, ◌&&◌, List, [], ◌∷◌, Option, none, some, Result, ok, err, ltb, leb, ◌==◌,
  if◌then◌else◌, length, get_or, Bool-cases, Option-cases, arith, checked_add, checked_add-inv,
}
use generic_kernel.Ranges.{covers, inside}
use generic_kernel.Pmm.{
  PhysicalMemory, PhysicalMemoryError, page_size, allocate_pages, allocate_frame,
}
use generic_kernel.Pmm.Inv.{IsValid}
use generic_kernel.Pmm.Allocate.{Allocated}
use generic_kernel.Pmm.Blocks.{allocate-Allocated, allocate-none, allocate-err}
use generic_kernel.UserMemory.{user_address_limit}
use generic_kernel.Mapping.{
  PmmFrameAllocator, Flags, Mapper, Ram, Machine, UserMapError, counted_frame, allocate_physical,
  inside_page, copy_initial, user_flags, user_linked, user_copied, user_zeroed, user_filled,
  map_user_page,
}
use generic_kernel.Mapping.Clearing.{or-true, and-false, cleared, cleared_at, zero_frame_lem}
use generic_kernel.Mapping.Taking.{IsTaken, allocate_physical-IsTaken, allocate_physical-IsValid}

-- The bytes of a page that was cleared and filled and those around it.
record IsFilled (initial : List ℕ) (base : ℕ) (before after : Ram) : Type 0 where
  contents : (i : ℕ) → i < page_size → after (base + i) ≡ get_or initial i 0
  around : (a : ℕ) → (a < base) ⊎ (base + page_size ≤ a) → after a ≡ before a

get_or_past : (xs : List ℕ) (i : ℕ) → length xs ≤ i → get_or xs i 0 ≡ 0
get_or_past [] i h = refl
get_or_past (x ∷ xs) zero h = absurd (omega arith)
get_or_past (x ∷ xs) (suc i) h = get_or_past xs i (omega arith)

cleared-IsFilled : (base : ℕ) (ram : Ram) → IsFilled [] base ram (cleared base ram)
cleared-IsFilled base ram = record {
  contents = λ i lt. let within : inside_page base (base + i) ≡ true = ground arith in rw within;
  around = λ a out.
      let outside : inside_page base a ≡ false = elim out [
        | inl below ↦ ground arith
        | inr above ↦ ground arith
      ] in
      rw outside;
}

copied-IsFilled :
    (initial : List ℕ) (base : ℕ) (ram : Ram)
    → length initial ≤ page_size
    → IsFilled initial base ram (copy_initial initial base (cleared base ram))
copied-IsFilled initial base ram fits =
    let blank = cleared-IsFilled base ram in
    record {
      contents = λ i lt. elim (Bool-cases (ltb i (length initial))) [
        | inl inside ↦
            let test : (leb base (base + i) && ltb (base + i) (base + length initial)) ≡ true =
              ground arith in
            let index : base + i - base ≡ i = omega arith in rw (test, index)
        | inr past ↦
            let test : (leb base (base + i) && ltb (base + i) (base + length initial)) ≡ false =
              ground arith in
            rw test (blank.contents i lt ∙ sym (get_or_past initial i (ground arith)))
      ];
      around = λ a out.
          let test : (leb base a && ltb a (base + length initial)) ≡ false = elim out [
            | inl below ↦ ground arith
            | inr above ↦ ground arith
          ] in
          rw test (blank.around a out);
    }

empty_list : (xs : List ℕ) → length xs ≡ 0 → [] ≡ xs
empty_list [] h = refl
empty_list (x ∷ xs) h = absurd (omega arith)

module _ {n : ℕ} (mapper : Mapper n) where
  open mapper use {
    Tables, translate, flags_at, map_to, maps, fails, others, flagged, others_flagged, takes,
  }

  -- No address of the tree at `root` is looked up otherwise than before.
  abbrev pub SameLookups : ℕ → Tables → Tables → Type 0
  SameLookups root t t' = (address : ℕ) → translate t' root address ≡ translate t root address

  pub record IsMapped (offset root page : ℕ) (flags : Flags) (initial : List ℕ) (s : Machine Tables)
      (frame : ℕ) (s' : Machine Tables) : Type 0 where
    pub was_unmapped : translate s.tables root page ≡ none
    pub now : (i : ℕ) → i < page_size → translate s'.tables root (page + i) ≡ some (frame + i)
    pub other :
        (address : ℕ)
        → address / page_size ≢ page / page_size
        → translate s'.tables root address ≡ translate s.tables root address
    pub access : flags_at s'.tables root page ≡ some flags
    pub other_access :
        (address : ℕ)
        → address / page_size ≢ page / page_size
        → flags_at s'.tables root address ≡ flags_at s.tables root address
    pub still_taken : (a : ℕ) → covers s.pmm.free a ≡ false → covers s'.pmm.free a ≡ false
    pub was_free : (a : ℕ) → inside frame (frame + page_size) a ≡ true → covers s.pmm.free a ≡ true
    pub taken : (a : ℕ) → inside frame (frame + page_size) a ≡ true → covers s'.pmm.free a ≡ false
    pub contents : (i : ℕ) → i < page_size → s'.ram (offset + frame + i) ≡ get_or initial i 0
    pub around :
        (a : ℕ) → (a < offset + frame) ⊎ (offset + frame + page_size ≤ a) → s'.ram a ≡ s.ram a
    pub valid : IsValid n s'.pmm

  abbrev pub IsMapping :
      ℕ → ℕ → ℕ → Flags → List ℕ → Machine Tables → Result UserMapError ℕ × Machine Tables → Type 0
  IsMapping offset root page flags initial s (ok frame, s') =
      (page % page_size ≡ 0)
      × (page < user_address_limit)
      × (length initial ≤ page_size)
      × IsMapped offset root page flags initial s frame s'
  IsMapping offset root page flags initial s (err e, s') =
      SameLookups root s.tables s'.tables × IsValid n s'.pmm

  module _ (offset root page : ℕ) (writable executable : Bool) (initial : List ℕ)
      (s : Machine Tables) (aligned : page % page_size ≡ 0) (below : page < user_address_limit)
      (fits : length initial ≤ page_size) (unmapped : translate s.tables root page ≡ none) where
    abbrev flags : Flags
    flags = user_flags writable executable

    -- What is known of a frame that was allocated.
    record HasFrame (frame : ℕ) (a : PmmFrameAllocator) : Type 0 where
      valid : IsValid n a.pmm
      frame_aligned : frame % page_size ≡ 0
      was_free : (x : ℕ) → inside frame (frame + page_size) x ≡ true → covers s.pmm.free x ≡ true
      still_taken : (x : ℕ) → covers s.pmm.free x ≡ false → covers a.pmm.free x ≡ false
      taken : (x : ℕ) → inside frame (frame + page_size) x ≡ true → covers a.pmm.free x ≡ false

    kept-IsValid :
        (frame : ℕ) (a a' : PmmFrameAllocator)
        → HasFrame frame a
        → (map_to s.tables a root page frame flags).2 ≡ a'
        → IsValid n a'.pmm
    kept-IsValid frame a a' has same =
        subst (λ k. IsValid n k.pmm) same
          (takes (λ k. IsValid n k.pmm) (allocate_physical-IsValid n) s.tables a root page frame
            flags has.valid)

    linked-IsMapping :
        (frame : ℕ) (a : PmmFrameAllocator) (ram : Ram)
        → HasFrame frame a
        → IsFilled initial (offset + frame) s.ram ram
        → (o : Bool × Tables × PmmFrameAllocator) → map_to s.tables a root page frame flags ≡ o
        → IsMapping offset root page flags initial s (user_linked mapper frame ram o)
    linked-IsMapping frame a ram has full (false, t, a') h =
        let tables : (map_to s.tables a root page frame flags).1 ≡ t = ap (λ r. r.1) h in
        (
          λ address.
              subst (λ x. translate x root address ≡ translate s.tables root address) tables
                (fails s.tables a root page frame flags (ap (λ r. r.0) h) address),
          kept-IsValid frame a a' has (ap (λ r. r.2) h),
        )
    linked-IsMapping frame a ram has full (true, t, a') h =
        let tables : (map_to s.tables a root page frame flags).1 ≡ t = ap (λ r. r.1) h in
        (
          aligned,
          below,
          fits,
          record {
            was_unmapped = unmapped;
            now = λ i lt.
                subst (λ x. translate x root (page + i) ≡ some (frame + i)) tables
                  (maps s.tables a root page frame flags aligned has.frame_aligned (ap (λ r. r.0) h)
                    i lt);
            other = λ address ne.
                subst (λ x. translate x root address ≡ translate s.tables root address) tables
                  (others s.tables a root page frame flags address ne);
            access =
                subst (λ x. flags_at x root page ≡ some flags) tables
                  (flagged s.tables a root page frame flags (ap (λ r. r.0) h));
            other_access = λ address ne.
                subst (λ x. flags_at x root address ≡ flags_at s.tables root address) tables
                  (others_flagged s.tables a root page frame flags address ne);
            still_taken = λ x out.
                subst (λ k. covers k.pmm.free x ≡ false) (ap (λ r. r.2) h)
                  (takes (IsTaken n x) (allocate_physical-IsTaken n x) s.tables a root page frame
                    flags (has.valid, has.still_taken x out)).1;
            was_free = has.was_free;
            taken = λ x within.
                subst (λ k. covers k.pmm.free x ≡ false) (ap (λ r. r.2) h)
                  (takes (IsTaken n x) (allocate_physical-IsTaken n x) s.tables a root page frame
                    flags (has.valid, has.taken x within)).1;
            contents = full.contents;
            around = full.around;
            valid = kept-IsValid frame a a' has (ap (λ r. r.2) h);
          },
        )

    -- What the run holds from the copy on.
    copied-IsMapping :
        (frame : ℕ) (a : PmmFrameAllocator) (base : ℕ)
        → HasFrame frame a
        → offset + frame ≡ base
        → IsMapping offset root page flags initial s (
            user_copied mapper frame initial
              (cleared base s.ram)
              s
              a
              (map_to s.tables a root page frame flags)
              (some base))
    copied-IsMapping frame a base has at =
        linked-IsMapping frame a _ has
          (subst (λ b. IsFilled initial b s.ram (copy_initial initial base (cleared base s.ram)))
            (sym at) (copied-IsFilled initial base s.ram fits))
          _ refl

    -- What it holds where there is nothing to copy.
    blank-IsMapping :
        (frame : ℕ) (a : PmmFrameAllocator) (base : ℕ)
        → HasFrame frame a
        → offset + frame ≡ base
        → length initial ≡ 0
        → IsMapping offset root page flags initial s (
            user_linked mapper frame (cleared base s.ram) (map_to s.tables a root page frame flags))
    blank-IsMapping frame a base has at empty =
        linked-IsMapping frame a _ has
          (subst (λ b. IsFilled initial b s.ram (cleared base s.ram)) (sym at)
            (subst (λ l. IsFilled l base s.ram (cleared base s.ram)) (empty_list initial empty)
              (cleared-IsFilled base s.ram)))
          _ refl

    placed :
        (frame : ℕ) (a : PmmFrameAllocator) (o : Option ℕ)
        → HasFrame frame a
        → checked_add offset frame ≡ o
        → IsMapping offset root page flags initial s (
            user_zeroed mapper offset frame initial s a
              (map_to s.tables a root page frame flags)
              (cleared_at o s.ram))
    placed frame a none has h = (λ address. refl, has.valid)
    placed frame a (some base) has h =
        let at = checked_add-inv offset frame base h in
        elim (Bool-cases (length initial == 0)) [
          | inl empty ↦
              subst
                (λ b. IsMapping offset root page flags initial s (
                  if b
                  then user_linked mapper frame (cleared base s.ram)
                      (map_to s.tables a root page frame flags)
                  else user_copied mapper frame initial (cleared base s.ram) s a
                      (map_to s.tables a root page frame flags) (checked_add offset frame)))
                (sym empty) (blank-IsMapping frame a base has at (ground arith))
          | inr some_bytes ↦
              subst
                (λ b. IsMapping offset root page flags initial s (
                  if b
                  then user_linked mapper frame (cleared base s.ram)
                      (map_to s.tables a root page frame flags)
                  else user_copied mapper frame initial (cleared base s.ram) s a
                      (map_to s.tables a root page frame flags) (checked_add offset frame)))
                (sym some_bytes)
                (subst
                  (λ o. IsMapping offset root page flags initial s (
                    user_copied mapper frame initial (cleared base s.ram) s a
                      (map_to s.tables a root page frame flags) o))
                  (sym h) (copied-IsMapping frame a base has at))
        ]

    -- Without frames nothing has been mapped.
    framed :
        (o : Result PhysicalMemoryError (Option ℕ) × PhysicalMemory)
        → IsValid n s.pmm
        → allocate_pages n s.pmm 1 1 ≡ o
        → IsMapping offset root page flags initial s
            (user_filled mapper offset root page writable executable initial s (counted_frame 0 o))
    framed (err e, m) v h =
        let same = allocate-err n s.pmm m 1 1 e h in
        (λ address. refl, subst (IsValid n) (sym same) v)
    framed (ok none, m) v h =
        let same = (allocate-none n s.pmm m 1 1 0 v h).0 in
        (λ address. refl, subst (IsValid n) (sym same) v)
    framed (ok (some frame), m) v h =
        subst
          (λ o. IsMapping offset root page flags initial s (
            user_zeroed mapper offset frame initial s (record { pmm = m; allocated = 1 })
              (map_to s.tables (record { pmm = m; allocated = 1 }) root page frame
                (user_flags writable executable))
              o))
          (zero_frame_lem offset frame s.ram)
          (placed frame (record { pmm = m; allocated = 1 }) _
            (record {
              valid = done.valid;
              frame_aligned = omega (arith, done.multiple.1);
              was_free = λ x within. done.was_free x ∙ rw within (or-true (covers m.free x));
              still_taken = λ x out. done.taken_out x ∙ rw out;
              taken = λ x within. done.taken_out x ∙ rw within (and-false (covers s.pmm.free x));
            })
            refl)
      where
        done : Allocated n s.pmm 1 1 frame m
        done = allocate-Allocated n s.pmm m 1 1 frame v h

  -- On a valid physical memory `map_user_page` maps a page below the limit of user addresses that was not
  -- mapped, at a multiple of the page size, with the access asked for, to a frame that was free and is no longer; the frame holds the
  -- initial bytes, which are a page at most, and zeros behind them, no byte of memory outside it has
  -- changed, page tables left aside, and every address outside the page is looked up as before. Where it
  -- refuses, every address is looked up as before. The physical memory stays valid.
  pub map_user_page-IsMapping :
      (offset root page : ℕ) (writable executable : Bool) (initial : List ℕ) (s : Machine Tables)
      → IsValid n s.pmm
      → IsMapping offset root page
          (user_flags writable executable)
          initial
          s
          (map_user_page mapper offset root page writable executable initial s)
  unfolding map_user_page allocate_physical allocate_frame
  map_user_page-IsMapping offset root page writable executable initial s v =
      let same : SameLookups root s.tables s.tables × IsValid n s.pmm = (λ address. refl, v) in
      elim (Bool-cases (page % page_size == 0)) [
        | inr odd ↦ rw odd same
        | inl aligned ↦ elim (Bool-cases (ltb page_size (length initial))) [
          | inl long ↦ rw (aligned, long) same
          | inr fits ↦ elim (Bool-cases (leb user_address_limit page)) [
            | inl high ↦ rw (aligned, fits, high) same
            | inr below ↦ elim (Bool-cases (root % page_size == 0)) [
              | inr bad ↦ rw (aligned, fits, below, bad) same
              | inl good ↦ elim (Option-cases (translate s.tables root page)) [
                | inr (frame, there) ↦ rw (aligned, fits, below, good, there) same
                | inl unmapped ↦
                    rw (aligned, fits, below, good, unmapped)
                      (framed offset root page writable executable initial s (ground arith)
                        (ground arith) (ground arith) unmapped (allocate_pages n s.pmm 1 1) v refl)
              ]
            ]
          ]
        ]
      ]
