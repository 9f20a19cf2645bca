-- ===== src/Mapping/HeapPages.antt =====
-- `map_heap`: what stands behind the bytes of the heap that it has mapped.
use generic_kernel.Common.{
  ℕ, zero, suc, ◌+◌, ◌-◌, ◌*◌, ◌/◌, ◌%◌, ◌<◌, ◌≤◌, ◌≡◌, ◌≢◌, refl, sym, ap, subst, ◌∙◌, inl, inr,
  Bool, true, false, Option, none, some, Result, ok, err, ltb, Bool-cases, arith, checked_add,
  checked_add-inv,
}
use generic_kernel.Ranges.{covers, inside}
use generic_kernel.Pmm.{
  PhysicalMemory, PhysicalMemoryError, page_size, allocate_pages, allocate_frame,
}
use generic_kernel.Pmm.Inv.{IsValid}
use generic_kernel.Pmm.Allocate.{Allocated}
use generic_kernel.Pmm.Blocks.{allocate-Allocated}
use generic_kernel.Mapping.{
  PmmFrameAllocator, Mapper, Ram, counted_frame, allocate_physical, inside_page,
}
use generic_kernel.Mapping.Clearing.{or-true, and-false, cleared, cleared_at, zero_frame_lem}
use generic_kernel.Mapping.Taking.{
  HasTaken, IsTaken, allocate_physical-HasTaken, allocate_physical-IsTaken,
}
use generic_kernel.Mapping.HeapMap.{
  heap_flags, HeapRun, heap_linked, heap_zeroed, heap_framed, map_heap_pages,
}

-- Memory that was cleared stays so, and the frame is cleared.
record IsCleared (base : ℕ) (before after : Ram) : Type 0 where
  zero_there : (i : ℕ) → i < page_size → after (base + i) ≡ 0
  zero_kept : (x : ℕ) → before x ≡ 0 → after x ≡ 0

cleared-IsCleared : (base : ℕ) (ram : Ram) → IsCleared base ram (cleared base ram)
cleared-IsCleared base ram = record {
  zero_there = λ i lt. let within : inside_page base (base + i) ≡ true = ground arith in rw within;
  zero_kept = λ x h. elim (Bool-cases (inside_page base x)) [
    | inl within ↦ rw within
    | inr out ↦ rw (out, h)
  ];
}

module _ {n : ℕ} (mapper : Mapper n) (offset root : ℕ) where
  open mapper use {Tables, translate, map_to, maps, others, takes}

  -- The byte at an address stands in physical memory that was free, is taken now and holds a zero.
  pub record IsBacked (before after : PhysicalMemory) (ram : Ram) (looked_up : Option ℕ)
      : Type 0 where
    pub frame : ℕ
    pub found : looked_up ≡ some frame
    pub was_free : covers before.free frame ≡ true
    pub is_taken : covers after.free frame ≡ false
    pub is_zero : ram (offset + frame) ≡ 0

  -- A run of the loop over the pages from `page` on.
  pub record HasPages (rounds page : ℕ) (t : Tables) (a : PmmFrameAllocator) (ram : Ram)
      (t' : Tables) (a' : PmmFrameAllocator) (ram' : Ram) : Type 0 where
    pub backed :
        (i : ℕ) → i < rounds * page_size → IsBacked a.pmm a'.pmm ram' (translate t' root (page + i))
    pub apart :
        (i j f : ℕ)
        → i < rounds * page_size
        → j < rounds * page_size
        → translate t' root (page + i) ≡ some f
        → translate t' root (page + j) ≡ some f
        → i ≡ j
    pub lower :
        (address : ℕ) → address < page → translate t' root address ≡ translate t root address
    pub upper :
        (address : ℕ)
        → page + rounds * page_size ≤ address
        → translate t' root address ≡ translate t root address
    pub total : (sum : ℕ) → HasTaken n sum a → HasTaken n sum a'
    pub taken : (x : ℕ) → covers a.pmm.free x ≡ false → covers a'.pmm.free x ≡ false
    pub zero_kept : (x : ℕ) → ram x ≡ 0 → ram' x ≡ 0

  abbrev pub IsHeapRun :
      ℕ → ℕ → Tables → PmmFrameAllocator → Ram → HeapRun mapper offset root → Type 0
  IsHeapRun rounds page t a ram none = Unit {0}
  IsHeapRun rounds page t a ram (some (t', a', ram')) = HasPages rounds page t a ram t' a' ram'

  -- One round.
  record HasPage (page physical : ℕ) (t : Tables) (a : PmmFrameAllocator) (ram : Ram) (t' : Tables)
      (a' : PmmFrameAllocator) (ram' : Ram) : Type 0 where
    now : (i : ℕ) → i < page_size → translate t' root (page + i) ≡ some (physical + i)
    other :
        (address : ℕ)
        → address / page_size ≢ page / page_size
        → translate t' root address ≡ translate t root address
    was_free : (i : ℕ) → i < page_size → covers a.pmm.free (physical + i) ≡ true
    is_taken : (i : ℕ) → i < page_size → covers a'.pmm.free (physical + i) ≡ false
    total : (sum : ℕ) → HasTaken n sum a → HasTaken n sum a'
    taken : (x : ℕ) → covers a.pmm.free x ≡ false → covers a'.pmm.free x ≡ false
    cleared : IsCleared (offset + physical) ram ram'

  -- What is free after a round was free before it.
  free_before :
      (page physical : ℕ) (t : Tables) (a : PmmFrameAllocator) (ram : Ram) (t' : Tables)
      (a' : PmmFrameAllocator) (ram' : Ram) (x : ℕ)
      → HasPage page physical t a ram t' a' ram'
      → covers a'.pmm.free x ≡ true
      → covers a.pmm.free x ≡ true
  free_before page physical t a ram t' a' ram' x step free =
      elim (Bool-cases (covers a.pmm.free x)) [
        | inl was ↦ was
        | inr taken ↦ absurd (let no = step.taken x taken in cc)
      ]

  module _ (rounds page physical : ℕ) (t : Tables) (a : PmmFrameAllocator) (ram : Ram) (t' : Tables)
      (a' : PmmFrameAllocator) (ram' : Ram) (t'' : Tables) (a'' : PmmFrameAllocator) (ram'' : Ram)
      (aligned : page % page_size ≡ 0) (step : HasPage page physical t a ram t' a' ram')
      (rest : HasPages rounds (page + page_size) t' a' ram' t'' a'' ram'') where
    first_found : (i : ℕ) → i < page_size → translate t'' root (page + i) ≡ some (physical + i)
    first_found i lt = rest.lower (page + i) (omega (arith, lt)) ∙ step.now i lt

    later : (i : ℕ) → page_size ≤ i → page + page_size + (i - page_size) ≡ page + i
    later i le = omega (arith, le)

    later-IsBacked :
        (i : ℕ)
        → page_size ≤ i
        → i < suc rounds * page_size
        → IsBacked a'.pmm a''.pmm ram'' (translate t'' root (page + i))
    later-IsBacked i le lt =
        subst (λ p. IsBacked a'.pmm a''.pmm ram'' (translate t'' root p)) (later i le)
          (rest.backed (i - page_size) (omega (arith, le, lt)))

    -- The first page and a later one have no byte in common.
    first_apart :
        (i j f : ℕ)
        → i < page_size
        → page_size ≤ j
        → j < suc rounds * page_size
        → translate t'' root (page + i) ≡ some f
        → translate t'' root (page + j) ≡ some f
        → i ≡ j
    first_apart i j f lt le lt' h h' =
        let there = later-IsBacked j le lt' in
        let here : some (physical + i) ≡ some there.frame =
          sym (first_found i lt) ∙ h ∙ sym h' ∙ there.found in
        absurd (let no = step.is_taken i lt in let yes = there.was_free in cc)

    more-HasPages : HasPages (suc rounds) page t a ram t'' a'' ram''
    more-HasPages = record {
      backed = λ i lt. elim (Bool-cases (ltb i page_size)) [
        | inl here ↦
            let within : i < page_size = ground arith in
            record {
              frame = physical + i;
              found = first_found i within;
              was_free = step.was_free i within;
              is_taken = rest.taken (physical + i) (step.is_taken i within);
              is_zero =
                  let sum : offset + physical + i ≡ offset + (physical + i) = omega arith in
                  rest.zero_kept (offset + (physical + i))
                    (subst (λ x. ram' x ≡ 0) sum (step.cleared.zero_there i within));
            }
        | inr there ↦
            let b = later-IsBacked i (ground arith) lt in
            record {
              frame = b.frame;
              found = b.found;
              was_free = free_before page physical t a ram t' a' ram' b.frame step b.was_free;
              is_taken = b.is_taken;
              is_zero = b.is_zero;
            }
      ];
      apart = λ i j f lt lt' h h'. elim (Bool-cases (ltb i page_size)) [
        | inl here ↦ elim (Bool-cases (ltb j page_size)) [
          | inl here' ↦
              let e : some (physical + i) ≡ some (physical + j) =
                sym (first_found i (ground arith)) ∙ h ∙ sym h' ∙ first_found j (ground arith) in
              let e' : physical + i ≡ physical + j = cc in omega (arith, e')
          | inr there' ↦ first_apart i j f (ground arith) (ground arith) lt' h h'
        ]
        | inr there ↦ elim (Bool-cases (ltb j page_size)) [
          | inl here' ↦ sym (first_apart j i f (ground arith) (ground arith) lt h' h)
          | inr there' ↦
              let le : page_size ≤ i = ground arith in
              let le' : page_size ≤ j = ground arith in
              let e =
                rest.apart (i - page_size) (j - page_size) f (omega (arith, le, lt))
                  (omega (arith, le', lt')) (ap (translate t'' root) (later i le) ∙ h)
                  (ap (translate t'' root) (later j le') ∙ h') in
              omega (arith, e, le, le')
        ]
      ];
      lower = λ address lt.
          rest.lower address (omega (arith, lt)) ∙ step.other address (omega (arith, lt, aligned));
      upper = λ address le.
          rest.upper address (omega (arith, le)) ∙ step.other address (omega (arith, le, aligned));
      total = λ sum h. rest.total sum (step.total sum h);
      taken = λ x h. rest.taken x (step.taken x h);
      zero_kept = λ x h. rest.zero_kept x (step.cleared.zero_kept x h);
    }

  module _ (rounds page : ℕ) (t : Tables) (a : PmmFrameAllocator) (ram : Ram)
      (next : Tables → PmmFrameAllocator → Ram → HeapRun mapper offset root)
      (aligned : page % page_size ≡ 0) (valid : IsValid n a.pmm)
      (deeper : (t' : Tables) (a' : PmmFrameAllocator) (ram' : Ram)
        → IsValid n a'.pmm
        → IsHeapRun rounds (page + page_size) t' a' ram' (next t' a' ram')) where
    stepped :
        (physical : ℕ) (t' : Tables) (a' : PmmFrameAllocator) (ram' : Ram)
        (r : HeapRun mapper offset root)
        → HasPage page physical t a ram t' a' ram'
        → IsHeapRun rounds (page + page_size) t' a' ram' r
        → IsHeapRun (suc rounds) page t a ram r
    stepped physical t' a' ram' none step rest = tt
    stepped physical t' a' ram' (some (t'', a'', ram'')) step rest =
        more-HasPages rounds page physical t a ram t' a' ram' t'' a'' ram'' aligned step rest

    -- The frame that was taken for the page.
    module _ (physical : ℕ) (m : PhysicalMemory) (done : Allocated n a.pmm 1 1 physical m) where
      abbrev one_more : PmmFrameAllocator
      one_more = record { pmm = m; allocated = suc a.allocated }

      kept_taken :
          (t' : Tables) (a' : PmmFrameAllocator) (x : ℕ)
          → map_to t one_more root page physical heap_flags ≡ (true, t', a')
          → covers m.free x ≡ false
          → covers a'.pmm.free x ≡ false
      kept_taken t' a' x h out =
          subst (λ o. covers o.2.pmm.free x ≡ false) h
            (takes (IsTaken n x) (allocate_physical-IsTaken n x) t one_more root page physical
              heap_flags (done.valid, out)).1

      linked-HasPage :
          (ram' : Ram) (t' : Tables) (a' : PmmFrameAllocator)
          → IsCleared (offset + physical) ram ram'
          → map_to t one_more root page physical heap_flags ≡ (true, t', a')
          → HasPage page physical t a ram t' a' ram'
      linked-HasPage ram' t' a' cleared h = record {
        now = λ i lt.
            subst (λ o. translate o.1 root (page + i) ≡ some (physical + i)) h
              (maps t one_more root page physical heap_flags aligned
                (omega (arith, done.multiple.1)) (ap (λ o. o.0) h) i lt);
        other = λ address ne.
            subst (λ o. translate o.1 root address ≡ translate t root address) h
              (others t one_more root page physical heap_flags address ne);
        was_free = λ i lt.
            let within : inside physical (physical + 1 * page_size) (physical + i) ≡ true =
              ground arith in
            done.was_free (physical + i) ∙ rw within (or-true (covers m.free (physical + i)));
        is_taken = λ i lt.
            let within : inside physical (physical + 1 * page_size) (physical + i) ≡ true =
              ground arith in
            kept_taken t' a' (physical + i) h (
              done.taken_out (physical + i)
              ∙ rw within (and-false (covers a.pmm.free (physical + i))));
        total = λ sum has.
            subst (λ o. HasTaken n sum o.2) h
              (takes (HasTaken n sum) (allocate_physical-HasTaken n sum) t one_more root page
                physical heap_flags
                (record { valid = done.valid; sum = omega (arith, done.counted, has.sum) }));
        taken = λ x out. kept_taken t' a' x h (done.taken_out x ∙ rw out);
        cleared = cleared;
      }

      linked-IsHeapRun :
          (ram' : Ram) (o : Bool × Tables × PmmFrameAllocator)
          → IsCleared (offset + physical) ram ram'
          → map_to t one_more root page physical heap_flags ≡ o
          → IsHeapRun (suc rounds) page t a ram (heap_linked mapper offset root next ram' o)
      linked-IsHeapRun ram' (false, t', a') cleared h = tt
      linked-IsHeapRun ram' (true, t', a') cleared h =
          let step = linked-HasPage ram' t' a' cleared h in
          let sum = a.pmm.free_bytes + a.allocated * page_size in
          stepped physical t' a' ram' (next t' a' ram') step
            (deeper t' a' ram' (step.total sum (record { valid = valid; sum = refl })).valid)

      zeroed-IsHeapRun :
          (o : Option ℕ)
          → checked_add offset physical ≡ o
          → IsHeapRun
              (suc rounds)
              page
              t
              a
              ram
              (heap_zeroed mapper offset root next page physical t one_more (cleared_at o ram))
      zeroed-IsHeapRun none h = tt
      zeroed-IsHeapRun (some base) h =
          linked-IsHeapRun _ _
            (subst (λ b. IsCleared b ram (cleared base ram)) (sym (checked_add-inv _ _ _ h))
              (cleared-IsCleared base ram))
            refl

    framed-IsHeapRun :
        (o : Result PhysicalMemoryError (Option ℕ) × PhysicalMemory)
        → allocate_pages n a.pmm 1 1 ≡ o
        → IsHeapRun
            (suc rounds)
            page
            t
            a
            ram
            (heap_framed mapper offset root next page t ram (counted_frame a.allocated o))
    framed-IsHeapRun (err e, m) h = tt
    framed-IsHeapRun (ok none, m) h = tt
    framed-IsHeapRun (ok (some physical), m) h =
        subst
          (λ o. IsHeapRun (suc rounds) page t a ram (
            heap_zeroed mapper offset root next page physical t
              (record { pmm = m; allocated = suc a.allocated }) o))
          (zero_frame_lem offset physical ram)
          (zeroed-IsHeapRun physical m (allocate-Allocated n a.pmm m 1 1 physical valid h) _ refl)

  pub loop-IsHeapRun :
      (rounds page : ℕ) (t : Tables) (a : PmmFrameAllocator) (ram : Ram)
      → page % page_size ≡ 0
      → IsValid n a.pmm
      → IsHeapRun rounds page t a ram (map_heap_pages mapper offset root rounds page t a ram)
  unfolding map_heap_pages allocate_physical allocate_frame
  loop-IsHeapRun zero page t a ram aligned v = record {
    backed = λ i lt. absurd (omega (arith, lt));
    apart = λ i j f lt lt' h h'. absurd (omega (arith, lt));
    lower = λ address lt. refl;
    upper = λ address le. refl;
    total = λ sum h. h;
    taken = λ x h. h;
    zero_kept = λ x h. h;
  }
  loop-IsHeapRun (suc rounds) page t a ram aligned v =
      framed-IsHeapRun rounds page t a ram
        (map_heap_pages mapper offset root rounds (page + page_size)) aligned v
        (λ t' a' ram' v'.
          loop-IsHeapRun rounds (page + page_size) t' a' ram' (omega (arith, aligned)) v')
        _ refl
