-- ===== src/Processes/Loading.antt =====
-- `load_image` maps each byte of each segment, and its loops end.
use generic_kernel.Common.{
  ℕ, zero, suc, ◌+◌, ◌-◌, ◌*◌, ◌/◌, ◌%◌, ◌<◌, ◌≤◌, ◌≡◌, ◌≢◌, refl, sym, ap, subst, ◌∙◌, ◌⊎◌, inl,
  inr, Bool, true, false, List, [], ◌∷◌, Option, none, some, ltb, leb, ◌==◌, length, ok, err,
  Bool-cases, Option-cases, arith, checked_add, checked_add-inv, align_down, align_up,
  align_down_lem, align_up-AlignedUp, AlignedUp, IsPower,
}
use generic_kernel.Common.{get_or}
use generic_kernel.Elf.{ElfImage, LoadSegment}
use generic_kernel.Pmm.{page_size}
use generic_kernel.Processes.Loader.{
  Space, LoadError, Loaded, user_limit, page_image, load_pages, after_page, load_segment_pages,
  after_segment, load_segments, load_image,
}
use generic_kernel.Processes.Contents.{byte_of, length-page_image, page_image-byte_of}

page-IsPower : IsPower page_size
page-IsPower = (12, omega arith, refl)

first_or_later : (k j : ℕ) → k ≤ j → (j ≡ k) ⊎ (suc k ≤ j)
first_or_later k j h = elim (Bool-cases (j == k)) [
  | inl e ↦ inl (ground arith)
  | inr e ↦ inr (ground arith)
]

module _ (space : Space) where
  open space use {Tables, map_user_page, IsPage, mapped, kept}

  -- The byte of the segment at an address is mapped, with the segment's access.
  abbrev pub Holds : Tables → LoadSegment → ℕ → Type 0
  Holds s segment a =
      (initial : List ℕ) × IsPage s (a / page_size * page_size) segment.writable segment.executable
        initial
      × (get_or initial (a % page_size) 0 ≡ byte_of segment a)

  -- A segment without memory asks for nothing; any other lies below the limit with all its bytes mapped.
  abbrev pub IsLoaded : Tables → LoadSegment → Type 0
  IsLoaded s segment =
      (segment.memory_size ≡ 0)
      ⊎ ((segment.virtual_address + segment.memory_size ≤ user_limit)
          × ((a : ℕ)
              → segment.virtual_address ≤ a
              → a < segment.virtual_address + segment.memory_size
              → Holds s segment a))

  abbrev pub AllLoaded : Tables → List LoadSegment → Type 0
  AllLoaded s [] = Unit {0}
  AllLoaded s (segment ∷ rest) = IsLoaded s segment × AllLoaded s rest

  abbrev Stays : Tables → Tables → Type 0
  Stays s s' =
      (page : ℕ) (w x : Bool) (initial : List ℕ)
      → IsPage s page w x initial
      → IsPage s' page w x initial

  -- The pages of number `k` to `l`, without the last, are mapped.
  abbrev PagesDone : Tables → LoadSegment → ℕ → ℕ → ℕ → Loaded Tables → Type 0
  PagesDone s segment file_end k l (ok _, s') =
      Stays s s'
      × ((j : ℕ)
          → k ≤ j
          → j < l
          → IsPage s' (j * page_size) segment.writable segment.executable
              (page_image segment file_end (j * page_size)))
  PagesDone s segment file_end k l (err e, s') = e ≢ LoadError.out_of_fuel

  one_more :
      (s s1 : Tables) (segment : LoadSegment) (file_end k l : ℕ) (o : Loaded Tables)
      → Stays s s1
      → IsPage s1
          (k * page_size)
          segment.writable
          segment.executable
          (page_image segment file_end (k * page_size))
      → PagesDone s1 segment file_end (suc k) l o
      → PagesDone s segment file_end k l o
  one_more s s1 segment file_end k l (err e, s') stays here rest = rest
  one_more s s1 segment file_end k l (ok _, s') stays here (stays', rest) = (
    λ page w x initial old. stays' page w x initial (stays page w x initial old),
    λ j le lt. elim (first_or_later k j le) [
      | inl first ↦
          subst
            (λ i.
              IsPage s' (i * page_size) segment.writable segment.executable
                (page_image segment file_end (i * page_size)))
            (sym first) (stays' _ _ _ _ here)
      | inr later ↦ rest j later lt
    ],
  )

  load_pages-PagesDone :
      (segment : LoadSegment) (file_end n k l : ℕ) (s : Tables)
      → l ≡ k + n
      → PagesDone s segment file_end k l
          (load_pages space segment file_end (l * page_size) (suc n) (k * page_size) s)
  unfolding load_pages
  load_pages-PagesDone segment file_end zero k l s count =
      let test : ltb (k * page_size) (l * page_size) ≡ false = ground arith in
      rw test (λ page w x initial old. old, λ j le lt. absurd (omega arith))
  load_pages-PagesDone segment file_end (suc n) k l s count =
      let test : ltb (k * page_size) (l * page_size) ≡ true = ground arith in
      let next : k * page_size + page_size ≡ suc k * page_size = omega arith in
      rw (test, next)
        (after
          (map_user_page s (k * page_size) segment.writable segment.executable
            (page_image segment file_end (k * page_size)))
          refl (λ s1. load_pages-PagesDone segment file_end n (suc k) l s1 (omega arith)))
    where
      after :
          (o : Option ℕ × Tables)
          → map_user_page s
              (k * page_size)
              segment.writable
              segment.executable
              (page_image segment file_end (k * page_size))
            ≡ o
          → ((s1 : Tables)
              → PagesDone s1 segment file_end (suc k) l (
                  load_pages space segment file_end (l * page_size) (suc n) (suc k * page_size) s1))
          → PagesDone s segment file_end k l (
              after_page space o
                (load_pages space segment file_end (l * page_size) (suc n) (suc k * page_size)))
      after (none, s1) h rec = λ e. absurd (cc)
      after (some frame, s1) h rec =
          one_more s s1 segment file_end k l _
            (λ page w x initial old. kept s s1 _ frame _ _ _ h page w x initial old)
            (mapped s s1 _ frame _ _ _ h (length-page_image segment file_end (k * page_size)))
            (rec s1)

  abbrev SegmentDone : Tables → LoadSegment → Loaded Tables → Type 0
  SegmentDone s segment (ok _, s') = Stays s s' × IsLoaded s' segment
  SegmentDone s segment (err e, s') = e ≢ LoadError.out_of_fuel

  -- The pages of a segment hold its bytes.
  held :
      (s : Tables) (segment : LoadSegment) (file_end k l : ℕ) (o : Loaded Tables)
      → segment.virtual_address + length segment.file_data ≡ file_end
      → segment.virtual_address + segment.memory_size ≤ user_limit
      → k ≡ segment.virtual_address / page_size
      → segment.virtual_address + segment.memory_size ≤ l * page_size
      → PagesDone s segment file_end k l o
      → SegmentDone s segment o
  held s segment file_end k l (err e, s') file fits first last done = done
  held s segment file_end k l (ok _, s') file fits first last (stays, pages) = (
    stays,
    inr (
      fits,
      λ a le lt.
          let page = a / page_size * page_size in
          let at : page + a % page_size ≡ a = omega arith in
          (
            page_image segment file_end page,
            pages (a / page_size) (omega arith) (omega arith),
            subst (λ e. get_or (page_image segment e page) (a % page_size) 0 ≡ byte_of segment a)
                file
                (page_image-byte_of segment page (a % page_size) (omega arith)
                  ∙ ap (byte_of segment) at),
          ),
    ),
  )

  -- The loop over the pages from the first to the end.
  covered :
      (segment : LoadSegment) (segment_end page_end file_end : ℕ) (s : Tables)
      → segment.virtual_address + segment.memory_size ≡ segment_end
      → segment_end ≤ user_limit
      → segment.virtual_address < user_limit
      → segment.memory_size ≢ 0
      → AlignedUp segment_end page_size (some page_end)
      → segment.virtual_address + length segment.file_data ≡ file_end
      → SegmentDone s segment (
          load_pages space segment file_end page_end
            (suc ((page_end - align_down segment.virtual_address page_size) / page_size))
            (align_down segment.virtual_address page_size)
            s)
  covered segment segment_end page_end file_end s whole near low memory shape file =
      let (above, close, small, (l, e)) = shape in
      let k = segment.virtual_address / page_size in
      let down = align_down_lem segment.virtual_address page_size page-IsPower (omega arith) in
      let rounds : (l * page_size - k * page_size) / page_size ≡ l - k = omega arith in
      let done =
        held s segment file_end k l _ file (omega arith) refl (omega arith)
          (load_pages-PagesDone segment file_end (l - k) k l s (omega arith)) in
      rw (e, down, rounds) done

  load_segment-SegmentDone :
      (segment : LoadSegment) (s : Tables)
      → SegmentDone s segment (load_segment_pages space segment s)
  unfolding load_segment_pages
  load_segment-SegmentDone segment s =
      let va = segment.virtual_address in
      elim (Bool-cases (segment.memory_size == 0)) [
        | inl nothing ↦ rw nothing (λ page w x initial old. old, inl (ground arith))
        | inr memory ↦ elim (Bool-cases (leb user_limit va)) [
          | inl high ↦ rw (memory, high) (λ e. absurd (cc))
          | inr low ↦ elim (Option-cases (checked_add va segment.memory_size)) [
            | inl over ↦ rw (memory, low, over) (λ e. absurd (cc))
            | inr (segment_end, sum) ↦
                let whole : va + segment.memory_size ≡ segment_end =
                  checked_add-inv va segment.memory_size segment_end sum in
                elim (Bool-cases (ltb user_limit segment_end)) [
                  | inl far ↦ rw (memory, low, sum, far) (λ e. absurd (cc))
                  | inr near ↦
                      rw (memory, low, sum, near)
                        (placed segment segment_end s whole (ground arith) (ground arith)
                          (ground arith))
                ]
          ]
        ]
      ]
    where
      placed :
          (segment : LoadSegment) (segment_end : ℕ) (s : Tables)
          → segment.virtual_address + segment.memory_size ≡ segment_end
          → segment_end ≤ user_limit
          → segment.virtual_address < user_limit
          → segment.memory_size ≢ 0
          → SegmentDone s segment (elim (align_up segment_end page_size) [
            | none ↦ (err LoadError.page_overflow, s)
            | some page_end ↦
                elim (checked_add segment.virtual_address (length segment.file_data)) [
                  | none ↦ (err LoadError.file_overflow, s)
                  | some file_end ↦
                      load_pages space segment file_end page_end
                        (suc
                          ((page_end - align_down segment.virtual_address page_size) / page_size))
                        (align_down segment.virtual_address page_size)
                        s
                ]
          ])
      placed segment segment_end s whole near low memory =
          let up = align_up-AlignedUp segment_end page_size page-IsPower in
          elim (Option-cases (align_up segment_end page_size)) [
            | inl over ↦ rw over (λ e. absurd (cc))
            | inr (page_end, e) ↦
                let shape : AlignedUp segment_end page_size (some page_end) =
                  subst (AlignedUp segment_end page_size) e up in
                elim (Option-cases
                  (checked_add segment.virtual_address (length segment.file_data))) [
                    | inl long ↦ rw (e, long) (λ x. absurd (cc))
                    | inr (file_end, sum) ↦
                        rw (e, sum)
                          (covered segment segment_end page_end file_end s whole near low memory
                            shape (checked_add-inv _ _ file_end sum))
                  ]
          ]

  IsLoaded-Stays :
      (s s' : Tables) (segment : LoadSegment)
      → Stays s s'
      → IsLoaded s segment
      → IsLoaded s' segment
  IsLoaded-Stays s s' segment stays (inl nothing) = inl nothing
  IsLoaded-Stays s s' segment stays (inr (fits, all)) = inr (
    fits,
    λ a le lt. let (initial, page, byte) = all a le lt in (initial, stays _ _ _ _ page, byte),
  )

  abbrev AllDone : Tables → List LoadSegment → Loaded Tables → Type 0
  AllDone s segments (ok _, s') = Stays s s' × AllLoaded s' segments
  AllDone s segments (err e, s') = e ≢ LoadError.out_of_fuel

  load_segments-AllDone :
      (segments : List LoadSegment) (s : Tables)
      → AllDone s segments (load_segments space segments s)
  unfolding load_segments
  load_segments-AllDone [] s = (λ page w x initial old. old, tt)
  load_segments-AllDone (segment ∷ rest) s =
      go (load_segment_pages space segment s) (load_segment-SegmentDone segment s)
        (load_segments-AllDone rest)
    where
      also :
          (s1 : Tables) (o : Loaded Tables)
          → Stays s s1
          → IsLoaded s1 segment
          → AllDone s1 rest o
          → AllDone s (segment ∷ rest) o
      also s1 (err e, s2) stays one h = h
      also s1 (ok _, s2) stays one (stays', all) = (
        λ page w x initial old. stays' page w x initial (stays page w x initial old),
        (IsLoaded-Stays s1 s2 segment stays' one, all),
      )

      go :
          (o : Loaded Tables)
          → SegmentDone s segment o
          → ((s1 : Tables) → AllDone s1 rest (load_segments space rest s1))
          → AllDone s (segment ∷ rest) (after_segment space o (load_segments space rest))
      go (err e, s1) h rec = h
      go (ok _, s1) (stays, one) rec = also s1 _ stays one (rec s1)

  -- What `load_image` leaves.
  abbrev pub IsLoadedImage : ElfImage → Loaded Tables → Type 0
  IsLoadedImage image (ok _, s') = (image.entry < user_limit) × AllLoaded s' image.segments
  IsLoadedImage image (err e, s') = e ≢ LoadError.out_of_fuel

  imaged :
      (image : ElfImage) (s : Tables) (o : Loaded Tables)
      → image.entry < user_limit
      → AllDone s image.segments o
      → IsLoadedImage image o
  imaged image s (ok _, s') below (stays, all) = (below, all)
  imaged image s (err e, s') below h = h

  -- Where `load_image` succeeds, the entry point and every segment lie below the limit of user addresses,
  -- and each byte of a segment's memory is mapped with the access of the segment, in a page that holds the
  -- segment's data there and zeros behind it. Where it fails, its loop over the pages has not run out of
  -- rounds.
  pub load_image-IsLoadedImage :
      (image : ElfImage) (s : Tables) → IsLoadedImage image (load_image space image s)
  unfolding load_image
  load_image-IsLoadedImage image s = elim (Bool-cases (leb user_limit image.entry)) [
    | inl high ↦ rw high (λ e. absurd (cc))
    | inr low ↦ rw low (imaged image s _ (ground arith) (load_segments-AllDone image.segments s))
  ]
