-- ===== src/Mapping/LoaderSpace.antt =====
-- `map_user_page` behind the interface of the loader of kernel/src/process.rs: the pages that it maps hold
-- what they were given, and those that were mapped before stay.
use generic_kernel.Common.{
  ℕ, ◌+◌, ◌*◌, ◌%◌, ◌/◌, ◌<◌, ◌≤◌, ◌≡◌, ◌≢◌, sym, ap, subst, ◌∙◌, ◌⊎◌, inl, inr, Bool, true, false,
  List, [], ◌∷◌, Option, none, some, Result, ok, err, get_or, Bool-cases, arith, ltb,
}
use generic_kernel.Ranges.{covers, inside}
use generic_kernel.Pmm.{page_size}
use generic_kernel.Pmm.Inv.{IsValid}
use generic_kernel.Elf.{ElfImage, LoadSegment}
use generic_kernel.Processes.Loader.{Space, Loaded, LoadError, load_image}
use generic_kernel.Processes.Contents.{byte_of}
use generic_kernel.Processes.Loading.{Holds, AllLoaded, IsLoadedImage, load_image-IsLoadedImage}
use generic_kernel.Mapping.{Mapper, Machine, UserMapError, user_flags, map_user_page}
use generic_kernel.Mapping.UserPage.{IsMapped, IsMapping, map_user_page-IsMapping}

-- Bytes on different sides of a range of addresses.
side :
    (frame x : ℕ)
    → inside frame (frame + page_size) x ≡ false
    → (x < frame) ⊎ (frame + page_size ≤ x)
side frame x out = elim (Bool-cases (ltb x frame)) [
  | inl below ↦ inl (ground arith)
  | inr above ↦ inr (ground arith)
]

module _ {n : ℕ} (mapper : Mapper n) (offset root : ℕ) where
  open mapper use {Tables, translate, flags_at}

  -- A machine with a valid physical memory.
  abbrev pub ValidMachine : Type 0
  ValidMachine = (s : Machine Tables) × IsValid n s.pmm

  pub record HasPage (s : Machine Tables) (page : ℕ) (writable executable : Bool) (initial : List ℕ)
      : Type 0 where
    pub frame : ℕ
    pub aligned : page % page_size ≡ 0
    pub found : (i : ℕ) → i < page_size → translate s.tables root (page + i) ≡ some (frame + i)
    pub access : flags_at s.tables root page ≡ some (user_flags writable executable)
    pub taken : (a : ℕ) → inside frame (frame + page_size) a ≡ true → covers s.pmm.free a ≡ false
    pub contents : (i : ℕ) → i < page_size → s.ram (offset + frame + i) ≡ get_or initial i 0

  mapped-HasPage :
      (page frame : ℕ) (w x : Bool) (initial : List ℕ) (s s' : Machine Tables)
      → page % page_size ≡ 0
      → IsMapped mapper offset root page (user_flags w x) initial s frame s'
      → HasPage s' page w x initial
  mapped-HasPage page frame w x initial s s' al m = record {
    frame = frame;
    aligned = al;
    found = m.now;
    access = m.access;
    taken = m.taken;
    contents = m.contents;
  }

  -- A page that was mapped stays where it is.
  kept-HasPage :
      (page frame : ℕ) (w x : Bool) (initial : List ℕ) (s s' : Machine Tables)
      → page % page_size ≡ 0
      → IsMapped mapper offset root page (user_flags w x) initial s frame s'
      → (page' : ℕ) (w' x' : Bool) (initial' : List ℕ) → HasPage s page' w' x' initial'
      → HasPage s' page' w' x' initial'
  kept-HasPage page frame w x initial s s' al m page' w' x' initial' h =
      let apart : page' / page_size ≢ page / page_size = λ e.
        let same : page' ≡ page = omega (arith, e, al, h.aligned) in
        let start : page' + 0 ≡ page = omega (arith, same) in
        let both : none ≡ some (h.frame + 0) =
          sym m.was_unmapped ∙ sym (ap (translate s.tables root) start) ∙ h.found 0 (omega arith) in
        absurd (cc) in
      record {
        frame = h.frame;
        aligned = h.aligned;
        found = λ i lt.
            m.other (page' + i) (λ e. apart (omega (arith, e, h.aligned, lt))) ∙ h.found i lt;
        access = m.other_access page' apart ∙ h.access;
        taken = λ a within. m.still_taken a (h.taken a within);
        contents = λ i lt.
            let mine : inside h.frame (h.frame + page_size) (h.frame + i) ≡ true = ground arith in
            let other : inside frame (frame + page_size) (h.frame + i) ≡ false =
              elim (Bool-cases (inside frame (frame + page_size) (h.frame + i))) [
                | inr out ↦ out
                | inl within ↦ absurd (
                    let yes = m.was_free (h.frame + i) within in
                    let not_free = h.taken (h.frame + i) mine in cc)
              ] in
            let away : (offset + h.frame + i < offset + frame)
                ⊎ (offset + frame + page_size ≤ offset + h.frame + i) =
              elim (side frame (h.frame + i) other) [
                | inl below ↦ inl (omega (arith, below))
                | inr above ↦ inr (omega (arith, above))
              ] in
            m.around (offset + h.frame + i) away ∙ h.contents i lt;
      }

  pub mapping-IsValid :
      (page : ℕ) (w x : Bool) (initial : List ℕ) (s : Machine Tables)
      (r : Result UserMapError ℕ × Machine Tables)
      → IsMapping mapper offset root page (user_flags w x) initial s r
      → IsValid n r.1.pmm
  mapping-IsValid page w x initial s (ok frame, s') (al, below, fits, m) = m.valid
  mapping-IsValid page w x initial s (err e, s') (same, v) = v

  -- `map_user_page(...).is_ok()` and the machine, as the loader takes them.
  abbrev pub answer :
      (r : Result UserMapError ℕ × Machine Tables) → IsValid n r.1.pmm → Option ℕ × ValidMachine
  answer (ok frame, s') v = (some frame, (s', v))
  answer (err e, s') v = (none, (s', v))

  abbrev pub map_page : ValidMachine → ℕ → Bool → Bool → List ℕ → Option ℕ × ValidMachine
  map_page (s, v) page w x initial = answer (map_user_page mapper offset root page w x initial s) (
      mapping-IsValid page w x initial s _
        (map_user_page-IsMapping mapper offset root page w x initial s v))

  -- What a page that was answered holds, and the pages from before.
  pub answered :
      (page frame : ℕ) (w x : Bool) (initial : List ℕ) (s : Machine Tables) (s' : ValidMachine)
      (r : Result UserMapError ℕ × Machine Tables) (v : IsValid n r.1.pmm)
      → IsMapping mapper offset root page (user_flags w x) initial s r
      → answer r v ≡ (some frame, s')
      → HasPage s'.0 page w x initial
        × ((page' : ℕ) (w' x' : Bool) (initial' : List ℕ)
            → HasPage s page' w' x' initial'
            → HasPage s'.0 page' w' x' initial')
  answered page frame w x initial s s' (err e, s'') v m h =
      let no : none ≡ some frame = ap (λ o. o.0) h in absurd (cc)
  answered page frame w x initial s s' (ok frame', s'') v (al, below, fits, m) h =
      let same : s'' ≡ s'.0 = ap (λ o. o.1.0) h in
      (
        subst (λ k. HasPage k page w x initial) same
            (mapped-HasPage page frame' w x initial s s'' al m),
        λ page' w' x' initial' there.
            subst (λ k. HasPage k page' w' x' initial') same
              (kept-HasPage page frame' w x initial s s'' al m page' w' x' initial' there),
      )

  abbrev pub loader_space : Space
  loader_space = record {
    Tables = ValidMachine;
    map_user_page = map_page;
    IsPage = λ s page w x initial. HasPage s.0 page w x initial;
    mapped = λ s s' page frame w x initial h whole.
        (answered page frame w x initial s.0 s' _ _
          (map_user_page-IsMapping mapper offset root page w x initial s.0 s.1) h).0;
    kept = λ s s' page frame w x initial h page' w' x' initial' there.
        (answered page frame w x initial s.0 s' _ _
            (map_user_page-IsMapping mapper offset root page w x initial s.0 s.1) h).1
          page' w' x' initial' there;
  }

  -- The byte of a segment at an address: looked up at a frame that is taken and holds it.
  pub record IsResident (s : Machine Tables) (segment : LoadSegment) (a : ℕ) : Type 0 where
    pub frame : ℕ
    pub found : translate s.tables root a ≡ some frame
    pub access :
        flags_at s.tables root (a / page_size * page_size)
        ≡ some (user_flags segment.writable segment.executable)
    pub is_taken : covers s.pmm.free frame ≡ false
    pub byte : s.ram (offset + frame) ≡ byte_of segment a

  Holds-IsResident :
      (s : ValidMachine) (segment : LoadSegment) (a : ℕ)
      → Holds loader_space s segment a
      → IsResident s.0 segment a
  Holds-IsResident s segment a (initial, page, byte) =
      let within : a % page_size < page_size = omega arith in
      let at : a / page_size * page_size + a % page_size ≡ a = omega arith in
      let where_to : offset + page.frame + a % page_size ≡ offset + (page.frame + a % page_size) =
        omega arith in
      record {
        frame = page.frame + a % page_size;
        found =
            subst (λ x. translate s.0.tables root x ≡ some (page.frame + a % page_size)) at
              (page.found (a % page_size) within);
        access = page.access;
        is_taken = page.taken (page.frame + a % page_size) (ground (arith, within));
        byte =
            subst (λ x. s.0.ram x ≡ byte_of segment a) where_to
              (page.contents (a % page_size) within ∙ byte);
      }

  abbrev pub AllResident : Machine Tables → List LoadSegment → Type 0
  AllResident s [] = Unit {0}
  AllResident s (segment ∷ rest) =
      ((a : ℕ)
        → segment.virtual_address ≤ a
        → a < segment.virtual_address + segment.memory_size
        → IsResident s segment a)
      × AllResident s rest

  loaded-AllResident :
      (s : ValidMachine) (segments : List LoadSegment)
      → AllLoaded loader_space s segments
      → AllResident s.0 segments
  loaded-AllResident s [] all = tt
  loaded-AllResident s (segment ∷ rest) (inl nothing, all) =
      (λ a low high. absurd (omega (arith, nothing, low, high)), loaded-AllResident s rest all)
  loaded-AllResident s (segment ∷ rest) (inr (fits, held), all) =
      (λ a low high. Holds-IsResident s segment a (held a low high), loaded-AllResident s rest all)

  abbrev pub IsResidentImage : ElfImage → Loaded ValidMachine → Type 0
  IsResidentImage image (ok _, s') = AllResident s'.0 image.segments
  IsResidentImage image (err e, s') = e ≢ LoadError.out_of_fuel

  resident :
      (image : ElfImage) (o : Loaded ValidMachine)
      → IsLoadedImage loader_space image o
      → IsResidentImage image o
  resident image (ok _, s') (below, all) = loaded-AllResident s' image.segments all
  resident image (err e, s') h = h

  -- Where `load_image` succeeds with the pages of `map_user_page`, on a valid physical memory, every byte
  -- of a segment's memory is looked up, with the access of the segment, at a byte of physical memory that
  -- is taken and holds the segment's data there, or zero behind it. Where it fails, its loop over the
  -- pages has not run out of rounds.
  pub load_image-IsResidentImage :
      (image : ElfImage) (s : ValidMachine)
      → IsResidentImage image (load_image loader_space image s)
  load_image-IsResidentImage image s =
      resident image (load_image loader_space image s)
        (load_image-IsLoadedImage loader_space image s)
