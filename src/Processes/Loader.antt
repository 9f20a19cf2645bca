-- ===== src/Processes/Loader.antt =====
-- kernel/src/process.rs: `load_image`, over an address space behind the interface `Space`.
use generic_kernel.Common.{
  ℕ, zero, suc, ◌+◌, ◌-◌, ◌/◌, ◌^◌, ◌≡◌, Bool, List, [], ◌∷◌, Option, none, some, Result, ok, err,
  ltb, leb, ◌==◌, if◌then◌else◌, checked_add, align_down, align_up, length, max, min, replicate,
}
use generic_kernel.Bytes.{slice, write_at}
use generic_kernel.Elf.{ElfImage, LoadSegment}
use generic_kernel.Pmm.{page_size}

-- `USER_LIMIT`.
abbrev pub user_limit : ℕ
user_limit = 2 ^ 39

-- The messages of `load_image`; `map_failed` is an error of `map_user_page`. The loop over the pages of
-- a segment takes fuel, and `out_of_fuel` is its end, which is never met.
pub data LoadError : Type 0 where
  entry_outside start_outside address_overflow end_outside page_overflow file_overflow map_failed
        out_of_fuel :
      LoadError

-- What the loader needs of `map_user_page`: a page that was mapped holds the bytes it was given, with
-- zeros behind them, and has the access asked for; the pages that were mapped before stay.
pub record Space : Type 1 where
  pub Tables : Type 0
  pub map_user_page : Tables → ℕ → Bool → Bool → List ℕ → Option ℕ × Tables
  pub IsPage : Tables → ℕ → Bool → Bool → List ℕ → Type 0
  pub mapped :
      (s s' : Tables) (page frame : ℕ) (w x : Bool) (initial : List ℕ)
      → map_user_page s page w x initial ≡ (some frame, s')
      → length initial ≡ page_size
      → IsPage s' page w x initial
  pub kept :
      (s s' : Tables) (page frame : ℕ) (w x : Bool) (initial : List ℕ)
      → map_user_page s page w x initial ≡ (some frame, s')
      → (page' : ℕ) (w' x' : Bool) (initial' : List ℕ) → IsPage s page' w' x' initial'
      → IsPage s' page' w' x' initial'

-- `vec![0u8; PAGE_SIZE as usize]`.
unfoldable pub blank_page : List ℕ
blank_page = replicate page_size 0

-- The `initial` bytes of a page of a segment.
unfoldable pub page_image : LoadSegment → ℕ → ℕ → List ℕ
page_image segment file_end page_address =
    let copy_start = max page_address segment.virtual_address in
    let copy_end = min (page_address + page_size) file_end in
    if ltb copy_start copy_end
    then write_at (copy_start - page_address)
        (slice (copy_start - segment.virtual_address) (copy_end - copy_start) segment.file_data)
        blank_page
    else blank_page

abbrev pub Loaded : Type 0 → Type 0
Loaded Tables = Result LoadError (Unit {0}) × Tables

module _ (space : Space) where
  open space use {Tables, map_user_page}

  abbrev pub after_page : Option ℕ × Tables → (Tables → Loaded Tables) → Loaded Tables
  after_page (some frame, s) rest = rest s
  after_page (none, s) rest = (err LoadError.map_failed, s)

  -- `while page_address < page_end`.
  unfoldable pub load_pages : LoadSegment → ℕ → ℕ → ℕ → ℕ → Tables → Loaded Tables
  load_pages segment file_end page_end zero page_address s = (err LoadError.out_of_fuel, s)
  load_pages segment file_end page_end (suc fuel) page_address s =
      if ltb page_address page_end
      then after_page
          (map_user_page s page_address segment.writable segment.executable
            (page_image segment file_end page_address))
          (load_pages segment file_end page_end fuel (page_address + page_size))
      else (ok tt, s)

  -- One round of the loop over the segments.
  unfoldable pub load_segment_pages : LoadSegment → Tables → Loaded Tables
  load_segment_pages segment s =
      if segment.memory_size == 0
      then (ok tt, s)
      else if leb user_limit segment.virtual_address
      then (err LoadError.start_outside, s)
      else elim (checked_add segment.virtual_address segment.memory_size) [
        | none ↦ (err LoadError.address_overflow, s)
        | some segment_end ↦
            if ltb user_limit segment_end
            then (err LoadError.end_outside, s)
            else let page_start = align_down segment.virtual_address page_size in
              elim (align_up segment_end page_size) [
                | none ↦ (err LoadError.page_overflow, s)
                | some page_end ↦
                    elim (checked_add segment.virtual_address (length segment.file_data)) [
                      | none ↦ (err LoadError.file_overflow, s)
                      | some file_end ↦
                          load_pages segment file_end page_end
                            (suc ((page_end - page_start) / page_size)) page_start s
                    ]
              ]
      ]

  abbrev pub after_segment : Loaded Tables → (Tables → Loaded Tables) → Loaded Tables
  after_segment (ok _, s) rest = rest s
  after_segment (err e, s) rest = (err e, s)

  unfoldable pub load_segments : List LoadSegment → Tables → Loaded Tables
  load_segments [] s = (ok tt, s)
  load_segments (segment ∷ rest) s =
      after_segment (load_segment_pages segment s) (load_segments rest)

  unfoldable pub load_image : ElfImage → Tables → Loaded Tables
  load_image image s =
      if leb user_limit image.entry
      then (err LoadError.entry_outside, s)
      else load_segments image.segments s
