-- ===== src/Processes/Contents.antt =====
-- The bytes of the pages that `load_image` maps.
use generic_kernel.Common.{
  ℕ, zero, suc, ◌+◌, ◌-◌, ◌<◌, ◌≤◌, ◌≡◌, refl, ap, ◌∙◌, ◌⊎◌, inl, inr, false, List, [], ◌∷◌, ltb,
  leb, ◌&&◌, if◌then◌else◌, length, max, min, replicate, get_or, take, drop, Bool-cases, arith,
  length-replicate,
}
use generic_kernel.Bytes.{slice, write_at}
use generic_kernel.Bytes.Slices.{length-slice, length-write_at}
use generic_kernel.Elf.{LoadSegment}
use generic_kernel.Pmm.{page_size}
use generic_kernel.Processes.Loader.{blank_page, page_image}

-- The byte of a segment at an address: the file's data, and zeros around it.
abbrev pub byte_of : LoadSegment → ℕ → ℕ
byte_of segment a =
    if leb segment.virtual_address a && ltb a (segment.virtual_address + length segment.file_data)
    then get_or segment.file_data (a - segment.virtual_address) 0
    else 0

get_or-replicate : (n i : ℕ) → get_or {A = ℕ} (replicate n 0) i 0 ≡ 0
get_or-replicate zero i = refl
get_or-replicate (suc n) zero = refl
get_or-replicate (suc n) (suc i) = get_or-replicate n i

get_or-drop : (k i : ℕ) (xs : List ℕ) → get_or (drop k xs) i 0 ≡ get_or xs (k + i) 0
get_or-drop zero i xs = ap (λ j. get_or xs j 0) (omega arith)
get_or-drop (suc k) i [] = refl
get_or-drop (suc k) i (x ∷ xs) =
    let shift : suc k + i ≡ suc (k + i) = omega arith in rw shift (get_or-drop k i xs)

get_or-take : (n i : ℕ) (xs : List ℕ) → i < n → get_or (take n xs) i 0 ≡ get_or xs i 0
get_or-take zero i xs h = absurd (omega arith)
get_or-take (suc n) i [] h = refl
get_or-take (suc n) zero (x ∷ xs) h = refl
get_or-take (suc n) (suc i) (x ∷ xs) h = get_or-take n i xs (omega arith)

get_or-slice : (k n i : ℕ) (xs : List ℕ) → i < n → get_or (slice k n xs) i 0 ≡ get_or xs (k + i) 0
get_or-slice k n i xs h = get_or-take n i (drop k xs) h ∙ get_or-drop k i xs

-- A write inside the buffer, read at an index.
get_or-write_at_inside :
    (offset i : ℕ) (source buffer : List ℕ)
    → i < length source
    → offset + length source ≤ length buffer
    → get_or (write_at offset source buffer) (offset + i) 0 ≡ get_or source i 0
unfolding write_at
get_or-write_at_inside offset i [] buffer h room = absurd (omega arith)
get_or-write_at_inside offset i (x ∷ source) [] h room = absurd (omega arith)
get_or-write_at_inside zero zero (x ∷ source) (b ∷ buffer) h room = refl
get_or-write_at_inside zero (suc i) (x ∷ source) (b ∷ buffer) h room =
    let shift : 0 + suc i ≡ suc (0 + i) = omega arith in
    rw shift (get_or-write_at_inside zero i source buffer (omega arith) (omega arith))
get_or-write_at_inside (suc offset) i (x ∷ source) (b ∷ buffer) h room =
    let shift : suc offset + i ≡ suc (offset + i) = omega arith in
    rw shift (get_or-write_at_inside offset i (x ∷ source) buffer h (omega arith))

get_or-write_at_outside :
    (offset i : ℕ) (source buffer : List ℕ)
    → (i < offset) ⊎ (offset + length source ≤ i)
    → get_or (write_at offset source buffer) i 0 ≡ get_or buffer i 0
unfolding write_at
get_or-write_at_outside offset i source [] h = refl
get_or-write_at_outside zero i [] (b ∷ buffer) h = refl
get_or-write_at_outside zero zero (x ∷ source) (b ∷ buffer) (inl h) = absurd (omega arith)
get_or-write_at_outside zero zero (x ∷ source) (b ∷ buffer) (inr h) = absurd (omega arith)
get_or-write_at_outside zero (suc i) (x ∷ source) (b ∷ buffer) (inl h) = absurd (omega arith)
get_or-write_at_outside zero (suc i) (x ∷ source) (b ∷ buffer) (inr h) =
    get_or-write_at_outside zero i source buffer (inr (omega arith))
get_or-write_at_outside (suc offset) zero source (b ∷ buffer) h = refl
get_or-write_at_outside (suc offset) (suc i) source (b ∷ buffer) (inl h) =
    get_or-write_at_outside offset i source buffer (inl (omega arith))
get_or-write_at_outside (suc offset) (suc i) source (b ∷ buffer) (inr h) =
    get_or-write_at_outside offset i source buffer (inr (omega arith))

length-blank_page : length blank_page ≡ page_size
unfolding blank_page
length-blank_page = length-replicate {A = ℕ} page_size 0

get_or-blank_page : (j : ℕ) → get_or blank_page j 0 ≡ 0
unfolding blank_page
get_or-blank_page j = get_or-replicate page_size j

pub length-page_image :
    (segment : LoadSegment) (file_end page : ℕ)
    → length (page_image segment file_end page) ≡ page_size
unfolding page_image
length-page_image segment file_end page =
    elim (Bool-cases (ltb (max page segment.virtual_address) (min (page + page_size) file_end))) [
      | inl e ↦ rw e (length-write_at _ _ blank_page ∙ length-blank_page)
      | inr e ↦ rw e length-blank_page
    ]

-- A page of a segment holds the segment's bytes.
pub page_image-byte_of :
    (segment : LoadSegment) (page j : ℕ)
    → j < page_size
    → get_or (page_image segment (segment.virtual_address + length segment.file_data) page) j 0
      ≡ byte_of segment (page + j)
unfolding page_image
page_image-byte_of segment page j h =
    let va = segment.virtual_address in
    let file_end = va + length segment.file_data in
    let start = max page va in
    let end = min (page + page_size) file_end in
    let source = slice (start - va) (end - start) segment.file_data in
    elim (Bool-cases (ltb start end)) [
      | inr e ↦
          let out : (leb va (page + j) && ltb (page + j) file_end) ≡ false = ground arith in
          rw (e, out) (get_or-blank_page j)
      | inl e ↦
          let size : length source ≡ end - start =
            length-slice (start - va) (end - start) segment.file_data (ground arith) in
          elim (Bool-cases (leb va (page + j) && ltb (page + j) file_end)) [
            | inl inside ↦
                let room : start - page + length source ≤ length blank_page =
                  ground (arith, size, length-blank_page) in
                let index : j ≡ start - page + (page + j - start) = ground arith in
                let at : start - va + (page + j - start) ≡ page + j - va = ground arith in
                rw (e, inside)
                  (ap (λ i. get_or (write_at (start - page) source blank_page) i 0) index
                    ∙ get_or-write_at_inside (start - page) (page + j - start) source blank_page
                        (ground (arith, size)) room
                    ∙ get_or-slice (start - va) (end - start) (page + j - start) segment.file_data
                        (ground arith)
                    ∙ ap (λ i. get_or segment.file_data i 0) at)
            | inr outside ↦
                let out : (j < start - page) ⊎ (start - page + length source ≤ j) =
                  elim (Bool-cases (ltb j (start - page))) [
                    | inl before ↦ inl (ground arith)
                    | inr after ↦ inr (ground (arith, size))
                  ] in
                rw (e, outside)
                  (get_or-write_at_outside (start - page) j source blank_page out
                    ∙ get_or-blank_page j)
          ]
    ]
