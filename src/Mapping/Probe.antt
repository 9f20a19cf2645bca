-- ===== src/Mapping/Probe.antt =====
-- `verify_physical_memory`: it returns what it takes.
use generic_kernel.Common.{
  ℕ, ◌+◌, ◌*◌, ◌<◌, ◌≤◌, ◌≡◌, ap, subst, ◌∙◌, ◌⊎◌, inl, inr, true, false, none, some, ok, ltb, ◌==◌,
  if◌then◌else◌, Bool-cases, arith, u64_mod,
}
use generic_kernel.Ranges.{covers, inside}
use generic_kernel.Pmm.{PhysicalMemory, page_size, allocate_frame}
use generic_kernel.Pmm.Inv.{IsValid}
use generic_kernel.Pmm.Allocate.{Allocated}
use generic_kernel.Pmm.Blocks.{allocate-Allocated}
use generic_kernel.Pmm.RoundTrip.{free_pages-allocate_pages}
use generic_kernel.Mapping.Clearing.{or-true, and-false, cleared}
use generic_kernel.Mapping.{Ram, inside_page}
use generic_kernel.Mapping.Dma.{
  set_byte, probe, first_returned, second_returned, both_probed, first_probed, second_taken,
  first_taken, verify_physical_memory,
}

-- The memory behind one round.
abbrev probed : ℕ → Ram → Ram
probed base ram = set_byte base 0 (set_byte base 0xa5 (cleared base ram))

probe-probed :
    (offset physical : ℕ) (ram : Ram)
    → offset + physical < u64_mod
    → probe offset physical ram ≡ some (probed (offset + physical) ram)
probe-probed offset physical ram small =
    let fits : ltb (offset + physical) u64_mod ≡ true = ground (arith, small) in
    let same : (offset + physical == offset + physical) ≡ true = ground arith in rw (fits, same)

probed-zero : (base : ℕ) (ram : Ram) (i : ℕ) → i < page_size → probed base ram (base + i) ≡ 0
probed-zero base ram i lt =
    let within : inside_page base (base + i) ≡ true = ground arith in
    elim (Bool-cases (base + i == base)) [ inl first ↦ rw first | inr later ↦ rw (later, within) ]

probed-kept : (base : ℕ) (ram : Ram) (x : ℕ) → ram x ≡ 0 → probed base ram x ≡ 0
probed-kept base ram x h = elim (Bool-cases (x == base)) [
  | inl first ↦ rw first
  | inr later ↦ elim (Bool-cases (inside_page base x)) [
    | inl within ↦ rw (later, within)
    | inr out ↦ rw (later, out, h)
  ]
]

probed-around :
    (base : ℕ) (ram : Ram) (x : ℕ) → (x < base) ⊎ (base + page_size ≤ x) → probed base ram x ≡ ram x
probed-around base ram x out =
    let later : (x == base) ≡ false = elim out [
      | inl below ↦ ground arith
      | inr above ↦ ground arith
    ] in
    let outside : inside_page base x ≡ false = elim out [
      | inl below ↦ ground arith
      | inr above ↦ ground arith
    ] in
    rw (later, outside)

-- What the two rounds leave in memory.
pub record IsProbed (first second : ℕ) (before after : Ram) : Type 0 where
  pub first_zero : (i : ℕ) → i < page_size → after (first + i) ≡ 0
  pub second_zero : (i : ℕ) → i < page_size → after (second + i) ≡ 0
  pub around :
      (x : ℕ)
      → (x < first) ⊎ (first + page_size ≤ x)
      → (x < second) ⊎ (second + page_size ≤ x)
      → after x ≡ before x

module _ (n : ℕ) where
  -- The second frame is another one than the first.
  frames_differ :
      (m m' m'' : PhysicalMemory) (first second : ℕ)
      → Allocated n m 1 1 first m'
      → Allocated n m' 1 1 second m''
      → (first == second) ≡ false
  frames_differ m m' m'' first second done done' = elim (Bool-cases (first == second)) [
    | inr apart ↦ apart
    | inl same ↦
        let e : first ≡ second = ground arith in
        let within : inside first (first + 1 * page_size) first ≡ true = ground arith in
        let within' : inside second (second + 1 * page_size) second ≡ true = ground arith in
        let taken : covers m'.free first ≡ false =
          done.taken_out first ∙ rw within (and-false (covers m.free first)) in
        let free : covers m'.free second ≡ true =
          done'.was_free second ∙ rw within' (or-true (covers m''.free second)) in
        absurd (let both = subst (λ x. covers m'.free x ≡ false) e taken in cc)
  ]

  -- On a valid physical memory that has two frames, both below the end of the addresses in the direct map,
  -- `verify_physical_memory` does not panic, and leaves the physical memory as it was: its second frame is
  -- another one than the first, and both are returned. Their bytes are zero, and no other byte has changed.
  pub verify_physical_memory-restores :
      (offset first second : ℕ) (m m' m'' : PhysicalMemory) (ram : Ram)
      → IsValid n m
      → allocate_frame n m ≡ (ok (some first), m')
      → allocate_frame n m' ≡ (ok (some second), m'')
      → offset + first < u64_mod
      → offset + second < u64_mod
      → (ram' : Ram) × (verify_physical_memory n offset m ram ≡ some (m, ram'))
        × IsProbed (offset + first) (offset + second) ram ram'
  unfolding verify_physical_memory allocate_frame
  verify_physical_memory-restores offset first second m m' m'' ram v h h' small small' =
      let done = allocate-Allocated n m m' 1 1 first v h in
      let done' = allocate-Allocated n m' m'' 1 1 second done.valid h' in
      let middle = probed (offset + first) ram in
      let last = probed (offset + second) middle in
      (
        last,
        ap (first_taken n offset ram) h
            ∙ ap (second_taken n offset first ram) h'
            ∙ ap
                (λ b.
                  if b
                  then none
                  else first_probed n offset first second m'' (probe offset first ram))
                (frames_differ m m' m'' first second done done')
            ∙ ap (first_probed n offset first second m'') (probe-probed offset first ram small)
            ∙ ap (both_probed n first second m'') (probe-probed offset second middle small')
            ∙ ap (second_returned n first last)
                (free_pages-allocate_pages n m' m'' 1 1 second done.valid h')
            ∙ ap (first_returned last) (free_pages-allocate_pages n m m' 1 1 first v h),
        record {
          first_zero = λ i lt.
              probed-kept (offset + second) middle (offset + first + i)
                (probed-zero (offset + first) ram i lt);
          second_zero = λ i lt. probed-zero (offset + second) middle i lt;
          around = λ x out out'.
              probed-around (offset + second) middle x out'
              ∙ probed-around (offset + first) ram x out;
        },
      )
