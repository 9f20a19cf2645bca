-- ===== src/PageTables.antt =====
-- crates/kernel-core/src/page_tables.rs: the trait `TableMemory`, and `clone_root`, which copies a tree
-- of page tables. A memory is passed along explicitly; the state of a run of `clone_table` is the memory,
-- the array of ancestors and the counter that the source passes by mutable reference.
pub mod Tree
pub mod Ready
pub mod Release
pub mod Owned
pub mod Fill
pub mod Entries
pub mod Clone
pub mod Loop
pub mod Root
pub mod Words
pub mod Model
mod Tests
use generic_kernel.Common.{
  ℕ, zero, suc, ◌-◌, ◌<◌, ◌≡◌, ◌≢◌, ◌⊎◌, Bool, false, not, ◌&&◌, ◌||◌, List, [], ◌∷◌, Option, none,
  some, Result, ok, err, ltb, ◌==◌, if◌then◌else◌, bit_and, bit_or, not64, u64_mod, set, take,
}

abbrev pub present_bit : ℕ
present_bit = 1

abbrev pub huge_bit : ℕ
huge_bit = 128

-- `ADDRESS`.
abbrev pub address_mask : ℕ
address_mask = 0x000ffffffffff000

pub data CloneError : Type 0 where
  out_of_memory table_limit invalid_frame invalid_huge_page cycle : CloneError

-- What the documentation of the trait asks of an implementation. `IsLive` tells the initialised tables:
-- `allocate` returns a fresh one, a write to one changes one entry, `release` accepts one and takes it
-- away, and none of them changes another. `taken` counts the frames that are allocated.
pub record TableMemory : Type 1 where
  pub Memory : Type 0
  pub IsLive : Memory → ℕ → Type 0
  pub taken : Memory → ℕ
  pub allocate : Memory → Option ℕ × Memory
  pub release : Memory → ℕ → Memory
  pub read : Memory → ℕ → ℕ → ℕ
  pub write : Memory → ℕ → ℕ → ℕ → Memory
  pub none_left : (m m' : Memory) → allocate m ≡ (none, m') → m' ≡ m
  pub fresh : (m m' : Memory) (f : ℕ) → allocate m ≡ (some f, m') → ¬ IsLive m f
  pub given : (m m' : Memory) (f : ℕ) → allocate m ≡ (some f, m') → IsLive m' f
  pub word : (m m' : Memory) (f : ℕ) → allocate m ≡ (some f, m') → f < u64_mod
  pub given_only :
      (m m' : Memory) (f g : ℕ) → allocate m ≡ (some f, m') → IsLive m' g → IsLive m g ⊎ (g ≡ f)
  pub given_other :
      (m m' : Memory) (f g : ℕ)
      → allocate m ≡ (some f, m')
      → IsLive m g
      → IsLive m' g × ((i : ℕ) → i < 512 → read m' g i ≡ read m g i)
  pub taken_one : (m m' : Memory) (f : ℕ) → allocate m ≡ (some f, m') → taken m' ≡ suc (taken m)
  pub written : (m : Memory) (f i e : ℕ) → IsLive m f → i < 512 → read (write m f i e) f i ≡ e
  pub written_other :
      (m : Memory) (f i e g j : ℕ)
      → IsLive m f
      → IsLive m g
      → i < 512
      → j < 512
      → (g ≢ f) ⊎ (j ≢ i)
      → read (write m f i e) g j ≡ read m g j
  pub written_live :
      (m : Memory) (f i e g : ℕ)
      → IsLive m f
      → i < 512
      → (IsLive m g → IsLive (write m f i e) g) × (IsLive (write m f i e) g → IsLive m g)
  pub written_taken :
      (m : Memory) (f i e : ℕ) → IsLive m f → i < 512 → taken (write m f i e) ≡ taken m
  pub released : (m : Memory) (f g : ℕ) → IsLive m f → IsLive (release m f) g → IsLive m g × (g ≢ f)
  pub released_other :
      (m : Memory) (f g : ℕ)
      → IsLive m f
      → IsLive m g
      → g ≢ f
      → IsLive (release m f) g × ((i : ℕ) → i < 512 → read (release m f) g i ≡ read m g i)

pub record OwnedRoot : Type 0 where
  pub physical : ℕ
  pub table_frames : ℕ

pub record State (Memory : Type 0) : Type 0 where
  pub memory : Memory
  pub ancestors : List ℕ
  pub count : ℕ

abbrev pub Outcome : Type 0 → Type 0 → Type 0
Outcome Memory A = Result CloneError A × State Memory

-- `?`: the rest of a run after a step that may fail.
abbrev pub and_then :
    {Memory A B : Type 0}
    → Outcome Memory A
    → (A → State Memory → Outcome Memory B)
    → Outcome Memory B
and_then (ok a, s) f = f a s
and_then (err e, s) f = (err e, s)

abbrev pub present : ℕ → Bool
present entry = not (bit_and entry present_bit == 0)

abbrev pub huge : ℕ → Bool
huge entry = not (bit_and entry huge_bit == 0)

-- The address that an entry holds, and its other bits: `entry & ADDRESS` and `entry & !ADDRESS`.
pub address_of : ℕ → ℕ
address_of entry = bit_and entry address_mask

pub flags_of : ℕ → ℕ
flags_of entry = bit_and entry (not64 address_mask)

-- `(entry & !ADDRESS) | child`.
pub link : ℕ → ℕ → ℕ
unfolding flags_of
link entry child = bit_or (flags_of entry) child

-- `frame == 0 || frame & !ADDRESS != 0`.
unfoldable pub bad_frame : ℕ → Bool
unfolding flags_of
bad_frame frame = frame == 0 || not (flags_of frame == 0)

-- The bits that a large leaf must not have: bit 12 is PAT, not an address bit.
abbrev pub reserved_bits : ℕ → ℕ
reserved_bits level = if level == 3 then 0x3fffe000 else 0x1fe000

abbrev pub contains : List ℕ → ℕ → Bool
contains [] a = false
contains (x ∷ xs) a = x == a || contains xs a

module _ (t : TableMemory) where
  open t use {Memory, allocate, release, read, write}

  -- `release_tree`, whose loop stands first, over the entries from `index` on.
  pub release_entries : (Memory → ℕ → Memory) → ℕ → ℕ → ℕ → Memory → Memory
  release_entries child zero index frame m = m
  release_entries child (suc rounds) index frame m =
      let entry = read m frame index in
      release_entries child rounds (suc index) frame
        (if present entry && not (huge entry) then child m (address_of entry) else m)

  unfoldable pub release_tree : ℕ → Memory → ℕ → Memory
  release_tree zero m frame = release m frame
  release_tree (suc below) m frame =
      release (if ltb 1 (suc below) then release_entries (release_tree below) 512 0 frame m else m)
        frame

  -- `for index in 0..512 { memory.write(destination, index, 0); }`.
  pub zero_entries : ℕ → ℕ → ℕ → Memory → Memory
  zero_entries zero index frame m = m
  zero_entries (suc rounds) index frame m =
      zero_entries rounds (suc index) frame (write m frame index 0)

  -- The replacement of an entry, where `child` copies the table that it names.
  pub replace : (ℕ → State Memory → Outcome Memory ℕ) → ℕ → ℕ → State Memory → Outcome Memory ℕ
  replace child level entry s =
      if present entry && ltb 1 level
      then if huge entry
        then if level == 4
          then (err CloneError.invalid_huge_page, s)
          else if not (bit_and entry (reserved_bits level) == 0)
          then (err CloneError.invalid_huge_page, s)
          else (ok entry, s)
        else and_then (child (address_of entry) s) (λ copy s'. (ok (link entry copy), s'))
      else (ok entry, s)

  -- The loop over the entries of `source` from `index` on.
  unfoldable pub copy_entries :
      (ℕ → State Memory → Outcome Memory ℕ)
      → ℕ
      → ℕ
      → ℕ
      → ℕ
      → ℕ
      → State Memory
      → Outcome Memory (Unit {0})
  copy_entries child level zero index source destination s = (ok tt, s)
  copy_entries child level (suc rounds) index source destination s =
      and_then (replace child level (read s.memory source index) s) (λ replacement s'.
        copy_entries child level rounds (suc index) source destination
          (record s' { memory = write s'.memory destination index replacement }))

  -- The result of a table whose entries have been copied, or the partial copy undone.
  abbrev pub finish : ℕ → ℕ → Outcome Memory (Unit {0}) → Outcome Memory ℕ
  finish level destination (ok _, s) = (ok destination, s)
  finish level destination (err e, s) =
      (err e, record s { memory = release_tree level s.memory destination })

  -- The part of `clone_table` after the allocation.
  unfoldable pub fill_table :
      (ℕ → State Memory → Outcome Memory ℕ) → ℕ → ℕ → ℕ → State Memory → Outcome Memory ℕ
  fill_table child level source destination s =
      if bad_frame destination
      then (err CloneError.invalid_frame, record s { memory = release s.memory destination })
      else finish level destination (
          copy_entries child level 512 0 source destination
            (record s { memory = zero_entries 512 0 destination s.memory }))

  abbrev pub with_frame :
      (ℕ → State Memory → Outcome Memory ℕ)
      → ℕ
      → ℕ
      → State Memory
      → Option ℕ × Memory
      → Outcome Memory ℕ
  with_frame child level source s (none, m) =
      (err CloneError.out_of_memory, record s { memory = m })
  with_frame child level source s (some destination, m) =
      fill_table child level source destination (record s { memory = m; count = suc s.count })

  unfoldable pub clone_with :
      ℕ → (ℕ → State Memory → Outcome Memory ℕ) → ℕ → ℕ → State Memory → Outcome Memory ℕ
  clone_with limit child level source s =
      let depth = 4 - level in
      let marked = record s { ancestors = set s.ancestors depth source } in
      if bad_frame source
      then (err CloneError.invalid_frame, s)
      else if contains (take depth s.ancestors) source
      then (err CloneError.cycle, s)
      else if s.count == limit
      then (err CloneError.table_limit, marked)
      else with_frame child level source marked (allocate s.memory)

  -- `clone_table`, for the levels 4 to 1; no table has the level 0.
  unfoldable pub clone_table : ℕ → ℕ → ℕ → State Memory → Outcome Memory ℕ
  clone_table limit zero source s = (err CloneError.invalid_frame, s)
  clone_table limit (suc below) source s =
      clone_with limit (clone_table limit below) (suc below) source s

  abbrev pub owned_root : Outcome Memory ℕ → Result CloneError OwnedRoot × Memory
  owned_root (ok physical, s) =
      (ok (record { physical = physical; table_frames = s.count }), s.memory)
  owned_root (err e, s) = (err e, s.memory)

  unfoldable pub clone_root : ℕ → Memory → ℕ → Result CloneError OwnedRoot × Memory
  clone_root limit m source = owned_root (
      clone_table limit 4 source (record { memory = m; ancestors = 0 ∷ 0 ∷ 0 ∷ 0 ∷ []; count = 0 }))
