-- ===== src/Ranges.antt =====
-- Sorted tables of free address ranges: the bookkeeping that crates/kernel-core/src/physical.rs
-- (`free: [Region; N]`, `free_len`) and kernel/src/mm/heap.rs (`free: [Range; 256]`, `free_len`) share
-- line for line. A table is the list of its first `free_len` entries.
pub mod Canon
pub mod Cover
pub mod Carve
pub mod Walk
pub mod Undo
use generic_kernel.Common.{
  ℕ, ◌+◌, ◌-◌, ◌<◌, ◌≡◌, Bool, true, false, not, ◌&&◌, ◌||◌, List, [], ◌∷◌, Option, none, some, ltb,
  leb, ◌==◌, if◌then◌else◌,
}

-- `Region` of lib.rs, and `Range` of heap.rs.
pub record Region : Type 0 where
  pub start : ℕ
  pub end : ℕ

-- The four-way `match (has_prefix, has_suffix)` of an allocation: what becomes of the table from the
-- entry `r` on, when `[start, end)` is cut out of it.
pub split_match : Bool → Bool → Region → ℕ → ℕ → List Region → List Region
split_match false false r start end rest = rest
split_match false true r start end rest = record r { start = end } ∷ rest
split_match true false r start end rest = record r { end = start } ∷ rest
split_match true true r start end rest =
    record r { end = start } ∷ record { start = end; end = r.end } ∷ rest

unfoldable pub carve : Region → ℕ → ℕ → List Region → List Region
unfolding split_match
carve r start end rest = split_match (ltb r.start start) (ltb end r.end) r start end rest

-- Does cutting `[start, end)` out of `r` need a further entry of the table?
abbrev pub needs_slot : Region → ℕ → ℕ → Bool
needs_slot r start end = ltb r.start start && ltb end r.end

-- What giving back a block can come to: it overlaps a free range, the table is full, or a new table.
pub data Released : Type 0 where
  overlap full : Released
  table : List Region → Released

-- `prev` is the entry at `index - 1`, where there is one.
abbrev pub keep : Option Region → List Region → List Region
keep none rest = rest
keep (some p) rest = p ∷ rest

abbrev pub kept : Option Region → Released → Released
kept prev overlap = overlap
kept prev full = full
kept prev (table rest) = table (keep prev rest)

abbrev pub ends_past : Option Region → ℕ → Bool
ends_past none start = false
ends_past (some p) start = ltb start p.end

abbrev pub starts_before : List Region → ℕ → Bool
starts_before [] end = false
starts_before (r ∷ rest) end = ltb r.start end

-- At the position found: the two overlap tests, then `match (merge_left, merge_right)`.
pub merge : Bool → ℕ → ℕ → Option Region → List Region → Released
merge room start end none [] =
    if room then table (record { start = start; end = end } ∷ []) else full
merge room start end none (r ∷ rest) =
    if r.start == end
    then table (record r { start = start } ∷ rest)
    else if room
    then table (record { start = start; end = end } ∷ r ∷ rest)
    else full
merge room start end (some p) [] =
    if p.end == start
    then table (record p { end = end } ∷ [])
    else if room
    then table (p ∷ record { start = start; end = end } ∷ [])
    else full
merge room start end (some p) (r ∷ rest) =
    if p.end == start
    then (if r.start == end
        then table (record p { end = r.end } ∷ rest)
        else table (record p { end = end } ∷ r ∷ rest))
    else (if r.start == end
        then table (p ∷ record r { start = start } ∷ rest)
        else if room
        then table (p ∷ record { start = start; end = end } ∷ r ∷ rest)
        else full)

pub settle : Bool → ℕ → ℕ → Option Region → List Region → Released
unfolding merge
settle room start end prev rest =
    if ends_past prev start || starts_before rest end
    then overlap
    else merge room start end prev rest

-- `while index < free_len && free[index].start < start`, then the rest of the function. `room` is
-- `free_len != N`.
unfoldable pub walk : Bool → ℕ → ℕ → Option Region → List Region → Released
unfolding settle
walk room start end prev [] = settle room start end prev []
walk room start end prev (r ∷ rest) =
    if ltb r.start start
    then kept prev (walk room start end (some r) rest)
    else settle room start end prev (r ∷ rest)

-- The addresses that a table holds, and the number of its bytes.
abbrev pub inside : ℕ → ℕ → ℕ → Bool
inside start end a = leb start a && ltb a end

unfoldable pub covers : List Region → ℕ → Bool
covers [] a = false
covers (r ∷ rest) a = inside r.start r.end a || covers rest a

unfoldable pub bytes : List Region → ℕ
bytes [] = 0
bytes (r ∷ rest) = (r.end - r.start) + bytes rest
