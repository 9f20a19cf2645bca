-- ===== src/PageTables/Tests.antt =====
-- The fixture of the tests in page_tables.rs, and the theorems at it.
use generic_kernel.Common.{
  ℕ, zero, suc, ◌+◌, ◌/◌, ◌%◌, ◌^◌, ◌<◌, ◌≡◌, inl, inr, refl, sym, ap, subst, Bool, true, false,
  ◌&&◌, [], ◌∷◌, Option, none, some, ◌==◌, if◌then◌else◌, arith, ok,
}
use generic_kernel.PageTables.{
  OwnedRoot, address_of, flags_of, link, bad_frame, replace, release_tree, zero_entries,
  copy_entries, fill_table, clone_with, clone_table, clone_root,
}
use generic_kernel.PageTables.Tree.{same_or_not, is_table}
use generic_kernel.PageTables.Clone.{IsSource, IsRestored}
use generic_kernel.PageTables.Root.{clone_root-IsRootOf, release_tree-clone_root, IsRootOf}
use generic_kernel.PageTables.Words.{Table, blank, get, put}
use generic_kernel.PageTables.Model.{
  Frames, slot, frames, IsFrame, cell, changed, allocate_table, read_entry, write_entry,
}

-- Is the tree below a frame there?
is_some : Option (Table 9) → Bool
is_some none = false
is_some (some r) = true

entries_live : (ℕ → Bool) → ℕ → ℕ → Frames → ℕ → Bool
entries_live child level zero m f = true
entries_live child level (suc n) m f =
    (if is_table level (read_entry m f n) then child (address_of (read_entry m f n)) else true)
    && entries_live child level n m f

all_live : ℕ → Frames → ℕ → Bool
unfolding entries_live
all_live zero m f = f % 4096 == 0 && is_some (slot m (f / 4096))
all_live (suc below) m f =
    (f % 4096 == 0 && is_some (slot m (f / 4096)))
    && entries_live (all_live below m) (suc below) 512 m f

some_table : (o : Option (Table 9)) → is_some o ≡ true → (r : Table 9) × (o ≡ some r)
unfolding is_some
some_table none h = absurd (cc)
some_table (some r) h = (r, refl)

and-inv : (a b : Bool) → (a && b) ≡ true → (a ≡ true) × (b ≡ true)
and-inv true b h = (refl, h)
and-inv false b h = absurd (cc)

IsFrame-there :
    (m : Frames) (f : ℕ) → (f % 4096 == 0 && is_some (slot m (f / 4096))) ≡ true → IsFrame m f
IsFrame-there m f h =
    let (aligned, there) = and-inv (f % 4096 == 0) _ h in
    let (r, found) = some_table (slot m (f / 4096)) there in (r, ground arith, found)

entry_of :
    (child : ℕ → Bool) (level n i : ℕ) (m : Frames) (f : ℕ)
    → entries_live child level n m f ≡ true
    → i < n
    → is_table level (read_entry m f i) ≡ true
    → child (address_of (read_entry m f i)) ≡ true
unfolding entries_live
entry_of child level zero i m f h lt tab = absurd (omega arith)
entry_of child level (suc n) i m f h lt tab =
    let (here, rest) =
      and-inv
        (if is_table level (read_entry m f n) then child (address_of (read_entry m f n)) else true)
        (entries_live child level n m f) h in
    elim (same_or_not i n) [
      | inl e ↦
          let tab' = subst (λ k. is_table level (read_entry m f k) ≡ true) e tab in
          subst (λ k. child (address_of (read_entry m f k)) ≡ true) (sym e) (rw tab' at here)
      | inr ne ↦ entry_of child level n i m f rest (omega arith) tab
    ]

all_live-IsSource :
    (level : ℕ) (m : Frames) (f : ℕ) → all_live level m f ≡ true → IsSource frames level m f
unfolding all_live
all_live-IsSource zero m f h g e = subst (IsFrame m) (sym e) (IsFrame-there m f h)
all_live-IsSource (suc below) m f h g (inl e) =
    subst (IsFrame m) (sym e)
      (IsFrame-there m f (and-inv (f % 4096 == 0 && is_some (slot m (f / 4096))) _ h).0)
all_live-IsSource (suc below) m f h g (inr (i, lt, tab, deep)) =
    all_live-IsSource below m (address_of (read_entry m f i))
      (entry_of (all_live below m) (suc below) 512 i m f
        (and-inv (f % 4096 == 0 && is_some (slot m (f / 4096))) _ h).1 lt tab)
      g deep

abbrev fixture : Frames
fixture =
    none
    ∷ some (put 9 (blank 9) 256 (0x2000 + 0x23))
    ∷ some (put 9 (put 9 (blank 9) 3 (0x3000 + 3)) 4 (0x40000000 + 0x1083))
    ∷ some (put 9 (put 9 (blank 9) 5 (0x4000 + 3)) 6 (0x200000 + 0x1083))
    ∷ some (put 9 (put 9 (blank 9) 7 (2 ^ 63 + 0x9000 + 0x183)) 8 0xdead0000)
    ∷ []

fixture_live : all_live 4 fixture 0x1000 ≡ true
unfolding all_live is_table address_of read_entry slot cell get put blank is_some
fixture_live = refl

copied :
    (clone_root frames 16 fixture 0x1000).0 ≡ ok (record { physical = 0x5000; table_frames = 4 })
unfolding clone_root clone_table clone_with fill_table copy_entries replace zero_entries bad_frame
    flags_of address_of link allocate_table write_entry read_entry slot cell changed get put blank
copied = refl

clone_root-IsRootOf_example :
    IsRootOf frames 16 fixture 0x1000 (clone_root frames 16 fixture 0x1000)
clone_root-IsRootOf_example =
    clone_root-IsRootOf frames 16 fixture 0x1000 (all_live-IsSource 4 fixture 0x1000 fixture_live)

abbrev after : Frames
after = (clone_root frames 16 fixture 0x1000).1

abbrev root : OwnedRoot
root = record { physical = 0x5000; table_frames = 4 }

copied_to : clone_root frames 16 fixture 0x1000 ≡ (ok root, after)
copied_to = ap (λ r. (r, after)) copied

release_tree-clone_root_example : IsRestored frames fixture (release_tree frames 4 after 0x5000)
release_tree-clone_root_example =
    release_tree-clone_root frames 16 fixture after 0x1000 root
      (all_live-IsSource 4 fixture 0x1000 fixture_live) copied_to
