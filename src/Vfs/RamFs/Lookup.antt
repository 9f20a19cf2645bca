-- ===== src/Vfs/RamFs/Lookup.antt =====
-- The two maps of `RamFs`: what is put in is found, and no other key changes.
use generic_kernel.Common.{
  ℕ, ◌≡◌, ◌≢◌, refl, true, false, List, [], ◌∷◌, some, ◌==◌, ==_iff, Bool-cases, inl, inr, arith,
}
use generic_kernel.Vfs.{same_bytes, le_bytes}
use generic_kernel.Vfs.RamFs.{Slot, RamNode, get_node, put_node, Child, get_child, put_child}

pub get_node-put_node :
    (ss : List Slot) (i : ℕ) (n : RamNode) → get_node (put_node ss i n) i ≡ some n
get_node-put_node [] i n = let here : (i == i) ≡ true = (==_iff i i).1 refl in rw here refl
get_node-put_node (s ∷ ss) i n = elim (Bool-cases (s.inode == i)) [
  | inl same ↦ let here : (i == i) ≡ true = (==_iff i i).1 refl in rw (same, here) refl
  | inr other ↦ rw (other, other) (get_node-put_node ss i n)
]

pub get_node-put_node_other :
    (ss : List Slot) (i j : ℕ) (n : RamNode) → i ≢ j → get_node (put_node ss i n) j ≡ get_node ss j
get_node-put_node_other [] i j n apart =
    let no_match : (i == j) ≡ false = ground arith in rw no_match refl
get_node-put_node_other (s ∷ ss) i j n apart = elim (Bool-cases (s.inode == i)) [
  | inl same ↦
      let no_match : (i == j) ≡ false = ground arith in
      let neither : (s.inode == j) ≡ false = ground arith in rw (same, no_match, neither) refl
  | inr other ↦ elim (Bool-cases (s.inode == j)) [
    | inl here ↦ rw (other, here) refl
    | inr there ↦ rw (other, there) (get_node-put_node_other ss i j n apart)
  ]
]

pub same_bytes_refl : (xs : List ℕ) → same_bytes xs xs ≡ true
unfolding same_bytes
same_bytes_refl [] = refl
same_bytes_refl (x ∷ xs) =
    let here : (x == x) ≡ true = (==_iff x x).1 refl in rw here (same_bytes_refl xs)

pub get_child-put_child :
    (cs : List Child) (name : List ℕ) (i : ℕ) → get_child (put_child cs name i) name ≡ some i
get_child-put_child [] name i = rw (same_bytes_refl name) refl
get_child-put_child (c ∷ cs) name i = elim (Bool-cases (same_bytes c.name name)) [
  | inl same ↦ rw (same, same) refl
  | inr other ↦ elim (Bool-cases (le_bytes name c.name)) [
    | inl first ↦ rw (other, first, same_bytes_refl name) refl
    | inr later ↦ rw (other, later, other) (get_child-put_child cs name i)
  ]
]
