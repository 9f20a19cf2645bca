-- ===== src/PageTables/Owned.antt =====
-- What the copying loop of `clone_table` keeps true: the entries that were copied name private trees.
use generic_kernel.Common.{ℕ, suc, ◌≤◌, ◌<◌, ◌≡◌, ◌⊎◌, true, false, List}
use generic_kernel.PageTables.{TableMemory, address_of, flags_of}
use generic_kernel.PageTables.Tree.{is_table, In, Apart, Kept, IsPath, walk}

module _ (t : TableMemory) where
  open t use {Memory, IsLive, read, write, written, written_other, written_live}

  -- An entry of a copy: it names a table as the entry of the source does, with the same flags and walks,
  -- and where that names none the two are one.
  pub record IsCopied (below : ℕ) (m0 m : Memory) (e r : ℕ) : Type 0 where
    pub tables : is_table (suc below) r ≡ is_table (suc below) e
    pub flags : flags_of r ≡ flags_of e
    pub deep :
        is_table (suc below) e ≡ true
        → (path : List ℕ) → IsPath t path
        → walk t below m (address_of r) path ≡ walk t below m0 (address_of e) path
    pub plain : is_table (suc below) e ≡ false → r ≡ e

  -- The private tree at `d` in a memory `m` that grew from `m0`.
  pub record IsOwned (level : ℕ) (m0 m : Memory) (d : ℕ) : Type 0 where
    pub grows : (g : ℕ) → IsLive m0 g → Kept t m0 m g
    pub fresh : (g : ℕ) → In t level m d g → ¬ IsLive m0 g
    pub alive : (g : ℕ) → In t level m d g → IsLive m g
    pub whole : (g : ℕ) → IsLive m g → IsLive m0 g ⊎ In t level m d g
    pub apart : Apart t level m d

  -- The first `k` entries of `source` have been copied to `d`, and the others name no table.
  pub record IsFilled (below k : ℕ) (m0 m : Memory) (source d : ℕ) : Type 0 where
    pub owned : IsOwned (suc below) m0 m d
    pub rest : (i : ℕ) → k ≤ i → i < 512 → is_table (suc below) (read m d i) ≡ false
    pub copied : (i : ℕ) → i < k → i < 512 → IsCopied below m0 m (read m0 source i) (read m d i)

  -- A replacement for the entry `e`, made while the memory grew from `m` to `m1`.
  pub record IsPiece (below : ℕ) (m m1 : Memory) (e r : ℕ) : Type 0 where
    pub grows : (g : ℕ) → IsLive m g → Kept t m m1 g
    pub fresh :
        (g : ℕ) → is_table (suc below) r ≡ true → In t below m1 (address_of r) g → ¬ IsLive m g
    pub alive :
        (g : ℕ) → is_table (suc below) r ≡ true → In t below m1 (address_of r) g → IsLive m1 g
    pub whole :
        (g : ℕ)
        → IsLive m1 g
        → IsLive m g ⊎ ((is_table (suc below) r ≡ true) × In t below m1 (address_of r) g)
    pub apart : is_table (suc below) r ≡ true → Apart t below m1 (address_of r)
    pub copied : IsCopied below m m1 e r
