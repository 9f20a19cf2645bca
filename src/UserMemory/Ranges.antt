-- ===== src/UserMemory/Ranges.antt =====
-- `user_range_accessible` accepts a range exactly if each of its pages passes the walk.
use generic_kernel.Common.{
  ℕ, zero, suc, ◌+◌, ◌-◌, ◌*◌, ◌/◌, ◌<◌, ◌≤◌, ◌≡◌, refl, sym, subst, ◌∙◌, ◌⊎◌, inl, inr, Bool, true,
  false, ◌||◌, Option, none, some, ltb, leb, ltb→lt, lt→ltb, ◌==◌, Bool-cases, arith,
  align_down_lem, IsPower, u64_mod,
}
use generic_kernel.Pmm.{page_size}
use generic_kernel.UserMemory.{
  user_address_limit, user_page_accessible, pages_accessible, user_range_accessible,
}

-- The answer is there, and is that of the predicate.
abbrev pub Decides : Option Bool → Type 0 → Type 0
Decides none P = ⊥
Decides (some b) P = (b ≡ true → P) × (P → b ≡ true)

page-IsPower : IsPower page_size
page-IsPower = (12, omega arith, refl)

last_or_before : (k j : ℕ) → k ≤ j → (j ≡ k) ⊎ (suc k ≤ j)
last_or_before k j h = elim (Bool-cases (j == k)) [
  | inl e ↦ inl (ground arith)
  | inr e ↦ inr (ground arith)
]

module _ (load : ℕ → ℕ) (offset : ℕ) where
  -- The pages of number `k` to `l` pass.
  abbrev PagesPass : ℕ → Bool → ℕ → ℕ → Type 0
  PagesPass root writable k l =
      (j : ℕ)
      → k ≤ j
      → j ≤ l
      → user_page_accessible load offset root (j * page_size) writable ≡ true

  -- What the check of a range is for: it lies below the limit, and the page of each byte passes.
  abbrev pub IsAccessible : ℕ → ℕ → ℕ → Bool → Type 0
  IsAccessible root address size writable =
      (address < user_address_limit)
      × (address + size ≤ user_address_limit)
      × ((a : ℕ)
          → address ≤ a
          → a < address + size
          → user_page_accessible load offset root (a / page_size * page_size) writable ≡ true)

  pages_accessible-Decides :
      (root : ℕ) (writable : Bool) (n k l : ℕ)
      → l ≡ k + n
      → l * page_size < user_address_limit
      → Decides
          (pages_accessible load offset root (l * page_size) (suc n) writable (k * page_size))
          (PagesPass root writable k l)
  unfolding pages_accessible
  pages_accessible-Decides root writable zero k l count small =
      let one : l ≡ k = omega arith in
      elim (Bool-cases (user_page_accessible load offset root (k * page_size) writable)) [
        | inr bad ↦ rw bad (λ h. absurd (cc), λ pass. sym bad ∙ pass k (omega arith) (omega arith))
        | inl good ↦
            let same : (k * page_size == l * page_size) ≡ true = ground arith in
            rw (good, same)
              (
                λ _ j le le'.
                    let e : j ≡ k = omega arith in
                    subst
                      (λ x. user_page_accessible load offset root (x * page_size) writable ≡ true)
                      (sym e) good,
                λ _. refl,
              )
      ]
  pages_accessible-Decides root writable (suc n) k l count small =
      elim (Bool-cases (user_page_accessible load offset root (k * page_size) writable)) [
        | inr bad ↦ rw bad (λ h. absurd (cc), λ pass. sym bad ∙ pass k (omega arith) (omega arith))
        | inl good ↦
            let differ : (k * page_size == l * page_size) ≡ false = ground arith in
            let room : ltb (k * page_size + page_size) u64_mod ≡ true = ground arith in
            let next : k * page_size + page_size ≡ suc k * page_size = omega arith in
            let rec = pages_accessible-Decides root writable n (suc k) l (omega arith) small in
            rw (good, differ, room, next) (onward root writable k l _ good rec)
      ]
    where
      onward :
          (root : ℕ) (writable : Bool) (k l : ℕ) (o : Option Bool)
          → user_page_accessible load offset root (k * page_size) writable ≡ true
          → Decides o (PagesPass root writable (suc k) l)
          → Decides o (PagesPass root writable k l)
      onward root writable k l none good h = h
      onward root writable k l (some b) good (to, from) = (
        λ e j le le'. elim (last_or_before k j le) [
          | inl here ↦
              subst (λ x. user_page_accessible load offset root (x * page_size) writable ≡ true)
                (sym here) good
          | inr later ↦ to e j later le'
        ],
        λ pass. from (λ j le le'. pass j (omega arith) le'),
      )

  -- Pages pass if those of all bytes do, and the other way.
  bytes_pages :
      (root address size : ℕ) (writable : Bool)
      → 0 < size
      → address + size ≤ user_address_limit
      → address < user_address_limit
      → (o : Option Bool)
      → Decides o
          (PagesPass root writable (address / page_size) ((address + (size - 1)) / page_size))
      → Decides o (IsAccessible root address size writable)
  bytes_pages root address size writable some_bytes fits below none h = h
  bytes_pages root address size writable some_bytes fits below (some b) (to, from) = (
    λ e. (below, fits, λ a le lt. to e (a / page_size) (omega arith) (omega arith)),
    λ (_, _, pass). from λ j le le'. elim (Bool-cases (leb address (j * page_size))) [
      | inl later ↦
          let at : j * page_size / page_size ≡ j = omega arith in
          subst (λ x. user_page_accessible load offset root (x * page_size) writable ≡ true) at
            (pass (j * page_size) (ground arith) (omega arith))
      | inr first ↦
          let at : address / page_size ≡ j = ground arith in
          subst (λ x. user_page_accessible load offset root (x * page_size) writable ≡ true) at
            (pass address (omega arith) (omega arith))
    ],
  )

  refused :
      (root address size : ℕ) (writable : Bool)
      → 0 < size
      → (user_address_limit ≤ address) ⊎ (user_address_limit < address + size)
      → Decides (some false) (IsAccessible root address size writable)
  refused root address size writable some_bytes (inl above) =
      (λ h. absurd (cc), λ (below, _, _). absurd (omega arith))
  refused root address size writable some_bytes (inr long) =
      (λ h. absurd (cc), λ (_, fits, _). absurd (omega arith))

  -- The check always answers, and says yes exactly if the range lies below the limit of user addresses
  -- and the page of each of its bytes passes the walk of the page tables for the access asked for.
  pub user_range_accessible-Decides :
      (root address size : ℕ) (writable : Bool)
      → Decides
          (user_range_accessible load offset root address size writable)
          (IsAccessible root address size writable)
  unfolding user_range_accessible
  user_range_accessible-Decides root address size writable = elim (Bool-cases (size == 0)) [
    | inl empty ↦
        let nothing : size ≡ 0 = ground arith in
        rw empty (
          λ h.
              let below : address < user_address_limit = ltb→lt _ _ h in
              (below, omega arith, λ a le lt. absurd (omega arith)),
          λ (below, _, _). lt→ltb _ _ below,
        )
    | inr bytes ↦
        let some_bytes : 0 < size = ground arith in
        let last = address + (size - 1) in
        elim (Bool-cases (ltb last u64_mod)) [
          | inr over ↦
              rw (bytes, over) (refused root address size writable some_bytes (inr (ground arith)))
          | inl room ↦
              elim (Bool-cases (leb user_address_limit address || leb user_address_limit last)) [
                | inl high ↦
                    rw (bytes, room, high)
                      (refused root address size writable some_bytes (inr (ground arith)))
                | inr low ↦
                    let below : address < user_address_limit = ground arith in
                    let below' : last < user_address_limit = ground arith in
                    let k = address / page_size in
                    let l = last / page_size in
                    let rounds : (l * page_size - k * page_size) / page_size ≡ l - k =
                      omega arith in
                    rw
                      (
                        bytes,
                        room,
                        low,
                        align_down_lem address page_size page-IsPower (omega arith),
                        align_down_lem last page_size page-IsPower (omega arith),
                        rounds,
                      )
                      (bytes_pages root address size writable some_bytes (omega arith) below _ (
                        pages_accessible-Decides root writable (l - k) k l (omega arith)
                          (omega arith)))
              ]
        ]
  ]
