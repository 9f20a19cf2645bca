-- ===== src/Pmm/New.antt =====
-- What `PhysicalMemory::new` promises: the memory it builds from a map of usable regions is valid, and
-- every managed page is free.
use generic_kernel.Common.{
  ℕ, ◌+◌, ◌-◌, ◌*◌, ◌/◌, ◌%◌, ◌≤◌, ◌<◌, ◌≡◌, refl, sym, ap, ◌∙◌, Bool, true, false, ◌&&◌, ◌||◌,
  if◌then◌else◌, List, [], ◌∷◌, ◌++◌, some, arith, length, ltb, leb, ◌==◌, Bool-cases, Option-cases,
  inl, inr, ok, >>=-ok, u64_mod, AlignedUp, align_up, align_up-AlignedUp, align_down,
  align_down_lem, max, subst,
}
use generic_kernel.Ranges.{Region, bytes, covers, inside}
use generic_kernel.Ranges.Canon.{Canon, Aligned}
use generic_kernel.Pmm.{
  PhysicalMemory, page_size, touches, set_last_end, account, push_initial, admit, new_from, new,
  empty,
}
use generic_kernel.Pmm.Tables.{
  Canon-upper, append-Canon, extend-Canon, extend-sizes, extend-covers, append-covers, append-sizes,
}
use generic_kernel.Pmm.Inv.{IsValid, max_address}

-- The tables of regions that are words.
abbrev pub AreWords : List Region → Type 0
AreWords [] = Unit {0}
AreWords (r ∷ rest) = (r.start < u64_mod) × (r.end < u64_mod) × AreWords rest

-- What holds between two rounds of the loop: everything managed is free, and ends by `previous_end`.
record Built (n previous_end : ℕ) (m : PhysicalMemory) : Type 0 where
  all_free : m.free ≡ m.managed
  canon : Canon page_size previous_end m.managed
  aligned : Aligned m.managed
  fits : length m.managed ≤ n
  total : m.total_bytes ≡ bytes m.managed
  free_sum : m.free_bytes ≡ bytes m.managed

account_fields :
    (m m' : PhysicalMemory) (r : Region)
    → account m r ≡ ok m'
    → (m'.managed ≡ m.managed)
      × (m'.free ≡ m.free)
      × (m'.total_bytes ≡ m.total_bytes + (r.end - r.start))
      × (m'.free_bytes ≡ m.free_bytes + (r.end - r.start))
account_fields m m' r h = ground arith

-- The counters follow a new pair of tables.
account-Built :
    (n hi : ℕ) (m m' : PhysicalMemory) (r : Region) (t f : List Region)
    → Built n hi m
    → Canon page_size r.end t
    → Aligned t
    → length t ≤ n
    → bytes t ≡ bytes m.managed + (r.end - r.start)
    → f ≡ t
    → account (record m { managed = t; free = f }) r ≡ ok m'
    → Built n r.end m' × (m'.managed ≡ t)
account-Built n hi m m' r t f b c al fits sum same h =
    let (managed, free, total, freed) =
      account_fields (record m { managed = t; free = f }) m' r h in
    (
      record {
        all_free = free ∙ same ∙ sym managed;
        canon = rw managed c;
        aligned = rw managed al;
        fits = rw managed fits;
        total = rw managed (omega (arith, total, b.total, sum));
        free_sum = rw managed (omega (arith, freed, b.free_sum, sum));
      },
      managed,
    )

-- One region that `new` has rounded inward, and what pushing it makes of the tables.
module _ (n hi : ℕ) (r : Region) (above : hi ≤ r.start) (nonempty : r.start < r.end)
    (low : page_size ≤ r.start) (unit : r.start % 4096 ≡ 0) (unit' : r.end % 4096 ≡ 0) where
  abbrev Pushed : PhysicalMemory → PhysicalMemory → Type 0
  Pushed m m' =
      Built n r.end m'
      × ((a : ℕ) → covers m'.managed a ≡ covers m.managed a || inside r.start r.end a)

  meet-Pushed :
      (m m' : PhysicalMemory)
      → Built n hi m
      → touches m.managed r.start ≡ true
      → account
          (record m { managed = set_last_end m.managed r.end; free = set_last_end m.free r.end })
          r
        ≡ ok m'
      → Pushed m m'
  meet-Pushed m m' b meet h =
      let (sum, size, al) =
        extend-sizes hi r.start r.end above nonempty page_size m.managed b.canon meet in
      let (built, same) =
        account-Built n hi m m' r (set_last_end m.managed r.end) (set_last_end m.free r.end) b
          (extend-Canon hi r.start r.end above nonempty page_size m.managed b.canon meet)
          (al unit' b.aligned) (omega (arith, b.fits)) sum
          (ap (λ t. set_last_end t r.end) b.all_free) h in
      (
        built,
        λ a.
            rw same
              (extend-covers hi r.start r.end above nonempty page_size m.managed a b.canon meet),
      )

  apart-Pushed :
      (m m' : PhysicalMemory)
      → Built n hi m
      → touches m.managed r.start ≡ false
      → length m.managed < n
      → account (record m { managed = m.managed ++ r ∷ []; free = m.free ++ r ∷ [] }) r ≡ ok m'
      → Pushed m m'
  apart-Pushed m m' b apart space h =
      let (sum, size, al) = append-sizes r m.managed in
      let (built, same) =
        account-Built n hi m m' r (m.managed ++ r ∷ []) (m.free ++ r ∷ []) b
          (append-Canon hi r.start r.end above nonempty page_size m.managed low b.canon apart)
          (al unit unit' b.aligned) (omega arith) sum (ap (λ t. t ++ r ∷ []) b.all_free) h in
      (built, λ a. rw same (append-covers r m.managed a))

  push_initial-Pushed :
      (m m' : PhysicalMemory) → Built n hi m → push_initial n m r ≡ ok m' → Pushed m m'
  unfolding push_initial
  push_initial-Pushed m m' b h = elim (Bool-cases (touches m.managed r.start)) [
    | inl meet ↦ meet-Pushed m m' b meet (rw (meet, push_initial) at h)
    | inr apart ↦ elim (Bool-cases (length m.managed == n || length m.free == n)) [
      | inl full ↦ absurd (ground arith)
      | inr space ↦
          apart-Pushed m m' b apart (ground (arith, b.fits)) (rw (apart, space, push_initial) at h)
    ]
  ]

-- The addresses of whole pages of a region, the null page left out.
abbrev pub in_whole_page : Region → ℕ → Bool
in_whole_page r a =
    leb page_size a
    && leb r.start (a / page_size * page_size)
    && leb (a / page_size * page_size + page_size) r.end

unfoldable pub usable : List Region → ℕ → Bool
usable [] a = false
usable (r ∷ rest) a = in_whole_page r a || usable rest a

-- Rounding inward leaves exactly the whole pages.
inside-whole_page :
    (r : Region) (start end q a : ℕ)
    → max r.start page_size ≤ start
    → start < max r.start page_size + page_size
    → start ≡ q * page_size
    → end ≡ r.end / page_size * page_size
    → inside start end a ≡ in_whole_page r a
inside-whole_page r start end q a low near mult down =
    let t : ℕ = a / page_size in
    let u : ℕ = r.end / page_size in
    let h1 : t * 4096 ≤ a = omega arith in
    let h2 : a < t * 4096 + 4096 = omega arith in
    let h3 : u * 4096 ≤ r.end = omega arith in
    let h4 : r.end < u * 4096 + 4096 = omega arith in ground arith

Built-upper : (n hi hi' : ℕ) (m : PhysicalMemory) → hi ≤ hi' → Built n hi m → Built n hi' m
Built-upper n hi hi' m h b = record {
  all_free = b.all_free;
  canon = Canon-upper page_size hi hi' m.managed h b.canon;
  aligned = b.aligned;
  fits = b.fits;
  total = b.total;
  free_sum = b.free_sum;
}

module _ (n hi : ℕ) (r : Region) (start_word : r.start < u64_mod) (end_word : r.end < u64_mod) where
  abbrev Admitted : PhysicalMemory → PhysicalMemory → Type 0
  Admitted m m' =
      Built n r.end m' × ((a : ℕ) → covers m'.managed a ≡ covers m.managed a || in_whole_page r a)

  rounded-Admitted :
      (m m' : PhysicalMemory) (start end : ℕ)
      → Built n hi m
      → hi ≤ r.start
      → r.start ≤ r.end
      → AlignedUp (max r.start page_size) page_size (some start)
      → end ≡ r.end / page_size * page_size
      → (if leb end start then ok m else push_initial n m (record { start = start; end = end }))
        ≡ ok m'
      → Admitted m m'
  rounded-Admitted m m' start end b order proper up down h = elim (Bool-cases (leb end start)) [
    | inl nothing ↦
        let same : m ≡ m' = ground arith in
        (
          subst (λ k. Built n r.end k) same (Built-upper n hi r.end m (omega arith) b),
          λ a.
              rw (← same)
                (ground (arith, inside-whole_page r start end up.3.0 a up.0 up.1 up.3.1 down)),
        )
    | inr something ↦
        let region : Region = record { start = start; end = end } in
        let (built, covered) =
          push_initial-Pushed n hi region (omega arith) (ground arith) (omega arith)
            (omega (arith, up.3.1)) (omega arith) m m' b (rw something at h) in
        (
          Built-upper n end r.end m' (omega arith) built,
          λ a.
              covered a
              ∙ ap (λ c. covers m.managed a || c)
                  (inside-whole_page r start end up.3.0 a up.0 up.1 up.3.1 down),
        )
  ]

  admit-Admitted : (m m' : PhysicalMemory) → Built n hi m → admit n hi m r ≡ ok m' → Admitted m m'
  unfolding admit
  admit-Admitted m m' b h =
      let up = align_up-AlignedUp (max r.start page_size) page_size (12, omega arith, refl) in
      let down = align_down_lem r.end page_size (12, omega arith, refl) end_word in
      elim (Bool-cases (ltb r.end r.start)) [
        | inl reversed ↦ absurd (cc (rw (reversed, admit) at h))
        | inr proper ↦ elim (Bool-cases (ltb r.start hi)) [
          | inl early ↦ absurd (cc (rw (proper, early, admit) at h))
          | inr order ↦ elim (Option-cases (align_up (max r.start page_size) page_size)) [
            | inl e ↦ absurd (cc (rw (proper, order, e, admit) at h))
            | inr (start, e) ↦
                rounded-Admitted m m' start (align_down r.end page_size) b (ground arith)
                  (ground arith) (rw e at up) down (rw (proper, order, e, admit) at h)
          ]
        ]
      ]

module _ (n : ℕ) where
  new_from-Admitted :
      (hi : ℕ) (m m' : PhysicalMemory) (regions : List Region)
      → AreWords regions
      → hi ≤ max_address
      → Built n hi m
      → new_from n hi m regions ≡ ok m'
      → Built n max_address m'
        × ((a : ℕ) → covers m'.managed a ≡ covers m.managed a || usable regions a)
  unfolding new_from usable
  new_from-Admitted hi m m' [] words top b h =
      let same : m ≡ m' = ground arith in
      (
        subst (λ k. Built n max_address k) same (Built-upper n hi max_address m top b),
        λ a. rw (← same) (ground arith),
      )
  new_from-Admitted hi m m' (r ∷ rest) words top b h =
      let (next, admitted, remaining) = >>=-ok (admit n hi m r) (λ k. new_from n r.end k rest) h in
      let (built, covered) = admit-Admitted n hi r words.0 words.1 m next b admitted in
      let (done, all) =
        new_from-Admitted r.end next m' rest words.2 (omega arith) built remaining in
      (done, λ a. ground (arith, all a, covered a))

  empty-Built : Built n 0 empty
  unfolding bytes
  empty-Built = record {
    all_free = refl;
    canon = tt;
    aligned = tt;
    fits = omega arith;
    total = refl;
    free_sum = refl;
  }

  -- From a map of u64 regions, `new` builds a valid memory that manages exactly the addresses of the
  -- whole pages of the regions, the null page left out, all of them free.
  pub new-IsValid :
      (regions : List Region) (m : PhysicalMemory)
      → AreWords regions
      → new n regions ≡ ok m
      → IsValid n m × (m.free ≡ m.managed) × ((a : ℕ) → covers m.managed a ≡ usable regions a)
  unfolding new covers
  new-IsValid regions m words h =
      let (b, covered) = new_from-Admitted 0 empty m regions words (omega arith) empty-Built h in
      (
        record {
          canon = rw b.all_free b.canon;
          managed_canon = b.canon;
          aligned = rw b.all_free b.aligned;
          fits = rw b.all_free b.fits;
          managed_fits = b.fits;
          total = b.total;
          free_sum = rw b.all_free b.free_sum;
          within = λ a c. rw (← b.all_free) c;
        },
        b.all_free,
        covered,
      )
