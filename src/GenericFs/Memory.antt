-- ===== src/GenericFs/Memory.antt =====
-- A device in memory, which keeps the laws that genericfs.rs relies on: the `SharedMemoryBlock` of its
-- tests, as the list of the writes that it has taken.
use generic_kernel.Common.{
  ℕ, ◌≡◌, ◌≢◌, refl, sym, ap, ◌∙◌, Bool, true, false, ◌&&◌, List, [], ◌∷◌, arith, ltb, ◌==◌, length,
  Result, ok, err, ==_iff, ok-injective,
}
use generic_kernel.GenericFs.Device.{BlockDevice, BlockError, Sector, sector_size}
use generic_kernel.GenericFs.Table.{zero_sector}

pub record Write : Type 0 where
  pub place : ℕ
  pub bytes : Sector

abbrev pub sectors : ℕ
sectors = 256

abbrev pub pick : Bool → Sector → Sector → Sector
pick true b rest = b
pick false b rest = rest

abbrev pub latest : List Write → ℕ → Sector
latest [] s = zero_sector
latest (w ∷ ws) s = pick (w.place == s) w.bytes (latest ws s)

-- The sector `raw`, when it is one of the device and of the right size.
abbrev pub answer : Bool → Bool → Sector → Result BlockError Sector
answer true true raw = ok raw
answer true false raw = err BlockError.io
answer false full raw = err BlockError.out_of_range

abbrev pub load : List Write → ℕ → Result BlockError Sector
load ws s = answer (ltb s sectors) (length (latest ws s) == sector_size) (latest ws s)

abbrev pub store : List Write → ℕ → Sector → Result BlockError (Unit {0}) × List Write
store ws s b = elim (ltb s sectors && length b == sector_size) [
  | true ↦ (ok tt, record { place = s; bytes = b } ∷ ws)
  | false ↦ (err BlockError.out_of_range, ws)
]

stored :
    (x : Bool) (ws ws' : List Write) (w : Write)
    → ◌≡◌ {A = Result BlockError (Unit {0}) × List Write}
        (elim x [ true ↦ (ok tt, w ∷ ws) | false ↦ (err BlockError.out_of_range, ws) ])
        (ok tt, ws')
    → (x ≡ true) × (w ∷ ws ≡ ws')
stored true ws ws' w h = (refl, ap (λ p. p.1) h)
stored false ws ws' w h = absurd (cc)

pub loaded : (x y : Bool) (raw b : Sector) → answer x y raw ≡ ok b → (y ≡ true) × (raw ≡ b)
loaded true true raw b h = (refl, ok-injective {E = BlockError} raw b h)
loaded true false raw b h = absurd (cc)
loaded false y raw b h = absurd (cc)

pub load-new :
    (ws ws' : List Write) (s : ℕ) (b : Sector) → store ws s b ≡ (ok tt, ws') → load ws' s ≡ ok b
load-new ws ws' s b h =
    let (room, same) = stored _ ws ws' (record { place = s; bytes = b }) h in
    let raw : Sector = latest (record { place = s; bytes = b } ∷ ws) s in
    let found : raw ≡ b = ap (λ x. pick x b (latest ws s)) ((==_iff s s).1 refl) in
    let low : ltb s sectors ≡ true = ground arith in
    let full : (length b == sector_size) ≡ true = ground arith in
    ap (λ l. load l s) (sym same)
    ∙ ap (λ x. answer x (length raw == sector_size) raw) low
    ∙ ap (λ r. answer true (length r == sector_size) r) found
    ∙ ap (λ x. answer true x b) full

pub load_other :
    (ws ws' : List Write) (s t : ℕ) (b : Sector)
    → store ws s b ≡ (ok tt, ws')
    → s ≢ t
    → load ws' t ≡ load ws t
load_other ws ws' s t b h apart =
    let (room, same) = stored _ ws ws' (record { place = s; bytes = b }) h in
    let there : (s == t) ≡ false = ground arith in
    ap (λ l. load l t) (sym same)
    ∙ ap (λ x. let r = pick x b (latest ws t) in answer (ltb t sectors) (length r == sector_size) r)
        there

abbrev pub memory : BlockDevice
memory = record {
  Disk = List Write;
  sector_count = λ _. sectors;
  read_sector = load;
  write_sector = store;
  read_written = load-new;
  read_other = load_other;
  count_kept = λ d d' s b h. refl;
  sector_length = λ d s b h.
      let (full, same) = loaded _ _ (latest d s) b h in ap length (sym same) ∙ (==_iff _ _).0 full;
}
