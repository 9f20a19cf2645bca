-- ===== src/GenericFs/Growth.antt =====
-- The two loops of `ensure_capacity` of genericfs.rs: what they leave in every sector.
use generic_kernel.Common.{
  ℕ, zero, suc, ◌+◌, ◌≤◌, ◌<◌, ◌≡◌, ◌≢◌, sym, ap, subst, ◌∙◌, ◌⊎◌, inl, inr, arith, ◌==◌, ==_iff,
  ok, Bool-cases, u64_mod, ok-injective,
}
use generic_kernel.GenericFs.Device.{BlockDevice, BlockError}
use generic_kernel.GenericFs.Table.{zero_sector}
use generic_kernel.GenericFs.Steps.{read-inv, write-inv}
use generic_kernel.GenericFs.Extent.{add64, zero_sectors, copy_sectors}

module _ (dev : BlockDevice) where
  open dev use {Disk, read_sector, write_sector, read_written, read_other, sector_count}

  -- Every sector of `[lo, hi)` reads as zeros.
  abbrev pub AllZero : Disk → ℕ → ℕ → Type 0
  AllZero d lo hi = (t : ℕ) → lo ≤ t → t < hi → read_sector d t ≡ ok zero_sector

  -- One more sector of zeros at the end, or one inside.
  write-AllZero :
      (d d' : Disk) (lo hi s new : ℕ)
      → write_sector d s zero_sector ≡ (ok tt, d')
      → AllZero d lo hi
      → ((t : ℕ) → lo ≤ t → t < new → t ≢ s → t < hi)
      → AllZero d' lo new
  write-AllZero d d' lo hi s new done before inside t low high = elim (Bool-cases (s == t)) [
    | inl same ↦
        subst (λ k. read_sector d' k ≡ ok zero_sector) ((==_iff s t).0 same)
          (read_written d d' s zero_sector done)
    | inr other ↦
        let apart : s ≢ t = ground arith in
        read_other d d' s t zero_sector done apart
        ∙ before t low (inside t low high (λ e. apart (sym e)))
  ]

  pub zero_sectors-AllZero :
      (rounds sector start : ℕ) (d d' : Disk)
      → start + sector + rounds < u64_mod
      → zero_sectors dev rounds sector start d ≡ (ok tt, d')
      → AllZero d start (start + sector)
      → AllZero d' start (start + sector + rounds)
  unfolding zero_sectors
  zero_sectors-AllZero zero sector start d d' word h before =
      subst (λ x. AllZero x start (start + sector + zero)) (ap (λ p. p.1) h)
        (λ t low high. before t low (omega arith))
  zero_sectors-AllZero (suc rounds) sector start d d' word h before =
      let (d1, done, next) = write-inv dev (add64 start sector) zero_sector _ d d' tt h in
      let place : add64 start sector ≡ start + sector = omega arith in
      let done' : write_sector d (start + sector) zero_sector ≡ (ok tt, d1) =
        subst (λ s. write_sector d s zero_sector ≡ (ok tt, d1)) place done in
      let one =
        write-AllZero d d1 start (start + sector) (start + sector) (start + suc sector) done' before
          (λ t low high apart. omega (arith, apart)) in
      let rest = zero_sectors-AllZero rounds (suc sector) start d1 d' (omega arith) next one in
      λ t low high. rest t low (omega arith)

  pub zero_sectors_other :
      (rounds sector start : ℕ) (d d' : Disk) (t : ℕ)
      → start + sector + rounds < u64_mod
      → zero_sectors dev rounds sector start d ≡ (ok tt, d')
      → (t < start + sector) ⊎ (start + sector + rounds ≤ t)
      → read_sector d' t ≡ read_sector d t
  unfolding zero_sectors
  zero_sectors_other zero sector start d d' t word h out = ap (λ p. read_sector p.1 t) (sym h)
  zero_sectors_other (suc rounds) sector start d d' t word h out =
      let (d1, done, next) = write-inv dev (add64 start sector) zero_sector _ d d' tt h in
      zero_sectors_other rounds (suc sector) start d1 d' t (omega arith) next (ground arith)
      ∙ read_other d d1 (add64 start sector) t zero_sector done (ground arith)

  -- A copy of zeros onto themselves.
  pub copy_sectors-AllZero :
      (rounds sector start hi : ℕ) (d d' : Disk)
      → start + sector + rounds ≤ hi
      → hi < u64_mod
      → copy_sectors dev rounds sector start start d ≡ (ok tt, d')
      → AllZero d start hi
      → AllZero d' start hi
  unfolding copy_sectors
  copy_sectors-AllZero zero sector start hi d d' room word h before =
      subst (λ x. AllZero x start hi) (ap (λ p. p.1) h) before
  copy_sectors-AllZero (suc rounds) sector start hi d d' room word h before =
      let s : ℕ = add64 start sector in
      let place : s ≡ start + sector = omega arith in
      let (buffer, got, next) = read-inv dev s _ d d' tt h in
      let zeros : buffer ≡ zero_sector =
        ok-injective {E = BlockError} buffer zero_sector
          (sym got ∙ before s (omega arith) (omega arith)) in
      let (d1, done, last) = write-inv dev s buffer _ d d' tt next in
      let one =
        write-AllZero d d1 start hi s hi (subst (λ b. write_sector d s b ≡ (ok tt, d1)) zeros done)
          before (λ t low high apart. high) in
      copy_sectors-AllZero rounds (suc sector) start hi d1 d' (omega arith) word last one

  pub copy_sectors_other :
      (rounds sector from start : ℕ) (d d' : Disk) (t : ℕ)
      → start + sector + rounds < u64_mod
      → copy_sectors dev rounds sector from start d ≡ (ok tt, d')
      → (t < start + sector) ⊎ (start + sector + rounds ≤ t)
      → read_sector d' t ≡ read_sector d t
  unfolding copy_sectors
  copy_sectors_other zero sector from start d d' t word h out = ap (λ p. read_sector p.1 t) (sym h)
  copy_sectors_other (suc rounds) sector from start d d' t word h out =
      let (buffer, got, next) = read-inv dev (add64 from sector) _ d d' tt h in
      let (d1, done, last) = write-inv dev (add64 start sector) buffer _ d d' tt next in
      copy_sectors_other rounds (suc sector) from start d1 d' t (omega arith) last (ground arith)
      ∙ read_other d d1 (add64 start sector) t buffer done (ground arith)

  pub copy_sectors-copies :
      (rounds sector from start k : ℕ) (d d' : Disk)
      → start + sector + rounds < u64_mod
      → from + sector + rounds < u64_mod
      → (start + sector + rounds ≤ from) ⊎ (from + sector + rounds ≤ start)
      → copy_sectors dev rounds sector from start d ≡ (ok tt, d')
      → sector ≤ k
      → k < sector + rounds
      → read_sector d' (start + k) ≡ read_sector d (from + k)
  unfolding copy_sectors
  copy_sectors-copies zero sector from start k d d' word word' apart h low high =
      absurd (omega arith)
  copy_sectors-copies (suc rounds) sector from start k d d' word word' apart h low high =
      let (buffer, got, next) = read-inv dev (add64 from sector) _ d d' tt h in
      let (d1, done, last) = write-inv dev (add64 start sector) buffer _ d d' tt next in
      let there : add64 start sector ≡ start + sector = omega arith in
      let here : add64 from sector ≡ from + sector = omega arith in
      elim (Bool-cases (sector == k)) [
        | inl same ↦
            let one : sector ≡ k = (==_iff sector k).0 same in
            copy_sectors_other rounds (suc sector) from start d1 d' (start + k) (omega arith) last
              (inl (omega arith))
            ∙ ap (read_sector d1) (ground arith)
            ∙ read_written d d1 (add64 start sector) buffer done
            ∙ sym got
            ∙ ap (read_sector d) (ground arith)
        | inr later ↦
            copy_sectors-copies rounds (suc sector) from start k d1 d' (omega arith) (omega arith)
              (ground arith) last (ground arith) (omega arith)
            ∙ read_other d d1 (add64 start sector) (from + k) buffer done (ground arith)
      ]
