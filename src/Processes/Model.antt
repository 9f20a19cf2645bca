-- ===== src/Processes/Model.antt =====
-- A concrete address space: the list of its pages, each with its access and its bytes.
use generic_kernel.Common.{
  ℕ, ◌≡◌, refl, sym, ap, ◌∙◌, inl, inr, Bool, true, List, [], ◌∷◌, Option, none, some, ◌==◌,
  if◌then◌else◌, Bool-cases, arith,
}
use generic_kernel.Processes.Loader.{Space}

pub record Page : Type 0 where
  pub address : ℕ
  pub writable : Bool
  pub executable : Bool
  pub bytes : List ℕ

unfoldable pub page_at : ℕ → List Page → Option Page
page_at a [] = none
page_at a (p ∷ ps) = if p.address == a then some p else page_at a ps

abbrev pub map_free : List Page → Page → Option Page → Option ℕ × List Page
map_free ps p none = (some p.address, p ∷ ps)
map_free ps p (some old) = (none, ps)

unfoldable pub map_page : List Page → ℕ → Bool → Bool → List ℕ → Option ℕ × List Page
map_page ps address w x bytes =
    map_free ps (record { address = address; writable = w; executable = x; bytes = bytes })
      (page_at address ps)

abbrev pub HasPage : List Page → ℕ → Bool → Bool → List ℕ → Type 0
HasPage ps address w x bytes =
    page_at address ps
    ≡ some (record { address = address; writable = w; executable = x; bytes = bytes })

mapped_first :
    (ps ps' : List Page) (p : Page) (frame : ℕ) (o : Option Page)
    → map_free ps p o ≡ (some frame, ps')
    → (o ≡ none) × (ps' ≡ p ∷ ps)
mapped_first ps ps' p frame none h = (refl, sym (ap (λ r. r.1) h))
mapped_first ps ps' p frame (some old) h = absurd (none-some frame (ap (λ r. r.0) h))
  where
    none-some : (a : ℕ) → ¬ (◌≡◌ {A = Option ℕ} none (some a))
    none-some a e = cc

pub page_mapped :
    (s s' : List Page) (page frame : ℕ) (w x : Bool) (initial : List ℕ)
    → map_page s page w x initial ≡ (some frame, s')
    → HasPage s' page w x initial
unfolding map_page page_at
page_mapped s s' page frame w x initial h =
    let p : Page = record { address = page; writable = w; executable = x; bytes = initial } in
    let (free, same) = mapped_first s s' p frame (page_at page s) h in
    let here : (page == page) ≡ true = ground arith in ap (page_at page) same ∙ rw here

pub page_kept :
    (s s' : List Page) (page frame : ℕ) (w x : Bool) (initial : List ℕ)
    → map_page s page w x initial ≡ (some frame, s')
    → (page' : ℕ) (w' x' : Bool) (initial' : List ℕ) → HasPage s page' w' x' initial'
    → HasPage s' page' w' x' initial'
unfolding map_page page_at
page_kept s s' page frame w x initial h page' w' x' initial' old =
    let p : Page = record { address = page; writable = w; executable = x; bytes = initial } in
    let (free, same) = mapped_first s s' p frame (page_at page s) h in
    elim (Bool-cases (page == page')) [
      | inr differ ↦ ap (page_at page') same ∙ rw differ old
      | inl one ↦
          let e : page ≡ page' = ground arith in
          absurd (absent (ap (λ a. page_at a s) (sym e) ∙ free) old)
    ]
  where
    absent : {o : Option Page} {p : Page} → o ≡ none → o ≡ some p → ⊥
    absent a b = cc

abbrev pub pages : Space
pages = record {
  Tables = List Page;
  map_user_page = map_page;
  IsPage = HasPage;
  mapped = λ s s' page frame w x initial h size. page_mapped s s' page frame w x initial h;
  kept = page_kept;
}
