-- ===== src/Vfs/Normal.antt =====
-- What `normalize_path` returns: an absolute path of valid names, which normalizes to itself.
use generic_kernel.Common.{
  ℕ, ◌≤◌, ◌≡◌, refl, sym, ap, subst, ◌∙◌, Bool, true, false, ◌||◌, List, [], ◌∷◌, ◌++◌, Result, ok,
  err, >>=-ok, or-inv, ◌>>=◌, ◌>>◌, ◌==◌, if◌then◌else◌, Bool-cases, inl, inr, length, ok-injective,
}
use generic_kernel.Vfs.{VfsError, same_bytes, contains_byte, validate, validate_name, bad_name}
use generic_kernel.Vfs.Paths.{
  slash, path_max, split, pop, push_component, push_all, push_components, join,
}

-- A name that `validate_name` accepts.
abbrev pub IsName : List ℕ → Type 0
IsName c = validate_name c ≡ ok tt

abbrev pub Names : List (List ℕ) → Type 0
Names [] = Unit {0}
Names (c ∷ cs) = IsName c × Names cs

Names-append : (cs : List (List ℕ)) (c : List ℕ) → Names cs → IsName c → Names (cs ++ (c ∷ []))
Names-append [] c ns n = (n, tt)
Names-append (d ∷ ds) c (m, ms) n = (m, Names-append ds c ms n)

Names-pop : (cs : List (List ℕ)) → Names cs → Names (pop cs)
Names-pop [] ns = tt
Names-pop (c ∷ []) ns = tt
Names-pop (c ∷ d ∷ cs) ns = (ns.0, Names-pop (d ∷ cs) ns.1)

validated :
    (c : List ℕ) (cs cs' : List (List ℕ))
    → ◌≡◌ {A = Result VfsError (List (List ℕ))} (validate_name c >> ok (cs ++ (c ∷ []))) (ok cs')
    → IsName c × (cs ++ (c ∷ []) ≡ cs')
validated c cs cs' h =
    let (tt, valid, last) = >>=-ok (validate_name c) (λ _. ok (cs ++ (c ∷ []))) h in
    (valid, ok-injective {E = VfsError} _ cs' last)

pushed-Names :
    (x y : Bool) (cs cs' : List (List ℕ)) (c : List ℕ)
    → ◌≡◌ {A = Result VfsError (List (List ℕ))}
        (if x then ok cs else if y then ok (pop cs) else (validate_name c >> ok (cs ++ (c ∷ []))))
        (ok cs')
    → Names cs
    → Names cs'
pushed-Names true y cs cs' c h ns = subst Names (ok-injective {E = VfsError} cs cs' h) ns
pushed-Names false true cs cs' c h ns =
    subst Names (ok-injective {E = VfsError} (pop cs) cs' h) (Names-pop cs ns)
pushed-Names false false cs cs' c h ns =
    let (valid, same) = validated c cs cs' h in subst Names same (Names-append cs c ns valid)

push_component-Names :
    (cs cs' : List (List ℕ)) (c : List ℕ) → push_component cs c ≡ ok cs' → Names cs → Names cs'
unfolding push_component
push_component-Names cs cs' c h ns =
    pushed-Names (same_bytes c [] || same_bytes c (b'.' ∷ [])) (same_bytes c (b'.' ∷ b'.' ∷ [])) cs
      cs' c h ns

pub push_all-Names : (cs cs' ps : List (List ℕ)) → push_all cs ps ≡ ok cs' → Names cs → Names cs'
unfolding push_all
push_all-Names cs cs' [] h ns = subst Names (ok-injective {E = VfsError} cs cs' h) ns
push_all-Names cs cs' (p ∷ ps) h ns =
    let (mid, e, last) = >>=-ok (push_component cs p) (λ pushed. push_all pushed ps) h in
    push_all-Names mid cs' ps last (push_component-Names cs mid p e ns)

-- The tests of `validate_name`, for a name that passed.
IsName-good : (c : List ℕ) → IsName c → bad_name c ≡ false
unfolding validate
IsName-good c n = elim (Bool-cases (bad_name c)) [
  | inr good ↦ good
  | inl bad ↦
      let h : ◌≡◌ {A = Result VfsError (Unit {0})} (err VfsError.invalid_name) (ok tt) =
        rw (bad, validate) at n in
      absurd (cc)
]

record Plain (c : List ℕ) : Type 0 where
  is_named : same_bytes c [] ≡ false
  no_dot : same_bytes c (b'.' ∷ []) ≡ false
  no_dots : same_bytes c (b'.' ∷ b'.' ∷ []) ≡ false
  no_slash : contains_byte slash c ≡ false
  no_nul : contains_byte 0 c ≡ false

IsName-Plain : (c : List ℕ) → IsName c → Plain c
unfolding bad_name
IsName-Plain c n =
    let e = IsName-good c n in
    let (e4, g) = or-inv _ (contains_byte 0 c) e in
    let (e3, f) = or-inv _ (contains_byte slash c) e4 in
    let (e2, d) = or-inv _ (same_bytes c (b'.' ∷ b'.' ∷ [])) e3 in
    let (a, b) = or-inv (same_bytes c []) (same_bytes c (b'.' ∷ [])) e2 in
    record { is_named = a; no_dot = b; no_dots = d; no_slash = f; no_nul = g }

-- Splitting a joined path gives its names back.
split-name :
    (c rest : List ℕ) → contains_byte slash c ≡ false → split (c ++ (slash ∷ rest)) ≡ c ∷ split rest
unfolding split contains_byte
split-name [] rest h = refl
split-name (x ∷ c) rest h =
    let (other, more) = or-inv (x == slash) (contains_byte slash c) h in
    rw (other, split-name c rest more) refl

split-last : (c : List ℕ) → contains_byte slash c ≡ false → split c ≡ c ∷ []
unfolding split contains_byte
split-last [] h = refl
split-last (x ∷ c) h =
    let (other, more) = or-inv (x == slash) (contains_byte slash c) h in
    rw (other, split-last c more) refl

split-join : (c : List ℕ) (cs : List (List ℕ)) → Names (c ∷ cs) → split (join (c ∷ cs)) ≡ c ∷ cs
split-join c [] (n, ns) = split-last c (IsName-Plain c n).no_slash
split-join c (d ∷ cs) (n, ns) =
    split-name c (join (d ∷ cs)) (IsName-Plain c n).no_slash ∙ ap (λ r. c ∷ r) (split-join d cs ns)

append-nil : (cs : List (List ℕ)) → cs ++ [] ≡ cs
append-nil [] = refl
append-nil (c ∷ cs) = ap (λ r. c ∷ r) (append-nil cs)

append_assoc :
    (cs : List (List ℕ)) (d : List ℕ) (ds : List (List ℕ)) → (cs ++ (d ∷ [])) ++ ds ≡ cs ++ (d ∷ ds)
append_assoc [] d ds = refl
append_assoc (c ∷ cs) d ds = ap (λ r. c ∷ r) (append_assoc cs d ds)

-- A name is pushed as it is.
push_component_plain :
    (cs : List (List ℕ)) (c : List ℕ) → IsName c → push_component cs c ≡ ok (cs ++ (c ∷ []))
unfolding push_component
push_component_plain cs c n =
    let p = IsName-Plain c n in
    let pushed : Result VfsError (List (List ℕ)) = validate_name c >> ok (cs ++ (c ∷ [])) in
    let above : Result VfsError (List (List ℕ)) =
      if same_bytes c (b'.' ∷ b'.' ∷ []) then ok (pop cs) else pushed in
    ap (λ x. if x || same_bytes c (b'.' ∷ []) then ok cs else above) p.is_named
    ∙ ap (λ x. if x then ok cs else above) p.no_dot
    ∙ ap (λ x. if x then ok (pop cs) else pushed) p.no_dots
    ∙ ap (λ r. r >> ok (cs ++ (c ∷ []))) n

push_all_plain : (cs ns : List (List ℕ)) → Names ns → push_all cs ns ≡ ok (cs ++ ns)
unfolding push_all
push_all_plain cs [] v = ap ok (sym (append-nil cs))
push_all_plain cs (n ∷ ns) v =
    ap (λ r. r >>= λ pushed. push_all pushed ns) (push_component_plain cs n v.0)
    ∙ push_all_plain (cs ++ (n ∷ [])) ns v.1
    ∙ ap ok (append_assoc cs n ns)

contains_byte-append :
    (b : ℕ) (xs ys : List ℕ)
    → contains_byte b xs ≡ false
    → contains_byte b ys ≡ false
    → contains_byte b (xs ++ ys) ≡ false
unfolding contains_byte
contains_byte-append b [] ys h k = k
contains_byte-append b (x ∷ xs) ys h k =
    let (other, more) = or-inv (x == b) (contains_byte b xs) h in
    rw other (contains_byte-append b xs ys more k)

pub join_no_nul : (cs : List (List ℕ)) → Names cs → contains_byte 0 (join cs) ≡ false
unfolding contains_byte
join_no_nul [] v = refl
join_no_nul (c ∷ []) v = (IsName-Plain c v.0).no_nul
join_no_nul (c ∷ d ∷ cs) v =
    contains_byte-append 0 c (slash ∷ join (d ∷ cs)) (IsName-Plain c v.0).no_nul
      (join_no_nul (d ∷ cs) v.1)

-- What `normalize_path` returns is made of valid names, and fits.
abbrev pub IsNormal : List ℕ → Type 0
IsNormal p = (cs : List (List ℕ)) × (p ≡ slash ∷ join cs) × Names cs × (length p ≤ path_max)

pub pushed_back : (cs : List (List ℕ)) → Names cs → push_components [] (slash ∷ join cs) ≡ ok cs
unfolding push_components split push_all push_component
pushed_back [] v = refl
pushed_back (c ∷ cs) v = ap (push_all []) (split-join c cs v) ∙ push_all_plain [] (c ∷ cs) v
