-- ===== src/Vfs/RamFs/Contents.antt =====
-- `RamFs` keeps what it is given: bytes that were written are read back, and a name that was created is
-- found.
use generic_kernel.Common.{
  ℕ, ◌+◌, ◌-◌, ◌≤◌, ◌≡◌, ◌≢◌, refl, sym, ap, ◌∙◌, false, List, [], ◌∷◌, Option, none, some, Result,
  ok, err, ok_or, leb, ltb, if◌then◌else◌, Bool-cases, inl, inr, arith, length, take, replicate,
  min, u64_mod, length-append, length-take, length-replicate, ok-injective,
}
use generic_kernel.Bytes.{slice, write_at}
use generic_kernel.Bytes.Slices.{slice-write_at, length-write_at}
use generic_kernel.Vfs.{VfsError, is_directory_kind}
use generic_kernel.Vfs.Action.{M, then, pure, lift, ◌>>◌}
use generic_kernel.Vfs.RamFs.{
  RamFs, RamNode, get_node, put_node, file_of, set_node, ram_read, ram_write, resize, refuse,
}
use generic_kernel.Vfs.RamFs.Lookup.{get_node-put_node, get_node-put_node_other}

-- Taking a step on a file apart, and one on a directory.
file_of-inv {κ} :
    {B : Type κ} (i : ℕ) (f : RamNode → M RamFs B) (s s'' : RamFs) (b : B)
    → (then) (file_of i s) f ≡ (ok b, s'')
    → (node : RamNode) × (get_node s.nodes i ≡ some node)
      × (is_directory_kind node.kind ≡ false)
      × (f node s ≡ (ok b, s''))
file_of-inv {B} i f s s'' b h = go (get_node s.nodes i) refl h
  where
    go :
        (o : Option RamNode)
        → get_node s.nodes i ≡ o
        → (then)
            ((then)
              (ok_or o VfsError.not_found, s)
              (λ node. refuse (is_directory_kind node.kind) VfsError.is_directory >> pure node))
            f
          ≡ (ok b, s'')
        → (node : RamNode) × (get_node s.nodes i ≡ some node)
          × (is_directory_kind node.kind ≡ false)
          × (f node s ≡ (ok b, s''))
    go none e h = absurd (cc)
    go (some node) e h = elim (Bool-cases (is_directory_kind node.kind)) [
      | inl dir ↦
          let h' : ◌≡◌ {A = Result VfsError B × RamFs} (err VfsError.is_directory, s) (ok b, s'') =
            rw dir at h in
          absurd (cc)
      | inr plain ↦ (node, e, plain, rw plain at h)
    ]

file_step {κ} :
    {B : Type κ} (i : ℕ) (f : RamNode → M RamFs B) (s : RamFs) (node : RamNode)
    → get_node s.nodes i ≡ some node
    → is_directory_kind node.kind ≡ false
    → (then) (file_of i s) f ≡ f node s
file_step i f s node e plain =
    ap
      (λ o.
        (then)
          ((then) (ok_or o VfsError.not_found, s)
            (λ node. refuse (is_directory_kind node.kind) VfsError.is_directory >> pure node))
          f)
      e
    ∙ ap
        (λ x.
          (then) ((then) (lift (if x then err VfsError.is_directory else ok tt) s) (λ _. pure node))
            f)
        plain

length-resize : (n : ℕ) (xs : List ℕ) → length (resize n xs) ≡ n
length-resize n xs = omega (
  arith,
  length-append (take n xs) (replicate (n - length xs) 0),
  length-take n xs,
  length-replicate {A = ℕ} (n - length xs) 0,
)

-- The bytes of a file after a write at `offset`.
abbrev written_bytes : ℕ → List ℕ → List ℕ → List ℕ
written_bytes offset bytes old =
    let end = offset + length bytes in
    write_at offset bytes (if ltb (length old) end then resize end old else old)

grown_room :
    (end : ℕ) (old : List ℕ) → end ≤ length (if ltb (length old) end then resize end old else old)
grown_room end old = elim (Bool-cases (ltb (length old) end)) [
  | inl short ↦ rw short (omega (arith, length-resize end old))
  | inr long ↦ rw long (ground arith)
]

-- What `read` copies out of the bytes of a file.
abbrev copied : ℕ → ℕ → List ℕ → List ℕ
copied offset size bytes =
    if leb (length bytes) offset then [] else slice offset (min size (length bytes - offset)) bytes

nothing : (xs : List ℕ) → length xs ≡ 0 → [] ≡ xs
nothing [] e = refl
nothing (x ∷ xs) e = absurd (omega arith)

copied-written :
    (offset : ℕ) (bytes old : List ℕ)
    → copied offset (length bytes) (written_bytes offset bytes old) ≡ bytes
copied-written offset bytes old =
    let end : ℕ = offset + length bytes in
    let base : List ℕ = if ltb (length old) end then resize end old else old in
    let new : List ℕ = write_at offset bytes base in
    let room : end ≤ length base = grown_room end old in
    let same : length new ≡ length base = length-write_at offset bytes base in
    elim (Bool-cases (leb (length new) offset)) [
      | inl past ↦ rw past (nothing bytes (ground arith))
      | inr inside ↦
          let all : min (length bytes) (length new - offset) ≡ length bytes = omega arith in
          rw (inside, all) (slice-write_at offset (length bytes) bytes base refl room)
    ]

write_steps :
    (i offset n : ℕ) (bytes : List ℕ) (node : RamNode) (s s' : RamFs)
    → (then) (refuse (leb u64_mod (offset + length bytes)) VfsError.offset_overflow s) (λ _.
        set_node i (record node { bytes = written_bytes offset bytes node.bytes })
        >> pure (length bytes))
      ≡ (ok n, s')
    → (record s {
      nodes = put_node s.nodes i (record node { bytes = written_bytes offset bytes node.bytes });
    }
        ≡ s')
      × (n ≡ length bytes)
write_steps i offset n bytes node s s' h = elim (Bool-cases (leb u64_mod (offset + length bytes))) [
  | inl over ↦
      let h' : ◌≡◌ {A = Result VfsError ℕ × RamFs} (err VfsError.offset_overflow, s) (ok n, s') =
        rw over at h in
      absurd (cc)
  | inr fits ↦
      let h' = rw fits at h in
      (ap (λ p. p.1) h', sym (ok-injective {E = VfsError} _ n (ap (λ p. p.0) h')))
]

-- The bytes that a write puts into a file are what a read of the same place returns, and the write
-- reports their number; a gap before them, or a file that is too short, does not matter.
pub ram_read-ram_write :
    (i offset n : ℕ) (bytes : List ℕ) (s s' : RamFs)
    → ram_write i offset bytes s ≡ (ok n, s')
    → (n ≡ length bytes) × (ram_read i offset (length bytes) s' ≡ (ok bytes, s'))
unfolding ram_read ram_write
ram_read-ram_write i offset n bytes s s' h =
    let (node, there, plain, next) = file_of-inv i _ s s' n h in
    let (same, count) = write_steps i offset n bytes node s s' next in
    let changed : RamNode = record node { bytes = written_bytes offset bytes node.bytes } in
    let found : get_node s'.nodes i ≡ some changed =
      ap (λ x. get_node x.nodes i) (sym same) ∙ get_node-put_node s.nodes i changed in
    (
      count,
      file_step i _ s' changed found plain
          ∙ ap (λ x. (ok x, s')) (copied-written offset bytes node.bytes),
    )

-- A write to one file changes what no other file reads as.
pub ram_read-ram_write_other :
    (i j offset n from size : ℕ) (bytes found : List ℕ) (s s' : RamFs)
    → i ≢ j
    → ram_write i offset bytes s ≡ (ok n, s')
    → ram_read j from size s ≡ (ok found, s)
    → ram_read j from size s' ≡ (ok found, s')
unfolding ram_read ram_write
ram_read-ram_write_other i j offset n from size bytes found s s' apart h before =
    let (node, there, plain, next) = file_of-inv i _ s s' n h in
    let (same, count) = write_steps i offset n bytes node s s' next in
    let (other, at, other_plain, last) = file_of-inv j _ s s found before in
    let kept : get_node s'.nodes j ≡ some other =
      ap (λ x. get_node x.nodes j) (sym same)
      ∙ get_node-put_node_other s.nodes i j
          (record node { bytes = written_bytes offset bytes node.bytes }) apart
      ∙ at in
    file_step j _ s' other kept other_plain ∙ ap (λ r. (r, s')) (ap (λ p. p.0) last)
