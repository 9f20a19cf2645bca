-- ===== src/Vfs/RamFs/Names.antt =====
-- `RamFs` finds the names that it has created.
use generic_kernel.Common.{
  ℕ, ◌≡◌, refl, sym, ap, ◌∙◌, Bool, true, false, not, List, Option, none, some, Result, ok, err,
  ok_or, Bool-cases, inl, inr, checked_add, ok-injective,
}
use generic_kernel.Vfs.{VfsError, NodeKind, is_directory_kind, validate_name}
use generic_kernel.Vfs.Action.{M, then, pure, lift, ◌>>=◌, ◌>>◌}
use generic_kernel.GenericFs.Steps.{lift-inv}
use generic_kernel.Vfs.RamFs.{
  RamFs, RamNode, get_node, put_node, get_child, put_child, directory_of, create_node, lookup,
  add_child, empty_node, is_some, refuse,
}
use generic_kernel.Vfs.RamFs.Lookup.{get_node-put_node, get_child-put_child}

refused :
    (x : Bool) (e : VfsError) (s s'' : RamFs) {B : Type 0} (k : M RamFs B) (b : B)
    → then (refuse x e s) (λ _. k) ≡ (ok b, s'')
    → (x ≡ false) × (k s ≡ (ok b, s''))
refused true e s s'' k b h = absurd (cc)
refused false e s s'' k b h = (refl, h)

directory_of-inv :
    {B : Type 0} (i : ℕ) (f : RamNode → M RamFs B) (s s'' : RamFs) (b : B)
    → then (directory_of i s) f ≡ (ok b, s'')
    → (node : RamNode) × (get_node s.nodes i ≡ some node)
      × (is_directory_kind node.kind ≡ true)
      × (f node s ≡ (ok b, s''))
directory_of-inv {B} i f s s'' b h = go (get_node s.nodes i) refl h
  where
    go :
        (o : Option RamNode)
        → get_node s.nodes i ≡ o
        → then
            (then
              (ok_or o VfsError.not_found, s)
              (λ node.
                refuse (not (is_directory_kind node.kind)) VfsError.not_directory >> pure node))
            f
          ≡ (ok b, s'')
        → (node : RamNode) × (get_node s.nodes i ≡ some node)
          × (is_directory_kind node.kind ≡ true)
          × (f node s ≡ (ok b, s''))
    go none e h = absurd (cc)
    go (some node) e h = elim (Bool-cases (is_directory_kind node.kind)) [
      | inl dir ↦ (node, e, dir, rw dir at h)
      | inr plain ↦
          let h' : ◌≡◌ {A = Result VfsError B × RamFs} (err VfsError.not_directory, s) (ok b, s'') =
            rw plain at h in
          absurd (cc)
    ]

directory_step :
    {B : Type 0} (i : ℕ) (f : RamNode → M RamFs B) (s : RamFs) (node : RamNode)
    → get_node s.nodes i ≡ some node
    → is_directory_kind node.kind ≡ true
    → then (directory_of i s) f ≡ f node s
directory_step i f s node e dir =
    ap
      (λ o.
        then
          (then (ok_or o VfsError.not_found, s)
            (λ node.
              refuse (not (is_directory_kind node.kind)) VfsError.not_directory >> pure node))
          f)
      e
    ∙ ap (λ x. then (then (refuse (not x) VfsError.not_directory s) (λ _. pure node)) f) dir

added :
    (parent i : ℕ) (node : RamNode) (name : List ℕ) (kind : NodeKind) (s s' : RamFs)
    → add_child parent node name kind s ≡ (ok i, s')
    → (i ≡ s.next_inode)
      × (get_node s'.nodes parent
          ≡ some (record node { children = put_child node.children name i }))
added parent i node name kind s s' h = go (checked_add s.next_inode 1) h
  where
    go :
        (o : Option ℕ)
        → ◌≡◌ {A = Result VfsError ℕ × RamFs}
            (elim o [
              | none ↦ (err VfsError.inode_exhausted, s)
              | some next ↦
                  let nodes = put_node s.nodes s.next_inode (empty_node kind) in
                  let changed : RamNode = record node {
                    children = put_child node.children name s.next_inode;
                  } in
                  (
                    ok s.next_inode,
                    record { nodes = put_node nodes parent changed; next_inode = next },
                  )
            ])
            (ok i, s')
        → (i ≡ s.next_inode)
          × (get_node s'.nodes parent
              ≡ some (record node { children = put_child node.children name i }))
    go none h = absurd (cc)
    go (some next) h =
        let nodes = put_node s.nodes s.next_inode (empty_node kind) in
        let changed : RamNode = record node {
          children = put_child node.children name s.next_inode;
        } in
        let same : s.next_inode ≡ i =
          ok-injective {E = VfsError} s.next_inode i (ap (λ p. p.0) h) in
        (
          sym same,
          ap (λ x. get_node x.nodes parent) (sym (ap (λ p. p.1) h))
              ∙ get_node-put_node nodes parent changed
              ∙ ap (λ k. some (record node { children = put_child node.children name k })) same,
        )

-- A name that `create_node` has created is found in its directory, with the inode that was returned, the
-- next one of the file system.
pub lookup-create_node :
    (parent i : ℕ) (name : List ℕ) (kind : NodeKind) (s s' : RamFs)
    → create_node parent name kind s ≡ (ok i, s')
    → (i ≡ s.next_inode) × (lookup parent name s' ≡ (ok i, s'))
unfolding create_node lookup
lookup-create_node parent i name kind s s' h =
    let (u, valid, next) = lift-inv (validate_name name) _ s s' i h in
    let (node, there, dir, next') = directory_of-inv parent _ s s' i next in
    let (fresh, last) =
      refused (is_some (get_child node.children name)) VfsError.already_exists s s'
        (add_child parent node name kind) i next' in
    let (new_inode, found) = added parent i node name kind s s' last in
    let changed : RamNode = record node { children = put_child node.children name i } in
    (
      new_inode,
      ap
            (λ r. then (lift r s') (λ _. directory_of parent >>= λ node.
              lift (ok_or (get_child node.children name) VfsError.not_found)))
            valid
          ∙ directory_step parent _ s' changed found dir
          ∙ ap (λ o. (ok_or o VfsError.not_found, s')) (get_child-put_child node.children name i),
    )
