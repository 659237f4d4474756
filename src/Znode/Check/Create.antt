-- ===== src/Znode/Check/Create.antt =====
-- check_create and check_delete of check_utils.go on the leader's cache.
use dsc_zookeeper.Prelude.{
  Str, str_eq, str_beq_iff, List, [], ◌∷◌, ◌++◌, true, false, if◌then◌else◌, none, some, lookup,
  insert, delete, lookup-insert, lookup-delete, ◌≡◌, ◌∙◌, refl, arith, ◌==◌, All, ◌⊎◌, inl, inr,
  Bool-cases,
}
use dsc_zookeeper.Prelude.Int.{ℤ, pos, negsuc, suc_ℤ}
use dsc_zookeeper.Znode.FilePath.{dir, base}
use dsc_zookeeper.Znode.Types.{ZNode, ok, int_beq, int_beq_iff, Json}
use dsc_zookeeper.Znode.Check.{
  Cache, put, remove_child, check_create, check_delete, enter, remove_from_parent,
}

-- A create of a regular znode that passes: its path is free, its parent is there and is not
-- ephemeral, and its version is 0.
pub record CanCreate (cache : Cache) (parent znode : ZNode) : Type 0 where
  pub free : lookup znode.path cache.nodes ≡ none
  pub parent_there : lookup (dir znode.path) cache.nodes ≡ some parent
  pub parent_regular : (parent.ephemeral == []) ≡ true
  pub fresh : int_beq znode.version (pos 0) ≡ true
  pub regular : (znode.ephemeral == []) ≡ true
  pub below : (znode.path == dir znode.path) ≡ false

module _ (json : Json) where
  abbrev pub created : ZNode → ZNode
  created znode = record znode { version = suc_ℤ znode.version }

  -- The parent with the new znode among its children.
  abbrev pub adopted : ZNode → ZNode → ZNode
  adopted parent znode = record parent { children = parent.children ++ base znode.path ∷ [] }

  abbrev pub cache_after : Cache → ZNode → ZNode → Cache
  cache_after cache parent znode =
      put (put cache znode.path (created znode)) (dir znode.path) (adopted parent znode)

  parent_entry :
      (cache : Cache) (parent znode entry : ZNode)
      → CanCreate cache parent znode
      → lookup (dir znode.path) (insert znode.path entry cache.nodes) ≡ some parent
  parent_entry cache parent znode entry h =
      lookup-insert znode.path (dir znode.path) entry cache.nodes ∙ rw h.below h.parent_there

  pub check_create-passed :
      (cache : Cache) (parent znode : ZNode)
      → CanCreate cache parent znode
      → check_create json cache znode ≡ ok (cache_after cache parent znode, created znode)
  unfolding check_create enter
  check_create-passed cache parent znode h =
      rw (h.free, check_create)
        (rw h.parent_there (
          rw h.parent_regular (
            rw h.fresh
              (rw h.regular (rw (parent_entry cache parent znode (created znode) h) refl)))))

  -- A create of a regular znode with version 0 on a free path, below a parent that is in the
  -- cache and regular, passes with version 1; then the path has the znode with that version, the
  -- parent has its name last among its children, and every other entry is as it was.
  pub check_create-nodes :
      (cache : Cache) (parent znode : ZNode) (path : Str)
      → CanCreate cache parent znode
      → (cache' : Cache) × (check_create json cache znode ≡ ok (cache', created znode))
        × (lookup path cache'.nodes ≡ (
            if znode.path == path
            then some (created znode)
            else if dir znode.path == path
            then some (adopted parent znode)
            else lookup path cache.nodes))
  check_create-nodes cache parent znode path h = (
    cache_after cache parent znode,
    check_create-passed cache parent znode h,
    ground (
      arith,
      lookup-insert (dir znode.path) path (adopted parent znode)
          (insert znode.path (created znode) cache.nodes),
      lookup-insert znode.path path (created znode) cache.nodes,
      str_beq_iff znode.path path,
      str_beq_iff (dir znode.path) path,
      str_beq_iff znode.path (dir znode.path),
      h.below,
    ),
  )

  remove_child-last :
      (name : Str) (xs : List Str)
      → All (λ x. (x == name) ≡ false) xs
      → remove_child name (xs ++ name ∷ []) ≡ xs
  unfolding remove_child
  remove_child-last name [] h = rw ((str_beq_iff name name).1 refl) refl
  remove_child-last name (x ∷ xs) (hx, hxs) =
      rw (hx, remove_child) (rw (remove_child-last name xs hxs) refl)

  version-passes :
      (v w : ℤ)
      → (v ≡ negsuc 0) ⊎ (v ≡ w)
      → (if int_beq v (negsuc 0) then true else int_beq v w) ≡ true
  version-passes v w (inl any) = rw ((int_beq_iff v (negsuc 0)).1 any) refl
  version-passes v w (inr same) = elim (Bool-cases (int_beq v (negsuc 0))) [
    | inl any ↦ rw any refl
    | inr other ↦ rw other ((int_beq_iff v w).1 same)
  ]

  -- The delete's run on a cache in which the znode and its parent are known.
  check_delete-passed :
      (cache : Cache) (parent cached znode : ZNode)
      → lookup znode.path cache.nodes ≡ some cached
      → lookup (dir znode.path) cache.nodes ≡ some parent
      → (znode.version ≡ negsuc 0) ⊎ (znode.version ≡ cached.version)
      → let parent' = record parent { children = remove_child (base znode.path) parent.children } in
        check_delete json cache znode
        ≡ ok (record cache {
          nodes = delete znode.path (insert (dir znode.path) parent' cache.nodes);
        })
  unfolding check_delete remove_from_parent
  check_delete-passed cache parent cached znode there above named =
      let passes : (if int_beq znode.version (negsuc 0)
            then true
            else int_beq znode.version cached.version)
          ≡ true =
        version-passes znode.version cached.version named in
      rw (there, check_delete) (rw passes (rw (above, remove_from_parent) refl))

  adopted_entry :
      (cache : Cache) (parent znode : ZNode)
      → lookup (dir znode.path) (cache_after cache parent znode).nodes ≡ some (adopted parent znode)
  adopted_entry cache parent znode =
      let own : (dir znode.path == dir znode.path) ≡ true = (str_beq_iff _ _).1 refl in
      lookup-insert (dir znode.path) (dir znode.path) (adopted parent znode)
        (insert znode.path (created znode) cache.nodes)
      ∙ rw own refl

  znode_entry :
      (cache : Cache) (parent znode : ZNode)
      → CanCreate cache parent znode
      → lookup znode.path (cache_after cache parent znode).nodes ≡ some (created znode)
  znode_entry cache parent znode h = ground (
    arith,
    lookup-insert (dir znode.path) znode.path (adopted parent znode)
        (insert znode.path (created znode) cache.nodes),
    lookup-insert znode.path znode.path (created znode) cache.nodes,
    str_beq_iff znode.path znode.path,
    str_beq_iff (dir znode.path) znode.path,
    str_beq_iff znode.path (dir znode.path),
    h.below,
  )

  abbrev restored_parent : ZNode → ZNode → ZNode
  restored_parent parent znode = record parent {
    children = remove_child (base znode.path) (parent.children ++ base znode.path ∷ []);
  }

  restored :
      (cache : Cache) (parent znode : ZNode) (path : Str)
      → CanCreate cache parent znode
      → All (λ x. (x == base znode.path) ≡ false) parent.children
      → lookup path (
          delete znode.path (
            insert
              (dir znode.path)
              (restored_parent parent znode)
              (cache_after cache parent znode).nodes))
        ≡ lookup path cache.nodes
  restored cache parent znode path h new =
      let same_parent : restored_parent parent znode ≡ parent =
        rw (remove_child-last (base znode.path) parent.children new) refl in
      let nodes' = (cache_after cache parent znode).nodes in
      ground (
        arith,
        lookup-delete znode.path path
            (insert (dir znode.path) (restored_parent parent znode) nodes'),
        lookup-insert (dir znode.path) path (restored_parent parent znode) nodes',
        lookup-insert (dir znode.path) path (adopted parent znode)
            (insert znode.path (created znode) cache.nodes),
        lookup-insert znode.path path (created znode) cache.nodes,
        str_beq_iff znode.path path,
        str_beq_iff (dir znode.path) path,
        h.free,
        h.parent_there,
        same_parent,
      )

  -- If a create of a regular znode with version 0 has a free path and a regular parent none of
  -- whose children has its name, the create passes, a delete of its path with version -1 or with
  -- the version that the create has given passes after it, and every entry of the cache is then
  -- as it was before both.
  pub check_delete-check_create :
      (cache : Cache) (parent znode gone : ZNode) (path : Str)
      → CanCreate cache parent znode
      → All (λ x. (x == base znode.path) ≡ false) parent.children
      → gone.path ≡ znode.path
      → (gone.version ≡ negsuc 0) ⊎ (gone.version ≡ (created znode).version)
      → (cache' : Cache) × (cache'' : Cache) × (check_create json cache znode
          ≡ ok (cache', created znode))
        × (check_delete json cache' gone ≡ ok cache'')
        × (lookup path cache''.nodes ≡ lookup path cache.nodes)
  check_delete-check_create cache parent znode gone path h new same named =
      let cache' = cache_after cache parent znode in
      let there : lookup gone.path cache'.nodes ≡ some (created znode) =
        rw same (znode_entry cache parent znode h) in
      let above : lookup (dir gone.path) cache'.nodes ≡ some (adopted parent znode) =
        rw same (adopted_entry cache parent znode) in
      (
        cache',
        _,
        check_create-passed cache parent znode h,
        check_delete-passed cache' (adopted parent znode) (created znode) gone there above named,
        rw same (restored cache parent znode path h new),
      )
