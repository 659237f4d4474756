-- ===== src/Znode/Deleted.antt =====
-- A delete on its way through internal/znode: encoded by the server, checked by the leader, and
-- written when it is committed.
use dsc_zookeeper.Prelude.{
  Str, Bytes, str_eq, str_beq, str_beq_iff, [], ◌∷◌, true, false, Bool-cases, inl, inr, ◌==◌,
  nat_eq, if◌then◌else◌, none, some, lookup, insert, delete, lookup-insert, lookup-delete, IsExact,
  arith, codes, ◌≡◌, refl, subst, ◌∙◌,
}
use dsc_zookeeper.Prelude.Int.{ℤ, negsuc}
use dsc_zookeeper.Znode.FilePath.{dir, base}
use dsc_zookeeper.Znode.Types.{ZNode, WriteRequest, ok, Json, new_znode, int_beq}
use dsc_zookeeper.Znode.Store.{
  Store, disk_path, is_below, remove_all, write_znode, delete_znode, exists_znode, get_data,
}
use dsc_zookeeper.Znode.Encode.{encode_delete}
use dsc_zookeeper.Znode.Check.{
  Cache, check, check_request, check_delete, remove_from_parent, remove_child,
}
use dsc_zookeeper.Znode.Write.{write, write_request, on_first, write_delete, delete_op, write_op}
use dsc_zookeeper.Znode.Applied.{IsSame, get_data-write_znode}

-- A folder that is removed takes what lies below it with it, and nothing else.
lookup-remove_all :
    (path q : Str) (store : Store)
    → lookup q (remove_all path store) ≡ (if is_below path q then none else lookup q store)
unfolding remove_all lookup
lookup-remove_all path q [] = ground arith
lookup-remove_all path q ((key, znode) ∷ store) =
    let ih = lookup-remove_all path q store in
    elim (Bool-cases (key == q)) [
      | inl same ↦
          let e : key ≡ q = (str_beq_iff key q).0 same in
          elim (Bool-cases (is_below path key)) [
            | inl below ↦
                let taken = subst (λ x. is_below path x ≡ true) e below in
                rw (below, taken) (rw taken at ih)
            | inr outside ↦
                let kept = subst (λ x. is_below path x ≡ false) e outside in
                rw (outside, kept) (rw same refl)
          ]
      | inr other ↦ elim (Bool-cases (is_below path key)) [
        | inl below ↦ rw (below, other) ih
        | inr outside ↦ rw (outside, other) ih
      ]
    ]

is_below_self : (path : Str) → is_below path path ≡ true
unfolding is_below
is_below_self [] = refl
is_below_self (c ∷ path) = ground (arith, is_below_self path)

exists-delete_znode :
    (store : Store) (z : ZNode) (q : Str)
    → is_below (disk_path z.path) (disk_path q) ≡ true
    → exists_znode (delete_znode store z) q ≡ false
unfolding exists_znode delete_znode
exists-delete_znode store z q below =
    rw (lookup-remove_all (disk_path z.path) (disk_path q) store) (rw below refl)

get_data-delete_znode :
    (store : Store) (z : ZNode) (q : Str)
    → is_below (disk_path z.path) (disk_path q) ≡ false
    → get_data (delete_znode store z) q ≡ get_data store q
unfolding get_data delete_znode
get_data-delete_znode store z q outside =
    rw (lookup-remove_all (disk_path z.path) (disk_path q) store) (rw outside refl)

-- The entries of the leader's cache after a delete.
lookup-deleted :
    (path parent q : Str) (z : ZNode) (m : Store)
    → lookup q (delete path (insert parent z m))
      ≡ (if path == q then none else if parent == q then some z else lookup q m)
lookup-deleted path parent q z m =
    lookup-delete path q (insert parent z m) ∙ rw (lookup-insert parent q z m) refl

module _ (json : Json) (exact : IsExact json.requests) where
  abbrev orphaned : ZNode → Str → ZNode
  orphaned parent path = record parent { children = remove_child (base path) parent.children }

  -- Suppose that JSON reads back every write request, the leader's cache is ready and has a znode
  -- at a path and its parent, which the files hold too, under its own path, and not below the
  -- znode. If a delete names the version of the znode, or -1, the request that Encode_delete
  -- makes is accepted by Check and written by Write, which reports the path. Then the znode is
  -- neither in the files nor in the cache, and both have the same parent. Another path below the
  -- znode's folder, and not the parent's, is not in the files any more, while the cache has there
  -- what it had.
  pub encode_delete-applied :
      (store : Store) (cache : Cache) (cached parent : ZNode) (path q : Str) (version : ℤ)
      → cache.is_init ≡ true
      → lookup path cache.nodes ≡ some cached
      → lookup (dir path) cache.nodes ≡ some parent
      → (if int_beq version (negsuc 0) then true else int_beq version cached.version) ≡ true
      → parent.path ≡ dir path
      → get_data store (dir path) ≡ ok parent
      → (path == dir path) ≡ false
      → is_below (disk_path path) (disk_path (dir path)) ≡ false
      → is_below (disk_path path) (disk_path q) ≡ true
      → (path == q) ≡ false
      → (dir path == q) ≡ false
      → (raw : Bytes) × (cache' : Cache) × (store' : Store) × (check json store cache
            (encode_delete json path version)
          ≡ (cache', ok raw))
        × (write json raw store ≡ (store', ok (path ∷ [])))
        × (exists_znode store' path ≡ false)
        × (lookup path cache'.nodes ≡ none)
        × IsSame json exact store' cache' (dir path)
        × (exists_znode store' q ≡ false)
        × (lookup q cache'.nodes ≡ lookup q cache.nodes)
  unfolding check check_request check_delete remove_from_parent encode_delete write write_request
      on_first write_delete delete_op write_op str_beq
  encode_delete-applied store cache cached parent path q version ready there above same own file
        apart outside below other other' =
      let asked : WriteRequest = record {
        request = codes "delete";
        znodes = new_znode path [] version ∷ [];
      } in
      let parent' = orphaned parent path in
      let written = write_znode store parent' in
      let z = new_znode path [] version in
      (
        json.requests.marshal asked,
        record cache { nodes = delete path (insert (dir path) parent' cache.nodes) },
        delete_znode written (new_znode path [] version),
        rw (exact.exact asked, ready, there, above) (rw same refl),
        rw (exact.exact asked, file) refl,
        exists-delete_znode written z path (is_below_self (disk_path path)),
        lookup-deleted path (dir path) path parent' cache.nodes
            ∙ rw ((str_beq_iff path path).1 refl) refl,
        (
          parent',
          get_data-delete_znode written z (dir path) outside
              ∙ get_data-write_znode store parent' (dir path) own,
          lookup-deleted path (dir path) (dir path) parent' cache.nodes
              ∙ rw (apart, (str_beq_iff (dir path) (dir path)).1 refl) refl,
        ),
        exists-delete_znode written z q below,
        lookup-deleted path (dir path) q parent' cache.nodes ∙ rw (other, other') refl,
      )
