-- ===== src/Znode/Init/Walk.antt =====
-- populate_cache_layer and Init_znode_cache of znode_cache.go on a folder whose znodes form a
-- finite tree.
use dsc_zookeeper.Prelude.{
  ℕ, suc, ◌+◌, Str, str_eq, List, [], ◌∷◌, true, some, codes, ◌≡◌, refl, ap, ◌∙◌, arith,
}
use dsc_zookeeper.Znode.FilePath.{join}
use dsc_zookeeper.Znode.Types.{ZNode, ok, session_dir}
use dsc_zookeeper.Znode.Store.{Store, get_data, get_children, exists_znode}
use dsc_zookeeper.Znode.Check.{Cache, put}
use dsc_zookeeper.Znode.Init.{
  Filling, populate_children, populate_cache_layer, populate, init_znode_cache,
}
use dsc_zookeeper.Znode.Init.Filled.{Has, HasBelow}
use dsc_zookeeper.Znode.Init.Start.{init_znode_cache-Has}

-- The children of a path have files that can be read, and so have those below them: the znodes
-- below the path are a finite tree.
pub data IsTree (store : Store) : Str → List Str → Type 0 where
  leaf : (path : Str) → IsTree store path []
  branch :
      (path child : Str) (children below : List Str) (z : ZNode)
      → get_data store (join path child) ≡ ok z
      → get_children store (join path child) ≡ ok below
      → IsTree store (join path child) below
      → IsTree store path children
      → IsTree store path (child ∷ children)

module _ (store : Store) where
  -- From some fuel on, the loop over the children ends without an error, with the same cache.
  abbrev Ends : Str → List Str → Cache → Type 0
  Ends path children c =
      (n : ℕ) × (d : Cache) × ((k : ℕ)
        → populate_children (populate_cache_layer (n + k) store) store path children c
          ≡ some (d, ok tt))

  layer-children :
      (fuel : ℕ) (path : Str) (children : List Str) (c : Cache)
      → get_children store path ≡ ok children
      → populate_cache_layer (suc fuel) store path c
        ≡ populate_children (populate_cache_layer fuel store) store path children c
  unfolding populate_cache_layer
  layer-children fuel path children c h = rw (h, populate_cache_layer) refl

  first-child :
      (layer : Str → Cache → Filling) (path child : Str) (children : List Str) (z : ZNode)
      (c e : Cache)
      → get_data store (join path child) ≡ ok z
      → layer (join path child) (put c (join path child) z) ≡ some (e, ok tt)
      → populate_children layer store path (child ∷ children) c
        ≡ populate_children layer store path children e
  unfolding populate_children
  first-child layer path child children z c e file ran = rw (file, populate_children) (rw ran refl)

  no-children :
      (layer : Str → Cache → Filling) (path : Str) (c : Cache)
      → populate_children layer store path [] c ≡ some (c, ok tt)
  unfolding populate_children
  no-children layer path c = refl

  -- A layer with a little more fuel than its children need.
  layer-ends :
      (n m k : ℕ) (path : Str) (children : List Str) (c d : Cache)
      → get_children store path ≡ ok children
      → ((j : ℕ)
          → populate_children (populate_cache_layer (n + j) store) store path children c
            ≡ some (d, ok tt))
      → m ≡ suc (n + k)
      → populate_cache_layer m store path c ≡ some (d, ok tt)
  layer-ends n m k path children c d list ran e =
      ap (λ (x : ℕ). populate_cache_layer x store path c) e
      ∙ layer-children (n + k) path children c list
      ∙ ran k

  children-Ends :
      (path : Str) (children : List Str) (c : Cache)
      → IsTree store path children
      → Ends path children c
  children-Ends path [] c (leaf _) = (0, c, (λ k. no-children _ path c))
  children-Ends path (child ∷ children) c (branch _ _ _ below z file list sub rest) =
      let (n, e, down) = children-Ends (join path child) below (put c (join path child) z) sub in
      let (m, d, on) = children-Ends path children e rest in
      (
        suc (n + m),
        d,
        (λ k.
            let layer = populate_cache_layer (suc (n + m) + k) store in
            let more : suc (n + m) + k ≡ suc (n + (m + k)) = omega arith in
            let same : suc (n + m) + k ≡ m + (suc n + k) = omega arith in
            let first =
              layer-ends n (suc (n + m) + k) (m + k) (join path child) below
                (put c (join path child) z) e list down more in
            first-child layer path child children z c e file first
            ∙ ap (λ (x : ℕ). populate_children (populate_cache_layer x store) store path children e)
                same
            ∙ on (suc n + k)),
      )

  populate-ends :
      (top sessions : List Str) (c : Cache)
      → get_children store (codes ".") ≡ ok top
      → get_children store session_dir ≡ ok sessions
      → IsTree store (codes ".") top
      → IsTree store session_dir sessions
      → (n : ℕ) × (d : Cache) × ((k : ℕ) → populate (n + k) store c ≡ some (d, ok tt))
  unfolding populate
  populate-ends top sessions c list list' tree tree' =
      let (n, a, first) = children-Ends (codes ".") top c tree in
      let (m, b, second) = children-Ends session_dir sessions a tree' in
      (
        suc (n + m),
        record b { is_init = true },
        (λ k.
            let one =
              layer-ends n (suc (n + m) + k) (m + k) (codes ".") top c a list first (omega arith) in
            let two =
              layer-ends m (suc (n + m) + k) (n + k) session_dir sessions a b list' second
                (omega arith) in
            rw one (rw two refl)),
      )

-- If the base znode and the session znode are on disk under their own paths, and the znodes that
-- the lists of children lead to from either are finite trees of files that can be read, then from
-- some fuel on Init_znode_cache ends without an error and always with the same cache. This cache
-- has both of them and every znode below either, each as its file has it, and is marked as ready.
pub init_znode_cache-ends :
    (old : Cache) (store : Store) (base session : ZNode) (top sessions : List Str)
    → exists_znode store (codes ".") ≡ true
    → get_data store (codes ".") ≡ ok base
    → get_data store session_dir ≡ ok session
    → base.path ≡ codes "."
    → session.path ≡ session_dir
    → get_children store (codes ".") ≡ ok top
    → get_children store session_dir ≡ ok sessions
    → IsTree store (codes ".") top
    → IsTree store session_dir sessions
    → (n : ℕ) × (d : Cache) × ((k : ℕ)
        → init_znode_cache (n + k) old store ≡ (store, some (d, ok tt)))
      × Has store d (codes ".")
      × Has store d session_dir
      × HasBelow store d (codes ".")
      × HasBelow store d session_dir
      × (d.is_init ≡ true)
unfolding init_znode_cache
init_znode_cache-ends old store base session top sessions there b s bp sp list list' tree tree' =
    let a = put (record old { nodes = [] }) base.path base in
    let c = put a session.path session in
    let (n, d, filled) = populate-ends store top sessions c list list' tree tree' in
    let ran : (k : ℕ) → init_znode_cache (n + k) old store ≡ (store, some (d, ok tt)) =
      λ k. rw (there, b, s) (ap (λ (x : Filling). (store, x)) (filled k)) in
    let (top_has, session_has, below, under_session, ready) =
      init_znode_cache-Has (n + 0) old d store base session there b s bp sp (ran 0) in
    (n, d, ran, top_has, session_has, below, under_session, ready)
