-- ===== src/Znode/Init/Start.antt =====
-- Init_znode_cache of znode_cache.go on a folder that has the base znodes.
use dsc_zookeeper.Prelude.{ℕ, str_eq, [], true, some, some_inj, codes, ◌≡◌, sym, ap, subst}
use dsc_zookeeper.Znode.Types.{ZNode, Outcome, ok, session_dir}
use dsc_zookeeper.Znode.Store.{Store, get_data, exists_znode}
use dsc_zookeeper.Znode.Check.{Cache, put}
use dsc_zookeeper.Znode.Init.{Filling, populate, init_znode_cache, populate_cache_layer}
use dsc_zookeeper.Znode.Init.Filled.{
  Has, Keeps, HasBelow, put-lookup, put-Keeps, go_on-ok, populate_cache_layer-Fills,
}

populate-Fills :
    (fuel : ℕ) (store : Store) (c d : Cache)
    → populate fuel store c ≡ some (d, ok tt)
    → Keeps store c d
      × HasBelow store d (codes ".")
      × HasBelow store d session_dir
      × (d.is_init ≡ true)
unfolding populate
populate-Fills fuel store c d h =
    let (a, first, more) = go_on-ok (populate_cache_layer fuel store (codes ".") c) _ d h in
    let (b, second, last) = go_on-ok (populate_cache_layer fuel store session_dir a) _ d more in
    let e : record b { is_init = true } ≡ d =
      ap (λ (x : Cache × Outcome (Unit {0})). x.0) (some_inj last) in
    let one = populate_cache_layer-Fills store fuel (codes ".") c a first in
    let two = populate_cache_layer-Fills store fuel session_dir a b second in
    (
      (λ q has. subst (λ x. Has store x q) e (two.0 q (one.0 q has))),
      (λ q l. subst (λ x. Has store x q) e (two.0 q (one.1 q l))),
      (λ q l. subst (λ x. Has store x q) e (two.1 q l)),
      ap (λ x. x.is_init) (sym e),
    )

-- If the base znode and the session znode are on disk under their own paths, and Init_znode_cache
-- ends without an error, the cache holds both of them and every znode that the lists of children
-- lead to from either, each as its file has it, and is marked as ready.
pub init_znode_cache-Has :
    (fuel : ℕ) (old d : Cache) (store : Store) (base session : ZNode)
    → exists_znode store (codes ".") ≡ true
    → get_data store (codes ".") ≡ ok base
    → get_data store session_dir ≡ ok session
    → base.path ≡ codes "."
    → session.path ≡ session_dir
    → init_znode_cache fuel old store ≡ (store, some (d, ok tt))
    → Has store d (codes ".")
      × Has store d session_dir
      × HasBelow store d (codes ".")
      × HasBelow store d session_dir
      × (d.is_init ≡ true)
unfolding init_znode_cache
init_znode_cache-Has fuel old d store base session there b s bp sp ran =
    let a = put (record old { nodes = [] }) base.path base in
    let c = put a session.path session in
    let filled : populate fuel store c ≡ some (d, ok tt) =
      ap (λ (x : Store × Filling). x.1) (rw (there, b, s) at ran) in
    let (kept, below, sessions, done) = populate-Fills fuel store c d filled in
    let b' = subst (λ p. get_data store p ≡ ok base) (sym bp) b in
    let s' = subst (λ p. get_data store p ≡ ok session) (sym sp) s in
    (
      subst (Has store d) bp (
          kept base.path (
            put-Keeps store a session.path session s' base.path
              (base, put-lookup (record old { nodes = [] }) base.path base, b'))),
      subst (Has store d) sp (kept session.path (session, put-lookup a session.path session, s')),
      below,
      sessions,
      done,
    )
