-- ===== src/Znode/Init.antt =====
-- znode_cache.go: the leader's cache is filled from the files. The walk over the tree of children
-- runs on fuel, one unit for each level.
pub mod Walk
pub mod Filled
pub mod Start
use dsc_zookeeper.Prelude.{
  ℕ, zero, suc, Str, str_eq, List, [], ◌∷◌, Bool, true, not, if◌then◌else◌, Option, none, some,
  insert, codes,
}
use dsc_zookeeper.Znode.FilePath.{join}
use dsc_zookeeper.Znode.Types.{ZNode, Outcome, ok, err, panic, critical_error, session_dir}
use dsc_zookeeper.Znode.Store.{
  Store, get_data, get_children, exists_znode, base_znode, session_base_znode, init_base_znode,
}
use dsc_zookeeper.Znode.Check.{Cache, put}

-- The cache that a step leaves, also beside an error; `none` is fuel that has run out.
abbrev pub Filling : Type 0
Filling = Option (Cache × Outcome (Unit {0}))

abbrev pub go_on : Filling → (Cache → Filling) → Filling
go_on none f = none
go_on (some (cache, ok _)) f = f cache
go_on (some (cache, err e)) f = some (cache, err e)
go_on (some (cache, panic)) f = some (cache, panic)

-- A znode that was read enters the cache under a path, and an error ends the step.
abbrev pub with_read : Outcome ZNode → Str → Cache → (Cache → Filling) → Filling
with_read (ok znode) path cache f = f (put cache path znode)
with_read (err e) path cache f = some (cache, err e)
with_read panic path cache f = some (cache, panic)

-- The loop over the children: each one is read, and then its own layer is walked.
unfoldable pub populate_children :
    (Str → Cache → Filling) → Store → Str → List Str → Cache → Filling
populate_children layer store path [] cache = some (cache, ok tt)
populate_children layer store path (child ∷ children) cache =
    with_read (get_data store (join path child)) (join path child) cache λ cache'.
      go_on (layer (join path child) cache')
        λ cache''. populate_children layer store path children cache''

-- The children of a znode that cannot be read are a critical error.
abbrev pub with_children : Outcome (List Str) → Cache → (List Str → Filling) → Filling
with_children (ok children) cache f = f children
with_children (err e) cache f = some (cache, err critical_error)
with_children panic cache f = some (cache, panic)

unfoldable pub populate_cache_layer : ℕ → Store → Str → Cache → Filling
populate_cache_layer zero store path cache = none
populate_cache_layer (suc fuel) store path cache =
    with_children (get_children store path) cache
      λ children. populate_children (populate_cache_layer fuel store) store path children cache

-- A znode goes into the cache under its own path.
abbrev pub with_own : Outcome ZNode → Cache → (Cache → Filling) → Filling
with_own (ok znode) cache f = f (put cache znode.path znode)
with_own (err e) cache f = some (cache, err e)
with_own panic cache f = some (cache, panic)

-- Both layers, and then the flag.
unfoldable pub populate : ℕ → Store → Cache → Filling
populate fuel store cache = go_on (populate_cache_layer fuel store (codes ".") cache) λ cache'.
    go_on (populate_cache_layer fuel store session_dir cache')
      λ cache''. some (record cache'' { is_init = true }, ok tt)

-- `Init_znode_cache`: the files after it, which get the two base znodes if there are none yet, and
-- the cache.
unfoldable pub init_znode_cache : ℕ → Cache → Store → Store × Filling
init_znode_cache fuel old store =
    let empty : Cache = record old { nodes = [] } in
    if not (exists_znode store (codes "."))
    then (let store' = init_base_znode store in
        (
          store',
          populate fuel store' (
              put (put empty base_znode.path base_znode) session_base_znode.path
                session_base_znode),
        ))
    else (
      store,
      with_own (get_data store (codes ".")) empty
          λ cache. with_own (get_data store session_dir) cache λ cache'. populate fuel store cache',
    )
