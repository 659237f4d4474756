-- ===== src/Examples/Caches.antt =====
-- The cache at the start, on a folder with one znode below the base znode.
use dsc_zookeeper.Prelude.{
  ℕ, ◌+◌, str_eq, str_beq, [], ◌∷◌, true, false, some, lookup, insert, codes, ◌≡◌, refl,
}
use dsc_zookeeper.Prelude.Int.{pos}
use dsc_zookeeper.Znode.FilePath.{clean, join}
use dsc_zookeeper.Znode.Types.{ZNode, ok, new_znode, session_dir}
use dsc_zookeeper.Znode.Store.{
  Store, disk_path, get_data, get_children, exists_znode, base_znode, session_base_znode,
}
use dsc_zookeeper.Znode.Check.{Cache}
use dsc_zookeeper.Znode.Init.{populate_cache_layer, populate_children, populate, init_znode_cache}
use dsc_zookeeper.Znode.Init.Walk.{IsTree, leaf, branch, init_znode_cache-ends}
use dsc_zookeeper.Znode.Init.Filled.{Has, HasBelow}
use dsc_zookeeper.Znode.Init.Start.{init_znode_cache-Has}

abbrev parent : ZNode
parent = record base_znode { children = codes "a" ∷ [] }

abbrev leaf_znode : ZNode
leaf_znode = new_znode (codes "a") (7 ∷ []) (pos 2)

abbrev files : Store
files =
    (codes "znodeDir", parent)
    ∷ (codes "znodeDir/sessionDir", session_base_znode)
    ∷ (codes "znodeDir/a", leaf_znode)
    ∷ []

abbrev empty : Cache
empty = record { nodes = []; is_init = false }

abbrev full : Cache
full = record {
  nodes = (codes ".", parent) ∷ (session_dir, session_base_znode) ∷ (codes "a", leaf_znode) ∷ [];
  is_init = true;
}

-- The base znode has one child, which has none.
files-IsTree : IsTree files (codes ".") (codes "a" ∷ [])
unfolding get_children get_data disk_path lookup str_beq clean join
files-IsTree =
    branch (codes ".") (codes "a") [] [] leaf_znode refl refl (leaf (codes "a")) (leaf (codes "."))

init_znode_cache-ends_example :
    (n : ℕ) × (d : Cache) × ((k : ℕ)
      → init_znode_cache (n + k) empty files ≡ (files, some (d, ok tt)))
    × Has files d (codes ".")
    × Has files d session_dir
    × HasBelow files d (codes ".")
    × HasBelow files d session_dir
    × (d.is_init ≡ true)
unfolding exists_znode get_children get_data disk_path lookup str_beq clean join
init_znode_cache-ends_example =
    init_znode_cache-ends empty files parent session_base_znode (codes "a" ∷ []) [] refl refl refl
      refl refl refl refl files-IsTree (leaf session_dir)

init_znode_cache-Has_example :
    Has files full (codes ".")
    × Has files full session_dir
    × HasBelow files full (codes ".")
    × HasBelow files full session_dir
    × (full.is_init ≡ true)
unfolding init_znode_cache populate populate_cache_layer populate_children exists_znode get_children
    get_data disk_path lookup insert str_beq clean join
init_znode_cache-Has_example =
    init_znode_cache-Has 2 empty full files parent session_base_znode refl refl refl refl refl refl
