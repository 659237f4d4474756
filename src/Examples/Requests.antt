-- ===== src/Examples/Requests.antt =====
-- Requests that are encoded, checked and written, on a folder `d` with one child.
use dsc_zookeeper.Prelude.{
  str_eq, str_beq, Bytes, [], ◌∷◌, false, none, some, lookup, codes, ◌≡◌, refl,
}
use dsc_zookeeper.Prelude.Int.{pos, suc_ℤ}
use dsc_zookeeper.Znode.FilePath.{clean, dir}
use dsc_zookeeper.Znode.Types.{ZNode, Json, ok, new_znode}
use dsc_zookeeper.Znode.Store.{Store, disk_path, get_data, exists_znode, base_znode, is_below}
use dsc_zookeeper.Znode.Encode.{encode_setdata, encode_delete}
use dsc_zookeeper.Znode.Check.{Cache, check}
use dsc_zookeeper.Znode.Write.{write}
use dsc_zookeeper.Znode.Deleted.{encode_delete-applied}
use dsc_zookeeper.Znode.Applied.{IsSame, encode_setdata-applied}
use dsc_zookeeper.Examples.Bytes.{requests, requests-IsExact}
use dsc_zookeeper.Examples.Znodes.{sessions, folder, member, cache}

abbrev json : Json
json = record { requests = requests; sessions = sessions }

abbrev files : Store
files =
    (codes "znodeDir", base_znode)
    ∷ (codes "znodeDir/d", folder)
    ∷ (codes "znodeDir/d/x", member)
    ∷ []

-- The data of the folder are set, and its file has no child any more.
encode_setdata-applied_example :
    (raw : Bytes) × (cache' : Cache) × (store' : Store) × (z : ZNode) × (check json files cache
        (encode_setdata json (codes "d") (9 ∷ []) (pos 0))
      ≡ (cache', ok raw))
    × (write json raw files ≡ (store', ok (codes "d" ∷ [])))
    × (get_data store' (codes "d") ≡ ok z)
    × (z ≡ new_znode (codes "d") (9 ∷ []) (suc_ℤ (pos 0)))
    × (lookup (codes "d") cache'.nodes
        ≡ some (record folder { content = 9 ∷ []; version = suc_ℤ folder.version }))
unfolding lookup str_beq
encode_setdata-applied_example =
    encode_setdata-applied json requests-IsExact files cache folder (codes "d") (9 ∷ []) (pos 0)
      refl refl refl refl

-- The folder `d` is deleted, and its child stays in the leader's cache.
abbrev rooted : Cache
rooted = record cache { nodes = (codes ".", base_znode) ∷ cache.nodes }

encode_delete-applied_example :
    (raw : Bytes) × (cache' : Cache) × (store' : Store) × (check json files rooted
        (encode_delete json (codes "d") (pos 0))
      ≡ (cache', ok raw))
    × (write json raw files ≡ (store', ok (codes "d" ∷ [])))
    × (exists_znode store' (codes "d") ≡ false)
    × (lookup (codes "d") cache'.nodes ≡ none)
    × IsSame json requests-IsExact store' cache' (dir (codes "d"))
    × (exists_znode store' (codes "d/x") ≡ false)
    × (lookup (codes "d/x") cache'.nodes ≡ lookup (codes "d/x") rooted.nodes)
unfolding lookup str_beq dir clean disk_path get_data exists_znode is_below
encode_delete-applied_example =
    encode_delete-applied json requests-IsExact files rooted folder base_znode (codes "d")
      (codes "d/x") (pos 0) refl refl refl refl refl refl refl refl refl refl refl
