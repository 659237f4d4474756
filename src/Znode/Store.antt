-- ===== src/Znode/Store.antt =====
-- The files of znode.go and the reads of read_utils.go and session.go. The folder znodeDir is a map
-- from the cleaned path of a znode's directory to the znode that its JSON file holds: reading JSON
-- back what was written, and file operations that succeed, are taken for granted. A znode exists
-- if its file does.
use dsc_zookeeper.Prelude.{
  Str, str_eq, List, [], ◌∷◌, ◌++◌, Bool, true, false, ◌&&◌, ◌==◌, nat_eq, if◌then◌else◌, Option,
  none, some, lookup, insert, codes,
}
use dsc_zookeeper.Prelude.Int.{pos}
use dsc_zookeeper.Znode.FilePath.{clean, join}
use dsc_zookeeper.Znode.Types.{
  ZNode, Outcome, ok, err, ◌>>=◌, exists_error, session_dir, znode_dir, new_znode,
}

abbrev pub Store : Type 0
Store = List (Str × ZNode)

-- filepath.Join(".", znodeDir, path)
unfoldable pub disk_path : Str → Str
disk_path path = clean (codes "./" ++ znode_dir ++ b'/' ∷ path)

unfoldable pub write_znode : Store → ZNode → Store
write_znode store znode = insert (disk_path znode.path) znode store

-- Whether the second path is the first one or lies below it.
unfoldable pub is_below : Str → Str → Bool
is_below [] [] = true
is_below [] (c ∷ s) = c == b'/'
is_below (x ∷ xs) [] = false
is_below (x ∷ xs) (c ∷ s) = x == c && is_below xs s

-- os.RemoveAll
unfoldable pub remove_all : Str → Store → Store
remove_all path [] = []
remove_all path ((key, znode) ∷ store) =
    let rest = remove_all path store in if is_below path key then rest else (key, znode) ∷ rest

unfoldable pub delete_znode : Store → ZNode → Store
delete_znode store znode = remove_all (disk_path znode.path) store

abbrev is_some {ℓ} : {A : Type ℓ} → Option A → Bool
is_some none = false
is_some (some a) = true

unfoldable pub exists_znode : Store → Str → Bool
exists_znode store path = is_some (lookup (disk_path path) store)

abbrev found : Option ZNode → Outcome ZNode
found none = err exists_error
found (some znode) = ok znode

unfoldable pub get_data : Store → Str → Outcome ZNode
get_data store path = found (lookup (disk_path path) store)

unfoldable pub get_children : Store → Str → Outcome (List Str)
get_children store path = do znode ← get_data store path; ok znode.children

-- session.go
unfoldable pub exists_session : Store → Str → Bool
exists_session store sessionid = exists_znode store (join session_dir sessionid)

unfoldable pub get_sessions : Store → Outcome (List Str)
get_sessions store = get_children store session_dir

-- `init_base_znode`: the two znodes, and the files of both.
abbrev pub base_znode : ZNode
base_znode =
    new_znode (codes ".")
      (codes
        "This is the base znode, it should not be deleted. This is used to store info of children of the root znode.")
      (pos 0)

abbrev pub session_base_znode : ZNode
session_base_znode =
    new_znode session_dir
      (codes
        "This is the session znode, it should not be deleted. This is used to store session info.")
      (pos 0)

unfoldable pub init_base_znode : Store → Store
init_base_znode store = write_znode (write_znode store base_znode) session_base_znode
