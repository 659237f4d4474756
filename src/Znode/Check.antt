-- ===== src/Znode/Check.antt =====
-- check_utils.go and znode_cache.go: the leader checks each write against its cache, and updates it.
pub mod Sequence
pub mod Updates
pub mod Create
use mathlib.Core.List.{reverse}
use dsc_zookeeper.Prelude.{
  ℕ, zero, suc, ◌+◌, ◌-◌, Str, str_eq, str_beq, Bytes, List, [], ◌∷◌, ◌++◌, Bool, true, false, ◌&&◌,
  not, ◌==◌, nat_eq, ltb, if◌then◌else◌, Option, none, some, lookup, insert, delete, codes, Codec,
}
use dsc_zookeeper.Prelude.Int.{ℤ, pos, negsuc, suc_ℤ}
use dsc_zookeeper.Prelude.Decimal.{itoa, atoi}
use dsc_zookeeper.Znode.FilePath.{dir, base, join}
use dsc_zookeeper.Znode.Types.{
  ZNode, Session, WriteRequest, ZnodeError, Outcome, ok, err, panic, ◌>>=◌, ◌>>◌, exists_error,
  version_error, invalid_request_error, critical_error, init_error, json_error, Json, session_dir,
  int_beq,
}
use dsc_zookeeper.Znode.Store.{Store, get_data}

-- `znodecache` by path, and `znodeinit`. A *ZNode of the map is shared with nothing else.
pub record Cache : Type 0 where
  pub nodes : List (Str × ZNode)
  pub is_init : Bool

-- A dereference of `znodecache[path]`: a missing entry is a nil pointer.
abbrev pub deref : Option ZNode → Outcome ZNode
deref none = panic
deref (some znode) = ok znode

abbrev pub require : Option ZNode → Outcome ZNode
require none = err exists_error
require (some znode) = ok znode

abbrev pub forbid : Option ZNode → Outcome (Unit {0})
forbid none = ok tt
forbid (some znode) = err exists_error

abbrev pub guard : Bool → ZnodeError → Outcome (Unit {0})
guard true e = ok tt
guard false e = err e

-- The children without the first that has the name.
unfoldable pub remove_child : Str → List Str → List Str
remove_child name [] = []
remove_child name (x ∷ xs) = let rest = remove_child name xs in if x == name then xs else x ∷ rest

-- strings.LastIndex(s, "_"), as the text in front of the last underscore and the text behind it.
unfoldable pub split_last : Str → Option (Str × Str)
split_last [] = none
split_last (c ∷ s) = elim (split_last s) [
  | some (front, rest) ↦ some (c ∷ front, rest)
  | none ↦ if c == b'_' then some ([], s) else none
]

-- The number behind a sibling's last underscore, if the sibling has the name in front of it.
unfoldable pub sequence_of : Str → Str → Option ℤ
sequence_of filename sibling = elim (split_last sibling) [
  | none ↦ none
  | some (front, rest) ↦ if front == filename then atoi rest else none
]

abbrev pub larger : ℕ → Option ℤ → ℕ
larger maxseq (some (pos n)) = if ltb maxseq n then n else maxseq
larger maxseq (some (negsuc n)) = maxseq
larger maxseq none = maxseq

unfoldable pub max_sequence : Str → List Str → ℕ → ℕ
max_sequence filename [] maxseq = maxseq
max_sequence filename (x ∷ xs) maxseq =
    max_sequence filename xs (larger maxseq (sequence_of filename x))

-- The znode with the next number in its path.
unfoldable pub seqname : Cache → ZNode → Outcome ZNode
seqname cache znode = do
  parent ← deref (lookup (dir znode.path) cache.nodes)
  let filename = base znode.path
  let maxseq = max_sequence filename parent.children 0
  ok (record znode { path = join (dir znode.path) (filename ++ b'_' ∷ itoa (maxseq + 1)) })

abbrev pub put : Cache → Str → ZNode → Cache
put cache path znode = record cache { nodes = insert path znode cache.nodes }

module _ (json : Json) where
  -- json.Unmarshal of a session znode's data.
  abbrev pub session_in : Bytes → ZnodeError → Outcome Session
  session_in content e =
      let (session, decoded) = json.sessions.unmarshal content in
      if decoded then ok session else err e

  -- The session znode of an ephemeral znode, with the znode added to its list.
  unfoldable pub add_ephemeral : Cache → ZNode → Outcome Cache
  add_ephemeral cache znode = do
    let path = join session_dir znode.ephemeral
    session_znode ← require (lookup path cache.nodes)
    session ← session_in session_znode.content critical_error
    ok (
        put cache path (record session_znode {
          version = suc_ℤ session_znode.version;
          content =
              json.sessions.marshal
                (record session { ephemeral_nodes = session.ephemeral_nodes ++ znode.path ∷ [] });
        }))

  -- The last lines: the znode enters the cache, and its name the children of its parent.
  unfoldable pub enter : Cache → ZNode → Outcome (Cache × ZNode)
  enter cache znode = do
    let created = record znode { version = suc_ℤ znode.version }
    let cache' = put cache znode.path created
    parent ← deref (lookup (dir znode.path) cache'.nodes)
    ok (
      put cache' (dir znode.path)
          (record parent { children = parent.children ++ base znode.path ∷ [] }),
      created,
    )

  unfoldable pub check_create : Cache → ZNode → Outcome (Cache × ZNode)
  check_create cache znode = do
    forbid (lookup znode.path cache.nodes)
    parent ← require (lookup (dir znode.path) cache.nodes)
    guard (parent.ephemeral == []) invalid_request_error
    guard (int_beq znode.version (pos 0)) version_error
    cache' ← (if znode.ephemeral == [] then ok cache else add_ephemeral cache znode)
    enter cache' znode

  -- The version is tested unless it is -1, which leaves the version as it is.
  unfoldable pub update_cached : Cache → ZNode → ZNode → Outcome (Cache × ZNode)
  update_cached cache znode cached =
      if int_beq znode.version (negsuc 0)
      then ok (put cache znode.path (record cached { content = znode.content }), znode)
      else if int_beq znode.version cached.version
      then ok (
        put cache znode.path
            (record cached { content = znode.content; version = suc_ℤ cached.version }),
        record znode { version = suc_ℤ znode.version },
      )
      else err version_error

  unfoldable pub check_update : Cache → ZNode → Outcome (Cache × ZNode)
  check_update cache znode = do
    cached ← require (lookup znode.path cache.nodes)
    update_cached cache znode cached

  unfoldable pub remove_from_parent : Cache → Str → Outcome Cache
  remove_from_parent cache path = do
    parent ← deref (lookup (dir path) cache.nodes)
    ok (
        put cache (dir path)
          (record parent { children = remove_child (base path) parent.children }))

  abbrev pub drop_node : Cache → Str → Cache
  drop_node cache path = record cache { nodes = delete path cache.nodes }

  -- The descendants of the znode stay in the cache.
  unfoldable pub check_delete : Cache → ZNode → Outcome Cache
  check_delete cache znode = do
    cached ← require (lookup znode.path cache.nodes)
    guard (if int_beq znode.version (negsuc 0) then true else int_beq znode.version cached.version)
        version_error
    cache' ← remove_from_parent cache znode.path
    ok (drop_node cache' znode.path)

  unfoldable pub remove_ephemerals : Cache → List Str → Outcome Cache
  remove_ephemerals cache [] = ok cache
  remove_ephemerals cache (path ∷ paths) = do
    cache' ← remove_from_parent cache path
    remove_ephemerals (drop_node cache' path) paths

  -- The session is read from the files of this node.
  unfoldable pub check_delete_session : Store → Cache → ZNode → Outcome Cache
  check_delete_session store cache znode = do
    session_znode ← get_data store znode.path
    session ← session_in session_znode.content critical_error
    cache' ← remove_ephemerals cache session.ephemeral_nodes
    ok (drop_node cache' znode.path)

  -- The updates of a watch_trigger: those before an error stay in the cache.
  unfoldable pub check_updates : Cache → List ZNode → Cache × Outcome (List ZNode)
  check_updates cache [] = (cache, ok [])
  check_updates cache (z ∷ zs) = elim (check_update cache z) [
    | ok (cache', updated) ↦
        let (last, rest) = check_updates cache' zs in (last, (do us ← rest; ok (updated ∷ us)))
    | err e ↦ (cache, err e)
    | panic ↦ (cache, panic)
  ]

  -- `req.Znodes[0]`
  abbrev pub first : List ZNode → Outcome ZNode
  first [] = panic
  first (z ∷ zs) = ok z

  abbrev pub rest_of : List ZNode → List ZNode
  rest_of [] = []
  rest_of (z ∷ zs) = zs

  -- A result with the cache that it leaves; an error leaves the old one.
  abbrev pub with_cache : Cache → Outcome (Cache × Bytes) → Cache × Outcome Bytes
  with_cache cache (ok (cache', data')) = (cache', ok data')
  with_cache cache (err e) = (cache, err e)
  with_cache cache panic = (cache, panic)

  abbrev pub encode : Str → List ZNode → Bytes
  encode request znodes = json.requests.marshal (record { request = request; znodes = znodes })

  unfoldable pub check_create_request : Cache → WriteRequest → Outcome (Cache × Bytes)
  check_create_request cache req = do
    znode ← first req.znodes
    named ← (if znode.sequential then seqname cache znode else ok znode)
    checked ← check_create cache named
    ok (checked.0, encode (codes "create") (checked.1 ∷ rest_of req.znodes))

  unfoldable pub check_setdata_request : Cache → WriteRequest → Outcome (Cache × Bytes)
  check_setdata_request cache req = do
    znode ← first req.znodes
    checked ← check_update cache znode
    ok (checked.0, encode (codes "setdata") (checked.1 ∷ []))

  unfoldable pub check_request : Store → Cache → Bytes → WriteRequest → Cache × Outcome Bytes
  check_request store cache raw req =
      if req.request == codes "create"
      then with_cache cache (check_create_request cache req)
      else if req.request == codes "setdata"
      then with_cache cache (check_setdata_request cache req)
      else if req.request == codes "delete"
      then with_cache cache
          (do znode ← first req.znodes; cache' ← check_delete cache znode; ok (cache', raw))
      else if req.request == codes "delete_session"
      then with_cache cache (do
        znode ← first req.znodes
        cache' ← check_delete_session store cache znode
        ok (cache', raw))
      else if req.request == codes "sync"
      then (cache, ok raw)
      else if req.request == codes "watch_trigger"
      then (let (last, updated) = check_updates cache req.znodes in
          (last, (do us ← updated; ok (encode (codes "watch_trigger") us))))
      else (cache, err invalid_request_error)

  unfoldable pub check : Store → Cache → Bytes → Cache × Outcome Bytes
  check store cache raw =
      let (req, decoded) = json.requests.unmarshal raw in
      if not cache.is_init
      then (cache, err init_error)
      else if not decoded
      then (cache, err json_error)
      else check_request store cache raw req
