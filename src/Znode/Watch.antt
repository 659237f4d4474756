-- ===== src/Znode/Watch.antt =====
-- watch.go: the watch flags of the sessions that this server handles.
pub mod Trigger
pub mod Restored
use dsc_zookeeper.Prelude.{
  Str, str_eq, Bytes, List, [], ◌∷◌, ◌++◌, Bool, true, not, ◌==◌, nat_eq, if◌then◌else◌, Option,
  none, some, lookup, insert, delete, codes,
}
use dsc_zookeeper.Prelude.Int.{ℤ, pos}
use dsc_zookeeper.Znode.FilePath.{join}
use dsc_zookeeper.Znode.Types.{
  ZNode, Session, Outcome, ok, err, panic, ◌>>=◌, ◌>>◌, init_error, critical_error, exists_error,
  Json, session_dir, int_beq, new_znode,
}
use dsc_zookeeper.Znode.Store.{Store, get_data}
use dsc_zookeeper.Znode.Encode.{encode_setdata}
use dsc_zookeeper.Znode.Check.{session_in, encode}

-- `watchcache`: the sessions that watch a path, and `watchinit`.
pub record WatchCache : Type 0 where
  pub watches : List (Str × List Str)
  pub is_init : Bool

unfoldable pub init_watch_cache : WatchCache
init_watch_cache = record { watches = []; is_init = true }

abbrev pub sessions_or_empty : Option (List Str) → List Str
sessions_or_empty none = []
sessions_or_empty (some xs) = xs

-- watchcache[path]
unfoldable pub get_watching_sessions : WatchCache → Str → List Str
get_watching_sessions w path = sessions_or_empty (lookup path w.watches)

-- watchcache[path] = append(watchcache[path], sessionid)
unfoldable pub add_watch : WatchCache → Str → Str → WatchCache
add_watch w path sessionid = record w {
  watches = insert path (get_watching_sessions w path ++ sessionid ∷ []) w.watches;
}

-- The version of a path, and 0 for a znode that does not exist.
unfoldable pub version_of : Store → Str → Outcome ℤ
version_of store path = elim (get_data store path) [
  | ok znode ↦ ok znode.version
  | err exists_error ↦ ok (pos 0)
  | err e ↦ err e
  | panic ↦ panic
]

-- The loop of `Update_watch_cache`, on what is left of the two lists: the cache, the paths whose
-- watch still holds, and those whose znode has changed. A version list that is too short is an
-- index out of range.
pub record Rewatch : Type 0 where
  pub cache : WatchCache
  pub kept : List Str
  pub triggered : List Str

unfoldable pub rewatch : Store → Str → List Str → List ℤ → Rewatch → Outcome Rewatch
rewatch store sessionid [] versions r = ok r
rewatch store sessionid (path ∷ paths) [] r = do version_of store path; panic
rewatch store sessionid (path ∷ paths) (v ∷ versions) r = do
  version ← version_of store path
  rewatch store sessionid paths versions (
      if int_beq version v
      then record r { cache = add_watch r.cache path sessionid; kept = r.kept ++ path ∷ [] }
      else record r { triggered = r.triggered ++ path ∷ [] })

module _ (json : Json) where
  abbrev pub session_of : Store → Str → Outcome (ZNode × Session)
  session_of store sessionid = do
    session_znode ← get_data store (join session_dir sessionid)
    session ← session_in json session_znode.content critical_error
    ok (session_znode, session)

  -- The request is empty, and no path is reported, when no watch is left.
  abbrev pub rewatched : Str → ZNode → Session → Rewatch → WatchCache × Option Bytes × List Str
  rewatched sessionid session_znode session r = elim r.kept [
    | [] ↦ (r.cache, none, [])
    | k ∷ ks ↦ (
      r.cache,
      some (
          encode_setdata json (join session_dir sessionid)
            (json.sessions.marshal (record session { watchlist = k ∷ ks })) session_znode.version),
      r.triggered,
    )
  ]

  unfoldable pub update_watch_cache :
      Store → WatchCache → Str → Outcome (WatchCache × Option Bytes × List Str)
  update_watch_cache store w sessionid = if not w.is_init then err init_error else do
    (session_znode, session) ← session_of store sessionid
    r ←
        rewatch store sessionid session.watchlist session.versionlist
          (record { cache = w; kept = []; triggered = [] })
    ok (rewatched sessionid session_znode session r)

  -- `Encode_watch`: the session's list gets the path with its version.
  unfoldable pub encode_watch : Store → WatchCache → Str → Str → Bool → Outcome (WatchCache × Bytes)
  encode_watch store w sessionid path cache = if not w.is_init then err init_error else do
    (session_znode, session) ← session_of store sessionid
    version ← version_of store path
    ok (
      if cache then add_watch w path sessionid else w,
      encode_setdata json (join session_dir sessionid)
          (json.sessions.marshal (record session {
            watchlist = session.watchlist ++ path ∷ [];
            versionlist = session.versionlist ++ version ∷ [];
          }))
          session_znode.version,
    )

-- The watch list and the version list without the first entry of the path: `none` if it has none.
-- The two lists are cut at the same place, which panics if the version list is too short.
unfoldable pub remove_watch : Str → List Str → List ℤ → Outcome (Option (List Str × List ℤ))
remove_watch path [] versions = ok none
remove_watch path (x ∷ xs) [] =
    if x == path then panic else (do rest ← remove_watch path xs []; ok none)
remove_watch path (x ∷ xs) (v ∷ vs) = if x == path then ok (some (xs, vs)) else do
  rest ← remove_watch path xs vs
  ok (elim rest [ none ↦ none | some (ys, us) ↦ some (x ∷ ys, v ∷ us) ])

module _ (json : Json) where
  -- The content of a session znode after a watch was triggered.
  abbrev pub unwatched : Session → Bytes → Option (List Str × List ℤ) → Bytes
  unwatched session content none = content
  unwatched session content (some (xs, vs)) =
      json.sessions.marshal (record session { watchlist = xs; versionlist = vs })

  -- The update of one session.
  unfoldable pub trigger : Store → Str → Str → Outcome ZNode
  trigger store path sessionid = do
    (session_znode, session) ← session_of json store sessionid
    left ← remove_watch path session.watchlist session.versionlist
    ok (
        new_znode (join session_dir sessionid) (unwatched session session_znode.content left)
          session_znode.version)

  unfoldable pub trigger_all : Store → Str → List Str → Outcome (List ZNode)
  trigger_all store path [] = ok []
  trigger_all store path (x ∷ xs) = do
    z ← trigger store path x
    zs ← trigger_all store path xs
    ok (z ∷ zs)

  -- The loop of `Check_watch`, with the znodes and the sessions so far.
  unfoldable pub check_paths :
      Store
      → WatchCache
      → List Str
      → List ZNode
      → List Str
      → WatchCache × Outcome (Bytes × List Str)
  check_paths store w [] znodes sessions =
      (w, ok (encode json (codes "watch_trigger") znodes, sessions))
  check_paths store w (path ∷ paths) znodes sessions =
      let watching = get_watching_sessions w path in
      elim (trigger_all store path watching) [
        | ok zs ↦
            check_paths store (record w { watches = delete path w.watches }) paths (znodes ++ zs)
              (sessions ++ watching)
        | err e ↦ (w, err e)
        | panic ↦ (w, panic)
      ]

  unfoldable pub check_watch :
      Store → WatchCache → List Str → WatchCache × Outcome (Bytes × List Str)
  check_watch store w paths =
      if not w.is_init then (w, err init_error) else check_paths store w paths [] []
