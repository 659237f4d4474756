-- ===== src/Znode/Watch/Restored.antt =====
-- Update_watch_cache of watch.go: a session that comes back to a server.
use dsc_zookeeper.Prelude.{
  Str, str_eq, Bytes, List, [], ◌∷◌, ◌++◌, append-nil, append_assoc, true, false, Option, none, ◌≡◌,
  ◌∙◌, refl, ap,
}
use dsc_zookeeper.Prelude.Int.{ℤ}
use dsc_zookeeper.Znode.Types.{ZNode, Session, Outcome, ok, ◌>>=◌, Json, int_beq}
use dsc_zookeeper.Znode.Store.{Store}
use dsc_zookeeper.Znode.Watch.{
  WatchCache, version_of, Rewatch, rewatch, session_of, rewatched, update_watch_cache,
}

-- Each path of the watch list has another version than the one that the session knows.
abbrev pub HasChanged : Store → List Str → List ℤ → Type 0
HasChanged store [] versions = Unit
HasChanged store (path ∷ paths) [] = ⊥
HasChanged store (path ∷ paths) (v ∷ versions) =
    ((version : ℤ) × (version_of store path ≡ ok version) × (int_beq version v ≡ false))
    × HasChanged store paths versions

rewatch-step :
    (store : Store) (sessionid path : Str) (paths : List Str) (v version : ℤ) (versions : List ℤ)
    (r : Rewatch)
    → version_of store path ≡ ok version
    → int_beq version v ≡ false
    → rewatch store sessionid (path ∷ paths) (v ∷ versions) r
      ≡ rewatch store sessionid paths versions (record r { triggered = r.triggered ++ path ∷ [] })
unfolding rewatch
rewatch-step store sessionid path paths v version versions r found other =
    rw (found, rewatch) (rw other refl)

rewatch-HasChanged :
    (store : Store) (sessionid : Str) (paths : List Str) (versions : List ℤ) (r : Rewatch)
    → HasChanged store paths versions
    → rewatch store sessionid paths versions r ≡ ok (record r { triggered = r.triggered ++ paths })
unfolding rewatch
rewatch-HasChanged store sessionid [] versions r h = rw (append-nil r.triggered) refl
rewatch-HasChanged store sessionid (path ∷ paths) [] r h = absurd h
rewatch-HasChanged store sessionid (path ∷ paths) (v ∷ versions) r ((version, found, other), h) =
    let r' = record r { triggered = r.triggered ++ path ∷ [] } in
    rewatch-step store sessionid path paths v version versions r found other
    ∙ rewatch-HasChanged store sessionid paths versions r' h
    ∙ rw (append_assoc r.triggered (path ∷ []) paths) refl

-- The call behind its test of the cache, with the session that it reads.
after_session :
    Json
    → Store
    → WatchCache
    → Str
    → ZNode × Session
    → Outcome (WatchCache × Option Bytes × List Str)
after_session json store w sessionid (session_znode, session) = do
  r ←
      rewatch store sessionid session.watchlist session.versionlist
        (record { cache = w; kept = []; triggered = [] })
  ok (rewatched json sessionid session_znode session r)

update_watch_cache-after_session :
    (json : Json) (store : Store) (w : WatchCache) (sessionid : Str)
    → w.is_init ≡ true
    → update_watch_cache json store w sessionid
      ≡ (session_of json store sessionid >>= after_session json store w sessionid)
unfolding update_watch_cache after_session
update_watch_cache-after_session json store w sessionid on = rw (on, update_watch_cache) refl

-- On a watch cache that was set up, a session that can be read and of whose watched znodes every
-- one has another version than the session knows gets no request and no path: none of the changes
-- is reported, and the cache is as it was.
pub update_watch_cache-HasChanged :
    (json : Json) (store : Store) (w : WatchCache) (sessionid : Str) (session_znode : ZNode)
    (session : Session)
    → w.is_init ≡ true
    → session_of json store sessionid ≡ ok (session_znode, session)
    → HasChanged store session.watchlist session.versionlist
    → update_watch_cache json store w sessionid ≡ ok (w, none, [])
unfolding after_session
update_watch_cache-HasChanged json store w sessionid session_znode session on found changed =
    let start : Rewatch = record { cache = w; kept = []; triggered = [] } in
    update_watch_cache-after_session json store w sessionid on
    ∙ ap (λ (o : Outcome (ZNode × Session)). o >>= after_session json store w sessionid) found
    ∙ ap (λ (o : Outcome Rewatch). o >>= λ r. ok (rewatched json sessionid session_znode session r))
        (rewatch-HasChanged store sessionid session.watchlist session.versionlist start changed)
