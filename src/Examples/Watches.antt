-- ===== src/Examples/Watches.antt =====
-- Watches of a concrete session.
use dsc_zookeeper.Prelude.{
  str_eq, str_beq, Bytes, [], ◌∷◌, Bool, true, if◌then◌else◌, none, ◌≡◌, refl, codes, lookup,
  delete,
}
use dsc_zookeeper.Prelude.Int.{pos}
use dsc_zookeeper.Znode.FilePath.{clean, join}
use dsc_zookeeper.Znode.Types.{ZNode, Session, Json, ok, new_znode}
use dsc_zookeeper.Znode.Store.{Store, get_data, disk_path}
use dsc_zookeeper.Znode.Watch.{
  WatchCache, get_watching_sessions, check_watch, check_paths, trigger_all, trigger, remove_watch,
  version_of, update_watch_cache,
}
use dsc_zookeeper.Znode.Watch.Trigger.{among, check_watch-cleared}
use dsc_zookeeper.Znode.Watch.Restored.{update_watch_cache-HasChanged}

abbrev watching : Session
watching = record {
  id = codes "s";
  watchlist = codes "x" ∷ [];
  versionlist = pos 3 ∷ [];
  ephemeral_nodes = [];
  timeout = pos 0;
}

abbrev unwatching : Session
unwatching = record watching { watchlist = []; versionlist = [] }

-- Stand-ins for JSON: a session whose bytes are empty watches nothing.
abbrev read_session : Bytes → Session × Bool
read_session [] = (unwatching, true)
read_session (c ∷ cs) = (watching, true)

abbrev write_session : Session → Bytes
write_session s = elim s.watchlist [ [] ↦ [] | x ∷ xs ↦ 1 ∷ [] ]

abbrev json : Json
json = record {
  requests = record {
    marshal = (λ r. r.request);
    unmarshal = (λ bytes. (record { request = bytes; znodes = [] }, true));
  };
  sessions = record { marshal = write_session; unmarshal = read_session };
}

abbrev session_znode : ZNode
session_znode = new_znode (codes "sessionDir/s") (1 ∷ []) (pos 2)

-- The watched znode is at version 4.
abbrev store : Store
store =
    (codes "znodeDir/sessionDir/s", session_znode)
    ∷ (codes "znodeDir/x", new_znode (codes "x") [] (pos 4))
    ∷ []

abbrev cache : WatchCache
cache = record {
  watches = (codes "x", codes "s" ∷ []) ∷ (codes "y", codes "s" ∷ []) ∷ [];
  is_init = true;
}

abbrev cleared : WatchCache
cleared = record cache { watches = (codes "y", codes "s" ∷ []) ∷ [] }

check_watch-cleared_example :
    get_watching_sessions cleared (codes "x")
    ≡ (if among (codes "x") (codes "x" ∷ []) then [] else get_watching_sessions cache (codes "x"))
unfolding check_watch check_paths trigger_all trigger remove_watch get_watching_sessions get_data
    disk_path clean join str_beq lookup delete
check_watch-cleared_example =
    check_watch-cleared json store (codes "x" ∷ []) cache cleared
      (codes "watch_trigger", codes "s" ∷ []) (codes "x") refl refl

update_watch_cache-HasChanged_example :
    update_watch_cache json store (record cache { watches = [] }) (codes "s")
    ≡ ok (record cache { watches = [] }, none, [])
unfolding get_data disk_path clean join str_beq lookup version_of
update_watch_cache-HasChanged_example =
    update_watch_cache-HasChanged json store (record cache { watches = [] }) (codes "s")
      session_znode watching refl refl ((pos 4, refl, refl), tt)
