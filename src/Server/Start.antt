-- ===== src/Server/Start.antt =====
-- ServerMain of main/server.go: the variables when the listeners start.
use dsc_zookeeper.Prelude.{ℕ, List, [], false, none, some, length}
use dsc_zookeeper.Proposals.State.{init}
use dsc_zookeeper.Proposals.Process.{pause}
use dsc_zookeeper.Znode.Store.{Store}
use dsc_zookeeper.Znode.Check.{Cache}
use dsc_zookeeper.Znode.Watch.{init_watch_cache}
use dsc_zookeeper.Election.{election_init, initiate_ring_entry}
use dsc_zookeeper.Server.State.{Env, Server, zab_env, ring_env}

-- The leader's cache before it is filled.
abbrev pub no_cache : Cache
no_cache = record { nodes = []; is_init = false }

-- The variables before ServerMain, for what rand.Intn will return, the files, and the epoch and the
-- count that were restored from disk.
abbrev pub blank : Env → List ℕ → Store → ℕ × ℕ → Server
blank env random store restored = record {
  pending = [];
  local_sessions = [];
  timestamps = none;
  random = random;
  to_clients = [];
  heartbeats = [];
  store = store;
  watches = record { watches = []; is_init = false };
  zab = init (length env.servers) (some no_cache) restored;
  ring = record {
    addresses = env.servers;
    coordinator = [];
    ring_discover_initiator = false;
    sent = [];
  };
}

unfoldable pub server_main : Env → List ℕ → Store → ℕ × ℕ → Server
server_main env random store restored =
    let s = blank env random store restored in
    let s' : Server = record s { zab = pause (zab_env env s) s.zab } in
    record s' {
      ring = initiate_ring_entry (ring_env env s') (election_init (ring_env env s'));
      watches = init_watch_cache;
    }
