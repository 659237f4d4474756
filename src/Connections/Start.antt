-- ===== src/Connections/Start.antt =====
-- Init and startTCPListening of connection_manager.go, and the goroutine that reads from its
-- channel.
use dsc_zookeeper.Prelude.{List, [], ◌∷◌, Bool, if◌then◌else◌, Option, none, some}
use dsc_zookeeper.Connections.{
  Conn, Env, Network, NamedConnection, connect_to_system_servers, read_connection_manager,
}

abbrev no_connections : Network
no_connections = record {
  read_map = [];
  write_map = [];
  new_write_chan = [];
  remove_write_chan = [];
  failed_sends = [];
  receive_channel = [];
  sent = [];
  closed = [];
  receiving = [];
  monitored = [];
}

-- The channels are empty; the loop over the servers has run, the goroutines have not.
unfoldable pub init : Env → List (Option (Option NamedConnection)) → Network
init env events = connect_to_system_servers env env.servers events no_connections

-- What it sends, by the results of Accept: after an error it sends the nil connection. Without the
-- socket it returns at once.
unfoldable pub start_tcp_listening : Bool → List (Option Conn) → List (Option Conn)
start_tcp_listening listens accepts = if listens then accepts else []

-- The loop of readConnectionManager: a nil connection is dereferenced, a panic.
unfoldable pub read_connections : Env → List (Option Conn) → Network → Option Network
read_connections env [] s = some s
read_connections env (none ∷ rest) s = none
read_connections env (some c ∷ rest) s = read_connections env rest (read_connection_manager env c s)
