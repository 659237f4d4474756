-- ===== src/Connections.antt =====
-- internal/ConnectionManager: the maps of connections, the sends and broadcasts, and the rounds of
-- the goroutines that manage the connections. A deadline that passes is a write or a dial that
-- fails.
pub mod Failed
pub mod Removals
pub mod Broken
pub mod Start
pub mod Local
use dsc_zookeeper.Prelude.{
  ℕ, zero, suc, ◌-◌, Str, str_eq, nat_eq, Bytes, List, [], ◌∷◌, ◌++◌, map, length, Bool, true,
  false, not, ◌==◌, ltb, if◌then◌else◌, Option, none, some, ◌>>=◌, lookup, insert, delete, Codec,
}
use dsc_zookeeper.Proposals.Types.{NetworkMessage, NetMessageType}

-- A net.Conn, by a number.
abbrev pub Conn : Type 0
Conn = ℕ

pub record NamedConnection : Type 0 where
  pub remote : Str
  pub connection : Conn

abbrev pub SafeConnectionMap : Type 0
SafeConnectionMap = List (Str × Conn)

unfoldable pub store : Str → Conn → SafeConnectionMap → SafeConnectionMap
store key val smap = insert key val smap

unfoldable pub load : Str → SafeConnectionMap → Option Conn
load key smap = lookup key smap

unfoldable pub remove : Str → SafeConnectionMap → SafeConnectionMap
remove key smap = delete key smap

-- The configuration and JSON, and what package net does: the results of the dials to a server
-- until the deadline, whether a write succeeds, and the address of the other side.
pub record Env : Type 0 where
  pub name : Str
  pub is_server : Bool
  pub servers : List Str
  pub codec : Codec NetworkMessage
  pub dials : Str → List (Option Conn)
  pub accepts : Conn → Bool
  pub remote_addr : Conn → Str

-- The package variables. A channel is the list of what it holds; `sent` are the writes that
-- succeeded, `closed` the connections that this node closed, and `receiving` and `monitored` those
-- that a goroutine reads.
pub record Network : Type 0 where
  pub read_map : SafeConnectionMap  -- ipToConnectionRead
  pub write_map : SafeConnectionMap  -- ipToConnectionWrite
  pub new_write_chan : List NamedConnection
  pub remove_write_chan : List NamedConnection
  pub failed_sends : List Str
  pub receive_channel : List NetworkMessage
  pub sent : List (Conn × Bytes)
  pub closed : List Conn
  pub receiving : List Conn
  pub monitored : List NamedConnection

abbrev pub first_some : List (Option Conn) → Option Conn
first_some [] = none
first_some (none ∷ rest) = first_some rest
first_some (some c ∷ rest) = some c

module _ (env : Env) where
  -- attemptConnection: the connection, if there is one, is monitored.
  abbrev with_dialled : Str → Option Conn → Network → Option NamedConnection × Network
  with_dialled server_name none s = (none, s)
  with_dialled server_name (some c) s =
      let named : NamedConnection = record { remote = server_name; connection = c } in
      (some named, record s { monitored = s.monitored ++ named ∷ [] })

  unfoldable pub attempt_connection : Str → Network → Option NamedConnection × Network
  attempt_connection server_name s = with_dialled server_name (first_some (env.dials server_name)) s

  -- One line on a connection: the flag says whether the write succeeded, and a connection that
  -- failed is handed over to be removed.
  abbrev write_line : NamedConnection → Bytes → Network → Network × Bool
  write_line named line s =
      if env.accepts named.connection
      then (record s { sent = s.sent ++ (named.connection, line) ∷ [] }, true)
      else (record s { remove_write_chan = s.remove_write_chan ++ named ∷ [] }, false)

  -- The message in the name of this node, and the newline.
  abbrev pub line_of : NetworkMessage → Bytes
  line_of to_send = env.codec.marshal (record to_send { remote = env.name }) ++ b'\n' ∷ []

  abbrev with_new : Option NamedConnection × Network → Bytes → Network × Bool
  with_new (none, s) line = (s, false)
  with_new (some named, s) line =
      write_line named line (record s { new_write_chan = s.new_write_chan ++ named ∷ [] })

  abbrev by_connection : Option Conn → Str → Bytes → Network → Network × Bool
  by_connection (some c) remote line s =
      write_line (record { remote = remote; connection = c }) line s
  by_connection none remote line s = with_new (attempt_connection remote s) line

  -- SendMessage: the flag says that it returned no error.
  unfoldable pub send_message : NetworkMessage → Network → Network × Bool
  send_message to_send s =
      by_connection (load to_send.remote s.write_map) to_send.remote (line_of to_send) s

  -- The loop of the broadcasts, whose goroutines run one after the other.
  unfoldable pub custom_broadcast : List Str → Bytes → NetMessageType → Network → Network
  custom_broadcast [] to_send msg_type s = s
  custom_broadcast (name ∷ dests) to_send msg_type s = custom_broadcast dests to_send msg_type (
      if name == env.name
      then s
      else (send_message (record { remote = name; msg_type = msg_type; message = to_send }) s).0)

  unfoldable pub server_broadcast : Bytes → NetMessageType → Network → Network
  server_broadcast to_send msg_type s = custom_broadcast env.servers to_send msg_type s

  unfoldable pub broadcast : Bytes → NetMessageType → Network → Network
  broadcast to_send msg_type s =
      custom_broadcast (map (λ (p : Str × Conn). p.0) s.write_map) to_send msg_type s

  -- monitorConnection, when its read ends with EOF. It goes on after any other error.
  unfoldable pub monitor_connection : NamedConnection → Bool → Network → Network
  monitor_connection named eof s =
      if eof then record s { remove_write_chan = s.remove_write_chan ++ named ∷ [] } else s

  -- One line that startReceiving reads, without its newline; bytes that are no message end the
  -- process.
  abbrev received : NetworkMessage × Bool → Network → Option Network
  received (msg, true) s = some (record s { receive_channel = s.receive_channel ++ msg ∷ [] })
  received (msg, false) s = none

  unfoldable pub start_receiving : Bytes → Network → Option Network
  start_receiving line s = received (env.codec.unmarshal line) s

  -- The loop of connectToSystemServers on what the select gets: the result of an attempt, or `none`
  -- from the timer.
  unfoldable pub collect :
      ℕ → List (Option (Option NamedConnection)) → List NamedConnection → List NamedConnection
  collect zero events found = found
  collect (suc missing) [] found = found
  collect (suc missing) (none ∷ events) found = found
  collect (suc missing) (some none ∷ events) found = collect (suc missing) events found
  collect (suc missing) (some (some named) ∷ events) found =
      collect missing events (found ++ named ∷ [])

  unfoldable pub connect_to_system_servers :
      List Str → List (Option (Option NamedConnection)) → Network → Network
  connect_to_system_servers server_names events s = record s {
    new_write_chan =
        s.new_write_chan
        ++ collect (if env.is_server then length server_names - 1 else length server_names) events
            [];
  }

  -- One round of writeConnectionManager.
  abbrev replaced : Option Conn → Network → Network
  replaced none s = s
  replaced (some old) s = record s { closed = s.closed ++ old ∷ [] }

  unfoldable pub write_connection_manager : NamedConnection → Network → Network
  write_connection_manager new_connection s =
      replaced (load new_connection.remote s.write_map)
        (record s { write_map = store new_connection.remote new_connection.connection s.write_map })

  -- One round of readConnectionManager.
  abbrev accepted : Option Conn → Conn → Network → Network
  accepted (some old) new_connection s = record s {
    write_map = store (env.remote_addr new_connection) new_connection s.write_map;
    closed = s.closed ++ old ∷ [];
  }
  accepted none new_connection s = record s {
    receiving = s.receiving ++ new_connection ∷ [];
    read_map = store (env.remote_addr new_connection) new_connection s.read_map;
  }

  unfoldable pub read_connection_manager : Conn → Network → Network
  read_connection_manager new_connection s =
      accepted (load (env.remote_addr new_connection) s.read_map) new_connection s

  -- One round of removeConnectionManager, if its channel holds anything.
  abbrev removed : List NamedConnection → Network → Network
  removed [] s = s
  removed (named ∷ rest) s = record s {
    remove_write_chan = rest;
    write_map = remove named.remote s.write_map;
    closed = s.closed ++ named.connection ∷ [];
    failed_sends = s.failed_sends ++ named.remote ∷ [];
  }

  unfoldable pub remove_connection_manager : Network → Network
  remove_connection_manager s = removed s.remove_write_chan s
