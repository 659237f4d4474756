-- ===== src/Server/Failures.antt =====
-- The monitors of main/server.go, which get the names that the connection manager could not send
-- to. Both take from the same channel, so each name comes to one of them only.
pub mod Alone
use dsc_zookeeper.Prelude.{
  Str, str_eq, List, [], Bool, false, ◌==◌, if◌then◌else◌, Option, none, some, ◌>>=◌, lookup,
  delete,
}
use dsc_zookeeper.Znode.Encode.{encode_delete_session}
use dsc_zookeeper.Election.{
  MessageWrapper, new_ring, reorder_ring, handle_new_ring_message, initiate_election_discovery,
}
use dsc_zookeeper.Server.State.{Env, Server, no_message, ring_env}
use dsc_zookeeper.Server.Requests.{generate_and_send_request}

module _ (env : Env) where
  abbrev drop_client : Str → Option Str → Server → Option Server
  drop_client failed_node none s = some s
  drop_client failed_node (some session_id) s = do
    s' ←
        generate_and_send_request env false (encode_delete_session env.json session_id) no_message s
    some (record s' { local_sessions = delete failed_node s'.local_sessions })

  unfoldable pub monitor_connection_to_client : Str → Server → Option Server
  monitor_connection_to_client failed_node s =
      drop_client failed_node (lookup failed_node s.local_sessions) s

  -- The message that monitorConnectionToServer hands to HandleNewRingMessage.
  abbrev pub updated_ring : MessageWrapper
  updated_ring = record {
    message_type = new_ring;
    source = env.name;
    visited_nodes = [];
    zxid_list = [];
    payload = [];
  }

  unfoldable pub monitor_connection_to_server : Str → Server → Server
  monitor_connection_to_server failed_node s =
      if s.ring.coordinator == failed_node
      then record s { ring = initiate_election_discovery (ring_env env s) s.ring }
      else record s {
        ring =
            record (handle_new_ring_message (ring_env env s) (reorder_ring env.servers env.name)
              updated_ring s.ring) { addresses = updated_ring.payload };
      }
