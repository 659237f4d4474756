-- ===== src/Server/Failures/Alone.antt =====
-- monitorConnectionToServer of main/server.go, the broadcasts of the protocol and the ring of the
-- election.
use dsc_zookeeper.Prelude.{Str, str_eq, true, false, ◌==◌, ◌≡◌, refl}
use dsc_zookeeper.Proposals.Types.{ToSendMessage}
use dsc_zookeeper.Proposals.Cluster.{reaches, is_among}
use dsc_zookeeper.Election.{
  reorder_ring, split_at, dispatch_message, start_ring_message, initiate_election_discovery,
}
use dsc_zookeeper.Server.State.{Env, Server, zab_env, ring_env}
use dsc_zookeeper.Server.Failures.{monitor_connection_to_server}

-- After monitorConnectionToServer has handled the failure of a node that is not the coordinator,
-- a broadcast of the server reaches no node, and the start of an election sends no message.
pub monitor_connection_to_server-alone :
    (env : Env) (s : Server) (failed_node name : Str) (m : ToSendMessage)
    → (s.ring.coordinator == failed_node) ≡ false
    → m.broadcast ≡ true
    → let s' = monitor_connection_to_server env failed_node s in
      (reaches (zab_env env s') m name ≡ false)
      × (initiate_election_discovery (ring_env env s') s'.ring ≡ s'.ring)
unfolding monitor_connection_to_server reaches is_among initiate_election_discovery
    start_ring_message reorder_ring split_at dispatch_message
monitor_connection_to_server-alone env s failed_node name m other all =
    (rw (other, all) refl, rw other refl)
