-- ===== src/Examples/Networks.antt =====
-- A node with a connection that is broken, and one that is not.
use dsc_zookeeper.Prelude.{
  Str, str_eq, str_beq, nat_eq, List, [], ◌∷◌, ◌++◌, length, true, not, ◌==◌, none, lookup, ◌≡◌,
  refl,
}
use dsc_zookeeper.Proposals.Types.{NetworkMessage, zab}
use dsc_zookeeper.Connections.{Env, Network, load, broadcast}
use dsc_zookeeper.Connections.Removals.{is_among, removals}
use dsc_zookeeper.Connections.Broken.{broadcast-broken}
use dsc_zookeeper.Examples.Codecs.{server1, server2, server3}

abbrev message : NetworkMessage
message = record { remote = server2; msg_type = zab; message = 1 ∷ [] }

-- Connection 4 is broken.
abbrev env : Env
env = record {
  name = server1;
  is_server = true;
  servers = server1 ∷ server2 ∷ server3 ∷ [];
  codec = record { marshal = (λ m. m.message); unmarshal = (λ bytes. (message, true)) };
  dials = (λ name. []);
  accepts = (λ c. not (c == 4));
  remote_addr = (λ c. server2);
}

abbrev network : Network
network = record {
  read_map = [];
  write_map = (server2, 4) ∷ (server3, 5) ∷ [];
  new_write_chan = [];
  remove_write_chan = [];
  failed_sends = [];
  receive_channel = [];
  sent = [];
  closed = [];
  receiving = [];
  monitored = [];
}

broadcast-broken_example :
    let sent = broadcast env (1 ∷ []) zab network in
    let t = removals env (length sent.remove_write_chan) sent in
    (failed : List Str) × (t.failed_sends ≡ [] ++ failed)
    × (is_among server2 failed ≡ true)
    × (load server2 t.write_map ≡ none)
    × (t.remove_write_chan ≡ [])
unfolding load lookup str_beq
broadcast-broken_example = broadcast-broken env (1 ∷ []) zab network server2 refl refl
