-- ===== src/Examples/Clients.antt =====
-- A client with a session on server1.
use dsc_zookeeper.Prelude.{
  str_eq, str_beq, nat_eq, [], ◌∷◌, ◌++◌, Str, map, ◌+◌, true, false, some, none, lookup, codes,
  ◌≡◌, refl, arith,
}
use dsc_zookeeper.Prelude.Decimal.{itoa}
use dsc_zookeeper.Prelude.Int.{pos}
use dsc_zookeeper.Proposals.Types.{NetworkMessage, client_msg}
use dsc_zookeeper.Znode.FilePath.{clean}
use dsc_zookeeper.Znode.Store.{disk_path, get_data, exists_znode}
use dsc_zookeeper.Server.State.{Server, Object, no_object}
use dsc_zookeeper.Server.Client.{by_kind}
use dsc_zookeeper.Server.Commands.{send_messages}
use dsc_zookeeper.Server.Committed.{path_reply}
use dsc_zookeeper.Client.State.{Env, Client}
use dsc_zookeeper.Client.Commands.{by_word, delete_message, setdata_message}
use dsc_zookeeper.Client.Listener
use dsc_zookeeper.Client.Listener.{listener, watch_next}
use dsc_zookeeper.Client.Versions.{by_word-ends}
use dsc_zookeeper.Client.Subscriptions.{listener-caught_up}
use dsc_zookeeper.Examples.Codecs.{server1}
use dsc_zookeeper.Examples.Servers.{env_of, server, first, second}

abbrev env : Env
env = record { servers = server1 ∷ []; decode = (λ bytes. no_object); reachable = (λ name. true) }

abbrev client : Client
client = record {
  connected_server = server1;
  session_id = codes "5";
  topic_msg_map = [];
  exist = false;
  sent = [];
  spams = [];
}

abbrev message : NetworkMessage
message = record { remote = codes "c"; msg_type = client_msg; message = [] }

by_word-ends_example :
    let o = delete_message env (codes "t") (codes "2") client in
    let o' = setdata_message env (codes "t") (codes "x") (codes "2") in
    (by_word env (codes "delete") (codes "t" ∷ codes "2" ∷ []) client
      ≡ some (record client { sent = [] ++ (server1, o) ∷ [] }))
    × (by_kind (env_of server1) o message server ≡ none)
    × (by_word env (codes "setdata") (codes "t" ∷ codes "x" ∷ codes "2" ∷ []) client
        ≡ some (record client { sent = [] ++ (server1, o') ∷ [] }))
    × (by_kind (env_of server1) o' message server ≡ none)
    × (Listener.by_kind env (path_reply (codes "SETDATA_OK") o') client ≡ none)
unfolding str_beq
by_word-ends_example =
    by_word-ends env (env_of server1) client (codes "t") (codes "x") (codes "2") message server refl
      refl

listener-caught_up_example :
    (s' : Server) × (c' : Client) × (send_messages
        (env_of server1)
        3
        (codes "t")
        (pos 1)
        (codes "c")
        server
      ≡ some s')
    × (listener env (map (λ (p : Str × Object). p.1) s'.to_clients) client ≡ some (c', true))
    × (lookup (codes "t") c'.topic_msg_map ≡ some (pos (1 + 2)))
    × (c'.sent ≡ [] ++ (server1, watch_next env (codes "t") (pos (1 + 2))) ∷ [])
unfolding get_data exists_znode disk_path clean lookup str_beq itoa
listener-caught_up_example =
    listener-caught_up env (env_of server1) (codes "t") (codes "c") (first ∷ second ∷ []) 3 1 server
      client (omega arith) refl (refl, (refl, tt)) refl refl
