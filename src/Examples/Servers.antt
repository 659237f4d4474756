-- ===== src/Examples/Servers.antt =====
-- Servers with a topic, sessions and pending requests.
use dsc_zookeeper.Prelude.{
  ℕ, ◌+◌, Str, str_eq, str_beq, nat_eq, Bytes, List, [], ◌∷◌, ◌++◌, map, Bool, true, false, Option,
  none, some, ◌>>=◌, lookup, insert, codes, Codec, ◌≡◌, ◌≢◌, ◌⊎◌, refl, inr, arith,
}
use dsc_zookeeper.Prelude.Int.{pos}
use dsc_zookeeper.Prelude.Decimal.{itoa, atoi}
use dsc_zookeeper.Proposals.Types.{Request, write, client_msg, req}
use dsc_zookeeper.Proposals.State.{init}
use dsc_zookeeper.Proposals.Cluster.{reaches}
use dsc_zookeeper.Znode.FilePath.{clean, dir, base, join}
use dsc_zookeeper.Znode.Types.{ZNode, WriteRequest, Session, ok, new_znode}
use dsc_zookeeper.Znode.Store.{Store, disk_path, get_data, exists_znode, write_znode}
use dsc_zookeeper.Znode.Check.{seqname}
use dsc_zookeeper.Znode.Write
use dsc_zookeeper.Znode.Watch.{check_watch, check_paths, trigger_all, get_watching_sessions}
use dsc_zookeeper.Election.{MessageWrapper, heartbeat, initiate_election_discovery}
use dsc_zookeeper.Server.State.{
  Env, Server, PendingRequest, object, text, zab_env, ring_env, send_json_message_to_client,
}
use dsc_zookeeper.Server.Requests.{
  server_number, unused_id, generate_unique_request_id, generate_and_send_request,
}
use dsc_zookeeper.Server.Requests.Fresh.{generate_unique_request_id-differ}
use dsc_zookeeper.Server.Requests.Sent.{IsPending}
use dsc_zookeeper.Server.Topics.{
  message_path, next_msg_num, find_max_message_number, max_message_number,
}
use dsc_zookeeper.Server.Topics.Next.{message_path-seqname}
use dsc_zookeeper.Server.Commands.{send_messages}
use dsc_zookeeper.Server.Commands.Subscription.{message_to, final, send_messages-all}
use dsc_zookeeper.Server.Committed.{commit_one, committed_listener, trigger_watches, answer}
use dsc_zookeeper.Server.Committed.Kept.{committed_listener-kept}
use dsc_zookeeper.Server.Committed.Answers.{commit_one-read}
use dsc_zookeeper.Server.Committed.Ends.{returned, committed_listener-sync}
use dsc_zookeeper.Server.Sessions.{
  sync_listener, Timestamps, is_expired, expire, remove_expired_sessions,
}
use dsc_zookeeper.Server.Sessions.Expiry.{keep, deletion, remove_expired_sessions-times}
use dsc_zookeeper.Server.Sessions.Orders.{bag, asks, sync_listener-bag}
use mathlib.Core.List.Perm
use dsc_zookeeper.Server.Failures.{monitor_connection_to_server}
use dsc_zookeeper.Server.Failures.Alone.{monitor_connection_to_server-alone}
use dsc_zookeeper.Examples.Codecs.{
  server1, server2, server3, zab_codec, proposal_codec, request_codec,
}

-- Empty bytes are a sync request, and any others set the data of a session.
abbrev unmarshal_request : Bytes → WriteRequest × Bool
unmarshal_request [] = (record { request = codes "sync"; znodes = [] }, true)
unmarshal_request (b ∷ bs) = (
  record { request = codes "setdata"; znodes = new_znode (codes "sessionDir/5") bs (pos 1) ∷ [] },
  true,
)

abbrev requests : Codec WriteRequest
requests = record { marshal = (λ r. r.request); unmarshal = unmarshal_request }

abbrev session : Bytes → Session
session id = record {
  id = id;
  watchlist = [];
  versionlist = [];
  ephemeral_nodes = [];
  timeout = pos 2;
}

abbrev sessions : Codec Session
sessions = record { marshal = (λ s. s.id); unmarshal = (λ bytes. (session bytes, true)) }

abbrev wrapper : MessageWrapper
wrapper = record {
  message_type = heartbeat;
  source = [];
  visited_nodes = [];
  zxid_list = [];
  payload = [];
}

abbrev pub env_of : Str → Env
env_of name = record {
  name = name;
  test_mode = [];
  servers = server1 ∷ server2 ∷ server3 ∷ [];
  json = record { requests = requests; sessions = sessions };
  decode = (λ bytes. object ((codes "message", text bytes) ∷ []));
  encode = (λ obj. []);
  session_info = record { marshal = (λ ids. []); unmarshal = (λ bytes. ([], true)) };
  wrappers = record { marshal = (λ w. []); unmarshal = (λ bytes. (wrapper, true)) };
  zab_codec = zab_codec;
  proposal_codec = proposal_codec;
  request_codec = request_codec;
  reachable = (λ name. true);
  rounds = 5;
}

-- A topic with two messages, and one session.
abbrev topic : ZNode
topic = record (new_znode (codes "t") [] (pos 0)) { children = codes "msg_1" ∷ codes "msg_2" ∷ [] }

abbrev pub first : ZNode
first = new_znode (codes "t/msg_1") (7 ∷ []) (pos 0)

abbrev pub second : ZNode
second = new_znode (codes "t/msg_2") (8 ∷ []) (pos 0)

abbrev files : Store
files =
    (codes "znodeDir/t", topic)
    ∷ (codes "znodeDir/t/msg_1", first)
    ∷ (codes "znodeDir/t/msg_2", second)
    ∷ (codes "znodeDir/sessionDir/5", new_znode (codes "sessionDir/5") [] (pos 0))
    ∷ []

-- The request of a client that read a znode and set a watch.
abbrev read : PendingRequest
read = record {
  is_from_client = true;
  original_client_msg = record {
    remote = codes "c";
    msg_type = client_msg;
    message = codes "GETDATA";
  };
  request = 1 ∷ [];
}

abbrev times : Timestamps
times = (codes "5", 3) ∷ (codes "6", 20000000000) ∷ []

abbrev pub server : Server
server = record {
  pending = (1000000007, read) ∷ [];
  local_sessions = (codes "c", codes "5") ∷ [];
  timestamps = some times;
  random = 7 ∷ 8 ∷ 9 ∷ [];
  to_clients = [];
  heartbeats = [];
  store = files;
  watches = record { watches = []; is_init = true };
  zab = init 3 (some (record { nodes = []; is_init = true })) (1, 4);
  ring = record {
    addresses = server1 ∷ server2 ∷ server3 ∷ [];
    coordinator = server1;
    ring_discover_initiator = false;
    sent = [];
  };
}

abbrev or_server : Option Server → Server
or_server none = server
or_server (some s) = s

generate_unique_request_id-differ_example :
    (◌≢◌ {A = ℕ} 1000000008 2000000007) × (lookup 1000000008 server.pending ≡ none)
unfolding generate_unique_request_id unused_id server_number lookup
generate_unique_request_id-differ_example =
    generate_unique_request_id-differ (env_of server1) (env_of server2) server server 1000000008
      2000000007 (9 ∷ []) (8 ∷ 9 ∷ []) (λ e. cc) refl refl

message_path-seqname_example :
    seqname
      (record { nodes = (codes "t", topic) ∷ []; is_init = true })
      (new_znode (codes "t/msg") [] (pos 0))
    ≡ ok (record (new_znode (codes "t/msg") [] (pos 0)) {
      path = message_path (codes "t") (next_msg_num topic.children);
    })
unfolding next_msg_num find_max_message_number max_message_number atoi itoa clean dir base join
    lookup str_beq
message_path-seqname_example =
    message_path-seqname (record { nodes = (codes "t", topic) ∷ []; is_init = true })
      (new_znode (codes "t/msg") [] (pos 0)) topic (codes "t") refl refl refl refl refl
      ((1, omega arith, refl), ((2, omega arith, refl), tt))

-- The messages 1 and 2 are there, and 3 is not.
send_messages-all_example :
    send_messages (env_of server1) 3 (codes "t") (pos 1) (codes "c") server
    ≡ some (record server {
      to_clients =
          []
          ++ map (message_to (env_of server1) (codes "t") (codes "c")) (first ∷ second ∷ [])
          ++ final (env_of server1) (codes "t") (codes "c") (1 + 2) ∷ [];
    })
unfolding get_data exists_znode disk_path clean lookup str_beq itoa
send_messages-all_example =
    send_messages-all (env_of server1) (codes "t") (codes "c") (first ∷ second ∷ []) 3 1 server
      (omega arith) (refl, (refl, tt)) refl

monitor_connection_to_server-alone_example :
    let s' = monitor_connection_to_server (env_of server2) server3 server in
    (reaches
        (zab_env (env_of server2) s')
        (record { msg = record { zab_type = req; content = [] }; broadcast = true; target = [] })
        server3
      ≡ false)
    × (initiate_election_discovery (ring_env (env_of server2) s') s'.ring ≡ s'.ring)
unfolding str_beq
monitor_connection_to_server-alone_example =
    monitor_connection_to_server-alone (env_of server2) server server3 server3
      (record { msg = record { zab_type = req; content = [] }; broadcast = true; target = [] }) refl
      refl

abbrev sync_request : Request
sync_request = record { req_type = write; req_number = 5; content = [] }

abbrev set_request : Request
set_request = record { req_type = write; req_number = 1000000007; content = 1 ∷ 2 ∷ [] }

committed_listener-sync_example :
    committed_listener (env_of server1) (set_request ∷ sync_request ∷ set_request ∷ []) server
    ≡ (committed_listener (env_of server1) (set_request ∷ []) server >>= returned)
committed_listener-sync_example =
    committed_listener-sync (env_of server1) sync_request refl (set_request ∷ []) (set_request ∷ [])
      server

abbrev after_read : Option (Server × Bool) → Server
after_read none = server
after_read (some (s, on)) = s

abbrev read_committed : Server
read_committed = after_read (commit_one (env_of server1) set_request server)

commit_one-read_example : lookup 1000000007 read_committed.pending ≡ some read
unfolding commit_one trigger_watches answer check_watch check_paths trigger_all
    get_watching_sessions Write.write Write.write_request Write.on_first Write.write_setdata
    Write.write_op write_znode disk_path clean lookup insert str_beq
commit_one-read_example =
    commit_one-read (env_of server1) set_request server read_committed true read
      ((codes "message", text (codes "GETDATA")) ∷ [])
      (write_znode files (new_znode (codes "sessionDir/5") (2 ∷ []) (pos 1)))
      (codes "sessionDir/5" ∷ []) refl refl refl (inr (inr refl)) refl refl

-- The commit of a setdata of a client.
abbrev change : PendingRequest
change = record read {
  original_client_msg = record {
    remote = codes "c";
    msg_type = client_msg;
    message = codes "SETDATA";
  };
}

abbrev asking : Server
asking = record server { pending = (1000000007, change) ∷ [] }

-- A second client waits for the answer to a request of its own.
abbrev waiting : Server
waiting = record asking { pending = (1000000009, read) ∷ asking.pending }

abbrev after_set : Server
after_set =
    or_server (do (t, on) ← committed_listener (env_of server1) (set_request ∷ []) waiting; some t)

committed_listener-kept_example : lookup 1000000009 after_set.pending ≡ some read
unfolding committed_listener commit_one answer trigger_watches check_watch check_paths trigger_all
    get_watching_sessions Write.write Write.write_request Write.on_first Write.write_setdata
    Write.write_op write_znode disk_path clean lookup insert str_beq send_json_message_to_client
committed_listener-kept_example =
    committed_listener-kept (env_of server1) 1000000009 read (set_request ∷ []) waiting after_set
      true (refl, tt) refl refl

-- One session has expired, and the other one has not.
abbrev swept : Server
swept = or_server (remove_expired_sessions (env_of server1) 25000000000 server)

remove_expired_sessions-times_example :
    (left : Timestamps) × (swept.timestamps ≡ some left)
    × ((other : Str) → lookup other left ≡ keep 25000000000 (lookup other times))
    × ((is_expired 25000000000 3 ≡ true)
          × (lookup (codes "5") left ≡ none)
          × IsPending (deletion (env_of server1) (codes "5")) swept
        ⊎ (is_expired 25000000000 3 ≡ false) × (lookup (codes "5") left ≡ some 3))
unfolding remove_expired_sessions expire generate_and_send_request generate_unique_request_id
    unused_id server_number lookup str_beq
remove_expired_sessions-times_example =
    remove_expired_sessions-times (env_of server1) 25000000000 times server swept (codes "5") 3
      (refl, (refl, tt)) refl refl refl

-- Two pending requests, and the map in the other order.
abbrev two : Server
two = record server { pending = (1000000007, read) ∷ (1000000008, read) ∷ [] }

abbrev other_way : List (ℕ × PendingRequest)
other_way = (1000000008, read) ∷ (1000000007, read) ∷ []

sync_listener-bag_example :
    (t : Server) × (t' : Server) × (sync_listener (env_of server2) 0 two ≡ some t)
    × (sync_listener (env_of server2) 0 (record two { pending = other_way }) ≡ some t')
    × (bag t.zab.sending_queue.items ≡ asks (env_of server2) server1 [] (bag two.pending))
    × (bag t'.zab.sending_queue.items ≡ bag t.zab.sending_queue.items)
unfolding str_beq init
sync_listener-bag_example =
    sync_listener-bag (env_of server2) 0 two other_way refl (Perm.swap _ _ _)
