-- ===== src/Client/State.antt =====
-- The package variables of main/client.go, its sends, and its search for a server.
use dsc_zookeeper.Prelude.{
  ℕ, Str, str_eq, Bytes, List, [], ◌∷◌, ◌++◌, Bool, true, false, ◌==◌, if◌then◌else◌, codes, ◌≡◌,
  refl,
}
use dsc_zookeeper.Prelude.Int.{ℤ}
use dsc_zookeeper.Server.State.{Object, Decoded, text, reply}

-- The configuration, JSON, and the servers to which SendMessage succeeds.
pub record Env : Type 0 where
  pub servers : List Str
  pub decode : Bytes → Decoded
  pub reachable : Str → Bool

-- `sent` are the objects that went to servers, and `spams` the goroutines of the spam command, each
-- with its topic and the number of its next message. What is printed is left out.
pub record Client : Type 0 where
  pub connected_server : Str
  pub session_id : Str
  pub topic_msg_map : List (Str × ℤ)
  pub exist : Bool
  pub sent : List (Str × Object)
  pub spams : List (Str × ℕ)

module _ (env : Env) where
  -- SendJSONMessage: the flag says that it returned no error.
  unfoldable pub send_json_message : Object → Str → Client → Client × Bool
  send_json_message obj server s =
      if env.reachable server
      then (record s { sent = s.sent ++ (server, obj) ∷ [] }, true)
      else (s, false)

  -- A send whose error is dropped, to the server of the session.
  abbrev pub send : Object → Client → Client
  send obj s = (send_json_message obj s.connected_server s).0

  pub send-reachable :
      (obj : Object) (s : Client)
      → env.reachable s.connected_server ≡ true
      → send obj s ≡ record s { sent = s.sent ++ (s.connected_server, obj) ∷ [] }
  unfolding send_json_message
  send-reachable obj s h = rw (send, send_json_message, h) refl

  abbrev greeting : Str → Object
  greeting session_id =
      if session_id == []
      then reply (codes "START_SESSION") []
      else reply (codes "REESTABLISH_SESSION") ((codes "session_id", text session_id) ∷ [])

  -- The loop of findLiveServer.
  unfoldable pub find_among : List Str → Client → Client × Bool
  find_among [] s = (s, false)
  find_among (server ∷ servers) s =
      let rest = find_among servers s in
      let (s', sent) = send_json_message (greeting s.session_id) server s in
      if sent then (record s' { connected_server = server }, true) else rest

  unfoldable pub find_live_server : Client → Client × Bool
  find_live_server s = find_among env.servers s

  -- One round of monitorClientConnectionToServer.
  unfoldable pub monitor_client_connection_to_server : Str → Client → Client
  monitor_client_connection_to_server failed_node s =
      if failed_node == s.connected_server
      then (find_live_server (record s { connected_server = [] })).0
      else s
