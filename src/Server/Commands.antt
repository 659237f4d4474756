-- ===== src/Server/Commands.antt =====
-- The cases of mainListener in main/server.go for the messages of clients. json.Marshal does not
-- fail on the requests, so the answers to its errors do not occur.
pub mod Subscription
use dsc_zookeeper.Prelude.{
  ℕ, zero, suc, ◌+◌, Str, str_eq, Bytes, List, [], ◌∷◌, ◌++◌, Bool, true, false, not, ◌==◌, ◌&&◌,
  if◌then◌else◌, Option, none, some, ◌>>=◌, lookup, insert, codes,
}
use dsc_zookeeper.Prelude.Int.{ℤ, pos, negsuc, suc_ℤ}
use dsc_zookeeper.Prelude.Decimal.{itoa}
use dsc_zookeeper.Proposals.Types.{NetworkMessage}
use dsc_zookeeper.Znode.Types.{ZNode, Outcome, ok, err, panic}
use dsc_zookeeper.Znode.Store.{Store, exists_znode, exists_session, get_data, get_children}
use dsc_zookeeper.Znode.Encode.{
  encode_create, encode_delete, encode_setdata, encode_sync, encode_create_session,
  encode_delete_session,
}
use dsc_zookeeper.Znode.Watch.{WatchCache, update_watch_cache, encode_watch}
use dsc_zookeeper.Server.State.{
  Env, Server, Object, Value, error_text, text, number, flag, names, znode, no_message, field,
  get_text, as_text, as_number, value_or, failed, parse_bool, reply, send_json_message_to_client,
  send_info_message_to_client,
}
use dsc_zookeeper.Server.Requests.{intn, generate_and_send_request}
use dsc_zookeeper.Server.Topics.{next_msg_num, message_path, new_message_path}

-- The loop that draws a session id that no session has.
unfoldable pub unused_session : Store → List ℕ → Option (Str × List ℕ)
unused_session store [] = none
unused_session store (r ∷ random) =
    let rest = unused_session store random in
    if exists_session store (itoa (intn r)) then rest else some (itoa (intn r), random)

-- A WATCH_TRIGGER for each path.
unfoldable pub send_triggers : List Str → Str → Server → Server
send_triggers [] client s = s
send_triggers (path ∷ paths) client s = send_triggers paths client (
    send_json_message_to_client (reply (codes "WATCH_TRIGGER") ((codes "path", text path) ∷ []))
      client s)

-- A key of a Go map that has no entry is read as the empty string.
abbrev pub or_empty : Option Str → Str
or_empty none = []
or_empty (some x) = x

-- strconv.Itoa of an int
abbrev pub itoa_int : ℤ → Str
itoa_int (pos n) = itoa n
itoa_int (negsuc n) = b'-' ∷ itoa (n + 1)

-- Where an error leaves a nil pointer that is then read.
abbrev pub readable : Outcome ZNode → Option ZNode
readable (ok z) = some z
readable (err e) = none
readable panic = none

module _ (env : Env) where
  unfoldable pub start_session : NetworkMessage → Server → Option Server
  start_session msg s = do
    drawn ← unused_session s.store s.random
    generate_and_send_request env true (encode_create_session env.json drawn.0 (pos 2)) msg
        (record s { random = drawn.1 })

  -- The watches of a session that is back: the request, if there is one, goes to the leader.
  abbrev rewatch_session :
      Outcome (WatchCache × Option Bytes × List Str) → Str → Server → Option Server
  rewatch_session (ok (w, none, paths)) client s = some (record s { watches = w })
  rewatch_session (ok (w, some request, paths)) client s = do
    s' ← generate_and_send_request env false request no_message (record s { watches = w })
    some (send_triggers paths client s')
  rewatch_session (err e) client s = some s
  rewatch_session panic client s = none

  unfoldable pub reestablish_session : Object → Str → Server → Option Server
  reestablish_session obj client s = do
    session_id ← get_text obj (codes "session_id")
    (if exists_session s.store session_id
        then rewatch_session (update_watch_cache env.json s.store s.watches session_id) client (
            send_json_message_to_client
              (reply (codes "REESTABLISH_SESSION_OK") ((codes "session_id", text session_id) ∷ []))
              client (record s { local_sessions = insert client session_id s.local_sessions }))
        else some
            (send_json_message_to_client (reply (codes "REESTABLISH_SESSION_REJECT") []) client s))

  unfoldable pub end_session : Object → NetworkMessage → Server → Option Server
  end_session obj msg s = do
    session_id ← get_text obj (codes "session_id")
    generate_and_send_request env true (encode_delete_session env.json session_id) msg s

  -- The creation of a topic, and of a message in it.
  abbrev pub create_topic : Str → Str → Bytes
  create_topic topic session_id = encode_create env.json topic [] false false session_id

  abbrev pub create_message : Str → Str → Str → Bytes
  create_message topic content session_id =
      encode_create env.json (new_message_path topic) content false true session_id

  unfoldable pub publish : Object → NetworkMessage → Server → Option Server
  publish obj msg s = do
    topic ← get_text obj (codes "topic")
    (if not (exists_znode s.store topic)
        then (do
          session_id ← get_text obj (codes "session_id")
          generate_and_send_request env true (create_topic topic session_id) msg s)
        else (do
          content ← get_text obj (codes "data")
          session_id ← get_text obj (codes "session_id")
          generate_and_send_request env true (create_message topic content session_id) msg s))

  -- The client's message with the flag that says whether the topic is new.
  abbrev pub with_newtopic : Bool → Object → NetworkMessage → NetworkMessage
  with_newtopic is_new obj msg = record msg {
    message = env.encode (insert (codes "newtopic") (flag is_new) obj);
  }

  -- A watch on the next message of a topic; an error leaves an empty request.
  unfoldable pub subscribe_next : Str → Object → NetworkMessage → Server → Option Server
  subscribe_next topic obj msg s = do
    children ← value_or [] (get_children s.store topic)
    session_id ← get_text obj (codes "session_id")
    (w, request) ←
        value_or (s.watches, [])
          (encode_watch env.json s.store s.watches session_id
            (message_path topic (next_msg_num children)) true)
    generate_and_send_request env true request (with_newtopic false obj msg)
        (record s { watches = w })

  unfoldable pub subscribe : Object → NetworkMessage → Server → Option Server
  subscribe obj msg s = do
    topic ← get_text obj (codes "topic")
    (if not (exists_znode s.store topic)
        then (do
          session_id ← get_text obj (codes "session_id")
          generate_and_send_request env true (create_topic topic session_id)
              (with_newtopic true obj msg) s)
        else subscribe_next topic obj msg s)

  abbrev pub subscribed_message : Str → Bytes → Object
  subscribed_message topic content =
      reply (codes "SUBSCRIBED_MESSAGE")
        ((codes "topic", text topic) ∷ (codes "data", text content) ∷ [])

  abbrev pub get_subscription_ok : Str → ℤ → Object
  get_subscription_ok topic n =
      reply (codes "GET_SUBSCRIPTION_OK")
        ((codes "topic", text topic) ∷ (codes "nextMsg", number n) ∷ [])

  -- The loop of GET_SUBSCRIPTION on fuel. A message that cannot be read is a nil pointer.
  unfoldable pub send_messages : ℕ → Str → ℤ → Str → Server → Option Server
  send_messages zero topic n client s = none
  send_messages (suc rounds) topic n client s =
      let path : Str = topic ++ codes "/msg_" ++ itoa_int n in
      if exists_znode s.store path
      then (do
        z ← readable (get_data s.store path)
        send_messages rounds topic (suc_ℤ n) client
            (send_json_message_to_client (subscribed_message topic z.content) client s))
      else some (send_json_message_to_client (get_subscription_ok topic n) client s)

  unfoldable pub get_subscription : Object → Str → Server → Option Server
  get_subscription obj client s = do
    topic ← get_text obj (codes "topic")
    n ← as_number (field obj (codes "nextMsg"))
    send_messages env.rounds topic n client s
