-- ===== src/Server/Committed.antt =====
-- committedListener of main/server.go: a committed request is written to the files, the sessions
-- that watch are told, and the client that asked is answered.
pub mod Answers
pub mod Kept
pub mod Ends
use dsc_zookeeper.Prelude.{
  ℕ, ◌+◌, Str, str_eq, nat_eq, Bytes, List, [], ◌∷◌, ◌++◌, Bool, true, false, ◌==◌, ◌&&◌,
  if◌then◌else◌, Option, none, some, ◌>>=◌, lookup, insert, delete, codes,
}
use dsc_zookeeper.Prelude.Int.{pos}
use dsc_zookeeper.Proposals.Types.{NetworkMessage, Request}
use dsc_zookeeper.Znode.Types.{Outcome, ok, err, panic}
use dsc_zookeeper.Znode.Store.{Store, get_children}
use dsc_zookeeper.Znode.Write.{write}
use dsc_zookeeper.Znode.Watch.{WatchCache, check_watch, encode_watch}
use dsc_zookeeper.Server.State.{
  Env, Server, PendingRequest, Object, Value, text, number, flag, no_message, field, get_text,
  as_text, as_flag, as_object, value_or, reply, send_json_message_to_client,
}
use dsc_zookeeper.Server.Requests.{generate_and_send_request}
use dsc_zookeeper.Server.Topics.{next_msg_num, message_path}
use dsc_zookeeper.Server.Commands.{
  send_triggers, create_message, with_newtopic, get_subscription_ok,
}

-- The first client of a session in the map of clients.
unfoldable pub client_of : Str → List (Str × Str) → Option Str
client_of session [] = none
client_of session ((client, session_id) ∷ m) =
    if session_id == session then some client else client_of session m

abbrev pub tell : List Str → Option Str → Server → Server
tell paths none s = s
tell paths (some client) s = send_triggers paths client s

unfoldable pub tell_sessions : List Str → List Str → Server → Server
tell_sessions paths [] s = s
tell_sessions paths (session ∷ sessions) s =
    tell_sessions paths sessions (tell paths (client_of session s.local_sessions) s)

-- What stands behind the last slash, after the segment so far.
unfoldable pub last_segment : Str → Str → Str
last_segment segment [] = segment
last_segment segment (c ∷ path) =
    if c == b'/' then last_segment [] path else last_segment (segment ++ c ∷ []) path

-- modified_paths[0]
abbrev pub first_path : List Str → Option Str
first_path [] = none
first_path (p ∷ ps) = some p

abbrev pub is_empty : List Str → Bool
is_empty [] = true
is_empty (x ∷ xs) = false

-- Whether the "message" field is the text.
abbrev same_text : Option Str → Str → Bool
same_text none name = false
same_text (some t) name = t == name

abbrev pub is_kind : Object → Str → Bool
is_kind obj name = same_text (get_text obj (codes "message")) name

-- An answer with the path of the message, whatever it is.
abbrev pub path_reply : Str → Object → Object
path_reply kind obj = reply kind ((codes "path", field obj (codes "path")) ∷ [])

module _ (env : Env) where
  -- The watches of the paths: those that were set are told and are taken away by a request.
  unfoldable pub trigger_watches : List Str → Server → Option Server
  trigger_watches paths s =
      let (w, out) = check_watch env.json s.store s.watches paths in
      let s' : Server = record s { watches = w } in
      do
        (content, sessions) ← value_or ([], []) out
        (if is_empty sessions
            then some s'
            else generate_and_send_request env false content no_message
                (tell_sessions paths sessions s'))

  -- `none` as an answer is the default case, which goes on with the next request.
  abbrev pub Answer : Type 0
  Answer = Option (Option Object × Server)

  unfoldable pub answer_start_session : NetworkMessage → List Str → Server → Answer
  answer_start_session msg paths s = do
    path ← first_path paths
    let session_id = last_segment [] path
    some (
      some (reply (codes "START_SESSION_OK") ((codes "session_id", text session_id) ∷ [])),
      record s { local_sessions = insert msg.remote session_id s.local_sessions },
    )

  unfoldable pub answer_publish : Object → NetworkMessage → Server → Answer
  answer_publish obj msg s = do
    topic ← get_text obj (codes "topic")
    children ← value_or [] (get_children s.store topic)
    (if is_empty children
        then (do
          content ← get_text obj (codes "data")
          session_id ← get_text obj (codes "session_id")
          s' ←
              generate_and_send_request env true (create_message env topic content session_id) msg s
          some (some (reply (codes "CREATE_TOPIC_OK") []), s'))
        else some (some (reply (codes "PUBLISH_OK") []), s))

  abbrev subscribe_ok : Str → ℕ → Object
  subscribe_ok topic n =
      reply (codes "SUBSCRIBE_OK")
        ((codes "topic", text topic) ∷ (codes "nextMsg", number (pos n)) ∷ [])

  unfoldable pub answer_subscribe : Object → NetworkMessage → Server → Answer
  answer_subscribe obj msg s = do
    is_new ← as_flag (field obj (codes "newtopic"))
    topic ← get_text obj (codes "topic")
    children ← value_or [] (get_children s.store topic)
    (if is_new
        then (do
          session_id ← get_text obj (codes "session_id")
          (w, request) ←
              value_or (s.watches, [])
                (encode_watch env.json s.store s.watches session_id
                  (message_path topic (next_msg_num children)) true)
          s' ←
              generate_and_send_request env true request (with_newtopic env false obj msg)
                (record s { watches = w })
          some (some (reply (codes "CREATE_TOPIC_OK") []), s'))
        else some (some (subscribe_ok topic (next_msg_num children)), s))

  unfoldable pub answer_get_subscription : Object → Server → Answer
  answer_get_subscription obj s = do
    topic ← get_text obj (codes "topic")
    children ← value_or [] (get_children s.store topic)
    some (some (get_subscription_ok env topic (pos (next_msg_num children))), s)

  unfoldable pub answer : Object → NetworkMessage → List Str → Server → Answer
  answer obj msg paths s =
      if is_kind obj (codes "START_SESSION")
      then answer_start_session msg paths s
      else if is_kind obj (codes "END_SESSION")
      then some (
        some (reply (codes "END_SESSION_OK") []),
        record s { local_sessions = delete msg.remote s.local_sessions },
      )
      else if is_kind obj (codes "PUBLISH")
      then answer_publish obj msg s
      else if is_kind obj (codes "SUBSCRIBE")
      then answer_subscribe obj msg s
      else if is_kind obj (codes "GET_SUBSCRIPTION")
      then answer_get_subscription obj s
      else if is_kind obj (codes "CREATE")
      then (if env.test_mode == codes "mode5" && env.name == codes "server1"
          then none
          else some (some (path_reply (codes "CREATE_OK") obj), s))
      else if is_kind obj (codes "DELETE")
      then some (some (path_reply (codes "DELETE_OK") obj), s)
      else if is_kind obj (codes "SETDATA")
      then some (some (path_reply (codes "SETDATA_OK") obj), s)
      else if is_kind obj (codes "SYNC")
      then some (some (path_reply (codes "SYNC_OK") obj), s)
      else some (none, s)

  abbrev pub forget : ℕ → Server → Server
  forget id s = record s { pending = delete id s.pending }

  -- In test mode 1, server1 ends after its first answer.
  abbrev respond : ℕ → Str → Option Object × Server → Option Server
  respond id client (none, s) = some s
  respond id client (some obj, s) =
      if env.test_mode == codes "mode1" && env.name == codes "server1"
      then none
      else some (forget id (send_json_message_to_client obj client s))

  abbrev finish : ℕ → List Str → Option PendingRequest → Server → Option Server
  finish id paths none s = some (forget id s)
  finish id paths (some p) s =
      if p.is_from_client
      then (do
        obj ← as_object (env.decode p.original_client_msg.message)
        answered ← answer obj p.original_client_msg paths s
        respond id p.original_client_msg.remote answered)
      else some (forget id s)

  -- One round; the flag says whether the listener goes on.
  abbrev written : ℕ → Store × Outcome (List Str) → Server → Option (Server × Bool)
  written id (store, ok paths) s = do
    s' ← trigger_watches paths (record s { store = store })
    s'' ← finish id paths (lookup id s'.pending) s'
    some (s'', true)
  written id (store, err e) s = some (record s { store = store }, false)
  written id (store, panic) s = none

  unfoldable pub commit_one : Request → Server → Option (Server × Bool)
  commit_one request s = written request.req_number (write env.json request.content s.store) s

  unfoldable pub committed_listener : List Request → Server → Option (Server × Bool)
  committed_listener [] s = some (s, true)
  committed_listener (r ∷ rs) s = do
    (s', listening) ← commit_one r s
    (if listening then committed_listener rs s' else some (s', false))
