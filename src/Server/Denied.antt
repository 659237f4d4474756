-- ===== src/Server/Denied.antt =====
-- deniedListener of main/server.go.
use dsc_zookeeper.Prelude.{
  ℕ, Str, str_eq, nat_eq, List, [], ◌∷◌, ◌||◌, ◌==◌, Bool, false, true, if◌then◌else◌, Option, none,
  some, ◌>>=◌, lookup, codes,
}
use dsc_zookeeper.Proposals.Types.{NetworkMessage, Request}
use dsc_zookeeper.Znode.Watch.{get_watching_sessions, encode_watch}
use dsc_zookeeper.Server.State.{
  Env, Server, PendingRequest, Object, get_text, as_object, value_or, reply,
  send_json_message_to_client,
}
use dsc_zookeeper.Server.Requests.{generate_and_send_request}
use dsc_zookeeper.Server.Commands.{or_empty}
use dsc_zookeeper.Server.Committed.{is_kind, forget}

unfoldable pub is_member : Str → List Str → Bool
is_member x [] = false
is_member x (y ∷ ys) = y == x || is_member x ys

module _ (env : Env) where
  -- The watch flag is sent again if the session still watches the path.
  unfoldable pub retry_watch : Object → NetworkMessage → Server → Option Server
  retry_watch obj msg s = do
    path ← get_text obj (codes "path")
    let session_id : Str = or_empty (lookup msg.remote s.local_sessions)
    (if is_member session_id (get_watching_sessions s.watches path)
        then (do
          (w, request) ←
              value_or (s.watches, [])
                (encode_watch env.json s.store s.watches session_id path false)
          generate_and_send_request env true request msg (record s { watches = w }))
        else some s)

  abbrev reject : Str → ℕ → Str → Server → Server
  reject kind id client s = forget env id (send_json_message_to_client (reply kind []) client s)

  unfoldable pub refuse : ℕ → Object → NetworkMessage → Server → Option Server
  refuse id obj msg s =
      if is_kind obj (codes "START_SESSION")
      then some (reject (codes "START_SESSION_REJECT") id msg.remote s)
      else if is_kind obj (codes "GETCHILDREN")
          || is_kind obj (codes "GETDATA")
          || is_kind obj (codes "EXISTS")
      then retry_watch obj msg s
      else some (reject (codes "REJECT") id msg.remote s)

  abbrev by_pending : ℕ → Option PendingRequest → Server → Option Server
  by_pending id none s = some s
  by_pending id (some p) s =
      if p.is_from_client
      then (do
        obj ← as_object (env.decode p.original_client_msg.message)
        refuse id obj p.original_client_msg s)
      else some s

  unfoldable pub deny_one : Request → Server → Option Server
  deny_one request s = by_pending request.req_number (lookup request.req_number s.pending) s

  unfoldable pub denied_listener : List Request → Server → Option Server
  denied_listener [] s = some s
  denied_listener (r ∷ rs) s = do s' ← deny_one r s; denied_listener rs s'
