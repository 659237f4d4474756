-- ===== src/Server/Reads.antt =====
-- The further cases of mainListener in main/server.go, which clients use to write and read znodes.
use dsc_zookeeper.Prelude.{
  Str, str_eq, Bytes, [], ◌∷◌, Bool, true, false, ◌==◌, ◌&&◌, if◌then◌else◌, Option, none, some,
  ◌>>=◌, lookup, codes,
}
use dsc_zookeeper.Proposals.Types.{NetworkMessage}
use dsc_zookeeper.Znode.Types.{ZNode, Outcome, ok, err, panic}
use dsc_zookeeper.Znode.Store.{exists_znode, get_data, get_children}
use dsc_zookeeper.Znode.Encode.{encode_create, encode_delete, encode_setdata, encode_sync}
use dsc_zookeeper.Znode.Watch.{WatchCache, encode_watch}
use dsc_zookeeper.Server.State.{
  Env, Server, Object, error_text, text, flag, names, znode, field, get_text, as_number, value_or,
  failed, parse_bool, reply, send_json_message_to_client, send_info_message_to_client,
}
use dsc_zookeeper.Server.Requests.{generate_and_send_request}
use dsc_zookeeper.Server.Commands.{or_empty}

-- An error's text goes to the client.
abbrev inform : Bool → Str → Server → Server
inform true client s = send_info_message_to_client error_text client s
inform false client s = s

-- strconv.ParseBool with its error dropped.
abbrev true_or_false : Option Bool → Bool
true_or_false none = false
true_or_false (some b) = b

abbrev is_error {ℓ} : {A : Type ℓ} → Option A → Bool
is_error none = true
is_error (some a) = false

module _ (env : Env) where
  unfoldable pub sync : Object → NetworkMessage → Server → Option Server
  sync obj msg s = do
    session_id ← get_text obj (codes "session_id")
    generate_and_send_request env true (encode_sync env.json) msg s

  unfoldable pub create : Object → NetworkMessage → Server → Option Server
  create obj msg s = do
    content ← get_text obj (codes "data")
    ephemeral ← get_text obj (codes "ephemeral")
    sequential ← get_text obj (codes "sequential")
    path ← get_text obj (codes "path")
    session_id ← get_text obj (codes "session_id")
    generate_and_send_request env true
        (encode_create env.json path content (true_or_false (parse_bool ephemeral))
          (true_or_false (parse_bool sequential)) session_id)
        msg s

  unfoldable pub delete_path : Object → NetworkMessage → Server → Option Server
  delete_path obj msg s = do
    version ← as_number (field obj (codes "version"))
    path ← get_text obj (codes "path")
    generate_and_send_request env true (encode_delete env.json path version) msg s

  unfoldable pub setdata : Object → NetworkMessage → Server → Option Server
  setdata obj msg s = do
    content ← get_text obj (codes "data")
    version ← as_number (field obj (codes "version"))
    path ← get_text obj (codes "path")
    generate_and_send_request env true (encode_setdata env.json path content version) msg s

  -- The request for a watch is sent also if it could not be encoded, and is empty then.
  abbrev with_watch : Outcome (WatchCache × Bytes) → NetworkMessage → Server → Option Server
  with_watch (ok (w, request)) msg s =
      generate_and_send_request env true request msg (record s { watches = w })
  with_watch (err e) msg s =
      generate_and_send_request env true [] msg
        (send_info_message_to_client error_text msg.remote s)
  with_watch panic msg s = none

  -- The part that the three reads share: the "watch" field of the message.
  unfoldable pub watch : Object → Str → NetworkMessage → Server → Option Server
  watch obj path msg s = do
    asked ← get_text obj (codes "watch")
    let s' = inform (is_error (parse_bool asked)) msg.remote s
    (if true_or_false (parse_bool asked)
        then with_watch
            (encode_watch env.json s'.store s'.watches
              (or_empty (lookup msg.remote s'.local_sessions)) path true)
            msg s'
        else some s')

  unfoldable pub getchildren : Object → NetworkMessage → Server → Option Server
  getchildren obj msg s = do
    path ← get_text obj (codes "path")
    children ← value_or [] (get_children s.store path)
    s' ← watch obj path msg (inform (failed (get_children s.store path)) msg.remote s)
    some (
        send_json_message_to_client
          (reply (codes "GETCHILDREN_OK") ((codes "children", names children) ∷ [])) msg.remote s')

  unfoldable pub exists : Object → NetworkMessage → Server → Option Server
  exists obj msg s = do
    path ← get_text obj (codes "path")
    s' ← watch obj path msg s
    some (
        send_json_message_to_client
          (reply (codes "EXISTS_OK")
            ((codes "exists", flag (exists_znode s.store path)) ∷ (codes "path", text path) ∷ []))
          msg.remote s')

  abbrev found : Outcome ZNode → Option ZNode
  found (ok z) = some z
  found (err e) = none
  found panic = none

  -- In test mode 2, server1 ends.
  unfoldable pub getdata : Object → NetworkMessage → Server → Option Server
  getdata obj msg s =
      if env.test_mode == codes "mode2" && env.name == codes "server1" then none else (do
        path ← get_text obj (codes "path")
        s' ← watch obj path msg s
        some (
            send_json_message_to_client
              (reply (codes "GETDATA_OK")
                ((codes "znode", znode (found (get_data s.store path))) ∷ []))
              msg.remote s'))
