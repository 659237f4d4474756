-- ===== src/Server/State.antt =====
-- The package variables of main/server.go, the JSON objects that clients and servers exchange, and
-- what the program takes from outside. A string of a message and its bytes are the same list.
use dsc_zookeeper.Prelude.{
  ℕ, Str, str_eq, Bytes, List, [], ◌∷◌, ◌++◌, Bool, ◌==◌, ◌||◌, true, false, if◌then◌else◌, Option,
  none, some, lookup, codes, Codec,
}
use dsc_zookeeper.Prelude.Int.{ℤ}
use dsc_zookeeper.Proposals.Types.{NetworkMessage, ZabMessage, Proposal, Request, zab}
use dsc_zookeeper.Proposals.Zxid.{get_latest_zxid}
use dsc_zookeeper.Proposals.State.{Zab}
use dsc_zookeeper.Proposals.State
use dsc_zookeeper.Znode.Types.{ZNode, Outcome, ok, err, panic, Json}
use dsc_zookeeper.Znode.Store.{Store}
use dsc_zookeeper.Znode.Check.{Cache, check}
use dsc_zookeeper.Znode.Watch.{WatchCache}
use dsc_zookeeper.Election.{Ring, MessageWrapper}
use dsc_zookeeper.Election

-- What an interface{} of a JSON object holds. A float64 is the int that the program converts it
-- to, and the text of an error is not modelled.
pub data Value : Type 0 where
  nil error_text : Value
  text : Str → Value
  number : ℤ → Value
  flag : Bool → Value
  names : List Str → Value
  znode : Option ZNode → Value
  other : Bytes → Value

abbrev pub Object : Type 0
Object = List (Str × Value)

-- What json.Unmarshal finds in bytes.
pub data Decoded : Type 0 where
  object : Object → Decoded
  no_object : Decoded
  malformed : Decoded

pub record PendingRequest : Type 0 where
  pub is_from_client : Bool
  pub original_client_msg : NetworkMessage
  pub request : Bytes

-- The configuration, JSON, the servers to which SendMessage succeeds, and the rounds that the loop
-- of GET_SUBSCRIPTION and the levels that the walk over the znodes are given.
pub record Env : Type 0 where
  pub name : Str
  pub test_mode : Str
  pub servers : List Str
  pub json : Json
  pub decode : Bytes → Decoded
  pub encode : Object → Bytes
  pub session_info : Codec (List Str)
  pub wrappers : Codec MessageWrapper
  pub zab_codec : Codec ZabMessage
  pub proposal_codec : Codec Proposal
  pub request_codec : Codec Request
  pub reachable : Str → Bool
  pub rounds : ℕ

-- The variables of the program and of the packages that it joins. `random` is what rand.Intn will
-- return next, `to_clients` what SendJSONMessageToClient sent, and `heartbeats` what
-- sendSessionInfo did. A nil map of times is `none`.
pub record Server : Type 0 where
  pub pending : List (ℕ × PendingRequest)  -- request_id_to_pending_request
  pub local_sessions : List (Str × Str)
  pub timestamps : Option (List (Str × ℕ))  -- session_id_to_timestamp
  pub random : List ℕ
  pub to_clients : List (Str × Object)
  pub heartbeats : List (Str × Bytes)
  pub store : Store
  pub watches : WatchCache
  pub zab : Zab (Option Cache)
  pub ring : Ring

-- NetworkMessage{}
abbrev pub no_message : NetworkMessage
no_message = record { remote = []; msg_type = zab; message = [] }

-- A key of an object, nil if it is missing.
abbrev pub or_nil : Option Value → Value
or_nil none = nil
or_nil (some v) = v

abbrev pub field : Object → Str → Value
field obj key = or_nil (lookup key obj)

-- The type assertions: a value of another type is a panic.
abbrev pub as_text : Value → Option Str
as_text (text s) = some s
as_text _ = none

abbrev pub as_number : Value → Option ℤ
as_number (number n) = some n
as_number _ = none

abbrev pub as_flag : Value → Option Bool
as_flag (flag b) = some b
as_flag _ = none

abbrev pub as_object : Decoded → Option Object
as_object (object o) = some o
as_object no_object = none
as_object malformed = none

abbrev pub get_text : Object → Str → Option Str
get_text obj key = as_text (field obj key)

-- What is left of a value with its error: a zero value beside an error, and a panic ends the
-- process.
abbrev pub value_or {ℓ} : {A : Type ℓ} → A → Outcome A → Option A
value_or zero (ok a) = some a
value_or zero (err e) = some zero
value_or zero panic = none

abbrev pub failed {ℓ} : {A : Type ℓ} → Outcome A → Bool
failed (ok a) = false
failed (err e) = true
failed panic = false

-- strconv.ParseBool; `none` is an error.
abbrev pub parse_bool : Str → Option Bool
parse_bool s =
    if s == codes "1"
      || s == codes "t"
      || s == codes "T"
      || s == codes "TRUE"
      || s == codes "true"
      || s == codes "True"
    then some true
    else if s == codes "0"
        || s == codes "f"
        || s == codes "F"
        || s == codes "FALSE"
        || s == codes "false"
        || s == codes "False"
    then some false
    else none

module _ (env : Env) where
  -- The election's node, with the latest zxid of the protocol.
  abbrev pub ring_env : Server → Election.Env
  ring_env s = record {
    name = env.name;
    test_mode = env.test_mode;
    servers = env.servers;
    latest_zxid = get_latest_zxid s.zab.zxid_counter;
    codec = env.wrappers;
    reachable = env.reachable;
  }

  -- What znode.Check gives to the protocol: an error denies the request. After a panic there is no
  -- cache, and the process is at its end.
  abbrev checked : Cache × Outcome Bytes → Option Cache × Bytes × Bool
  checked (cache, ok updated) = (some cache, updated, true)
  checked (cache, err e) = (some cache, [], false)
  checked (cache, panic) = (none, [], false)

  abbrev request_checker : Store → Option Cache → Bytes → Option Cache × Bytes × Bool
  request_checker store none raw = (none, [], false)
  request_checker store (some cache) raw = checked (check env.json store cache raw)

  -- The protocol's node, with the election's view and znode.Check as its checker.
  abbrev pub zab_env : Server → State.Env (Option Cache)
  zab_env s = record {
    name = env.name;
    test_mode = env.test_mode;
    coordinator = s.ring.coordinator;
    addresses = s.ring.addresses;
    zab_codec = env.zab_codec;
    proposal_codec = env.proposal_codec;
    request_codec = env.request_codec;
    request_checker = request_checker s.store;
  }

-- SendJSONMessageToClient: a failure to send is dropped by its callers.
unfoldable pub send_json_message_to_client : Object → Str → Server → Server
send_json_message_to_client obj client s = record s {
  to_clients = s.to_clients ++ (client, obj) ∷ [];
}

-- An object with its "message" field.
abbrev pub reply : Str → Object → Object
reply kind fields = (codes "message", text kind) ∷ fields

unfoldable pub send_info_message_to_client : Value → Str → Server → Server
send_info_message_to_client info client s =
    send_json_message_to_client (reply (codes "INFO") ((codes "info", info) ∷ [])) client s
