-- ===== src/Server/Sessions.antt =====
-- The session timers of main/server.go. A time is a number of nanoseconds.
pub mod Expiry
pub mod Resent
pub mod Orders
use dsc_zookeeper.Prelude.{
  ℕ, ◌+◌, Str, str_eq, Bytes, List, [], ◌∷◌, ◌++◌, Bool, true, false, ltb, ◌==◌, if◌then◌else◌,
  Option, none, some, ◌>>=◌, insert, delete, map,
}
use dsc_zookeeper.Proposals.Send.{send_write_request}
use dsc_zookeeper.Znode.Store.{get_sessions}
use dsc_zookeeper.Znode.Encode.{encode_delete_session}
use dsc_zookeeper.Election.{initiate_election_discovery}
use dsc_zookeeper.Server.State.{
  Env, Server, PendingRequest, no_message, value_or, zab_env, ring_env,
}
use dsc_zookeeper.Server.Requests.{generate_and_send_request}

-- 10 * time.Second
abbrev pub reconnect_timeout : ℕ
reconnect_timeout = 10000000000

abbrev pub Timestamps : Type 0
Timestamps = List (Str × ℕ)

-- Each of the sessions gets the time.
unfoldable pub stamp : ℕ → List Str → Timestamps → Timestamps
stamp now [] m = m
stamp now (session_id ∷ ids) m = stamp now ids (insert session_id now m)

abbrev pub is_expired : ℕ → ℕ → Bool
is_expired now timestamp = if ltb now (timestamp + reconnect_timeout) then false else true

abbrev pub forget_session : Str → Option Timestamps → Option Timestamps
forget_session session_id none = none
forget_session session_id (some m) = some (delete session_id m)

module _ (env : Env) where
  -- The sessions of this server's clients go to the coordinator; a failure starts an election.
  unfoldable pub send_session_info : Server → Server
  send_session_info s =
      let session_ids = map (λ (p : Str × Str). p.1) s.local_sessions in
      if env.reachable s.ring.coordinator
      then record s {
        heartbeats =
            s.heartbeats ++ (s.ring.coordinator, env.session_info.marshal session_ids) ∷ [];
      }
      else record s { ring = initiate_election_discovery (ring_env env s) s.ring }

  unfoldable pub initialize_session_id_map : ℕ → Server → Option Server
  initialize_session_id_map now s = do
    session_ids ← value_or [] (get_sessions s.store)
    some (record s { timestamps = some (stamp now session_ids []) })

  abbrev received : ℕ → List Str → Option Timestamps → Option Timestamps
  received now session_ids none = none
  received now session_ids (some m) = some (stamp now session_ids m)

  -- An error of json.Unmarshal is logged, and what was decoded is used.
  unfoldable pub recv_session_info : ℕ → Bytes → Server → Server
  recv_session_info now session_info_json s = record s {
    timestamps = received now (env.session_info.unmarshal session_info_json).0 s.timestamps;
  }

  -- The loop over the entries of the map.
  unfoldable pub expire : ℕ → Timestamps → Server → Option Server
  expire now [] s = some s
  expire now ((session_id, timestamp) ∷ entries) s =
      if is_expired now timestamp
      then (do
        s' ←
            generate_and_send_request env false (encode_delete_session env.json session_id)
              no_message s
        expire now entries (record s' { timestamps = forget_session session_id s'.timestamps }))
      else expire now entries s

  abbrev pub entries_of : Option Timestamps → Timestamps
  entries_of none = []
  entries_of (some m) = m

  unfoldable pub remove_expired_sessions : ℕ → Server → Option Server
  remove_expired_sessions now s = expire now (entries_of s.timestamps) s

  -- The loop over the pending requests.
  unfoldable pub resend : List (ℕ × PendingRequest) → Server → Server
  resend [] s = s
  resend ((id, p) ∷ pending) s =
      resend pending (record s { zab = send_write_request (zab_env env s) p.request id s.zab })

  -- One round of syncListener.
  unfoldable pub sync_listener : ℕ → Server → Option Server
  sync_listener now s = do
    s' ← (if s.ring.coordinator == env.name then initialize_session_id_map now s else some s)
    some (resend s'.pending s')

  -- One tick of the timer that ServerMain starts.
  unfoldable pub tick : ℕ → Server → Option Server
  tick now s =
      if env.name == s.ring.coordinator
      then remove_expired_sessions now s
      else some (send_session_info s)
