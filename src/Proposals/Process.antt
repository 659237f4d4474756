-- ===== src/Proposals/Process.antt =====
-- The entry points of proposals.go: an incoming message, the pause at an election and its end; and
-- the rounds of the background goroutines of subroutines.go.
use dsc_zookeeper.Prelude.{
  ◌+◌, str_eq, nat_eq, List, [], ◌∷◌, ◌++◌, Bool, true, false, ◌&&◌, ◌||◌, ◌==◌, if◌then◌else◌,
  Option, none, some, codes,
}
use dsc_zookeeper.Proposals.Types.{
  ZabMessage, ZabMessageType, Proposal, RequestType, NetworkMessage, ToSendMessage, req, prop, ack,
  err, sync_err, sync,
}
use dsc_zookeeper.Proposals.Log.{Files, save_proposal}
use dsc_zookeeper.Proposals.Queue.{enqueue, dequeue, clear}
use dsc_zookeeper.Proposals.State.{Env, Zab}
use dsc_zookeeper.Proposals.Send.{queue_send}
use dsc_zookeeper.Proposals.Follower.{process_proposal}
use dsc_zookeeper.Proposals.Leader.{process_request, process_ack, send_new_leader}

module _ {C : Type 0} (env : Env C) where
  abbrev pub is_sync : RequestType → Bool
  is_sync sync = true
  is_sync _ = false

  -- A request: Sync requests are always processed, the others are held while processing is off.
  -- Test mode 4 ends the process of server3 at its fifth request.
  unfoldable pub process_req : ZabMessage → NetworkMessage → Zab C → Option (Zab C)
  process_req msg net_msg s =
      let s = record s { mode4_msg_count = s.mode4_msg_count + 1 } in
      let r = (env.request_codec.unmarshal msg.content).0 in
      if env.test_mode == codes "mode4" && (env.name == codes "server3" && s.mode4_msg_count == 5)
      then none
      else if s.requests_processing_enabled || is_sync r.req_type
      then process_request env r net_msg.remote s
      else some (record s { holding_requests_queue = enqueue s.holding_requests_queue net_msg })

  unfoldable pub by_type : ZabMessageType → ZabMessage → NetworkMessage → Zab C → Option (Zab C)
  by_type req msg net_msg s = process_req msg net_msg s
  by_type prop msg net_msg s =
      process_proposal env (env.proposal_codec.unmarshal msg.content).0 net_msg.remote msg s
  by_type ack msg net_msg s = process_ack env (env.proposal_codec.unmarshal msg.content).0 s
  by_type err msg net_msg s = some (record s {
    failed_request_chan = s.failed_request_chan ++ (env.request_codec.unmarshal msg.content).0 ∷ [];
  })
  by_type sync_err msg net_msg s = some s
  by_type (ZabMessageType.unknown k) msg net_msg s = some s

  unfoldable pub process_zab_message : NetworkMessage → Zab C → Option (Zab C)
  process_zab_message net_msg s =
      let (msg, decoded) = env.zab_codec.unmarshal net_msg.message in
      if decoded then by_type msg.zab_type msg net_msg s else some s

  unfoldable pub pause : Zab C → Zab C
  pause s =
      if s.requests_enabled
      then record s {
        requests_enabled = false;
        requests_processing_enabled = false;
        message_queue = clear s.message_queue;
        sending_queue = clear s.sending_queue;
      }
      else s

  unfoldable pub continue : Zab C → Zab C
  continue s =
      let t = record s { requests_enabled = true } in
      if s.requests_enabled
      then s
      else if env.coordinator == env.name
      then send_new_leader env t
      else record t { requests_processing_enabled = true; syncing = false }

  -- A round of messageProcessor; with an empty queue it waits.
  unfoldable pub message_processor : Zab C → Option (Zab C)
  message_processor s =
      let (front, rest) = dequeue s.message_queue in
      elim front [
        | none ↦ some s
        | some msg ↦ process_zab_message msg (record s { message_queue = rest })
      ]

  -- A round of messageSender: what it hands to the network. Without a coordinator it waits.
  unfoldable pub message_sender : Zab C → Option ToSendMessage × Zab C
  message_sender s =
      let (front, rest) = dequeue s.sending_queue in
      if env.coordinator == [] then (none, s) else (front, record s { sending_queue = rest })

  -- A round of requestQueuer, which waits while requests are off.
  unfoldable pub request_queuer : Zab C → Zab C
  request_queuer s =
      let (front, rest) = dequeue s.request_queue in
      elim front [
        | none ↦ s
        | some msg ↦
            if s.requests_enabled
            then queue_send env msg false env.coordinator (record s { request_queue = rest })
            else s
      ]

-- proposalWriter saves what was sent on its channel, in order.
unfoldable pub proposal_writer : Files → List Proposal → Files
proposal_writer files [] = files
proposal_writer files (p ∷ ps) = proposal_writer (save_proposal files p) ps
