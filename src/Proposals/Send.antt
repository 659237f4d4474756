-- ===== src/Proposals/Send.antt =====
-- The sending side of proposals.go and the queues of the background goroutines. A step that may
-- end the process (logger.Fatal, a panic) gives `none`.
use dsc_zookeeper.Prelude.{
  ℕ, ◌+◌, Str, str_eq, Bytes, [], ◌∷◌, ◌++◌, Bool, true, false, ◌==◌, if◌then◌else◌, ltb,
}
use dsc_zookeeper.Proposals.Types.{
  ZabMessage, Proposal, Request, NetworkMessage, req, prop, ack, sync_err, zab, write,
}
use dsc_zookeeper.Proposals.Queue.{enqueue}
use dsc_zookeeper.Proposals.State.{Env, Zab, zero_proposal}

module _ {C : Type 0} (env : Env C) where
  -- EnqueueZabMessage: a message that is no ZabMessage is dropped.
  unfoldable pub enqueue_zab_message : NetworkMessage → Zab C → Zab C
  enqueue_zab_message net_msg s =
      if (env.zab_codec.unmarshal net_msg.message).1
      then record s { message_queue = enqueue s.message_queue net_msg }
      else s

  -- A message to this node itself goes to its incoming queue.
  unfoldable pub queue_send : ZabMessage → Bool → Str → Zab C → Zab C
  queue_send zab_msg is_broadcast remote s =
      if env.name == remote
      then enqueue_zab_message
          (record { remote = env.name; msg_type = zab; message = env.zab_codec.marshal zab_msg }) s
      else record s {
        sending_queue =
            enqueue s.sending_queue
              (record { msg = zab_msg; broadcast = is_broadcast; target = remote });
      }

  -- sendRequest: to the coordinator.
  unfoldable pub send_request : Request → Zab C → Zab C
  send_request r s =
      queue_send (record { zab_type = req; content = env.request_codec.marshal r }) false
        env.coordinator s

  -- SendWriteRequest
  unfoldable pub send_write_request : Bytes → ℕ → Zab C → Zab C
  send_write_request content request_num s =
      send_request (record { req_type = write; req_number = request_num; content = content }) s

  unfoldable pub broadcast_proposal : Proposal → Zab C → Zab C
  broadcast_proposal p s =
      queue_send (record { zab_type = prop; content = env.proposal_codec.marshal p }) true [] s

  -- Everything but the type is left empty.
  unfoldable pub broadcast_commit : Zab C → Zab C
  broadcast_commit s =
      queue_send (record { zab_type = prop; content = env.proposal_codec.marshal zero_proposal })
        true [] s

  unfoldable pub queue_write_proposal : Proposal → Zab C → Zab C
  queue_write_proposal p s = record s { new_proposal_chan = s.new_proposal_chan ++ p ∷ [] }

  -- A content that is no Request is logged, and what was decoded is committed.
  unfoldable pub queue_commit_proposal : Proposal → Zab C → Zab C
  queue_commit_proposal p s = record s {
    to_commit_chan = s.to_commit_chan ++ (env.request_codec.unmarshal p.content).0 ∷ [];
  }

  unfoldable pub reply_sync_request_error : Request → Str → Zab C → Zab C
  reply_sync_request_error r remote_id s =
      queue_send (record { zab_type = sync_err; content = env.request_codec.marshal r }) false
        remote_id s

  -- SyncFinish holds ten values; another one is dropped.
  unfoldable pub signal_sync_finish : Zab C → Zab C
  signal_sync_finish s =
      if ltb s.sync_finish 10 then record s { sync_finish = s.sync_finish + 1 } else s

-- The same content, as an ACK.
unfoldable pub make_ack : ZabMessage → ZabMessage
make_ack msg = record { zab_type = ack; content = msg.content }
