-- ===== src/Proposals/Leader.antt =====
-- The coordinator's side of proposals.go: requests, acknowledgements, and a new epoch.
use dsc_zookeeper.Prelude.{
  ℕ, ◌+◌, ◌/◌, Str, str_eq, nat_eq, List, [], ◌∷◌, ◌++◌, Bool, true, false, not, ◌&&◌, ◌==◌, ltb,
  if◌then◌else◌, Option, none, some, ◌>>=◌, length, codes,
}
use dsc_zookeeper.Prelude.Int.{pos, pred_ℤ, is_zero}
use dsc_zookeeper.Proposals.Types.{
  Proposal, ProposalType, Request, RequestType, NetworkMessage, state_change, new_leader, sync,
  write, err,
}
use dsc_zookeeper.Proposals.Words.{
  get_zxid_as_int, decompose_zxid, uint32_to_bytes, bytes_to_uint32,
}
use dsc_zookeeper.Proposals.Zxid.{get_latest_zxid, inc_count, inc_epoch}
use dsc_zookeeper.Proposals.Ack.{increment_or_remove, store_new}
use dsc_zookeeper.Proposals.Queue.{enqueue}
use dsc_zookeeper.Proposals.SyncTrack.{decrement, set}
use dsc_zookeeper.Proposals.State.{Env, Zab}
use dsc_zookeeper.Proposals.Send.{
  enqueue_zab_message, queue_send, queue_write_proposal, broadcast_proposal, broadcast_commit,
  reply_sync_request_error,
}
use dsc_zookeeper.Proposals.Follower.{process_commit_proposal}

module _ {C : Type 0} (env : Env C) where
  -- A request that the checker denies: the sender is told, unless it is this node.
  unfoldable pub deny : Request → List ℕ → Str → Zab C → Zab C
  deny r updated_req remote_id s =
      if env.name == remote_id
      then s
      else queue_send env
          (record {
            zab_type = err;
            content = env.request_codec.marshal (record {
              req_type = r.req_type;
              req_number = r.req_number;
              content = updated_req;
            });
          })
          false remote_id s

  -- The next proposal, of the state's counter after its increment.
  unfoldable pub next_proposal : Request → List ℕ → Zab C → Proposal
  next_proposal r updated_req s = record {
    prop_type = state_change;
    epoch_num = s.zxid_counter.epoch_num;
    count_num = s.zxid_counter.count_num;
    content =
        env.request_codec.marshal
          (record { req_type = r.req_type; req_number = r.req_number; content = updated_req });
  }

  unfoldable pub propose : Request → List ℕ → Zab C → Zab C
  propose r updated_req s =
      let s = record s { zxid_counter = inc_count s.zxid_counter } in
      let zxid = get_zxid_as_int s.zxid_counter.epoch_num s.zxid_counter.count_num in
      let p = next_proposal r updated_req s in
      let s = record s {
        ack_counter = store_new s.ack_counter zxid;
        proposals_queue = enqueue s.proposals_queue p;
      } in
      broadcast_proposal env p (queue_write_proposal env p s)

  unfoldable pub process_write_request : Request → Str → Zab C → Zab C
  process_write_request r remote_id s =
      let (checker, updated_req, passed) = env.request_checker s.checker r.content in
      let s = record s { checker = checker } in
      if passed then propose r updated_req s else deny r updated_req remote_id s

  -- A zxid of fewer than four bytes is a panic. The answer is sent by a goroutine.
  unfoldable pub process_sync_request : Request → Str → Zab C → Option (Zab C)
  process_sync_request r remote_id s = do
    sentzxid ← bytes_to_uint32 r.content
    let (sent_epoch, count) = decompose_zxid sentzxid
    some (
        if ltb s.zxid_counter.epoch_num sent_epoch
        then reply_sync_request_error env r remote_id s
        else record s {
          sync_jobs =
              s.sync_jobs
              ++ (record {
                request = r;
                remote_id = remote_id;
                sent_epoch = sent_epoch;
                sent_count = count;
                highest_epoch = s.zxid_counter.epoch_num;
                highest_count = s.zxid_counter.count_num;
              })
                ∷ [];
        })

  unfoldable pub by_type : RequestType → Request → Str → Zab C → Option (Zab C)
  by_type write r remote_id s = some (process_write_request r remote_id s)
  by_type sync r remote_id s = process_sync_request r remote_id s
  by_type (RequestType.unknown k) r remote_id s = some s

  unfoldable pub process_request : Request → Str → Zab C → Option (Zab C)
  process_request r remote_id s = by_type r.req_type r remote_id s

  -- The loop over the holding queue, whose content is the first argument.
  unfoldable pub unload : List NetworkMessage → Zab C → Zab C
  unload [] s = record s { holding_requests_queue = record { items = [] } }
  unload (m ∷ ms) s =
      unload ms
        (enqueue_zab_message env m (record s { holding_requests_queue = record { items = ms } }))

  unfoldable pub unload_holding_queue : Zab C → Zab C
  unload_holding_queue s = unload s.holding_requests_queue.items s

  -- The followers are in step: requests are processed again, and the held ones go to the end of
  -- the incoming queue.
  unfoldable pub finish_sync : Zab C → Zab C
  finish_sync s =
      unload_holding_queue (record s { requests_processing_enabled = true; syncing = false })

  unfoldable pub count_down : Zab C → Zab C
  count_down s =
      let s = record s { sync_response_tracker = decrement s.sync_response_tracker } in
      if is_zero s.sync_response_tracker.count then finish_sync s else s

  -- The last lines of `processACK`.
  unfoldable pub count_ack : Proposal → Zab C → Option (Zab C)
  count_ack p s =
      let zxid = get_zxid_as_int p.epoch_num p.count_num in
      let (acks, enough) = increment_or_remove s.ack_counter zxid (s.n_systems / 2) in
      let s = record s { ack_counter = acks } in
      if enough
      then (do s' ← process_commit_proposal env s; some (broadcast_commit env s'))
      else some s

  abbrev pub is_new_leader : ProposalType → Bool
  is_new_leader new_leader = true
  is_new_leader _ = false

  -- Test mode 3 ends the process of server4 at the acknowledgement of a NewLeader.
  unfoldable pub process_ack : Proposal → Zab C → Option (Zab C)
  process_ack p s =
      if is_new_leader p.prop_type
      then (if env.test_mode == codes "mode3" && env.name == codes "server4"
          then none
          else if not s.requests_processing_enabled
              && (p.count_num == s.current_sync.count_num
                  && p.epoch_num == s.current_sync.epoch_num)
          then count_ack p (count_down s)
          else some s)
      else count_ack p s

  -- The proposal that opens the epoch: a new one, or the one of the sync that is going on.
  unfoldable pub sync_proposal : ℕ → Zab C → Proposal
  sync_proposal sync_zxid s = if s.syncing then s.current_sync else record {
    prop_type = new_leader;
    epoch_num = (inc_epoch s.zxid_counter).epoch_num;
    count_num = (inc_epoch s.zxid_counter).count_num;
    content = uint32_to_bytes sync_zxid;
  }

  unfoldable pub send_new_leader : Zab C → Zab C
  send_new_leader s =
      let sync_zxid = get_latest_zxid s.zxid_counter in
      let p = sync_proposal sync_zxid s in
      let t = record s {
        zxid_counter = if s.syncing then s.zxid_counter else inc_epoch s.zxid_counter;
        current_sync = p;
        syncing = true;
        sync_id = s.sync_id + 1;
        sync_response_tracker = set s.sync_response_tracker (pred_ℤ (pos (length env.addresses)));
      } in
      if sync_zxid == 0
      then record s { syncing = false; requests_processing_enabled = true }
      else broadcast_proposal env p (queue_write_proposal env p t)

  -- `syncTimeout` after its sleep.
  unfoldable pub sync_timeout : ℕ → Zab C → Zab C
  sync_timeout id s = if id == s.sync_id then finish_sync s else s
