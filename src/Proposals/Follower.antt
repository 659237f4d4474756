-- ===== src/Proposals/Follower.antt =====
-- The handlers of proposals.go for the proposals that the coordinator sends.
use dsc_zookeeper.Prelude.{
  ℕ, Str, str_eq, nat_eq, List, [], ◌∷◌, false, ◌==◌, leb, if◌then◌else◌, Option, none, some, ◌>>=◌,
}
use dsc_zookeeper.Proposals.Types.{
  ZabMessage, Proposal, ProposalType, commit, state_change, new_leader, sync,
}
use dsc_zookeeper.Proposals.Words.{get_zxid_as_int, uint32_to_bytes, bytes_to_uint32}
use dsc_zookeeper.Proposals.Zxid.{get_latest_zxid, set_vals}
use dsc_zookeeper.Proposals.Queue.{enqueue, dequeue}
use dsc_zookeeper.Proposals.SyncTrack.{new_sync, deactivate, read_vals, get_stored_proposal}
use dsc_zookeeper.Proposals.State.{Env, Zab}
use dsc_zookeeper.Proposals.Send.{
  queue_send, send_request, queue_write_proposal, queue_commit_proposal, signal_sync_finish,
  make_ack,
}

module _ {C : Type 0} (env : Env C) where
  -- A state change during the catch-up: saved and committed at once, and not acknowledged; with
  -- the last one the NewLeader message is acknowledged.
  unfoldable pub catch_up : Proposal → Str → ℕ → Zab C → Zab C
  catch_up p source zxid_cap s =
      let s = queue_commit_proposal env p (queue_write_proposal env p s) in
      if leb zxid_cap (get_zxid_as_int p.epoch_num p.count_num)
      then signal_sync_finish env (
          queue_send env (make_ack (get_stored_proposal s.sync_track)) false source
            (record s { sync_track = deactivate s.sync_track }))
      else s

  -- Otherwise it is acknowledged, saved and held until its commit.
  unfoldable pub hold : Proposal → Str → ZabMessage → Zab C → Zab C
  hold p source original_msg s =
      let s = queue_write_proposal env p (queue_send env (make_ack original_msg) false source s) in
      record s { proposals_queue = enqueue s.proposals_queue p }

  unfoldable pub process_state_change_proposal : Proposal → Str → ZabMessage → Zab C → Zab C
  process_state_change_proposal p source original_msg s =
      let s = record s { zxid_counter = set_vals s.zxid_counter p.epoch_num p.count_num } in
      let (syncing, zxid_cap) = read_vals s.sync_track in
      if syncing then catch_up p source zxid_cap s else hold p source original_msg s

  -- A commit with no held proposal ends the process.
  unfoldable pub process_commit_proposal : Zab C → Option (Zab C)
  process_commit_proposal s =
      let (front, rest) = dequeue s.proposals_queue in
      elim front [
        | none ↦ none
        | some p ↦ some (queue_commit_proposal env p (record s { proposals_queue = rest }))
      ]

  -- The loop over the held proposals, whose queue is the first argument.
  unfoldable pub commit_held : List Proposal → Zab C → Zab C
  commit_held [] s = record s { proposals_queue = record { items = [] } }
  commit_held (p ∷ ps) s =
      commit_held ps
        (queue_commit_proposal env p (record s { proposals_queue = record { items = ps } }))

  -- A content of fewer than four bytes is a panic.
  unfoldable pub process_new_leader_proposal : Proposal → Str → ZabMessage → Zab C → Option (Zab C)
  process_new_leader_proposal p source original_msg s = do
    let s = queue_write_proposal env p s
    let s = commit_held s.proposals_queue.items s
    latest_zxid ← bytes_to_uint32 p.content
    let current_zxid = get_latest_zxid s.zxid_counter
    some (
        if current_zxid == latest_zxid
        then signal_sync_finish env (queue_send env (make_ack original_msg) false source s)
        else send_request env
            (record { req_type = sync; req_number = 0; content = uint32_to_bytes current_zxid })
            (record s { sync_track = new_sync s.sync_track latest_zxid original_msg }))

  -- Of a type that no constant names, the proposal ends the process.
  unfoldable pub dispatch : ProposalType → Proposal → Str → ZabMessage → Zab C → Option (Zab C)
  dispatch state_change p source original_msg s =
      some (process_state_change_proposal p source original_msg s)
  dispatch commit p source original_msg s = process_commit_proposal s
  dispatch new_leader p source original_msg s = process_new_leader_proposal p source original_msg s
  dispatch (ProposalType.unknown k) p source original_msg s = none

  unfoldable pub process_proposal : Proposal → Str → ZabMessage → Zab C → Option (Zab C)
  process_proposal p source original_msg s =
      if env.coordinator == source then dispatch p.prop_type p source original_msg s else some s
