-- ===== src/Proposals/CatchUp/Steps.antt =====
-- A whole catch-up of proposals.go: the NewLeader at a follower that is behind, its Sync request
-- at the coordinator, the goroutine that answers it, and the answers at the follower.
use dsc_zookeeper.Prelude.{
  IsExact, ℕ, ◌+◌, ◌^◌, ◌<◌, ◌≤◌, ◌≡◌, refl, ap, ◌∙◌, Bool-cases, inl, inr, nat_eq, str_eq, Str,
  List, [], ◌∷◌, ◌++◌, append-nil, append_assoc, map, true, false, ◌==◌, ◌||◌, some, ltb, All,
  arith, codes,
}
use dsc_zookeeper.Proposals.Types.{
  ZabMessage, Proposal, Request, state_change, new_leader, req, sync, zab,
}
use dsc_zookeeper.Proposals.Words.{
  get_zxid_as_int, get_zxid_as_int-eq, uint32_to_bytes, bytes_to_uint32,
  bytes_to_uint32-uint32_to_bytes, decompose_zxid-get_zxid_as_int,
}
use dsc_zookeeper.Proposals.Zxid.{IsWord, get_latest_zxid}
use dsc_zookeeper.Proposals.Queue.{enqueue}
use dsc_zookeeper.Proposals.SyncTrack.{new_sync}
use dsc_zookeeper.Proposals.State.{Env, Zab, SyncJob}
use dsc_zookeeper.Proposals.Send.{
  queue_send, send_request, queue_write_proposal, queue_commit_proposal, make_ack,
}
use dsc_zookeeper.Proposals.Follower.{commit_held, process_new_leader_proposal, dispatch}
use dsc_zookeeper.Proposals.Leader
use dsc_zookeeper.Proposals.Leader.{process_request, process_sync_request}
use dsc_zookeeper.Proposals.Process
use dsc_zookeeper.Proposals.Process.{process_zab_message, process_req}
use dsc_zookeeper.Proposals.Order.{request_of, from_coordinator}
use dsc_zookeeper.Proposals.Agreement.{proposal_msg, delivered-proposal}
use dsc_zookeeper.Proposals.Cluster.{follower_env, send_zab_message}
use dsc_zookeeper.Proposals.CatchUp.Received.{
  receive_all, IsEarlier, taken_all, finished, receive_all-finished, taken_all-lem,
}

module _ {C : Type 0} (env : Env C) where
  commit_held-eq :
      (held : List Proposal) (s : Zab C)
      → commit_held env held s ≡ record s {
        proposals_queue = record { items = [] };
        to_commit_chan = s.to_commit_chan ++ map (request_of env) held;
      }
  unfolding commit_held queue_commit_proposal
  commit_held-eq [] s = rw (append-nil s.to_commit_chan) refl
  commit_held-eq (p ∷ ps) s = commit_held-eq ps _ ∙ rw (append_assoc s.to_commit_chan) refl

module _ {C : Type 0} (env : Env C) where
  -- The Sync request of a node at the zxid of its counter.
  abbrev pub sync_request : Zab C → Request
  sync_request u = record {
    req_type = sync;
    req_number = 0;
    content = uint32_to_bytes (get_latest_zxid u.zxid_counter);
  }

  abbrev pub sync_message : Zab C → ZabMessage
  sync_message u = record { zab_type = req; content = env.request_codec.marshal (sync_request u) }

  module _ (follower : Str) where
    -- The follower after a NewLeader: what it held is committed, and it waits for the changes up
    -- to the zxid `latest`.
    abbrev pub behind : Proposal → ℕ → Zab C → Zab C
    behind nl latest u = record u {
      new_proposal_chan = u.new_proposal_chan ++ nl ∷ [];
      to_commit_chan = u.to_commit_chan ++ map (request_of env) u.proposals_queue.items;
      proposals_queue = record { items = [] };
      sync_track = record { active = true; zxid_cap = latest; prop = proposal_msg env nl };
      sending_queue = record {
        items =
            u.sending_queue.items
            ++ (record { msg = sync_message u; broadcast = false; target = env.name }) ∷ [];
      };
    }

    pub receive-new_leader :
        (nl : Proposal) (latest : ℕ) (u : Zab C)
        → IsExact env.zab_codec
        → IsExact env.proposal_codec
        → (follower == env.name) ≡ false
        → nl.prop_type ≡ new_leader
        → nl.content ≡ uint32_to_bytes latest
        → latest < 2 ^ 32
        → (get_latest_zxid u.zxid_counter == latest) ≡ false
        → process_zab_message
            (follower_env env follower)
            (send_zab_message env (proposal_msg env nl))
            u
          ≡ some (behind nl latest u)
    unfolding dispatch
    receive-new_leader nl latest u ze pe other t content fits lags =
        let f = follower_env env follower in
        let m = proposal_msg env nl in
        let led : (env.name == env.name) ≡ true = (str_eq.beq_iff env.name env.name).1 refl in
        let read : bytes_to_uint32 nl.content ≡ some latest =
          ap bytes_to_uint32 content ∙ bytes_to_uint32-uint32_to_bytes latest fits in
        delivered-proposal env follower nl u ze pe
        ∙ from_coordinator f nl env.name m u led
        ∙ ap (λ k. dispatch f k nl env.name m u) t
        ∙ (unfold process_new_leader_proposal queue_write_proposal in
            rw
              (
                commit_held-eq f u.proposals_queue.items
                    (record u { new_proposal_chan = u.new_proposal_chan ++ nl ∷ [] }),
                read,
              )
              (rw lags (unfold send_request queue_send enqueue new_sync in rw other refl)))

    -- The job of the goroutine that answers the follower's Sync request.
    abbrev pub job_for : Zab C → Zab C → SyncJob
    job_for u s = record {
      request = sync_request u;
      remote_id = follower;
      sent_epoch = u.zxid_counter.epoch_num;
      sent_count = u.zxid_counter.count_num;
      highest_epoch = s.zxid_counter.epoch_num;
      highest_count = s.zxid_counter.count_num;
    }

    abbrev pub asked : Zab C → Zab C → Zab C
    asked u s = record s {
      mode4_msg_count = s.mode4_msg_count + 1;
      sync_jobs = s.sync_jobs ++ job_for u s ∷ [];
    }

    sync-job :
        (u s : Zab C)
        → IsWord u.zxid_counter
        → u.zxid_counter.epoch_num ≤ s.zxid_counter.epoch_num
        → process_sync_request env (sync_request u) follower s
          ≡ some (record s { sync_jobs = s.sync_jobs ++ job_for u s ∷ [] })
    unfolding process_sync_request get_latest_zxid
    sync-job u s words le =
        let e = u.zxid_counter.epoch_num in
        let c = u.zxid_counter.count_num in
        let zxid = get_zxid_as_int-eq e c words.epoch words.count in
        let he = words.epoch in
        let hc = words.count in
        let read : bytes_to_uint32 (uint32_to_bytes (get_zxid_as_int e c))
            ≡ some (get_zxid_as_int e c) =
          bytes_to_uint32-uint32_to_bytes (get_zxid_as_int e c) (omega arith) in
        let known : ltb s.zxid_counter.epoch_num e ≡ false = ground arith in
        rw (read, decompose_zxid-get_zxid_as_int e c he hc) (rw known refl)

    pub receive-sync :
        (u s : Zab C)
        → IsExact env.zab_codec
        → IsExact env.request_codec
        → (env.test_mode == codes "mode4") ≡ false
        → IsWord u.zxid_counter
        → u.zxid_counter.epoch_num ≤ s.zxid_counter.epoch_num
        → process_zab_message env
            (record {
              remote = follower;
              msg_type = zab;
              message = env.zab_codec.marshal (sync_message u);
            })
            s
          ≡ some (asked u s)
    unfolding process_zab_message process_req process_request Process.by_type Leader.by_type
    receive-sync u s ze re no_test words le =
        let job = sync-job u (record s { mode4_msg_count = s.mode4_msg_count + 1 }) words le in
        let always : (s.requests_processing_enabled || true) ≡ true =
          elim (Bool-cases s.requests_processing_enabled) [
            | inl on ↦ rw on refl
            | inr off ↦ rw off refl
          ] in
        rw (ze.exact (sync_message u), process_zab_message, Process.by_type)
          (rw (re.exact (sync_request u), no_test) (rw always job))

    -- The follower `t` after the catch-up of `u` by the changes `news`, of which `last` is the last.
    pub record IsCaughtUp (nl last : Proposal) (news : List Proposal) (u t : Zab C) : Type 0 where
      pub commits :
          t.to_commit_chan
          ≡ u.to_commit_chan
            ++ map (request_of env) u.proposals_queue.items
            ++ map (request_of env) news
      pub saves : t.new_proposal_chan ≡ u.new_proposal_chan ++ nl ∷ [] ++ news
      pub counts :
          t.zxid_counter ≡ record { epoch_num = last.epoch_num; count_num = last.count_num }
      pub holds : t.proposals_queue.items ≡ []
      pub follows : t.sync_track.active ≡ false
      pub answers :
          t.sending_queue.items
          ≡ u.sending_queue.items
            ++ (record { msg = sync_message u; broadcast = false; target = env.name }) ∷ []
            ++ (record {
              msg = make_ack (proposal_msg env nl);
              broadcast = false;
              target = env.name;
            })
              ∷ []

    pub receive-news :
        (nl last : Proposal) (news : List Proposal) (u : Zab C)
        → IsExact env.zab_codec
        → IsExact env.proposal_codec
        → (follower == env.name) ≡ false
        → last.prop_type ≡ state_change
        → let end = get_zxid_as_int last.epoch_num last.count_num in
          All (IsEarlier end) news
          → let end = get_zxid_as_int last.epoch_num last.count_num in
            let all = news ++ last ∷ [] in
            (t : Zab C) × (receive_all env follower all (behind nl end u) ≡ some t)
            × IsCaughtUp nl last all u t
    receive-news nl last news u ze pe other change earlier =
        let end = get_zxid_as_int last.epoch_num last.count_num in
        let all = news ++ last ∷ [] in
        let v = behind nl end u in
        let done = taken_all-lem env follower news last v in
        (
          finished env follower (taken_all env follower all v),
          receive_all-finished env follower ze pe other news last v refl earlier change
              (omega arith),
          rw done (record {
            commits = refl;
            saves = refl;
            counts = refl;
            holds = refl;
            follows = refl;
            answers = refl;
          }),
        )
