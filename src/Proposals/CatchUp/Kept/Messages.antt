-- ===== src/Proposals/CatchUp/Kept/Messages.antt =====
-- processZabMessage, PauseRequests and ContinueRequests of proposals.go at a coordinator, and its
-- log.
use dsc_zookeeper.Prelude.{
  IsExact, ◌+◌, ◌^◌, ◌<◌, ◌≡◌, ◌≢◌, refl, sym, ◌∙◌, nat_eq, str_eq, Str, [], true, false, ◌==◌,
  ◌&&◌, ◌||◌, List, some, some_inj, Bool-cases, inl, inr, arith, codes,
}
use dsc_zookeeper.Proposals.Types.{
  ZabMessage, ZabMessageType, Proposal, Request, RequestType, NetworkMessage, req, prop, ack, err,
  sync_err, sync, write,
}
use dsc_zookeeper.Proposals.Queue.{enqueue, clear}
use dsc_zookeeper.Proposals.State.{Env, Zab}
use dsc_zookeeper.Proposals.Leader
use dsc_zookeeper.Proposals.Leader.{process_request, send_new_leader}
use dsc_zookeeper.Proposals.Process
use dsc_zookeeper.Proposals.Process.{is_sync, process_req, process_zab_message, pause, continue}
use dsc_zookeeper.Proposals.Cluster.{type_of}
use dsc_zookeeper.Proposals.Cluster.Handles.{with_count}
use dsc_zookeeper.Proposals.CatchUp.Kept.{IsKept}
use dsc_zookeeper.Proposals.CatchUp.Kept.Quiet.{
  IsQuiet, alike-IsQuiet, quiet-IsKept, process_ack-IsQuiet, sync-IsQuiet,
}
use dsc_zookeeper.Proposals.CatchUp.Kept.Writes.{write-IsKept}
use dsc_zookeeper.Proposals.CatchUp.Kept.Opens.{send_new_leader-IsKept}

module _ {C : Type 0} (env : Env C) (named : (env.name == []) ≡ false)
    (pe : IsExact env.proposal_codec) (ps : List Proposal) where
  opening-waits :
      (s : Zab C) → IsKept ps s → s.requests_processing_enabled ≡ true → s.syncing ≡ false
  opening-waits s k on = elim (Bool-cases s.syncing) [
    | inl opening ↦ let w = (k.opening opening).waits in absurd cc
    | inr done ↦ done
  ]

  counted-IsQuiet : (s : Zab C) → IsQuiet s (with_count env named pe s)
  counted-IsQuiet s = alike-IsQuiet s _ refl refl refl refl refl

  -- A request that is no write leaves the log alone; a write is processed only after an opening.
  runs-IsKept :
      (k : RequestType) (r : Request) (remote_id : Str) (s t : Zab C)
      → ((s.requests_processing_enabled || is_sync env k) ≡ true)
      → s.zxid_counter.count_num + 1 < 2 ^ 16
      → IsKept ps s
      → Leader.by_type env k r remote_id s ≡ some t
      → IsKept ps t
  unfolding Leader.by_type
  runs-IsKept write r remote_id s t on room kept h =
      let enabled : s.requests_processing_enabled ≡ true = ground arith in
      rw (← some_inj h)
        (write-IsKept env named ps r remote_id s (opening-waits s kept enabled) room kept)
  runs-IsKept sync r remote_id s t on room kept h =
      quiet-IsKept ps s t (sync-IsQuiet env r remote_id s t h) kept
  runs-IsKept (RequestType.unknown k) r remote_id s t on room kept h = rw (← some_inj h) kept

  req-IsKept :
      (msg : ZabMessage) (m : NetworkMessage) (s t : Zab C)
      → s.zxid_counter.count_num + 1 < 2 ^ 16
      → IsKept ps s
      → process_req env msg m s ≡ some t
      → IsKept ps t
  unfolding process_req process_request
  req-IsKept msg m s t room kept h =
      let r = (env.request_codec.unmarshal msg.content).0 in
      let s1 = with_count env named pe s in
      elim (Bool-cases (
        env.test_mode == codes "mode4"
        && (env.name == codes "server3" && s.mode4_msg_count + 1 == 5))) [
          | inl ends ↦ absurd (ground arith)
          | inr goes ↦ elim (Bool-cases (s.requests_processing_enabled || is_sync env r.req_type)) [
            | inl runs ↦
                let ran : process_req env msg m s ≡ Leader.by_type env r.req_type r m.remote s1 =
                  rw (goes, process_req) (rw runs refl) in
                runs-IsKept r.req_type r m.remote s1 t runs room
                  (quiet-IsKept ps s s1 (counted-IsQuiet s) kept) (sym ran ∙ h)
            | inr waits ↦
                let s2 = record s1 {
                  holding_requests_queue = enqueue s.holding_requests_queue m;
                } in
                let same : s2 ≡ t =
                  let held : process_req env msg m s ≡ some s2 =
                    rw (goes, process_req) (rw waits refl) in
                  some_inj (sym held ∙ h) in
                rw (← same)
                  (quiet-IsKept ps s s2 (alike-IsQuiet s s2 refl refl refl refl refl) kept)
          ]
        ]

  type-IsKept :
      (k : ZabMessageType) (msg : ZabMessage) (m : NetworkMessage) (s t : Zab C)
      → k ≢ prop
      → s.zxid_counter.count_num + 1 < 2 ^ 16
      → IsKept ps s
      → Process.by_type env k msg m s ≡ some t
      → IsKept ps t
  unfolding Process.by_type
  type-IsKept req msg m s t other room kept h = req-IsKept msg m s t room kept h
  type-IsKept prop msg m s t other room kept h = absurd (other refl)
  type-IsKept ack msg m s t other room kept h =
      quiet-IsKept ps s t (process_ack-IsQuiet env named pe _ s t h) kept
  type-IsKept err msg m s t other room kept h =
      rw (← some_inj h) (quiet-IsKept ps s _ (alike-IsQuiet s _ refl refl refl refl refl) kept)
  type-IsKept sync_err msg m s t other room kept h = rw (← some_inj h) kept
  type-IsKept (ZabMessageType.unknown k) msg m s t other room kept h = rw (← some_inj h) kept

  -- If JSON reads back proposals, the coordinator has a name, its log is kept, and its count has
  -- room for one more write, then any message but a proposal that it handles without ending
  -- leaves its log kept: what it has sent to be saved, on top of what it found at its start, is a
  -- log that ends at its zxid counter, and as long as a new epoch waits for its followers nothing
  -- is written in it and its requests wait too.
  pub process_zab_message-IsKept :
      (m : NetworkMessage) (s t : Zab C)
      → type_of env m ≢ prop
      → s.zxid_counter.count_num + 1 < 2 ^ 16
      → IsKept ps s
      → process_zab_message env m s ≡ some t
      → IsKept ps t
  unfolding process_zab_message
  process_zab_message-IsKept m s t other room kept h =
      elim (Bool-cases (env.zab_codec.unmarshal m.message).1) [
        | inl decoded ↦
            let msg = (env.zab_codec.unmarshal m.message).0 in
            type-IsKept msg.zab_type msg m s t other room kept (ground arith)
        | inr bad ↦ let same : s ≡ t = ground arith in rw (← same) kept
      ]

  -- The state while requests are off.
  abbrev paused : Zab C → Zab C
  paused s = record s {
    requests_enabled = false;
    requests_processing_enabled = false;
    message_queue = clear s.message_queue;
    sending_queue = clear s.sending_queue;
  }

  paused-IsKept : (s : Zab C) → IsKept ps s → IsKept ps (paused s)
  paused-IsKept s kept = record {
    logged = kept.logged;
    opening = (λ h.
        let o = kept.opening h in
        record {
          opens = o.opens;
          epoch = o.epoch;
          count = o.count;
          later = o.later;
          unwritten = o.unwritten;
          waits = refl;
        });
  }

  continue-IsKept :
      (s : Zab C)
      → env.coordinator ≡ env.name
      → s.requests_enabled ≡ false
      → s.requests_processing_enabled ≡ false
      → s.zxid_counter.epoch_num + 1 < 2 ^ 16
      → IsKept ps s
      → IsKept ps (continue env s)
  unfolding continue
  continue-IsKept s leads off waits room kept =
      let t = record s { requests_enabled = true } in
      let own : (env.coordinator == env.name) ≡ true = (str_eq.beq_iff _ _).1 leads in
      let resumed : continue env s ≡ send_new_leader env t = rw (off, continue) (rw own refl) in
      rw resumed (
        send_new_leader-IsKept env named ps t waits room
          (quiet-IsKept ps s t (alike-IsQuiet s t refl refl refl refl refl) kept))

  -- If JSON reads back proposals, the pause and the end of an election leave the log of a
  -- coordinator with a name kept, if its epoch has room for one more and it processes no requests
  -- while requests are off: the NewLeader opens the next epoch, or again the one that still waits
  -- for its followers, and without any write so far no epoch is opened.
  pub election-IsKept :
      (s : Zab C)
      → env.coordinator ≡ env.name
      → (s.requests_enabled ≡ false → s.requests_processing_enabled ≡ false)
      → s.zxid_counter.epoch_num + 1 < 2 ^ 16
      → IsKept ps s
      → IsKept ps (continue env (pause env s))
  unfolding pause
  election-IsKept s leads off room kept = elim (Bool-cases s.requests_enabled) [
    | inl on ↦
        let stops : pause env s ≡ paused s = rw (on, pause) refl in
        rw stops (continue-IsKept (paused s) leads refl refl room (paused-IsKept s kept))
    | inr stopped ↦
        let stays : pause env s ≡ s = rw (stopped, pause) refl in
        rw stays (continue-IsKept s leads stopped (off stopped) room kept)
  ]
