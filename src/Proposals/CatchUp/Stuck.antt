-- ===== src/Proposals/CatchUp/Stuck.antt =====
-- Two elections of the same coordinator with no write between them (proposals.go): the second
-- NewLeader at a follower, and the answer to its Sync request.
use dsc_zookeeper.Prelude.{
  IsExact, ℕ, suc, ◌+◌, ◌^◌, ◌<◌, ◌≡◌, refl, ◌∙◌, nat_eq, str_eq, Str, List, [], ◌∷◌, append-nil,
  false, ◌==◌, some, All, arith, codes, beq_sym,
}
use dsc_zookeeper.Proposals.Types.{Proposal, new_leader, zab}
use dsc_zookeeper.Proposals.Words.{get_zxid_as_int, get_zxid_as_int-eq, uint32_to_bytes}
use dsc_zookeeper.Proposals.Zxid.{IsWord, get_latest_zxid}
use dsc_zookeeper.Proposals.State.{Env, Zab}
use dsc_zookeeper.Proposals.Log.Entry.{IsSavable}
use dsc_zookeeper.Proposals.Log.History.{saved, of_epoch}
use dsc_zookeeper.Proposals.SyncJob.{run_sync_job}
use dsc_zookeeper.Proposals.Process.{process_zab_message}
use dsc_zookeeper.Proposals.Agreement.{proposal_msg}
use dsc_zookeeper.Proposals.Cluster.{follower_env, send_zab_message}
use dsc_zookeeper.Proposals.CatchUp.{IsLog, newer}
use dsc_zookeeper.Proposals.CatchUp.Runs.{above-none, of_epoch-IsRun}
use dsc_zookeeper.Proposals.CatchUp.Newer.{newer-opening, newer-split, newer-later}
use dsc_zookeeper.Proposals.CatchUp.Sent.{run_sync_job-newer}
use dsc_zookeeper.Proposals.CatchUp.Steps.{
  sync_message, behind, receive-new_leader, job_for, asked, receive-sync,
}

-- A log has nothing above its own zxid.
newer-own : (e c : ℕ) (ps : List Proposal) → IsLog e c ps → newer e c ps ≡ []
newer-own e c ps l =
    let later = newer-later e c (suc e) 0 ps l (omega arith) in
    let own = above-none c c (of_epoch e ps) (of_epoch-IsRun e c ps l) (omega arith) in
    newer-split e c e c ps l ∙ rw (later, own) refl

module _ {C : Type 0} (env : Env C) (follower : Str) where
  -- JSON reads back what it wrote and the coordinator is not in test mode 4. Its files hold a log
  -- that fits the format and ends at its zxid counter with two NewLeaders of consecutive 16-bit
  -- epochs and no write between them. Then a follower of another name that had every write, and
  -- whose zxid is that of the last one, turns the catch-up on at the second NewLeader and asks
  -- for a sync; and the answer to it is empty, so it gets no state change that could end the
  -- catch-up, and has not acknowledged the NewLeader.
  pub second_opening-stuck :
      (nl first : Proposal) (ps : List Proposal) (s u : Zab C)
      → IsExact env.zab_codec
      → IsExact env.proposal_codec
      → IsExact env.request_codec
      → (env.test_mode == codes "mode4") ≡ false
      → (follower == env.name) ≡ false
      → IsWord u.zxid_counter
      → u.zxid_counter.epoch_num + 2 < 2 ^ 16
      → IsLog u.zxid_counter.epoch_num u.zxid_counter.count_num ps
      → All IsSavable (nl ∷ first ∷ ps)
      → first.prop_type ≡ new_leader
      → first.epoch_num ≡ u.zxid_counter.epoch_num + 1
      → first.count_num ≡ 0
      → nl.prop_type ≡ new_leader
      → nl.content ≡ uint32_to_bytes (get_zxid_as_int first.epoch_num first.count_num)
      → IsLog s.zxid_counter.epoch_num s.zxid_counter.count_num (nl ∷ first ∷ ps)
      → s.zxid_counter.epoch_num ≡ u.zxid_counter.epoch_num + 2
      → let t = behind env follower nl (get_zxid_as_int first.epoch_num first.count_num) u in
        let s' = asked env follower u s in
        (process_zab_message
            (follower_env env follower)
            (send_zab_message env (proposal_msg env nl))
            u
          ≡ some t)
        × (process_zab_message env
              (record {
                remote = follower;
                msg_type = zab;
                message = env.zab_codec.marshal (sync_message env u);
              })
              s
            ≡ some s')
        × (run_sync_job env (saved (nl ∷ first ∷ ps)) (job_for env follower u s) s' ≡ s')
  unfolding get_latest_zxid
  second_opening-stuck nl first ps s u ze pe re no_test other words room before ok opens i j opens'
        content l next =
      let k = u.zxid_counter.epoch_num in
      let m = u.zxid_counter.count_num in
      let latest = get_zxid_as_int first.epoch_num first.count_num in
      let hk = words.epoch in
      let hm = words.count in
      let hf = ok.1.0.epoch in
      let start_eq = get_zxid_as_int-eq k m hk hm in
      let latest_eq = get_zxid_as_int-eq first.epoch_num first.count_num hf ok.1.0.count in
      let lags : (get_zxid_as_int k m == latest) ≡ false = ground arith in
      let apart : (env.name == follower) ≡ false = beq_sym follower env.name other in
      let nothing : newer k m (nl ∷ first ∷ ps) ≡ [] =
        newer-opening k m nl (first ∷ ps) opens'
        ∙ newer-opening k m first ps opens
        ∙ newer-own k m ps before in
      (
        receive-new_leader env follower nl latest u ze pe other opens' content (omega arith) lags,
        receive-sync env follower u s ze re no_test words (omega arith),
        run_sync_job-newer env (job_for env follower u s) (nl ∷ first ∷ ps) ok apart
              (asked env follower u s) l (omega arith) (omega arith)
            ∙ rw nothing (rw (append-nil s.sending_queue.items) refl),
      )
