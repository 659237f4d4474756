-- ===== src/Proposals/CatchUp/Done.antt =====
-- A whole catch-up of proposals.go: the NewLeader at a follower that is behind, its Sync request
-- at the coordinator, the goroutine that answers it, and the answers at the follower.
use mathlib.Core.List.{reverse, reverse-cons}
use dsc_zookeeper.Prelude.{
  IsExact, ℕ, suc, ◌^◌, ◌<◌, ◌≡◌, refl, sym, ap, subst, ◌∙◌, nat_eq, str_eq, Str, List, [], ◌∷◌,
  ◌++◌, true, false, beq_sym, ◌==◌, some, All, All-reverse, arith, codes,
}
use dsc_zookeeper.Proposals.Types.{Proposal, state_change, new_leader, zab}
use dsc_zookeeper.Proposals.Words.{get_zxid_as_int, get_zxid_as_int-eq, uint32_to_bytes}
use dsc_zookeeper.Proposals.Zxid.{IsWord, get_latest_zxid}
use dsc_zookeeper.Proposals.State.{Env, Zab}
use dsc_zookeeper.Proposals.Log.Entry.{IsSavable}
use dsc_zookeeper.Proposals.Log.History.{saved}
use dsc_zookeeper.Proposals.SyncJob.{run_sync_job}
use dsc_zookeeper.Proposals.Process.{process_zab_message}
use dsc_zookeeper.Proposals.Agreement.{proposal_msg}
use dsc_zookeeper.Proposals.Cluster.{follower_env, send_zab_message}
use dsc_zookeeper.Proposals.CatchUp.{IsLog, changed, opened, reopened, newer}
use dsc_zookeeper.Proposals.CatchUp.Newer.{newer-opening, newer-over, is_above}
use dsc_zookeeper.Proposals.CatchUp.Sent.{sent, run_sync_job-newer}
use dsc_zookeeper.Proposals.CatchUp.Received.{receive_all, IsEarlier}
use dsc_zookeeper.Proposals.CatchUp.Bounds.{newer-IsEarlier}
use dsc_zookeeper.Proposals.CatchUp.Steps.{
  sync_message, behind, receive-new_leader, job_for, asked, receive-sync, IsCaughtUp, receive-news,
}

-- A log whose newest proposal is a state change.
IsLog-change :
    (e c : ℕ) (p : Proposal) (ps : List Proposal)
    → IsLog e c (p ∷ ps)
    → p.prop_type ≡ state_change
    → (b : ℕ) × IsLog e b ps × (p.epoch_num ≡ e) × (p.count_num ≡ suc b)
IsLog-change e c p ps (changed e' c' q qs t i j l) h = (c', l, i, j)
IsLog-change e c p ps (opened e' c' q qs t i j pos_zxid l) h = cc
IsLog-change e c p ps (reopened e' q qs t i j l) h = cc

-- A log whose newest proposal opened an epoch after a state change.
IsLog-opened :
    (e c : ℕ) (nl p : Proposal) (ps : List Proposal)
    → IsLog e c (nl ∷ p ∷ ps)
    → nl.prop_type ≡ new_leader
    → p.prop_type ≡ state_change
    → (d : ℕ) × (b : ℕ) × IsLog d b (p ∷ ps) × (suc d ≡ e) × (nl.epoch_num ≡ e)
IsLog-opened e c nl p ps (changed e' c' q qs t i j l) h h' = cc
IsLog-opened e c nl p ps (opened e' c' q qs t i j pos_zxid l) h h' = (e', c', l, refl, i)
IsLog-opened e c nl p ps (reopened e' q qs t i j (opened _ _ _ _ t' _ _ _ _)) h h' = cc
IsLog-opened e c nl p ps (reopened e' q qs t i j (reopened _ _ _ t' _ _ _)) h h' = cc

is_above-lt :
    (k m : ℕ) (p : Proposal) (ps : List Proposal)
    → k < 2 ^ 16
    → m < 2 ^ 16
    → IsSavable p
    → get_zxid_as_int k m < get_zxid_as_int p.epoch_num p.count_num
    → is_above k m p ps ≡ true
is_above-lt k m p ps hk hm hp lt =
    let zxid = get_zxid_as_int-eq k m hk hm in
    let zxid' = get_zxid_as_int-eq p.epoch_num p.count_num hp.epoch hp.count in
    let hc = hp.count in ground (arith, (nat_eq.beq_iff k p.epoch_num).1)

module _ {C : Type 0} (env : Env C) (follower : Str) where
  -- JSON reads back what it wrote and the coordinator is not in test mode 4. The coordinator's
  -- files hold a log that fits the format, ends at its zxid counter, and has as its newest
  -- entries a write and then the NewLeader of a new epoch, whose content is the zxid of that
  -- write. Then a follower of another name whose zxid, of 16-bit parts, is below it turns the
  -- catch-up on at the NewLeader and asks for a sync; the coordinator starts a goroutine for the
  -- request; the goroutine sends the follower exactly the writes of the log above the follower's
  -- zxid, oldest first; and the follower, when it handles these, commits what it had held and
  -- then each of them, saves the NewLeader and each of them, is at the zxid of the last one,
  -- holds nothing, is out of the catch-up, and has sent the Sync request and one acknowledgement,
  -- of the NewLeader.
  pub caught-up :
      (nl last : Proposal) (ps : List Proposal) (s u : Zab C)
      → IsExact env.zab_codec
      → IsExact env.proposal_codec
      → IsExact env.request_codec
      → (env.test_mode == codes "mode4") ≡ false
      → (follower == env.name) ≡ false
      → nl.prop_type ≡ new_leader
      → last.prop_type ≡ state_change
      → nl.content ≡ uint32_to_bytes (get_zxid_as_int last.epoch_num last.count_num)
      → IsLog s.zxid_counter.epoch_num s.zxid_counter.count_num (nl ∷ last ∷ ps)
      → All IsSavable (nl ∷ last ∷ ps)
      → IsWord u.zxid_counter
      → get_latest_zxid u.zxid_counter < get_zxid_as_int last.epoch_num last.count_num
      → let log = nl ∷ last ∷ ps in
        let news = reverse (newer u.zxid_counter.epoch_num u.zxid_counter.count_num log) in
        let end = get_zxid_as_int last.epoch_num last.count_num in
        let job = job_for env follower u s in
        let s' = asked env follower u s in
        (t : Zab C) × (process_zab_message
            (follower_env env follower)
            (send_zab_message env (proposal_msg env nl))
            u
          ≡ some (behind env follower nl end u))
        × (process_zab_message env
              (record {
                remote = follower;
                msg_type = zab;
                message = env.zab_codec.marshal (sync_message env u);
              })
              s
            ≡ some s')
        × (run_sync_job env (saved log) job s' ≡ sent env job news s')
        × (receive_all env follower news (behind env follower nl end u) ≡ some t)
        × IsCaughtUp env follower nl last news u t
  unfolding get_latest_zxid
  caught-up nl last ps s u ze pe re no_test other opens change content l (on, ok) words lt =
      let k = u.zxid_counter.epoch_num in
      let m = u.zxid_counter.count_num in
      let end = get_zxid_as_int last.epoch_num last.count_num in
      let (d, b, inner, next_epoch, own) =
        IsLog-opened s.zxid_counter.epoch_num s.zxid_counter.count_num nl last ps l opens change in
      let (b', before, i, j) = IsLog-change d b last ps inner change in
      let he = ok.0.epoch in
      let hc = ok.0.count in
      let hk = words.epoch in
      let hm = words.count in
      let end_eq = get_zxid_as_int-eq last.epoch_num last.count_num he hc in
      let start_eq = get_zxid_as_int-eq k m hk hm in
      let ho = on.epoch in
      let apart : (env.name == follower) ≡ false = beq_sym follower env.name other in
      let lags : (get_zxid_as_int k m == end) ≡ false = ground arith in
      let parts : reverse (newer k m (nl ∷ last ∷ ps)) ≡ reverse (newer k m ps) ++ last ∷ [] =
        ap reverse (
          newer-opening k m nl (last ∷ ps) opens
          ∙ newer-over k m last ps change (is_above-lt k m last ps hk hm ok.0 lt))
        ∙ reverse-cons last (newer k m ps) in
      let earlier =
        All-reverse (IsEarlier end) (newer k m ps)
          (newer-IsEarlier end d b' k m ps before ok.1 (omega arith) (omega arith)) in
      let (t, caught, facts) =
        subst
          (λ (all : List Proposal).
            (t : Zab C) × (receive_all env follower all (behind env follower nl end u) ≡ some t)
            × IsCaughtUp env follower nl last all u t)
          (sym parts)
          (receive-news env follower nl last (reverse (newer k m ps)) u ze pe other change
            earlier) in
      (
        t,
        receive-new_leader env follower nl end u ze pe other opens content (omega arith) lags,
        receive-sync env follower u s ze re no_test words (omega arith),
        run_sync_job-newer env (job_for env follower u s) (nl ∷ last ∷ ps) (on, ok) apart
            (asked env follower u s) l (omega arith) (omega arith),
        caught,
        facts,
      )
