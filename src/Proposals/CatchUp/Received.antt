-- ===== src/Proposals/CatchUp/Received.antt =====
-- processProposal of proposals.go at a follower that catches up: the state changes that the
-- coordinator sends it, up to the zxid of the NewLeader.
use dsc_zookeeper.Prelude.{
  IsExact, ℕ, ◌+◌, ◌<◌, ◌≤◌, ◌≡◌, refl, ap, ◌∙◌, nat_eq, str_eq, Str, List, [], ◌∷◌, ◌++◌,
  append_assoc, map, true, false, ◌==◌, Option, some, ◌>>=◌, ltb, leb, Bool-cases, inl, inr,
  if◌then◌else◌, All, arith,
}
use dsc_zookeeper.Proposals.Types.{Proposal, state_change}
use dsc_zookeeper.Proposals.Words.{get_zxid_as_int}
use dsc_zookeeper.Proposals.Zxid.{set_vals}
use dsc_zookeeper.Proposals.Queue.{enqueue}
use dsc_zookeeper.Proposals.SyncTrack.{deactivate, get_stored_proposal}
use dsc_zookeeper.Proposals.State.{Env, Zab}
use dsc_zookeeper.Proposals.Send.{
  queue_send, queue_write_proposal, queue_commit_proposal, signal_sync_finish, make_ack,
}
use dsc_zookeeper.Proposals.Follower.{catch_up, dispatch}
use dsc_zookeeper.Proposals.Process.{process_zab_message}
use dsc_zookeeper.Proposals.Order.{request_of, state_change_on, from_coordinator}
use dsc_zookeeper.Proposals.Agreement.{proposal_msg, delivered-proposal}
use dsc_zookeeper.Proposals.Cluster.{follower_env, send_zab_message}

-- A state change of the coordinator below the cap of the catch-up.
pub record IsEarlier (cap : ℕ) (p : Proposal) : Type 0 where
  pub is_change : p.prop_type ≡ state_change
  pub below : get_zxid_as_int p.epoch_num p.count_num < cap

module _ {C : Type 0} (env : Env C) (follower : Str) where
  -- The follower handles these proposals of the coordinator, one after the other.
  unfoldable pub receive_all : List Proposal → Zab C → Option (Zab C)
  receive_all [] u = some u
  receive_all (p ∷ ps) u = do
    t ←
        process_zab_message (follower_env env follower) (send_zab_message env (proposal_msg env p))
          u
    receive_all ps t

  -- What the catch-up does with a state change: it counts, is saved and committed.
  abbrev pub taken : Proposal → Zab C → Zab C
  taken p u = record u {
    zxid_counter = record { epoch_num = p.epoch_num; count_num = p.count_num };
    new_proposal_chan = u.new_proposal_chan ++ p ∷ [];
    to_commit_chan = u.to_commit_chan ++ request_of env p ∷ [];
  }

  abbrev pub taken_all : List Proposal → Zab C → Zab C
  taken_all [] u = u
  taken_all (p ∷ ps) u = taken_all ps (taken p u)

  -- The end of the catch-up: the NewLeader is acknowledged.
  abbrev pub finished : Zab C → Zab C
  finished u = record u {
    sync_track = record u.sync_track { active = false };
    sending_queue = record {
      items =
          u.sending_queue.items
          ++ (record { msg = make_ack u.sync_track.prop; broadcast = false; target = env.name })
            ∷ [];
    };
    sync_finish = if ltb u.sync_finish 10 then u.sync_finish + 1 else u.sync_finish;
  }

  module _ (ze : IsExact env.zab_codec) (pe : IsExact env.proposal_codec)
      (other : (follower == env.name) ≡ false) where
    receive :
        (p : Proposal) (u : Zab C)
        → p.prop_type ≡ state_change
        → u.sync_track.active ≡ true
        → process_zab_message
            (follower_env env follower)
            (send_zab_message env (proposal_msg env p))
            u
          ≡ some (
              catch_up
                (follower_env env follower)
                p
                env.name
                u.sync_track.zxid_cap
                (record u { zxid_counter = set_vals u.zxid_counter p.epoch_num p.count_num }))
    unfolding dispatch
    receive p u t on =
        let f = follower_env env follower in
        let led : (env.name == env.name) ≡ true = (str_eq.beq_iff env.name env.name).1 refl in
        delivered-proposal env follower p u ze pe
        ∙ from_coordinator f p env.name (proposal_msg env p) u led
        ∙ ap (λ k. dispatch f k p env.name (proposal_msg env p) u) t
        ∙ ap some (state_change_on f p env.name (proposal_msg env p) u on)

    receive-earlier :
        (p : Proposal) (u : Zab C)
        → u.sync_track.active ≡ true
        → IsEarlier u.sync_track.zxid_cap p
        → process_zab_message
            (follower_env env follower)
            (send_zab_message env (proposal_msg env p))
            u
          ≡ some (taken p u)
    receive-earlier p u on h =
        let below : leb u.sync_track.zxid_cap (get_zxid_as_int p.epoch_num p.count_num) ≡ false =
          let lt = h.below in ground arith in
        receive p u h.is_change on
        ∙ (unfold catch_up queue_commit_proposal queue_write_proposal set_vals in rw below refl)

    receive-last :
        (p : Proposal) (u : Zab C)
        → p.prop_type ≡ state_change
        → u.sync_track.active ≡ true
        → u.sync_track.zxid_cap ≤ get_zxid_as_int p.epoch_num p.count_num
        → process_zab_message
            (follower_env env follower)
            (send_zab_message env (proposal_msg env p))
            u
          ≡ some (finished (taken p u))
    receive-last p u t on h =
        let f = follower_env env follower in
        let reached : leb u.sync_track.zxid_cap (get_zxid_as_int p.epoch_num p.count_num) ≡ true =
          ground arith in
        receive p u t on
        ∙ (unfold catch_up queue_commit_proposal queue_write_proposal set_vals deactivate
              get_stored_proposal queue_send enqueue signal_sync_finish in
            rw reached (
              rw other (elim (Bool-cases (ltb u.sync_finish 10)) [
                | inl room ↦ rw room refl
                | inr full ↦ rw full refl
              ])))

    receive_all-cons :
        (p : Proposal) (ps : List Proposal) (u t : Zab C)
        → process_zab_message
            (follower_env env follower)
            (send_zab_message env (proposal_msg env p))
            u
          ≡ some t
        → receive_all (p ∷ ps) u ≡ receive_all ps t
    unfolding receive_all
    receive_all-cons p ps u t h = rw (h, receive_all) refl

    pub receive_all-finished :
        (ps : List Proposal) (p : Proposal) (u : Zab C)
        → u.sync_track.active ≡ true
        → All (IsEarlier u.sync_track.zxid_cap) ps
        → p.prop_type ≡ state_change
        → u.sync_track.zxid_cap ≤ get_zxid_as_int p.epoch_num p.count_num
        → receive_all (ps ++ p ∷ []) u ≡ some (finished (taken_all (ps ++ p ∷ []) u))
    receive_all-finished [] p u on h t le =
        receive_all-cons p [] u _ (receive-last p u t on le) ∙ (unfold receive_all in refl)
    receive_all-finished (q ∷ qs) p u on (hq, hqs) t le =
        receive_all-cons q (qs ++ p ∷ []) u (taken q u) (receive-earlier q u on hq)
        ∙ receive_all-finished qs p (taken q u) on hqs t le

  -- The catch-up on several state changes.
  pub taken_all-lem :
      (ps : List Proposal) (p : Proposal) (u : Zab C)
      → taken_all (ps ++ p ∷ []) u ≡ record u {
        zxid_counter = record { epoch_num = p.epoch_num; count_num = p.count_num };
        new_proposal_chan = u.new_proposal_chan ++ (ps ++ p ∷ []);
        to_commit_chan = u.to_commit_chan ++ map (request_of env) (ps ++ p ∷ []);
      }
  taken_all-lem [] p u = refl
  taken_all-lem (q ∷ qs) p u =
      taken_all-lem qs p (taken q u)
      ∙ rw (append_assoc u.new_proposal_chan, append_assoc u.to_commit_chan) refl
