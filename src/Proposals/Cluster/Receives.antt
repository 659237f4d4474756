-- ===== src/Proposals/Cluster/Receives.antt =====
-- A follower's handling of the coordinator's messages, by what it commits and holds.
use mathlib.Core.List.{map-append}
use dsc_zookeeper.Prelude.{
  Str, str_eq, List, [], ◌∷◌, ◌++◌, map, false, Option, some, some_inj, none_ne_some, ◌≡◌, ◌∙◌,
  refl, ap, IsExact,
}
use dsc_zookeeper.Proposals.Types.{
  ZabMessage, ZabMessageType, Proposal, ProposalType, commit, state_change, new_leader, prop, err,
  sync_err, req, ack,
}
use dsc_zookeeper.Proposals.SyncTrack.{SyncTracker}
use dsc_zookeeper.Proposals.Zxid.{set_vals}
use dsc_zookeeper.Proposals.State.{Env, Zab}
use dsc_zookeeper.Proposals.Send.{queue_commit_proposal}
use dsc_zookeeper.Proposals.Follower.{hold, dispatch, process_proposal, process_commit_proposal}
use dsc_zookeeper.Proposals.Process
use dsc_zookeeper.Proposals.Process.{process_zab_message}
use dsc_zookeeper.Proposals.Order.{
  request_of, state_change_off, hold-history, commit_front, from_coordinator,
}
use dsc_zookeeper.Proposals.Cluster.{follower_env, send_zab_message}
use dsc_zookeeper.Proposals.Cluster.Replay.{
  View, view, commit_one, replay_proposal, replay_type, replay_one,
}

module _ {C : Type 0} (env : Env C) (name : Str) where
  abbrev f : Env C
  f = follower_env env name

  -- The follower's state after a message: it has the given view, and it is not catching up.
  abbrev pub IsAt : View → Option (Zab C) → Type 0
  IsAt v o = (t : Zab C) × (o ≡ some t) × (view env t ≡ v) × (t.sync_track.active ≡ false)

  holds :
      (p : Proposal) (m : ZabMessage) (s : Zab C)
      → s.sync_track.active ≡ false
      → IsAt
          (s.to_commit_chan, map (request_of env) s.proposals_queue.items ++ request_of env p ∷ [])
          (dispatch f state_change p env.name m s)
  unfolding dispatch
  holds p m s off =
      let s0 = record s { zxid_counter = set_vals s.zxid_counter p.epoch_num p.count_num } in
      let facts = hold-history f p env.name m s0 in
      (
        hold f p env.name m s0,
        ap some (state_change_off f p env.name m s off),
        at_view (hold f p env.name m s0) facts.1 facts.0,
        ap (λ (k : SyncTracker). k.active) facts.2 ∙ off,
      )
    where
      at_view :
          (t : Zab C)
          → t.to_commit_chan ≡ s.to_commit_chan
          → t.proposals_queue.items ≡ s.proposals_queue.items ++ p ∷ []
          → view env t ≡ (
            s.to_commit_chan,
            map (request_of env) s.proposals_queue.items ++ request_of env p ∷ [],
          )
      at_view t d q = rw (d, q) (rw (map-append _ _ _) refl)

  commits_from :
      (s : Zab C) (held : List Proposal) (v : View)
      → s.proposals_queue.items ≡ held
      → s.sync_track.active ≡ false
      → commit_one (s.to_commit_chan, map (request_of env) held) ≡ some v
      → IsAt v (process_commit_proposal f s)
  unfolding commit_one queue_commit_proposal
  commits_from s [] v e off h = absurd (none_ne_some _ refl h)
  commits_from s (p ∷ ps) v e off h = (_, commit_front f s p ps e, some_inj h, off)

  proposal_received :
      (k : ProposalType) (p : Proposal) (m : ZabMessage) (s : Zab C) (v : View)
      → s.sync_track.active ≡ false
      → replay_proposal env k p (view env s) ≡ some v
      → IsAt v (dispatch f k p env.name m s)
  unfolding replay_proposal dispatch
  proposal_received state_change p m s v off h =
      let (t, ran, at, still) = holds p m s off in (t, ran, at ∙ some_inj h, still)
  proposal_received commit p m s v off h = commits_from s s.proposals_queue.items v refl off h
  proposal_received new_leader p m s v off h = absurd (none_ne_some _ refl h)
  proposal_received (ProposalType.unknown k) p m s v off h = absurd (none_ne_some _ refl h)

  from_leader :
      (p : Proposal) (m : ZabMessage) (s : Zab C)
      → process_proposal f p env.name m s ≡ dispatch f p.prop_type p env.name m s
  from_leader p m s = from_coordinator f p env.name m s ((str_eq.beq_iff env.name env.name).1 refl)

  type_received :
      (k : ZabMessageType) (m : ZabMessage) (s : Zab C) (v : View)
      → s.sync_track.active ≡ false
      → replay_type env k m (view env s) ≡ some v
      → IsAt v (Process.by_type f k m (send_zab_message env m) s)
  unfolding replay_type Process.by_type
  type_received prop m s v off h =
      let p = (env.proposal_codec.unmarshal m.content).0 in
      let (t, ran, at, still) = proposal_received p.prop_type p m s v off h in
      (t, from_leader p m s ∙ ran, at, still)
  type_received err m s v off h = (_, refl, some_inj h, off)
  type_received sync_err m s v off h = (s, refl, some_inj h, off)
  type_received req m s v off h = absurd (none_ne_some _ refl h)
  type_received ack m s v off h = absurd (none_ne_some _ refl h)
  type_received (ZabMessageType.unknown k) m s v off h = absurd (none_ne_some _ refl h)

  -- A follower that is not catching up handles every message of the coordinator that can be
  -- replayed, without ending, and comes to the view of the replay.
  pub process_zab_message-IsAt :
      (m : ZabMessage) (s : Zab C) (v : View)
      → IsExact env.zab_codec
      → s.sync_track.active ≡ false
      → replay_one env m (view env s) ≡ some v
      → IsAt v (process_zab_message f (send_zab_message env m) s)
  process_zab_message-IsAt m s v ze off h =
      let (t, ran, at, still) = type_received m.zab_type m s v off h in
      (t, decoded m s ze ∙ ran, at, still)
    where
      decoded :
          (m : ZabMessage) (s : Zab C)
          → IsExact env.zab_codec
          → process_zab_message f (send_zab_message env m) s
            ≡ Process.by_type f m.zab_type m (send_zab_message env m) s
      decoded m s ze = unfold process_zab_message in rw (ze.exact m, process_zab_message) refl
