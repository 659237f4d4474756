-- ===== src/Proposals/Order.antt =====
-- The handlers of proposals in proposals.go, and the order of what a node commits and holds.
use dsc_zookeeper.Prelude.{
  ℕ, Str, str_eq, nat_eq, List, [], ◌∷◌, ◌++◌, map, append-nil, append_assoc, Bool, true, false,
  ◌&&◌, ◌==◌, if◌then◌else◌, none, some, some_inj, none_ne_some, ◌≡◌, ◌∙◌, refl, sym, ap, ◌≢◌,
  arith, Bool-cases, Option-cases, inl, inr,
}
use mathlib.Core.List.{map-append}
use dsc_zookeeper.Proposals.Types.{
  sync, ZabMessage, Proposal, ProposalType, Request, commit, state_change, new_leader,
}
use dsc_zookeeper.Proposals.Words.{uint32_to_bytes, bytes_to_uint32}
use dsc_zookeeper.Proposals.Zxid.{set_vals, get_latest_zxid}
use dsc_zookeeper.Proposals.Queue.{enqueue, dequeue}
use dsc_zookeeper.Proposals.SyncTrack.{SyncTracker, new_sync, read_vals}
use dsc_zookeeper.Proposals.State.{Env, Zab}
use dsc_zookeeper.Proposals.Send.{
  queue_send, send_request, queue_write_proposal, queue_commit_proposal, signal_sync_finish,
  make_ack, enqueue_zab_message,
}
use dsc_zookeeper.Proposals.Follower.{
  catch_up, hold, commit_held, dispatch, process_state_change_proposal, process_commit_proposal,
  process_new_leader_proposal, process_proposal,
}

module _ {C : Type 0} (env : Env C) where
  -- The request that a proposal carries.
  abbrev pub request_of : Proposal → Request
  request_of p = (env.request_codec.unmarshal p.content).0

  -- What has been committed, and then what is held, in order.
  abbrev pub history : Zab C → List Request
  history s = s.to_commit_chan ++ map request_of s.proposals_queue.items

  committed_now :
      (done done' : List Request) (held held' : List Proposal) (p : Proposal)
      → held ≡ []
      → held' ≡ held
      → done' ≡ done ++ request_of p ∷ []
      → done' ++ map request_of held' ≡ (done ++ map request_of held) ++ request_of p ∷ []
  committed_now done done' held held' p e e' d = rw (e', e, d) (simp append-nil)

  committed_later :
      (done done' : List Request) (held held' : List Proposal) (p : Proposal)
      → held' ≡ held ++ p ∷ []
      → done' ≡ done
      → done' ++ map request_of held' ≡ (done ++ map request_of held) ++ request_of p ∷ []
  committed_later done done' held held' p e d = rw (e, d) (simp (map-append, append_assoc))

  all_committed :
      (done done' : List Request) (held held' : List Proposal)
      → held' ≡ []
      → done' ≡ done ++ map request_of held
      → done' ++ map request_of held' ≡ done ++ map request_of held
  all_committed done done' held held' e d = rw (e, d) (simp append-nil)

  -- Nothing is held during the catch-up.
  abbrev pub IsOrdered : Zab C → Type 0
  IsOrdered s = s.sync_track.active ≡ true → s.proposals_queue.items ≡ []

  abbrev is_state_change : ProposalType → Bool
  is_state_change state_change = true
  is_state_change _ = false

  -- What a proposal adds: its request, if it is a state change of the coordinator.
  abbrev pub accepted : Proposal → Str → List Request
  accepted p source =
      if env.coordinator == source && is_state_change p.prop_type then request_of p ∷ [] else []

  catch_up-history :
      (p : Proposal) (source : Str) (cap : ℕ) (s : Zab C)
      → let t = catch_up env p source cap s in
        (t.proposals_queue.items ≡ s.proposals_queue.items)
        × (t.to_commit_chan ≡ s.to_commit_chan ++ request_of p ∷ [])
  unfolding catch_up queue_commit_proposal queue_write_proposal signal_sync_finish queue_send
      enqueue_zab_message
  catch_up-history p source cap s = ground arith

  pub hold-history :
      (p : Proposal) (source : Str) (m : ZabMessage) (s : Zab C)
      → let t = hold env p source m s in
        (t.proposals_queue.items ≡ s.proposals_queue.items ++ p ∷ [])
        × (t.to_commit_chan ≡ s.to_commit_chan)
        × (t.sync_track ≡ s.sync_track)
  unfolding hold queue_write_proposal queue_send enqueue_zab_message enqueue
  hold-history p source m s = ground arith

  pub state_change_on :
      (p : Proposal) (source : Str) (m : ZabMessage) (s : Zab C)
      → s.sync_track.active ≡ true
      → process_state_change_proposal env p source m s
        ≡ catch_up env p source s.sync_track.zxid_cap
            (record s { zxid_counter = set_vals s.zxid_counter p.epoch_num p.count_num })
  unfolding process_state_change_proposal read_vals
  state_change_on p source m s on = ground arith

  pub state_change_off :
      (p : Proposal) (source : Str) (m : ZabMessage) (s : Zab C)
      → s.sync_track.active ≡ false
      → process_state_change_proposal env p source m s
        ≡ hold env p source m
            (record s { zxid_counter = set_vals s.zxid_counter p.epoch_num p.count_num })
  unfolding process_state_change_proposal read_vals
  state_change_off p source m s off = ground arith

  state_change-history :
      (p : Proposal) (source : Str) (m : ZabMessage) (s : Zab C)
      → IsOrdered s
      → let t = process_state_change_proposal env p source m s in
        IsOrdered t × (history t ≡ history s ++ request_of p ∷ [])
  state_change-history p source m s h =
      let s0 = record s { zxid_counter = set_vals s.zxid_counter p.epoch_num p.count_num } in
      elim (Bool-cases s.sync_track.active) [
        | inl on ↦
            let facts = catch_up-history p source s.sync_track.zxid_cap s0 in
            rw (state_change_on p source m s on)
              ((λ e. facts.0 ∙ h on), committed_now _ _ _ _ p (h on) facts.0 facts.1)
        | inr off ↦
            let facts = hold-history p source m s0 in
            rw (state_change_off p source m s off)
              ((λ e. absurd (ground arith)), committed_later _ _ _ _ p facts.0 facts.1)
      ]

  pub commit_none :
      (s : Zab C) → s.proposals_queue.items ≡ [] → process_commit_proposal env s ≡ none
  unfolding process_commit_proposal dequeue
  commit_none s e = ground arith

  pub commit_front :
      (s : Zab C) (p : Proposal) (ps : List Proposal)
      → s.proposals_queue.items ≡ p ∷ ps
      → process_commit_proposal env s
        ≡ some (queue_commit_proposal env p (record s { proposals_queue = record { items = ps } }))
  unfolding process_commit_proposal dequeue
  commit_front s p ps e = ground arith

  commit-history_from :
      (s t : Zab C) (held : List Proposal)
      → s.proposals_queue.items ≡ held
      → process_commit_proposal env s ≡ some t
      → (t.sync_track ≡ s.sync_track) × (history t ≡ history s) × (held ≢ [])
  commit-history_from s t [] e h = absurd (none_ne_some _ (commit_none s e) h)
  commit-history_from s t (p ∷ ps) e h =
      let front = commit_front s p ps e in
      let done : t
          ≡ queue_commit_proposal env p (record s { proposals_queue = record { items = ps } }) =
        some_inj (sym h ∙ front) in
      unfold queue_commit_proposal in
      (
        rw done refl,
        rw (done, e) (append_assoc s.to_commit_chan (request_of p ∷ []) (map request_of ps)),
        (λ z. cc),
      )

  pub process_commit-history :
      (s t : Zab C)
      → process_commit_proposal env s ≡ some t
      → (t.sync_track ≡ s.sync_track) × (history t ≡ history s) × (s.proposals_queue.items ≢ [])
  process_commit-history s t h = commit-history_from s t s.proposals_queue.items refl h

  commit_held-history :
      (held : List Proposal) (s : Zab C)
      → let t = commit_held env held s in
        (t.to_commit_chan ≡ s.to_commit_chan ++ map request_of held)
        × (t.proposals_queue.items ≡ [])
        × (t.sync_track ≡ s.sync_track)
  unfolding commit_held queue_commit_proposal
  commit_held-history [] s = (simp append-nil, refl, refl)
  commit_held-history (p ∷ ps) s =
      let s' = queue_commit_proposal env p (record s { proposals_queue = record { items = ps } }) in
      let ih = commit_held-history ps s' in (ih.0 ∙ simp append_assoc, ih.1, ih.2)

  -- The end of the handler of a NewLeader.
  abbrev answer : ℕ → ℕ → Str → ZabMessage → Zab C → Zab C
  answer current latest source m s =
      if current == latest
      then signal_sync_finish env (queue_send env (make_ack m) false source s)
      else send_request env
          (record { req_type = sync; req_number = 0; content = uint32_to_bytes current })
          (record s { sync_track = new_sync s.sync_track latest m })

  answer-commits :
      (current latest : ℕ) (source : Str) (m : ZabMessage) (s : Zab C)
      → let t = answer current latest source m s in
        (t.to_commit_chan ≡ s.to_commit_chan) × (t.proposals_queue.items ≡ s.proposals_queue.items)
  unfolding signal_sync_finish queue_send enqueue_zab_message send_request
  answer-commits current latest source m s = ground arith

  new_leader-answer :
      (p : Proposal) (source : Str) (m : ZabMessage) (s : Zab C) (latest : ℕ)
      → bytes_to_uint32 p.content ≡ some latest
      → let held = s.proposals_queue.items in
        let u = commit_held env held (queue_write_proposal env p s) in
        process_new_leader_proposal env p source m s
        ≡ some (answer (get_latest_zxid u.zxid_counter) latest source m u)
  unfolding process_new_leader_proposal queue_write_proposal
  new_leader-answer p source m s latest e = rw (e, process_new_leader_proposal) refl

  new_leader-history :
      (p : Proposal) (source : Str) (m : ZabMessage) (s t : Zab C)
      → process_new_leader_proposal env p source m s ≡ some t
      → IsOrdered t × (history t ≡ history s)
  unfolding queue_write_proposal
  new_leader-history p source m s t h = elim (Option-cases (bytes_to_uint32 p.content)) [
    | inl e ↦ absurd (unfold process_new_leader_proposal in ground arith)
    | inr (latest, e) ↦
        let held = s.proposals_queue.items in
        let u = commit_held env held (queue_write_proposal env p s) in
        let facts = commit_held-history held (queue_write_proposal env p s) in
        let current = get_latest_zxid u.zxid_counter in
        let ends = answer-commits current latest source m u in
        let done : t ≡ answer current latest source m u =
          some_inj (sym h ∙ new_leader-answer p source m s latest e) in
        rw done
          ((λ z. ends.1 ∙ facts.1), all_committed _ _ _ _ (ends.1 ∙ facts.1) (ends.0 ∙ facts.0))
  ]

  dispatch-history :
      (k : ProposalType) (p : Proposal) (source : Str) (m : ZabMessage) (s t : Zab C)
      → IsOrdered s
      → dispatch env k p source m s ≡ some t
      → IsOrdered t
        × (history t ≡ history s ++ (if is_state_change k then request_of p ∷ [] else []))
  unfolding dispatch
  dispatch-history state_change p source m s t o h =
      rw (sym (some_inj h)) (state_change-history p source m s o)
  dispatch-history commit p source m s t o h =
      let facts = process_commit-history s t h in
      (
        (λ e. absurd (facts.2 (o (ap (λ (k : SyncTracker). k.active) (sym facts.0) ∙ e)))),
        facts.1 ∙ sym (append-nil (history s)),
      )
  dispatch-history new_leader p source m s t o h =
      let facts = new_leader-history p source m s t h in
      (facts.0, facts.1 ∙ sym (append-nil (history s)))
  dispatch-history (ProposalType.unknown k) p source m s t o h = cc

  pub from_coordinator :
      (p : Proposal) (source : Str) (m : ZabMessage) (s : Zab C)
      → (env.coordinator == source) ≡ true
      → process_proposal env p source m s ≡ dispatch env p.prop_type p source m s
  unfolding process_proposal
  from_coordinator p source m s e = rw (e, process_proposal) refl

  pub from_other :
      (p : Proposal) (source : Str) (m : ZabMessage) (s : Zab C)
      → (env.coordinator == source) ≡ false
      → process_proposal env p source m s ≡ some s
  unfolding process_proposal
  from_other p source m s e = rw (e, process_proposal) refl

  -- On a node that holds nothing while it catches up, a proposal that it processes without ending
  -- keeps the history of committed and held requests and appends to it the request of the
  -- proposal if it is a state change of the coordinator, and nothing otherwise; and the node
  -- still holds nothing while it catches up.
  pub process_proposal-history :
      (p : Proposal) (source : Str) (m : ZabMessage) (s t : Zab C)
      → IsOrdered s
      → process_proposal env p source m s ≡ some t
      → IsOrdered t × (history t ≡ history s ++ accepted p source)
  process_proposal-history p source m s t o h = elim (Bool-cases (env.coordinator == source)) [
    | inl from ↦
        let h' : dispatch env p.prop_type p source m s ≡ some t =
          sym (from_coordinator p source m s from) ∙ h in
        rw from (dispatch-history p.prop_type p source m s t o h')
    | inr other ↦
        let same : s ≡ t = some_inj (sym (from_other p source m s other) ∙ h) in
        rw (← same) (rw other (o, sym (append-nil (history s))))
  ]

  -- A state change never ends the process.
  pub process_proposal_total :
      (p : Proposal) (source : Str) (m : ZabMessage) (s : Zab C)
      → p.prop_type ≡ state_change
      → (t : Zab C) × (process_proposal env p source m s ≡ some t)
  unfolding process_proposal dispatch
  process_proposal_total p source m s e = elim (Bool-cases (env.coordinator == source)) [
    | inl from ↦ (
      process_state_change_proposal env p source m s,
      from_coordinator p source m s from ∙ ap (λ k. dispatch env k p source m s) e,
    )
    | inr other ↦ (s, from_other p source m s other)
  ]
