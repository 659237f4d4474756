-- ===== src/Proposals/Cluster/Acks.antt =====
-- The coordinator's handler of ACKs (proposals.go), by what it queues for the followers.
use dsc_zookeeper.Prelude.{
  ◌/◌, str_eq, nat_eq, List, [], ◌∷◌, ◌++◌, map, true, false, not, ◌&&◌, ◌==◌, none, some, ◌>>=◌,
  >>=-eq-some, some_inj, none_ne_some, ◌≡◌, ◌∙◌, refl, sym, ap, Bool-cases, inl, inr, codes,
  IsExact, ◌⊎◌,
}
use dsc_zookeeper.Proposals.Types.{ToSendMessage, NetworkMessage, Proposal, prop}
use dsc_zookeeper.Proposals.Words.{get_zxid_as_int}
use dsc_zookeeper.Proposals.Ack.{increment_or_remove}
use dsc_zookeeper.Proposals.SyncTrack.{decrement}
use dsc_zookeeper.Prelude.Int.{is_zero}
use dsc_zookeeper.Proposals.Queue.{enqueue}
use dsc_zookeeper.Proposals.State.{Env, Zab, zero_proposal}
use dsc_zookeeper.Proposals.Send.{
  queue_send, broadcast_commit, queue_commit_proposal, enqueue_zab_message,
}
use dsc_zookeeper.Proposals.Follower.{process_commit_proposal}
use dsc_zookeeper.Proposals.Leader.{
  is_new_leader, unload, unload_holding_queue, finish_sync, count_down, count_ack, process_ack,
}
use dsc_zookeeper.Proposals.Order.{request_of, commit_front, commit_none}
use dsc_zookeeper.Proposals.Cluster.Replay.{view, commit_one, replay_proposal}
use dsc_zookeeper.Proposals.Cluster.Sends.{Sends, IsAlike, enqueue-IsAlike, alike_sent, sent_from}
use dsc_zookeeper.Proposals.Cluster.Writes.{broadcast-sent}

module _ {C : Type 0} (env : Env C) where
  module _ (named : (env.name == []) ≡ false) (pe : IsExact env.proposal_codec) where
    pub unload-IsAlike :
        (held : List NetworkMessage) (s : Zab C) → IsAlike env s (unload env held s)
    unfolding unload
    unload-IsAlike [] s = (refl, refl, refl)
    unload-IsAlike (m ∷ ms) s =
        let s1 = record s { holding_requests_queue = record { items = ms } } in
        let first = enqueue-IsAlike env m s1 in
        let rest = unload-IsAlike ms (enqueue_zab_message env m s1) in
        (rest.0 ∙ first.0, rest.1 ∙ first.1, rest.2 ∙ first.2)

    pub commit_view_from :
        (s t : Zab C) (held : List Proposal)
        → s.proposals_queue.items ≡ held
        → process_commit_proposal env s ≡ some t
        → (commit_one (s.to_commit_chan, map (request_of env) held) ≡ some (view env t))
          × (t.sending_queue.items ≡ s.sending_queue.items)
    commit_view_from s t [] e h = absurd (none_ne_some _ (commit_none env s e) h)
    commit_view_from s t (p ∷ ps) e h =
        let done : t
            ≡ queue_commit_proposal env p (record s { proposals_queue = record { items = ps } }) =
          some_inj (sym h ∙ commit_front env s p ps e) in
        unfold queue_commit_proposal commit_one in (rw done refl, rw done refl)

    pub commit_view :
        (s t : Zab C)
        → process_commit_proposal env s ≡ some t
        → (commit_one (view env s) ≡ some (view env t))
          × (t.sending_queue.items ≡ s.sending_queue.items)
    commit_view s t h = commit_view_from s t s.proposals_queue.items refl h

    -- The state with the ACK counted.
    abbrev pub counted : Proposal → Zab C → Zab C
    counted p s = record s {
      ack_counter =
          (increment_or_remove s.ack_counter (get_zxid_as_int p.epoch_num p.count_num)
            (s.n_systems / 2)).0;
    }

    pub count_down-IsAlike : (s : Zab C) → IsAlike env s (count_down env s)
    unfolding count_down finish_sync unload_holding_queue
    count_down-IsAlike s =
        let s1 = record s { sync_response_tracker = decrement s.sync_response_tracker } in
        elim (Bool-cases (is_zero s1.sync_response_tracker.count)) [
          | inl last ↦
              rw (last, count_down)
                (unload-IsAlike s.holding_requests_queue.items
                  (record s1 { requests_processing_enabled = true; syncing = false }))
          | inr more ↦ rw (more, count_down) (refl, refl, refl)
        ]

    abbrev pub commit_message : ToSendMessage
    commit_message = record {
      msg = record { zab_type = prop; content = env.proposal_codec.marshal zero_proposal };
      broadcast = true;
      target = [];
    }

    pub broadcast_commit-sent :
        (s t : Zab C)
        → t.sending_queue.items ≡ s.sending_queue.items
        → commit_one (view env s) ≡ some (view env t)
        → Sends env s (broadcast_commit env t)
    unfolding broadcast_commit queue_send enqueue replay_proposal
    broadcast_commit-sent s t q h =
        rw (named, broadcast_commit)
          (broadcast-sent env named pe s zero_proposal _
            (ap (λ (ms : List ToSendMessage). ms ++ commit_message ∷ []) q) h)

    pub count_ack-enough :
        (p : Proposal) (s : Zab C)
        → (increment_or_remove s.ack_counter
            (get_zxid_as_int p.epoch_num p.count_num)
            (s.n_systems / 2)).1
          ≡ true
        → count_ack env p s
          ≡ (process_commit_proposal env (counted p s) >>= λ t. some (broadcast_commit env t))
    unfolding count_ack
    count_ack-enough p s e = rw (e, count_ack) refl

    pub count_ack-few :
        (p : Proposal) (s : Zab C)
        → (increment_or_remove s.ack_counter
            (get_zxid_as_int p.epoch_num p.count_num)
            (s.n_systems / 2)).1
          ≡ false
        → count_ack env p s ≡ some (counted p s)
    unfolding count_ack
    count_ack-few p s e = rw (e, count_ack) refl

    pub count_ack-sent :
        (p : Proposal) (s s' : Zab C) → count_ack env p s ≡ some s' → Sends env s s'
    count_ack-sent p s s' h =
        let flag =
          (increment_or_remove s.ack_counter (get_zxid_as_int p.epoch_num p.count_num)
            (s.n_systems / 2)).1 in
        elim (Bool-cases flag) [
          | inl e ↦
              let (t, committed, done) = >>=-eq-some _ _ (sym (count_ack-enough p s e) ∙ h) in
              let facts = commit_view (counted p s) t committed in
              rw (← some_inj done) (
                sent_from env s (counted p s) (broadcast_commit env t) (refl, refl, refl)
                  (broadcast_commit-sent (counted p s) t facts.1 facts.0))
          | inr e ↦
              rw (← some_inj (sym (count_ack-few p s e) ∙ h))
                (alike_sent env s (counted p s) (refl, refl, refl))
        ]

    pub ack-cases :
        (p : Proposal) (s : Zab C)
        → (process_ack env p s ≡ none)
          ⊎ ((process_ack env p s ≡ some s)
              ⊎ ((process_ack env p s ≡ count_ack env p s)
                  ⊎ (process_ack env p s ≡ count_ack env p (count_down env s))))
    unfolding process_ack
    ack-cases p s = elim (Bool-cases (is_new_leader env p.prop_type)) [
      | inr other ↦ inr (inr (inl (rw (other, process_ack) refl)))
      | inl opening ↦
          elim (Bool-cases (env.test_mode == codes "mode3" && env.name == codes "server4")) [
            | inl ends ↦ inl (rw (opening, process_ack) (rw ends refl))
            | inr goes ↦
                elim (Bool-cases (
                  not s.requests_processing_enabled
                  && (p.count_num == s.current_sync.count_num
                      && p.epoch_num == s.current_sync.epoch_num))) [
                        | inl awaited ↦
                            inr (inr (inr (rw (opening, process_ack) (rw goes (rw awaited refl)))))
                        | inr stale ↦
                            inr (inl (rw (opening, process_ack) (rw goes (rw stale refl))))
                      ]
          ]
    ]

    pub ack-sent : (p : Proposal) (s s' : Zab C) → process_ack env p s ≡ some s' → Sends env s s'
    ack-sent p s s' h = elim (ack-cases p s) [
      | inl e ↦ absurd (none_ne_some _ e h)
      | inr (inl e) ↦ rw (← some_inj (sym e ∙ h)) (alike_sent env s s (refl, refl, refl))
      | inr (inr (inl e)) ↦ count_ack-sent p s s' (sym e ∙ h)
      | inr (inr (inr e)) ↦
          sent_from env s (count_down env s) s' (count_down-IsAlike s)
            (count_ack-sent p (count_down env s) s' (sym e ∙ h))
    ]
