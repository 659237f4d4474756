-- ===== src/Proposals/CatchUp/Kept/Quiet.antt =====
-- The handlers of proposals.go that leave the log of a coordinator as it is.
use dsc_zookeeper.Prelude.{
  IsExact, ℕ, ◌/◌, ◌≡◌, refl, sym, ◌∙◌, nat_eq, str_eq, Str, List, [], ◌∷◌, Bool, true, false, ◌==◌,
  some, Bool-cases, Option-cases, inl, inr, some_inj, none_ne_some, >>=-eq-some, ltb, arith,
}
use dsc_zookeeper.Prelude.Int.{is_zero}
use dsc_zookeeper.Proposals.Types.{ZabMessage, Proposal, Request, NetworkMessage}
use dsc_zookeeper.Proposals.Words.{get_zxid_as_int, bytes_to_uint32, decompose_zxid}
use dsc_zookeeper.Proposals.Ack.{increment_or_remove}
use dsc_zookeeper.Proposals.SyncTrack.{decrement}
use dsc_zookeeper.Proposals.State.{Env, Zab}
use dsc_zookeeper.Proposals.Send.{
  queue_send, queue_commit_proposal, broadcast_commit, enqueue_zab_message,
  reply_sync_request_error,
}
use dsc_zookeeper.Proposals.Follower.{process_commit_proposal}
use dsc_zookeeper.Proposals.Leader.{
  deny, unload, unload_holding_queue, finish_sync, count_down, count_ack, process_ack,
  process_sync_request,
}
use dsc_zookeeper.Proposals.Order.{commit_front, commit_none}
use dsc_zookeeper.Proposals.Cluster.Acks.{counted, count_ack-enough, count_ack-few, ack-cases}
use dsc_zookeeper.Proposals.Cluster.Writes.{with_job}
use dsc_zookeeper.Proposals.CatchUp.Kept.{IsKept}

-- `t` has the log of `s`, and opens an epoch only if `s` does.
pub record IsQuiet {C : Type 0} (s t : Zab C) : Type 0 where
  pub counter : t.zxid_counter ≡ s.zxid_counter
  pub chan : t.new_proposal_chan ≡ s.new_proposal_chan
  pub current : t.current_sync ≡ s.current_sync
  pub opens :
      t.syncing ≡ true
      → (s.syncing ≡ true) × (t.requests_processing_enabled ≡ s.requests_processing_enabled)

module _ {C : Type 0} where
  -- The log is four fields of the state, and the flag for requests.
  pub alike-IsQuiet :
      (s t : Zab C)
      → t.zxid_counter ≡ s.zxid_counter
      → t.new_proposal_chan ≡ s.new_proposal_chan
      → t.current_sync ≡ s.current_sync
      → t.syncing ≡ s.syncing
      → t.requests_processing_enabled ≡ s.requests_processing_enabled
      → IsQuiet s t
  alike-IsQuiet s t e1 e2 e3 e4 e5 = record {
    counter = e1;
    chan = e2;
    current = e3;
    opens = (λ h. (sym e4 ∙ h, e5));
  }

  pub same-IsQuiet : (s : Zab C) → IsQuiet s s
  same-IsQuiet s = alike-IsQuiet s s refl refl refl refl refl

  pub IsQuiet-trans : (s t u : Zab C) → IsQuiet s t → IsQuiet t u → IsQuiet s u
  IsQuiet-trans s t u a b = record {
    counter = b.counter ∙ a.counter;
    chan = b.chan ∙ a.chan;
    current = b.current ∙ a.current;
    opens = (λ h. let x = b.opens h in let y = a.opens x.0 in (y.0, x.1 ∙ y.1));
  }

  pub quiet-IsKept : (ps : List Proposal) (s t : Zab C) → IsQuiet s t → IsKept ps s → IsKept ps t
  quiet-IsKept ps s t q k = record {
    logged = rw (q.counter, q.chan) k.logged;
    opening = (λ h.
        let (was, waits) = q.opens h in
        let o = k.opening was in
        record {
          opens = rw q.current o.opens;
          epoch = rw (q.current, q.counter) o.epoch;
          count = rw q.current o.count;
          later = rw q.counter o.later;
          unwritten = rw q.counter o.unwritten;
          waits = waits ∙ o.waits;
        });
  }

module _ {C : Type 0} (env : Env C) where
  pub enqueue_zab_message-IsQuiet :
      (m : NetworkMessage) (s : Zab C) → IsQuiet s (enqueue_zab_message env m s)
  unfolding enqueue_zab_message
  enqueue_zab_message-IsQuiet m s = elim (Bool-cases (env.zab_codec.unmarshal m.message).1) [
    | inl reads ↦ rw (reads, enqueue_zab_message) (alike-IsQuiet s _ refl refl refl refl refl)
    | inr fails ↦ rw (fails, enqueue_zab_message) (same-IsQuiet s)
  ]

  pub queue_send-IsQuiet :
      (m : ZabMessage) (b : Bool) (remote : Str) (s : Zab C)
      → IsQuiet s (queue_send env m b remote s)
  unfolding queue_send
  queue_send-IsQuiet m b remote s = elim (Bool-cases (env.name == remote)) [
    | inl own ↦ rw own (enqueue_zab_message-IsQuiet _ s)
    | inr other ↦ rw other (alike-IsQuiet s _ refl refl refl refl refl)
  ]

  pub deny-IsQuiet :
      (r : Request) (updated : List ℕ) (remote_id : Str) (s : Zab C)
      → IsQuiet s (deny env r updated remote_id s)
  unfolding deny
  deny-IsQuiet r updated remote_id s = elim (Bool-cases (env.name == remote_id)) [
    | inl own ↦ rw own (same-IsQuiet s)
    | inr other ↦ rw other (queue_send-IsQuiet _ false remote_id s)
  ]

  unload-IsQuiet : (held : List NetworkMessage) (s : Zab C) → IsQuiet s (unload env held s)
  unfolding unload
  unload-IsQuiet [] s = alike-IsQuiet s _ refl refl refl refl refl
  unload-IsQuiet (m ∷ ms) s =
      let s1 = record s { holding_requests_queue = record { items = ms } } in
      IsQuiet-trans s (enqueue_zab_message env m s1) _
        (IsQuiet-trans s s1 _ (alike-IsQuiet s s1 refl refl refl refl refl)
          (enqueue_zab_message-IsQuiet m s1))
        (unload-IsQuiet ms (enqueue_zab_message env m s1))

  -- After it no epoch waits any more.
  finish_sync-IsQuiet : (s : Zab C) → IsQuiet s (finish_sync env s)
  unfolding finish_sync unload_holding_queue
  finish_sync-IsQuiet s =
      let s1 = record s { requests_processing_enabled = true; syncing = false } in
      IsQuiet-trans s s1 _
        (record { counter = refl; chan = refl; current = refl; opens = (λ h. absurd cc) })
        (unload-IsQuiet s.holding_requests_queue.items s1)

  count_down-IsQuiet : (s : Zab C) → IsQuiet s (count_down env s)
  unfolding count_down
  count_down-IsQuiet s =
      let s1 = record s { sync_response_tracker = decrement s.sync_response_tracker } in
      let first = alike-IsQuiet s s1 refl refl refl refl refl in
      elim (Bool-cases (is_zero s1.sync_response_tracker.count)) [
        | inl last ↦
            rw (last, count_down)
              (IsQuiet-trans s s1 (finish_sync env s1) first (finish_sync-IsQuiet s1))
        | inr more ↦ rw (more, count_down) first
      ]

  commit_from-IsQuiet :
      (s t : Zab C) (held : List Proposal)
      → s.proposals_queue.items ≡ held
      → process_commit_proposal env s ≡ some t
      → IsQuiet s t
  commit_from-IsQuiet s t [] e h = absurd (none_ne_some _ (commit_none env s e) h)
  commit_from-IsQuiet s t (p ∷ ps) e h =
      let done : t
          ≡ queue_commit_proposal env p (record s { proposals_queue = record { items = ps } }) =
        some_inj (sym h ∙ commit_front env s p ps e) in
      unfold queue_commit_proposal in rw done (alike-IsQuiet s _ refl refl refl refl refl)

  module _ (named : (env.name == []) ≡ false) (pe : IsExact env.proposal_codec) where
    count_ack-IsQuiet : (p : Proposal) (s t : Zab C) → count_ack env p s ≡ some t → IsQuiet s t
    unfolding broadcast_commit
    count_ack-IsQuiet p s t h =
        let flag =
          (increment_or_remove s.ack_counter (get_zxid_as_int p.epoch_num p.count_num)
            (s.n_systems / 2)).1 in
        let s1 = counted env named pe p s in
        let first : IsQuiet s s1 = alike-IsQuiet s s1 refl refl refl refl refl in
        elim (Bool-cases flag) [
          | inl e ↦
              let (v, committed, done) =
                >>=-eq-some _ _ (sym (count_ack-enough env named pe p s e) ∙ h) in
              let ends : broadcast_commit env v ≡ t = some_inj done in
              rw (← ends) (
                IsQuiet-trans s v _
                  (IsQuiet-trans s s1 v first
                    (commit_from-IsQuiet s1 v s1.proposals_queue.items refl committed))
                  (queue_send-IsQuiet _ true [] v))
          | inr e ↦ rw (← some_inj (sym (count_ack-few env named pe p s e) ∙ h)) first
        ]

    pub process_ack-IsQuiet :
        (p : Proposal) (s t : Zab C) → process_ack env p s ≡ some t → IsQuiet s t
    process_ack-IsQuiet p s t h = elim (ack-cases env named pe p s) [
      | inl e ↦ absurd (none_ne_some _ e h)
      | inr (inl e) ↦ rw (← some_inj (sym e ∙ h)) (same-IsQuiet s)
      | inr (inr (inl e)) ↦ count_ack-IsQuiet p s t (sym e ∙ h)
      | inr (inr (inr e)) ↦
          IsQuiet-trans s (count_down env s) t (count_down-IsQuiet s)
            (count_ack-IsQuiet p (count_down env s) t (sym e ∙ h))
    ]

  pub sync-IsQuiet :
      (r : Request) (remote_id : Str) (s t : Zab C)
      → process_sync_request env r remote_id s ≡ some t
      → IsQuiet s t
  unfolding process_sync_request reply_sync_request_error
  sync-IsQuiet r remote_id s t h = elim (Option-cases (bytes_to_uint32 r.content)) [
    | inl e ↦ absurd (ground arith)
    | inr (z, e) ↦ elim (Bool-cases (ltb s.zxid_counter.epoch_num (decompose_zxid z).0)) [
      | inl later ↦
          let done : reply_sync_request_error env r remote_id s ≡ t = ground arith in
          rw (← done) (queue_send-IsQuiet _ false remote_id s)
      | inr known ↦
          let ran : process_sync_request env r remote_id s ≡ some (with_job env r remote_id s z) =
            rw (e, process_sync_request) (rw known refl) in
          rw (← some_inj (sym ran ∙ h)) (alike-IsQuiet s _ refl refl refl refl refl)
    ]
  ]
