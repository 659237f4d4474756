-- ===== src/Proposals/Cluster/Writes.antt =====
-- The coordinator's handlers of requests (proposals.go), by what they queue for the followers.
use mathlib.Core.List.{map-append}
use dsc_zookeeper.Prelude.{
  ℕ, Str, str_eq, nat_eq, List, [], ◌∷◌, ◌++◌, Bool, true, false, ◌==◌, some, some_inj, ◌≡◌, ◌∙◌,
  refl, sym, ap, arith, Bool-cases, Option-cases, inl, inr, IsExact, ltb, ◌⊎◌,
}
use dsc_zookeeper.Proposals.Types.{Proposal, Request, RequestType, prop, write, sync}
use dsc_zookeeper.Proposals.Words.{bytes_to_uint32, decompose_zxid}
use dsc_zookeeper.Proposals.State.{Env, Zab}
use dsc_zookeeper.Proposals.Send.{reply_sync_request_error}
use dsc_zookeeper.Proposals.Leader.{by_type, deny, process_write_request, process_sync_request}
use dsc_zookeeper.Proposals.Requests.{process_write_request-accepted, proposal_for}
use dsc_zookeeper.Proposals.Cluster.Replay.{view, replay_proposal, replay_type, replay}
use dsc_zookeeper.Proposals.Cluster.Sends.{
  Sends, one_sent, reaches_all, err-IsIdle, sync_err-IsIdle, IsAlike, alike_sent, sent_from,
  queue_send-idle,
}

module _ {C : Type 0} (env : Env C) where
  module _ (named : (env.name == []) ≡ false) (pe : IsExact env.proposal_codec) where
    pub broadcast-sent :
        (s : Zab C) (p : Proposal) (s' : Zab C)
        → s'.sending_queue.items
          ≡ s.sending_queue.items
            ++ record {
              msg = record { zab_type = prop; content = env.proposal_codec.marshal p };
              broadcast = true;
              target = [];
            }
              ∷ []
        → replay_proposal env p.prop_type p (view env s) ≡ some (view env s')
        → Sends env s s'
    unfolding replay replay_type
    broadcast-sent s p s' q h =
        one_sent env s s' _ q
          (λ name served. rw (reaches_all env _ [] name served) (rw (pe.exact p) (rw h refl)))

    pub accepted-sent :
        (r : Request) (remote_id : Str) (s : Zab C) (c : C) (updated : List ℕ)
        → env.request_checker s.checker r.content ≡ (c, updated, true)
        → Sends env s (process_write_request env r remote_id s)
    unfolding replay_proposal
    accepted-sent r remote_id s c updated h =
        rw (process_write_request-accepted env r remote_id s c updated h named) (
          broadcast-sent s (proposal_for env r remote_id s c updated) _ refl
            (ap (λ (held : List Request). some (s.to_commit_chan, held)) (sym (map-append _ _ _))))

    pub denied-sent :
        (r : Request) (remote_id : Str) (s : Zab C) (c : C) (updated : List ℕ)
        → env.request_checker s.checker r.content ≡ (c, updated, false)
        → Sends env s (process_write_request env r remote_id s)
    unfolding process_write_request deny
    denied-sent r remote_id s c updated h =
        rw (h, process_write_request)
          (elim (Bool-cases (env.name == remote_id)) [
            | inl own ↦ rw own (alike_sent env s _ (refl, refl, refl))
            | inr other ↦ rw other (
                sent_from env s (record s { checker = c }) _ (refl, refl, refl)
                  (queue_send-idle env _ remote_id (record s { checker = c })
                    (err-IsIdle env _ refl)))
          ])

    pub write-sent :
        (r : Request) (remote_id : Str) (s : Zab C)
        → Sends env s (process_write_request env r remote_id s)
    write-sent r remote_id s =
        let result = env.request_checker s.checker r.content in
        elim (Bool-cases result.2) [
          | inl passed ↦
              accepted-sent r remote_id s result.0 result.1
                (ap (λ (b : Bool). (result.0, result.1, b)) passed)
          | inr denied ↦
              denied-sent r remote_id s result.0 result.1
                (ap (λ (b : Bool). (result.0, result.1, b)) denied)
        ]

  abbrev pub with_job : Request → Str → Zab C → ℕ → Zab C
  with_job r remote_id s z = record s {
    sync_jobs =
        s.sync_jobs
        ++ record {
          request = r;
          remote_id = remote_id;
          sent_epoch = (decompose_zxid z).0;
          sent_count = (decompose_zxid z).1;
          highest_epoch = s.zxid_counter.epoch_num;
          highest_count = s.zxid_counter.count_num;
        }
          ∷ [];
  }

  pub sync_request_lem :
      (r : Request) (remote_id : Str) (s : Zab C) (z : ℕ)
      → bytes_to_uint32 r.content ≡ some z
      → (t : Zab C) × (process_sync_request env r remote_id s ≡ some t)
        × ((t ≡ reply_sync_request_error env r remote_id s) ⊎ IsAlike env s t)
  unfolding process_sync_request
  sync_request_lem r remote_id s z e =
      elim (Bool-cases (ltb s.zxid_counter.epoch_num (decompose_zxid z).0)) [
        | inl later ↦ (_, rw (e, process_sync_request) (rw later refl), inl refl)
        | inr known ↦ (
          with_job r remote_id s z,
          rw (e, process_sync_request) (rw known refl),
          inr (refl, refl, refl),
        )
      ]

  pub sync-sent :
      (r : Request) (remote_id : Str) (s s' : Zab C)
      → process_sync_request env r remote_id s ≡ some s'
      → Sends env s s'
  unfolding reply_sync_request_error
  sync-sent r remote_id s s' h = elim (Option-cases (bytes_to_uint32 r.content)) [
    | inl e ↦ absurd (unfold process_sync_request in ground arith)
    | inr (z, e) ↦
        let (t, ran, kind) = sync_request_lem r remote_id s z e in
        let same : t ≡ s' = some_inj (sym ran ∙ h) in
        rw (← same) (elim kind [
          | inl replied ↦
              rw replied (queue_send-idle env _ remote_id s (sync_err-IsIdle env _ refl))
          | inr alike ↦ alike_sent env s t alike
        ])
  ]

  module _ (named : (env.name == []) ≡ false) (pe : IsExact env.proposal_codec) where
    pub request-sent :
        (t : RequestType) (r : Request) (remote_id : Str) (s s' : Zab C)
        → by_type env t r remote_id s ≡ some s'
        → Sends env s s'
    unfolding by_type
    request-sent write r remote_id s s' h = rw (← some_inj h) (write-sent named pe r remote_id s)
    request-sent sync r remote_id s s' h = sync-sent r remote_id s s' h
    request-sent (RequestType.unknown k) r remote_id s s' h =
        rw (← some_inj h) (alike_sent env s s (refl, refl, refl))
