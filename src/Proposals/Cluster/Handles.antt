-- ===== src/Proposals/Cluster/Handles.antt =====
-- A step of the coordinator, by what it queues for the followers.
use dsc_zookeeper.Prelude.{
  ℕ, ◌+◌, str_eq, nat_eq, Bytes, [], false, ◌&&◌, ◌||◌, ◌==◌, none, some, some_inj, none_ne_some,
  ◌≡◌, ◌≢◌, ◌∙◌, refl, sym, arith, Bool-cases, inl, inr, codes, IsExact, ◌⊎◌,
}
use dsc_zookeeper.Proposals.Types.{
  ZabMessage, ZabMessageType, NetworkMessage, prop, err, sync_err, req, ack,
}
use dsc_zookeeper.Proposals.Queue.{enqueue}
use dsc_zookeeper.Proposals.State.{Env, Zab}
use dsc_zookeeper.Proposals.Send.{send_write_request, send_request}
use dsc_zookeeper.Proposals.Leader.{by_type, process_request}
use dsc_zookeeper.Proposals.Process
use dsc_zookeeper.Proposals.Process.{is_sync, process_req, process_zab_message}
use dsc_zookeeper.Proposals.Cluster.{type_of}
use dsc_zookeeper.Proposals.Cluster.Sends.{Sends, IsAlike, alike_sent, sent_from, queue_send_self}
use dsc_zookeeper.Proposals.Cluster.Writes.{request-sent}
use dsc_zookeeper.Proposals.Cluster.Acks.{ack-sent}

module _ {C : Type 0} (env : Env C) where
  module _ (named : (env.name == []) ≡ false) (pe : IsExact env.proposal_codec) where
    abbrev pub with_count : Zab C → Zab C
    with_count s = record s { mode4_msg_count = s.mode4_msg_count + 1 }

    pub req-cases :
        (msg : ZabMessage) (m : NetworkMessage) (s : Zab C)
        → let r = (env.request_codec.unmarshal msg.content).0 in
          (process_req env msg m s ≡ none)
          ⊎ ((process_req env msg m s ≡ by_type env r.req_type r m.remote (with_count s))
              ⊎ ((t : Zab C) × (process_req env msg m s ≡ some t) × IsAlike env s t))
    unfolding process_req process_request
    req-cases msg m s =
        let r = (env.request_codec.unmarshal msg.content).0 in
        elim (Bool-cases (
          env.test_mode == codes "mode4"
          && (env.name == codes "server3" && s.mode4_msg_count + 1 == 5))) [
            | inl ends ↦ inl (rw (ends, process_req) refl)
            | inr goes ↦
                elim (Bool-cases (s.requests_processing_enabled || is_sync env r.req_type)) [
                  | inl runs ↦ inr (inl (rw (goes, process_req) (rw runs refl)))
                  | inr waits ↦ inr (
                      inr (
                        record (with_count s) {
                          holding_requests_queue = enqueue s.holding_requests_queue m;
                        },
                        rw (goes, process_req) (rw waits refl),
                        (refl, refl, refl),
                      ))
                ]
          ]

    pub req-sent :
        (msg : ZabMessage) (m : NetworkMessage) (s s' : Zab C)
        → process_req env msg m s ≡ some s'
        → Sends env s s'
    req-sent msg m s s' h = elim (req-cases msg m s) [
      | inl e ↦ absurd (none_ne_some _ e h)
      | inr (inl e) ↦
          sent_from env s (with_count s) s' (refl, refl, refl)
            (request-sent env named pe _ (env.request_codec.unmarshal msg.content).0 m.remote
              (with_count s) s' (sym e ∙ h))
      | inr (inr (t, e, alike)) ↦ rw (← some_inj (sym e ∙ h)) (alike_sent env s t alike)
    ]

    pub type-sent :
        (k : ZabMessageType) (msg : ZabMessage) (m : NetworkMessage) (s s' : Zab C)
        → k ≢ prop
        → Process.by_type env k msg m s ≡ some s'
        → Sends env s s'
    unfolding Process.by_type
    type-sent req msg m s s' other h = req-sent msg m s s' h
    type-sent prop msg m s s' other h = absurd (other refl)
    type-sent ack msg m s s' other h = ack-sent env named pe _ s s' h
    type-sent err msg m s s' other h = rw (← some_inj h) (alike_sent env s _ (refl, refl, refl))
    type-sent sync_err msg m s s' other h =
        rw (← some_inj h) (alike_sent env s s (refl, refl, refl))
    type-sent (ZabMessageType.unknown k) msg m s s' other h =
        rw (← some_inj h) (alike_sent env s s (refl, refl, refl))

    -- Whatever message the coordinator handles, but a proposal, it goes on in step with what it
    -- queues for its followers.
    pub process_zab_message-Sends :
        (m : NetworkMessage) (s s' : Zab C)
        → type_of env m ≢ prop
        → process_zab_message env m s ≡ some s'
        → Sends env s s'
    unfolding process_zab_message
    process_zab_message-Sends m s s' other h =
        elim (Bool-cases (env.zab_codec.unmarshal m.message).1) [
          | inl decoded ↦
              let msg = (env.zab_codec.unmarshal m.message).0 in
              type-sent msg.zab_type msg m s s' other (ground arith)
          | inr bad ↦
              let same : s ≡ s' = ground arith in
              rw (← same) (alike_sent env s s (refl, refl, refl))
        ]

    pub send_write_request-Sends :
        (content : Bytes) (n : ℕ) (s : Zab C)
        → env.coordinator ≡ env.name
        → Sends env s (send_write_request env content n s)
    unfolding send_write_request send_request
    send_write_request-Sends content n s leads =
        alike_sent env s _
          (queue_send_self env _ false env.coordinator s ((str_eq.beq_iff _ _).1 (sym leads)))
