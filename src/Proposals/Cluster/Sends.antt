-- ===== src/Proposals/Cluster/Sends.antt =====
-- What the coordinator sends, by what a follower that handles it does.
use dsc_zookeeper.Prelude.{
  Str, str_eq, nat_eq, List, [], ◌∷◌, ◌++◌, append-nil, Bool, true, false, ◌==◌, if◌then◌else◌,
  some, ◌≡◌, ◌∙◌, refl, sym, ap, arith, Bool-cases, inl, inr,
}
use dsc_zookeeper.Proposals.Types.{ZabMessage, ToSendMessage, NetworkMessage, err, sync_err}
use dsc_zookeeper.Proposals.Queue.{enqueue}
use dsc_zookeeper.Proposals.State.{Env, Zab}
use dsc_zookeeper.Proposals.Send.{queue_send, enqueue_zab_message}
use dsc_zookeeper.Proposals.Cluster.{reaches, is_among}
use dsc_zookeeper.Proposals.Cluster.Replay.{View, view, replay_type, replay, replay-nil, for_server}

module _ {C : Type 0} (env : Env C) where
  -- A server of the ring other than the coordinator.
  pub record IsServed (name : Str) : Type 0 where
    pub in_ring : is_among name env.addresses ≡ true
    pub other : (env.name == name) ≡ false

  -- From `s` to `s'` the coordinator queues messages, and a follower that handles those of them
  -- that reach it goes from the view of `s` to the view of `s'`.
  pub record Sends (s s' : Zab C) : Type 0 where
    pub messages : List ToSendMessage
    pub queued : s'.sending_queue.items ≡ s.sending_queue.items ++ messages
    pub replayed :
        (name : Str)
        → IsServed name
        → replay env (for_server env name messages) (view env s) ≡ some (view env s')

  pub nothing_sent :
      (s s' : Zab C)
      → s'.sending_queue.items ≡ s.sending_queue.items
      → s'.to_commit_chan ≡ s.to_commit_chan
      → s'.proposals_queue.items ≡ s.proposals_queue.items
      → Sends s s'
  unfolding for_server replay
  nothing_sent s s' q d h = record {
    messages = [];
    queued = q ∙ sym (append-nil s.sending_queue.items);
    replayed = λ name served. rw (d, h) refl;
  }

  pub for_server-one :
      (name : Str) (m : ToSendMessage)
      → for_server env name (m ∷ []) ≡ (if reaches env m name then m.msg ∷ [] else [])
  unfolding for_server
  for_server-one name m = refl

  pub one_sent :
      (s s' : Zab C) (m : ToSendMessage)
      → s'.sending_queue.items ≡ s.sending_queue.items ++ m ∷ []
      → ((name : Str)
          → IsServed name
          → replay env (if reaches env m name then m.msg ∷ [] else []) (view env s)
            ≡ some (view env s'))
      → Sends s s'
  one_sent s s' m q h = record {
    messages = m ∷ [];
    queued = q;
    replayed = λ name served. rw (for_server-one name m) (h name served);
  }

  pub reaches_all :
      (msg : ZabMessage) (target name : Str)
      → IsServed name
      → reaches env (record { msg = msg; broadcast = true; target = target }) name ≡ true
  unfolding reaches
  reaches_all msg target name served = rw (served.in_ring, served.other) refl

  -- A message that followers do nothing about.
  abbrev pub IsIdle : ZabMessage → Type 0
  IsIdle m = (v : View) → replay env (m ∷ []) v ≡ some v

  pub err-IsIdle : (m : ZabMessage) → m.zab_type ≡ err → IsIdle m
  unfolding replay replay_type
  err-IsIdle m e v = rw e refl

  pub sync_err-IsIdle : (m : ZabMessage) → m.zab_type ≡ sync_err → IsIdle m
  unfolding replay replay_type
  sync_err-IsIdle m e v = rw e refl

  -- The parts of a state that the followers' view of it depends on.
  abbrev pub IsAlike : Zab C → Zab C → Type 0
  IsAlike s s' =
      (s'.sending_queue.items ≡ s.sending_queue.items)
      × (s'.to_commit_chan ≡ s.to_commit_chan)
      × (s'.proposals_queue.items ≡ s.proposals_queue.items)

  pub enqueue-IsAlike : (m : NetworkMessage) (s : Zab C) → IsAlike s (enqueue_zab_message env m s)
  unfolding enqueue_zab_message
  enqueue-IsAlike m s = ground arith

  pub alike_sent : (s s' : Zab C) → IsAlike s s' → Sends s s'
  alike_sent s s' h = nothing_sent s s' h.0 h.1 h.2

  -- A step from a state that looks the same.
  pub sent_from : (s s1 t : Zab C) → IsAlike s s1 → Sends s1 t → Sends s t
  sent_from s s1 t h sent = record {
    messages = sent.messages;
    queued = sent.queued ∙ ap (λ (q : List ToSendMessage). q ++ sent.messages) h.0;
    replayed = λ name served.
        ap (λ (v : View). replay env (for_server env name sent.messages) v)
          (same_view (sym h.1) (sym h.2))
        ∙ sent.replayed name served;
  }
    where
      same_view :
          s.to_commit_chan ≡ s1.to_commit_chan
          → s.proposals_queue.items ≡ s1.proposals_queue.items
          → view env s ≡ view env s1
      same_view d q = rw (d, q) refl

  pub queue_send_self :
      (m : ZabMessage) (b : Bool) (target : Str) (s : Zab C)
      → (env.name == target) ≡ true
      → IsAlike s (queue_send env m b target s)
  unfolding queue_send
  queue_send_self m b target s own = rw (own, queue_send) (enqueue-IsAlike _ s)

  pub idle_or_none :
      (m : ZabMessage) (b : Bool) (v : View)
      → IsIdle m
      → replay env (if b then m ∷ [] else []) v ≡ some v
  idle_or_none m true v idle = idle v
  idle_or_none m false v idle = replay-nil env v

  pub queue_send-idle :
      (m : ZabMessage) (target : Str) (s : Zab C)
      → IsIdle m
      → Sends s (queue_send env m false target s)
  unfolding queue_send enqueue
  queue_send-idle m target s idle = elim (Bool-cases (env.name == target)) [
    | inl own ↦ alike_sent s _ (queue_send_self m false target s own)
    | inr other ↦
        let sent : ToSendMessage = record { msg = m; broadcast = false; target = target } in
        rw (other, queue_send)
          (one_sent s _ sent refl (λ name served. idle_or_none m (reaches env sent name) _ idle))
  ]
