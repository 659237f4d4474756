-- ===== src/Proposals/Cluster/Invariant.antt =====
-- The invariant of a cluster in one epoch, and what it says of the servers' commits.
use dsc_zookeeper.Prelude.{
  ℕ, str_eq, Bytes, List, [], ◌∷◌, ◌++◌, map, append_assoc, false, ◌==◌, if◌then◌else◌, Option,
  none, some, >>=-eq-some, some_inj, none_ne_some, ◌≡◌, ◌∙◌, refl, sym, ap, subst, arith,
  Bool-cases, inl, inr, IsExact, All,
}
use dsc_zookeeper.Proposals.Types.{ZabMessage, ToSendMessage}
use dsc_zookeeper.Proposals.Queue.{dequeue}
use dsc_zookeeper.Proposals.State.{Env, Zab}
use dsc_zookeeper.Proposals.Send.{send_write_request, send_request, queue_send, enqueue_zab_message}
use dsc_zookeeper.Proposals.SyncTrack.{SyncTracker}
use dsc_zookeeper.Proposals.Process.{process_zab_message, message_sender}
use dsc_zookeeper.Proposals.Cluster.{
  Follower, Cluster, Step, Reach, handles, asks, sends, receives, follower_asks, here, next,
  deliver, reaches, follower_env, send_zab_message,
}
use dsc_zookeeper.Proposals.Cluster.Replay.{
  View, view, replay_one, replay, replay-append, for_server, for_server-append,
}
use dsc_zookeeper.Proposals.Cluster.Sends.{Sends, IsServed}
use dsc_zookeeper.Proposals.Cluster.Handles.{process_zab_message-Sends, send_write_request-Sends}
use dsc_zookeeper.Proposals.Cluster.Receives.{process_zab_message-IsAt}

module _ {C : Type 0} (env : Env C) where
  -- The messages on their way to a follower: on its connection, and then in the queue.
  abbrev pub in_flight : Zab C → Follower C → List ZabMessage
  in_flight leader f = f.inbox ++ for_server env f.name leader.sending_queue.items

  -- A follower that handles everything on its way commits and holds what the coordinator does.
  pub record IsInStep (leader : Zab C) (f : Follower C) : Type 0 where
    pub served : IsServed env f.name
    pub steady : f.state.sync_track.active ≡ false
    pub replayed : replay env (in_flight leader f) (view env f.state) ≡ some (view env leader)

  abbrev pub AreInStep : Cluster C → Type 0
  AreInStep c = All (IsInStep c.leader) c.followers

  leader-IsInStep :
      (leader leader' : Zab C) (f : Follower C)
      → Sends env leader leader'
      → IsInStep leader f
      → IsInStep leader' f
  leader-IsInStep leader leader' f sent h = record {
    served = h.served;
    steady = h.steady;
    replayed =
        ap (λ (ms : List ZabMessage). replay env ms (view env f.state)) longer
        ∙ replay-append env (in_flight leader f) (for_server env f.name sent.messages)
            (view env f.state) (view env leader) h.replayed
        ∙ sent.replayed f.name h.served;
  }
    where
      longer : in_flight leader' f ≡ in_flight leader f ++ for_server env f.name sent.messages
      longer = rw sent.queued (
          rw (for_server-append env f.name leader.sending_queue.items sent.messages)
            (sym (append_assoc f.inbox _ _)))

  leader-AreInStep :
      (leader leader' : Zab C) (fs : List (Follower C))
      → Sends env leader leader'
      → All (IsInStep leader) fs
      → All (IsInStep leader') fs
  leader-AreInStep leader leader' [] sent h = tt
  leader-AreInStep leader leader' (f ∷ fs) sent (h, hs) =
      (leader-IsInStep leader leader' f sent h, leader-AreInStep leader leader' fs sent hs)

  sender_none : (s : Zab C) → s.sending_queue.items ≡ [] → (message_sender env s).0 ≡ none
  unfolding message_sender dequeue
  sender_none s e = ground arith

  sender_some :
      (s : Zab C) (x : ToSendMessage) (xs : List ToSendMessage)
      → s.sending_queue.items ≡ x ∷ xs
      → message_sender env s ≡ (
          if env.coordinator == []
          then (none, s)
          else (some x, record s { sending_queue = record { items = xs } }))
  unfolding message_sender dequeue
  sender_some s x xs e = ground arith

  -- What messageSender takes is the head of the queue, and it changes nothing else.
  sender_from :
      (s s' : Zab C) (m : ToSendMessage) (q : List ToSendMessage)
      → s.sending_queue.items ≡ q
      → message_sender env s ≡ (some m, s')
      → (s.sending_queue.items ≡ m ∷ s'.sending_queue.items) × (view env s ≡ view env s')
  sender_from s s' m [] e h =
      absurd (none_ne_some _ (sender_none s e) (ap (λ (r : Option ToSendMessage × Zab C). r.0) h))
  sender_from s s' m (x ∷ xs) e h =
      let run = sym (sender_some s x xs e) ∙ h in
      elim (Bool-cases (env.coordinator == [])) [
        | inl none_yet ↦ absurd (
            none_ne_some _ refl
              (ap (λ (r : Option ToSendMessage × Zab C). r.0) (rw none_yet at run)))
        | inr leads ↦
            let taken = rw leads at run in
            let head : x ≡ m = some_inj (ap (λ (r : Option ToSendMessage × Zab C). r.0) taken) in
            let left = ap (λ (r : Option ToSendMessage × Zab C). r.1) taken in
            (e ∙ rw head (ap (λ (t : Zab C). m ∷ t.sending_queue.items) left), ap (view env) left)
      ]

  deliver-in_flight :
      (m : ToSendMessage) (leader leader' : Zab C) (f : Follower C)
      → leader.sending_queue.items ≡ m ∷ leader'.sending_queue.items
      → in_flight leader' (deliver env m f) ≡ in_flight leader f
  unfolding deliver for_server
  deliver-in_flight m leader leader' f h = elim (Bool-cases (reaches env m f.name)) [
    | inl there ↦ rw (h, there) (append_assoc f.inbox (m.msg ∷ []) _)
    | inr elsewhere ↦ rw (h, elsewhere) refl
  ]

  deliver-kept :
      (m : ToSendMessage) (f : Follower C)
      → ((deliver env m f).name ≡ f.name) × ((deliver env m f).state ≡ f.state)
  unfolding deliver
  deliver-kept m f = ground arith

  deliver-IsInStep :
      (m : ToSendMessage) (leader leader' : Zab C) (f : Follower C)
      → leader.sending_queue.items ≡ m ∷ leader'.sending_queue.items
      → view env leader ≡ view env leader'
      → IsInStep leader f
      → IsInStep leader' (deliver env m f)
  deliver-IsInStep m leader leader' f queue same h =
      let kept = deliver-kept m f in
      record {
        served = subst (IsServed env) (sym kept.0) h.served;
        steady = ap (λ (t : Zab C). t.sync_track.active) kept.1 ∙ h.steady;
        replayed =
            ap (λ (ms : List ZabMessage). replay env ms (view env (deliver env m f).state))
              (deliver-in_flight m leader leader' f queue)
            ∙ ap (λ (t : Zab C). replay env (in_flight leader f) (view env t)) kept.1
            ∙ h.replayed
            ∙ ap some same;
      }

  deliver-AreInStep :
      (m : ToSendMessage) (leader leader' : Zab C) (fs : List (Follower C))
      → leader.sending_queue.items ≡ m ∷ leader'.sending_queue.items
      → view env leader ≡ view env leader'
      → All (IsInStep leader) fs
      → All (IsInStep leader') (map (deliver env m) fs)
  deliver-AreInStep m leader leader' [] queue same h = tt
  deliver-AreInStep m leader leader' (f ∷ fs) queue same (h, hs) = (
    deliver-IsInStep m leader leader' f queue same h,
    deliver-AreInStep m leader leader' fs queue same hs,
  )

  -- The first message of a follower's connection can be replayed.
  pub replay_head :
      (leader : Zab C) (f : Follower C) (m : ZabMessage) (rest : List ZabMessage)
      → f.inbox ≡ m ∷ rest
      → IsInStep leader f
      → (v : View) × (replay_one env m (view env f.state) ≡ some v)
        × (replay env (rest ++ for_server env f.name leader.sending_queue.items) v
            ≡ some (view env leader))
  unfolding replay
  replay_head leader f m rest e h =
      let all = rw e at h.replayed in
      >>=-eq-some (replay_one env m (view env f.state))
        (replay env (rest ++ for_server env f.name leader.sending_queue.items)) all

  receive-IsInStep :
      (leader : Zab C) (f : Follower C) (m : ZabMessage) (rest : List ZabMessage) (t : Zab C)
      → IsExact env.zab_codec
      → f.inbox ≡ m ∷ rest
      → process_zab_message (follower_env env f.name) (send_zab_message env m) f.state ≡ some t
      → IsInStep leader f
      → IsInStep leader (record f { inbox = rest; state = t })
  receive-IsInStep leader f m rest t ze e ran h =
      let (v, first, others) = replay_head leader f m rest e h in
      let (u, ran', at, still) =
        process_zab_message-IsAt env f.name m f.state v ze h.steady first in
      let same : u ≡ t = some_inj (sym ran' ∙ ran) in
      record {
        served = h.served;
        steady = ap (λ (z : Zab C). z.sync_track.active) (sym same) ∙ still;
        replayed =
            ap
              (λ (z : View).
                replay env (rest ++ for_server env f.name leader.sending_queue.items) z)
              (ap (view env) (sym same) ∙ at)
            ∙ others;
      }

  same_view :
      (s t : Zab C)
      → t.to_commit_chan ≡ s.to_commit_chan
      → t.proposals_queue.items ≡ s.proposals_queue.items
      → view env t ≡ view env s
  same_view s t d q = rw (d, q) refl

  asks_kept :
      (e : Env C) (content : Bytes) (n : ℕ) (s : Zab C)
      → let t = send_write_request e content n s in
        (t.to_commit_chan ≡ s.to_commit_chan)
        × (t.proposals_queue.items ≡ s.proposals_queue.items)
        × (t.sync_track ≡ s.sync_track)
  unfolding send_write_request send_request queue_send enqueue_zab_message
  asks_kept e content n s = ground arith

  follower_asks-IsInStep :
      (leader : Zab C) (f : Follower C) (content : Bytes) (n : ℕ)
      → IsInStep leader f
      → IsInStep leader
          (record f { state = send_write_request (follower_env env f.name) content n f.state })
  follower_asks-IsInStep leader f content n h =
      let t = send_write_request (follower_env env f.name) content n f.state in
      let kept = asks_kept (follower_env env f.name) content n f.state in
      record {
        served = h.served;
        steady = ap (λ (k : SyncTracker). k.active) kept.2 ∙ h.steady;
        replayed =
            ap (replay env (in_flight leader f)) (same_view f.state t kept.0 kept.1) ∙ h.replayed;
      }

  middle :
      (P : Follower C → Type 0) (before after : List (Follower C)) (f f' : Follower C)
      → (P f → P f')
      → All P (before ++ f ∷ after)
      → All P (before ++ f' ∷ after)
  middle P [] after f f' step (h, hs) = (step h, hs)
  middle P (g ∷ before) after f f' step (h, hs) = (h, middle P before after f f' step hs)

  module _ (named : (env.name == []) ≡ false) (leads : env.coordinator ≡ env.name)
      (ze : IsExact env.zab_codec) (pe : IsExact env.proposal_codec) where
    Step-AreInStep : (c d : Cluster C) → Step env c d → AreInStep c → AreInStep d
    Step-AreInStep c d (handles m s other ran e) h = subst AreInStep (sym e) (
        leader-AreInStep c.leader s c.followers
          (process_zab_message-Sends env named pe m c.leader s other ran) h)
    Step-AreInStep c d (asks content n e) h = subst AreInStep (sym e) (
        leader-AreInStep c.leader _ c.followers
          (send_write_request-Sends env named pe content n c.leader leads) h)
    Step-AreInStep c d (sends m s ran e) h =
        let (queue, same) = sender_from c.leader s m c.leader.sending_queue.items refl ran in
        subst AreInStep (sym e) (deliver-AreInStep m c.leader s c.followers queue same h)
    Step-AreInStep c d (receives before after f m rest t at inbox ran e) h =
        subst AreInStep (sym e) (
          middle (IsInStep c.leader) before after f (record f { inbox = rest; state = t })
            (receive-IsInStep c.leader f m rest t ze inbox ran)
            (subst (All (IsInStep c.leader)) at h))
    Step-AreInStep c d (follower_asks before after f content n at e) h = subst AreInStep (sym e) (
        middle (IsInStep c.leader) before after f _ (follower_asks-IsInStep c.leader f content n)
          (subst (All (IsInStep c.leader)) at h))

    -- The invariant holds in every cluster that can be reached from one in which it holds.
    pub Reach-AreInStep : (c d : Cluster C) → Reach env c d → AreInStep c → AreInStep d
    Reach-AreInStep c d here h = h
    Reach-AreInStep c d (next {d = b} r st) h = Step-AreInStep b d st (Reach-AreInStep c b r h)
