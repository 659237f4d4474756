-- ===== src/Server/Sessions/Orders.antt =====
-- syncListener of main/server.go ranges over a Go map, whose order is not fixed: the messages that
-- it queues, with their order forgotten.
use mathlib.Core.List.{Perm}
use mathlib.Core.List.Perm
use mathlib.Core.Quot
use mathlib.Core.Quot.{Quot, Quot-set}
use dsc_zookeeper.Prelude.{ℕ, Str, str_eq, List, ◌++◌, map, false, ◌==◌, some, ◌≡◌, refl, sym, ap}
use dsc_zookeeper.Proposals.Types.{ToSendMessage}
use dsc_zookeeper.Server.State.{Env, Server, PendingRequest}
use dsc_zookeeper.Server.Sessions.{sync_listener}
use dsc_zookeeper.Server.Sessions.Resent.{request_to, resent, sync_listener-resent}

-- Lists up to their order.
abbrev pub Bag : Type 0 → Type 0
Bag A = Quot {α = List A} Perm

abbrev pub bag : {A : Type 0} → List A → Bag A
bag xs = Quot.mk xs

module _ (env : Env) where
  -- The queue behind which a bag of pending requests is sent again.
  unfoldable pub asks : Str → List ToSendMessage → Bag (ℕ × PendingRequest) → Bag ToSendMessage
  asks coordinator queued =
      Quot.lift Quot-set (λ pending. bag (queued ++ map (request_to env coordinator) pending))
        (λ xs ys h. Quot.sound (Perm.append_left queued (Perm.map (request_to env coordinator) h)))

  -- At the end of a sync, a server that is not the coordinator goes on, with a queue that, up to
  -- its order, is what was queued and one request message to the coordinator for each pending
  -- request; and the map of pending requests in another order gives the same queue up to its
  -- order.
  pub sync_listener-bag :
      (now : ℕ) (s : Server) (pending' : List (ℕ × PendingRequest))
      → (env.name == s.ring.coordinator) ≡ false
      → Perm s.pending pending'
      → (t : Server) × (t' : Server) × (sync_listener env now s ≡ some t)
        × (sync_listener env now (record s { pending = pending' }) ≡ some t')
        × (bag t.zab.sending_queue.items
            ≡ asks s.ring.coordinator s.zab.sending_queue.items (bag s.pending))
        × (bag t'.zab.sending_queue.items ≡ bag t.zab.sending_queue.items)
  unfolding asks
  sync_listener-bag now s pending' other h =
      let s' = record s { pending = pending' } in
      (
        resent env s.pending s,
        resent env pending' s',
        sync_listener-resent env now s other,
        sync_listener-resent env now s' other,
        refl,
        ap (asks s.ring.coordinator s.zab.sending_queue.items) (sym (Quot.sound h)),
      )
