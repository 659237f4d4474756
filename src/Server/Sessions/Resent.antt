-- ===== src/Server/Sessions/Resent.antt =====
-- syncListener of main/server.go on a server that is not the coordinator.
use dsc_zookeeper.Prelude.{
  ℕ, Str, str_eq, List, [], ◌∷◌, ◌++◌, map, append_assoc, append-nil, false, ◌==◌, some,
  str_beq_iff, ◌≡◌, refl, sym, ap, ◌∙◌, arith,
}
use dsc_zookeeper.Proposals.Types.{ToSendMessage, req, write}
use dsc_zookeeper.Proposals.Queue.{enqueue}
use dsc_zookeeper.Proposals.Send.{send_write_request, send_request, queue_send}
use dsc_zookeeper.Server.State.{Env, Server, PendingRequest, zab_env}
use dsc_zookeeper.Server.Sessions.{resend, sync_listener}

module _ (env : Env) where
  -- The message that asks the coordinator for a pending request.
  abbrev pub request_to : Str → ℕ × PendingRequest → ToSendMessage
  request_to coordinator (id, p) = record {
    msg = record {
      zab_type = req;
      content =
          env.request_codec.marshal
            (record { req_type = write; req_number = id; content = p.request });
    };
    broadcast = false;
    target = coordinator;
  }

  -- The state with the requests behind the queue.
  abbrev pub resent : List (ℕ × PendingRequest) → Server → Server
  resent pending s = record s {
    zab = record (s.zab) {
      sending_queue = record {
        items = s.zab.sending_queue.items ++ map (request_to s.ring.coordinator) pending;
      };
    };
  }

  one_request :
      (s : Server) (id : ℕ) (p : PendingRequest)
      → (env.name == s.ring.coordinator) ≡ false
      → record s { zab = send_write_request (zab_env env s) p.request id s.zab }
        ≡ resent ((id, p) ∷ []) s
  unfolding send_write_request send_request queue_send enqueue
  one_request s id p other = rw (queue_send, other) refl

  resend-queued :
      (pending : List (ℕ × PendingRequest)) (s : Server)
      → (env.name == s.ring.coordinator) ≡ false
      → resend env pending s ≡ resent pending s
  unfolding resend
  resend-queued [] s other =
      ap (λ q. record s { zab = record (s.zab) { sending_queue = record { items = q } } })
        (sym (append-nil s.zab.sending_queue.items))
  resend-queued ((id, p) ∷ pending) s other =
      ap (resend env pending) (one_request s id p other)
      ∙ resend-queued pending (resent ((id, p) ∷ []) s) other
      ∙ ap (λ q. record s { zab = record (s.zab) { sending_queue = record { items = q } } })
          (append_assoc s.zab.sending_queue.items (request_to s.ring.coordinator (id, p) ∷ []) _)

  -- At the end of a sync, a server that is not the coordinator queues a request message to the
  -- coordinator for each of its pending requests, in the order of the map and with the id and the
  -- content of the request, behind what it has queued already. Nothing else changes, so all of
  -- them stay pending.
  pub sync_listener-resent :
      (now : ℕ) (s : Server)
      → (env.name == s.ring.coordinator) ≡ false
      → sync_listener env now s ≡ some (resent s.pending s)
  unfolding sync_listener
  sync_listener-resent now s other =
      let other' : (s.ring.coordinator == env.name) ≡ false =
        ground (
          arith,
          str_beq_iff env.name s.ring.coordinator,
          str_beq_iff s.ring.coordinator env.name,
        ) in
      rw other' (ap some (resend-queued s.pending s other))
