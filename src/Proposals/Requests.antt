-- ===== src/Proposals/Requests.antt =====
-- The coordinator's handling of requests and acknowledgements.
use dsc_zookeeper.Prelude.{
  ℕ, Str, str_eq, nat_eq, List, [], ◌∷◌, ◌++◌, append-nil, append_assoc, true, false, ◌==◌, ◌≡◌,
  ◌∙◌, refl, sym, All,
}
use dsc_zookeeper.Proposals.Types.{Proposal, Request, NetworkMessage, state_change, prop, err}
use dsc_zookeeper.Proposals.Words.{get_zxid_as_int}
use dsc_zookeeper.Proposals.Zxid.{inc_count}
use dsc_zookeeper.Proposals.Ack.{store_new}
use dsc_zookeeper.Proposals.Queue.{enqueue}
use dsc_zookeeper.Proposals.State.{Env, Zab}
use dsc_zookeeper.Proposals.Send.{
  queue_send, queue_write_proposal, broadcast_proposal, enqueue_zab_message,
}
use dsc_zookeeper.Proposals.Leader.{
  deny, next_proposal, propose, process_write_request, unload, unload_holding_queue,
}

module _ {C : Type 0} (env : Env C) where
  abbrev pub Decodes : NetworkMessage → Type 0
  Decodes m = (env.zab_codec.unmarshal m.message).1 ≡ true

  enqueue-Decodes :
      (m : NetworkMessage) (s : Zab C)
      → Decodes m
      → enqueue_zab_message env m s
        ≡ record s { message_queue = record { items = s.message_queue.items ++ m ∷ [] } }
  unfolding enqueue_zab_message enqueue
  enqueue-Decodes m s h = rw (h, enqueue_zab_message) refl

  unload-items :
      (held : List NetworkMessage) (s : Zab C)
      → All Decodes held
      → unload env held s ≡ record s {
        message_queue = record { items = s.message_queue.items ++ held };
        holding_requests_queue = record { items = [] };
      }
  unfolding unload
  unload-items [] s h = rw (append-nil s.message_queue.items) refl
  unload-items (m ∷ ms) s (hm, hs) =
      let s' = record s { holding_requests_queue = record { items = ms } } in
      rw (enqueue-Decodes m s' hm) (
        unload-items ms
          (record s' { message_queue = record { items = s.message_queue.items ++ m ∷ [] } }) hs
        ∙ rw (append_assoc s.message_queue.items (m ∷ []) ms))

  -- If every held message decodes, unloading puts them into the incoming queue, in their order
  -- and behind what waits there, empties the holding queue, and changes nothing else.
  pub unload_holding_queue_lem :
      (s : Zab C)
      → All Decodes s.holding_requests_queue.items
      → unload_holding_queue env s ≡ record s {
        message_queue = record { items = s.message_queue.items ++ s.holding_requests_queue.items };
        holding_requests_queue = record { items = [] };
      }
  unfolding unload_holding_queue
  unload_holding_queue_lem s h = unload-items s.holding_requests_queue.items s h

  -- What a request becomes after the checker.
  abbrev pub checked : Request → List ℕ → Request
  checked r updated = record { req_type = r.req_type; req_number = r.req_number; content = updated }

  module _ (r : Request) (remote_id : Str) (s : Zab C) (c : C) (updated : List ℕ) where
    -- When the checker denies a write request of another node, the checker keeps its new state,
    -- one Err message with the request as the checker left it is queued for its sender, and
    -- nothing else changes.
    pub process_write_request-denied :
        env.request_checker s.checker r.content ≡ (c, updated, false)
        → (env.name == remote_id) ≡ false
        → process_write_request env r remote_id s ≡ record s {
          checker = c;
          sending_queue = record {
            items =
                s.sending_queue.items
                ++ (record {
                  msg = record {
                    zab_type = err;
                    content = env.request_codec.marshal (checked r updated);
                  };
                  broadcast = false;
                  target = remote_id;
                })
                  ∷ [];
          };
        }
    unfolding process_write_request deny queue_send enqueue
    process_write_request-denied h other = rw (h, process_write_request) (rw other refl)

    -- When the checker denies a write request of this node itself, only the state of the checker
    -- changes: no message and no entry for the listener of denied requests.
    pub process_write_request-denied_self :
        env.request_checker s.checker r.content ≡ (c, updated, false)
        → remote_id ≡ env.name
        → process_write_request env r remote_id s ≡ record s { checker = c }
    unfolding process_write_request deny
    process_write_request-denied_self h own =
        let same : (env.name == remote_id) ≡ true =
          (str_eq.beq_iff env.name remote_id).1 (sym own) in
        rw (h, process_write_request) (rw same refl)

    -- The proposal that an accepted request becomes, labelled by the next count.
    abbrev pub proposal_for : Proposal
    proposal_for = record {
      prop_type = state_change;
      epoch_num = (inc_count s.zxid_counter).epoch_num;
      count_num = (inc_count s.zxid_counter).count_num;
      content = env.request_codec.marshal (checked r updated);
    }

    -- When the checker of a node with a name accepts a write request, the checked request becomes
    -- the proposal with the next count: it is held, sent to be saved, given one acknowledgement
    -- and queued for broadcast, and nothing else changes but the checker and the counter.
    pub process_write_request-accepted :
        env.request_checker s.checker r.content ≡ (c, updated, true)
        → (env.name == []) ≡ false
        → process_write_request env r remote_id s ≡ record s {
          checker = c;
          zxid_counter = inc_count s.zxid_counter;
          ack_counter =
              store_new s.ack_counter
                (get_zxid_as_int proposal_for.epoch_num proposal_for.count_num);
          proposals_queue = record { items = s.proposals_queue.items ++ proposal_for ∷ [] };
          new_proposal_chan = s.new_proposal_chan ++ proposal_for ∷ [];
          sending_queue = record {
            items =
                s.sending_queue.items
                ++ (record {
                  msg = record {
                    zab_type = prop;
                    content = env.proposal_codec.marshal proposal_for;
                  };
                  broadcast = true;
                  target = [];
                })
                  ∷ [];
          };
        }
    unfolding process_write_request propose next_proposal queue_write_proposal broadcast_proposal
        queue_send enqueue
    process_write_request-accepted h named = rw (h, process_write_request) (rw named refl)
