-- ===== src/Proposals/SyncDone.antt =====
-- processACK of proposals.go, over the acknowledgements of a new epoch.
use dsc_zookeeper.Prelude.{
  ℕ, zero, suc, ◌-◌, ◌≤◌, str_eq, nat_eq, [], ◌++◌, true, false, ◌==◌, Option, none, some, ◌>>=◌,
  ◌≡◌, ◌∙◌, refl, sym, ap, arith, lookup, All, codes,
}
use dsc_zookeeper.Prelude.Int.{ℤ, pos, pred_ℤ}
use dsc_zookeeper.Proposals.Types.{Proposal, new_leader}
use dsc_zookeeper.Proposals.Words.{get_zxid_as_int}
use dsc_zookeeper.Proposals.Ack.{increment_or_remove}
use dsc_zookeeper.Proposals.SyncTrack.{decrement}
use dsc_zookeeper.Proposals.State.{Env, Zab}
use dsc_zookeeper.Proposals.Leader.{finish_sync, count_down, count_ack, process_ack}
use dsc_zookeeper.Proposals.Requests.{Decodes, unload_holding_queue_lem}

module _ {C : Type 0} (env : Env C) where
  -- The same acknowledgement, `n` times.
  unfoldable pub process_acks : ℕ → Proposal → Zab C → Option (Zab C)
  process_acks zero p s = some s
  process_acks (suc n) p s = do t ← process_ack env p s; process_acks n p t

  -- The acknowledgements that the coordinator `s` waits for: of the proposal that opened the
  -- epoch, while requests are held.
  pub record IsAwaited (p : Proposal) (s : Zab C) : Type 0 where
    pub opens : p.prop_type ≡ new_leader
    pub epoch : p.epoch_num ≡ s.current_sync.epoch_num
    pub count : p.count_num ≡ s.current_sync.count_num
    pub waits : s.requests_processing_enabled ≡ false
    pub no_test : (env.test_mode == codes "mode3") ≡ false
    pub no_write : lookup (get_zxid_as_int p.epoch_num p.count_num) s.ack_counter.ack_tracker ≡ none

  abbrev pub left : ℤ → Zab C → Zab C
  left n s = record s { sync_response_tracker = record { count = n } }

  count_ack-none :
      (p : Proposal) (s : Zab C)
      → lookup (get_zxid_as_int p.epoch_num p.count_num) s.ack_counter.ack_tracker ≡ none
      → count_ack env p s ≡ some s
  unfolding count_ack increment_or_remove
  count_ack-none p s h = rw (h, count_ack, increment_or_remove) refl

  process_ack-awaited :
      (p : Proposal) (s : Zab C)
      → IsAwaited p s
      → process_ack env p s ≡ count_ack env p (count_down env s)
  unfolding process_ack
  process_ack-awaited p s h = ground (
    arith,
    nat_eq.beq_iff p.epoch_num s.current_sync.epoch_num,
    nat_eq.beq_iff p.count_num s.current_sync.count_num,
  )

  count_down-more :
      (s : Zab C) (k : ℕ)
      → s.sync_response_tracker.count ≡ pos (suc (suc k))
      → count_down env s ≡ left (pos (suc k)) s
  unfolding count_down decrement pred_ℤ
  count_down-more s k h = rw (h, count_down, decrement) refl

  count_down-last :
      (s : Zab C)
      → s.sync_response_tracker.count ≡ pos 1
      → count_down env s ≡ finish_sync env (left (pos 0) s)
  unfolding count_down decrement pred_ℤ
  count_down-last s h = rw (h, count_down, decrement) refl

  -- The coordinator back at work, with the held requests in its incoming queue.
  abbrev pub resumed : Zab C → Zab C
  resumed s = record s {
    sync_response_tracker = record { count = pos 0 };
    requests_processing_enabled = true;
    syncing = false;
    message_queue = record { items = s.message_queue.items ++ s.holding_requests_queue.items };
    holding_requests_queue = record { items = [] };
  }

  finish_sync-resumed :
      (s : Zab C)
      → All (Decodes env) s.holding_requests_queue.items
      → finish_sync env (left (pos 0) s) ≡ resumed s
  unfolding finish_sync
  finish_sync-resumed s h =
      unload_holding_queue_lem env
        (record s {
          sync_response_tracker = record { count = pos 0 };
          requests_processing_enabled = true;
          syncing = false;
        })
        h

  ack-more :
      (p : Proposal) (s : Zab C) (k : ℕ)
      → IsAwaited p s
      → s.sync_response_tracker.count ≡ pos (suc (suc k))
      → process_ack env p s ≡ some (left (pos (suc k)) s)
  ack-more p s k a h =
      process_ack-awaited p s a
      ∙ ap (count_ack env p) (count_down-more s k h)
      ∙ count_ack-none p (left (pos (suc k)) s) a.no_write

  ack-last :
      (p : Proposal) (s : Zab C)
      → IsAwaited p s
      → s.sync_response_tracker.count ≡ pos 1
      → All (Decodes env) s.holding_requests_queue.items
      → process_ack env p s ≡ some (resumed s)
  ack-last p s a h d =
      process_ack-awaited p s a
      ∙ ap (count_ack env p) (count_down-last s h ∙ finish_sync-resumed s d)
      ∙ count_ack-none p (resumed s) a.no_write

  left-IsAwaited : (p : Proposal) (s : Zab C) (n : ℤ) → IsAwaited p s → IsAwaited p (left n s)
  left-IsAwaited p s n a = record {
    opens = a.opens;
    epoch = a.epoch;
    count = a.count;
    waits = a.waits;
    no_test = a.no_test;
    no_write = a.no_write;
  }

  process_acks-suc :
      (n : ℕ) (p : Proposal) (s t : Zab C)
      → process_ack env p s ≡ some t
      → process_acks (suc n) p s ≡ process_acks n p t
  unfolding process_acks
  process_acks-suc n p s t h = rw (h, process_acks) refl

  process_acks-zero : (p : Proposal) (s : Zab C) → process_acks zero p s ≡ some s
  unfolding process_acks
  process_acks-zero p s = refl

  waits :
      (j k : ℕ) (p : Proposal) (s : Zab C)
      → j ≤ k
      → IsAwaited p s
      → s.sync_response_tracker.count ≡ pos (suc k)
      → process_acks j p s ≡ some (left (pos (suc k - j)) s)
  waits zero k p s hj a h =
      let full : pos (suc k - 0) ≡ s.sync_response_tracker.count = ap pos (omega arith) ∙ sym h in
      process_acks-zero p s ∙ ap (λ (n : ℤ). some (left n s)) (sym full)
  waits (suc j) zero p s hj a h = absurd (omega arith)
  waits (suc j) (suc k) p s hj a h =
      let t = left (pos (suc k)) s in
      let fewer : suc k - j ≡ suc (suc k) - suc j = omega arith in
      process_acks-suc j p s t (ack-more p s k a h)
      ∙ waits j k p t (omega arith) (left-IsAwaited p s (pos (suc k)) a) refl
      ∙ ap (λ (n : ℕ). some (left (pos n) s)) fewer

  resumes :
      (k : ℕ) (p : Proposal) (s : Zab C)
      → IsAwaited p s
      → s.sync_response_tracker.count ≡ pos (suc k)
      → All (Decodes env) s.holding_requests_queue.items
      → process_acks (suc k) p s ≡ some (resumed s)
  resumes zero p s a h d =
      process_acks-suc zero p s (resumed s) (ack-last p s a h d) ∙ process_acks-zero p (resumed s)
  resumes (suc k) p s a h d =
      let t = left (pos (suc k)) s in
      process_acks-suc (suc k) p s t (ack-more p s k a h)
      ∙ resumes k p t (left-IsAwaited p s (pos (suc k)) a) refl d

  -- While a coordinator waits for `k + 1` followers to acknowledge the proposal that opened the
  -- epoch, and the messages that it holds decode: after `j` such acknowledgements, at most `k`,
  -- only the count has changed, by `j`; and after `k + 1` of them it processes requests again and
  -- the held ones stand behind its incoming queue.
  pub process_acks-resumed :
      (j k : ℕ) (p : Proposal) (s : Zab C)
      → j ≤ k
      → IsAwaited p s
      → s.sync_response_tracker.count ≡ pos (suc k)
      → All (Decodes env) s.holding_requests_queue.items
      → (process_acks j p s ≡ some (left (pos (suc k - j)) s))
        × (process_acks (suc k) p s ≡ some (resumed s))
  process_acks-resumed j k p s hj a h d = (waits j k p s hj a h, resumes k p s a h d)
