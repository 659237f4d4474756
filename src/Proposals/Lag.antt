-- ===== src/Proposals/Lag.antt =====
-- A former follower at the head of an epoch (proposals.go): what it held as a follower is still in
-- its queue when it is the coordinator.
use dsc_zookeeper.Prelude.{
  IsExact, ℕ, zero, suc, ◌+◌, ◌/◌, ◌≡◌, ◌≤◌, refl, ap, ◌∙◌, nat_eq, str_eq, Str, List, [], ◌∷◌,
  ◌++◌, Bool, true, false, ◌==◌, some, ltb, lookup, lookup-insert, arith,
}
use dsc_zookeeper.Proposals.Types.{Proposal, Request, state_change}
use dsc_zookeeper.Proposals.Words.{get_zxid_as_int}
use dsc_zookeeper.Proposals.Zxid.{set_vals}
use dsc_zookeeper.Proposals.Ack.{increment_or_remove, store_new}
use dsc_zookeeper.Proposals.State.{Env, Zab, zero_proposal}
use dsc_zookeeper.Proposals.Send.{queue_send, queue_commit_proposal, broadcast_commit}
use dsc_zookeeper.Proposals.Follower.{hold, dispatch}
use dsc_zookeeper.Proposals.Leader.{count_ack, process_ack, process_write_request}
use dsc_zookeeper.Proposals.Process.{process_zab_message}
use dsc_zookeeper.Proposals.Order.{
  request_of, commit_front, state_change_off, hold-history, from_coordinator,
}
use dsc_zookeeper.Proposals.Requests.{checked, proposal_for, process_write_request-accepted}
use dsc_zookeeper.Proposals.Agreement.{proposal_msg, delivered-proposal}
use dsc_zookeeper.Proposals.SyncDone.{process_acks}
use dsc_zookeeper.Proposals.Cluster.{follower_env, send_zab_message}
use dsc_zookeeper.Proposals.Cluster.Acks.{counted, count_ack-enough, count_ack-few}

module _ {C : Type 0} (env : Env C) (named : (env.name == []) ≡ false)
    (pe : IsExact env.proposal_codec) where
  ack_of-write :
      (p : Proposal) (s : Zab C)
      → p.prop_type ≡ state_change
      → process_ack env p s ≡ count_ack env p s
  unfolding process_ack
  ack_of-write p s t = rw (t, process_ack) refl

  -- One ACK, at a count of `v`.
  increment-count :
      (p : Proposal) (s : Zab C) (v : ℕ)
      → let zxid = get_zxid_as_int p.epoch_num p.count_num in
        lookup zxid s.ack_counter.ack_tracker ≡ some v
        → let zxid = get_zxid_as_int p.epoch_num p.count_num in
          let r = increment_or_remove s.ack_counter zxid (s.n_systems / 2) in
          (r.1 ≡ ltb (s.n_systems / 2) (v + 1))
          × (v + 1 ≤ s.n_systems / 2 → lookup zxid r.0.ack_tracker ≡ some (v + 1))
  unfolding increment_or_remove
  increment-count p s v found =
      let zxid = get_zxid_as_int p.epoch_num p.count_num in
      ground (arith, lookup-insert zxid zxid (v + 1) s.ack_counter.ack_tracker)

  abbrev committed : Proposal → Proposal → List Proposal → Zab C → Zab C
  committed p front rest s =
      queue_commit_proposal env front
        (record (counted env named pe p s) { proposals_queue = record { items = rest } })

  last-ack :
      (v : ℕ) (p front : Proposal) (rest : List Proposal) (s : Zab C)
      → p.prop_type ≡ state_change
      → s.proposals_queue.items ≡ front ∷ rest
      → lookup (get_zxid_as_int p.epoch_num p.count_num) s.ack_counter.ack_tracker ≡ some v
      → v ≡ s.n_systems / 2
      → process_ack env p s ≡ some (broadcast_commit env (committed p front rest s))
  last-ack v p front rest s t h found e =
      let enough = (increment-count p s v found).0 ∙ ground arith in
      ack_of-write p s t
      ∙ count_ack-enough env named pe p s enough
      ∙ rw (commit_front env (counted env named pe p s) front rest h) refl

  -- The ACKs of a write that are missing commit the front of the queue, whatever it is.
  acks-front :
      (k v : ℕ) (p front : Proposal) (rest : List Proposal) (s : Zab C)
      → p.prop_type ≡ state_change
      → s.proposals_queue.items ≡ front ∷ rest
      → lookup (get_zxid_as_int p.epoch_num p.count_num) s.ack_counter.ack_tracker ≡ some v
      → k + v ≡ s.n_systems / 2
      → (t : Zab C) × (process_acks env (suc k) p s ≡ some t)
        × (t.to_commit_chan ≡ s.to_commit_chan ++ request_of env front ∷ [])
        × (t.proposals_queue.items ≡ rest)
  unfolding process_acks
  acks-front zero v p front rest s t h found e = (
    broadcast_commit env (committed p front rest s),
    rw (last-ack v p front rest s t h found (omega arith)) refl,
    (unfold broadcast_commit queue_send queue_commit_proposal in rw named refl),
    (unfold broadcast_commit queue_send queue_commit_proposal in rw named refl),
  )
  acks-front (suc k) v p front rest s t h found e =
      let facts = increment-count p s v found in
      let few : (increment_or_remove s.ack_counter (get_zxid_as_int p.epoch_num p.count_num)
            (s.n_systems / 2)).1
          ≡ false =
        facts.0 ∙ ground arith in
      let s1 = counted env named pe p s in
      let ran = ack_of-write p s t ∙ count_ack-few env named pe p s few in
      let (t', done, commits, left) =
        acks-front k (v + 1) p front rest s1 t h (facts.1 (omega arith)) (omega arith) in
      (t', rw ran done, commits, left)

  -- A follower that holds nothing gets a write and its COMMIT.
  follows-write :
      (follower : Str) (p : Proposal) (u : Zab C)
      → IsExact env.zab_codec
      → p.prop_type ≡ state_change
      → u.proposals_queue.items ≡ []
      → u.sync_track.active ≡ false
      → let f = follower_env env follower in
        (v : Zab C) × (w : Zab C) × (process_zab_message f
            (send_zab_message env (proposal_msg env p))
            u
          ≡ some v)
        × (process_zab_message f (send_zab_message env (proposal_msg env zero_proposal)) v ≡ some w)
        × (w.to_commit_chan ≡ u.to_commit_chan ++ request_of env p ∷ [])
  unfolding dispatch
  follows-write follower p u ze t empty_queue off =
      let f = follower_env env follower in
      let m = proposal_msg env p in
      let led : (env.name == env.name) ≡ true = (str_eq.beq_iff env.name env.name).1 refl in
      let u0 = record u { zxid_counter = set_vals u.zxid_counter p.epoch_num p.count_num } in
      let v = hold f p env.name m u0 in
      let facts = hold-history f p env.name m u0 in
      let items : v.proposals_queue.items ≡ p ∷ [] =
        facts.0 ∙ ap (λ (l : List Proposal). l ++ p ∷ []) empty_queue in
      (
        v,
        queue_commit_proposal f p (record v { proposals_queue = record { items = [] } }),
        delivered-proposal env follower p u ze pe
            ∙ from_coordinator f p env.name m u led
            ∙ ap (λ k. dispatch f k p env.name m u) t
            ∙ ap some (state_change_off f p env.name m u off),
        delivered-proposal env follower zero_proposal v ze pe
            ∙ from_coordinator f zero_proposal env.name (proposal_msg env zero_proposal) v led
            ∙ commit_front f v p [] items,
        (unfold queue_commit_proposal in
            ap (λ (l : List Request). l ++ request_of f p ∷ []) facts.1),
      )

  -- JSON reads back what it wrote, and there are at least two servers. Suppose that a node with a
  -- name, while it holds proposals already, as a former follower does, handles a write request as
  -- the coordinator that its checker accepts. Then as many acknowledgements of it as make a
  -- majority with the node itself make it commit the oldest of the proposals it held, and the new
  -- write is held behind the others; while a follower that holds nothing and does not catch up
  -- commits the new write at its proposal and one COMMIT.
  pub leader-lags :
      (follower : Str) (r : Request) (remote_id : Str) (s u : Zab C) (c : C) (updated : List ℕ)
      → (front : Proposal) (rest : List Proposal) (k : ℕ) → IsExact env.zab_codec
      → IsExact env.request_codec
      → env.request_checker s.checker r.content ≡ (c, updated, true)
      → s.proposals_queue.items ≡ front ∷ rest
      → s.n_systems / 2 ≡ suc k
      → u.proposals_queue.items ≡ []
      → u.sync_track.active ≡ false
      → let f = follower_env env follower in
        let p = proposal_for env r remote_id s c updated in
        (t : Zab C) × (v : Zab C) × (w : Zab C) × (process_acks env
            (suc k)
            p
            (process_write_request env r remote_id s)
          ≡ some t)
        × (process_zab_message f (send_zab_message env (proposal_msg env p)) u ≡ some v)
        × (process_zab_message f (send_zab_message env (proposal_msg env zero_proposal)) v ≡ some w)
        × (t.to_commit_chan ≡ s.to_commit_chan ++ request_of env front ∷ [])
        × (t.proposals_queue.items ≡ rest ++ p ∷ [])
        × (w.to_commit_chan ≡ u.to_commit_chan ++ checked env r updated ∷ [])
  unfolding store_new
  leader-lags follower r remote_id s u c updated front rest k ze re h held half empty_queue off =
      let p = proposal_for env r remote_id s c updated in
      let zxid = get_zxid_as_int p.epoch_num p.count_num in
      let asked : request_of env p ≡ checked env r updated =
        ap (λ (z : Request × Bool). z.0) (re.exact (checked env r updated)) in
      let (v, w, proposed, decided, did) = follows-write follower p u ze refl empty_queue off in
      let s1 = process_write_request env r remote_id s in
      let eq = process_write_request-accepted env r remote_id s c updated h named in
      let items : s1.proposals_queue.items ≡ front ∷ (rest ++ p ∷ []) =
        ap (λ (x : Zab C). x.proposals_queue.items) eq
        ∙ ap (λ (l : List Proposal). l ++ p ∷ []) held in
      let self : (zxid == zxid) ≡ true = ground arith in
      let one : lookup zxid s1.ack_counter.ack_tracker ≡ some 1 =
        ap (λ (x : Zab C). lookup zxid x.ack_counter.ack_tracker) eq
        ∙ lookup-insert zxid zxid 1 s.ack_counter.ack_tracker
        ∙ rw self refl in
      let most : k + 1 ≡ s1.n_systems / 2 =
        omega (arith, half, ap (λ (x : Zab C). x.n_systems) eq) in
      let same = ap (λ (x : Zab C). x.to_commit_chan ++ request_of env front ∷ []) eq in
      let (t, acked, commits, left) =
        acks-front k 1 p front (rest ++ p ∷ []) s1 refl items one most in
      (t, v, w, acked, proposed, decided, commits ∙ same, left, did ∙ rw asked refl)
