-- ===== src/Proposals/CatchUp/Kept/Opens.antt =====
-- The end of an election in proposals.go, and the log of a coordinator.
use dsc_zookeeper.Prelude.{
  ℕ, zero, suc, ◌+◌, ◌%◌, ◌^◌, ◌<◌, ◌≡◌, refl, sym, subst, nat_eq, str_eq, List, [], ◌∷◌, ◌++◌,
  true, false, ◌==◌, Bool-cases, inl, inr, length, arith,
}
use dsc_zookeeper.Prelude.Int.{pos, pred_ℤ}
use dsc_zookeeper.Proposals.Types.{Proposal, new_leader}
use dsc_zookeeper.Proposals.Words.{get_zxid_as_int, uint32_to_bytes}
use dsc_zookeeper.Proposals.Zxid.{ZxidCounter, inc_epoch, get_latest_zxid}
use dsc_zookeeper.Proposals.SyncTrack.{set}
use dsc_zookeeper.Proposals.State.{Env, Zab}
use dsc_zookeeper.Proposals.Send.{queue_write_proposal, broadcast_proposal}
use dsc_zookeeper.Proposals.Leader.{sync_proposal, send_new_leader}
use dsc_zookeeper.Proposals.CatchUp.{IsLog, opened, reopened}
use dsc_zookeeper.Proposals.CatchUp.Kept.{IsKept, log_of}
use dsc_zookeeper.Proposals.CatchUp.Kept.Writes.{log_of-save}
use dsc_zookeeper.Proposals.CatchUp.Kept.Quiet.{quiet-IsKept, queue_send-IsQuiet}

zxid-pos : (e c : ℕ) → (get_zxid_as_int e c == 0) ≡ false → 0 < e + c
unfolding get_zxid_as_int
zxid-pos zero zero h = absurd cc
zxid-pos (suc e) c h = omega arith
zxid-pos e (suc c) h = omega arith

reopen :
    (e : ℕ) (p : Proposal) (log : List Proposal)
    → p.prop_type ≡ new_leader
    → p.epoch_num ≡ e
    → p.count_num ≡ 0
    → 0 < e
    → IsLog e 0 log
    → IsLog e 0 (p ∷ log)
reopen zero p log t h c later l = absurd (omega arith)
reopen (suc e) p log t h c later l = reopened e p log t h c l

module _ {C : Type 0} (env : Env C) (named : (env.name == []) ≡ false) where
  -- The state in which the epoch of the proposal `p` is opened.
  abbrev opening_of : Proposal → ZxidCounter → Zab C → Zab C
  opening_of p cnt s = record s {
    zxid_counter = cnt;
    current_sync = p;
    syncing = true;
    sync_id = s.sync_id + 1;
    sync_response_tracker = set s.sync_response_tracker (pred_ℤ (pos (length env.addresses)));
    new_proposal_chan = s.new_proposal_chan ++ p ∷ [];
  }

  opening_of-IsKept :
      (ps : List Proposal) (p : Proposal) (cnt : ZxidCounter) (s : Zab C)
      → p.prop_type ≡ new_leader
      → p.epoch_num ≡ cnt.epoch_num
      → p.count_num ≡ 0
      → 0 < cnt.epoch_num
      → cnt.count_num ≡ 0
      → s.requests_processing_enabled ≡ false
      → IsLog cnt.epoch_num 0 (p ∷ log_of ps s)
      → IsKept ps (opening_of p cnt s)
  opening_of-IsKept ps p cnt s t e c later none waits l = record {
    logged =
        subst (IsLog cnt.epoch_num cnt.count_num) (sym (log_of-save s.new_proposal_chan ps p))
          (subst (λ n. IsLog cnt.epoch_num n (p ∷ log_of ps s)) (sym none) l);
    opening = (λ h. record {
      opens = t;
      epoch = e;
      count = c;
      later = later;
      unwritten = none;
      waits = waits;
    });
  }

  module _ (ps : List Proposal) (s : Zab C) where
    -- The proposal of the next epoch.
    abbrev next_epoch : Proposal
    next_epoch = record {
      prop_type = new_leader;
      epoch_num = (inc_epoch s.zxid_counter).epoch_num;
      count_num = (inc_epoch s.zxid_counter).count_num;
      content = uint32_to_bytes (get_latest_zxid s.zxid_counter);
    }

    sends-new :
        s.syncing ≡ false
        → (get_latest_zxid s.zxid_counter == 0) ≡ false
        → send_new_leader env s
          ≡ broadcast_proposal env next_epoch (opening_of next_epoch (inc_epoch s.zxid_counter) s)
    unfolding send_new_leader sync_proposal queue_write_proposal
    sends-new off some_write = rw (off, send_new_leader) (rw some_write refl)

    sends-again :
        s.syncing ≡ true
        → (get_latest_zxid s.zxid_counter == 0) ≡ false
        → send_new_leader env s
          ≡ broadcast_proposal env s.current_sync (opening_of s.current_sync s.zxid_counter s)
    unfolding send_new_leader sync_proposal queue_write_proposal
    sends-again on some_write = rw (on, send_new_leader) (rw some_write refl)

    -- Without a write so far, no epoch is opened.
    sends-none :
        (get_latest_zxid s.zxid_counter == 0) ≡ true
        → send_new_leader env s ≡ record s { syncing = false; requests_processing_enabled = true }
    unfolding send_new_leader
    sends-none no_write = rw (no_write, send_new_leader) refl

    some_zxid :
        (get_latest_zxid s.zxid_counter == 0) ≡ false
        → 0 < s.zxid_counter.epoch_num + s.zxid_counter.count_num
    unfolding get_latest_zxid
    some_zxid h = zxid-pos s.zxid_counter.epoch_num s.zxid_counter.count_num h

    new-IsKept :
        s.syncing ≡ false
        → (get_latest_zxid s.zxid_counter == 0) ≡ false
        → s.requests_processing_enabled ≡ false
        → s.zxid_counter.epoch_num + 1 < 2 ^ 16
        → IsKept ps s
        → IsKept ps (send_new_leader env s)
    unfolding inc_epoch
    new-IsKept off some_write waits room k =
        let e = s.zxid_counter.epoch_num in
        let p = next_epoch in
        let next : (e + 1) % 2 ^ 16 ≡ suc e = omega arith in
        let later : 0 < (e + 1) % 2 ^ 16 = omega arith in
        let l : IsLog ((e + 1) % 2 ^ 16) 0 (p ∷ log_of ps s) =
          subst (λ n. IsLog n 0 (p ∷ log_of ps s)) (sym next)
            (opened e s.zxid_counter.count_num p (log_of ps s) refl next refl (some_zxid some_write)
              k.logged) in
        let u = opening_of p (inc_epoch s.zxid_counter) s in
        rw (sends-new off some_write) (
          unfold broadcast_proposal in
          quiet-IsKept ps u _ (queue_send-IsQuiet env _ true [] u)
            (opening_of-IsKept ps p (inc_epoch s.zxid_counter) s refl refl refl later refl waits l))

    again-IsKept :
        s.syncing ≡ true
        → (get_latest_zxid s.zxid_counter == 0) ≡ false
        → s.requests_processing_enabled ≡ false
        → IsKept ps s
        → IsKept ps (send_new_leader env s)
    again-IsKept on some_write waits k =
        let o = k.opening on in
        let p = s.current_sync in
        let u = opening_of p s.zxid_counter s in
        let l : IsLog s.zxid_counter.epoch_num 0 (p ∷ log_of ps s) =
          reopen s.zxid_counter.epoch_num p (log_of ps s) o.opens o.epoch o.count o.later
            (subst (λ n. IsLog s.zxid_counter.epoch_num n (log_of ps s)) o.unwritten k.logged) in
        rw (sends-again on some_write) (
          unfold broadcast_proposal in
          quiet-IsKept ps u _ (queue_send-IsQuiet env _ true [] u) (
            opening_of-IsKept ps p s.zxid_counter s o.opens o.epoch o.count o.later o.unwritten
              waits l))

    pub send_new_leader-IsKept :
        s.requests_processing_enabled ≡ false
        → s.zxid_counter.epoch_num + 1 < 2 ^ 16
        → IsKept ps s
        → IsKept ps (send_new_leader env s)
    send_new_leader-IsKept waits room k = elim (Bool-cases (get_latest_zxid s.zxid_counter == 0)) [
      | inl no_write ↦
          rw (sends-none no_write) (record { logged = k.logged; opening = (λ h. absurd cc) })
      | inr some_write ↦ elim (Bool-cases s.syncing) [
        | inl on ↦ again-IsKept on some_write waits k
        | inr off ↦ new-IsKept off some_write waits room k
      ]
    ]
