-- ===== src/Proposals/CatchUp/Sent.antt =====
-- The goroutine of `processRequest` for a Sync request, on a log of proposalSaving.go.
use mathlib.Core.List.{reverse, reverse-append, map-append}
use dsc_zookeeper.Prelude.{
  ℕ, zero, suc, ◌+◌, ◌-◌, ◌^◌, ◌<◌, ◌≤◌, ◌≡◌, ◌≢◌, refl, ap, ◌∙◌, nat_eq, str_eq, List, [], ◌∷◌,
  ◌++◌, append-nil, append_assoc, map, false, ◌==◌, some, take, All, arith,
}
use dsc_zookeeper.Proposals.Types.{Proposal, ToSendMessage}
use dsc_zookeeper.Proposals.Queue.{enqueue}
use dsc_zookeeper.Proposals.Log.{Files, read_proposals, get_epoch_highest_count}
use dsc_zookeeper.Proposals.Log.Entry.{IsSavable}
use dsc_zookeeper.Proposals.Log.History.{saved, of_epoch, read_proposals-saved}
use dsc_zookeeper.Proposals.State.{Env, Zab, SyncJob}
use dsc_zookeeper.Proposals.Send.{queue_send}
use dsc_zookeeper.Proposals.SyncJob.{
  send_all, send_read, send_epoch, send_past_epoch, send_epochs, run_sync_job,
}
use dsc_zookeeper.Proposals.Agreement.{proposal_msg}
use dsc_zookeeper.Proposals.CatchUp.{IsLog, newer, above}
use dsc_zookeeper.Proposals.CatchUp.Runs.{
  IsRun, IsPast, take-above, IsRun-head, of_epoch-IsRun, of_epoch-IsPast,
}
use dsc_zookeeper.Proposals.CatchUp.Newer.{newer-split, newer-later}

IsRun-some : (n : ℕ) (ps : List Proposal) → IsRun n ps → 0 < n → ps ≢ []
IsRun-some n [] IsRun.start h e = absurd (omega arith)
IsRun-some n (p ∷ ps) r h e = cc

read-take :
    (ps : List Proposal) (k n count : ℕ)
    → k < 2 ^ 16
    → All IsSavable ps
    → IsRun n (of_epoch k ps)
    → count ≤ n
    → read_proposals (saved ps) k count ≡ some (reverse (take count (of_epoch k ps)))
unfolding read_proposals
read-take ps k n zero fits ok r le = refl
read-take ps k n (suc count) fits ok r le =
    read_proposals-saved ps k (suc count) fits ok (IsRun-some n (of_epoch k ps) r (omega arith))
      (omega arith)

-- The loop reads from an epoch that is a run what it has above a count.
read-above :
    (ps : List Proposal) (k n m : ℕ)
    → k < 2 ^ 16
    → All IsSavable ps
    → IsRun n (of_epoch k ps)
    → read_proposals (saved ps) k (n - m) ≡ some (reverse (above m (of_epoch k ps)))
read-above ps k n m fits ok r =
    read-take ps k n (n - m) fits ok r (omega arith)
    ∙ ap (λ (l : List Proposal). some (reverse l)) (take-above n m (of_epoch k ps) r)

first-newest :
    (files : Files) (k n : ℕ) (l : List Proposal)
    → read_proposals files k 1 ≡ some (reverse (take 1 l))
    → IsRun n l
    → l ≢ []
    → get_epoch_highest_count files k ≡ some n
unfolding get_epoch_highest_count
first-newest files k n [] h r some_saved = absurd (some_saved refl)
first-newest files k n (p ∷ ps) h r some_saved = rw h (ap some (IsRun-head n p ps r))

highest-run :
    (ps : List Proposal) (k n : ℕ)
    → k < 2 ^ 16
    → All IsSavable ps
    → IsRun n (of_epoch k ps)
    → of_epoch k ps ≢ []
    → get_epoch_highest_count (saved ps) k ≡ some n
highest-run ps k n fits ok r some_saved =
    first-newest (saved ps) k n (of_epoch k ps)
      (read_proposals-saved ps k 1 fits ok some_saved (omega arith)) r some_saved

module _ {C : Type 0} (env : Env C) (job : SyncJob) where
  -- A proposal, on its way to the follower.
  abbrev pub answer : Proposal → ToSendMessage
  answer p = record { msg = proposal_msg env p; broadcast = false; target = job.remote_id }

  abbrev pub sent : List Proposal → Zab C → Zab C
  sent ps s = record s { sending_queue = record { items = s.sending_queue.items ++ map answer ps } }

  send_all-sent :
      (ps : List Proposal) (s : Zab C)
      → (env.name == job.remote_id) ≡ false
      → send_all env job.remote_id ps s ≡ sent ps s
  unfolding send_all
  send_all-sent [] s other = rw (append-nil s.sending_queue.items) refl
  send_all-sent (p ∷ ps) s other =
      let step : queue_send env (proposal_msg env p) false job.remote_id s ≡ sent (p ∷ []) s =
        unfold queue_send enqueue in rw other refl in
      rw step
        (send_all-sent ps (sent (p ∷ []) s) other ∙ rw (append_assoc s.sending_queue.items) refl)

  sent-append : (ps qs : List Proposal) (s : Zab C) → sent qs (sent ps s) ≡ sent (ps ++ qs) s
  sent-append ps qs s = rw (map-append answer ps qs, append_assoc s.sending_queue.items) refl

  module _ (ps : List Proposal) (ok : All IsSavable ps)
      (other : (env.name == job.remote_id) ≡ false) where
    send_epoch-sent :
        (k n count : ℕ) (s : Zab C)
        → k < 2 ^ 16
        → IsRun n (of_epoch k ps)
        → send_epoch env (saved ps) job.request job.remote_id k n count s
          ≡ sent (reverse (above count (of_epoch k ps))) s
    unfolding send_epoch send_read
    send_epoch-sent k n count s fits r =
        rw (read-above ps k n count fits ok r, send_read)
          (send_all-sent (reverse (above count (of_epoch k ps))) s other)

    send_past_epoch-sent :
        (k count : ℕ) (s : Zab C)
        → k < 2 ^ 16
        → IsPast (of_epoch k ps)
        → send_past_epoch env
            (saved ps)
            job.request
            job.remote_id
            k
            count
            (get_epoch_highest_count (saved ps) k)
            s
          ≡ sent (reverse (above count (of_epoch k ps))) s
    unfolding send_past_epoch
    send_past_epoch-sent k count s fits (n, r, some_saved) =
        rw (highest-run ps k n fits ok r some_saved, send_past_epoch)
          (send_epoch-sent k n count s fits r)

    send_epochs-sent :
        (rounds epoch count : ℕ) (s : Zab C)
        → IsLog job.highest_epoch job.highest_count ps
        → job.highest_epoch < 2 ^ 16
        → epoch + rounds ≡ job.highest_epoch
        → send_epochs env rounds (saved ps) job epoch count s
          ≡ sent (reverse (newer epoch count ps)) s
    unfolding send_epochs
    send_epochs-sent zero epoch count s l fits h =
        let e = job.highest_epoch in
        let at : e ≡ epoch = omega arith in
        let none = newer-later e job.highest_count (suc epoch) 0 ps l (omega arith) in
        let own : newer epoch count ps ≡ above count (of_epoch epoch ps) =
          newer-split e job.highest_count epoch count ps l ∙ rw none refl in
        rw own (
          send_epoch-sent e job.highest_count count s fits (of_epoch-IsRun e job.highest_count ps l)
          ∙ rw at refl)
    send_epochs-sent (suc rounds) epoch count s l fits h =
        let past =
          of_epoch-IsPast job.highest_epoch job.highest_count epoch ps l (omega arith)
            (omega arith) in
        let own = reverse (above count (of_epoch epoch ps)) in
        let one_on : suc epoch ≡ epoch + 1 = omega arith in
        let parts : reverse (newer epoch count ps) ≡ own ++ reverse (newer (epoch + 1) 0 ps) =
          ap reverse (newer-split job.highest_epoch job.highest_count epoch count ps l)
          ∙ reverse-append (newer (suc epoch) 0 ps) (above count (of_epoch epoch ps))
          ∙ ap (λ k. own ++ reverse (newer k 0 ps)) one_on in
        rw (parts, send_past_epoch-sent epoch count s (omega arith) past)
          (send_epochs-sent rounds (epoch + 1) 0 (sent own s) l fits (omega arith)
            ∙ sent-append own (reverse (newer (epoch + 1) 0 ps)) s)

    -- x
    pub run_sync_job-newer :
        (s : Zab C)
        → IsLog job.highest_epoch job.highest_count ps
        → job.highest_epoch < 2 ^ 16
        → job.sent_epoch ≤ job.highest_epoch
        → run_sync_job env (saved ps) job s
          ≡ sent (reverse (newer job.sent_epoch job.sent_count ps)) s
    unfolding run_sync_job
    run_sync_job-newer s l fits h =
        send_epochs-sent (job.highest_epoch - job.sent_epoch) job.sent_epoch job.sent_count s l fits
          (omega arith)
