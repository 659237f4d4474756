-- ===== src/Proposals/CatchUp/Kept/Answers.antt =====
-- proposalWriter of subroutines.go and the answer to a Sync request of proposals.go, on a
-- coordinator whose log is kept.
use mathlib.Core.List.{reverse, reverse-cons}
use dsc_zookeeper.Prelude.{
  ◌^◌, ◌<◌, ◌≤◌, ◌≡◌, refl, sym, ap, ◌∙◌, str_eq, List, [], ◌∷◌, ◌++◌, append_assoc, false, ◌==◌,
  All,
}
use dsc_zookeeper.Proposals.Types.{Proposal}
use dsc_zookeeper.Proposals.State.{Env, Zab, SyncJob}
use dsc_zookeeper.Proposals.Log.Entry.{IsSavable}
use dsc_zookeeper.Proposals.Log.History.{saved}
use dsc_zookeeper.Proposals.Process.{proposal_writer}
use dsc_zookeeper.Proposals.SyncJob.{run_sync_job}
use dsc_zookeeper.Proposals.CatchUp.{newer}
use dsc_zookeeper.Proposals.CatchUp.Sent.{sent, run_sync_job-newer}
use dsc_zookeeper.Proposals.CatchUp.Kept.{IsKept, log_of}

proposal_writer-saved :
    (qs ps : List Proposal) → proposal_writer (saved ps) qs ≡ saved (reverse qs ++ ps)
unfolding proposal_writer saved
proposal_writer-saved [] ps = refl
proposal_writer-saved (q ∷ qs) ps =
    let parts : reverse (q ∷ qs) ++ ps ≡ reverse qs ++ (q ∷ ps) =
      ap (λ (l : List Proposal). l ++ ps) (reverse-cons q qs)
      ∙ append_assoc (reverse qs) (q ∷ []) ps in
    proposal_writer-saved qs (q ∷ ps) ∙ ap saved (sym parts)

-- When all that a coordinator with a kept log has sent to be saved is on disk and fits the
-- format, the answer to a Sync request, of another node and from an epoch up to its own, which
-- has 16 bits, is exactly the writes of the log above the zxid of the request, oldest first,
-- behind what is queued already.
pub kept-answers :
    {C : Type 0} (env : Env C) (ps : List Proposal) (job : SyncJob) (s : Zab C)
    → IsKept ps s
    → All IsSavable (log_of ps s)
    → s.zxid_counter.epoch_num < 2 ^ 16
    → (env.name == job.remote_id) ≡ false
    → job.highest_epoch ≡ s.zxid_counter.epoch_num
    → job.highest_count ≡ s.zxid_counter.count_num
    → job.sent_epoch ≤ s.zxid_counter.epoch_num
    → run_sync_job env (proposal_writer (saved ps) s.new_proposal_chan) job s
      ≡ sent env job (reverse (newer job.sent_epoch job.sent_count (log_of ps s))) s
kept-answers env ps job s kept ok fits other e c le =
    rw (proposal_writer-saved s.new_proposal_chan ps) (
      run_sync_job-newer env job (log_of ps s) ok other s (rw (e, c) kept.logged) (rw e fits)
        (rw e le))
