-- ===== src/Proposals/SyncJob.antt =====
-- The goroutine that `processRequest` starts for a Sync request: it reads the log and sends what
-- the follower lacks.
use dsc_zookeeper.Prelude.{ℕ, zero, suc, ◌+◌, ◌-◌, Str, List, [], ◌∷◌, false, Option, none, some}
use dsc_zookeeper.Proposals.Types.{Proposal, Request, prop}
use dsc_zookeeper.Proposals.Log.{Files, read_proposals, get_epoch_highest_count}
use dsc_zookeeper.Proposals.State.{Env, Zab, SyncJob}
use dsc_zookeeper.Proposals.Send.{queue_send, reply_sync_request_error}

module _ {C : Type 0} (env : Env C) where
  unfoldable pub send_all : Str → List Proposal → Zab C → Zab C
  send_all remote_id [] s = s
  send_all remote_id (p ∷ ps) s = send_all remote_id ps (
      queue_send env (record { zab_type = prop; content = env.proposal_codec.marshal p }) false
        remote_id s)

  -- After an error the answer goes on, with no proposals.
  unfoldable pub send_read : Request → Str → Option (List Proposal) → Zab C → Zab C
  send_read r remote_id none s = reply_sync_request_error env r remote_id s
  send_read r remote_id (some ps) s = send_all remote_id ps s

  -- The latest proposals of an epoch, above `count`, with `highest` the count of its last one.
  unfoldable pub send_epoch : Files → Request → Str → ℕ → ℕ → ℕ → Zab C → Zab C
  send_epoch files r remote_id epoch highest count s =
      send_read r remote_id (read_proposals files epoch (highest - count)) s

  -- An epoch before the last one: its highest count comes from its file, or is 0 after an error.
  unfoldable pub send_past_epoch : Files → Request → Str → ℕ → ℕ → Option ℕ → Zab C → Zab C
  send_past_epoch files r remote_id epoch count (some highest) s =
      send_epoch files r remote_id epoch highest count s
  send_past_epoch files r remote_id epoch count none s =
      send_epoch files r remote_id epoch 0 count (reply_sync_request_error env r remote_id s)

  -- The loop over the epochs, with the rounds that are left; only the first epoch starts above 0.
  unfoldable pub send_epochs : ℕ → Files → SyncJob → ℕ → ℕ → Zab C → Zab C
  send_epochs zero files job epoch count s =
      send_epoch files job.request job.remote_id job.highest_epoch job.highest_count count s
  send_epochs (suc rounds) files job epoch count s = send_epochs rounds files job (epoch + 1) 0 (
      send_past_epoch files job.request job.remote_id epoch count
        (get_epoch_highest_count files epoch) s)

  unfoldable pub run_sync_job : Files → SyncJob → Zab C → Zab C
  run_sync_job files job s =
      send_epochs (job.highest_epoch - job.sent_epoch) files job job.sent_epoch job.sent_count s
