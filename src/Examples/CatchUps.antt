-- ===== src/Examples/CatchUps.antt =====
-- A follower that stopped in epoch 0 and catches up at the opening of epoch 2.
use dsc_zookeeper.Prelude.{
  ℕ, ◌^◌, ◌<◌, Str, str_eq, str_beq, nat_eq, List, [], map, ◌∷◌, true, some, ◌≡◌, refl, arith, All,
}
use dsc_zookeeper.Proposals.Types.{Proposal, Request, NetworkMessage, new_leader, zab, write}
use dsc_zookeeper.Proposals.Words.{get_zxid_as_int, uint32_to_bytes}
use dsc_zookeeper.Proposals.Zxid.{get_latest_zxid}
use dsc_zookeeper.Proposals.State.{Zab, init, zero_proposal}
use dsc_zookeeper.Proposals.Log.Entry.{IsSavable}
use dsc_zookeeper.Proposals.Log.History.{saved}
use dsc_zookeeper.Proposals.SyncJob.{run_sync_job}
use dsc_zookeeper.Proposals.Leader
use dsc_zookeeper.Proposals.Leader.{process_request, process_write_request}
use dsc_zookeeper.Proposals.Process
use dsc_zookeeper.Proposals.Process.{
  process_zab_message, process_req, proposal_writer, pause, continue,
}
use dsc_zookeeper.Proposals.Order.{request_of}
use dsc_zookeeper.Proposals.Requests.{checked, proposal_for}
use dsc_zookeeper.Proposals.SyncDone.{process_acks}
use dsc_zookeeper.Proposals.Lag.{leader-lags}
use dsc_zookeeper.Proposals.Agreement.{proposal_msg}
use dsc_zookeeper.Proposals.Cluster.{follower_env, send_zab_message}
use dsc_zookeeper.Proposals.CatchUp.{IsLog, empty, changed, opened}
use dsc_zookeeper.Proposals.CatchUp.Sent.{sent}
use dsc_zookeeper.Proposals.CatchUp.Received.{receive_all}
use dsc_zookeeper.Proposals.CatchUp.Steps.{sync_message, behind, job_for, asked, IsCaughtUp}
use dsc_zookeeper.Proposals.CatchUp.Done.{caught-up}
use dsc_zookeeper.Proposals.CatchUp.Agreed.{caught_up-agrees}
use dsc_zookeeper.Proposals.CatchUp.Stuck.{second_opening-stuck}
use dsc_zookeeper.Proposals.CatchUp.Kept.{IsKept}
use dsc_zookeeper.Proposals.CatchUp.Kept.Messages.{process_zab_message-IsKept, election-IsKept}
use dsc_zookeeper.Proposals.CatchUp.Kept.Answers.{kept-answers}
use dsc_zookeeper.Examples.Codecs.{
  leader, server2, zab_codec-IsExact, proposal_codec-IsExact, request_codec-IsExact,
}
use dsc_zookeeper.Examples.Logs.{change, savable}

abbrev opening : ℕ → ℕ → Proposal
opening epoch latest = record {
  prop_type = new_leader;
  epoch_num = epoch;
  count_num = 0;
  content = uint32_to_bytes latest;
}

opening-IsSavable : (epoch latest : ℕ) → epoch < 2 ^ 16 → IsSavable (opening epoch latest)
unfolding uint32_to_bytes
opening-IsSavable epoch latest h = record {
  epoch = h;
  count = omega arith;
  some_content = omega arith;
  fits = omega arith;
}

abbrev start : List Proposal
start = change 0 1 ∷ []

abbrev past : List Proposal
past = change 1 1 ∷ opening 1 (get_zxid_as_int 0 1) ∷ start

abbrev news : List Proposal
news = change 1 1 ∷ change 1 2 ∷ []

abbrev latest : ℕ
latest = get_zxid_as_int 1 2

abbrev log : List Proposal
log = opening 2 latest ∷ change 1 2 ∷ past

start-IsLog : IsLog 0 1 start
start-IsLog = changed 0 0 (change 0 1) [] refl refl refl empty

past-IsLog : IsLog 1 1 past
past-IsLog =
    changed 1 0 (change 1 1) (opening 1 (get_zxid_as_int 0 1) ∷ start) refl refl refl
      (opened 0 1 (opening 1 (get_zxid_as_int 0 1)) start refl refl refl (omega arith) start-IsLog)

log-IsLog : IsLog 2 0 log
log-IsLog =
    opened 1 2 (opening 2 latest) (change 1 2 ∷ past) refl refl refl (omega arith)
      (changed 1 1 (change 1 2) past refl refl refl past-IsLog)

start-IsSavable : All IsSavable start
start-IsSavable = (savable 0 1 (omega arith) (omega arith), tt)

log-IsSavable : All IsSavable log
log-IsSavable = (
  opening-IsSavable 2 latest (omega arith),
  (
    savable 1 2 (omega arith) (omega arith),
    (
      savable 1 1 (omega arith) (omega arith),
      (opening-IsSavable 1 (get_zxid_as_int 0 1) (omega arith), start-IsSavable),
    ),
  ),
)

-- The coordinator in epoch 2, and the follower at the first write.
abbrev coordinator : Zab ℕ
coordinator = init 3 0 (2, 0)

abbrev follower : Zab ℕ
follower = init 3 0 (0, 1)

abbrev f : Str
f = server2

caught-up_example :
    (t : Zab ℕ) × (process_zab_message
        (follower_env leader f)
        (send_zab_message leader (proposal_msg leader (opening 2 latest)))
        follower
      ≡ some (behind leader f (opening 2 latest) latest follower))
    × (process_zab_message leader
          (record {
            remote = f;
            msg_type = zab;
            message = leader.zab_codec.marshal (sync_message leader follower);
          })
          coordinator
        ≡ some (asked leader f follower coordinator))
    × (run_sync_job leader
          (saved log)
          (job_for leader f follower coordinator)
          (asked leader f follower coordinator)
        ≡ sent leader
            (job_for leader f follower coordinator)
            news
            (asked leader f follower coordinator))
    × (receive_all leader f news (behind leader f (opening 2 latest) latest follower) ≡ some t)
    × IsCaughtUp leader f (opening 2 latest) (change 1 2) news follower t
unfolding init str_beq get_latest_zxid get_zxid_as_int
caught-up_example =
    caught-up leader f (opening 2 latest) (change 1 2) past coordinator follower zab_codec-IsExact
      proposal_codec-IsExact request_codec-IsExact refl refl refl refl refl log-IsLog log-IsSavable
      (record { epoch = omega arith; count = omega arith }) (omega arith)

-- The follower has committed the first write.
abbrev committed : Zab ℕ
committed = record follower { to_commit_chan = request_of leader (change 0 1) ∷ [] }

caught_up-agrees_example :
    (t : Zab ℕ) × (receive_all leader f news (behind leader f (opening 2 latest) latest committed)
      ≡ some t)
    × (t.to_commit_chan ≡ map (request_of leader) (change 0 1 ∷ change 1 1 ∷ change 1 2 ∷ []))
    × (t.proposals_queue.items ≡ [])
unfolding init str_beq get_latest_zxid get_zxid_as_int
caught_up-agrees_example =
    caught_up-agrees leader f (opening 2 latest) (change 1 2) past coordinator committed
      zab_codec-IsExact proposal_codec-IsExact request_codec-IsExact refl refl refl refl refl
      log-IsLog log-IsSavable (record { epoch = omega arith; count = omega arith }) (omega arith)
      refl

-- A second election of the coordinator, without a write in epoch 2.
abbrev log' : List Proposal
log' = opening 3 (get_zxid_as_int 2 0) ∷ log

log'-IsLog : IsLog 3 0 log'
log'-IsLog = opened 2 0 (opening 3 (get_zxid_as_int 2 0)) log refl refl refl (omega arith) log-IsLog

second_opening-stuck_example :
    let cap = get_zxid_as_int 2 0 in
    let nl = opening 3 cap in
    let u : Zab ℕ = init 3 0 (1, 2) in
    let s : Zab ℕ = init 3 0 (3, 0) in
    let t = asked leader f u s in
    (process_zab_message
        (follower_env leader f)
        (send_zab_message leader (proposal_msg leader nl))
        u
      ≡ some (behind leader f nl cap u))
    × (process_zab_message leader
          (record {
            remote = f;
            msg_type = zab;
            message = leader.zab_codec.marshal (sync_message leader u);
          })
          s
        ≡ some t)
    × (run_sync_job leader (saved log') (job_for leader f u s) t ≡ t)
unfolding init str_beq
second_opening-stuck_example =
    second_opening-stuck leader f (opening 3 (get_zxid_as_int 2 0)) (opening 2 latest)
      (change 1 2 ∷ past) (init 3 0 (3, 0)) (init 3 0 (1, 2)) zab_codec-IsExact
      proposal_codec-IsExact request_codec-IsExact refl refl
      (record { epoch = omega arith; count = omega arith }) (omega arith)
      (changed 1 1 (change 1 2) past refl refl refl past-IsLog)
      (opening-IsSavable 3 (get_zxid_as_int 2 0) (omega arith), log-IsSavable) refl refl refl refl
      refl log'-IsLog refl

-- The coordinator at the end of epoch 1, before and after it opens epoch 2.
abbrev epoch_one : List Proposal
epoch_one = change 1 2 ∷ past

epoch_one-IsLog : IsLog 1 2 epoch_one
epoch_one-IsLog = changed 1 1 (change 1 2) past refl refl refl past-IsLog

abbrev at_work : Zab ℕ
at_work = record (init 3 0 (1, 2)) { requests_enabled = true; requests_processing_enabled = true }

at_work-IsKept : IsKept epoch_one at_work
unfolding init
at_work-IsKept = record { logged = epoch_one-IsLog; opening = λ h. absurd cc }

abbrev request_message : NetworkMessage
request_message = record { remote = server2; msg_type = zab; message = 0 ∷ 1 ∷ 9 ∷ 5 ∷ [] }

abbrev accepted : Zab ℕ
accepted =
    process_write_request leader (record { req_type = write; req_number = 9; content = 5 ∷ [] })
      server2 (record at_work { mode4_msg_count = 1 })

process_zab_message-IsKept_example : IsKept epoch_one accepted
unfolding init process_zab_message Process.by_type process_req process_request Leader.by_type
    str_beq
process_zab_message-IsKept_example =
    process_zab_message-IsKept leader refl proposal_codec-IsExact epoch_one request_message at_work
      accepted (λ e. cc) (omega arith) at_work-IsKept refl

election-IsKept_example : IsKept epoch_one (continue leader (pause leader at_work))
unfolding init str_beq
election-IsKept_example =
    election-IsKept leader refl proposal_codec-IsExact epoch_one at_work refl (λ e. absurd cc)
      (omega arith) at_work-IsKept

abbrev opened_two : Zab ℕ
opened_two = record (init 3 0 (2, 0)) {
  new_proposal_chan = opening 2 latest ∷ [];
  current_sync = opening 2 latest;
  syncing = true;
}

opened_two-IsKept : IsKept epoch_one opened_two
unfolding init
opened_two-IsKept = record {
  logged = log-IsLog;
  opening = λ h. record {
    opens = refl;
    epoch = refl;
    count = refl;
    later = omega arith;
    unwritten = refl;
    waits = refl;
  };
}

kept-answers_example :
    let job = job_for leader f follower opened_two in
    run_sync_job leader (proposal_writer (saved epoch_one) (opening 2 latest ∷ [])) job opened_two
    ≡ sent leader job news opened_two
unfolding init str_beq
kept-answers_example =
    kept-answers leader epoch_one (job_for leader f follower opened_two) opened_two
      opened_two-IsKept log-IsSavable (omega arith) refl refl refl (omega arith)

-- A coordinator that still holds a proposal of its time as a follower.
abbrev holding : Zab ℕ
holding = record (init 3 0 (2, 0)) {
  proposals_queue = record { items = change 1 3 ∷ [] };
  requests_enabled = true;
  requests_processing_enabled = true;
}

abbrev asked_write : Request
asked_write = record { req_type = write; req_number = 9; content = 5 ∷ [] }

leader-lags_example :
    let g = follower_env leader f in
    let u : Zab ℕ = init 3 0 (2, 0) in
    let p = proposal_for leader asked_write server2 holding 1 (0 ∷ 5 ∷ []) in
    (t : Zab ℕ) × (v : Zab ℕ) × (w : Zab ℕ) × (process_acks leader 1 p
        (process_write_request leader asked_write server2 holding)
      ≡ some t)
    × (process_zab_message g (send_zab_message leader (proposal_msg leader p)) u ≡ some v)
    × (process_zab_message g (send_zab_message leader (proposal_msg leader zero_proposal)) v
        ≡ some w)
    × (t.to_commit_chan ≡ request_of leader (change 1 3) ∷ [])
    × (t.proposals_queue.items ≡ p ∷ [])
    × (w.to_commit_chan ≡ checked leader asked_write (0 ∷ 5 ∷ []) ∷ [])
unfolding init str_beq
leader-lags_example =
    leader-lags leader refl proposal_codec-IsExact f asked_write server2 holding (init 3 0 (2, 0)) 1
      (0 ∷ 5 ∷ []) (change 1 3) [] 0 zab_codec-IsExact request_codec-IsExact refl refl refl refl
      refl
