-- ===== src/Examples/Messages.antt =====
-- The handlers of proposals, requests and acknowledgements at concrete messages.
use dsc_zookeeper.Prelude.{
  ℕ, ◌-◌, ◌+◌, ◌*◌, ◌/◌, ◌<◌, ◌↔◌, ◌⊎◌, str_eq, str_beq, nat_eq, [], ◌∷◌, ◌++◌, true, if◌then◌else◌,
  some, ◌≡◌, refl, arith, lookup, ltb,
}
use dsc_zookeeper.Prelude.Int.{pos}
use dsc_zookeeper.Proposals.Types.{
  ZabMessage, Proposal, Request, NetworkMessage, commit, state_change, new_leader, prop, write, zab,
}
use dsc_zookeeper.Proposals.Words.{get_zxid_as_int, get_zxid_as_int_order}
use dsc_zookeeper.Proposals.Zxid.{ZxidCounter}
use dsc_zookeeper.Proposals.State.{Env, Zab, init}
use dsc_zookeeper.Proposals.Follower.{process_proposal, process_commit_proposal, dispatch}
use dsc_zookeeper.Proposals.Send.{queue_commit_proposal}
use dsc_zookeeper.Proposals.Queue.{dequeue}
use dsc_zookeeper.Proposals.Ack.{store_new}
use dsc_zookeeper.Proposals.Ack.Quorum.{stored, acked, commits, acks_of, commits-majority}
use dsc_zookeeper.Proposals.Order.{history, IsOrdered, accepted, process_proposal-history}
use dsc_zookeeper.Proposals.Cluster.{follower_env}
use dsc_zookeeper.Proposals.SyncDone.{process_acks, process_acks-resumed, resumed, left}
use dsc_zookeeper.Examples.Codecs.{leader, server1, server2}

abbrev at_work : Zab ℕ
at_work = record (init 3 0 (1, 4)) { requests_enabled = true; requests_processing_enabled = true }

abbrev write_five : Request
write_five = record { req_type = write; req_number = 9; content = 5 ∷ [] }

abbrev write_nothing : Request
write_nothing = record { req_type = write; req_number = 9; content = [] }

abbrev change_five : Proposal
change_five = record {
  prop_type = state_change;
  epoch_num = 1;
  count_num = 5;
  content = 1 ∷ 9 ∷ 5 ∷ [];
}

-- A node with one proposal held.
abbrev holding : Zab ℕ
holding = record at_work { proposals_queue = record { items = change_five ∷ [] } }

abbrev zab_five : ZabMessage
zab_five = record { zab_type = prop; content = [] }

abbrev commit_five : Proposal
commit_five = record change_five { prop_type = commit }

abbrev from_leader : Env ℕ
from_leader = follower_env leader server2

-- The state after a commit, written out.
abbrev committed : Zab ℕ
committed = record holding {
  proposals_queue = record { items = [] };
  to_commit_chan = record { req_type = write; req_number = 9; content = 5 ∷ [] } ∷ [];
  new_proposal_chan = [];
}

process_proposal-history_example :
    IsOrdered from_leader committed
    × (history from_leader committed
        ≡ history from_leader holding ++ accepted from_leader commit_five server1)
unfolding init str_beq process_proposal dispatch process_commit_proposal queue_commit_proposal
    dequeue
process_proposal-history_example =
    process_proposal-history from_leader commit_five server1 zab_five holding committed (λ e. cc)
      refl

commits-majority_example :
    commits
      (3 / 2)
      65541
      (store_new (record { ack_tracker = [] }) 65541)
      (acked 65541 ∷ stored 65542 ∷ acked 65541 ∷ [])
    ≡ (if ltb 3 (2 * (acks_of 65541 (acked 65541 ∷ stored 65542 ∷ acked 65541 ∷ []) + 1))
        then 1
        else 0)
commits-majority_example =
    commits-majority 3 65541 (record { ack_tracker = [] })
      (acked 65541 ∷ stored 65542 ∷ acked 65541 ∷ []) (omega arith)
      (tt, ((λ e. absurd (omega arith)), (tt, tt))) (omega arith)

abbrev opening : Proposal
opening = record {
  prop_type = new_leader;
  epoch_num = 2;
  count_num = 0;
  content = 4 ∷ 0 ∷ 1 ∷ 0 ∷ [];
}

-- A write request on its way to the coordinator.
abbrev held_message : NetworkMessage
held_message = record { remote = server2; msg_type = zab; message = 0 ∷ 1 ∷ 9 ∷ 5 ∷ [] }

-- The coordinator that waits for two followers, with one request held.
abbrev opening_state : Zab ℕ
opening_state = record (init 3 0 (2, 0)) {
  syncing = true;
  current_sync = opening;
  sync_response_tracker = record { count = pos 2 };
  holding_requests_queue = record { items = held_message ∷ [] };
}

process_acks-resumed_example :
    (process_acks leader 1 opening opening_state ≡ some (left leader (pos (2 - 1)) opening_state))
    × (process_acks leader 2 opening opening_state ≡ some (resumed leader opening_state))
unfolding init str_beq lookup
process_acks-resumed_example =
    process_acks-resumed leader 1 1 opening opening_state (omega arith)
      (record {
        opens = refl;
        epoch = refl;
        count = refl;
        waits = refl;
        no_test = refl;
        no_write = refl;
      })
      refl (refl, tt)

get_zxid_as_int_order_example :
    (get_zxid_as_int 1 65535 < get_zxid_as_int 2 0) ↔ ((1 < 2) ⊎ (◌≡◌ {A = ℕ} 1 2 × (65535 < 0)))
get_zxid_as_int_order_example =
    get_zxid_as_int_order 1 65535 2 0 (omega arith) (omega arith) (omega arith) (omega arith)

abbrev counter : ZxidCounter
counter = record { epoch_num = 1; count_num = 4 }
