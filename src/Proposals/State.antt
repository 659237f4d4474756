-- ===== src/Proposals/State.antt =====
-- The package variables of proposals.go, and what the package takes from the others.
use dsc_zookeeper.Prelude.{Codec, ℕ, Str, Bytes, List, [], Bool, false}
use dsc_zookeeper.Prelude.Int.{pos}
use dsc_zookeeper.Proposals.Types.{
  ZabMessage, Proposal, Request, NetworkMessage, ToSendMessage, req, commit,
}
use dsc_zookeeper.Proposals.Zxid.{ZxidCounter}
use dsc_zookeeper.Proposals.Ack.{AckCounter}
use dsc_zookeeper.Proposals.Queue.{SafeQueue}
use dsc_zookeeper.Proposals.SyncTrack.{SyncTracker, SafeCounter}

-- The configuration, the election's view, JSON, and the checker that `Init` is given: it works on
-- a state of its own, and returns the updated data and whether the request passes.
pub record Env (C : Type 0) : Type 0 where
  pub name : Str
  pub test_mode : Str
  pub coordinator : Str
  pub addresses : List Str
  pub zab_codec : Codec ZabMessage
  pub proposal_codec : Codec Proposal
  pub request_codec : Codec Request
  pub request_checker : C → Bytes → C × Bytes × Bool

-- A goroutine that `processRequest` starts for a Sync request, with the values it captures.
pub record SyncJob : Type 0 where
  pub request : Request
  pub remote_id : Str
  pub sent_epoch : ℕ
  pub sent_count : ℕ
  pub highest_epoch : ℕ
  pub highest_count : ℕ

-- A channel is the list of the values that were sent on it, but for `sync_finish`, which holds the
-- number of values in its buffer. `sync_jobs` are the goroutines that have not run yet.
pub record Zab (C : Type 0) : Type 0 where
  pub n_systems : ℕ
  pub zxid_counter : ZxidCounter
  pub ack_counter : AckCounter
  pub proposals_queue : SafeQueue Proposal
  pub sync_track : SyncTracker
  pub sync_response_tracker : SafeCounter
  pub message_queue : SafeQueue NetworkMessage
  pub request_queue : SafeQueue ZabMessage
  pub holding_requests_queue : SafeQueue NetworkMessage
  pub sending_queue : SafeQueue ToSendMessage
  pub current_sync : Proposal
  pub sync_id : ℕ
  pub new_proposal_chan : List Proposal
  pub to_commit_chan : List Request
  pub failed_request_chan : List Request
  pub sync_finish : ℕ
  pub checker : C
  pub requests_enabled : Bool
  pub requests_processing_enabled : Bool
  pub syncing : Bool
  pub mode4_msg_count : ℕ
  pub sync_jobs : List SyncJob

abbrev pub zero_proposal : Proposal
zero_proposal = record { prop_type = commit; epoch_num = 0; count_num = 0; content = [] }

abbrev pub zero_message : ZabMessage
zero_message = record { zab_type = req; content = [] }

abbrev pub empty_queue {ℓ} : {A : Type ℓ} → SafeQueue A
empty_queue = record { items = [] }

-- The package variables after `Init`: the number of servers, the checker's state, and the epoch and
-- the count that were restored from disk.
unfoldable pub init : {C : Type 0} → ℕ → C → ℕ × ℕ → Zab C
init n c (epoch, count) = record {
  n_systems = n;
  zxid_counter = record { epoch_num = epoch; count_num = count };
  ack_counter = record { ack_tracker = [] };
  proposals_queue = empty_queue;
  sync_track = record { active = false; zxid_cap = 0; prop = zero_message };
  sync_response_tracker = record { count = pos 0 };
  message_queue = empty_queue;
  request_queue = empty_queue;
  holding_requests_queue = empty_queue;
  sending_queue = empty_queue;
  current_sync = zero_proposal;
  sync_id = 0;
  new_proposal_chan = [];
  to_commit_chan = [];
  failed_request_chan = [];
  sync_finish = 0;
  checker = c;
  requests_enabled = false;
  requests_processing_enabled = false;
  syncing = false;
  mode4_msg_count = 0;
  sync_jobs = [];
}
