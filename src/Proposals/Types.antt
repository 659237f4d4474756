-- ===== src/Proposals/Types.antt =====
-- The messages of internal/Proposals/messageTypes.go, and the network message of
-- internal/ConnectionManager/types.go that carries them.
use dsc_zookeeper.Prelude.{ℕ, Bool, Str, Bytes}

-- `unknown k` is a value of the Go integer type that no constant names.
pub data ZabMessageType : Type 0 where
  req prop ack err sync_err : ZabMessageType
  unknown : ℕ → ZabMessageType

pub record ZabMessage : Type 0 where
  pub zab_type : ZabMessageType
  pub content : Bytes

-- The constants are 0, 1 and 2, and `unknown k` is `k + 3`.
pub data ProposalType : Type 0 where
  commit state_change new_leader : ProposalType
  unknown : ℕ → ProposalType

pub record Proposal : Type 0 where
  pub prop_type : ProposalType
  pub epoch_num : ℕ  -- uint16
  pub count_num : ℕ  -- uint16
  pub content : Bytes

-- The constants are 0 and 1.
pub data RequestType : Type 0 where
  sync write : RequestType
  unknown : ℕ → RequestType

pub record Request : Type 0 where
  pub req_type : RequestType
  pub req_number : ℕ
  pub content : Bytes

pub data NetMessageType : Type 0 where
  zab heartbeat election client_msg : NetMessageType

pub record NetworkMessage : Type 0 where
  pub remote : Str
  pub msg_type : NetMessageType
  pub message : Bytes

-- subroutines.go
pub record ToSendMessage : Type 0 where
  pub msg : ZabMessage
  pub broadcast : Bool
  pub target : Str
