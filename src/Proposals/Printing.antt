-- ===== src/Proposals/Printing.antt =====
-- The printers of messageTypes.go, as texts, and the one of types.go of the connections. What they
-- log beside is left out.
use dsc_zookeeper.Prelude.{Str, List, [], ◌∷◌, ◌++◌, if◌then◌else◌, codes}
use dsc_zookeeper.Proposals.Types.{
  ZabMessage, ZabMessageType, req, prop, ack, err, sync_err, ProposalType, commit, state_change,
  new_leader, RequestType, sync, write, NetMessageType, zab, heartbeat, election, client_msg,
  NetworkMessage, ToSendMessage,
}
use dsc_zookeeper.Proposals.Queue.{SafeQueue, elements}
use dsc_zookeeper.Proposals.State.{Env}

-- `ToStr` of each type.
unfoldable pub proposal_to_str : ProposalType → Str
proposal_to_str commit = codes "Commit"
proposal_to_str state_change = codes "StateChange"
proposal_to_str new_leader = codes "NewLeader"
proposal_to_str (ProposalType.unknown k) = codes "unknown"

unfoldable pub zab_to_str : ZabMessageType → Str
zab_to_str req = codes "Request"
zab_to_str prop = codes "Proposal"
zab_to_str ack = codes "Acknowledge"
zab_to_str err = codes "Error"
zab_to_str sync_err = codes "Sync Error"
zab_to_str (ZabMessageType.unknown k) = codes "unknown"

unfoldable pub request_to_str : RequestType → Str
request_to_str sync = codes "Sync"
request_to_str write = codes "Write"
request_to_str (RequestType.unknown k) = []

unfoldable pub net_to_str : NetMessageType → Str
net_to_str zab = codes "ZAB"
net_to_str heartbeat = codes "HEARTBEAT"
net_to_str election = codes "ELECTION"
net_to_str client_msg = codes "CLIENT_MSG"

module _ {C : Type 0} (env : Env C) where
  -- A content that does not decode is logged, and what was decoded of it is printed.
  abbrev request_line : ZabMessage → Str
  request_line m =
      zab_to_str m.zab_type
      ++ codes ";"
      ++ request_to_str (env.request_codec.unmarshal m.content).0.req_type

  abbrev proposal_line : ZabMessage → Str
  proposal_line m =
      zab_to_str m.zab_type
      ++ codes ";"
      ++ proposal_to_str (env.proposal_codec.unmarshal m.content).0.prop_type

  abbrev by_type : ZabMessageType → ZabMessage → Str
  by_type req m = request_line m
  by_type prop m = proposal_line m
  by_type ack m = proposal_line m
  by_type err m = zab_to_str m.zab_type
  by_type sync_err m = zab_to_str m.zab_type
  by_type (ZabMessageType.unknown k) m = []

  unfoldable pub convert_zab_to_str : ZabMessage → Str
  convert_zab_to_str m = by_type m.zab_type m

  unfoldable pub convert_message_to_str : NetworkMessage → Str
  convert_message_to_str nm =
      let (m, decoded) = env.zab_codec.unmarshal nm.message in
      if decoded then nm.remote ++ codes ":" ++ convert_zab_to_str m else []

  unfoldable pub convert_to_send_to_str : ToSendMessage → Str
  convert_to_send_to_str to_send = convert_zab_to_str to_send.msg

  -- The loop of the three printers of queues, behind the opening bracket.
  abbrev each : {A : Type 0} → (A → Str) → List A → Str
  each f [] = codes "]"
  each f (p ∷ ps) = f p ++ codes " " ++ each f ps

  unfoldable pub queue_state_to_str : SafeQueue NetworkMessage → Str
  queue_state_to_str q = codes "[ " ++ each convert_message_to_str (elements q)

  unfoldable pub zab_queue_state_to_str : SafeQueue ZabMessage → Str
  zab_queue_state_to_str q = codes "[ " ++ each convert_zab_to_str (elements q)

  unfoldable pub send_queue_state_to_str : SafeQueue ToSendMessage → Str
  send_queue_state_to_str q = codes "[ " ++ each convert_to_send_to_str (elements q)
