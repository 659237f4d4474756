-- ===== src/Proposals/Cluster.antt =====
-- The servers of one epoch together: the coordinator, its followers, and the ordered connections
-- from the one to the others, which carry what messageSender of subroutines.go takes from the
-- queue. Messages to the coordinator may be any, in any order.
pub mod Replay
pub mod Sends
pub mod Writes
pub mod Acks
pub mod Handles
pub mod Receives
pub mod Invariant
pub mod Commits
use dsc_zookeeper.Prelude.{
  ℕ, Str, str_eq, Bytes, List, [], ◌∷◌, ◌++◌, map, Bool, true, false, ◌&&◌, ◌||◌, not, ◌==◌,
  if◌then◌else◌, Option, some, ◌≡◌, ◌≢◌,
}
use dsc_zookeeper.Proposals.Types.{
  ZabMessage, ZabMessageType, NetworkMessage, ToSendMessage, prop, zab,
}
use dsc_zookeeper.Proposals.State.{Env, Zab}
use dsc_zookeeper.Proposals.Send.{send_write_request}
use dsc_zookeeper.Proposals.Process.{process_zab_message, message_sender}

-- A follower, with the messages that its connection from the coordinator still holds.
pub record Follower (C : Type 0) : Type 0 where
  pub name : Str
  pub inbox : List ZabMessage
  pub state : Zab C

pub record Cluster (C : Type 0) : Type 0 where
  pub leader : Zab C
  pub followers : List (Follower C)

unfoldable pub is_among : Str → List Str → Bool
is_among name [] = false
is_among name (x ∷ xs) = x == name || is_among name xs

module _ {C : Type 0} (env : Env C) where
  -- A follower under this node's lead: another name, and the same configuration otherwise.
  abbrev pub follower_env : Str → Env C
  follower_env follower = record env { name = follower; coordinator = env.name }

  -- The network message that carries a ZabMessage of this node.
  abbrev pub send_zab_message : ZabMessage → NetworkMessage
  send_zab_message msg = record {
    remote = env.name;
    msg_type = zab;
    message = env.zab_codec.marshal msg;
  }

  -- A broadcast goes to the servers of the ring but the node itself, any other message to its
  -- target.
  unfoldable pub reaches : ToSendMessage → Str → Bool
  reaches m name =
      if m.broadcast
      then is_among name env.addresses && not (env.name == name)
      else m.target == name

  unfoldable pub deliver : ToSendMessage → Follower C → Follower C
  deliver m f = if reaches m f.name then record f { inbox = f.inbox ++ m.msg ∷ [] } else f

  abbrev pub type_of : NetworkMessage → ZabMessageType
  type_of m = (env.zab_codec.unmarshal m.message).0.zab_type

  -- The coordinator handles any message that is no proposal, asks for a write itself, or sends
  -- the next message of its queue; a follower handles the next message of its connection, or asks
  -- for a write.
  pub data Step (c d : Cluster C) : Type 0 where
    handles :
        (m : NetworkMessage) (s : Zab C)
        → type_of m ≢ prop
        → process_zab_message env m c.leader ≡ some s
        → d ≡ record c { leader = s }
        → Step c d
    asks :
        (content : Bytes) (n : ℕ)
        → d ≡ record c { leader = send_write_request env content n c.leader }
        → Step c d
    sends :
        (m : ToSendMessage) (s : Zab C)
        → message_sender env c.leader ≡ (some m, s)
        → d ≡ record c { leader = s; followers = map (deliver m) c.followers }
        → Step c d
    receives :
        (before after : List (Follower C)) (f : Follower C) (m : ZabMessage)
        (rest : List ZabMessage) (t : Zab C)
        → c.followers ≡ before ++ f ∷ after
        → f.inbox ≡ m ∷ rest
        → process_zab_message (follower_env f.name) (send_zab_message m) f.state ≡ some t
        → d ≡ record c { followers = before ++ record f { inbox = rest; state = t } ∷ after }
        → Step c d
    follower_asks :
        (before after : List (Follower C)) (f : Follower C) (content : Bytes) (n : ℕ)
        → c.followers ≡ before ++ f ∷ after
        → d ≡ record c {
          followers =
              before
              ++ record f { state = send_write_request (follower_env f.name) content n f.state }
                ∷ after;
        }
        → Step c d

  pub data Reach (c : Cluster C) : Cluster C → Type 0 where
    here : Reach c c
    next : {d e : Cluster C} → Reach c d → Step d e → Reach c e
