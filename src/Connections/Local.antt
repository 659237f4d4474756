-- ===== src/Connections/Local.antt =====
-- internal/LocalConnectionManager: channels in place of connections, for nodes in one process. An
-- address is its text.
use dsc_zookeeper.Prelude.{
  ℕ, Str, str_eq, Bytes, List, [], ◌∷◌, ◌++◌, Bool, true, false, ◌==◌, if◌then◌else◌, Option, none,
  some, lookup, insert,
}

-- A channel, by a number.
abbrev pub Channel : Type 0
Channel = ℕ

pub record LocalMessage : Type 0 where
  pub remote : Str
  pub message : Bytes

abbrev pub LocalMap : Type 0
LocalMap = List (Str × Channel)

unfoldable pub store : Str → Channel → LocalMap → LocalMap
store key val smap = insert key val smap

unfoldable pub load : Str → LocalMap → Option Channel
load key smap = lookup key smap

abbrev found : Option Channel → Str → Channel → LocalMap → (Channel × Bool) × LocalMap
found none key val smap = ((val, false), store key val smap)
found (some old) key val smap = ((old, true), smap)

-- The flag says that the key was there.
unfoldable pub load_or_store : Str → Channel → LocalMap → (Channel × Bool) × LocalMap
load_or_store key val smap = found (load key smap) key val smap

-- `sent` is what was received from each channel, and `failed` what was sent on the channel of
-- failures.
pub record Local : Type 0 where
  pub cmap : LocalMap
  pub sent : List (Channel × LocalMessage)
  pub failed : List Str

-- The channel that is made is the number given.
unfoldable pub init : Str → Channel → Local → Local
init address channel s = record s { cmap = store address channel s.cmap }

-- Whether somebody receives from a channel before the timer ends. Nobody does from a closed one.
module _ (receives : Channel → Bool) where
  -- A nil channel is never received from.
  unfoldable pub send_msg_with_timeout : Option Channel → LocalMessage → Str → Local → Local
  send_msg_with_timeout none to_send dest s = record s { failed = s.failed ++ dest ∷ [] }
  send_msg_with_timeout (some ch) to_send dest s =
      if receives ch
      then record s { sent = s.sent ++ (ch, to_send) ∷ [] }
      else record s { failed = s.failed ++ dest ∷ [] }

  unfoldable pub send_message : LocalMessage → Str → Local → Local
  send_message to_send self_ip s =
      send_msg_with_timeout (load to_send.remote s.cmap) (record to_send { remote = self_ip })
        to_send.remote s

  -- The loop over the map, whose goroutines run one after the other.
  unfoldable pub send_each : LocalMap → Bytes → Str → Local → Local
  send_each [] to_send self_ip s = s
  send_each ((ip, ch) ∷ rest) to_send self_ip s = send_each rest to_send self_ip (
      if self_ip == ip
      then s
      else send_msg_with_timeout (some ch) (record { remote = self_ip; message = to_send }) ip s)

  unfoldable pub broadcast : Bytes → Str → Local → Local
  broadcast to_send self_ip s = send_each s.cmap to_send self_ip s
