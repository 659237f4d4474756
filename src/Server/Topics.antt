-- ===== src/Server/Topics.antt =====
-- The message numbers and the paths of a topic in main/server.go. The next number is unbounded.
pub mod Next
use dsc_zookeeper.Prelude.{
  ℕ, ◌+◌, Str, str_eq, List, [], ◌∷◌, ◌++◌, ◌==◌, nat_eq, if◌then◌else◌, Option, none, some, codes,
}
use dsc_zookeeper.Prelude.Decimal.{itoa, atoi}
use dsc_zookeeper.Znode.Check.{larger}

abbrev strip : Str → Str → Option Str
strip [] s = some s
strip (p ∷ prefix) [] = none
strip (p ∷ prefix) (c ∷ s) = if p == c then strip prefix s else none

-- strings.TrimPrefix
abbrev pub trim_prefix : Str → Str → Str
trim_prefix s prefix = elim (strip prefix s) [ none ↦ s | some rest ↦ rest ]

-- The loop of findMaxMessageNumber, from the maximum so far.
unfoldable pub max_message_number : List Str → ℕ → ℕ
max_message_number [] max_num = max_num
max_message_number (msg ∷ messages) max_num =
    max_message_number messages (larger max_num (atoi (trim_prefix msg (codes "msg_"))))

unfoldable pub find_max_message_number : List Str → ℕ
find_max_message_number messages = max_message_number messages 0

unfoldable pub next_msg_num : List Str → ℕ
next_msg_num children = find_max_message_number children + 1

-- The path of a message of a topic, and the path that a new message is created under.
abbrev pub message_path : Str → ℕ → Str
message_path topic n = topic ++ codes "/msg_" ++ itoa n

abbrev pub new_message_path : Str → Str
new_message_path topic = topic ++ codes "/msg"
