-- ===== src/Server/Topics/Next.antt =====
-- findMaxMessageNumber of main/server.go, and seqname of internal/znode/check_utils.go.
use dsc_zookeeper.Prelude.{
  ℕ, ◌+◌, ◌^◌, ◌<◌, Str, str_eq, List, [], ◌∷◌, ◌++◌, append_assoc, nat_eq, some, codes, lookup,
  All, ◌≡◌, refl, sym, ap, ◌∙◌,
}
use dsc_zookeeper.Prelude.Decimal.{itoa, atoi, atoi-itoa}
use dsc_zookeeper.Znode.FilePath.{dir, base, join}
use dsc_zookeeper.Znode.Types.{ZNode, ok}
use dsc_zookeeper.Znode.Check.{Cache, sequence_of, larger, max_sequence, seqname}
use dsc_zookeeper.Znode.Check.Sequence.{numbered, sequence_of-numbered}
use dsc_zookeeper.Server.Topics.{
  trim_prefix, max_message_number, find_max_message_number, next_msg_num, message_path,
  new_message_path,
}

-- A message of a topic: `msg_` and a number that fits an int.
abbrev pub IsMessage : Str → Type 0
IsMessage name = (n : ℕ) × (n < 2 ^ 63) × (name ≡ numbered (codes "msg") n)

number_of :
    (name : Str)
    → IsMessage name
    → sequence_of (codes "msg") name ≡ atoi (trim_prefix name (codes "msg_"))
number_of name (n, small, e) =
    rw e (sequence_of-numbered (codes "msg") n small ∙ sym (atoi-itoa n small))

-- Both programs find the same number among the messages.
max_message_number-max_sequence :
    (children : List Str) (m : ℕ)
    → All IsMessage children
    → max_message_number children m ≡ max_sequence (codes "msg") children m
unfolding max_message_number max_sequence
max_message_number-max_sequence [] m h = refl
max_message_number-max_sequence (x ∷ xs) m (h, hs) =
    rw (← number_of x h)
      (max_message_number-max_sequence xs (larger m (sequence_of (codes "msg") x)) hs)

-- Take a topic whose path dir, base and join leave as it is, whose children all are messages with
-- a number that fits an int, and whose znode is in the leader's cache with these children. The
-- path that a server watches for a subscriber is the path that the leader gives to the next
-- message that is created in the topic.
pub message_path-seqname :
    (cache : Cache) (znode parent : ZNode) (topic : Str)
    → znode.path ≡ new_message_path topic
    → dir (new_message_path topic) ≡ topic
    → base (new_message_path topic) ≡ codes "msg"
    → join topic (numbered (codes "msg") (next_msg_num parent.children))
      ≡ topic ++ b'/' ∷ numbered (codes "msg") (next_msg_num parent.children)
    → lookup topic cache.nodes ≡ some parent
    → All IsMessage parent.children
    → seqname cache znode
      ≡ ok (record znode { path = message_path topic (next_msg_num parent.children) })
unfolding seqname next_msg_num find_max_message_number
message_path-seqname cache znode parent topic at folder name joined there messages =
    let number = max_message_number-max_sequence parent.children 0 messages in
    let folder' : dir znode.path ≡ topic = ap dir at ∙ folder in
    let name' : base znode.path ≡ codes "msg" = ap base at ∙ name in
    let path : join topic
          (numbered (codes "msg") (max_sequence (codes "msg") parent.children 0 + 1))
        ≡ message_path topic (next_msg_num parent.children) =
      ap (λ n. join topic (numbered (codes "msg") (n + 1))) (sym number)
      ∙ joined
      ∙ sym (append_assoc topic (codes "/msg_") (itoa (next_msg_num parent.children))) in
    rw (folder', name', there) (ap (λ p. ok (record znode { path = p })) path)
