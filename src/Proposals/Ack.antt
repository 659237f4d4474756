-- ===== src/Proposals/Ack.antt =====
-- ackCounter.go: the acknowledgements of each proposal that the coordinator has sent out.
pub mod Quorum
use dsc_zookeeper.Prelude.{
  ℕ, suc, ◌+◌, Bool, true, false, List, Option, none, some, ltb, lookup, insert, delete, nat_eq,
  if◌then◌else◌,
}

pub record AckCounter : Type 0 where
  pub ack_tracker : List (ℕ × ℕ)

-- The result is the new count.
unfoldable pub increment : AckCounter → ℕ → AckCounter × ℕ
increment c zxid = elim (lookup zxid c.ack_tracker) [
  | none ↦ (c, 0)
  | some count ↦ (record c { ack_tracker = insert zxid (count + 1) c.ack_tracker }, count + 1)
]

unfoldable pub remove : AckCounter → ℕ → AckCounter
remove c zxid = record c { ack_tracker = delete zxid c.ack_tracker }

-- The result says that the count has passed `max_count`.
unfoldable pub increment_or_remove : AckCounter → ℕ → ℕ → AckCounter × Bool
increment_or_remove c zxid max_count = elim (lookup zxid c.ack_tracker) [
  | none ↦ (c, false)
  | some count ↦
      if ltb max_count (count + 1)
      then (record c { ack_tracker = insert zxid 0 c.ack_tracker }, true)
      else (record c { ack_tracker = insert zxid (count + 1) c.ack_tracker }, false)
]

unfoldable pub store_new : AckCounter → ℕ → AckCounter
store_new c zxid = record c { ack_tracker = insert zxid 1 c.ack_tracker }
