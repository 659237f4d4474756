-- ===== src/Proposals/SyncTrack.antt =====
-- syncTracker.go: the catch-up of a follower, and syncCounter.go: the coordinator's count of the
-- followers that have not caught up.
use dsc_zookeeper.Prelude.{ℕ, Bool, true, false}
use dsc_zookeeper.Prelude.Int.{ℤ, pos, pred_ℤ, suc_ℤ}
use dsc_zookeeper.Proposals.Types.{ZabMessage}

pub record SyncTracker : Type 0 where
  pub active : Bool
  pub zxid_cap : ℕ
  pub prop : ZabMessage

unfoldable pub new_sync : SyncTracker → ℕ → ZabMessage → SyncTracker
new_sync s zxid p = record s { active = true; zxid_cap = zxid; prop = p }

unfoldable pub deactivate : SyncTracker → SyncTracker
deactivate s = record s { active = false }

unfoldable pub read_vals : SyncTracker → Bool × ℕ
read_vals s = (s.active, s.zxid_cap)

unfoldable pub get_stored_proposal : SyncTracker → ZabMessage
get_stored_proposal s = s.prop

pub record SafeCounter : Type 0 where
  pub count : ℤ

unfoldable pub increment : SafeCounter → SafeCounter
increment c = record c { count = suc_ℤ c.count }

unfoldable pub decrement : SafeCounter → SafeCounter
decrement c = record c { count = pred_ℤ c.count }

unfoldable pub get_value : SafeCounter → ℤ
get_value c = c.count

unfoldable pub reset : SafeCounter → SafeCounter
reset c = record c { count = pos 0 }

unfoldable pub set : SafeCounter → ℤ → SafeCounter
set c val = record c { count = val }
