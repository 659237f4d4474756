-- ===== src/Proposals/Zxid.antt =====
-- zxidCounter.go: the label of the latest proposal. Each method is one locked step.
use dsc_zookeeper.Prelude.{ℕ, suc, ◌+◌, ◌%◌, ◌^◌, ◌<◌, ◌≡◌, arith}
use dsc_zookeeper.Proposals.Words.{get_zxid_as_int, get_zxid_as_int-eq}

pub record ZxidCounter : Type 0 where
  pub epoch_num : ℕ  -- uint16
  pub count_num : ℕ  -- uint16

unfoldable pub check : ZxidCounter → ℕ × ℕ
check cnt = (cnt.epoch_num, cnt.count_num)

unfoldable pub get_latest_zxid : ZxidCounter → ℕ
unfolding check
get_latest_zxid cnt = let (epoch, count) = check cnt in get_zxid_as_int epoch count

unfoldable pub set_vals : ZxidCounter → ℕ → ℕ → ZxidCounter
set_vals cnt epoch count = record cnt { epoch_num = epoch; count_num = count }

-- The new counter; the two results of the call are its fields.
unfoldable pub inc_count : ZxidCounter → ZxidCounter
inc_count cnt = record cnt { count_num = (cnt.count_num + 1) % 2 ^ 16 }

unfoldable pub inc_epoch : ZxidCounter → ZxidCounter
inc_epoch cnt = record cnt { count_num = 0; epoch_num = (cnt.epoch_num + 1) % 2 ^ 16 }

pub record IsWord (cnt : ZxidCounter) : Type 0 where
  pub epoch : cnt.epoch_num < 2 ^ 16
  pub count : cnt.count_num < 2 ^ 16

pub inc_count-IsWord : (cnt : ZxidCounter) → IsWord cnt → IsWord (inc_count cnt)
unfolding inc_count
inc_count-IsWord cnt h = ground arith

pub inc_epoch-IsWord : (cnt : ZxidCounter) → IsWord cnt → IsWord (inc_epoch cnt)
unfolding inc_epoch
inc_epoch-IsWord cnt h = ground arith

-- For a counter of 16-bit fields, short of the wrap of its count, the zxid after an increment of
-- the count is the next number.
pub inc_count-zxid :
    (cnt : ZxidCounter)
    → IsWord cnt
    → suc cnt.count_num < 2 ^ 16
    → get_latest_zxid (inc_count cnt) ≡ get_latest_zxid cnt + 1
unfolding get_latest_zxid inc_count
inc_count-zxid cnt h room = omega (
  arith,
  get_zxid_as_int-eq cnt.epoch_num cnt.count_num h.epoch h.count,
  get_zxid_as_int-eq cnt.epoch_num ((cnt.count_num + 1) % 2 ^ 16) h.epoch (omega arith),
)

-- For a counter of 16-bit fields, short of the wrap of its epoch, a new epoch begins with a zxid
-- above that of every 16-bit count of the epoch before it.
pub inc_epoch-zxid :
    (cnt : ZxidCounter) (count : ℕ)
    → IsWord cnt
    → suc cnt.epoch_num < 2 ^ 16
    → count < 2 ^ 16
    → get_latest_zxid (set_vals cnt cnt.epoch_num count) < get_latest_zxid (inc_epoch cnt)
unfolding get_latest_zxid inc_epoch set_vals
inc_epoch-zxid cnt count h room fits = omega (
  arith,
  get_zxid_as_int-eq cnt.epoch_num count h.epoch fits,
  get_zxid_as_int-eq ((cnt.epoch_num + 1) % 2 ^ 16) 0 (omega arith) (omega arith),
)
