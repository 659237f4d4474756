-- ===== src/Proposals/Log.antt =====
-- proposalSaving.go: the proposals on disk, one append-only file for each epoch. `Files` is the
-- folder proposalsLog, by file name, in the order of os.ReadDir; that the operating system opens
-- and writes the files that the program names is taken for granted.
pub mod Entry
pub mod History
pub mod Restore
use dsc_zookeeper.Prelude.{
  ℕ, zero, suc, ◌+◌, ◌-◌, ◌*◌, ◌/◌, ◌%◌, ◌^◌, Str, Bytes, List, [], ◌∷◌, ◌++◌, Option, none, some,
  ◌>>=◌, ltb, leb, ◌==◌, nat_eq, str_eq, if◌then◌else◌, lookup, insert, length, take, drop,
}
use mathlib.Core.List.{reverse, foldl}
use dsc_zookeeper.Prelude.Int.{ℤ, pos, negsuc}
use dsc_zookeeper.Prelude.Decimal.{itoa, atoi}
use dsc_zookeeper.Proposals.Types.{Proposal, ProposalType, commit, state_change, new_leader}
use dsc_zookeeper.Proposals.Words.{bytes_to_uint32, uint32_to_bytes}

abbrev pub Files : Type 0
Files = List (Str × Bytes)

-- The uint8 of a type.
abbrev pub type_code : ProposalType → ℕ
type_code commit = 0
type_code state_change = 1
type_code new_leader = 2
type_code (ProposalType.unknown k) = k + 3

abbrev pub type_of_code : ℕ → ProposalType
type_of_code zero = commit
type_of_code (suc zero) = state_change
type_of_code (suc (suc zero)) = new_leader
type_of_code (suc (suc (suc k))) = ProposalType.unknown k

-- `writeProposal`: the packed fields, the content, and the length of both behind them.
unfoldable pub write_proposal : Proposal → Bytes
write_proposal p =
    type_code p.prop_type
    ∷ p.epoch_num % 256
    ∷ p.epoch_num / 256
    ∷ p.count_num % 256
    ∷ p.count_num / 256
    ∷ (p.content ++ uint32_to_bytes ((5 + length p.content) % 2 ^ 32))

unfoldable pub proposal_to_bytes : Proposal → Bytes
unfolding write_proposal
proposal_to_bytes p = write_proposal p

-- `buf.Read(p.Content)` reports the end of the input when no content is left.
content_of : ProposalType → ℕ → ℕ → Bytes → Option Proposal
content_of t epoch count [] = none
content_of t epoch count (c ∷ cs) =
    some (record { prop_type = t; epoch_num = epoch; count_num = count; content = c ∷ cs })

-- `none` is an error: fewer than five bytes of fields, or no content.
unfoldable pub bytes_to_proposal : Bytes → Option Proposal
unfolding content_of
bytes_to_proposal (t ∷ e0 ∷ e1 ∷ c0 ∷ c1 ∷ content) =
    content_of (type_of_code t) (e0 + e1 * 256) (c0 + c1 * 256) content
bytes_to_proposal _ = none

abbrev contents_or_empty : Option Bytes → Bytes
contents_or_empty none = []
contents_or_empty (some b) = b

-- The file of the epoch is created if it is missing, and appended to.
unfoldable pub save_proposal : Files → Proposal → Files
unfolding proposal_to_bytes
save_proposal files prop =
    let name = itoa prop.epoch_num in
    insert name (contents_or_empty (lookup name files) ++ proposal_to_bytes prop) files

-- file.ReadAt of `len` bytes: `none` is the end of the file before them.
unfoldable pub read_at : Bytes → ℕ → ℕ → Option Bytes
read_at file len at = if ltb (length file) (at + len) then none else some (take len (drop at file))

-- One round of the loop of `ReadProposals`, at the file position `at`: the proposal that ends
-- there, the offset that the second seek returns, and the new file position. The second seek is
-- not checked: when it would go before the start it returns 0 and stays.
unfoldable pub read_back : Bytes → ℕ → Option (Proposal × ℕ × ℕ)
read_back file at = if ltb at 4 then none else do
  len_temp ← read_at file 4 (at - 4)
  len ← bytes_to_uint32 len_temp
  let cur_pos = if ltb (at - 4) len then 0 else at - 4 - len
  let position = if ltb (at - 4) len then at - 4 else at - 4 - len
  prop_temp ← read_at file len cur_pos
  prop ← bytes_to_proposal prop_temp
  some (prop, cur_pos, position)

read_loop : ℕ → Bytes → ℕ → List Proposal → Option (List Proposal)
read_loop zero file at props = some props
read_loop (suc i) file at props = elim (read_back file at) [
  | none ↦ none
  | some (prop, cur_pos, position) ↦
      if cur_pos == 0
      then some (props ++ prop ∷ [])
      else read_loop i file position (props ++ prop ∷ [])
]

-- A count that is not positive reads nothing; it is a difference of ints, which ℕ cuts off at 0.
unfoldable pub read_proposals : Files → ℕ → ℕ → Option (List Proposal)
unfolding read_loop
read_proposals files epoch read_count = if read_count == 0 then some [] else do
  file ← lookup (itoa epoch) files
  props ← read_loop read_count file (length file) []
  some (reverse props)

-- `props[0]` of one proposal that was read.
abbrev first_count : List Proposal → Option ℕ
first_count [] = none
first_count (p ∷ ps) = some p.count_num

unfoldable pub get_epoch_highest_count : Files → ℕ → Option ℕ
get_epoch_highest_count files epoch = do props ← read_proposals files epoch 1; first_count props

-- uint16(n) of an int
abbrev to_uint16 : ℤ → ℕ
to_uint16 (pos n) = n % 2 ^ 16
to_uint16 (negsuc n) = 2 ^ 16 - 1 - n % 2 ^ 16

abbrev count_or_zero : Option ℕ → ℕ
count_or_zero none = 0
count_or_zero (some n) = n

-- One file name of the loop, with the epoch and the count so far.
unfoldable pub restore_step : Files → ℕ × ℕ → Str × Bytes → ℕ × ℕ
restore_step files (epoch, count) (name, contents) = elim (atoi name) [
  | none ↦ (epoch, count)
  | some n ↦
      if ltb epoch (to_uint16 n)
      then (to_uint16 n, count_or_zero (get_epoch_highest_count files (to_uint16 n)))
      else (epoch, count)
]

unfoldable pub restore_zxid_from_disk : Files → ℕ × ℕ
restore_zxid_from_disk files = foldl (restore_step files) (0, 0) files
