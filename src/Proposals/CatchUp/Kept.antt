-- ===== src/Proposals/CatchUp/Kept.antt =====
-- The log of a coordinator of proposals.go: what it sends to be saved, after what a restart found,
-- is a log that ends at its zxid counter.
pub mod Quiet
pub mod Writes
pub mod Opens
pub mod Messages
pub mod Answers
use mathlib.Core.List.{reverse, reverse-append}
use dsc_zookeeper.Prelude.{
  IsExact, ℕ, suc, ◌+◌, ◌%◌, ◌^◌, ◌<◌, ◌≡◌, ◌≢◌, ◌⊎◌, refl, sym, ap, subst, ◌∙◌, nat_eq, str_eq,
  Str, List, [], ◌∷◌, ◌++◌, Bool, true, false, ◌==◌, ◌&&◌, ◌||◌, Option, some, none, Bool-cases,
  inl, inr, some_inj, none_ne_some, arith, codes,
}
use dsc_zookeeper.Proposals.Types.{Proposal, new_leader}
use dsc_zookeeper.Proposals.State.{Env, Zab}
use dsc_zookeeper.Proposals.CatchUp.{IsLog}

-- The history of saves of a node that found `ps` at its start, newest first.
abbrev pub log_of : {C : Type 0} → List Proposal → Zab C → List Proposal
log_of ps s = reverse s.new_proposal_chan ++ ps

-- While a new epoch waits for its followers, its proposal is the current one, and requests wait.
pub record IsOpening {C : Type 0} (s : Zab C) : Type 0 where
  pub opens : s.current_sync.prop_type ≡ new_leader
  pub epoch : s.current_sync.epoch_num ≡ s.zxid_counter.epoch_num
  pub count : s.current_sync.count_num ≡ 0
  pub later : 0 < s.zxid_counter.epoch_num
  pub unwritten : s.zxid_counter.count_num ≡ 0
  pub waits : s.requests_processing_enabled ≡ false

pub record IsKept {C : Type 0} (ps : List Proposal) (s : Zab C) : Type 0 where
  pub logged : IsLog s.zxid_counter.epoch_num s.zxid_counter.count_num (log_of ps s)
  pub opening : s.syncing ≡ true → IsOpening s
