-- ===== src/Proposals/CatchUp.antt =====
-- The log of a node of proposals.go and proposalSaving.go as a history of writes and of opened
-- epochs, and what a follower that stopped at some zxid lacks of it.
pub mod Runs
pub mod Newer
pub mod Sent
pub mod Received
pub mod Bounds
pub mod Steps
pub mod Done
pub mod Agreed
pub mod Stuck
pub mod Kept
use dsc_zookeeper.Prelude.{
  ℕ, suc, ◌+◌, ◌<◌, ◌≡◌, nat_eq, List, [], ◌∷◌, Bool, true, false, ◌&&◌, ◌||◌, ◌==◌, ltb,
  if◌then◌else◌,
}
use dsc_zookeeper.Proposals.Types.{Proposal, ProposalType, state_change, new_leader}

-- A history of saves, newest first, whose latest zxid is the epoch and the count: a state change
-- has the next count, and a NewLeader opens the next epoch, after some write, or opens the epoch
-- again in which nothing was written yet.
pub data IsLog : ℕ → ℕ → List Proposal → Type 0 where
  empty : IsLog 0 0 []
  changed :
      (e c : ℕ) (p : Proposal) (ps : List Proposal)
      → p.prop_type ≡ state_change
      → p.epoch_num ≡ e
      → p.count_num ≡ suc c
      → IsLog e c ps
      → IsLog e (suc c) (p ∷ ps)
  opened :
      (e c : ℕ) (p : Proposal) (ps : List Proposal)
      → p.prop_type ≡ new_leader
      → p.epoch_num ≡ suc e
      → p.count_num ≡ 0
      → 0 < e + c
      → IsLog e c ps
      → IsLog (suc e) 0 (p ∷ ps)
  reopened :
      (e : ℕ) (p : Proposal) (ps : List Proposal)
      → p.prop_type ≡ new_leader
      → p.epoch_num ≡ suc e
      → p.count_num ≡ 0
      → IsLog (suc e) 0 ps
      → IsLog (suc e) 0 (p ∷ ps)

abbrev pub is_change : ProposalType → Bool
is_change state_change = true
is_change _ = false

-- The state changes of a history above the zxid of an epoch and a count.
abbrev pub newer : ℕ → ℕ → List Proposal → List Proposal
newer e c [] = []
newer e c (p ∷ ps) =
    let rest = newer e c ps in
    if is_change p.prop_type && (ltb e p.epoch_num || (e == p.epoch_num && ltb c p.count_num))
    then p ∷ rest
    else rest

-- The state changes of an epoch above a count.
abbrev pub above : ℕ → List Proposal → List Proposal
above c [] = []
above c (p ∷ ps) =
    let rest = above c ps in if is_change p.prop_type && ltb c p.count_num then p ∷ rest else rest
