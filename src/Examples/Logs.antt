-- ===== src/Examples/Logs.antt =====
-- The log of proposals at a concrete history.
use dsc_zookeeper.Prelude.{ℕ, ◌<◌, ◌^◌, List, [], ◌∷◌, ◌≡◌, refl, arith, All}
use dsc_zookeeper.Proposals.Types.{Proposal, state_change}
use dsc_zookeeper.Proposals.Log.{restore_zxid_from_disk}
use dsc_zookeeper.Proposals.Log.Entry.{IsSavable}
use dsc_zookeeper.Proposals.Log.History.{saved}
use dsc_zookeeper.Proposals.Log.Restore.{
  restore_zxid_from_disk-saved, restore_zxid_from_disk-epoch_zero,
}

abbrev pub change : ℕ → ℕ → Proposal
change epoch count = record {
  prop_type = state_change;
  epoch_num = epoch;
  count_num = count;
  content = 7 ∷ 8 ∷ [];
}

pub savable : (epoch count : ℕ) → epoch < 2 ^ 16 → count < 2 ^ 16 → IsSavable (change epoch count)
savable epoch count he hc = record {
  epoch = he;
  count = hc;
  some_content = omega arith;
  fits = omega arith;
}

-- Newest first.
abbrev history : List Proposal
history = change 2 1 ∷ change 1 6 ∷ change 1 5 ∷ change 1 4 ∷ []

history-IsSavable : All IsSavable history
history-IsSavable = (
  savable 2 1 (omega arith) (omega arith),
  (
    savable 1 6 (omega arith) (omega arith),
    (savable 1 5 (omega arith) (omega arith), (savable 1 4 (omega arith) (omega arith), tt)),
  ),
)

restore_zxid_from_disk-saved_example : restore_zxid_from_disk (saved history) ≡ (2, 1)
restore_zxid_from_disk-saved_example =
    restore_zxid_from_disk-saved (change 2 1) (change 1 6 ∷ change 1 5 ∷ change 1 4 ∷ [])
      history-IsSavable (omega arith) (omega arith, (omega arith, (omega arith, tt)))

restore_zxid_from_disk-epoch_zero_example :
    restore_zxid_from_disk (saved (change 0 3 ∷ change 0 2 ∷ [])) ≡ (0, 0)
restore_zxid_from_disk-epoch_zero_example =
    restore_zxid_from_disk-epoch_zero (change 0 3 ∷ change 0 2 ∷ []) (refl, (refl, tt))
