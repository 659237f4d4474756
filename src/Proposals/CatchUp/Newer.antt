-- ===== src/Proposals/CatchUp/Newer.antt =====
-- What a log of proposalSaving.go has above a zxid, epoch by epoch.
use dsc_zookeeper.Prelude.{
  ℕ, suc, ◌<◌, ◌≡◌, refl, ap, ◌∙◌, subst, nat_eq, List, [], ◌∷◌, ◌++◌, Bool, true, false, ◌==◌,
  ◌&&◌, ◌||◌, ltb, if◌then◌else◌, Bool-cases, inl, inr, arith,
}
use dsc_zookeeper.Proposals.Types.{Proposal, state_change, new_leader}
use dsc_zookeeper.Proposals.Log.History.{of_epoch}
use dsc_zookeeper.Proposals.CatchUp.{
  IsLog, empty, changed, opened, reopened, is_change, newer, above,
}
use dsc_zookeeper.Proposals.CatchUp.Runs.{
  above-change, above-opening, of_epoch-same, of_epoch-other,
}

module _ (k m : ℕ) (p : Proposal) (ps : List Proposal) where
  abbrev pub is_above : Bool
  is_above = ltb k p.epoch_num || (k == p.epoch_num && ltb m p.count_num)

  newer-change :
      p.prop_type ≡ state_change
      → newer k m (p ∷ ps) ≡ (if is_above then p ∷ newer k m ps else newer k m ps)
  newer-change t = ap (λ x. if is_change x && is_above then p ∷ newer k m ps else newer k m ps) t

  pub newer-over :
      p.prop_type ≡ state_change → is_above ≡ true → newer k m (p ∷ ps) ≡ p ∷ newer k m ps
  newer-over t over = newer-change t ∙ ap (λ b. if b then p ∷ newer k m ps else newer k m ps) over

  pub newer-under :
      p.prop_type ≡ state_change → is_above ≡ false → newer k m (p ∷ ps) ≡ newer k m ps
  newer-under t under =
      newer-change t ∙ ap (λ b. if b then p ∷ newer k m ps else newer k m ps) under

  pub newer-opening : p.prop_type ≡ new_leader → newer k m (p ∷ ps) ≡ newer k m ps
  newer-opening t = ap (λ x. if is_change x && is_above then p ∷ newer k m ps else newer k m ps) t

  newer-epoch : p.prop_type ≡ state_change → k < p.epoch_num → newer k m (p ∷ ps) ≡ p ∷ newer k m ps
  newer-epoch t h = newer-change t ∙ ground arith

  newer-before : p.prop_type ≡ state_change → p.epoch_num < k → newer k m (p ∷ ps) ≡ newer k m ps
  newer-before t h = newer-change t ∙ ground (arith, (nat_eq.beq_iff k p.epoch_num).0)

  newer-same :
      p.prop_type ≡ state_change
      → k ≡ p.epoch_num
      → newer k m (p ∷ ps) ≡ (if ltb m p.count_num then p ∷ newer k m ps else newer k m ps)
  newer-same t h = newer-change t ∙ ground (arith, (nat_eq.beq_iff k p.epoch_num).1)

pub newer-later : (e c k m : ℕ) (ps : List Proposal) → IsLog e c ps → e < k → newer k m ps ≡ []
newer-later e c k m ps empty h = refl
newer-later e c k m ps (changed e' c' p qs t i j l) h =
    newer-before k m p qs t (omega arith) ∙ newer-later e c' k m qs l h
newer-later e c k m ps (opened e' c' p qs t i j pos_zxid l) h =
    newer-opening k m p qs t ∙ newer-later e' c' k m qs l (omega arith)
newer-later e c k m ps (reopened e' p qs t i j l) h =
    newer-opening k m p qs t ∙ newer-later (suc e') 0 k m qs l h

above-of_epoch_opening :
    (k m : ℕ) (p : Proposal) (ps : List Proposal)
    → p.prop_type ≡ new_leader
    → above m (of_epoch k (p ∷ ps)) ≡ above m (of_epoch k ps)
above-of_epoch_opening k m p ps t = elim (Bool-cases (p.epoch_num == k)) [
  | inl same ↦ rw same (above-opening m p (of_epoch k ps) t)
  | inr other ↦ rw other refl
]

split-opening :
    (k m : ℕ) (p : Proposal) (ps : List Proposal)
    → p.prop_type ≡ new_leader
    → newer k m ps ≡ newer (suc k) 0 ps ++ above m (of_epoch k ps)
    → newer k m (p ∷ ps) ≡ newer (suc k) 0 (p ∷ ps) ++ above m (of_epoch k (p ∷ ps))
split-opening k m p ps t h =
    let a = newer-opening k m p ps t in
    let b = newer-opening (suc k) 0 p ps t in let c = above-of_epoch_opening k m p ps t in cc

split-below :
    (k m : ℕ) (p : Proposal) (ps : List Proposal)
    → p.prop_type ≡ state_change
    → 0 < p.count_num
    → k < p.epoch_num
    → newer k m ps ≡ newer (suc k) 0 ps ++ above m (of_epoch k ps)
    → newer k m (p ∷ ps) ≡ newer (suc k) 0 (p ∷ ps) ++ above m (of_epoch k (p ∷ ps))
split-below k m p ps t pos_count h ih =
    let a = newer-epoch k m p ps t h in
    let b : newer (suc k) 0 (p ∷ ps) ≡ p ∷ newer (suc k) 0 ps =
      newer-change (suc k) 0 p ps t ∙ ground (arith, (nat_eq.beq_iff (suc k) p.epoch_num).1) in
    let c = of_epoch-other k p ps (λ x. omega arith) in rw (a, b, c) (ap (◌∷◌ p) ih)

split-same :
    (m : ℕ) (p : Proposal) (ps : List Proposal)
    → p.prop_type ≡ state_change
    → newer (suc p.epoch_num) 0 ps ≡ []
    → newer p.epoch_num m ps ≡ above m (of_epoch p.epoch_num ps)
    → newer p.epoch_num m (p ∷ ps)
      ≡ newer (suc p.epoch_num) 0 (p ∷ ps) ++ above m (of_epoch p.epoch_num (p ∷ ps))
split-same m p ps t none ih =
    let k = p.epoch_num in
    let a = newer-same k m p ps t refl in
    let b : newer (suc k) 0 (p ∷ ps) ≡ [] = newer-before (suc k) 0 p ps t (omega arith) ∙ none in
    let c = of_epoch-same k p ps refl in
    let d = above-change m p (of_epoch k ps) t in rw (a, b, c, d, ih) refl

split-above :
    (k m : ℕ) (p : Proposal) (ps : List Proposal)
    → p.prop_type ≡ state_change
    → p.epoch_num < k
    → newer k m ps ≡ newer (suc k) 0 ps ++ above m (of_epoch k ps)
    → newer k m (p ∷ ps) ≡ newer (suc k) 0 (p ∷ ps) ++ above m (of_epoch k (p ∷ ps))
split-above k m p ps t h ih =
    let a = newer-before k m p ps t h in
    let b = newer-before (suc k) 0 p ps t (omega arith) in
    let c = of_epoch-other k p ps (λ x. omega arith) in rw (a, b, c) ih

-- Above a zxid of epoch `k` is what is above its count in the epoch, and below that, written
-- newest first, everything from the next epoch on.
pub newer-split :
    (e c k m : ℕ) (ps : List Proposal)
    → IsLog e c ps
    → newer k m ps ≡ newer (suc k) 0 ps ++ above m (of_epoch k ps)
newer-split e c k m ps empty = refl
newer-split e c k m ps (changed e' c' p qs t i j l) =
    let ih = newer-split e' c' k m qs l in
    elim (Bool-cases (ltb k p.epoch_num)) [
      | inl below ↦ split-below k m p qs t (omega arith) (ground arith) ih
      | inr not_below ↦ elim (Bool-cases (ltb p.epoch_num k)) [
        | inl beyond ↦ split-above k m p qs t (ground arith) ih
        | inr not_beyond ↦
            let same : p.epoch_num ≡ k = ground arith in
            let none = newer-later e' c' (suc k) 0 qs l (omega arith) in
            let own : newer k m qs ≡ above m (of_epoch k qs) = rw none at ih in
            subst (λ x. newer x m ps ≡ newer (suc x) 0 ps ++ above m (of_epoch x ps)) same
              (split-same m p qs t (rw (← same) at none) (rw (← same) at own))
      ]
    ]
newer-split e c k m ps (opened e' c' p qs t i j pos_zxid l) =
    split-opening k m p qs t (newer-split e' c' k m qs l)
newer-split e c k m ps (reopened e' p qs t i j l) =
    split-opening k m p qs t (newer-split (suc e') 0 k m qs l)
