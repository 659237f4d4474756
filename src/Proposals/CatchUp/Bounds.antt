-- ===== src/Proposals/CatchUp/Bounds.antt =====
-- The bounds of what a log of proposalSaving.go has above a zxid.
use dsc_zookeeper.Prelude.{
  ℕ, ◌+◌, ◌^◌, ◌<◌, sym, ◌*◌, subst, Bool-cases, inl, inr, nat_eq, str_eq, List, All, arith,
}
use dsc_zookeeper.Proposals.Types.{Proposal}
use dsc_zookeeper.Proposals.Words.{get_zxid_as_int-eq}
use dsc_zookeeper.Proposals.Log.Entry.{IsSavable}
use dsc_zookeeper.Proposals.CatchUp.{IsLog, empty, changed, opened, reopened, newer}
use dsc_zookeeper.Proposals.CatchUp.Newer.{newer-opening, newer-over, newer-under, is_above}
use dsc_zookeeper.Proposals.CatchUp.Received.{IsEarlier}

IsLog-fits : (e c : ℕ) (ps : List Proposal) → IsLog e c ps → All IsSavable ps → c < 2 ^ 16
IsLog-fits e c ps empty ok = omega arith
IsLog-fits e c ps (changed e' c' p qs t i j l) (hp, ok) = let fits = hp.count in omega arith
IsLog-fits e c ps (opened e' c' p qs t i j pos_zxid l) ok = omega arith
IsLog-fits e c ps (reopened e' p qs t i j l) ok = omega arith

-- What a log has above a zxid is all below a zxid that is above the log's latest one.
pub newer-IsEarlier :
    (end e c k m : ℕ) (ps : List Proposal)
    → IsLog e c ps
    → All IsSavable ps
    → e < 2 ^ 16
    → e * 65536 + c < end
    → All (IsEarlier end) (newer k m ps)
newer-IsEarlier end e c k m ps empty ok he h = tt
newer-IsEarlier end e c k m ps (changed e' c' p qs t i j l) (hp, ok) he h =
    let rest = newer-IsEarlier end e' c' k m qs l ok he (omega arith) in
    let zxid = get_zxid_as_int-eq p.epoch_num p.count_num hp.epoch hp.count in
    let mine : IsEarlier end p = record { is_change = t; below = omega arith } in
    elim (Bool-cases (is_above k m p qs)) [
      | inl over ↦ subst (All (IsEarlier end)) (sym (newer-over k m p qs t over)) (mine, rest)
      | inr under ↦ subst (All (IsEarlier end)) (sym (newer-under k m p qs t under)) rest
    ]
newer-IsEarlier end e c k m ps (opened e' c' p qs t i j pos_zxid l) (hp, ok) he h =
    let fits = IsLog-fits e' c' qs l ok in
    subst (All (IsEarlier end)) (sym (newer-opening k m p qs t))
      (newer-IsEarlier end e' c' k m qs l ok (omega arith) (omega arith))
newer-IsEarlier end e c k m ps (reopened e' p qs t i j l) (hp, ok) he h =
    subst (All (IsEarlier end)) (sym (newer-opening k m p qs t))
      (newer-IsEarlier end e 0 k m qs l ok he h)
