-- ===== src/Proposals/CatchUp/Kept/Writes.antt =====
-- A write request of proposals.go, and the log of a coordinator.
use mathlib.Core.List.{reverse, reverse-append}
use dsc_zookeeper.Prelude.{
  ℕ, suc, ◌+◌, ◌%◌, ◌^◌, ◌<◌, ◌≡◌, refl, sym, ap, subst, nat_eq, str_eq, Str, List, [], ◌∷◌, ◌++◌,
  Bool, true, false, ◌==◌, Bool-cases, inl, inr, arith,
}
use dsc_zookeeper.Proposals.Types.{Proposal, Request}
use dsc_zookeeper.Proposals.Zxid.{inc_count}
use dsc_zookeeper.Proposals.State.{Env, Zab}
use dsc_zookeeper.Proposals.Leader.{process_write_request}
use dsc_zookeeper.Proposals.Requests.{process_write_request-accepted, proposal_for}
use dsc_zookeeper.Proposals.CatchUp.{IsLog, changed}
use dsc_zookeeper.Proposals.CatchUp.Kept.{IsKept, log_of}
use dsc_zookeeper.Proposals.CatchUp.Kept.Quiet.{
  alike-IsQuiet, IsQuiet-trans, quiet-IsKept, deny-IsQuiet,
}

-- Another save is the newest one.
pub log_of-save :
    (chan ps : List Proposal) (p : Proposal)
    → reverse (chan ++ p ∷ []) ++ ps ≡ p ∷ (reverse chan ++ ps)
log_of-save chan ps p = ap (λ (l : List Proposal). l ++ ps) (reverse-append chan (p ∷ []))

module _ {C : Type 0} (env : Env C) (named : (env.name == []) ≡ false) where
  module _ (ps : List Proposal) (r : Request) (remote_id : Str) (s : Zab C) where
    accepted-IsKept :
        (c : C) (updated : List ℕ)
        → env.request_checker s.checker r.content ≡ (c, updated, true)
        → s.syncing ≡ false
        → s.zxid_counter.count_num + 1 < 2 ^ 16
        → IsKept ps s
        → IsKept ps (process_write_request env r remote_id s)
    unfolding inc_count
    accepted-IsKept c updated h on room k =
        let p = proposal_for env r remote_id s c updated in
        let next : (s.zxid_counter.count_num + 1) % 2 ^ 16 ≡ suc s.zxid_counter.count_num =
          omega arith in
        rw (process_write_request-accepted env r remote_id s c updated h named) (record {
          logged =
              subst (IsLog s.zxid_counter.epoch_num ((s.zxid_counter.count_num + 1) % 2 ^ 16))
                (sym (log_of-save s.new_proposal_chan ps p))
                (subst (λ n. IsLog s.zxid_counter.epoch_num n (p ∷ log_of ps s)) (sym next)
                  (changed s.zxid_counter.epoch_num s.zxid_counter.count_num p (log_of ps s) refl
                    refl next k.logged));
          opening = (λ e. absurd cc);
        })

    pub write-IsKept :
        s.syncing ≡ false
        → s.zxid_counter.count_num + 1 < 2 ^ 16
        → IsKept ps s
        → IsKept ps (process_write_request env r remote_id s)
    unfolding process_write_request
    write-IsKept on room k =
        let result = env.request_checker s.checker r.content in
        elim (Bool-cases result.2) [
          | inl passed ↦
              accepted-IsKept result.0 result.1 (ap (λ (b : Bool). (result.0, result.1, b)) passed)
                on room k
          | inr denied ↦
              let s1 = record s { checker = result.0 } in
              rw denied (
                quiet-IsKept ps s _
                  (IsQuiet-trans s s1 _ (alike-IsQuiet s s1 refl refl refl refl refl)
                    (deny-IsQuiet env r result.1 remote_id s1))
                  k)
        ]
