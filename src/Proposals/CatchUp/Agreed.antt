-- ===== src/Proposals/CatchUp/Agreed.antt =====
-- The commits of a follower of proposals.go after a catch-up, against all writes of the log.
use mathlib.Core.List.{reverse, reverse-append, map-append}
use dsc_zookeeper.Prelude.{
  IsExact, ℕ, suc, ◌<◌, ◌≤◌, ◌≡◌, ◌⊎◌, refl, sym, ap, subst, ◌∙◌, inl, inr, nat_eq, str_eq, Str,
  List, [], ◌∷◌, ◌++◌, map, true, false, not, ◌==◌, ◌&&◌, ◌||◌, ltb, some, if◌then◌else◌,
  Bool-cases, All, arith, codes,
}
use dsc_zookeeper.Proposals.Types.{Proposal, Request, state_change, new_leader}
use dsc_zookeeper.Proposals.Words.{get_zxid_as_int, uint32_to_bytes}
use dsc_zookeeper.Proposals.Zxid.{IsWord, get_latest_zxid}
use dsc_zookeeper.Proposals.State.{Env, Zab}
use dsc_zookeeper.Proposals.Log.Entry.{IsSavable}
use dsc_zookeeper.Proposals.Log.History.{of_epoch}
use dsc_zookeeper.Proposals.Order.{request_of, history}
use dsc_zookeeper.Proposals.CatchUp.{IsLog, empty, changed, opened, reopened, is_change, newer}
use dsc_zookeeper.Proposals.CatchUp.Runs.{above-none, of_epoch-IsRun}
use dsc_zookeeper.Proposals.CatchUp.Newer.{
  newer-opening, newer-over, newer-under, newer-split, newer-later, is_above,
}
use dsc_zookeeper.Proposals.CatchUp.Received.{receive_all}
use dsc_zookeeper.Proposals.CatchUp.Steps.{behind}
use dsc_zookeeper.Proposals.CatchUp.Done.{caught-up}

-- The state changes of a history.
abbrev pub writes : List Proposal → List Proposal
writes [] = []
writes (p ∷ ps) = let rest = writes ps in if is_change p.prop_type then p ∷ rest else rest

-- Those up to the zxid of an epoch and a count.
abbrev pub older : ℕ → ℕ → List Proposal → List Proposal
older e c [] = []
older e c (p ∷ ps) =
    let rest = older e c ps in
    if is_change p.prop_type && not (ltb e p.epoch_num || (e == p.epoch_num && ltb c p.count_num))
    then p ∷ rest
    else rest

newer-none :
    (e c k m : ℕ) (ps : List Proposal)
    → IsLog e c ps
    → (e < k) ⊎ ((e ≡ k) × (c ≤ m))
    → newer k m ps ≡ []
newer-none e c k m ps l (inl h) = newer-later e c k m ps l h
newer-none e c k m ps l (inr (same, le)) =
    subst (λ x. newer x m ps ≡ []) same
      (let later = newer-later e c (suc e) 0 ps l (omega arith) in
        let own = above-none c m (of_epoch e ps) (of_epoch-IsRun e c ps l) le in
        newer-split e c e m ps l ∙ rw (later, own) refl)

module _ (k m : ℕ) (p : Proposal) (ps : List Proposal) where
  writes-change : p.prop_type ≡ state_change → writes (p ∷ ps) ≡ p ∷ writes ps
  writes-change t = ap (λ x. if is_change x then p ∷ writes ps else writes ps) t

  writes-opening : p.prop_type ≡ new_leader → writes (p ∷ ps) ≡ writes ps
  writes-opening t = ap (λ x. if is_change x then p ∷ writes ps else writes ps) t

  older-change :
      p.prop_type ≡ state_change
      → older k m (p ∷ ps) ≡ (if not (is_above k m p ps) then p ∷ older k m ps else older k m ps)
  older-change t =
      ap (λ x. if is_change x && not (is_above k m p ps) then p ∷ older k m ps else older k m ps) t

  older-opening : p.prop_type ≡ new_leader → older k m (p ∷ ps) ≡ older k m ps
  older-opening t =
      ap (λ x. if is_change x && not (is_above k m p ps) then p ∷ older k m ps else older k m ps) t

  over-split :
      p.prop_type ≡ state_change
      → is_above k m p ps ≡ true
      → writes ps ≡ newer k m ps ++ older k m ps
      → writes (p ∷ ps) ≡ newer k m (p ∷ ps) ++ older k m (p ∷ ps)
  over-split t over h =
      let a = writes-change t in
      let b = newer-over k m p ps t over in
      let c : older k m (p ∷ ps) ≡ older k m ps = older-change t ∙ rw over refl in
      rw (a, b, c) (ap (◌∷◌ p) h)

  under-split :
      p.prop_type ≡ state_change
      → is_above k m p ps ≡ false
      → newer k m ps ≡ []
      → writes ps ≡ newer k m ps ++ older k m ps
      → writes (p ∷ ps) ≡ newer k m (p ∷ ps) ++ older k m (p ∷ ps)
  under-split t under none h =
      let a = writes-change t in
      let b = newer-under k m p ps t under ∙ none in
      let c : older k m (p ∷ ps) ≡ p ∷ older k m ps = older-change t ∙ rw under refl in
      let d : writes ps ≡ older k m ps = rw none at h in rw (a, b, c) (ap (◌∷◌ p) d)

  opening-split :
      p.prop_type ≡ new_leader
      → writes ps ≡ newer k m ps ++ older k m ps
      → writes (p ∷ ps) ≡ newer k m (p ∷ ps) ++ older k m (p ∷ ps)
  opening-split t h =
      let a = writes-opening t in let b = newer-opening k m p ps t in let c = older-opening t in cc

at_most :
    {e c : ℕ} (k m : ℕ) (p : Proposal) (ps : List Proposal)
    → p.epoch_num ≡ e
    → p.count_num ≡ suc c
    → is_above k m p ps ≡ false
    → (e < k) ⊎ ((e ≡ k) × (c ≤ m))
at_most k m p ps i j under = elim (Bool-cases (ltb p.epoch_num k)) [
  | inl below ↦ inl (ground arith)
  | inr not_below ↦ inr (ground arith, ground (arith, (nat_eq.beq_iff k p.epoch_num).1))
]

-- In a log, the writes above a zxid are all newer than the others.
writes-split :
    (e c k m : ℕ) (ps : List Proposal) → IsLog e c ps → writes ps ≡ newer k m ps ++ older k m ps
writes-split e c k m ps empty = refl
writes-split e c k m ps (changed e' c' p qs t i j l) =
    let ih = writes-split e' c' k m qs l in
    elim (Bool-cases (is_above k m p qs)) [
      | inl over ↦ over-split k m p qs t over ih
      | inr under ↦
          under-split k m p qs t under
            (newer-none e' c' k m qs l (at_most k m p qs (omega arith) (omega arith) under)) ih
    ]
writes-split e c k m ps (opened e' c' p qs t i j pos_zxid l) =
    opening-split k m p qs t (writes-split e' c' k m qs l)
writes-split e c k m ps (reopened e' p qs t i j l) =
    opening-split k m p qs t (writes-split (suc e') 0 k m qs l)

module _ {C : Type 0} (env : Env C) (follower : Str) where
  -- JSON reads back what it wrote and the coordinator is not in test mode 4. The coordinator's
  -- files hold a log that fits the format, ends at its zxid counter, and has as its newest
  -- entries a write and then the NewLeader of a new epoch, whose content is the zxid of that
  -- write. If the requests that a follower of another name, with a zxid of 16-bit parts below
  -- that one, has committed and holds are those of the log's writes up to its zxid, oldest first,
  -- then after the NewLeader and the writes of the log above its zxid it has committed the
  -- requests of all writes of the log, oldest first, and holds nothing.
  pub caught_up-agrees :
      (nl last : Proposal) (ps : List Proposal) (s u : Zab C)
      → IsExact env.zab_codec
      → IsExact env.proposal_codec
      → IsExact env.request_codec
      → (env.test_mode == codes "mode4") ≡ false
      → (follower == env.name) ≡ false
      → nl.prop_type ≡ new_leader
      → last.prop_type ≡ state_change
      → nl.content ≡ uint32_to_bytes (get_zxid_as_int last.epoch_num last.count_num)
      → IsLog s.zxid_counter.epoch_num s.zxid_counter.count_num (nl ∷ last ∷ ps)
      → All IsSavable (nl ∷ last ∷ ps)
      → IsWord u.zxid_counter
      → get_latest_zxid u.zxid_counter < get_zxid_as_int last.epoch_num last.count_num
      → history env u
        ≡ map
            (request_of env)
            (reverse (older u.zxid_counter.epoch_num u.zxid_counter.count_num (nl ∷ last ∷ ps)))
      → let log = nl ∷ last ∷ ps in
        let news = reverse (newer u.zxid_counter.epoch_num u.zxid_counter.count_num log) in
        let end = get_zxid_as_int last.epoch_num last.count_num in
        (t : Zab C) × (receive_all env follower news (behind env follower nl end u) ≡ some t)
        × (t.to_commit_chan ≡ map (request_of env) (reverse (writes log)))
        × (t.proposals_queue.items ≡ [])
  caught_up-agrees nl last ps s u ze pe re no_test other opens change content l ok words lt had =
      let log = nl ∷ last ∷ ps in
      let k = u.zxid_counter.epoch_num in
      let m = u.zxid_counter.count_num in
      let (t, x, y, z, caught, facts) =
        caught-up env follower nl last ps s u ze pe re no_test other opens change content l ok words
          lt in
      let parts : reverse (writes log) ≡ reverse (older k m log) ++ reverse (newer k m log) =
        ap reverse (writes-split s.zxid_counter.epoch_num s.zxid_counter.count_num k m log l)
        ∙ reverse-append (newer k m log) (older k m log) in
      let all : map (request_of env) (reverse (writes log))
          ≡ history env u ++ map (request_of env) (reverse (newer k m log)) =
        ap (map (request_of env)) parts
        ∙ map-append (request_of env) (reverse (older k m log)) (reverse (newer k m log))
        ∙ ap (λ (h : List Request). h ++ map (request_of env) (reverse (newer k m log)))
            (sym had) in
      (t, caught, facts.commits ∙ sym all, facts.holds)
