-- ===== src/Proposals/CatchUp/Runs.antt =====
-- The epochs of a log of proposalSaving.go: the counts of each run down to its opening.
use dsc_zookeeper.Prelude.{
  ℕ, suc, ◌+◌, ◌-◌, ◌<◌, ◌≤◌, ◌≡◌, ◌≢◌, refl, sym, ap, ◌∙◌, subst, nat_eq, List, [], ◌∷◌, false,
  ◌&&◌, ltb, if◌then◌else◌, Bool-cases, inl, inr, take, arith,
}
use dsc_zookeeper.Proposals.Types.{Proposal, state_change, new_leader}
use dsc_zookeeper.Proposals.Log.History.{of_epoch}
use dsc_zookeeper.Proposals.CatchUp.{IsLog, empty, changed, opened, reopened, is_change, above}

-- The proposals of one epoch: the counts go down to 1, and only openings are below.
pub data IsRun : ℕ → List Proposal → Type 0 where
  start : IsRun 0 []
  write :
      (n : ℕ) (p : Proposal) (ps : List Proposal)
      → p.prop_type ≡ state_change
      → p.count_num ≡ suc n
      → IsRun n ps
      → IsRun (suc n) (p ∷ ps)
  opening :
      (p : Proposal) (ps : List Proposal)
      → p.prop_type ≡ new_leader
      → p.count_num ≡ 0
      → IsRun 0 ps
      → IsRun 0 (p ∷ ps)

pub above-change :
    (c : ℕ) (p : Proposal) (ps : List Proposal)
    → p.prop_type ≡ state_change
    → above c (p ∷ ps) ≡ (if ltb c p.count_num then p ∷ above c ps else above c ps)
above-change c p ps t =
    ap (λ k. if is_change k && ltb c p.count_num then p ∷ above c ps else above c ps) t

pub above-opening :
    (c : ℕ) (p : Proposal) (ps : List Proposal)
    → p.prop_type ≡ new_leader
    → above c (p ∷ ps) ≡ above c ps
above-opening c p ps t =
    ap (λ k. if is_change k && ltb c p.count_num then p ∷ above c ps else above c ps) t

pub above-none : (n c : ℕ) (ps : List Proposal) → IsRun n ps → n ≤ c → above c ps ≡ []
above-none n c ps start h = refl
above-none n c ps (write m p qs t k r) h =
    let low : ltb c p.count_num ≡ false = ground arith in
    above-change c p qs t ∙ rw low (above-none m c qs r (omega arith))
above-none n c ps (opening p qs t k r) h = above-opening c p qs t ∙ above-none 0 c qs r h

-- The latest proposals of a run, as many as the counts above `c`, are those above `c`.
pub take-above : (n c : ℕ) (ps : List Proposal) → IsRun n ps → take (n - c) ps ≡ above c ps
take-above n c ps start = let none_left : 0 - c ≡ 0 = omega arith in rw none_left refl
take-above n c ps (write m p qs t k r) = elim (Bool-cases (ltb c p.count_num)) [
  | inl low ↦
      let one_more : suc m - c ≡ suc (m - c) = ground arith in
      let more : above c (p ∷ qs) ≡ p ∷ above c qs = above-change c p qs t ∙ rw low refl in
      rw (one_more, more) (ap (◌∷◌ p) (take-above m c qs r))
  | inr high ↦
      let none_left : suc m - c ≡ 0 = ground arith in
      let rest : above c qs ≡ [] = above-none m c qs r (ground arith) in
      let low : above c (p ∷ qs) ≡ [] = above-change c p qs t ∙ rw high rest in
      rw (none_left, low) refl
]
take-above n c ps (opening p qs t k r) =
    let none_left : 0 - c ≡ 0 = omega arith in
    let rest : above c (p ∷ qs) ≡ [] = above-opening c p qs t ∙ above-none 0 c qs r (omega arith) in
    rw (none_left, rest) refl

pub IsRun-head : (n : ℕ) (p : Proposal) (ps : List Proposal) → IsRun n (p ∷ ps) → p.count_num ≡ n
IsRun-head n p ps (write m q qs t k r) = k
IsRun-head n p ps (opening q qs t k r) = k

pub of_epoch-same :
    (e : ℕ) (p : Proposal) (ps : List Proposal)
    → p.epoch_num ≡ e
    → of_epoch e (p ∷ ps) ≡ p ∷ of_epoch e ps
of_epoch-same e p ps h = ground (arith, (nat_eq.beq_iff p.epoch_num e).1 h)

pub of_epoch-other :
    (e : ℕ) (p : Proposal) (ps : List Proposal)
    → p.epoch_num ≢ e
    → of_epoch e (p ∷ ps) ≡ of_epoch e ps
of_epoch-other e p ps h = ground (arith, (nat_eq.beq_iff p.epoch_num e).0)

-- No proposal is of a later epoch.
pub of_epoch-later : (e c k : ℕ) (ps : List Proposal) → IsLog e c ps → e < k → of_epoch k ps ≡ []
of_epoch-later e c k ps empty h = refl
of_epoch-later e c k ps (changed e' c' p qs t i j l) h =
    of_epoch-other k p qs (λ x. omega arith) ∙ of_epoch-later e c' k qs l h
of_epoch-later e c k ps (opened e' c' p qs t i j pos_zxid l) h =
    of_epoch-other k p qs (λ x. omega arith) ∙ of_epoch-later e' c' k qs l (omega arith)
of_epoch-later e c k ps (reopened e' p qs t i j l) h =
    of_epoch-other k p qs (λ x. omega arith) ∙ of_epoch-later (suc e') 0 k qs l h

-- The latest epoch is a run down from the latest count.
pub of_epoch-IsRun : (e c : ℕ) (ps : List Proposal) → IsLog e c ps → IsRun c (of_epoch e ps)
of_epoch-IsRun e c ps empty = start
of_epoch-IsRun e c ps (changed e' c' p qs t i j l) =
    subst (IsRun c) (sym (of_epoch-same e p qs i))
      (write c' p (of_epoch e qs) t j (of_epoch-IsRun e c' qs l))
of_epoch-IsRun e c ps (opened e' c' p qs t i j pos_zxid l) =
    subst (IsRun 0) (sym (of_epoch-same e p qs i)) (
      opening p (of_epoch e qs) t j
        (subst (IsRun 0) (sym (of_epoch-later e' c' e qs l (omega arith))) start))
of_epoch-IsRun e c ps (reopened e' p qs t i j l) =
    subst (IsRun 0) (sym (of_epoch-same e p qs i))
      (opening p (of_epoch e qs) t j (of_epoch-IsRun e 0 qs l))

-- A run, from some count, of an epoch that has a file.
abbrev pub IsPast : List Proposal → Type 0
IsPast ps = (n : ℕ) × IsRun n ps × (ps ≢ [])

latest-IsPast :
    (e c : ℕ) (p : Proposal) (ps : List Proposal)
    → p.epoch_num ≡ e
    → IsLog e c (p ∷ ps)
    → IsPast (of_epoch e (p ∷ ps))
latest-IsPast e c p ps h l =
    (c, of_epoch-IsRun e c (p ∷ ps) l, (λ x. let same = of_epoch-same e p ps h in absurd cc))

earlier-IsPast :
    (e k : ℕ) (p : Proposal) (ps : List Proposal)
    → p.epoch_num ≡ e
    → k < e
    → IsPast (of_epoch k ps)
    → IsPast (of_epoch k (p ∷ ps))
earlier-IsPast e k p ps h lt h' = subst IsPast (sym (of_epoch-other k p ps (λ x. omega arith))) h'

-- At the epoch of the newest proposal, or before it.
epoch-IsPast :
    (e c k : ℕ) (p : Proposal) (ps : List Proposal)
    → p.epoch_num ≡ e
    → IsLog e c (p ∷ ps)
    → k ≤ e
    → (k < e → IsPast (of_epoch k ps))
    → IsPast (of_epoch k (p ∷ ps))
epoch-IsPast e c k p ps h l le before = elim (Bool-cases (ltb k e)) [
  | inl below ↦ earlier-IsPast e k p ps h (ground arith) (before (ground arith))
  | inr at ↦
      let same : e ≡ k = ground arith in
      subst (λ x. IsPast (of_epoch x (p ∷ ps))) same (latest-IsPast e c p ps h l)
]

-- Every epoch up to the latest one is a run and has a file.
pub of_epoch-IsPast :
    (e c k : ℕ) (ps : List Proposal) → IsLog e c ps → k ≤ e → 0 < e + c → IsPast (of_epoch k ps)
of_epoch-IsPast e c k ps empty h pos_zxid = absurd (omega arith)
of_epoch-IsPast e c k ps (changed e' c' p qs t i j l) h pos_zxid =
    epoch-IsPast e c k p qs i (changed e' c' p qs t i j l) h
      (λ lt. of_epoch-IsPast e c' k qs l h (omega arith))
of_epoch-IsPast e c k ps (opened e' c' p qs t i j pos_zxid' l) h pos_zxid =
    epoch-IsPast e c k p qs i (opened e' c' p qs t i j pos_zxid' l) h
      (λ lt. of_epoch-IsPast e' c' k qs l (omega arith) pos_zxid')
of_epoch-IsPast e c k ps (reopened e' p qs t i j l) h pos_zxid =
    epoch-IsPast e c k p qs i (reopened e' p qs t i j l) h
      (λ lt. of_epoch-IsPast e 0 k qs l h (omega arith))
