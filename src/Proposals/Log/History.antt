-- ===== src/Proposals/Log/History.antt =====
-- The log of proposalSaving.go after a history of saves, and ReadProposals on it. A history is
-- written newest first.
use mathlib.Core.List.{reverse}
use dsc_zookeeper.Prelude.{
  ℕ, zero, suc, ◌^◌, ◌<◌, ◌≡◌, ◌≢◌, refl, ap, ◌∙◌, sym, Bool-cases, inl, inr, Str, Bytes, List, [],
  ◌∷◌, ◌++◌, append_assoc, append-nil, Option, none, some, ◌==◌, nat_eq, str_eq, if◌then◌else◌,
  lookup, lookup-insert, length, length-append, take, All, arith, str_beq, str_beq_iff,
}
use dsc_zookeeper.Prelude.Int.{pos}
use dsc_zookeeper.Prelude.Decimal.{itoa, atoi, atoi-itoa}
use dsc_zookeeper.Proposals.Types.{Proposal}
use dsc_zookeeper.Proposals.Log.{
  Files, write_proposal, save_proposal, read_back, read_loop, read_proposals, contents_or_empty,
}
use dsc_zookeeper.Proposals.Log.Entry.{IsSavable, read_back-write}

-- The folder after the saves of a history, from an empty one.
unfoldable pub saved : List Proposal → Files
saved [] = []
saved (p ∷ ps) = save_proposal (saved ps) p

-- The proposals of one epoch in a history.
abbrev pub of_epoch : ℕ → List Proposal → List Proposal
of_epoch e [] = []
of_epoch e (p ∷ ps) = let rest = of_epoch e ps in if p.epoch_num == e then p ∷ rest else rest

-- The bytes of a file with the saves of a history.
abbrev log_of : List Proposal → Bytes
log_of [] = []
log_of (p ∷ ps) = log_of ps ++ write_proposal p

itoa-injective : (m n : ℕ) → m < 2 ^ 16 → n < 2 ^ 16 → itoa m ≡ itoa n → m ≡ n
itoa-injective m n hm hn e =
    let same : some (pos m) ≡ some (pos n) =
      sym (atoi-itoa m (omega arith)) ∙ ap atoi e ∙ atoi-itoa n (omega arith) in
    cc

pub itoa-beq : (m n : ℕ) → m < 2 ^ 16 → n < 2 ^ 16 → str_beq (itoa m) (itoa n) ≡ (m == n)
itoa-beq m n hm hn = elim (Bool-cases (m == n)) [
  | inl same ↦ rw same ((str_beq_iff (itoa m) (itoa n)).1 (ap itoa ((nat_eq.beq_iff m n).0 same)))
  | inr other ↦ elim (Bool-cases (str_beq (itoa m) (itoa n))) [
    | inl clash ↦
        let e : m ≡ n = itoa-injective m n hm hn ((str_beq_iff (itoa m) (itoa n)).0 clash) in
        absurd (ground (arith, (nat_eq.beq_iff m n).1 e))
    | inr apart ↦ rw (apart, other)
  ]
]

-- The file of an epoch holds the saves of that epoch, and is missing as long as there is none.
abbrev pub file_of : List Proposal → Option Bytes
file_of [] = none
file_of (p ∷ ps) = some (log_of (p ∷ ps))

contents-file_of : (ps : List Proposal) → contents_or_empty (file_of ps) ≡ log_of ps
contents-file_of [] = refl
contents-file_of (p ∷ ps) = refl

lookup-nil : (k : Str) → lookup {V = Bytes} k [] ≡ none
unfolding lookup
lookup-nil k = refl

-- A save appends to the file of its epoch, and leaves the others alone.
pub lookup-save_proposal :
    (e : ℕ) (files : Files) (p : Proposal)
    → e < 2 ^ 16
    → IsSavable p
    → lookup (itoa e) (save_proposal files p) ≡ (
        if p.epoch_num == e
        then some (contents_or_empty (lookup (itoa e) files) ++ write_proposal p)
        else lookup (itoa e) files)
unfolding save_proposal
lookup-save_proposal e files p he hp =
    lookup-insert (itoa p.epoch_num) (itoa e) _ files ∙ elim (Bool-cases (p.epoch_num == e)) [
      | inl same ↦
          rw (itoa-beq p.epoch_num e hp.epoch he, same) (rw ((nat_eq.beq_iff p.epoch_num e).0 same))
      | inr other ↦ rw (itoa-beq p.epoch_num e hp.epoch he, other)
    ]

pub lookup-saved :
    (e : ℕ) (ps : List Proposal)
    → e < 2 ^ 16
    → All IsSavable ps
    → lookup (itoa e) (saved ps) ≡ file_of (of_epoch e ps)
unfolding saved
lookup-saved e [] he h = lookup-nil (itoa e)
lookup-saved e (p ∷ ps) he (hp, hps) =
    lookup-save_proposal e (saved ps) p he hp ∙ elim (Bool-cases (p.epoch_num == e)) [
      | inl same ↦ rw (same, lookup-saved e ps he hps, contents-file_of (of_epoch e ps))
      | inr other ↦ rw other (lookup-saved e ps he hps)
    ]

write-pos : (p : Proposal) → 0 < length (write_proposal p)
unfolding write_proposal
write-pos p = omega arith

module _ (file : Bytes) (i at cur position : ℕ) (acc : List Proposal) (p : Proposal) where
  read_loop-stop :
      read_back file at ≡ some (p, cur, position)
      → cur ≡ 0
      → read_loop (suc i) file at acc ≡ some (acc ++ p ∷ [])
  unfolding read_loop
  read_loop-stop h e = rw (h, read_loop) (ground arith)

  read_loop-go :
      read_back file at ≡ some (p, cur, position)
      → 0 < cur
      → read_loop (suc i) file at acc ≡ read_loop i file position (acc ++ p ∷ [])
  unfolding read_loop
  read_loop-go h e = rw (h, read_loop) (ground arith)

read_loop-zero :
    (file : Bytes) (at : ℕ) (acc : List Proposal) → read_loop zero file at acc ≡ some acc
unfolding read_loop
read_loop-zero file at acc = refl

take-nil : (k : ℕ) → take {A = Proposal} k [] ≡ []
take-nil zero = refl
take-nil (suc k) = refl

log_of-pos : (p : Proposal) (ps : List Proposal) → 0 < length (log_of (p ∷ ps))
log_of-pos p ps = omega (arith, length-append (log_of ps) (write_proposal p), write-pos p)

-- The loop reads back from the end of any history, `k + 1` proposals or up to the oldest.
read_loop-log :
    (k : ℕ) (p : Proposal) (ps : List Proposal) (post : Bytes) (acc : List Proposal)
    → IsSavable p
    → All IsSavable ps
    → read_loop (suc k) (log_of (p ∷ ps) ++ post) (length (log_of (p ∷ ps))) acc
      ≡ some (acc ++ take (suc k) (p ∷ ps))
read_loop-log k p [] post acc hp hps =
    read_loop-stop _ k _ _ _ acc p (read_back-write [] p post hp) refl ∙ rw (take-nil k)
read_loop-log zero p (q ∷ qs) post acc hp hps =
    read_loop-go _ zero _ _ _ acc p (read_back-write (log_of (q ∷ qs)) p post hp) (log_of-pos q qs)
    ∙ read_loop-zero _ _ _
read_loop-log (suc k) p (q ∷ qs) post acc hp (hq, hqs) =
    read_loop-go _ (suc k) _ _ _ acc p (read_back-write (log_of (q ∷ qs)) p post hp)
      (log_of-pos q qs)
    ∙ rw (append_assoc (log_of (q ∷ qs)) (write_proposal p) post)
        (read_loop-log k q qs (write_proposal p ++ post) (acc ++ p ∷ []) hq hqs ∙ rw append_assoc)

pub All-of_epoch : (e : ℕ) (ps : List Proposal) → All IsSavable ps → All IsSavable (of_epoch e ps)
All-of_epoch e [] h = tt
All-of_epoch e (p ∷ ps) h = ground (arith, All-of_epoch e ps h.1)

pub read_proposals-file :
    (files : Files) (e k : ℕ) (ps : List Proposal)
    → lookup (itoa e) files ≡ file_of ps
    → All IsSavable ps
    → ps ≢ []
    → 0 < k
    → read_proposals files e k ≡ some (reverse (take k ps))
unfolding read_proposals
read_proposals-file files e k [] found h some_saved hk = absurd (some_saved refl)
read_proposals-file files e zero (p ∷ ps) found h some_saved hk = absurd (omega arith)
read_proposals-file files e (suc k) (p ∷ ps) found (hp, hps) some_saved hk =
    let whole : log_of (p ∷ ps) ++ [] ≡ log_of (p ∷ ps) = append-nil (log_of (p ∷ ps)) in
    let read = rw whole at (read_loop-log k p ps [] [] hp hps) in rw found (rw read (ground arith))

-- After the saves of a history of proposals that fit the format, reading `k` proposals, at least
-- one, of a 16-bit epoch that has some gives its latest `k`, or all of them if there are fewer,
-- the oldest first.
pub read_proposals-saved :
    (history : List Proposal) (e k : ℕ)
    → e < 2 ^ 16
    → All IsSavable history
    → of_epoch e history ≢ []
    → 0 < k
    → read_proposals (saved history) e k ≡ some (reverse (take k (of_epoch e history)))
read_proposals-saved history e k he h some_saved hk =
    read_proposals-file (saved history) e k (of_epoch e history) (lookup-saved e history he h)
      (All-of_epoch e history h) some_saved hk
