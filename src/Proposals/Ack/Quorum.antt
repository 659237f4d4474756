-- ===== src/Proposals/Ack/Quorum.antt =====
-- ackCounter.go over histories: the sends and the ACKs that reach the counter of the coordinator.
use dsc_zookeeper.Prelude.{
  ℕ, suc, ◌+◌, ◌*◌, ◌/◌, ◌≤◌, ◌<◌, ◌≡◌, ◌≢◌, true, false, ◌&&◌, Option-cases, List, [], ◌∷◌, Option,
  some, ltb, leb, ◌==◌, nat_eq, lookup, lookup-insert, if◌then◌else◌, arith, Bool-cases, inl, inr,
  All, ◌∙◌,
}
use dsc_zookeeper.Proposals.Ack.{AckCounter, increment_or_remove, store_new}

-- What the coordinator does with its counter: it sends a proposal out, or it gets an ACK.
pub data Event : Type 0 where
  stored : ℕ → Event
  acked : ℕ → Event

-- How many times the ACKs of a history say that `zxid` is to be committed.
unfoldable pub commits : ℕ → ℕ → AckCounter → List Event → ℕ
commits max_count zxid c [] = 0
commits max_count zxid c (stored z ∷ es) = commits max_count zxid (store_new c z) es
commits max_count zxid c (acked z ∷ es) =
    let (c', enough) = increment_or_remove c z max_count in
    let rest = commits max_count zxid c' es in if enough && z == zxid then suc rest else rest

-- The ACKs of `zxid` in a history.
abbrev pub acks_of : ℕ → List Event → ℕ
acks_of zxid [] = 0
acks_of zxid (stored z ∷ es) = acks_of zxid es
acks_of zxid (acked z ∷ es) = (if z == zxid then 1 else 0) + acks_of zxid es

abbrev pub IsOther : ℕ → Event → Type 0
IsOther zxid (stored z) = z ≢ zxid
IsOther zxid (acked z) = Unit

abbrev count_of : ℕ → AckCounter → Option ℕ
count_of zxid c = lookup zxid c.ack_tracker

count-store_new :
    (c : AckCounter) (z zxid : ℕ)
    → count_of zxid (store_new c z) ≡ (if z == zxid then some 1 else count_of zxid c)
unfolding store_new
count-store_new c z zxid = lookup-insert z zxid 1 c.ack_tracker

-- An ACK of another proposal.
count-increment_ne :
    (c : AckCounter) (z zxid max_count : ℕ)
    → (z == zxid) ≡ false
    → count_of zxid (increment_or_remove c z max_count).0 ≡ count_of zxid c
unfolding increment_or_remove
count-increment_ne c z zxid max_count other = elim (Option-cases (lookup z c.ack_tracker)) [
  | inl e ↦ ground arith
  | inr (n, e) ↦
      ground
        (arith, lookup-insert z zxid 0 c.ack_tracker, lookup-insert z zxid (n + 1) c.ack_tracker)
]

count-increment_self :
    (c : AckCounter) (zxid max_count v : ℕ)
    → count_of zxid c ≡ some v
    → ((increment_or_remove c zxid max_count).1 ≡ ltb max_count (v + 1))
      × (count_of zxid (increment_or_remove c zxid max_count).0
          ≡ some (if ltb max_count (v + 1) then 0 else v + 1))
unfolding increment_or_remove
count-increment_self c zxid max_count v h =
    ground (
      arith,
      lookup-insert zxid zxid 0 c.ack_tracker,
      lookup-insert zxid zxid (v + 1) c.ack_tracker,
    )

-- From a count of `v`, the `max_count + 1 - v`-th further ACK commits, and no other one up to
-- `2 * max_count + 1 - v`.
commits-from :
    (max_count zxid v : ℕ) (c : AckCounter) (es : List Event)
    → count_of zxid c ≡ some v
    → All (IsOther zxid) es
    → v ≤ max_count
    → v + acks_of zxid es ≤ 2 * max_count + 1
    → commits max_count zxid c es ≡ (if leb (v + acks_of zxid es) max_count then 0 else 1)
unfolding commits
commits-from m zxid v c [] h o hv hk = ground arith
commits-from m zxid v c (stored z ∷ es) h (o, os) hv hk =
    let other : (z == zxid) ≡ false = ground arith in
    commits-from m zxid v (store_new c z) es (rw (count-store_new c z zxid, other) h) os hv hk
commits-from m zxid v c (acked z ∷ es) h (o, os) hv hk = elim (Bool-cases (z == zxid)) [
  | inl same ↦
      let this : z ≡ zxid = (nat_eq.beq_iff z zxid).0 same in
      let c' = (increment_or_remove c z m).0 in
      let step = count-increment_self c zxid m v h in
      let flag : (increment_or_remove c z m).1 ≡ ltb m (v + 1) = rw this step.0 in
      let count : count_of zxid c' ≡ some (if ltb m (v + 1) then 0 else v + 1) = rw this step.1 in
      elim (Bool-cases (ltb m (v + 1))) [
        | inl enough ↦ ground (
          arith,
          commits-from m zxid 0 c' es (rw enough at count) os (omega arith) (ground arith),
        )
        | inr more ↦ ground (
          arith,
          commits-from m zxid (v + 1) c' es (rw more at count) os (ground arith) (ground arith),
        )
      ]
  | inr other ↦
      let (c', enough) = increment_or_remove c z m in
      ground (
        arith,
        commits-from m zxid v c' es (count-increment_ne c z zxid m other ∙ h) os hv (ground arith),
      )
]

-- After a proposal has been sent out, and not again, its `max_count`-th ACK commits it and no
-- other ACK does, as long as there are at most `2 * max_count` of them; ACKs and sends of other
-- proposals may come between in any order.
pub commits-quorum :
    (max_count zxid : ℕ) (c : AckCounter) (es : List Event)
    → 0 < max_count
    → All (IsOther zxid) es
    → acks_of zxid es ≤ 2 * max_count
    → commits max_count zxid (store_new c zxid) es
      ≡ (if ltb (acks_of zxid es) max_count then 0 else 1)
commits-quorum max_count zxid c es hm other few =
    let own : (zxid == zxid) ≡ true = ground arith in
    let one : count_of zxid (store_new c zxid) ≡ some 1 = rw (count-store_new c zxid zxid, own) in
    ground (arith, commits-from max_count zxid 1 (store_new c zxid) es one other hm (omega arith))

-- With `n` servers, at least two, and fewer than `n` ACKs of a proposal after it was sent out and
-- not sent out again, among sends and ACKs of other proposals in any order: the proposal is
-- committed once if the coordinator and its ACKs are more than half of `n`, and never otherwise.
pub commits-majority :
    (n zxid : ℕ) (c : AckCounter) (es : List Event)
    → 2 ≤ n
    → All (IsOther zxid) es
    → acks_of zxid es < n
    → commits (n / 2) zxid (store_new c zxid) es
      ≡ (if ltb n (2 * (acks_of zxid es + 1)) then 1 else 0)
commits-majority n zxid c es hn other few =
    ground (arith, commits-quorum (n / 2) zxid c es (omega arith) other (omega arith))
