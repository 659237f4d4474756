-- ===== src/Proposals/Log/Entry.antt =====
-- One entry of the log of proposalSaving.go: writeProposal, bytesToProposal and a round
-- of ReadProposals.
use native.Mathlib.Nat.{mod-eq_of_lt}
use mathlib.Core.Bool.{false}
use native.Mathlib.Numerals.{towards_suc}
use dsc_zookeeper.Prelude.{
  ℕ, ◌+◌, ◌-◌, ◌*◌, ◌/◌, ◌%◌, ◌^◌, ◌<◌, ◌≡◌, refl, ap, sym, Bytes, [], ◌∷◌, ◌++◌, append_assoc,
  some, ltb, nat_eq, str_eq, length, length-append, take-append, drop-append, arith,
}
use dsc_zookeeper.Proposals.Types.{Proposal, ProposalType, commit, state_change, new_leader}
use dsc_zookeeper.Proposals.Words.{
  bytes_to_uint32, uint32_to_bytes, bytes_to_uint32-uint32_to_bytes,
}
use dsc_zookeeper.Proposals.Log.{
  type_code, type_of_code, write_proposal, bytes_to_proposal, content_of, read_at, read_back,
}

-- A proposal that fits the format: 16 bits of epoch and of count, and a content that is not empty
-- and whose length fits with the five bytes before it.
pub record IsSavable (p : Proposal) : Type 0 where
  pub epoch : p.epoch_num < 2 ^ 16
  pub count : p.count_num < 2 ^ 16
  pub some_content : 0 < length p.content
  pub fits : 5 + length p.content < 2 ^ 32

type_of_code-type_code : (t : ProposalType) → type_of_code (type_code t) ≡ t
type_of_code-type_code commit = refl
type_of_code-type_code state_change = refl
type_of_code-type_code new_leader = refl
type_of_code-type_code (ProposalType.unknown k) = simp towards_suc

-- What stands before the length.
abbrev body : Proposal → Bytes
body p =
    type_code p.prop_type
    ∷ p.epoch_num % 256
    ∷ p.epoch_num / 256
    ∷ p.count_num % 256
    ∷ p.count_num / 256
    ∷ p.content

abbrev len_bytes : Proposal → Bytes
len_bytes p = uint32_to_bytes ((5 + length p.content) % 2 ^ 32)

write_proposal-body : (p : Proposal) → write_proposal p ≡ body p ++ len_bytes p
unfolding write_proposal
write_proposal-body p = refl

content_of-some :
    (t : ProposalType) (e c : ℕ) (bs : Bytes)
    → 0 < length bs
    → content_of t e c bs
      ≡ some (record { prop_type = t; epoch_num = e; count_num = c; content = bs })
unfolding content_of
content_of-some t e c [] h = absurd (omega arith)
content_of-some t e c (b ∷ bs) h = refl

bytes_to_proposal-body : (p : Proposal) → IsSavable p → bytes_to_proposal (body p) ≡ some p
unfolding bytes_to_proposal
bytes_to_proposal-body p h =
    let epoch : p.epoch_num % 256 + p.epoch_num / 256 * 256 ≡ p.epoch_num = omega arith in
    let count : p.count_num % 256 + p.count_num / 256 * 256 ≡ p.count_num = omega arith in
    rw (epoch, count, type_of_code-type_code p.prop_type)
      (content_of-some p.prop_type p.epoch_num p.count_num p.content h.some_content)

read_at-middle :
    (file pre mid post : Bytes) (len at : ℕ)
    → file ≡ pre ++ (mid ++ post)
    → at ≡ length pre
    → len ≡ length mid
    → read_at file len at ≡ some mid
unfolding read_at
read_at-middle file pre mid post len at e ha hl = rw e (
    ground (
      arith,
      drop-append pre (mid ++ post) at ha,
      take-append mid post len hl,
      length-append pre (mid ++ post),
      length-append mid post,
    ))

-- One round, from what its four steps give.
read_back-step :
    (file : Bytes) (at start len : ℕ) (len_temp prop_temp : Bytes) (p : Proposal)
    → at ≡ start + len + 4
    → read_at file 4 (at - 4) ≡ some len_temp
    → bytes_to_uint32 len_temp ≡ some len
    → read_at file len start ≡ some prop_temp
    → bytes_to_proposal prop_temp ≡ some p
    → read_back file at ≡ some (p, start, start)
unfolding read_back
read_back-step file at start len len_temp prop_temp p e h1 h2 h3 h4 =
    let whole : at - 4 - len ≡ start = omega arith in
    let above : ltb at 4 ≡ false = ground arith in
    let inside : ltb (at - 4) len ≡ false = ground arith in
    rw (above, h1) (rw h2 (rw (inside, whole) (rw h3 (rw h4))))

length-uint32_to_bytes : (n : ℕ) → length (uint32_to_bytes n) ≡ 4
unfolding uint32_to_bytes
length-uint32_to_bytes n = refl

-- In a file in which a proposal that fits the format ends at the position, one round of reading
-- gives that proposal, and the offset and the new position are where it begins.
pub read_back-write :
    (pre : Bytes) (p : Proposal) (post : Bytes)
    → IsSavable p
    → read_back (pre ++ write_proposal p ++ post) (length (pre ++ write_proposal p))
      ≡ some (p, length pre, length pre)
read_back-write pre p post h =
    let size = 5 + length p.content in
    let no_wrap : size % 2 ^ 32 ≡ size = mod-eq_of_lt h.fits in
    let parts : pre ++ write_proposal p ++ post ≡ pre ++ (body p ++ (len_bytes p ++ post)) =
      simp (write_proposal-body, append_assoc) in
    let parts' : pre ++ write_proposal p ++ post ≡ pre ++ body p ++ (len_bytes p ++ post) =
      simp (write_proposal-body, append_assoc) in
    let at : length (pre ++ write_proposal p) ≡ length pre + size + 4 = omega (
      arith,
      length-append pre (write_proposal p),
      ap (length {A = ℕ}) (write_proposal-body p),
      length-append (body p) (len_bytes p),
      length-uint32_to_bytes (size % 2 ^ 32),
    ) in
    read_back-step _ _ (length pre) size (len_bytes p) (body p) p at
      (read_at-middle _ (pre ++ body p) (len_bytes p) post 4 _ parts'
        (omega (arith, length-append pre (body p))) (sym (length-uint32_to_bytes (size % 2 ^ 32))))
      (rw no_wrap (bytes_to_uint32-uint32_to_bytes size h.fits))
      (read_at-middle _ pre (body p) (len_bytes p ++ post) size (length pre) parts refl
        (omega arith))
      (bytes_to_proposal-body p h)
