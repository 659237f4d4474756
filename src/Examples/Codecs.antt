-- ===== src/Examples/Codecs.antt =====
-- A concrete stand-in for encoding/json at the message types, and nodes that use it.
use dsc_zookeeper.Prelude.{
  ℕ, zero, suc, ◌+◌, Str, str_eq, Bytes, [], ◌∷◌, Bool, true, false, ◌≡◌, refl, Codec, IsExact,
  codes,
}
use dsc_zookeeper.Proposals.Types.{
  ZabMessage, ZabMessageType, req, prop, ack, err, sync_err, Proposal, ProposalType, commit,
  state_change, new_leader, Request, RequestType, sync, write,
}
use dsc_zookeeper.Proposals.State.{Env}

abbrev zab_code : ZabMessageType → ℕ
zab_code req = 0
zab_code prop = 1
zab_code ack = 2
zab_code err = 3
zab_code sync_err = 4
zab_code (ZabMessageType.unknown k) = suc (suc (suc (suc (suc k))))

abbrev zab_of_code : ℕ → ZabMessageType
zab_of_code zero = req
zab_of_code (suc zero) = prop
zab_of_code (suc (suc zero)) = ack
zab_of_code (suc (suc (suc zero))) = err
zab_of_code (suc (suc (suc (suc zero)))) = sync_err
zab_of_code (suc (suc (suc (suc (suc k))))) = ZabMessageType.unknown k

zab_of_code-zab_code : (t : ZabMessageType) → zab_of_code (zab_code t) ≡ t
zab_of_code-zab_code req = refl
zab_of_code-zab_code prop = refl
zab_of_code-zab_code ack = refl
zab_of_code-zab_code err = refl
zab_of_code-zab_code sync_err = refl
zab_of_code-zab_code (ZabMessageType.unknown k) = refl

abbrev prop_code : ProposalType → ℕ
prop_code commit = 0
prop_code state_change = 1
prop_code new_leader = 2
prop_code (ProposalType.unknown k) = suc (suc (suc k))

abbrev prop_of_code : ℕ → ProposalType
prop_of_code zero = commit
prop_of_code (suc zero) = state_change
prop_of_code (suc (suc zero)) = new_leader
prop_of_code (suc (suc (suc k))) = ProposalType.unknown k

prop_of_code-prop_code : (t : ProposalType) → prop_of_code (prop_code t) ≡ t
prop_of_code-prop_code commit = refl
prop_of_code-prop_code state_change = refl
prop_of_code-prop_code new_leader = refl
prop_of_code-prop_code (ProposalType.unknown k) = refl

abbrev req_code : RequestType → ℕ
req_code sync = 0
req_code write = 1
req_code (RequestType.unknown k) = suc (suc k)

abbrev req_of_code : ℕ → RequestType
req_of_code zero = sync
req_of_code (suc zero) = write
req_of_code (suc (suc k)) = RequestType.unknown k

req_of_code-req_code : (t : RequestType) → req_of_code (req_code t) ≡ t
req_of_code-req_code sync = refl
req_of_code-req_code write = refl
req_of_code-req_code (RequestType.unknown k) = refl

abbrev unmarshal_zab : Bytes → ZabMessage × Bool
unmarshal_zab [] = (record { zab_type = req; content = [] }, false)
unmarshal_zab (t ∷ content) = (record { zab_type = zab_of_code t; content = content }, true)

abbrev pub zab_codec : Codec ZabMessage
zab_codec = record { marshal = (λ m. zab_code m.zab_type ∷ m.content); unmarshal = unmarshal_zab }

pub zab_codec-IsExact : IsExact zab_codec
zab_codec-IsExact = record { exact = λ m. rw (zab_of_code-zab_code m.zab_type) refl }

abbrev unmarshal_proposal : Bytes → Proposal × Bool
unmarshal_proposal (t ∷ e ∷ c ∷ content) =
    (record { prop_type = prop_of_code t; epoch_num = e; count_num = c; content = content }, true)
unmarshal_proposal _ =
    (record { prop_type = commit; epoch_num = 0; count_num = 0; content = [] }, false)

abbrev pub proposal_codec : Codec Proposal
proposal_codec = record {
  marshal = (λ p. prop_code p.prop_type ∷ p.epoch_num ∷ p.count_num ∷ p.content);
  unmarshal = unmarshal_proposal;
}

pub proposal_codec-IsExact : IsExact proposal_codec
proposal_codec-IsExact = record { exact = λ p. rw (prop_of_code-prop_code p.prop_type) refl }

abbrev unmarshal_request : Bytes → Request × Bool
unmarshal_request (t ∷ n ∷ content) =
    (record { req_type = req_of_code t; req_number = n; content = content }, true)
unmarshal_request _ = (record { req_type = sync; req_number = 0; content = [] }, false)

abbrev pub request_codec : Codec Request
request_codec = record {
  marshal = (λ r. req_code r.req_type ∷ r.req_number ∷ r.content);
  unmarshal = unmarshal_request;
}

pub request_codec-IsExact : IsExact request_codec
request_codec-IsExact = record { exact = λ r. rw (req_of_code-req_code r.req_type) refl }

abbrev pub server1 : Str
server1 = codes "server1"

abbrev pub server2 : Str
server2 = codes "server2"

abbrev pub server3 : Str
server3 = codes "server3"

-- A checker that counts its calls, denies an empty request, and adds the count to any other.
abbrev pub counting : ℕ → Bytes → ℕ × Bytes × Bool
counting n [] = (n + 1, [], false)
counting n (b ∷ bs) = (n + 1, n ∷ b ∷ bs, true)

-- The coordinator of three servers.
abbrev pub leader : Env ℕ
leader = record {
  name = server1;
  test_mode = [];
  coordinator = server1;
  addresses = server1 ∷ server2 ∷ server3 ∷ [];
  zab_codec = zab_codec;
  proposal_codec = proposal_codec;
  request_codec = request_codec;
  request_checker = counting;
}
