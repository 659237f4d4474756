-- ===== src/Server/Requests.antt =====
-- generateUniqueRequestID and generateAndSendRequest of main/server.go. A loop that draws random
-- numbers runs along the list of what rand.Intn returns: `none` is a loop without an end.
pub mod Fresh
pub mod Sent
use dsc_zookeeper.Prelude.{
  ℕ, ◌+◌, ◌-◌, ◌*◌, ◌%◌, Str, Bytes, List, [], ◌∷◌, Bool, ◌&&◌, leb, nat_eq, if◌then◌else◌, Option,
  none, some, ◌>>=◌, lookup, insert,
}
use dsc_zookeeper.Proposals.Types.{NetworkMessage}
use dsc_zookeeper.Proposals.Send.{send_write_request}
use dsc_zookeeper.Server.State.{Env, Server, PendingRequest, zab_env}

abbrev last_of : Str → Option ℕ
last_of [] = none
last_of (c ∷ []) = some c
last_of (c ∷ d ∷ s) = last_of (d ∷ s)

-- strconv.Atoi of one character, and 0 if it is no digit.
abbrev digit_of : ℕ → ℕ
digit_of c = if leb b'0' c && leb c b'9' then c - b'0' else 0

-- An empty name is an index out of range.
unfoldable pub server_number : Str → Option ℕ
server_number name = do last ← last_of name; some (digit_of last)

-- rand.Intn(10000000)
abbrev pub intn : ℕ → ℕ
intn r = r % 10000000

abbrev pub request_id : ℕ → ℕ → ℕ
request_id number r = number * 1000000000 + intn r

abbrev pub choose {ℓ} :
    {A : Type ℓ} → Option A → Option (ℕ × List ℕ) → ℕ → List ℕ → Option (ℕ × List ℕ)
choose none rest id random = some (id, random)
choose (some p) rest id random = rest

-- The loop: the first id that is not pending.
unfoldable pub unused_id : ℕ → List (ℕ × PendingRequest) → List ℕ → Option (ℕ × List ℕ)
unused_id number pending [] = none
unused_id number pending (r ∷ random) =
    choose (lookup (request_id number r) pending) (unused_id number pending random)
      (request_id number r) random

module _ (env : Env) where
  unfoldable pub generate_unique_request_id : Server → Option (ℕ × List ℕ)
  generate_unique_request_id s = do
    number ← server_number env.name
    unused_id number s.pending s.random

  unfoldable pub generate_and_send_request : Bool → Bytes → NetworkMessage → Server → Option Server
  generate_and_send_request is_from_client content original_message s = do
    drawn ← generate_unique_request_id s
    some (record s {
      random = drawn.1;
      zab = send_write_request (zab_env env s) content drawn.0 s.zab;
      pending =
          insert drawn.0
            (record {
              is_from_client = is_from_client;
              original_client_msg = original_message;
              request = content;
            })
            s.pending;
    })
