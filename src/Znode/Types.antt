-- ===== src/Znode/Types.antt =====
-- The types of internal/znode: znode.go, session.go, req_json.go and znode_errors.go.
use dsc_zookeeper.Prelude.{
  Str, Bytes, List, [], Bool, Codec, codes, ◌≡◌, ◌↔◌, arith, true, false, nat_eq, ◌==◌,
}
use dsc_zookeeper.Prelude.Int.{ℤ, pos, negsuc}

pub record ZNode : Type 0 where
  pub path : Str
  pub content : Bytes  -- Data
  pub version : ℤ
  pub ephemeral : Str
  pub sequential : Bool
  pub children : List Str

pub record Session : Type 0 where
  pub id : Str
  pub watchlist : List Str
  pub versionlist : List ℤ
  pub ephemeral_nodes : List Str
  pub timeout : ℤ

pub record WriteRequest : Type 0 where
  pub request : Str
  pub znodes : List ZNode

-- The error types, without their texts; `json_error` is an error of json.Unmarshal.
pub data ZnodeError : Type 0 where
  invalid_request_error init_error exists_error version_error critical_error json_error : ZnodeError

-- A result with its error, or a panic: a nil dereference or an index out of range.
pub data Outcome {ℓ} (A : Type ℓ) : Type ℓ where
  ok : A → Outcome A
  err : ZnodeError → Outcome A
  panic : Outcome A

infixl 5 ◌>>=◌ ◌>>◌
abbrev pub ◌>>=◌ {ℓ κ} : {A : Type ℓ} {B : Type κ} → Outcome A → (A → Outcome B) → Outcome B
ok a >>= f = f a
err e >>= f = err e
panic >>= f = panic

abbrev pub ◌>>◌ {ℓ κ} : {A : Type ℓ} {B : Type κ} → Outcome A → Outcome B → Outcome B
m >> k = m >>= λ _. k

-- JSON of the two types that are stored or sent.
pub record Json : Type 0 where
  pub requests : Codec WriteRequest
  pub sessions : Codec Session

abbrev pub session_dir : Str
session_dir = codes "sessionDir"

abbrev pub znode_dir : Str
znode_dir = codes "znodeDir"

-- A znode with the fields that a literal names, and the others zero.
abbrev pub new_znode : Str → Bytes → ℤ → ZNode
new_znode path content version = record {
  path = path;
  content = content;
  version = version;
  ephemeral = [];
  sequential = false;
  children = [];
}

abbrev pub int_beq : ℤ → ℤ → Bool
int_beq (pos a) (pos b) = a == b
int_beq (pos a) (negsuc b) = false
int_beq (negsuc a) (pos b) = false
int_beq (negsuc a) (negsuc b) = a == b

pub int_beq_iff : (a b : ℤ) → (int_beq a b ≡ true) ↔ (a ≡ b)
int_beq_iff a b = ground arith
