-- ===== src/Server/Requests/Sent.antt =====
-- The pending requests of main/server.go after generateAndSendRequest.
use dsc_zookeeper.Prelude.{
  ℕ, Bytes, List, nat_eq, ◌==◌, Bool, Bool-cases, nat_beq_iff, none, some, >>=-eq-some, some_inj,
  none_ne_some, lookup, insert, lookup-insert, ◌≡◌, refl, sym, ap, ◌∙◌, inl, inr,
}
use dsc_zookeeper.Proposals.Types.{NetworkMessage}
use dsc_zookeeper.Server.State.{Env, Server, PendingRequest}
use dsc_zookeeper.Server.Requests.{generate_unique_request_id, generate_and_send_request}
use dsc_zookeeper.Server.Requests.Fresh.{generate_unique_request_id-IsFresh}

-- A request is pending under some id.
abbrev pub IsPending : PendingRequest → Server → Type 0
IsPending p s = (id : ℕ) × (lookup id s.pending ≡ some p)

-- What changes besides the queue of the protocol: one request is added, and none is lost.
pub record IsSent (p : PendingRequest) (s s' : Server) : Type 0 where
  pub pending : IsPending p s'
  pub kept :
      (id : ℕ) (q : PendingRequest) → lookup id s.pending ≡ some q → lookup id s'.pending ≡ some q
  pub timestamps : s'.timestamps ≡ s.timestamps
  pub to_clients : s'.to_clients ≡ s.to_clients

pub generate_and_send_request-IsSent :
    (env : Env) (is_from_client : Bool) (content : Bytes) (msg : NetworkMessage) (s s' : Server)
    → generate_and_send_request env is_from_client content msg s ≡ some s'
    → IsSent
        (record { is_from_client = is_from_client; original_client_msg = msg; request = content })
        s
        s'
unfolding generate_and_send_request
generate_and_send_request-IsSent env is_from_client content msg s s' h =
    let ((id, rest), drawn, sent) = >>=-eq-some (generate_unique_request_id env s) _ h in
    let (number, named, fresh) = generate_unique_request_id-IsFresh env s id rest drawn in
    let e = some_inj sent in
    let p : PendingRequest = record {
      is_from_client = is_from_client;
      original_client_msg = msg;
      request = content;
    } in
    let at : s'.pending ≡ insert id p s.pending = ap (λ (x : Server). x.pending) (sym e) in
    record {
      pending = (
        id,
        ap (lookup id) at ∙ lookup-insert id id p s.pending ∙ rw ((nat_beq_iff id id).1 refl) refl,
      );
      kept = λ n q there. ap (lookup n) at ∙ other id n p q s.pending fresh.free there;
      timestamps = ap (λ (x : Server). x.timestamps) (sym e);
      to_clients = ap (λ (x : Server). x.to_clients) (sym e);
    }
  where
    other :
        (id n : ℕ) (p q : PendingRequest) (m : List (ℕ × PendingRequest))
        → lookup id m ≡ none
        → lookup n m ≡ some q
        → lookup n (insert id p m) ≡ some q
    other id n p q m free there = elim (Bool-cases (id == n)) [
      | inl same ↦ absurd (
          none_ne_some (lookup n m) (ap (λ k. lookup k m) (sym ((nat_beq_iff id n).0 same)) ∙ free)
            there)
      | inr different ↦ lookup-insert id n p m ∙ rw different there
    ]
