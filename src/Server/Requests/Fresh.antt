-- ===== src/Server/Requests/Fresh.antt =====
-- The ids of generateUniqueRequestID of main/server.go.
use dsc_zookeeper.Prelude.{
  ℕ, ◌/◌, List, [], ◌∷◌, ◌++◌, nat_eq, none, some, >>=-eq-some, some_inj, none_ne_some,
  Option-cases, lookup, ◌≡◌, ◌≢◌, refl, sym, ap, ◌∙◌, inl, inr, arith,
}
use dsc_zookeeper.Server.State.{Env, Server, PendingRequest}
use dsc_zookeeper.Server.Requests.{server_number, request_id, unused_id, generate_unique_request_id}

-- An id is free, and its first digits are the number of the server.
pub record IsFresh (number : ℕ) (pending : List (ℕ × PendingRequest)) (id : ℕ) : Type 0 where
  pub free : lookup id pending ≡ none
  pub prefix : id / 1000000000 ≡ number

request_id-prefix : (number r : ℕ) → request_id number r / 1000000000 ≡ number
request_id-prefix number r = omega arith

unused_id-IsFresh :
    (number : ℕ) (pending : List (ℕ × PendingRequest)) (random rest : List ℕ) (id : ℕ)
    → unused_id number pending random ≡ some (id, rest)
    → IsFresh number pending id
unfolding unused_id
unused_id-IsFresh number pending [] rest id h = absurd (none_ne_some _ refl h)
unused_id-IsFresh number pending (r ∷ random) rest id h =
    elim (Option-cases (lookup (request_id number r) pending)) [
      | inl free ↦
          let e : request_id number r ≡ id =
            ap (λ (p : ℕ × List ℕ). p.0) (some_inj (rw free at h)) in
          record {
            free = ap (λ k. lookup k pending) (sym e) ∙ free;
            prefix = ap (λ k. k / 1000000000) (sym e) ∙ request_id-prefix number r;
          }
      | inr (p, taken) ↦ unused_id-IsFresh number pending random rest id (rw taken at h)
    ]

-- An id that was drawn is free, and its first digits are the number of the server.
pub generate_unique_request_id-IsFresh :
    (env : Env) (s : Server) (id : ℕ) (rest : List ℕ)
    → generate_unique_request_id env s ≡ some (id, rest)
    → (number : ℕ) × (server_number env.name ≡ some number) × IsFresh number s.pending id
unfolding generate_unique_request_id
generate_unique_request_id-IsFresh env s id rest h =
    let (number, named, drawn) =
      >>=-eq-some (server_number env.name) (λ n. unused_id n s.pending s.random) h in
    (number, named, unused_id-IsFresh number s.pending s.random rest id drawn)

-- If the last characters of two servers' names give different numbers, a request id that one of
-- them draws is not one that the other draws, and is not the id of one of its own pending
-- requests.
pub generate_unique_request_id-differ :
    (env env' : Env) (s s' : Server) (id id' : ℕ) (rest rest' : List ℕ)
    → server_number env.name ≢ server_number env'.name
    → generate_unique_request_id env s ≡ some (id, rest)
    → generate_unique_request_id env' s' ≡ some (id', rest')
    → (id ≢ id') × (lookup id s.pending ≡ none)
generate_unique_request_id-differ env env' s s' id id' rest rest' other h h' =
    let (n, named, fresh) = generate_unique_request_id-IsFresh env s id rest h in
    let (n', named', fresh') = generate_unique_request_id-IsFresh env' s' id' rest' h' in
    (
      (λ e. other (
          named
          ∙ ap some (sym fresh.prefix ∙ ap (λ k. k / 1000000000) e ∙ fresh'.prefix)
          ∙ sym named')),
      fresh.free,
    )

unused_id-ends :
    (number r : ℕ) (pending : List (ℕ × PendingRequest)) (before after : List ℕ)
    → lookup (request_id number r) pending ≡ none
    → (id : ℕ) × (rest : List ℕ) × (unused_id number pending (before ++ r ∷ after)
        ≡ some (id, rest))
unfolding unused_id
unused_id-ends number r pending [] after h = (request_id number r, after, rw h refl)
unused_id-ends number r pending (x ∷ before) after h =
    elim (Option-cases (lookup (request_id number x) pending)) [
      | inl free ↦ (request_id number x, before ++ r ∷ after, rw free refl)
      | inr (p, taken) ↦
          let (id, rest, e) = unused_id-ends number r pending before after h in
          (id, rest, rw taken e)
    ]

-- If the name of a server is not empty, and one of the random numbers to come gives an id that is
-- not pending, generateUniqueRequestID returns an id.
pub generate_unique_request_id-ends :
    (env : Env) (s : Server) (number r : ℕ) (before after : List ℕ)
    → server_number env.name ≡ some number
    → s.random ≡ before ++ r ∷ after
    → lookup (request_id number r) s.pending ≡ none
    → (id : ℕ) × (rest : List ℕ) × (generate_unique_request_id env s ≡ some (id, rest))
unfolding generate_unique_request_id
generate_unique_request_id-ends env s number r before after named draws free =
    let (id, rest, e) = unused_id-ends number r s.pending before after free in
    (id, rest, rw (named, draws) e)
