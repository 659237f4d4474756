-- ===== src/Server/Committed/Answers.antt =====
-- committedListener of main/server.go on the request that a read with a watch has sent.
use dsc_zookeeper.Prelude.{
  ℕ, Str, str_eq, str_beq, nat_eq, List, [], ◌∷◌, Bool, true, false, Option, none, some,
  >>=-eq-some, some_inj, lookup, codes, ◌≡◌, refl, sym, ap, ◌∙◌, ◌⊎◌, inl, inr, Bool-cases,
}
use dsc_zookeeper.Proposals.Types.{NetworkMessage, Request}
use dsc_zookeeper.Znode.Types.{ok}
use dsc_zookeeper.Znode.Store.{Store}
use dsc_zookeeper.Znode.Write.{write}
use dsc_zookeeper.Znode.Watch.{check_watch}
use dsc_zookeeper.Server.State.{
  Env, Server, PendingRequest, Object, object, get_text, no_message, value_or,
  send_json_message_to_client,
}
use dsc_zookeeper.Server.Requests.Sent.{generate_and_send_request-IsSent}
use dsc_zookeeper.Server.Commands.{send_triggers}
use dsc_zookeeper.Server.Committed.{
  client_of, tell, tell_sessions, trigger_watches, answer, commit_one, is_empty,
}

send_triggers-pending :
    (paths : List Str) (client : Str) (s : Server)
    → (send_triggers paths client s).pending ≡ s.pending
unfolding send_triggers send_json_message_to_client
send_triggers-pending [] client s = refl
send_triggers-pending (p ∷ ps) client s = send_triggers-pending ps client _

tell-pending :
    (paths : List Str) (client : Option Str) (s : Server)
    → (tell paths client s).pending ≡ s.pending
tell-pending paths none s = refl
tell-pending paths (some client) s = send_triggers-pending paths client s

tell_sessions-pending :
    (paths sessions : List Str) (s : Server) → (tell_sessions paths sessions s).pending ≡ s.pending
unfolding tell_sessions
tell_sessions-pending paths [] s = refl
tell_sessions-pending paths (x ∷ sessions) s =
    tell_sessions-pending paths sessions _ ∙ tell-pending paths (client_of x s.local_sessions) s

-- A read is one of the three messages that may set a watch.
abbrev pub IsRead : Object → Type 0
IsRead obj =
    (get_text obj (codes "message") ≡ some (codes "GETCHILDREN"))
    ⊎ (get_text obj (codes "message") ≡ some (codes "EXISTS"))
    ⊎ (get_text obj (codes "message") ≡ some (codes "GETDATA"))

module _ (env : Env) where
  pub trigger_watches-kept :
      (paths : List Str) (s s' : Server) (id : ℕ) (p : PendingRequest)
      → trigger_watches env paths s ≡ some s'
      → lookup id s.pending ≡ some p
      → lookup id s'.pending ≡ some p
  unfolding trigger_watches
  trigger_watches-kept paths s s' id p ran there =
      let w = (check_watch env.json s.store s.watches paths).0 in
      let out = (check_watch env.json s.store s.watches paths).1 in
      let ((content, sessions), read, more) = >>=-eq-some (value_or ([], []) out) _ ran in
      elim (Bool-cases (is_empty sessions)) [
        | inl quiet ↦
            let e : record s { watches = w } ≡ s' = some_inj (rw quiet at more) in
            ap (λ (x : Server). lookup id x.pending) (sym e) ∙ there
        | inr some_told ↦
            let told = tell_sessions paths sessions (record s { watches = w }) in
            let sent =
              generate_and_send_request-IsSent env false content no_message told s'
                (rw some_told at more) in
            sent.kept id p (
              ap (lookup id) (tell_sessions-pending paths sessions (record s { watches = w }))
              ∙ there)
      ]

  answer-read :
      (obj : Object) (msg : NetworkMessage) (paths : List Str) (s : Server)
      → IsRead obj
      → answer env obj msg paths s ≡ some (none, s)
  unfolding answer str_beq
  answer-read obj msg paths s (inl h) = rw h refl
  answer-read obj msg paths s (inr (inl h)) = rw h refl
  answer-read obj msg paths s (inr (inr h)) = rw h refl

  -- Take a pending request of a client whose message is GETCHILDREN, EXISTS or GETDATA. If it is
  -- committed and written without an error, and the round of the listener returns, the request is
  -- still pending.
  pub commit_one-read :
      (r : Request) (s s' : Server) (on : Bool) (p : PendingRequest) (obj : Object) (store : Store)
      (paths : List Str)
      → lookup r.req_number s.pending ≡ some p
      → p.is_from_client ≡ true
      → env.decode p.original_client_msg.message ≡ object obj
      → IsRead obj
      → write env.json r.content s.store ≡ (store, ok paths)
      → commit_one env r s ≡ some (s', on)
      → lookup r.req_number s'.pending ≡ some p
  unfolding commit_one
  commit_one-read r s s' on p obj store paths there client decoded reads wrote ran =
      let (t, triggered, more) =
        >>=-eq-some (trigger_watches env paths (record s { store = store })) _ (rw wrote at ran) in
      let still =
        trigger_watches-kept paths (record s { store = store }) t r.req_number p triggered there in
      let last =
        rw (still, client, decoded, answer-read obj p.original_client_msg paths t reads) at more in
      let e : t ≡ s' = ap (λ (x : Server × Bool). x.0) (some_inj last) in
      ap (λ (x : Server). lookup r.req_number x.pending) (sym e) ∙ still
