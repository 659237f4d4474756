-- ===== src/Server/Committed/Kept.antt =====
-- The pending requests of main/server.go over the rounds of committedListener.
use dsc_zookeeper.Prelude.{
  ℕ, Str, str_eq, nat_eq, List, [], ◌∷◌, Bool, true, false, ◌==◌, ◌&&◌, if◌then◌else◌, Option, none,
  some, ◌>>=◌, >>=-eq-some, some_inj, lookup, lookup-delete, codes, ◌≡◌, sym, ap, subst, ◌∙◌, inl,
  inr, Bool-cases, Option-cases, All, Bytes,
}
use dsc_zookeeper.Proposals.Types.{NetworkMessage, Request}
use dsc_zookeeper.Znode.Types.{Outcome, ok, err, panic}
use dsc_zookeeper.Znode.Store.{Store, get_children}
use dsc_zookeeper.Znode.Write.{write}
use dsc_zookeeper.Znode.Watch.{encode_watch}
use dsc_zookeeper.Server.State.{
  Env, Server, PendingRequest, Object, get_text, field, as_flag, as_object, value_or,
  send_json_message_to_client,
}
use dsc_zookeeper.Server.Requests.{generate_and_send_request}
use dsc_zookeeper.Server.Requests.Sent.{generate_and_send_request-IsSent}
use dsc_zookeeper.Server.Topics.{next_msg_num, message_path}
use dsc_zookeeper.Server.Commands.{create_message, with_newtopic}
use dsc_zookeeper.Server.Committed.{
  Answer, answer, answer_start_session, answer_publish, answer_subscribe, answer_get_subscription,
  is_empty, is_kind, forget, respond, finish, written, commit_one, committed_listener,
  trigger_watches,
}
use dsc_zookeeper.Server.Committed.Answers.{trigger_watches-kept}

-- The request is pending in the state that a step leaves, if it leaves one.
abbrev pub Keeps {ℓ} : {A : Type ℓ} → ℕ → PendingRequest → Option (A × Server) → Type 0
Keeps id p none = Unit
Keeps id p (some (x, s)) = lookup id s.pending ≡ some p

module _ (env : Env) (id : ℕ) (p : PendingRequest) where
  bind-Keeps :
      {A : Type 0}
      → (o : Option A) (f : A → Answer env) → ((x : A) → Keeps id p (f x))
      → Keeps id p (o >>= f)
  bind-Keeps none f h = tt
  bind-Keeps (some x) f h = h x

  if-Keeps :
      (b : Bool) (x y : Answer env) → Keeps id p x → Keeps id p y → Keeps id p (if b then x else y)
  if-Keeps true x y h k = h
  if-Keeps false x y h k = k

  -- A request that is sent, and then an answer.
  sent-Keeps :
      (content : Bytes) (msg : NetworkMessage) (reply : Object) (s : Server)
      → lookup id s.pending ≡ some p
      → Keeps id p (do s' ← generate_and_send_request env true content msg s; some (some reply, s'))
  sent-Keeps content msg reply s there =
      elim (Option-cases (generate_and_send_request env true content msg s)) [
        | inl stopped ↦ rw stopped tt
        | inr (t, sent) ↦
            rw sent
              ((generate_and_send_request-IsSent env true content msg s t sent).kept id p there)
      ]

  answer_start_session-Keeps :
      (msg : NetworkMessage) (paths : List Str) (s : Server)
      → lookup id s.pending ≡ some p
      → Keeps id p (answer_start_session env msg paths s)
  unfolding answer_start_session
  answer_start_session-Keeps msg [] s there = tt
  answer_start_session-Keeps msg (path ∷ paths) s there = there

  answer_publish-Keeps :
      (obj : Object) (msg : NetworkMessage) (s : Server)
      → lookup id s.pending ≡ some p
      → Keeps id p (answer_publish env obj msg s)
  unfolding answer_publish
  answer_publish-Keeps obj msg s there = bind-Keeps (get_text obj (codes "topic")) _ λ topic.
      bind-Keeps (value_or [] (get_children s.store topic)) _ λ children.
        if-Keeps (is_empty children) _ _
          (bind-Keeps (get_text obj (codes "data")) _ λ content.
            bind-Keeps (get_text obj (codes "session_id")) _
              λ session_id. sent-Keeps (create_message env topic content session_id) msg _ s there)
          there

  answer_subscribe-Keeps :
      (obj : Object) (msg : NetworkMessage) (s : Server)
      → lookup id s.pending ≡ some p
      → Keeps id p (answer_subscribe env obj msg s)
  unfolding answer_subscribe
  answer_subscribe-Keeps obj msg s there =
      bind-Keeps (as_flag (field obj (codes "newtopic"))) _ λ is_new.
        bind-Keeps (get_text obj (codes "topic")) _ λ topic.
          bind-Keeps (value_or [] (get_children s.store topic)) _ λ children.
            if-Keeps is_new _ _
              (bind-Keeps (get_text obj (codes "session_id")) _ λ session_id.
                bind-Keeps
                  (value_or (s.watches, [])
                    (encode_watch env.json s.store s.watches session_id
                      (message_path topic (next_msg_num children)) true))
                  _
                  λ (w, request).
                    sent-Keeps request (with_newtopic env false obj msg) _
                      (record s { watches = w }) there)
              there

  answer_get_subscription-Keeps :
      (obj : Object) (s : Server)
      → lookup id s.pending ≡ some p
      → Keeps id p (answer_get_subscription env obj s)
  unfolding answer_get_subscription
  answer_get_subscription-Keeps obj s there =
      bind-Keeps (get_text obj (codes "topic")) _
        λ topic. bind-Keeps (value_or [] (get_children s.store topic)) _ λ children. there

  answer-Keeps :
      (obj : Object) (msg : NetworkMessage) (paths : List Str) (s : Server)
      → lookup id s.pending ≡ some p
      → Keeps id p (answer env obj msg paths s)
  unfolding answer
  answer-Keeps obj msg paths s there =
      if-Keeps (is_kind obj (codes "START_SESSION")) _ _
        (answer_start_session-Keeps msg paths s there)
        (if-Keeps (is_kind obj (codes "END_SESSION")) _ _ there (
          if-Keeps (is_kind obj (codes "PUBLISH")) _ _ (answer_publish-Keeps obj msg s there) (
            if-Keeps (is_kind obj (codes "SUBSCRIBE")) _ _ (answer_subscribe-Keeps obj msg s there)
              (if-Keeps (is_kind obj (codes "GET_SUBSCRIPTION")) _ _
                (answer_get_subscription-Keeps obj s there)
                (if-Keeps (is_kind obj (codes "CREATE")) _ _
                  (if-Keeps (env.test_mode == codes "mode5" && env.name == codes "server1") _ _ tt
                    there)
                  (if-Keeps (is_kind obj (codes "DELETE")) _ _ there (
                    if-Keeps (is_kind obj (codes "SETDATA")) _ _ there
                      (if-Keeps (is_kind obj (codes "SYNC")) _ _ there there))))))))

  -- The same of a step that leaves a state only.
  abbrev Stays : Option Server → Type 0
  Stays none = Unit
  Stays (some s) = lookup id s.pending ≡ some p

  forget-Stays :
      (n : ℕ) (s : Server)
      → (n == id) ≡ false
      → lookup id s.pending ≡ some p
      → lookup id (forget env n s).pending ≡ some p
  forget-Stays n s other there = lookup-delete n id s.pending ∙ rw other there

  respond-Stays :
      (n : ℕ) (client : Str) (answered : Answer env)
      → (n == id) ≡ false
      → Keeps id p answered
      → Stays (answered >>= respond env n client)
  unfolding send_json_message_to_client
  respond-Stays n client none other h = tt
  respond-Stays n client (some (none, s)) other h = h
  respond-Stays n client (some (some obj, s)) other h =
      elim (Bool-cases (env.test_mode == codes "mode1" && env.name == codes "server1")) [
        | inl ends ↦ rw ends tt
        | inr goes_on ↦
            rw goes_on (forget-Stays n (send_json_message_to_client obj client s) other h)
      ]

  from_client-Stays :
      (n : ℕ) (paths : List Str) (q : PendingRequest) (obj : Option Object) (s : Server)
      → (n == id) ≡ false
      → lookup id s.pending ≡ some p
      → Stays (do
        o ← obj
        answered ← answer env o q.original_client_msg paths s
        respond env n q.original_client_msg.remote answered)
  from_client-Stays n paths q none s other there = tt
  from_client-Stays n paths q (some obj) s other there =
      respond-Stays n q.original_client_msg.remote (answer env obj q.original_client_msg paths s)
        other (answer-Keeps obj q.original_client_msg paths s there)

  finish-Stays :
      (n : ℕ) (paths : List Str) (q : Option PendingRequest) (s : Server)
      → (n == id) ≡ false
      → lookup id s.pending ≡ some p
      → Stays (finish env n paths q s)
  finish-Stays n paths none s other there = forget-Stays n s other there
  finish-Stays n paths (some q) s other there = elim (Bool-cases q.is_from_client) [
    | inl client ↦ rw client (
        from_client-Stays n paths q (as_object (env.decode q.original_client_msg.message)) s other
          there)
    | inr own ↦ rw own (forget-Stays n s other there)
  ]

  written-Keeps :
      (n : ℕ) (store : Store) (o : Outcome (List Str)) (s t : Server) (on : Bool)
      → (n == id) ≡ false
      → lookup id s.pending ≡ some p
      → written env n (store, o) s ≡ some (t, on)
      → lookup id t.pending ≡ some p
  written-Keeps n store (ok paths) s t on other there ran =
      let (u, triggered, more) =
        >>=-eq-some (trigger_watches env paths (record s { store = store })) _ ran in
      let still =
        trigger_watches-kept env paths (record s { store = store }) u id p triggered there in
      let (v, finished, last) = >>=-eq-some (finish env n paths (lookup n u.pending) u) _ more in
      let e : v ≡ t = ap (λ (x : Server × Bool). x.0) (some_inj last) in
      let stays : Stays (some v) =
        subst Stays finished (finish-Stays n paths (lookup n u.pending) u other still) in
      ap (λ (x : Server). lookup id x.pending) (sym e) ∙ stays
  written-Keeps n store (err x) s t on other there ran =
      let e : record s { store = store } ≡ t = ap (λ (x : Server × Bool). x.0) (some_inj ran) in
      ap (λ (x : Server). lookup id x.pending) (sym e) ∙ there
  written-Keeps n store panic s t on other there ran = absurd (cc)

  commit_one-kept :
      (r : Request) (s t : Server) (on : Bool)
      → (r.req_number == id) ≡ false
      → lookup id s.pending ≡ some p
      → commit_one env r s ≡ some (t, on)
      → lookup id t.pending ≡ some p
  unfolding commit_one
  commit_one-kept r s t on other there ran =
      written-Keeps r.req_number (write env.json r.content s.store).0
        (write env.json r.content s.store).1 s t on other there ran

  -- If a request is pending, committed requests with other numbers are handed to the listener,
  -- and the listener runs through them or returns at one of them, then the request is pending
  -- afterwards, with the same message of the client and the same content.
  pub committed_listener-kept :
      (rs : List Request) (s t : Server) (on : Bool)
      → All (λ r. (r.req_number == id) ≡ false) rs
      → lookup id s.pending ≡ some p
      → committed_listener env rs s ≡ some (t, on)
      → lookup id t.pending ≡ some p
  unfolding committed_listener
  committed_listener-kept [] s t on others there ran =
      let e : s ≡ t = ap (λ (x : Server × Bool). x.0) (some_inj ran) in
      ap (λ (x : Server). lookup id x.pending) (sym e) ∙ there
  committed_listener-kept (r ∷ rs) s t on (other, others) there ran =
      let ((u, listening), one, more) = >>=-eq-some (commit_one env r s) _ ran in
      let still = commit_one-kept r s u listening other there one in
      elim (Bool-cases listening) [
        | inl goes_on ↦ committed_listener-kept rs u t on others still (rw goes_on at more)
        | inr stops ↦
            let e : u ≡ t = ap (λ (x : Server × Bool). x.0) (some_inj (rw stops at more)) in
            ap (λ (x : Server). lookup id x.pending) (sym e) ∙ still
      ]
