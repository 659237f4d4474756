-- ===== src/Server/Sessions/Expiry.antt =====
-- removeExpiredSessions of main/server.go.
use dsc_zookeeper.Prelude.{
  ℕ, Str, str_eq, str_beq_iff, [], ◌∷◌, ◌==◌, Bool, true, false, Bool-cases, if◌then◌else◌, Option,
  none, some, >>=-eq-some, some_inj, none_ne_some, lookup, delete, lookup-delete, ◌≡◌, ◌⊎◌, refl,
  sym, ap, subst, ◌∙◌, inl, inr,
}
use dsc_zookeeper.Znode.Encode.{encode_delete_session}
use dsc_zookeeper.Server.State.{Env, Server, PendingRequest, no_message}
use dsc_zookeeper.Server.Requests.{generate_and_send_request}
use dsc_zookeeper.Server.Requests.Sent.{IsPending, generate_and_send_request-IsSent}
use dsc_zookeeper.Server.Sessions.{
  Timestamps, is_expired, forget_session, entries_of, expire, remove_expired_sessions,
}

-- A map has one entry for each key.
abbrev pub IsMap : Timestamps → Type 0
IsMap [] = Unit
IsMap ((id, t) ∷ m) = (lookup id m ≡ none) × IsMap m

-- The time of a session, without one that has expired.
abbrev pub keep : ℕ → Option ℕ → Option ℕ
keep now none = none
keep now (some t) = if is_expired now t then none else some t

-- The request that deletes a session.
abbrev pub deletion : Env → Str → PendingRequest
deletion env session_id = record {
  is_from_client = false;
  original_client_msg = no_message;
  request = encode_delete_session env.json session_id;
}

-- Whether the session is among the entries and has expired.
abbrev expires : ℕ → Option ℕ → Bool
expires now none = false
expires now (some t) = is_expired now t

module _ (env : Env) (now : ℕ) where
  -- What the loop over some of the entries does.
  record Expired (entries m : Timestamps) (s s' : Server) : Type 0 where
    pub left : Timestamps
    pub stored : s'.timestamps ≡ some left
    pub times :
        (id : Str)
        → lookup id left ≡ (if expires now (lookup id entries) then none else lookup id m)
    pub asked :
        (id : Str) (t : ℕ)
        → lookup id entries ≡ some t
        → is_expired now t ≡ true
        → IsPending (deletion env id) s'
    pub kept : (p : PendingRequest) → IsPending p s → IsPending p s'

  -- The entry in front of the others, under its key and under another one.
  lookup_head :
      (x id : Str) (t : ℕ) (entries : Timestamps)
      → (x == id) ≡ true
      → lookup id ((x, t) ∷ entries) ≡ some t
  unfolding lookup
  lookup_head x id t entries e = rw e refl

  lookup_tail :
      (x id : Str) (t : ℕ) (entries : Timestamps)
      → (x == id) ≡ false
      → lookup id ((x, t) ∷ entries) ≡ lookup id entries
  unfolding lookup
  lookup_tail x id t entries e = rw e refl

  single_key :
      (x id : Str) (entries : Timestamps)
      → lookup x entries ≡ none
      → (x == id) ≡ true
      → lookup id entries ≡ none
  single_key x id entries single e =
      ap (λ k. lookup k entries) (sym ((str_beq_iff x id).0 e)) ∙ single

  times_early :
      (x id : Str) (t : ℕ) (entries m : Timestamps)
      → lookup x entries ≡ none
      → is_expired now t ≡ false
      → (if expires now (lookup id entries) then none else lookup id m)
        ≡ (if expires now (lookup id ((x, t) ∷ entries)) then none else lookup id m)
  times_early x id t entries m single early = elim (Bool-cases (x == id)) [
    | inl e ↦
        let other = single_key x id entries single e in
        rw (lookup_head x id t entries e, other) (rw early refl)
    | inr e ↦ rw (lookup_tail x id t entries e) refl
  ]

  times_late :
      (x id : Str) (t : ℕ) (entries m : Timestamps)
      → lookup x entries ≡ none
      → is_expired now t ≡ true
      → (if expires now (lookup id entries) then none else lookup id (delete x m))
        ≡ (if expires now (lookup id ((x, t) ∷ entries)) then none else lookup id m)
  times_late x id t entries m single late = elim (Bool-cases (x == id)) [
    | inl e ↦
        let other = single_key x id entries single e in
        rw (lookup_head x id t entries e, other, late) (lookup-delete x id m ∙ rw e refl)
    | inr e ↦ rw (lookup_tail x id t entries e, lookup-delete x id m) (rw e refl)
  ]

  abbrev Asked : Server → Timestamps → Str → ℕ → Type 0
  Asked s entries id t =
      lookup id entries ≡ some t → is_expired now t ≡ true → IsPending (deletion env id) s

  early_request :
      (x : Str) (t : ℕ) (entries : Timestamps) (s : Server)
      → is_expired now t ≡ false
      → ((id : Str) (t' : ℕ) → Asked s entries id t')
      → (id : Str) (t' : ℕ) → Asked s ((x, t) ∷ entries) id t'
  early_request x t entries s early f id t' there expired = elim (Bool-cases (x == id)) [
    | inl e ↦
        let same : t ≡ t' = some_inj (sym (lookup_head x id t entries e) ∙ there) in absurd (cc)
    | inr e ↦ f id t' (sym (lookup_tail x id t entries e) ∙ there) expired
  ]

  late_request :
      (x : Str) (t : ℕ) (entries : Timestamps) (s : Server)
      → IsPending (deletion env x) s
      → ((id : Str) (t' : ℕ) → Asked s entries id t')
      → (id : Str) (t' : ℕ) → Asked s ((x, t) ∷ entries) id t'
  late_request x t entries s own f id t' there expired = elim (Bool-cases (x == id)) [
    | inl e ↦ subst (λ k. IsPending (deletion env k) s) ((str_beq_iff x id).0 e) own
    | inr e ↦ f id t' (sym (lookup_tail x id t entries e) ∙ there) expired
  ]

  expire-Expired :
      (entries m : Timestamps) (s s' : Server)
      → IsMap entries
      → s.timestamps ≡ some m
      → expire env now entries s ≡ some s'
      → Expired entries m s s'
  unfolding expire lookup
  expire-Expired [] m s s' distinct h ran = rw (← some_inj ran) (record {
    left = m;
    stored = h;
    times = λ id. refl;
    asked = λ id t e. absurd (none_ne_some _ refl e);
    kept = λ p q. q;
  })
  expire-Expired ((x, t) ∷ entries) m s s' (single, distinct) h ran =
      elim (Bool-cases (is_expired now t)) [
        | inr early ↦
            let r = expire-Expired entries m s s' distinct h (rw early at ran) in
            record {
              left = r.left;
              stored = r.stored;
              times = λ id. r.times id ∙ times_early x id t entries m single early;
              asked = early_request x t entries s' early r.asked;
              kept = r.kept;
            }
        | inl late ↦
            let (s1, sent, rest) =
              >>=-eq-some
                (generate_and_send_request env false (encode_delete_session env.json x) no_message
                  s)
                _ (rw late at ran) in
            let done =
              generate_and_send_request-IsSent env false (encode_delete_session env.json x)
                no_message s s1 sent in
            let r =
              expire-Expired entries (delete x m)
                (record s1 { timestamps = forget_session x s1.timestamps }) s' distinct
                (ap (forget_session x) (done.timestamps ∙ h)) rest in
            record {
              left = r.left;
              stored = r.stored;
              times = λ id. r.times id ∙ times_late x id t entries m single late;
              asked = late_request x t entries s' (r.kept _ done.pending) r.asked;
              kept = λ p (n, there). r.kept p (n, done.kept n p there);
            }
      ]

  kept_time : (o : Option ℕ) → (if expires now o then none else o) ≡ keep now o
  kept_time none = refl
  kept_time (some t) = refl

  -- If the timers are a map and removeExpiredSessions returns, each timer is left if it has not
  -- run out and is dropped if it has. A session with a timer that has run out has none
  -- afterwards, and the request that deletes the session is pending; a session with another timer
  -- keeps it.
  pub remove_expired_sessions-times :
      (m : Timestamps) (s s' : Server) (id : Str) (t : ℕ)
      → IsMap m
      → s.timestamps ≡ some m
      → lookup id m ≡ some t
      → remove_expired_sessions env now s ≡ some s'
      → (left : Timestamps) × (s'.timestamps ≡ some left)
        × ((other : Str) → lookup other left ≡ keep now (lookup other m))
        × ((is_expired now t ≡ true) × (lookup id left ≡ none) × IsPending (deletion env id) s'
            ⊎ (is_expired now t ≡ false) × (lookup id left ≡ some t))
  unfolding remove_expired_sessions
  remove_expired_sessions-times m s s' id t distinct h there ran =
      let r =
        expire-Expired m m s s' distinct h
          (ap (λ e. expire env now (entries_of env e) s) (sym h) ∙ ran) in
      (
        r.left,
        r.stored,
        (λ other. r.times other ∙ kept_time (lookup other m)),
        elim (Bool-cases (is_expired now t)) [
          | inl late ↦ inl (late, r.times id ∙ rw (there, late) refl, r.asked id t there late)
          | inr early ↦ inr (early, r.times id ∙ rw (there, early) refl)
        ],
      )
