-- ===== src/Server/Committed/Ends.antt =====
-- committedListener of main/server.go when a sync request is committed.
use dsc_zookeeper.Prelude.{
  str_eq, str_beq, List, [], ◌∷◌, ◌++◌, Bool, true, false, if◌then◌else◌, Option, some, ◌>>=◌,
  codes, ◌≡◌, refl, inl, inr, Option-cases,
}
use dsc_zookeeper.Proposals.Types.{Request}
use dsc_zookeeper.Znode.Write.{write, write_request}
use dsc_zookeeper.Server.State.{Env, Server}
use dsc_zookeeper.Server.Committed.{commit_one, committed_listener}

-- The listener has returned.
abbrev pub returned : Server × Bool → Option (Server × Bool)
returned (s, on) = some (s, false)

module _ (env : Env) (r : Request)
    (content : env.json.requests.unmarshal r.content
      ≡ (record { request = codes "sync"; znodes = [] }, true)) where
  commit_one-sync : (s : Server) → commit_one env r s ≡ some (s, false)
  unfolding commit_one write write_request str_beq
  commit_one-sync s = rw content refl

  go_on :
      (rs : List Request) (s : Server) (after : List Request) (on : Bool)
      → committed_listener env (rs ++ r ∷ after) s ≡ (committed_listener env rs s >>= returned)
      → (if on then committed_listener env (rs ++ r ∷ after) s else some (s, false))
        ≡ ((if on then committed_listener env rs s else some (s, false)) >>= returned)
  go_on rs s after true h = h
  go_on rs s after false h = refl

  -- If a request among the committed ones has a sync request as its content, the listener does
  -- what it does on the requests in front of it and has returned: none of the requests behind it
  -- has an effect.
  pub committed_listener-sync :
      (before after : List Request) (s : Server)
      → committed_listener env (before ++ r ∷ after) s
        ≡ (committed_listener env before s >>= returned)
  unfolding committed_listener
  committed_listener-sync [] after s = rw (commit_one-sync s) refl
  committed_listener-sync (q ∷ before) after s = elim (Option-cases (commit_one env q s)) [
    | inl stopped ↦ rw stopped refl
    | inr ((t, on), ran) ↦ rw ran (go_on before t after on (committed_listener-sync before after t))
  ]
