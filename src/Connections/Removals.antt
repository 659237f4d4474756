-- ===== src/Connections/Removals.antt =====
-- The rounds of removeConnectionManager of internal/ConnectionManager/connection_manager.go until
-- its channel is empty.
use dsc_zookeeper.Prelude.{
  ℕ, zero, suc, Str, str_eq, List, [], ◌∷◌, ◌++◌, append_assoc, append-nil, map, length, Bool,
  Bool-cases, false, not, ◌==◌, ◌||◌, if◌then◌else◌, Option, none, some, lookup-delete, ◌≡◌, refl,
  sym, ap, ◌∙◌, inl, inr, arith,
}
use dsc_zookeeper.Connections.{
  Conn, NamedConnection, Network, SafeConnectionMap, Env, load, remove, remove_connection_manager,
}

-- Whether a node is in a list of nodes.
unfoldable pub is_among : Str → List Str → Bool
is_among name [] = false
is_among name (x ∷ xs) = (x == name) || is_among name xs

pub is_among-append :
    (name : Str) (xs ys : List Str)
    → is_among name (xs ++ ys) ≡ (is_among name xs || is_among name ys)
unfolding is_among
is_among-append name [] ys = refl
is_among-append name (x ∷ xs) ys = rw (is_among-append name xs ys, is_among) (ground arith)

abbrev pub remotes : List NamedConnection → List Str
remotes chan = map (λ (n : NamedConnection). n.remote) chan

module _ (env : Env) where
  -- That many rounds of removeConnectionManager.
  unfoldable pub removals : ℕ → Network → Network
  removals zero s = s
  removals (suc n) s = removals n (remove_connection_manager env s)

  -- A connection on which a write fails.
  abbrev pub is_broken : Option Conn → Bool
  is_broken none = false
  is_broken (some c) = not (env.accepts c)

  removed-first :
      (named : NamedConnection) (chan : List NamedConnection) (s : Network)
      → s.remove_write_chan ≡ named ∷ chan
      → remove_connection_manager env s ≡ record s {
        remove_write_chan = chan;
        write_map = remove named.remote s.write_map;
        closed = s.closed ++ named.connection ∷ [];
        failed_sends = s.failed_sends ++ named.remote ∷ [];
      }
  unfolding remove_connection_manager
  removed-first named chan s e = rw e refl

  load-remove :
      (name other : Str) (names : List Str) (m : SafeConnectionMap)
      → (if is_among other names then none else load other (remove name m))
        ≡ (if (name == other) || is_among other names then none else load other m)
  unfolding load remove
  load-remove name other names m = elim (Bool-cases (name == other)) [
    | inl same ↦ elim (Bool-cases (is_among other names)) [
      | inl there ↦ rw (same, there) refl
      | inr away ↦ rw (same, away) (lookup-delete name other m ∙ rw same refl)
    ]
    | inr different ↦ rw different (
        ap (λ (o : Option Conn). if is_among other names then none else o)
          (lookup-delete name other m ∙ rw different refl))
  ]

  -- The rounds over all that the channel holds.
  pub removals-all :
      (chan : List NamedConnection) (s : Network) (other : Str)
      → s.remove_write_chan ≡ chan
      → let t = removals (length chan) s in
        (load other t.write_map
          ≡ (if is_among other (remotes chan) then none else load other s.write_map))
        × (t.failed_sends ≡ s.failed_sends ++ remotes chan)
        × (t.remove_write_chan ≡ [])
  unfolding removals is_among
  removals-all [] s other e = (refl, sym (append-nil s.failed_sends), e)
  removals-all (named ∷ chan) s other e =
      let t = remove_connection_manager env s in
      let at = removed-first named chan s e in
      let (left, reported, empty) =
        removals-all chan t other (ap (λ (x : Network). x.remove_write_chan) at) in
      (
        left
            ∙ ap
                (λ (x : Network).
                  if is_among other (remotes chan) then none else load other x.write_map)
                at
            ∙ load-remove named.remote other (remotes chan) s.write_map,
        reported
            ∙ ap (λ (x : Network). x.failed_sends ++ remotes chan) at
            ∙ append_assoc s.failed_sends (named.remote ∷ []) (remotes chan),
        empty,
      )
