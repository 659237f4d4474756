-- ===== src/Znode/Watch/Trigger.antt =====
-- Check_watch of watch.go on the watch cache.
use dsc_zookeeper.Prelude.{
  Str, str_eq, Bytes, List, [], ◌∷◌, ◌++◌, Bool, true, false, ◌||◌, ◌==◌, if◌then◌else◌, delete,
  lookup-delete, ◌≡◌, ◌∙◌, ◌≢◌, refl, sym, ap, arith, ◌⊎◌, inl, inr,
}
use dsc_zookeeper.Znode.Types.{ZNode, ZnodeError, Outcome, ok, err, panic, Json}
use dsc_zookeeper.Znode.Store.{Store}
use dsc_zookeeper.Znode.Watch.{
  WatchCache, get_watching_sessions, trigger_all, check_paths, check_watch,
}

abbrev pub among : Str → List Str → Bool
among path [] = false
among path (x ∷ xs) = x == path || among path xs

abbrev without : WatchCache → Str → WatchCache
without w path = record w { watches = delete path w.watches }

watching-without :
    (w : WatchCache) (path other : Str)
    → get_watching_sessions (without w path) other
      ≡ (if path == other then [] else get_watching_sessions w other)
unfolding get_watching_sessions
watching-without w path other = ground (arith, lookup-delete path other w.watches)

Outcome-cases :
    {A : Type 0} (o : Outcome A)
    → ((a : A) × (o ≡ ok a)) ⊎ (((e : ZnodeError) × (o ≡ err e)) ⊎ (o ≡ panic))
Outcome-cases (ok a) = inl (a, refl)
Outcome-cases (err e) = inr (inl (e, refl))
Outcome-cases panic = inr (inr refl)

module _ (json : Json) (store : Store) where
  module _ (x : Str) (xs : List Str) (w : WatchCache) (znodes : List ZNode)
      (sessions : List Str) where
    check_paths-go :
        (zs : List ZNode)
        → trigger_all json store x (get_watching_sessions w x) ≡ ok zs
        → check_paths json store w (x ∷ xs) znodes sessions
          ≡ check_paths json store
              (without w x)
              xs
              (znodes ++ zs)
              (sessions ++ get_watching_sessions w x)
    unfolding check_paths
    check_paths-go zs e = rw (e, check_paths) refl

    check_paths-err :
        (z : ZnodeError)
        → trigger_all json store x (get_watching_sessions w x) ≡ err z
        → check_paths json store w (x ∷ xs) znodes sessions ≡ (w, err z)
    unfolding check_paths
    check_paths-err z e = rw (e, check_paths) refl

    check_paths-panic :
        trigger_all json store x (get_watching_sessions w x) ≡ panic
        → check_paths json store w (x ∷ xs) znodes sessions ≡ (w, panic)
    unfolding check_paths
    check_paths-panic e = rw (e, check_paths) refl

  check_paths-nil :
      (w : WatchCache) (znodes : List ZNode) (sessions : List Str)
      → (check_paths json store w [] znodes sessions).0 ≡ w
  unfolding check_paths
  check_paths-nil w znodes sessions = refl

  check_paths-cleared :
      (paths : List Str) (w w' : WatchCache) (znodes : List ZNode) (sessions : List Str)
      (result : Bytes × List Str) (path : Str)
      → check_paths json store w paths znodes sessions ≡ (w', ok result)
      → get_watching_sessions w' path
        ≡ (if among path paths then [] else get_watching_sessions w path)
  check_paths-cleared [] w w' znodes sessions result path h =
      ap (λ (r : WatchCache × Outcome (Bytes × List Str)). get_watching_sessions r.0 path) (sym h)
      ∙ ap (λ (c : WatchCache). get_watching_sessions c path) (check_paths-nil w znodes sessions)
  check_paths-cleared (x ∷ xs) w w' znodes sessions result path h =
      elim (Outcome-cases (trigger_all json store x (get_watching_sessions w x))) [
        | inl (zs, e) ↦
            let rest =
              check_paths-cleared xs (without w x) w' (znodes ++ zs)
                (sessions ++ get_watching_sessions w x) result path
                (sym (check_paths-go x xs w znodes sessions zs e) ∙ h) in
            ground (arith, rest, watching-without w x path)
        | inr (inl (z, e)) ↦ absurd (
            failed w w' (err z) result (sym (check_paths-err x xs w znodes sessions z e) ∙ h)
              (λ r q. cc))
        | inr (inr e) ↦ absurd (
            failed w w' panic result (sym (check_paths-panic x xs w znodes sessions e) ∙ h)
              (λ r q. cc))
      ]
    where
      failed :
          (w w' : WatchCache) (o : Outcome (Bytes × List Str)) (result : Bytes × List Str)
          → ◌≡◌ {A = WatchCache × Outcome (Bytes × List Str)} (w, o) (w', ok result)
          → ((r : Bytes × List Str) → o ≢ ok r)
          → ⊥
      failed w w' o result h never =
          never result (ap (λ (r : WatchCache × Outcome (Bytes × List Str)). r.1) h)

  check_watch-on :
      (w : WatchCache) (paths : List Str)
      → w.is_init ≡ true
      → check_watch json store w paths ≡ check_paths json store w paths [] []
  unfolding check_watch
  check_watch-on w paths on = rw (on, check_watch) refl

  -- When a check of the watches of some paths succeeds on a cache that was set up, nobody watches
  -- any of these paths any more, and the sessions that watch another path are as they were.
  pub check_watch-cleared :
      (paths : List Str) (w w' : WatchCache) (result : Bytes × List Str) (path : Str)
      → w.is_init ≡ true
      → check_watch json store w paths ≡ (w', ok result)
      → get_watching_sessions w' path
        ≡ (if among path paths then [] else get_watching_sessions w path)
  check_watch-cleared paths w w' result path on h =
      check_paths-cleared paths w w' [] [] result path (sym (check_watch-on w paths on) ∙ h)
