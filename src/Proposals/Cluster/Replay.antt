-- ===== src/Proposals/Cluster/Replay.antt =====
-- What the messages of the coordinator do to the requests that a follower has committed and holds.
use dsc_zookeeper.Prelude.{
  Str, List, [], ◌∷◌, ◌++◌, map, Option, none, some, ◌>>=◌, >>=-eq-some, if◌then◌else◌, ◌≡◌, refl,
  ap, Bool-cases, inl, inr,
}
use dsc_zookeeper.Proposals.Types.{
  ZabMessage, ZabMessageType, ToSendMessage, Proposal, ProposalType, Request, commit, state_change,
  new_leader, prop, err, sync_err, req, ack,
}
use dsc_zookeeper.Proposals.State.{Env, Zab}
use dsc_zookeeper.Proposals.Order.{request_of}
use dsc_zookeeper.Proposals.Cluster.{reaches}

-- The requests that are committed, and those that are held.
abbrev pub View : Type 0
View = List Request × List Request

unfoldable pub commit_one : View → Option View
commit_one (done, []) = none
commit_one (done, r ∷ held) = some (done ++ r ∷ [], held)

module _ {C : Type 0} (env : Env C) where
  abbrev pub view : Zab C → View
  view s = (s.to_commit_chan, map (request_of env) s.proposals_queue.items)

  -- `none` for what the coordinator does not send in an epoch.
  unfoldable pub replay_proposal : ProposalType → Proposal → View → Option View
  replay_proposal state_change p (done, held) = some (done, held ++ request_of env p ∷ [])
  replay_proposal commit p v = commit_one v
  replay_proposal new_leader p v = none
  replay_proposal (ProposalType.unknown k) p v = none

  unfoldable pub replay_type : ZabMessageType → ZabMessage → View → Option View
  replay_type prop m v =
      let p = (env.proposal_codec.unmarshal m.content).0 in replay_proposal p.prop_type p v
  replay_type err m v = some v
  replay_type sync_err m v = some v
  replay_type req m v = none
  replay_type ack m v = none
  replay_type (ZabMessageType.unknown k) m v = none

  abbrev pub replay_one : ZabMessage → View → Option View
  replay_one m v = replay_type m.zab_type m v

  unfoldable pub replay : List ZabMessage → View → Option View
  replay [] v = some v
  replay (m ∷ ms) v = do v' ← replay_one m v; replay ms v'

  pub replay-nil : (v : View) → replay [] v ≡ some v
  unfolding replay
  replay-nil v = refl

  pub replay-cons :
      (m : ZabMessage) (ms : List ZabMessage) (v v' : View)
      → replay_one m v ≡ some v'
      → replay (m ∷ ms) v ≡ replay ms v'
  unfolding replay
  replay-cons m ms v v' h = rw (h, replay) refl

  pub replay-append :
      (xs ys : List ZabMessage) (v v' : View)
      → replay xs v ≡ some v'
      → replay (xs ++ ys) v ≡ replay ys v'
  unfolding replay
  replay-append [] ys v v' h = ap (λ (o : Option View). o >>= replay ys) h
  replay-append (x ∷ xs) ys v v' h =
      let (u, e, k) = >>=-eq-some (replay_one x v) (replay xs) h in
      rw e (replay-append xs ys u v' k)

  -- The messages of the queue that go to a server.
  unfoldable pub for_server : Str → List ToSendMessage → List ZabMessage
  for_server name [] = []
  for_server name (m ∷ ms) =
      let rest = for_server name ms in if reaches env m name then m.msg ∷ rest else rest

  pub for_server-append :
      (name : Str) (xs ys : List ToSendMessage)
      → for_server name (xs ++ ys) ≡ for_server name xs ++ for_server name ys
  unfolding for_server
  for_server-append name [] ys = refl
  for_server-append name (x ∷ xs) ys = elim (Bool-cases (reaches env x name)) [
    | inl e ↦ rw e (ap (◌∷◌ x.msg) (for_server-append name xs ys))
    | inr e ↦ rw e (for_server-append name xs ys)
  ]
