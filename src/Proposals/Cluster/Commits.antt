-- ===== src/Proposals/Cluster/Commits.antt =====
-- What the servers of a cluster have committed, in every state that it reaches in one epoch.
use dsc_zookeeper.Prelude.{
  str_eq, List, [], ◌∷◌, ◌++◌, append_assoc, append-nil, false, ◌==◌, some, >>=-eq-some, some_inj,
  none_ne_some, ◌≡◌, ◌⊎◌, inl, inr, ◌∙◌, refl, sym, ap, subst, IsExact, All,
}
use dsc_zookeeper.Proposals.Types.{
  ZabMessage, ZabMessageType, Proposal, ProposalType, Request, commit, state_change, new_leader,
  prop, err, sync_err, req, ack,
}
use dsc_zookeeper.Proposals.State.{Env, Zab}
use dsc_zookeeper.Proposals.Process.{process_zab_message}
use dsc_zookeeper.Proposals.Order.{request_of, history}
use dsc_zookeeper.Proposals.Cluster.{Follower, Cluster, Reach, follower_env, send_zab_message}
use dsc_zookeeper.Proposals.Cluster.Replay.{
  View, view, commit_one, replay_proposal, replay_type, replay_one, replay, replay-nil,
}
use dsc_zookeeper.Proposals.Cluster.Receives.{process_zab_message-IsAt}
use dsc_zookeeper.Proposals.Cluster.Invariant.{
  in_flight, IsInStep, AreInStep, Reach-AreInStep, replay_head,
}

-- The second list goes on where the first one ends.
abbrev pub IsPrefix : List Request → List Request → Type 0
IsPrefix xs ys = (rest : List Request) × (ys ≡ xs ++ rest)

IsPrefix-refl : (xs : List Request) → IsPrefix xs xs
IsPrefix-refl xs = ([], sym (append-nil xs))

IsPrefix-trans : (xs ys zs : List Request) → IsPrefix xs ys → IsPrefix ys zs → IsPrefix xs zs
IsPrefix-trans xs ys zs (r, e) (q, h) =
    (r ++ q, h ∙ ap (λ (l : List Request). l ++ q) e ∙ append_assoc xs r q)

-- Of two prefixes of a list, one is a prefix of the other.
prefixes_agree :
    (xs ys zs : List Request) → IsPrefix xs zs → IsPrefix ys zs → IsPrefix xs ys ⊎ IsPrefix ys xs
prefixes_agree [] ys zs p q = inl (ys, refl)
prefixes_agree (x ∷ xs) [] zs p q = inr (x ∷ xs, refl)
prefixes_agree (x ∷ xs) (y ∷ ys) [] (r, e) q = absurd (cc)
prefixes_agree (x ∷ xs) (y ∷ ys) (z ∷ zs) (r, e) (q, h) =
    let head : x ≡ y = cc in
    elim (prefixes_agree xs ys zs (r, cc) (q, cc)) [
      | inl (t, k) ↦ inl (t, cc)
      | inr (t, k) ↦ inr (t, cc)
    ]

-- What is committed, and with it what is held, only grows.
abbrev Extends : View → View → Type 0
Extends v w = IsPrefix v.0 w.0 × IsPrefix (v.0 ++ v.1) (w.0 ++ w.1)

commit_one-Extends : (v w : View) → commit_one v ≡ some w → Extends v w
unfolding commit_one
commit_one-Extends (done, []) w h = absurd (none_ne_some _ refl h)
commit_one-Extends (done, r ∷ held) w h =
    let e = some_inj h in
    rw (← e)
      ((r ∷ [], refl), ([], append_assoc done (r ∷ []) held ∙ sym (append-nil (done ++ r ∷ held))))

module _ {C : Type 0} (env : Env C) where
  proposal-Extends :
      (k : ProposalType) (p : Proposal) (v w : View)
      → replay_proposal env k p v ≡ some w
      → Extends v w
  unfolding replay_proposal
  proposal-Extends state_change p (done, held) w h = rw (← some_inj h) (
    IsPrefix-refl done,
    (request_of env p ∷ [], sym (append_assoc done held (request_of env p ∷ []))),
  )
  proposal-Extends commit p v w h = commit_one-Extends v w h
  proposal-Extends new_leader p v w h = absurd (none_ne_some _ refl h)
  proposal-Extends (ProposalType.unknown k) p v w h = absurd (none_ne_some _ refl h)

  same-Extends : (v w : View) → v ≡ w → Extends v w
  same-Extends v w e = rw (← e) (IsPrefix-refl v.0, IsPrefix-refl (v.0 ++ v.1))

  type-Extends :
      (k : ZabMessageType) (m : ZabMessage) (v w : View)
      → replay_type env k m v ≡ some w
      → Extends v w
  unfolding replay_type
  type-Extends prop m v w h =
      let p = (env.proposal_codec.unmarshal m.content).0 in proposal-Extends p.prop_type p v w h
  type-Extends err m v w h = same-Extends v w (some_inj h)
  type-Extends sync_err m v w h = same-Extends v w (some_inj h)
  type-Extends req m v w h = absurd (none_ne_some _ refl h)
  type-Extends ack m v w h = absurd (none_ne_some _ refl h)
  type-Extends (ZabMessageType.unknown k) m v w h = absurd (none_ne_some _ refl h)

  replay-Extends : (ms : List ZabMessage) (v w : View) → replay env ms v ≡ some w → Extends v w
  unfolding replay
  replay-Extends [] v w h = same-Extends v w (some_inj h)
  replay-Extends (m ∷ ms) v w h =
      let (u, first, rest) = >>=-eq-some (replay_one env m v) (replay env ms) h in
      let one = type-Extends m.zab_type m v u first in
      let more = replay-Extends ms u w rest in
      (IsPrefix-trans _ _ _ one.0 more.0, IsPrefix-trans _ _ _ one.1 more.1)

  All-middle :
      (P : Follower C → Type 0) (before after : List (Follower C)) (f : Follower C)
      → All P (before ++ f ∷ after)
      → P f
  All-middle P [] after f h = h.0
  All-middle P (g ∷ before) after f h = All-middle P before after f h.1

  module _ (named : (env.name == []) ≡ false) (leads : env.coordinator ≡ env.name)
      (ze : IsExact env.zab_codec) (pe : IsExact env.proposal_codec) (c d : Cluster C)
      (start : AreInStep env c) (run : Reach env c d) where
    at :
        (before after : List (Follower C)) (f : Follower C)
        → d.followers ≡ before ++ f ∷ after
        → IsInStep env d.leader f
    at before after f e = All-middle (IsInStep env d.leader) before after f (
        subst (All (IsInStep env d.leader)) e (Reach-AreInStep env named leads ze pe c d run start))

    -- Take a cluster whose coordinator has a name and follows itself, with JSON that reads back
    -- every ZabMessage and every Proposal, and start where each follower is in step: it is
    -- another server of the ring, is not catching up, and would hold and commit what the
    -- coordinator has if it handled everything on its way. In every cluster that is reached by
    -- steps of one epoch, what a follower has committed is a prefix of what the coordinator has
    -- committed, and its history of committed and held requests is a prefix of the coordinator's.
    pub Reach-IsPrefix :
        (before after : List (Follower C)) (f : Follower C)
        → d.followers ≡ before ++ f ∷ after
        → IsPrefix f.state.to_commit_chan d.leader.to_commit_chan
          × IsPrefix (history env f.state) (history env d.leader)
    Reach-IsPrefix before after f e =
        replay-Extends (in_flight env d.leader f) (view env f.state) (view env d.leader)
          (at before after f e).replayed

    -- Take a cluster that is reached by steps of one epoch from one where every follower is in
    -- step (a served server that is not catching up, and would hold and commit what the
    -- coordinator has if it handled everything on its way). The coordinator has a name and
    -- follows itself, and JSON reads back every ZabMessage and every Proposal. Then of what any
    -- two followers have committed, one is a prefix of the other.
    pub Reach-agree :
        (before after before' after' : List (Follower C)) (f g : Follower C)
        → d.followers ≡ before ++ f ∷ after
        → d.followers ≡ before' ++ g ∷ after'
        → IsPrefix f.state.to_commit_chan g.state.to_commit_chan
          ⊎ IsPrefix g.state.to_commit_chan f.state.to_commit_chan
    Reach-agree before after before' after' f g e e' =
        prefixes_agree f.state.to_commit_chan g.state.to_commit_chan d.leader.to_commit_chan
          (Reach-IsPrefix before after f e).0 (Reach-IsPrefix before' after' g e').0

    -- Take a cluster that is reached by steps of one epoch from one where every follower is in
    -- step (a served server that is not catching up, and would hold and commit what the
    -- coordinator has if it handled everything on its way). The coordinator has a name and
    -- follows itself, and JSON reads back every ZabMessage and every Proposal. Then a follower
    -- handles the next message of its connection, and its process does not end.
    pub Reach-delivers :
        (before after : List (Follower C)) (f : Follower C) (m : ZabMessage)
        (rest : List ZabMessage)
        → d.followers ≡ before ++ f ∷ after
        → f.inbox ≡ m ∷ rest
        → (t : Zab C) × (process_zab_message
              (follower_env env f.name)
              (send_zab_message env m)
              f.state
            ≡ some t)
    Reach-delivers before after f m rest e inbox =
        let h = at before after f e in
        let (v, first, others) = replay_head env d.leader f m rest inbox h in
        let (t, ran, facts, still) =
          process_zab_message-IsAt env f.name m f.state v ze h.steady first in
        (t, ran)

    -- Take a cluster that is reached by steps of one epoch from one where every follower is in
    -- step (a served server that is not catching up, and would hold and commit what the
    -- coordinator has if it handled everything on its way). The coordinator has a name and
    -- follows itself, and JSON reads back every ZabMessage and every Proposal. Then a follower
    -- with nothing on its way, neither on its connection nor in the coordinator's queue, has
    -- committed exactly what the coordinator has, and has the same history.
    pub Reach-settled :
        (before after : List (Follower C)) (f : Follower C)
        → d.followers ≡ before ++ f ∷ after
        → in_flight env d.leader f ≡ []
        → (f.state.to_commit_chan ≡ d.leader.to_commit_chan)
          × (history env f.state ≡ history env d.leader)
    Reach-settled before after f e quiet =
        let h = (at before after f e).replayed in
        let same : view env f.state ≡ view env d.leader =
          some_inj (sym (replay-nil env (view env f.state)) ∙ rw quiet at h) in
        (ap (λ (v : View). v.0) same, ap (λ (v : View). v.0 ++ v.1) same)
