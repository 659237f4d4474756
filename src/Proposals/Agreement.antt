-- ===== src/Proposals/Agreement.antt =====
-- proposals.go on two nodes: a write request at the coordinator and its broadcast at a follower.
use mathlib.Core.List.{map-append}
use dsc_zookeeper.Prelude.{
  IsExact, ℕ, Str, str_eq, List, [], ◌∷◌, ◌++◌, append_assoc, Bool, true, false, ◌==◌, some, ◌≡◌,
  ◌∙◌, refl, ap,
}
use dsc_zookeeper.Proposals.Types.{ZabMessage, Proposal, Request, prop}
use dsc_zookeeper.Proposals.State.{Env, Zab}
use dsc_zookeeper.Proposals.Follower.{process_proposal}
use dsc_zookeeper.Proposals.Leader.{process_write_request}
use dsc_zookeeper.Proposals.Process.{by_type, process_zab_message}
use dsc_zookeeper.Proposals.Order.{
  request_of, history, IsOrdered, process_proposal-history, process_proposal_total,
}
use dsc_zookeeper.Proposals.Requests.{checked, proposal_for, process_write_request-accepted}
use dsc_zookeeper.Proposals.Cluster.{follower_env, send_zab_message}

module _ {C : Type 0} (env : Env C) where
  abbrev pub proposal_msg : Proposal → ZabMessage
  proposal_msg p = record { zab_type = prop; content = env.proposal_codec.marshal p }

  pub delivered-proposal :
      (follower : Str) (p : Proposal) (u : Zab C)
      → IsExact env.zab_codec
      → IsExact env.proposal_codec
      → process_zab_message (follower_env env follower) (send_zab_message env (proposal_msg p)) u
        ≡ process_proposal (follower_env env follower) p env.name (proposal_msg p) u
  unfolding process_zab_message by_type
  delivered-proposal follower p u ze pe =
      rw (ze.exact (proposal_msg p), process_zab_message, by_type) (rw (pe.exact p) refl)

  leader-history :
      (r : Request) (remote_id : Str) (s : Zab C) (c : C) (updated : List ℕ)
      → env.request_checker s.checker r.content ≡ (c, updated, true)
      → (env.name == []) ≡ false
      → history env (process_write_request env r remote_id s)
        ≡ history env s ++ request_of env (proposal_for env r remote_id s c updated) ∷ []
  leader-history r remote_id s c updated h named =
      rw (process_write_request-accepted env r remote_id s c updated h named)
        (simp (map-append, append_assoc))

  -- If JSON reads back what it wrote, this node has a name, and the follower holds nothing while
  -- it catches up: when this node handles a write request that its checker accepts, it appends
  -- the checked request to its history of committed and held requests, and a follower under its
  -- lead that gets the proposal it broadcasts handles it without ending, appends the same request
  -- to its own history, and still holds nothing while it catches up.
  pub write-agreement :
      (follower : Str) (r : Request) (remote_id : Str) (s u : Zab C) (c : C) (updated : List ℕ)
      → IsExact env.zab_codec
      → IsExact env.proposal_codec
      → IsExact env.request_codec
      → env.request_checker s.checker r.content ≡ (c, updated, true)
      → (env.name == []) ≡ false
      → IsOrdered (follower_env env follower) u
      → let p = proposal_for env r remote_id s c updated in
        let t = process_write_request env r remote_id s in
        (u' : Zab C) × (process_zab_message
            (follower_env env follower)
            (send_zab_message env (proposal_msg p))
            u
          ≡ some u')
        × (history (follower_env env follower) u'
            ≡ history (follower_env env follower) u ++ checked env r updated ∷ [])
        × (history env t ≡ history env s ++ checked env r updated ∷ [])
        × IsOrdered (follower_env env follower) u'
  write-agreement follower r remote_id s u c updated ze pe re h named o =
      let f = follower_env env follower in
      let p = proposal_for env r remote_id s c updated in
      let asked : request_of env p ≡ checked env r updated =
        ap (λ (z : Request × Bool). z.0) (re.exact (checked env r updated)) in
      let ran = process_proposal_total f p env.name (proposal_msg p) u refl in
      let facts = process_proposal-history f p env.name (proposal_msg p) u ran.0 o ran.1 in
      let led : (env.name == env.name) ≡ true = (str_eq.beq_iff env.name env.name).1 refl in
      (
        ran.0,
        delivered-proposal follower p u ze pe ∙ ran.1,
        facts.1 ∙ rw (led, asked) refl,
        leader-history r remote_id s c updated h named ∙ rw asked refl,
        facts.0,
      )
