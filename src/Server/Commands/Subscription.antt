-- ===== src/Server/Commands/Subscription.antt =====
-- GET_SUBSCRIPTION of main/server.go on a topic that has the messages from a number on.
use dsc_zookeeper.Prelude.{
  ℕ, zero, suc, ◌+◌, ◌<◌, arith, Str, str_eq, List, [], ◌∷◌, ◌++◌, append_assoc, append-nil, map,
  length, true, false, some, ◌≡◌, refl, sym, ap, ◌∙◌,
}
use dsc_zookeeper.Prelude.Int.{pos, suc_ℤ}
use dsc_zookeeper.Znode.Types.{ZNode, ok}
use dsc_zookeeper.Znode.Store.{Store, get_data, exists_znode}
use dsc_zookeeper.Server.State.{Env, Server, Object, send_json_message_to_client}
use dsc_zookeeper.Server.Topics.{message_path}
use dsc_zookeeper.Server.Commands.{subscribed_message, get_subscription_ok, send_messages}

-- The messages with the numbers from `n` on.
abbrev pub HasMessages : Store → Str → ℕ → List ZNode → Type 0
HasMessages store topic n [] = Unit
HasMessages store topic n (z ∷ zs) =
    (get_data store (message_path topic n) ≡ ok z) × HasMessages store topic (suc n) zs

there_exists :
    (store : Store) (path : Str) (z : ZNode)
    → get_data store path ≡ ok z
    → exists_znode store path ≡ true
unfolding get_data exists_znode
there_exists store path z h = ground arith

module _ (env : Env) (topic client : Str) where
  -- What a client that reads these messages is sent.
  abbrev pub message_to : ZNode → Str × Object
  message_to z = (client, subscribed_message env topic z.content)

  abbrev pub final : ℕ → Str × Object
  final n = (client, get_subscription_ok env topic (pos n))

  -- The loop with the number at which it stops.
  send_from :
      (zs : List ZNode) (rounds n last : ℕ) (s : Server)
      → length zs < rounds
      → last ≡ n + length zs
      → HasMessages s.store topic n zs
      → exists_znode s.store (message_path topic last) ≡ false
      → send_messages env rounds topic (pos n) client s
        ≡ some (record s { to_clients = s.to_clients ++ map message_to zs ++ final last ∷ [] })
  unfolding send_messages suc_ℤ send_json_message_to_client
  send_from zs zero n last s enough stops messages missing = absurd (omega arith)
  send_from [] (suc rounds) n last s enough stops messages missing =
      let e : last ≡ n = omega arith in
      let gone = ap (λ k. exists_znode s.store (message_path topic k)) (sym e) ∙ missing in
      rw (gone, e)
        (ap (λ l. some (record s { to_clients = l ++ final n ∷ [] }))
          (sym (append-nil s.to_clients)))
  send_from (z ∷ zs) (suc rounds) n last s enough stops (first, messages) missing =
      let next : Server =
        send_json_message_to_client (subscribed_message env topic z.content) client s in
      rw (there_exists s.store (message_path topic n) z first, first)
        (send_from zs rounds (suc n) last next (omega arith) (omega arith) messages missing
          ∙ ap (λ l. some (record s { to_clients = l ++ final last ∷ [] }))
              (append_assoc s.to_clients (message_to z ∷ []) (map message_to zs)))

  -- If a topic has messages with the numbers from n on, no message with the number that follows,
  -- and more rounds of fuel than messages, the client is sent these messages in order, and then
  -- the number that follows; nothing else changes.
  pub send_messages-all :
      (zs : List ZNode) (rounds n : ℕ) (s : Server)
      → length zs < rounds
      → HasMessages s.store topic n zs
      → exists_znode s.store (message_path topic (n + length zs)) ≡ false
      → send_messages env rounds topic (pos n) client s
        ≡ some (record s {
          to_clients = s.to_clients ++ map message_to zs ++ final (n + length zs) ∷ [];
        })
  send_messages-all zs rounds n s enough messages missing =
      send_from zs rounds n (n + length zs) s enough refl messages missing
