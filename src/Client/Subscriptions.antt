-- ===== src/Client/Subscriptions.antt =====
-- The answers of main/server.go to GET_SUBSCRIPTION, as the listener of main/client.go takes them.
use dsc_zookeeper.Prelude.{
  ℕ, ◌+◌, ◌<◌, Str, str_eq, str_beq, str_beq_iff, List, [], ◌∷◌, ◌++◌, map, length, true, false,
  some, lookup, insert, lookup-insert, ◌≡◌, refl, ap, ◌∙◌,
}
use dsc_zookeeper.Prelude.Int.{pos}
use dsc_zookeeper.Znode.Types.{ZNode}
use dsc_zookeeper.Znode.Store.{exists_znode}
use dsc_zookeeper.Server.State.{Object, Server}
use dsc_zookeeper.Server.State
use dsc_zookeeper.Server.Topics.{message_path}
use dsc_zookeeper.Server.Commands.{send_messages}
use dsc_zookeeper.Server.Commands.Subscription.{HasMessages, message_to, final, send_messages-all}
use dsc_zookeeper.Client.State.{Env, Client, send, send-reachable}
use dsc_zookeeper.Client.Listener.{by_kind, listener, get_subscription_ok, watch_next}

module _ (env : Env) (server_env : State.Env) (topic : Str) where
  abbrev objects : List (Str × Object) → List Object
  objects answers = map (λ (p : Str × Object). p.1) answers

  -- The map and the watch after the last answer.
  abbrev pub caught_up : ℕ → Client → Client
  caught_up n c =
      send env (watch_next env topic (pos n))
        (record c { topic_msg_map = insert topic (pos n) c.topic_msg_map })

  listener-answers :
      (client : Str) (zs : List ZNode) (n : ℕ) (c : Client)
      → listener env
          (objects
            (map (message_to server_env topic client) zs ++ final server_env topic client n ∷ []))
          c
        ≡ some (caught_up n c, true)
  unfolding listener by_kind get_subscription_ok lookup str_beq
  listener-answers client [] n c = refl
  listener-answers client (z ∷ zs) n c = listener-answers client zs n c

  -- Suppose that a topic on a server has messages with the numbers from n on and none with the
  -- number that follows, the fuel is more than their count, nothing was sent to the client
  -- before, and the client reaches its server. The client's listener handles what the server
  -- sends for GET_SUBSCRIPTION and goes on; then its map has the number that follows for the
  -- topic, and the one message that it has sent asks to watch the path of that number.
  pub listener-caught_up :
      (client : Str) (zs : List ZNode) (rounds n : ℕ) (s : Server) (c : Client)
      → length zs < rounds
      → s.to_clients ≡ []
      → HasMessages s.store topic n zs
      → exists_znode s.store (message_path topic (n + length zs)) ≡ false
      → env.reachable c.connected_server ≡ true
      → (s' : Server) × (c' : Client) × (send_messages server_env rounds topic (pos n) client s
          ≡ some s')
        × (listener env (map (λ (p : Str × Object). p.1) s'.to_clients) c ≡ some (c', true))
        × (lookup topic c'.topic_msg_map ≡ some (pos (n + length zs)))
        × (c'.sent
            ≡ c.sent ++ (c.connected_server, watch_next env topic (pos (n + length zs))) ∷ [])
  listener-caught_up client zs rounds n s c enough quiet messages missing reachable =
      let last = n + length zs in
      let told : Client = record c { topic_msg_map = insert topic (pos last) c.topic_msg_map } in
      let e = send-reachable env (watch_next env topic (pos last)) told reachable in
      (
        record s {
          to_clients =
              s.to_clients
              ++ map (message_to server_env topic client) zs
              ++ final server_env topic client last ∷ [];
        },
        caught_up last c,
        send_messages-all server_env topic client zs rounds n s enough messages missing,
        rw quiet (listener-answers client zs last c),
        ap (λ (x : Client). lookup topic x.topic_msg_map) e
            ∙ lookup-insert topic topic (pos last) c.topic_msg_map
            ∙ rw ((str_beq_iff topic topic).1 refl) refl,
        ap (λ (x : Client). x.sent) e,
      )
