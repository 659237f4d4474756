-- ===== src/Client/Versions.antt =====
-- The versions that main/client.go sends, and main/server.go reads.
use dsc_zookeeper.Prelude.{
  Str, str_eq, str_beq, [], ◌∷◌, ◌++◌, true, false, ◌==◌, none, some, lookup, codes, ◌≡◌, refl, ap,
}
use dsc_zookeeper.Proposals.Types.{NetworkMessage}
use dsc_zookeeper.Server.State.{Object, Server}
use dsc_zookeeper.Server.State
use dsc_zookeeper.Server.Client.{by_kind}
use dsc_zookeeper.Server.Reads
use dsc_zookeeper.Server.Committed.{path_reply}
use dsc_zookeeper.Client.State.{Env, Client, send-reachable}
use dsc_zookeeper.Client.Commands.{by_word, delete_path, setdata, delete_message, setdata_message}
use dsc_zookeeper.Client.Listener

module _ (env : Env) (server_env : State.Env) (c : Client) (path content version : Str)
    (msg : NetworkMessage) (s : Server) (connected : (c.connected_server == []) ≡ false)
    (reachable : env.reachable c.connected_server ≡ true) where
  -- For a client with a session on a server that it reaches: its delete command sends a message
  -- that ends the process of any server, its setdata command does so too, and the answer that a
  -- server has for a committed setdata ends the process of the client.
  pub by_word-ends :
      let o = delete_message env path version c in
      let o' = setdata_message env path content version in
      (by_word env (codes "delete") (path ∷ version ∷ []) c
        ≡ some (record c { sent = c.sent ++ (c.connected_server, o) ∷ [] }))
      × (by_kind server_env o msg s ≡ none)
      × (by_word env (codes "setdata") (path ∷ content ∷ version ∷ []) c
          ≡ some (record c { sent = c.sent ++ (c.connected_server, o') ∷ [] }))
      × (by_kind server_env o' msg s ≡ none)
      × (Listener.by_kind env (path_reply (codes "SETDATA_OK") o') c ≡ none)
  unfolding by_word delete_path setdata by_kind Reads.delete_path Reads.setdata Listener.by_kind
      lookup str_beq
  by_word-ends = (
    rw connected (ap some (send-reachable env (delete_message env path version c) c reachable)),
    refl,
    rw connected
        (ap some (send-reachable env (setdata_message env path content version) c reachable)),
    refl,
    refl,
  )
