-- ===== src/Server/Listener.antt =====
-- mainListener of main/server.go: one message from the network.
use dsc_zookeeper.Prelude.{
  ℕ, str_eq, Bool, true, false, ◌==◌, if◌then◌else◌, Option, none, some, ◌>>=◌,
}
use dsc_zookeeper.Proposals.Types.{
  NetworkMessage, NetMessageType, zab, heartbeat, election, client_msg,
}
use dsc_zookeeper.Proposals.Process
use dsc_zookeeper.Proposals.Process.{process_zab_message}
use dsc_zookeeper.Znode.Types.{Outcome}
use dsc_zookeeper.Znode.Store.{Store}
use dsc_zookeeper.Znode.Init.{Filling, init_znode_cache}
use dsc_zookeeper.Election.{MessageWrapper, handle_message}
use dsc_zookeeper.Server.State.{Env, Server, zab_env, ring_env}
use dsc_zookeeper.Server.Client.{client_message}
use dsc_zookeeper.Server.Sessions.{recv_session_info}

module _ (env : Env) where
  -- The cache is filled from the files; an error is dropped, and a panic ends the process.
  abbrev filled : Store × Filling → Server → Option Server
  filled (store, none) s = none
  filled (store, some (cache, Outcome.ok _)) s =
      some (record s { store = store; zab = record (s.zab) { checker = some cache } })
  filled (store, some (cache, Outcome.err e)) s =
      some (record s { store = store; zab = record (s.zab) { checker = some cache } })
  filled (store, some (cache, Outcome.panic)) s = none

  unfoldable pub refill : Server → Option Server
  refill s = do cache ← s.zab.checker; filled (init_znode_cache env.rounds cache s.store) s

  -- The end of an election: the timers are dropped, and the coordinator starts to work.
  unfoldable pub election_completed : Server → Option Server
  election_completed s =
      let s' : Server = record s { timestamps = none } in
      if s'.ring.coordinator == env.name
      then (do
        s'' ← refill s'
        some (record s'' { zab = Process.continue (zab_env env s'') s''.zab }))
      else some s'

  abbrev handled : MessageWrapper × Bool → Server → Option Server
  handled (wrapper, true) s = do
    (ring, status) ← handle_message (ring_env env s) wrapper s.ring
    (if status
        then some (record s { ring = ring })
        else election_completed (record s { ring = ring }))
  handled (wrapper, false) s = none

  -- A panic of the request checker ends the process.
  unfoldable pub zab_message : NetworkMessage → Server → Option Server
  zab_message msg s = do
    z ← process_zab_message (zab_env env s) msg s.zab
    alive ← z.checker
    some (record s { zab = z })

  abbrev go_on : Option Server → Option (Server × Bool)
  go_on none = none
  go_on (some s) = some (s, true)

  -- The flag says whether the listener goes on.
  abbrev by_type : NetMessageType → NetworkMessage → ℕ → Server → Option (Server × Bool)
  by_type election msg now s = go_on (handled (env.wrappers.unmarshal msg.message) s)
  by_type client_msg msg now s = client_message env msg s
  by_type zab msg now s = go_on (zab_message msg s)
  by_type heartbeat msg now s = some (recv_session_info env now msg.message s, true)

  unfoldable pub main_listener : NetworkMessage → ℕ → Server → Option (Server × Bool)
  main_listener msg now s = by_type msg.msg_type msg now s
