-- ===== src/Server/Client.antt =====
-- The messages of clients in mainListener of main/server.go.
use dsc_zookeeper.Prelude.{
  str_eq, Bool, true, false, if◌then◌else◌, Option, none, some, ◌>>=◌, codes,
}
use dsc_zookeeper.Proposals.Types.{NetworkMessage}
use dsc_zookeeper.Server.State.{Env, Server, Object, Decoded, object, no_object, malformed}
use dsc_zookeeper.Server.Commands.{
  start_session, reestablish_session, end_session, publish, subscribe, get_subscription,
}
use dsc_zookeeper.Server.Reads.{sync, create, delete_path, setdata, getchildren, exists, getdata}
use dsc_zookeeper.Server.Committed.{is_kind}

module _ (env : Env) where
  -- A message of another kind is dropped.
  unfoldable pub by_kind : Object → NetworkMessage → Server → Option Server
  by_kind obj msg s =
      if is_kind obj (codes "START_SESSION")
      then start_session env msg s
      else if is_kind obj (codes "REESTABLISH_SESSION")
      then reestablish_session env obj msg.remote s
      else if is_kind obj (codes "END_SESSION")
      then end_session env obj msg s
      else if is_kind obj (codes "PUBLISH")
      then publish env obj msg s
      else if is_kind obj (codes "SUBSCRIBE")
      then subscribe env obj msg s
      else if is_kind obj (codes "GET_SUBSCRIPTION")
      then get_subscription env obj msg.remote s
      else if is_kind obj (codes "SYNC")
      then sync env obj msg s
      else if is_kind obj (codes "CREATE")
      then create env obj msg s
      else if is_kind obj (codes "DELETE")
      then delete_path env obj msg s
      else if is_kind obj (codes "SETDATA")
      then setdata env obj msg s
      else if is_kind obj (codes "GETCHILDREN")
      then getchildren env obj msg s
      else if is_kind obj (codes "EXISTS")
      then exists env obj msg s
      else if is_kind obj (codes "GETDATA")
      then getdata env obj msg s
      else some s

  -- The flag says whether the listener goes on: it returns on bytes that are no JSON, and JSON that
  -- is no object is a panic.
  abbrev decoded : Decoded → NetworkMessage → Server → Option (Server × Bool)
  decoded (object obj) msg s = do s' ← by_kind obj msg s; some (s', true)
  decoded no_object msg s = none
  decoded malformed msg s = some (s, false)

  unfoldable pub client_message : NetworkMessage → Server → Option (Server × Bool)
  client_message msg s = decoded (env.decode msg.message) msg s
