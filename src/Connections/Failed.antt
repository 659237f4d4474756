-- ===== src/Connections/Failed.antt =====
-- SendMessage and the managers of internal/ConnectionManager/connection_manager.go, on a connection
-- that fails.
use dsc_zookeeper.Prelude.{
  Str, str_eq, str_beq_iff, List, [], ◌∷◌, ◌++◌, false, none, some, lookup, delete, lookup-delete,
  ◌≡◌, refl, ◌∙◌,
}
use dsc_zookeeper.Proposals.Types.{NetworkMessage}
use dsc_zookeeper.Connections.{
  Conn, NamedConnection, Network, Env, store, load, remove, send_message, write_connection_manager,
  remove_connection_manager,
}

lookup_deleted : (key : Str) (m : List (Str × Conn)) → lookup key (delete key m) ≡ none
lookup_deleted key m = lookup-delete key key m ∙ rw ((str_beq_iff key key).1 refl) refl

-- If a write fails on a connection, no other removal is waiting, and a new connection to the same
-- node is stored before the removal, the map has no connection to the node after the removal, and
-- only the old one has been closed, twice.
pub remove_connection_manager-replaced :
    (env : Env) (to_send : NetworkMessage) (s : Network) (c : Conn)
    (new_connection : NamedConnection)
    → load to_send.remote s.write_map ≡ some c
    → env.accepts c ≡ false
    → s.remove_write_chan ≡ []
    → new_connection.remote ≡ to_send.remote
    → let t =
        remove_connection_manager env
          (write_connection_manager env new_connection (send_message env to_send s).0) in
      (load to_send.remote t.write_map ≡ none) × (t.closed ≡ s.closed ++ c ∷ [] ++ c ∷ [])
unfolding send_message write_connection_manager remove_connection_manager load store remove
remove_connection_manager-replaced env to_send s c new_connection there broken empty same = (
  rw (there, broken, empty, same) (rw there (lookup_deleted to_send.remote _)),
  rw (there, broken, empty, same) (rw there refl),
)
