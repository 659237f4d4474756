-- ===== src/Znode/Encode.antt =====
-- req_json.go and session.go: the requests that a server sends to the leader.
use dsc_zookeeper.Prelude.{Str, Bytes, [], ◌∷◌, Bool, false, if◌then◌else◌, codes}
use dsc_zookeeper.Prelude.Int.{ℤ, pos}
use dsc_zookeeper.Znode.FilePath.{join}
use dsc_zookeeper.Znode.Types.{Json, session_dir, new_znode}

module _ (json : Json) where
  unfoldable pub encode_create : Str → Bytes → Bool → Bool → Str → Bytes
  encode_create path content ephemeral sequential sessionid = json.requests.marshal (record {
    request = codes "create";
    znodes =
        (record (new_znode path content (pos 0)) {
          ephemeral = if ephemeral then sessionid else [];
          sequential = sequential;
        })
        ∷ [];
  })

  unfoldable pub encode_delete : Str → ℤ → Bytes
  encode_delete path version =
      json.requests.marshal
        (record { request = codes "delete"; znodes = new_znode path [] version ∷ [] })

  unfoldable pub encode_setdata : Str → Bytes → ℤ → Bytes
  encode_setdata path content version =
      json.requests.marshal
        (record { request = codes "setdata"; znodes = new_znode path content version ∷ [] })

  unfoldable pub encode_sync : Bytes
  encode_sync = json.requests.marshal (record { request = codes "sync"; znodes = [] })

  unfoldable pub encode_create_session : Str → ℤ → Bytes
  encode_create_session sessionid timeout =
      encode_create (join session_dir sessionid)
        (json.sessions.marshal (record {
          id = sessionid;
          watchlist = [];
          versionlist = [];
          ephemeral_nodes = [];
          timeout = timeout;
        }))
        false false sessionid

  unfoldable pub encode_delete_session : Str → Bytes
  encode_delete_session sessionid = json.requests.marshal (record {
    request = codes "delete_session";
    znodes = new_znode (join session_dir sessionid) [] (pos 0) ∷ [];
  })
