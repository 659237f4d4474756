-- ===== src/Znode/Write.antt =====
-- write_utils.go: a committed request is written to the files.
use dsc_zookeeper.Prelude.{
  Str, str_eq, Bytes, List, [], ◌∷◌, ◌++◌, ◌||◌, ◌&&◌, not, ◌==◌, nat_eq, if◌then◌else◌, codes,
}
use dsc_zookeeper.Prelude.Int.{suc_ℤ}
use dsc_zookeeper.Znode.FilePath.{dir, base, join}
use dsc_zookeeper.Znode.Types.{
  ZNode, WriteRequest, Outcome, ok, err, panic, invalid_request_error, critical_error, json_error,
  Json, session_dir,
}
use dsc_zookeeper.Znode.Store.{
  Store, write_znode, delete_znode, exists_znode, get_data, init_base_znode,
}
use dsc_zookeeper.Znode.Check.{remove_child, session_in}

-- What a step returns, and the files that it leaves, also beside an error.
abbrev pub Step {ℓ} : Type ℓ → Type ℓ
Step A = Store → Store × Outcome A

abbrev pub continue {ℓ} : {A B : Type ℓ} → Store × Outcome A → (A → Step B) → Store × Outcome B
continue (store, ok a) f = f a store
continue (store, err e) f = (store, err e)
continue (store, panic) f = (store, panic)

-- `write_op`
unfoldable pub write_op : ZNode → Step (Unit {0})
write_op znode store = (write_znode store znode, ok tt)

-- The znode's name leaves the children of its parent, and its folder is removed.
unfoldable pub delete_op : ZNode → Step (Unit {0})
delete_op znode store =
    continue (store, get_data store (dir znode.path))
      λ parent s.
        continue
          (write_op (record parent { children = remove_child (base znode.path) parent.children }) s)
          λ _ s'. (delete_znode s' znode, ok tt)

module _ (json : Json) where
  -- The base znode is made when a first znode is created below it.
  unfoldable pub ensure_base : Str → Store → Store
  ensure_base parentpath store =
      if (parentpath == codes "." || parentpath == session_dir)
        && not (exists_znode store (codes "."))
      then init_base_znode store
      else store

  unfoldable pub adopt : ZNode → Step (Unit {0})
  adopt znode store =
      continue (store, get_data store (dir znode.path))
        λ parent s.
          write_op (record parent { children = parent.children ++ base znode.path ∷ [] }) s

  unfoldable pub note_ephemeral : ZNode → Step (Unit {0})
  note_ephemeral znode store =
      continue (store, get_data store (join session_dir znode.ephemeral))
        λ session_znode s.
          continue (s, session_in json session_znode.content json_error)
            λ session s'.
              write_op
                (record session_znode {
                  version = suc_ℤ session_znode.version;
                  content = json.sessions.marshal (record session {
                    ephemeral_nodes = session.ephemeral_nodes ++ znode.path ∷ [];
                  });
                })
                s'

  unfoldable pub write_create : ZNode → Step (List Str)
  write_create znode store = continue (adopt znode (ensure_base (dir znode.path) store)) λ _ s.
      continue (if znode.ephemeral == [] then (s, ok tt) else note_ephemeral znode s)
        λ _ s'. continue (write_op znode s') λ _ s''. (s'', ok (znode.path ∷ []))

  unfoldable pub write_setdata : ZNode → Step (List Str)
  write_setdata znode store = continue (write_op znode store) λ _ s. (s, ok (znode.path ∷ []))

  unfoldable pub write_delete : ZNode → Step (List Str)
  write_delete znode store = continue (delete_op znode store) λ _ s. (s, ok (znode.path ∷ []))

  -- The loop over the ephemeral znodes of a session.
  unfoldable pub delete_all : List Str → Step (Unit {0})
  delete_all [] store = (store, ok tt)
  delete_all (path ∷ paths) store =
      continue (store, get_data store path)
        λ znode s. continue (delete_op znode s) λ _ s'. delete_all paths s'

  unfoldable pub write_delete_session : ZNode → Step (List Str)
  write_delete_session znode store =
      continue (store, get_data store znode.path)
        λ session_znode s.
          continue (s, session_in json session_znode.content critical_error)
            λ session s1.
              continue (delete_all session.ephemeral_nodes s1)
                λ _ s2. continue (delete_op znode s2) λ _ s3. (s3, ok session.ephemeral_nodes)

  unfoldable pub write_all : List ZNode → Step (List Str)
  write_all [] store = (store, ok [])
  write_all (z ∷ zs) store = continue (write_op z store) λ _ s. write_all zs s

  unfoldable pub on_first : List ZNode → (ZNode → Step (List Str)) → Step (List Str)
  on_first [] f store = (store, panic)
  on_first (z ∷ zs) f store = f z store

  unfoldable pub write_request : WriteRequest → Step (List Str)
  write_request req store =
      if req.request == codes "create"
      then on_first req.znodes write_create store
      else if req.request == codes "setdata"
      then on_first req.znodes write_setdata store
      else if req.request == codes "delete"
      then on_first req.znodes write_delete store
      else if req.request == codes "delete_session"
      then on_first req.znodes write_delete_session store
      else if req.request == codes "watch_trigger"
      then write_all req.znodes store
      else (store, err invalid_request_error)

  -- `Write`
  unfoldable pub write : Bytes → Step (List Str)
  write raw store =
      let (req, decoded) = json.requests.unmarshal raw in
      if decoded then write_request req store else (store, err json_error)
