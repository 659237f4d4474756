-- ===== src/Znode/Applied.antt =====
-- A request of a client on its way through internal/znode: it is encoded by the server, checked by
-- the leader, and written by every server when it is committed.
use dsc_zookeeper.Prelude.{
  Str, str_eq, str_beq, str_beq_iff, Bytes, [], ◌∷◌, Bool, true, false, if◌then◌else◌, nat_eq, some,
  lookup, insert, lookup-insert, IsExact, codes, ◌≡◌, refl, ap, ◌∙◌,
}
use dsc_zookeeper.Prelude.Int.{ℤ, pos, negsuc, suc_ℤ}
use dsc_zookeeper.Znode.Types.{ZNode, WriteRequest, Outcome, ok, Json, new_znode, int_beq}
use dsc_zookeeper.Znode.Store.{Store, disk_path, write_znode, get_data}
use dsc_zookeeper.Znode.Encode.{encode_setdata}
use dsc_zookeeper.Znode.Check.{
  Cache, put, check, check_request, check_setdata_request, check_update, update_cached, seqname,
}
use dsc_zookeeper.Znode.Write.{write, write_request, on_first, write_setdata, write_op}

pub lookup_inserted : (path : Str) (z : ZNode) (m : Store) → lookup path (insert path z m) ≡ some z
lookup_inserted path z m = lookup-insert path path z m ∙ rw ((str_beq_iff path path).1 refl) refl

pub get_data-write_znode :
    (store : Store) (z : ZNode) (path : Str)
    → z.path ≡ path
    → get_data (write_znode store z) path ≡ ok z
unfolding get_data write_znode
get_data-write_znode store z path e =
    let there : lookup (disk_path path) (insert (disk_path z.path) z store) ≡ some z =
      ap (λ p. lookup (disk_path path) (insert (disk_path p) z store)) e
      ∙ lookup_inserted (disk_path path) z store in
    rw there refl

module _ (json : Json) (exact : IsExact json.requests) where
  -- Suppose that JSON reads back every write request, the leader's cache is ready and has a znode
  -- at a path. If a setdata names the version of that znode, and not -1, the request that
  -- Encode_setdata makes is accepted by Check and written by Write; the file then has the new
  -- data and the next version, and nothing else: no children and no session. The cache gets the
  -- data and the version and keeps the rest.
  pub encode_setdata-applied :
      (store : Store) (cache : Cache) (cached : ZNode) (path : Str) (content : Bytes) (version : ℤ)
      → cache.is_init ≡ true
      → lookup path cache.nodes ≡ some cached
      → int_beq version (negsuc 0) ≡ false
      → int_beq version cached.version ≡ true
      → (raw : Bytes) × (cache' : Cache) × (store' : Store) × (z : ZNode) × (check json store cache
            (encode_setdata json path content version)
          ≡ (cache', ok raw))
        × (write json raw store ≡ (store', ok (path ∷ [])))
        × (get_data store' path ≡ ok z)
        × (z ≡ new_znode path content (suc_ℤ version))
        × (lookup path cache'.nodes
            ≡ some (record cached { content = content; version = suc_ℤ cached.version }))
  unfolding check check_request check_setdata_request check_update update_cached encode_setdata
      write write_request on_first write_setdata write_op str_beq
  encode_setdata-applied store cache cached path content version ready there known same =
      let asked : WriteRequest = record {
        request = codes "setdata";
        znodes = new_znode path content version ∷ [];
      } in
      let z = new_znode path content (suc_ℤ version) in
      let written : WriteRequest = record { request = codes "setdata"; znodes = z ∷ [] } in
      (
        json.requests.marshal written,
        put cache path (record cached { content = content; version = suc_ℤ cached.version }),
        write_znode store z,
        z,
        rw (exact.exact asked, ready, there, known, same) refl,
        rw (exact.exact written) refl,
        get_data-write_znode store z path refl,
        refl,
        lookup_inserted path _ cache.nodes,
      )

  -- The leader's cache and the files have the same znode at a path.
  abbrev pub IsSame : Store → Cache → Str → Type 0
  IsSame store cache path =
      (z : ZNode) × (get_data store path ≡ ok z) × (lookup path cache.nodes ≡ some z)

  -- The znode that Encode_create asks for without the ephemeral flag.
  abbrev pub regular : Bool → Bytes → Str → ZNode
  regular sequential content path = record (new_znode path content (pos 0)) {
    sequential = sequential;
  }

  -- Under the path that it is created at.
  abbrev pub named : Cache → ZNode → Outcome ZNode
  named cache znode = if znode.sequential then seqname cache znode else ok znode
