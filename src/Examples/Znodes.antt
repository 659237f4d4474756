-- ===== src/Examples/Znodes.antt =====
-- The leader's cache at a concrete folder.
use dsc_zookeeper.Prelude.{
  ℕ, str_eq, str_beq, Bytes, [], ◌∷◌, true, ◌≡◌, ◌≢◌, refl, arith, All, codes, lookup, insert,
  Codec, inr,
}
use dsc_zookeeper.Prelude.Int.{pos, suc_ℤ}
use dsc_zookeeper.Znode.FilePath.{dir, base, join}
use dsc_zookeeper.Znode.Types.{
  ZNode, Session, WriteRequest, Json, ok, err, version_error, new_znode,
}
use dsc_zookeeper.Znode.Check.{
  Cache, check_create, check_update, update_cached, check_delete, seqname, max_sequence,
  sequence_of, split_last,
}
use dsc_zookeeper.Znode.Check.Updates.{check_update-once}
use dsc_zookeeper.Znode.Check.Create.{CanCreate, created, check_delete-check_create}
use dsc_zookeeper.Znode.Check.Sequence.{numbered, seqname-fresh}

abbrev requests : Codec WriteRequest
requests = record {
  marshal = (λ r. r.request);
  unmarshal = (λ bytes. (record { request = bytes; znodes = [] }, true));
}

abbrev pub sessions : Codec Session
sessions = record {
  marshal = (λ s. s.id);
  unmarshal = (λ bytes. (
    record { id = bytes; watchlist = []; versionlist = []; ephemeral_nodes = []; timeout = pos 0 },
    true,
  ));
}

abbrev json : Json
json = record { requests = requests; sessions = sessions }

abbrev pub folder : ZNode
folder = record (new_znode (codes "d") [] (pos 0)) { children = codes "x" ∷ [] }

abbrev pub member : ZNode
member = new_znode (codes "d/x") (1 ∷ []) (pos 3)

abbrev pub cache : Cache
cache = record { nodes = (codes "d", folder) ∷ (codes "d/x", member) ∷ []; is_init = true }

-- A new znode beside `d/x`.
abbrev pub newcomer : ZNode
newcomer = new_znode (codes "d/y") (2 ∷ []) (pos 0)

abbrev change : Bytes → ZNode
change content = new_znode (codes "d/x") content (pos 3)

abbrev changed : Cache
changed = record cache {
  nodes =
      (codes "d", folder) ∷ (codes "d/x", record member { content = 5 ∷ []; version = pos 4 }) ∷ [];
}

check_update-once_example : check_update json changed (change (6 ∷ [])) ≡ err version_error
unfolding check_update update_cached lookup insert str_beq suc_ℤ
check_update-once_example =
    check_update-once json cache changed (change (5 ∷ []))
      (record (change (5 ∷ [])) { version = pos 4 }) (change (6 ∷ [])) refl refl (λ e. cc) refl

pub newcomer-CanCreate : CanCreate cache folder newcomer
unfolding lookup str_beq dir
newcomer-CanCreate = record {
  free = refl;
  parent_there = refl;
  parent_regular = refl;
  fresh = refl;
  regular = refl;
  below = refl;
}

check_delete-check_create_example :
    (cache' : Cache) × (cache'' : Cache) × (check_create json cache newcomer
      ≡ ok (cache', created json newcomer))
    × (check_delete json cache' (new_znode (codes "d/y") [] (pos 1)) ≡ ok cache'')
    × (lookup (codes "d") cache''.nodes ≡ lookup (codes "d") cache.nodes)
unfolding str_beq base suc_ℤ
check_delete-check_create_example =
    check_delete-check_create json cache folder newcomer (new_znode (codes "d/y") [] (pos 1))
      (codes "d") newcomer-CanCreate (refl, tt) refl (inr refl)

seqname-fresh_example :
    (n : ℕ) × (seqname cache newcomer
      ≡ ok (record newcomer { path = join (dir newcomer.path) (numbered (base newcomer.path) n) }))
    × All (λ x. x ≢ numbered (base newcomer.path) n) folder.children
unfolding lookup str_beq dir base max_sequence sequence_of split_last
seqname-fresh_example = seqname-fresh cache newcomer folder refl (omega arith)
