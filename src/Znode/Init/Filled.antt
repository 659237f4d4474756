-- ===== src/Znode/Init/Filled.antt =====
-- What populate_cache_layer of znode_cache.go leaves in the cache.
use dsc_zookeeper.Prelude.{
  ℕ, zero, suc, Str, str_eq, List, [], ◌∷◌, Bool-cases, str_beq_iff, ◌==◌, none, some, some_inj,
  lookup, lookup-insert, ◌≡◌, refl, sym, ap, subst, ◌∙◌, inl, inr,
}
use dsc_zookeeper.Znode.FilePath.{join}
use dsc_zookeeper.Znode.Types.{ZNode, Outcome, ok, err, panic}
use dsc_zookeeper.Znode.Store.{Store, get_data, get_children}
use dsc_zookeeper.Znode.Check.{Cache, put}
use dsc_zookeeper.Znode.Init.{
  Filling, go_on, with_read, with_children, populate_children, populate_cache_layer,
}

-- A path is listed if it is among the children on the way down from another one.
pub data IsIn {ℓ} {A : Type ℓ} (x : A) : List A → Type ℓ where
  top : {xs : List A} → IsIn x (x ∷ xs)
  under : {y : A} {xs : List A} → IsIn x xs → IsIn x (y ∷ xs)

pub data Lists (store : Store) : Str → Str → Type 0 where
  child :
      (path name : Str) (children : List Str)
      → get_children store path ≡ ok children
      → IsIn name children
      → Lists store path (join path name)
  deeper :
      (path name q : Str) (children : List Str)
      → get_children store path ≡ ok children
      → IsIn name children
      → Lists store (join path name) q
      → Lists store path q

-- The cache has the znode of the file at a path.
abbrev pub Has : Store → Cache → Str → Type 0
Has store cache q = (z : ZNode) × (lookup q cache.nodes ≡ some z) × (get_data store q ≡ ok z)

-- What was in the cache as the files have it still is.
abbrev pub Keeps : Store → Cache → Cache → Type 0
Keeps store c d = (q : Str) → Has store c q → Has store d q

pub put-lookup : (c : Cache) (path : Str) (z : ZNode) → lookup path (put c path z).nodes ≡ some z
put-lookup c path z = lookup-insert path path z c.nodes ∙ rw ((str_beq_iff path path).1 refl) refl

pub put-Keeps :
    (store : Store) (c : Cache) (path : Str) (z : ZNode)
    → get_data store path ≡ ok z
    → Keeps store c (put c path z)
put-Keeps store c path z e q (y, there, file) = elim (Bool-cases (path == q)) [
  | inl same ↦
      let at = (str_beq_iff path q).0 same in
      (z, lookup-insert path q z c.nodes ∙ rw same refl, rw (← at) e)
  | inr other ↦ (y, lookup-insert path q z c.nodes ∙ rw other there, file)
]

-- A step that ends without an error went through each of its parts.
pub go_on-ok :
    (r : Filling) (f : Cache → Filling) (d : Cache)
    → go_on r f ≡ some (d, ok tt)
    → (c : Cache) × (r ≡ some (c, ok tt)) × (f c ≡ some (d, ok tt))
go_on-ok none f d h = absurd (cc)
go_on-ok (some (c, ok t)) f d h = (c, refl, h)
go_on-ok (some (c, err e)) f d h = absurd (cc)
go_on-ok (some (c, panic)) f d h = absurd (cc)

with_read-ok :
    (o : Outcome ZNode) (path : Str) (c : Cache) (f : Cache → Filling) (d : Cache)
    → with_read o path c f ≡ some (d, ok tt)
    → (z : ZNode) × (o ≡ ok z) × (f (put c path z) ≡ some (d, ok tt))
with_read-ok (ok z) path c f d h = (z, refl, h)
with_read-ok (err e) path c f d h = absurd (cc)
with_read-ok panic path c f d h = absurd (cc)

with_children-ok :
    (o : Outcome (List Str)) (c : Cache) (f : List Str → Filling) (d : Cache)
    → with_children o c f ≡ some (d, ok tt)
    → (children : List Str) × (o ≡ ok children) × (f children ≡ some (d, ok tt))
with_children-ok (ok cs) c f d h = (cs, refl, h)
with_children-ok (err e) c f d h = absurd (cc)
with_children-ok panic c f d h = absurd (cc)

module _ (store : Store) where
  -- Everything below a path is in the cache as the files have it.
  abbrev pub HasBelow : Cache → Str → Type 0
  HasBelow d path = (q : Str) → Lists store path q → Has store d q

  abbrev pub Fills : (Str → Cache → Filling) → Type 0
  Fills layer =
      (path : Str) (c d : Cache)
      → layer path c ≡ some (d, ok tt)
      → Keeps store c d × HasBelow d path

  -- One child of a layer, and everything below it.
  abbrev HasChild : Str → Cache → Str → Type 0
  HasChild path d name = Has store d (join path name) × HasBelow d (join path name)

  children-Fills :
      (layer : Str → Cache → Filling) (path : Str) (children : List Str) (c d : Cache)
      → Fills layer
      → populate_children layer store path children c ≡ some (d, ok tt)
      → Keeps store c d × ((name : Str) → IsIn name children → HasChild path d name)
  unfolding populate_children
  children-Fills layer path [] c d fills h =
      let same : c ≡ d = ap (λ (x : Cache × Outcome (Unit {0})). x.0) (some_inj h) in
      ((λ q has. rw (← same) has), (λ name i. elim i [ ]))
  children-Fills layer path (x ∷ xs) c d fills h =
      let (z, file, next) = with_read-ok (get_data store (join path x)) (join path x) c _ d h in
      let (e, first, rest) = go_on-ok (layer (join path x) (put c (join path x) z)) _ d next in
      let (kept, below) = fills (join path x) (put c (join path x) z) e first in
      let (kept', each) = children-Fills layer path xs e d fills rest in
      let own : Has store d (join path x) =
        kept' (join path x) (kept (join path x) (z, put-lookup c (join path x) z, file)) in
      (
        (λ q has. kept' q (kept q (put-Keeps store c (join path x) z file q has))),
        one own (λ q l. kept' q (below q l)) each,
      )
    where
      one :
          Has store d (join path x)
          → HasBelow d (join path x)
          → ((name : Str) → IsIn name xs → HasChild path d name)
          → (name : Str) → IsIn name (x ∷ xs)
          → HasChild path d name
      one own below each name top = (own, below)
      one own below each name (under i) = each name i

  ok_inj : (xs ys : List Str) → ok xs ≡ ok ys → xs ≡ ys
  ok_inj xs ys h = cc

  listed :
      (d : Cache) (path q : Str) (children : List Str)
      → get_children store path ≡ ok children
      → ((name : Str) → IsIn name children → HasChild path d name)
      → Lists store path q
      → Has store d q
  listed d path q children e each (child _ name others e' i) =
      (each name (subst (IsIn name) (ok_inj others children (sym e' ∙ e)) i)).0
  listed d path q children e each (deeper _ name _ others e' i l) =
      (each name (subst (IsIn name) (ok_inj others children (sym e' ∙ e)) i)).1 q l

  -- After a walk without an error the cache keeps what it had as the files have it, and has everything
  -- below the path.
  pub populate_cache_layer-Fills :
      (fuel : ℕ) (path : Str) (c d : Cache)
      → populate_cache_layer fuel store path c ≡ some (d, ok tt)
      → Keeps store c d × HasBelow d path
  unfolding populate_cache_layer
  populate_cache_layer-Fills zero path c d h = absurd (cc)
  populate_cache_layer-Fills (suc fuel) path c d h =
      let (children, e, ran) = with_children-ok (get_children store path) c _ d h in
      let (kept, each) =
        children-Fills (populate_cache_layer fuel store) path children c d
          (λ p a b r. populate_cache_layer-Fills fuel p a b r) ran in
      (kept, (λ q l. listed d path q children e each l))
