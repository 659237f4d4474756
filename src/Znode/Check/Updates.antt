-- ===== src/Znode/Check/Updates.antt =====
-- check_update of check_utils.go, one after another.
use dsc_zookeeper.Prelude.{
  zero, suc, str_eq, str_beq_iff, true, false, none, some, lookup, lookup-insert, ◌≡◌, ◌≢◌, ◌∙◌,
  refl, sym, ap, arith, Bool-cases, Option-cases, inl, inr, ◌==◌,
}
use dsc_zookeeper.Prelude.Int.{ℤ, pos, negsuc, suc_ℤ}
use dsc_zookeeper.Znode.Types.{
  ZNode, ZnodeError, ok, err, version_error, exists_error, int_beq, int_beq_iff, Json,
}
use dsc_zookeeper.Znode.Check.{Cache, put, check_update, update_cached}

int_beq-suc : (v : ℤ) → int_beq v (suc_ℤ v) ≡ false
unfolding suc_ℤ
int_beq-suc (pos n) = ground arith
int_beq-suc (negsuc zero) = refl
int_beq-suc (negsuc (suc n)) = ground arith

int_beq_ne : (a b : ℤ) → a ≢ b → int_beq a b ≡ false
int_beq_ne a b h = elim (Bool-cases (int_beq a b)) [
  | inl same ↦ absurd (h ((int_beq_iff a b).0 same))
  | inr other ↦ other
]

ok_inj {ℓ} : {A : Type ℓ} {a b : A} → ok a ≡ ok b → a ≡ b
ok_inj e = cc

err_ne_ok {ℓ} : {A : Type ℓ} {a : A} {x : ZnodeError} → err x ≡ ok a → ⊥
err_ne_ok e = cc

module _ (json : Json) where
  check_update-found :
      (cache : Cache) (znode cached : ZNode)
      → lookup znode.path cache.nodes ≡ some cached
      → check_update json cache znode ≡ update_cached json cache znode cached
  unfolding check_update
  check_update-found cache znode cached h = rw (h, check_update) refl

  check_update-missing :
      (cache : Cache) (znode : ZNode)
      → lookup znode.path cache.nodes ≡ none
      → check_update json cache znode ≡ err exists_error
  unfolding check_update
  check_update-missing cache znode h = rw (h, check_update) refl

  -- The entry of the cache after an update that names a version.
  abbrev pub updated : ZNode → ZNode → ZNode
  updated znode cached = record cached { content = znode.content; version = suc_ℤ cached.version }

  update_cached-passed :
      (cache : Cache) (znode cached : ZNode)
      → int_beq znode.version (negsuc 0) ≡ false
      → int_beq znode.version cached.version ≡ true
      → update_cached json cache znode cached
        ≡ ok (
          put cache znode.path (updated znode cached),
          record znode { version = suc_ℤ znode.version },
        )
  unfolding update_cached
  update_cached-passed cache znode cached some_version same =
      rw (some_version, update_cached) (rw same refl)

  update_cached-refused :
      (cache : Cache) (znode cached : ZNode)
      → int_beq znode.version (negsuc 0) ≡ false
      → int_beq znode.version cached.version ≡ false
      → update_cached json cache znode cached ≡ err version_error
  unfolding update_cached
  update_cached-refused cache znode cached some_version other =
      rw (some_version, update_cached) (rw other refl)

  second_refused :
      (cache : Cache) (a b cached : ZNode)
      → a.path ≡ b.path
      → a.version ≡ b.version
      → int_beq b.version (negsuc 0) ≡ false
      → int_beq a.version cached.version ≡ true
      → check_update json (put cache a.path (updated a cached)) b ≡ err version_error
  second_refused cache a b cached path version named same =
      let cache' = put cache a.path (updated a cached) in
      let own : (a.path == b.path) ≡ true = (str_beq_iff a.path b.path).1 path in
      let found : lookup b.path cache'.nodes ≡ some (updated a cached) =
        lookup-insert a.path b.path (updated a cached) cache.nodes ∙ rw own refl in
      let now : a.version ≡ cached.version = (int_beq_iff _ _).0 same in
      let other : int_beq b.version (suc_ℤ cached.version) ≡ false =
        rw (← version, ← now) (int_beq-suc a.version) in
      check_update-found cache' b (updated a cached) found
      ∙ update_cached-refused cache' b (updated a cached) named other

  -- Of two updates of a path that name the same version, other than -1, the second one gets a
  -- version error once the first has passed.
  pub check_update-once :
      (cache cache' : Cache) (a a' b : ZNode)
      → a.path ≡ b.path
      → a.version ≡ b.version
      → b.version ≢ negsuc 0
      → check_update json cache a ≡ ok (cache', a')
      → check_update json cache' b ≡ err version_error
  check_update-once cache cache' a a' b path version some_version h =
      elim (Option-cases (lookup a.path cache.nodes)) [
        | inl e ↦ absurd (err_ne_ok (sym (check_update-missing cache a e) ∙ h))
        | inr (cached, e) ↦
            let named = int_beq_ne b.version (negsuc 0) some_version in
            let named' : int_beq a.version (negsuc 0) ≡ false = rw version named in
            elim (Bool-cases (int_beq a.version cached.version)) [
              | inl same ↦
                  let passed =
                    sym (
                      check_update-found cache a cached e
                      ∙ update_cached-passed cache a cached named' same)
                    ∙ h in
                  let left : put cache a.path (updated a cached) ≡ cache' =
                    ap (λ (r : Cache × ZNode). r.0) (ok_inj passed) in
                  rw (← left) (second_refused cache a b cached path version named same)
              | inr other ↦ absurd (
                  err_ne_ok (
                    sym (
                      check_update-found cache a cached e
                      ∙ update_cached-refused cache a cached named' other)
                    ∙ h))
            ]
      ]
