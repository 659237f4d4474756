-- ===== src/Election/Rotation.antt =====
-- ReorderRing of election.go.
use dsc_zookeeper.Prelude.{
  Str, str_eq, str_beq_iff, List, [], ◌∷◌, ◌++◌, false, ◌==◌, none, some, All, ◌≡◌, refl,
}
use dsc_zookeeper.Election.{split_at, reorder_ring}

split_at-middle :
    (before after : List Str) (id : Str)
    → All (λ x. (x == id) ≡ false) before
    → split_at (before ++ id ∷ after) id ≡ some (before, after)
unfolding split_at
split_at-middle [] after id h = rw ((str_beq_iff id id).1 refl) refl
split_at-middle (x ∷ before) after id (hx, hs) =
    rw (hx, split_at) (rw (split_at-middle before after id hs) refl)

split_at-missing :
    (ring : List Str) (id : Str) → All (λ x. (x == id) ≡ false) ring → split_at ring id ≡ none
unfolding split_at
split_at-missing [] id h = refl
split_at-missing (x ∷ ring) id (hx, hs) = rw (hx, split_at) (rw (split_at-missing ring id hs) refl)

-- The ring of a node in a list is what stands behind its first place there, followed by what
-- stands in front of it.
pub reorder_ring-middle :
    (before after : List Str) (id : Str)
    → All (λ x. (x == id) ≡ false) before
    → reorder_ring (before ++ id ∷ after) id ≡ after ++ before
unfolding reorder_ring
reorder_ring-middle before after id h = rw (split_at-middle before after id h, reorder_ring) refl

-- A node that is not in the list takes the list as its ring.
pub reorder_ring-missing :
    (ring : List Str) (id : Str) → All (λ x. (x == id) ≡ false) ring → reorder_ring ring id ≡ ring
unfolding reorder_ring
reorder_ring-missing ring id h = rw (split_at-missing ring id h, reorder_ring) refl
