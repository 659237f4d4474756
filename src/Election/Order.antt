-- ===== src/Election/Order.antt =====
-- Go's order of strings: by bytes, a prefix first.
use dsc_zookeeper.Prelude.{
  Str, [], ◌∷◌, Bool, true, false, ◌||◌, ◌&&◌, ltb, ◌==◌, nat_eq, ◌≡◌, refl, arith,
}

unfoldable pub str_ltb : Str → Str → Bool
str_ltb a [] = false
str_ltb [] (y ∷ ys) = true
str_ltb (x ∷ xs) (y ∷ ys) = ltb x y || (x == y && str_ltb xs ys)

pub str_ltb_irrefl : (a : Str) → str_ltb a a ≡ false
unfolding str_ltb
str_ltb_irrefl [] = refl
str_ltb_irrefl (x ∷ xs) = ground (arith, str_ltb_irrefl xs)

pub str_ltb_asym : (a b : Str) → str_ltb a b ≡ true → str_ltb b a ≡ false
unfolding str_ltb
str_ltb_asym [] [] h = refl
str_ltb_asym [] (y ∷ ys) h = refl
str_ltb_asym (x ∷ xs) [] h = absurd (ground arith)
str_ltb_asym (x ∷ xs) (y ∷ ys) h = ground (arith, str_ltb_asym xs ys)

-- What is not below `b`, which is not below `c`, is not below `c`.
pub str_ltb_chain : (a b c : Str) → str_ltb a b ≡ false → str_ltb b c ≡ false → str_ltb a c ≡ false
unfolding str_ltb
str_ltb_chain a b [] h k = refl
str_ltb_chain a [] (z ∷ zs) h k = absurd (ground arith)
str_ltb_chain [] (y ∷ ys) (z ∷ zs) h k = absurd (ground arith)
str_ltb_chain (x ∷ xs) (y ∷ ys) (z ∷ zs) h k = ground (arith, str_ltb_chain xs ys zs)
