-- ===== src/Znode/Check/Sequence.antt =====
-- seqname of check_utils.go.
use dsc_zookeeper.Prelude.{
  ℕ, ◌+◌, ◌^◌, ◌≤◌, ◌<◌, ◌≡◌, ◌≢◌, refl, ap, ◌∙◌, Str, str_eq, str_beq_iff, List, [], ◌∷◌, ◌++◌,
  nat_eq, Option, none, some, arith, All, lookup,
}
use dsc_zookeeper.Prelude.Int.{ℤ, pos, negsuc}
use dsc_zookeeper.Prelude.Decimal.{itoa, atoi-itoa, itoa-IsDigit, IsDigit}
use dsc_zookeeper.Znode.Check.{split_last, sequence_of, larger, max_sequence, seqname, Cache}
use dsc_zookeeper.Znode.FilePath.{dir, base, join}
use dsc_zookeeper.Znode.Types.{ZNode, ok}

-- No underscore among digits.
split_last-digits : (s : Str) → All IsDigit s → split_last s ≡ none
unfolding split_last
split_last-digits [] h = refl
split_last-digits (c ∷ s) (hc, hs) = rw (split_last-digits s hs, split_last) (ground arith)

split_last-under :
    (front s : Str) → split_last s ≡ none → split_last (front ++ b'_' ∷ s) ≡ some (front, s)
unfolding split_last
split_last-under [] s h = rw (h, split_last) refl
split_last-under (c ∷ front) s h = rw (split_last-under front s h, split_last) refl

-- The name with the number `n`.
abbrev pub numbered : Str → ℕ → Str
numbered filename n = filename ++ b'_' ∷ itoa n

pub sequence_of-numbered :
    (filename : Str) (n : ℕ)
    → n < 2 ^ 63
    → sequence_of filename (numbered filename n) ≡ some (pos n)
unfolding sequence_of
sequence_of-numbered filename n h =
    rw
      (
        split_last-under filename (itoa n) (split_last-digits (itoa n) (itoa-IsDigit n)),
        sequence_of,
      )
      (rw ((str_beq_iff filename filename).1 refl) (atoi-itoa n h))

larger-le : (m : ℕ) (o : Option ℤ) → m ≤ larger m o
larger-le m none = omega arith
larger-le m (some (pos n)) = ground arith
larger-le m (some (negsuc n)) = omega arith

max_sequence-le : (filename : Str) (xs : List Str) (m : ℕ) → m ≤ max_sequence filename xs m
unfolding max_sequence
max_sequence-le filename [] m = omega arith
max_sequence-le filename (x ∷ xs) m = omega (
  arith,
  larger-le m (sequence_of filename x),
  max_sequence-le filename xs (larger m (sequence_of filename x)),
)

-- Every sibling with the name and a number has a number of at most the maximum.
abbrev Below : Str → ℕ → Str → Type 0
Below filename m x = (n : ℕ) → sequence_of filename x ≡ some (pos n) → n ≤ m

larger-Below : (m n : ℕ) (o : Option ℤ) → o ≡ some (pos n) → n ≤ larger m o
larger-Below m n o h = rw h (ground arith)

max_sequence-Below :
    (filename : Str) (xs : List Str) (m : ℕ) → All (Below filename (max_sequence filename xs m)) xs
unfolding max_sequence
max_sequence-Below filename [] m = tt
max_sequence-Below filename (x ∷ xs) m =
    let m' = larger m (sequence_of filename x) in
    (
      (λ n h.
          omega
            (arith, larger-Below m n (sequence_of filename x) h, max_sequence-le filename xs m')),
      max_sequence-Below filename xs m',
    )

-- The name that `seqname` makes is the name of no sibling, as long as the number fits an int.
pub numbered-fresh :
    (filename : Str) (children : List Str)
    → max_sequence filename children 0 + 1 < 2 ^ 63
    → All (λ x. x ≢ numbered filename (max_sequence filename children 0 + 1)) children
numbered-fresh filename children h = fresh children (max_sequence-Below filename children 0)
  where
    next : ℕ
    next = max_sequence filename children 0 + 1

    fresh :
        (xs : List Str)
        → All (Below filename (max_sequence filename children 0)) xs
        → All (λ x. x ≢ numbered filename next) xs
    fresh [] b = tt
    fresh (x ∷ xs) (b, bs) = (
      (λ e.
          let le = b next (ap (sequence_of filename) e ∙ sequence_of-numbered filename next h) in
          omega arith),
      fresh xs bs,
    )

-- A sequential znode whose parent is in the cache gets a path in the same folder, whose name is
-- the old one, an underscore and a number, and is the name of none of the parent's children, as
-- long as the next number fits an int.
pub seqname-fresh :
    (cache : Cache) (znode parent : ZNode)
    → lookup (dir znode.path) cache.nodes ≡ some parent
    → max_sequence (base znode.path) parent.children 0 + 1 < 2 ^ 63
    → (n : ℕ) × (seqname cache znode
        ≡ ok (record znode { path = join (dir znode.path) (numbered (base znode.path) n) }))
      × All (λ x. x ≢ numbered (base znode.path) n) parent.children
unfolding seqname
seqname-fresh cache znode parent there room = (
  max_sequence (base znode.path) parent.children 0 + 1,
  rw (there, seqname) refl,
  numbered-fresh (base znode.path) parent.children room,
)
