-- ===== src/Prelude/Decimal.antt =====
-- strconv.Itoa, FormatUint(_, 10) and Atoi, on a 64-bit machine.
use Prim.Native.Nat.{ℕ, zero, suc, ◌+◌, ◌-◌, ◌*◌, ◌/◌, ◌%◌, ◌^◌, ◌≤◌, ◌<◌}
use mathlib.Core.Path.{◌≡◌, refl, ◌∙◌}
use mathlib.Core.Bool.{Bool, true, false, ◌||◌}
use mathlib.Core.Logic.{inl, inr}
use mathlib.Core.Option.{Option, none, some}
use mathlib.Core.List.{[], ◌∷◌}
use native.Mathlib.Omega.{arith}
use dsc_zookeeper.Prelude.Tests.{Str, ltb, ◌==◌, nat_eq, if◌then◌else◌, Bool-cases}
use dsc_zookeeper.Prelude.Lists.{codes, All}
use dsc_zookeeper.Prelude.Int.{ℤ, pos, negsuc}

-- Each round divides by ten; fuel `n` is enough for the digits of `n`.
emit : ℕ → ℕ → Str → Str
emit zero n out = out
emit (suc f) n out =
    let rest = emit f (n / 10) ((b'0' + n % 10) ∷ out) in if n == 0 then out else rest

unfoldable pub itoa : ℕ → Str
unfolding emit
itoa n = if n == 0 then b'0' ∷ [] else emit n n []

-- The value of the digits read so far goes on from `n`.
scan : ℕ → Str → Option ℕ
scan n [] = some n
scan n (c ∷ s) = if ltb c b'0' || ltb b'9' c then none else scan (n * 10 + (c - b'0')) s

magnitude : Str → Option ℕ
unfolding scan
magnitude [] = none
magnitude (c ∷ s) = scan 0 (c ∷ s)

-- A magnitude with its sign, if it is in the range of int.
signed : Bool → Option ℕ → Option ℤ
signed minus none = none
signed true (some zero) = some (pos 0)
signed true (some (suc n)) = if ltb n (2 ^ 63) then some (negsuc n) else none
signed false (some n) = if ltb n (2 ^ 63) then some (pos n) else none

unfoldable pub atoi : Str → Option ℤ
unfolding magnitude signed
atoi [] = none
atoi (c ∷ s) =
    if c == b'-'
    then signed true (magnitude s)
    else if c == b'+'
    then signed false (magnitude s)
    else signed false (magnitude (c ∷ s))

itoa_test : itoa 65535 ≡ codes "65535"
unfolding itoa
itoa_test = refl

atoi_test : atoi (codes "-12") ≡ some (negsuc 11)
unfolding atoi
atoi_test = refl

atoi_junk : atoi (codes "1_2") ≡ none
unfolding atoi
atoi_junk = refl

abbrev pub IsDigit : ℕ → Type 0
IsDigit c = (b'0' ≤ c) × (c ≤ b'9')

scan-emit : (f n : ℕ) (out : Str) → n ≤ f → scan 0 (emit f n out) ≡ scan n out
unfolding emit scan
scan-emit zero n out h = let none_left : n ≡ 0 = omega arith in rw none_left
scan-emit (suc f) n out h = elim (Bool-cases (n == 0)) [
  | inl done ↦ let none_left : n ≡ 0 = (nat_eq.beq_iff n 0).0 done in rw done (rw none_left)
  | inr more ↦
      let whole : n / 10 * 10 + (b'0' + n % 10 - b'0') ≡ n = omega arith in
      rw more
        (scan-emit f (n / 10) ((b'0' + n % 10) ∷ out) (ground arith) ∙ rw whole (ground arith))
]

emit-IsDigit : (f n : ℕ) (out : Str) → All IsDigit out → All IsDigit (emit f n out)
unfolding emit
emit-IsDigit zero n out h = h
emit-IsDigit (suc f) n out h = ground (arith, emit-IsDigit f (n / 10) ((b'0' + n % 10) ∷ out))

-- The text of a number is not empty.
emit-cons : (f n c : ℕ) (out : Str) → (d : ℕ) × (s : Str) × (emit f n (c ∷ out) ≡ d ∷ s)
unfolding emit
emit-cons zero n c out = (c, out, refl)
emit-cons (suc f) n c out = elim (Bool-cases (n == 0)) [
  | inl done ↦ (c, out, rw done)
  | inr more ↦ let (d, s, e) = emit-cons f (n / 10) (b'0' + n % 10) (c ∷ out) in (d, s, rw more e)
]

itoa-cons : (n : ℕ) → (d : ℕ) × (s : Str) × (itoa n ≡ d ∷ s)
unfolding itoa emit
itoa-cons zero = (b'0', [], refl)
itoa-cons (suc n) =
    let (d, s, e) = emit-cons n (suc n / 10) (b'0' + suc n % 10) [] in (d, s, ground arith)

pub itoa-IsDigit : (n : ℕ) → All IsDigit (itoa n)
unfolding itoa
itoa-IsDigit n = ground (arith, emit-IsDigit n n [])

scan-itoa : (n : ℕ) → scan 0 (itoa n) ≡ some n
unfolding itoa scan
scan-itoa n = ground (arith, scan-emit n n [])

-- A number in the range of int is read back.
pub atoi-itoa : (n : ℕ) → n < 2 ^ 63 → atoi (itoa n) ≡ some (pos n)
unfolding atoi
atoi-itoa n h =
    let (d, s, e) = itoa-cons n in
    let digits : All IsDigit (d ∷ s) = rw e at (itoa-IsDigit n) in
    let value : scan 0 (d ∷ s) ≡ some n = rw e at (scan-itoa n) in rw e (ground arith)
