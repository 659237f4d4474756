-- ===== src/Prelude/Bits.antt =====
-- The two bit operations of the program, `hi << k | lo` and `a & (2^k - 1)`, as arithmetic.
use Prim.Native.Nat.{
  ℕ, zero, suc, ◌+◌, ◌-◌, ◌*◌, ◌/◌, ◌%◌, ◌^◌, ◌≤◌, ◌<◌, min, max, bit_and, bit_or, digits,
  bit_and-bitwise, bit_or-bitwise,
}
use mathlib.Core.Path.{◌≡◌, refl, ap, sym, ◌∙◌}
use native.Mathlib.Nat.{
  pow-suc, mul_assoc, mod-lt, mod-add-div', add-mul-mod_self_right, mod-eq_of_lt,
}
use native.Mathlib.Omega.{arith}

-- The recursion on the digits gives one result for every fuel that covers the first number.
digits_fuel_or :
    (n m a b : ℕ) → a ≤ n → a ≤ m → digits (λ b. b) max n a b ≡ digits (λ b. b) max m a b
digits_fuel_or zero zero a b p q = refl
digits_fuel_or zero (suc m) zero b p q = refl
digits_fuel_or zero (suc m) (suc a) b p q = absurd (omega arith)
digits_fuel_or (suc n) zero zero b p q = refl
digits_fuel_or (suc n) zero (suc a) b p q = absurd (omega arith)
digits_fuel_or (suc n) (suc m) zero b p q = refl
digits_fuel_or (suc n) (suc m) (suc a) b p q =
    omega (arith, digits_fuel_or n m (suc a / 2) (b / 2) (omega arith) (omega arith))

zero-bit_or : (b : ℕ) → bit_or 0 b ≡ b
zero-bit_or b = bit_or-bitwise 0 b

bit_or_step : (a b : ℕ) → bit_or a b ≡ bit_or (a / 2) (b / 2) * 2 + max (a % 2) (b % 2)
bit_or_step zero b = omega (arith, zero-bit_or b, zero-bit_or (b / 2))
bit_or_step (suc a) b = omega (
  arith,
  bit_or-bitwise (suc a) b,
  bit_or-bitwise (suc a / 2) (b / 2),
  digits_fuel_or a (suc a / 2) (suc a / 2) (b / 2) (omega arith) (omega arith),
)

bit_or-zero_below : (n a : ℕ) → a ≤ n → bit_or a 0 ≡ a
bit_or-zero_below n zero h = zero-bit_or 0
bit_or-zero_below zero (suc a) h = absurd (omega arith)
bit_or-zero_below (suc n) (suc a) h =
    omega (arith, bit_or_step (suc a) 0, bit_or-zero_below n (suc a / 2) (omega arith))

-- The low k bits of the first number are 0, and the second number has only those.
pub bit_or_fields : (k hi lo : ℕ) → lo < 2 ^ k → bit_or (hi * 2 ^ k) lo ≡ hi * 2 ^ k + lo
bit_or_fields zero hi lo h =
    let none_left : lo ≡ 0 = omega arith in
    let whole : hi * 2 ^ 0 ≡ hi = omega arith in
    rw (none_left, whole) (omega (arith, bit_or-zero_below hi hi (omega arith)))
bit_or_fields (suc k) hi lo h =
    let doubled : hi * 2 ^ suc k ≡ hi * 2 ^ k * 2 =
      ap (λ (t : ℕ). hi * t) (pow-suc 2 k) ∙ sym (mul_assoc hi (2 ^ k) 2) in
    let halved : hi * 2 ^ suc k / 2 ≡ hi * 2 ^ k = omega arith in
    let fits : lo / 2 < 2 ^ k = omega (arith, pow-suc 2 k) in
    let rest : bit_or (hi * 2 ^ suc k / 2) (lo / 2) ≡ hi * 2 ^ k + lo / 2 =
      rw halved (bit_or_fields k hi (lo / 2) fits) in
    omega (arith, bit_or_step (hi * 2 ^ suc k) lo)

digits_fuel_and :
    (n m a b : ℕ) → a ≤ n → a ≤ m → digits (λ b. zero) min n a b ≡ digits (λ b. zero) min m a b
digits_fuel_and zero zero a b p q = refl
digits_fuel_and zero (suc m) zero b p q = refl
digits_fuel_and zero (suc m) (suc a) b p q = absurd (omega arith)
digits_fuel_and (suc n) zero zero b p q = refl
digits_fuel_and (suc n) zero (suc a) b p q = absurd (omega arith)
digits_fuel_and (suc n) (suc m) zero b p q = refl
digits_fuel_and (suc n) (suc m) (suc a) b p q =
    omega (arith, digits_fuel_and n m (suc a / 2) (b / 2) (omega arith) (omega arith))

bit_and_step : (x y : ℕ) → bit_and x y ≡ bit_and (x / 2) (y / 2) * 2 + min (x % 2) (y % 2)
bit_and_step zero y = omega (arith, bit_and-bitwise 0 y, bit_and-bitwise 0 (y / 2))
bit_and_step (suc x) y = omega (
  arith,
  bit_and-bitwise (suc x) y,
  bit_and-bitwise (suc x / 2) (y / 2),
  digits_fuel_and x (suc x / 2) (suc x / 2) (y / 2) (omega arith) (omega arith),
)

bit_and-zero_below : (n a : ℕ) → a ≤ n → bit_and a 0 ≡ 0
bit_and-zero_below n zero h = bit_and-bitwise 0 0
bit_and-zero_below zero (suc a) h = absurd (omega arith)
bit_and-zero_below (suc n) (suc a) h =
    omega (arith, bit_and_step (suc a) 0, bit_and-zero_below n (suc a / 2) (omega arith))

mod-double : (a n : ℕ) → 0 < n → a % (n * 2) ≡ a / 2 % n * 2 + a % 2
mod-double a n h =
    let q : ℕ = a / 2 / n in
    let x : ℕ = a / 2 % n * 2 + a % 2 in
    let small : x < n * 2 = omega (arith, mod-lt (a / 2) h) in
    let parts : a ≡ x + q * (n * 2) =
      omega (arith, mod-add-div' (a / 2) n, mul_assoc (a / 2 / n) n 2) in
    ap (λ (t : ℕ). t % (n * 2)) parts ∙ add-mul-mod_self_right x q (n * 2) ∙ mod-eq_of_lt small

pow_pos : (k : ℕ) → 0 < 2 ^ k
pow_pos zero = omega arith
pow_pos (suc k) = omega (arith, pow-suc 2 k, pow_pos k)

-- A mask of k ones is the remainder by 2^k.
pub bit_and_mask : (k a : ℕ) → bit_and a (2 ^ k - 1) ≡ a % 2 ^ k
bit_and_mask zero a = omega (arith, bit_and-zero_below a a (omega arith))
bit_and_mask (suc k) a =
    let halved : (2 ^ suc k - 1) / 2 ≡ 2 ^ k - 1 = omega (arith, pow-suc 2 k) in
    let rest : bit_and (a / 2) ((2 ^ suc k - 1) / 2) ≡ a / 2 % 2 ^ k =
      rw halved (bit_and_mask k (a / 2)) in
    omega (
      arith,
      bit_and_step a (2 ^ suc k - 1),
      pow-suc 2 k,
      pow_pos k,
      mod-double a (2 ^ k) (pow_pos k),
      ap (λ (t : ℕ). a % t) (pow-suc 2 k),
    )
