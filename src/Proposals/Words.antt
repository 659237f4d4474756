-- ===== src/Proposals/Words.antt =====
-- The words of messageTypes.go: a zxid is an epoch and a count of 16 bits each in a uint32, and a
-- uint32 is four bytes, the lowest first (the native order of a little-endian machine).
use Prim.Native.Nat.{bit_and, bit_or}
use dsc_zookeeper.Prelude.{
  ℕ, ◌+◌, ◌*◌, ◌/◌, ◌%◌, ◌^◌, ◌<◌, ◌≡◌, ◌↔◌, ◌⊎◌, Bytes, [], ◌∷◌, Option, none, some, arith,
}
use dsc_zookeeper.Prelude.Bits.{bit_or_fields, bit_and_mask}

-- (uint32(epoch) << 16) | uint32(count)
unfoldable pub get_zxid_as_int : ℕ → ℕ → ℕ
get_zxid_as_int epoch count = bit_or (epoch * 2 ^ 16 % 2 ^ 32) count

-- uint16(zxid >> 16) and uint16(zxid & 0xFFFF)
unfoldable pub decompose_zxid : ℕ → ℕ × ℕ
decompose_zxid zxid = (zxid / 2 ^ 16 % 2 ^ 16, bit_and zxid 0xFFFF % 2 ^ 16)

unfoldable pub uint32_to_bytes : ℕ → Bytes
uint32_to_bytes n = n % 256 ∷ n / 256 % 256 ∷ n / 65536 % 256 ∷ n / 16777216 % 256 ∷ []

-- The call panics on fewer than four bytes, and reads the first four of more.
unfoldable pub bytes_to_uint32 : Bytes → Option ℕ
bytes_to_uint32 (a ∷ b ∷ c ∷ d ∷ rest) = some (a + b * 256 + c * 65536 + d * 16777216)
bytes_to_uint32 _ = none

-- In arithmetic, for fields that fit.
pub get_zxid_as_int-eq :
    (epoch count : ℕ)
    → epoch < 2 ^ 16
    → count < 2 ^ 16
    → get_zxid_as_int epoch count ≡ epoch * 65536 + count
unfolding get_zxid_as_int
get_zxid_as_int-eq epoch count he hc =
    let fits : epoch * 2 ^ 16 % 2 ^ 32 ≡ epoch * 2 ^ 16 = omega arith in
    rw fits (bit_or_fields 16 epoch count hc)

-- The zxid of an epoch and a count of 16 bits is taken apart into that epoch and that count.
pub decompose_zxid-get_zxid_as_int :
    (epoch count : ℕ)
    → epoch < 2 ^ 16
    → count < 2 ^ 16
    → decompose_zxid (get_zxid_as_int epoch count) ≡ (epoch, count)
unfolding decompose_zxid
decompose_zxid-get_zxid_as_int epoch count he hc =
    rw (get_zxid_as_int-eq epoch count he hc)
      (rw (bit_and_mask 16 (epoch * 65536 + count)) (ground arith))

-- Zxids of epochs and counts of 16 bits are ordered as numbers exactly as the pairs are: by the
-- epoch first, then by the count.
pub get_zxid_as_int_order :
    (e c e' c' : ℕ)
    → e < 2 ^ 16
    → c < 2 ^ 16
    → e' < 2 ^ 16
    → c' < 2 ^ 16
    → (get_zxid_as_int e c < get_zxid_as_int e' c') ↔ ((e < e') ⊎ ((e ≡ e') × (c < c')))
get_zxid_as_int_order e c e' c' he hc he' hc' =
    rw (get_zxid_as_int-eq e c he hc, get_zxid_as_int-eq e' c' he' hc')
      ((λ h. grind arith), (λ h. grind arith))

-- A number below 2 ^ 32 is read back from its four bytes.
pub bytes_to_uint32-uint32_to_bytes :
    (n : ℕ) → n < 2 ^ 32 → bytes_to_uint32 (uint32_to_bytes n) ≡ some n
unfolding bytes_to_uint32 uint32_to_bytes
bytes_to_uint32-uint32_to_bytes n h = ground arith
