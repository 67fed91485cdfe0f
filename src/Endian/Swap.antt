-- ===== src/Endian/Swap.antt =====
-- `evppbswap_64` reverses the eight bytes of its argument.
use reechat_base.Base.{ℕ, ◌+◌, ◌*◌, ◌/◌, ◌%◌, ◌^◌, ◌<◌, ◌≡◌, refl, ◌∙◌, arith, u64}
use reechat_base.Endian.{le_bytes, of_be, evppbswap_64, ◌∣◌}
use reechat_base.Endian.Bitwise.{bit_and-byte, bit_or-fields}

gather :
    (a b c d e f g h : ℕ)
    → a < 256
    → b < 256
    → c < 256
    → d < 256
    → e < 256
    → f < 256
    → g < 256
    → (a ∣ b * 2 ^ 8 ∣ c * 2 ^ 16 ∣ d * 2 ^ 24 ∣ e * 2 ^ 32 ∣ f * 2 ^ 40 ∣ g * 2 ^ 48 ∣ h * 2 ^ 56)
      ≡ a + b * 2 ^ 8 + c * 2 ^ 16 + d * 2 ^ 24 + e * 2 ^ 32 + f * 2 ^ 40 + g * 2 ^ 48 + h * 2 ^ 56
gather a b c d e f g h pa pb pc pd pe pf pg =
    rw
      (
        bit_or-fields 8 a b pa,
        bit_or-fields 16 (a + b * 2 ^ 8) c (omega arith),
        bit_or-fields 24 (a + b * 2 ^ 8 + c * 2 ^ 16) d (omega arith),
        bit_or-fields 32 (a + b * 2 ^ 8 + c * 2 ^ 16 + d * 2 ^ 24) e (omega arith),
        bit_or-fields 40 (a + b * 2 ^ 8 + c * 2 ^ 16 + d * 2 ^ 24 + e * 2 ^ 32) f (omega arith),
        bit_or-fields 48 (a + b * 2 ^ 8 + c * 2 ^ 16 + d * 2 ^ 24 + e * 2 ^ 32 + f * 2 ^ 40) g
            (omega arith),
        bit_or-fields 56
            (a + b * 2 ^ 8 + c * 2 ^ 16 + d * 2 ^ 24 + e * 2 ^ 32 + f * 2 ^ 40 + g * 2 ^ 48) h
            (omega arith),
      )
      refl

abbrev byte : ℕ → ℕ → ℕ
byte x k = x / 2 ^ k % 256

swap_as_sum :
    (x : ℕ)
    → evppbswap_64 x
      ≡ byte x 56
        + byte x 48 * 2 ^ 8
        + byte x 40 * 2 ^ 16
        + byte x 32 * 2 ^ 24
        + byte x 24 * 2 ^ 32
        + byte x 16 * 2 ^ 40
        + byte x 8 * 2 ^ 48
        + byte x 0 * 2 ^ 56
unfolding evppbswap_64
swap_as_sum x =
    let e7 : byte x 56 * 2 ^ 56 / 2 ^ 56 ≡ byte x 56 = omega arith in
    let e6 : byte x 48 * 2 ^ 48 / 2 ^ 40 ≡ byte x 48 * 2 ^ 8 = omega arith in
    let e5 : byte x 40 * 2 ^ 40 / 2 ^ 24 ≡ byte x 40 * 2 ^ 16 = omega arith in
    let e4 : byte x 32 * 2 ^ 32 / 2 ^ 8 ≡ byte x 32 * 2 ^ 24 = omega arith in
    let e3 : u64 (byte x 24 * 2 ^ 24 * 2 ^ 8) ≡ byte x 24 * 2 ^ 32 = omega arith in
    let e2 : u64 (byte x 16 * 2 ^ 16 * 2 ^ 24) ≡ byte x 16 * 2 ^ 40 = omega arith in
    let e1 : u64 (byte x 8 * 2 ^ 8 * 2 ^ 40) ≡ byte x 8 * 2 ^ 48 = omega arith in
    let e0 : u64 (byte x 0 * 2 ^ 0 * 2 ^ 56) ≡ byte x 0 * 2 ^ 56 = omega arith in
    rw
      (
        bit_and-byte 56 x,
        bit_and-byte 48 x,
        bit_and-byte 40 x,
        bit_and-byte 32 x,
        bit_and-byte 24 x,
        bit_and-byte 16 x,
        bit_and-byte 8 x,
        bit_and-byte 0 x,
        e7,
        e6,
        e5,
        e4,
        e3,
        e2,
        e1,
        e0,
      )
      (gather (byte x 56) (byte x 48) (byte x 40) (byte x 32) (byte x 24) (byte x 16) (byte x 8)
        (byte x 0) (omega arith) (omega arith) (omega arith) (omega arith) (omega arith)
        (omega arith) (omega arith))

-- The swapped number has the bytes of the argument in the other order.
pub evppbswap_64-of_be : (x : ℕ) → evppbswap_64 x ≡ of_be (le_bytes 8 x)
evppbswap_64-of_be x = swap_as_sum x ∙ omega arith

-- Swapping twice gives the argument back.
pub evppbswap_64-evppbswap_64 : (x : ℕ) → x < 2 ^ 64 → evppbswap_64 (evppbswap_64 x) ≡ x
evppbswap_64-evppbswap_64 x h = omega (arith, swap_as_sum (evppbswap_64 x), swap_as_sum x)

pub evppbswap_64-lt : (x : ℕ) → evppbswap_64 x < 2 ^ 64
evppbswap_64-lt x = omega (arith, swap_as_sum x)
