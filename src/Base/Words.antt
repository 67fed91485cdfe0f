-- ===== src/Base/Words.antt =====
-- Unsigned machine words: sums and differences that wrap, and `x & (2 ^ k - 1)`.
use Prim.Native.Nat.{
  ℕ, zero, suc, ◌+◌, ◌-◌, ◌*◌, ◌/◌, ◌%◌, ◌^◌, ◌≤◌, ◌<◌, ◌∣◌, min, bit_and, digits, bit_and-bitwise,
}
use mathlib.Core.Path.{◌≡◌, ◌∙◌, ap}
use native.Mathlib.Nat.{
  pow-suc, one-le-pow, mod-mod_of_dvd, dvd_refl, one-dvd, mul-dvd-mul, div-add-mod,
  mul-add-mod_self_left, mod-eq_of_lt,
}
use native.Mathlib.Omega.{arith}

-- `uint16_t`, `uint32_t` and the 64-bit `size_t` and `uint64_t`.
abbrev pub u16 : ℕ → ℕ
u16 n = n % 2 ^ 16

abbrev pub u32 : ℕ → ℕ
u32 n = n % 2 ^ 32

abbrev pub u64 : ℕ → ℕ
u64 n = n % 2 ^ 64

abbrev pub add32 : ℕ → ℕ → ℕ
add32 a b = u32 (a + b)

abbrev pub sub32 : ℕ → ℕ → ℕ
sub32 a b = u32 (a + 2 ^ 32 - b)

abbrev pub add64 : ℕ → ℕ → ℕ
add64 a b = u64 (a + b)

abbrev pub sub64 : ℕ → ℕ → ℕ
sub64 a b = u64 (a + 2 ^ 64 - b)

mod_double : (p x : ℕ) → 1 ≤ p → x % (p * 2) ≡ x / 2 % p * 2 + x % 2
mod_double p x h =
    let low : x / 2 % p * 2 + x % 2 < p * 2 = omega arith in
    let whole : x ≡ p * 2 * (x / 2 / p) + (x / 2 % p * 2 + x % 2) =
      omega (arith, ap (λ (t : ℕ). t * 2) (div-add-mod (x / 2) p)) in
    ap (λ t. t % (p * 2)) whole ∙ mul-add-mod_self_left (p * 2) (x / 2 / p) _ ∙ mod-eq_of_lt low

-- The digits of a mask of `k` ones: the lowest is 1 and the others are the mask of `k - 1` ones.
masked_digits : (n k a : ℕ) → a ≤ n → digits (λ b. zero) min n a (2 ^ k - 1) ≡ a % 2 ^ k
masked_digits zero k zero h = omega arith
masked_digits zero k (suc a) h = absurd (omega arith)
masked_digits (suc n) k zero h = omega arith
masked_digits (suc n) zero (suc a) h = omega (arith, masked_digits n zero (suc a / 2) (omega arith))
masked_digits (suc n) (suc k) (suc a) h =
    let half : (2 ^ suc k - 1) / 2 ≡ 2 ^ k - 1 = omega (arith, pow-suc 2 k) in
    let ones : (2 ^ suc k - 1) % 2 ≡ 1 = omega (arith, pow-suc 2 k, one-le-pow k 2) in
    rw
      (
        half,
        ones,
        masked_digits n k (suc a / 2) (omega arith),
        pow-suc,
        mod_double (2 ^ k) (suc a) (one-le-pow k 2 (omega arith)),
      )
      (omega arith)

-- A mask of `k` low bits is the remainder by `2 ^ k`.
pub bit_and-mask : (k a : ℕ) → bit_and a (2 ^ k - 1) ≡ a % 2 ^ k
bit_and-mask k a = bit_and-bitwise a (2 ^ k - 1) ∙ masked_digits a k a (omega arith)

-- Powers of two divide the larger ones, so an index survives the wrap of its counter.
pub two_pow-dvd : (k n : ℕ) → k ≤ n → 2 ^ k ∣ 2 ^ n
two_pow-dvd zero zero h = dvd_refl _
two_pow-dvd (suc k) zero h = absurd (omega arith)
two_pow-dvd (suc k) (suc n) h =
    rw (pow-suc, pow-suc) (mul-dvd-mul (2 ^ k) 2 (two_pow-dvd k n (omega arith)) (dvd_refl 2))
two_pow-dvd zero (suc n) h = one-dvd _

pub wrap32-mod : (k x : ℕ) → k ≤ 32 → u32 x % 2 ^ k ≡ x % 2 ^ k
wrap32-mod k x h = mod-mod_of_dvd (2 ^ k) x (two_pow-dvd k 32 h)
