-- ===== src/Endian/Bitwise.antt =====
-- A mask of eight ones at any height picks a byte, and `|` of separate fields is their sum.
use Prim.Native.Nat.{min, max, digits, bitwise, bit_and-bitwise, bit_or-bitwise, bit_and, bit_or}
use native.Mathlib.Nat.{pow-suc, mul_assoc, div-div-eq-div-mul}
use reechat_base.Base.{
  ℕ, zero, suc, ◌+◌, ◌*◌, ◌/◌, ◌%◌, ◌^◌, ◌≤◌, ◌<◌, ◌≡◌, refl, sym, ap, ◌∙◌, arith, bit_and-mask,
}

-- Fuel beyond the first number adds no digits.
module _ (z : ℕ → ℕ) (f : ℕ → ℕ → ℕ) where
  more_fuel : (n m a b : ℕ) → a ≤ n → a ≤ m → digits z f n a b ≡ digits z f m a b
  more_fuel zero zero zero b p q = refl
  more_fuel zero (suc m) zero b p q = refl
  more_fuel (suc n) zero zero b p q = refl
  more_fuel (suc n) (suc m) zero b p q = refl
  more_fuel zero m (suc a) b p q = absurd (omega arith)
  more_fuel (suc n) zero (suc a) b p q = absurd (omega arith)
  more_fuel (suc n) (suc m) (suc a) b p q =
      ap (λ t. t * 2 + f (suc a % 2) (b % 2))
        (more_fuel n m (suc a / 2) (b / 2) (omega arith) (omega arith))

  lowest_digit :
      (a b : ℕ)
      → bitwise z f (suc a) b ≡ bitwise z f (suc a / 2) (b / 2) * 2 + f (suc a % 2) (b % 2)
  lowest_digit a b =
      ap (λ t. t * 2 + f (suc a % 2) (b % 2))
        (more_fuel a (suc a / 2) (suc a / 2) (b / 2) (omega arith) (omega arith))

bit_and-digit : (a b : ℕ) → bit_and a b ≡ bit_and (a / 2) (b / 2) * 2 + min (a % 2) (b % 2)
bit_and-digit zero b = omega (arith, bit_and-bitwise 0 b, bit_and-bitwise 0 (b / 2))
bit_and-digit (suc a) b =
    bit_and-bitwise (suc a) b
    ∙ lowest_digit (λ _. 0) min a b
    ∙ ap (λ t. t * 2 + min (suc a % 2) (b % 2)) (sym (bit_and-bitwise (suc a / 2) (b / 2)))

bit_or-digit : (a b : ℕ) → bit_or a b ≡ bit_or (a / 2) (b / 2) * 2 + max (a % 2) (b % 2)
bit_or-digit zero b = omega (arith, bit_or-bitwise 0 b, bit_or-bitwise 0 (b / 2))
bit_or-digit (suc a) b =
    bit_or-bitwise (suc a) b
    ∙ lowest_digit (λ y. y) max a b
    ∙ ap (λ t. t * 2 + max (suc a % 2) (b % 2)) (sym (bit_or-bitwise (suc a / 2) (b / 2)))

bit_and-even : (a x : ℕ) → bit_and a (x * 2) ≡ bit_and (a / 2) x * 2
bit_and-even a x =
    let half : x * 2 / 2 ≡ x = omega arith in
    omega (arith, bit_and-digit a (x * 2), ap (bit_and (a / 2)) half)

bit_or-even : (a x : ℕ) → bit_or a (x * 2) ≡ bit_or (a / 2) x * 2 + a % 2
bit_or-even a x =
    let half : x * 2 / 2 ≡ x = omega arith in
    omega (arith, bit_or-digit a (x * 2), ap (bit_or (a / 2)) half)

shift-suc : (m k : ℕ) → m * 2 ^ suc k ≡ m * 2 ^ k * 2
shift-suc m k = ap (λ (t : ℕ). m * t) (pow-suc 2 k) ∙ sym (mul_assoc m (2 ^ k) 2)

-- A mask moved up by `k` bits picks from the number moved down by `k` bits.
bit_and-shift : (k a m : ℕ) → bit_and a (m * 2 ^ k) ≡ bit_and (a / 2 ^ k) m * 2 ^ k
bit_and-shift zero a m =
    let e : m * 1 ≡ m = omega arith in let f : a / 1 ≡ a = omega arith in rw (e, f) (omega arith)
bit_and-shift (suc k) a m =
    let down : a / 2 / 2 ^ k ≡ a / 2 ^ suc k =
      div-div-eq-div-mul a 2 (2 ^ k) ∙ ap (λ (t : ℕ). a / t) (omega (arith, pow-suc 2 k)) in
    ap (bit_and a) (shift-suc m k)
    ∙ bit_and-even a (m * 2 ^ k)
    ∙ ap (λ t. t * 2) (bit_and-shift k (a / 2) m ∙ ap (λ t. bit_and t m * 2 ^ k) down)
    ∙ sym (shift-suc (bit_and (a / 2 ^ suc k) m) k)

pub bit_and-byte : (k a : ℕ) → bit_and a (255 * 2 ^ k) ≡ a / 2 ^ k % 256 * 2 ^ k
bit_and-byte k a = bit_and-shift k a 255 ∙ ap (λ t. t * 2 ^ k) (bit_and-mask 8 (a / 2 ^ k))

-- A low field and a field above it.
pub bit_or-fields : (k low high : ℕ) → low < 2 ^ k → bit_or low (high * 2 ^ k) ≡ low + high * 2 ^ k
bit_or-fields zero low high h =
    let none_low : low ≡ 0 = omega arith in rw none_low (bit_or-bitwise 0 (high * 1) ∙ omega arith)
bit_or-fields (suc k) low high h =
    ap (bit_or low) (shift-suc high k)
    ∙ bit_or-even low (high * 2 ^ k)
    ∙ omega (arith, bit_or-fields k (low / 2) high (omega (arith, pow-suc 2 k)), shift-suc high k)
