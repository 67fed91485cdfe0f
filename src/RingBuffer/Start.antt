-- ===== src/RingBuffer/Start.antt =====
-- A new ring buffer.
use native.Mathlib.Nat.{one-le-pow, pow-le-pow_right}
use reechat_base.Base.{ℕ, ◌^◌, ◌≤◌, ◌<◌, ◌≡◌, refl, List, [], length, arith}
use reechat_base.RingBuffer.{init}
use reechat_base.RingBuffer.Geometry.{IsValid}
use reechat_base.RingBuffer.Contents.{contents}

-- A new ring buffer is valid and holds nothing, for a capacity that is a power of two of at most 2 ^ 31
-- and an array of as many bytes, whatever they are.
pub init-IsValid :
    (bits : ℕ) (storage : List ℕ)
    → bits < 32
    → length storage ≡ 2 ^ bits
    → IsValid (init (2 ^ bits) storage) × (contents (init (2 ^ bits) storage) ≡ [])
unfolding init
init-IsValid bits storage small size =
    let low : 1 ≤ 2 ^ bits = one-le-pow bits 2 (omega arith) in
    let high : 2 ^ bits ≤ 2 ^ 31 = pow-le-pow_right {n = 2} (omega arith) {j = 31} (omega arith) in
    (
      record {
        bits = bits;
        bits_small = small;
        power = refl;
        mask = omega arith;
        storage = size;
        read_word = omega arith;
        write_word = omega arith;
        fits = omega arith;
      },
      refl,
    )
