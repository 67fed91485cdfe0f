-- ===== src/Endian.antt =====
-- Integers in memory on either kind of host, the C library's `htons` and `htonl`, and the macro
-- `evppbswap_64` of socket_buffer.hpp. An integer of `n` bytes is its bit pattern, below 256 ^ n.

pub mod Bytes
pub mod Bitwise
pub mod Swap
mod Tests
use mathlib.Core.List.{reverse}
use reechat_base.Base.{ℕ, zero, suc, ◌+◌, ◌*◌, ◌/◌, ◌%◌, ◌^◌, List, [], ◌∷◌, bit_and, u64}
use Prim.Native.Nat.{bit_or}

pub data Host : Type 0 where
  little big : Host

-- The lowest `n` bytes of a number, lowest first, and back.
abbrev pub le_bytes : ℕ → ℕ → List ℕ
le_bytes zero x = []
le_bytes (suc n) x = x % 256 ∷ le_bytes n (x / 256)

abbrev pub of_le : List ℕ → ℕ
of_le [] = 0
of_le (b ∷ bs) = b + 256 * of_le bs

-- Network order: highest byte first.
abbrev pub be_bytes : ℕ → ℕ → List ℕ
be_bytes n x = reverse (le_bytes n x)

abbrev pub of_be : List ℕ → ℕ
of_be bs = of_le (reverse bs)

-- What the host stores for an integer, and the integer that stored bytes are.
abbrev pub memory : Host → ℕ → ℕ → List ℕ
memory little n x = le_bytes n x
memory big n x = be_bytes n x

abbrev pub of_memory : Host → List ℕ → ℕ
of_memory little bs = of_le bs
of_memory big bs = of_be bs

-- `htons` and `htonl` (2 and 4 bytes) return the number that the host stores in network order;
-- `ntohs` and `ntohl` are the same functions.
abbrev pub host_to_network : Host → ℕ → ℕ → ℕ
host_to_network h n x = of_memory h (be_bytes n x)

infixl 75 ◌<<<◌ ◌>>>◌
abbrev pub ◌<<<◌ : ℕ → ℕ → ℕ
x <<< k = u64 (x * 2 ^ k)

abbrev pub ◌>>>◌ : ℕ → ℕ → ℕ
x >>> k = x / 2 ^ k

infixl 40 ◌∣◌
abbrev pub ◌∣◌ : ℕ → ℕ → ℕ
a ∣ b = bit_or a b

pub evppbswap_64 : ℕ → ℕ
evppbswap_64 x =
    bit_and x 0xff00000000000000 >>> 56
    ∣ bit_and x 0x00ff000000000000 >>> 40
    ∣ bit_and x 0x0000ff0000000000 >>> 24
    ∣ bit_and x 0x000000ff00000000 >>> 8
    ∣ bit_and x 0x00000000ff000000 <<< 8
    ∣ bit_and x 0x0000000000ff0000 <<< 24
    ∣ bit_and x 0x000000000000ff00 <<< 40
    ∣ bit_and x 0x00000000000000ff <<< 56
