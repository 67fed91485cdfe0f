-- ===== src/SocketBuffer/Integers/Reading.antt =====
-- What the reading of an integer gives where its bytes stand in front (socket_buffer.cpp).
use reechat_base.Base.{
  ℕ, ◌^◌, ◌≤◌, ◌<◌, ◌≡◌, ap, ◌∙◌, List, ◌++◌, some, length, take, drop, length-append,
  take-append_left, take-all, drop-append_left, drop-all, arith,
}
use reechat_base.Endian.{Host, memory, of_memory, host_to_network, evppbswap_64}
use reechat_base.Endian.Bytes.{
  length-memory, of_memory-memory, memory-host_to_network, host_to_network-be_bytes,
}
use reechat_base.Endian.Swap.{evppbswap_64-evppbswap_64, evppbswap_64-lt}
use reechat_base.SocketBuffer.{SocketBuffer, size, skip, peek}
use reechat_base.SocketBuffer.Grow.{IsValid, unread}
use reechat_base.SocketBuffer.Editing.{Holds, length-unread}
use reechat_base.SocketBuffer.Taking.{skip_lem, peek_lem}
use reechat_base.SocketBuffer.Integers.{
  swapped, networked, read_int64, read_int32, read_int16, read_uint16, read_int8,
}

-- The first bytes of a buffer are there to be peeked at and skipped.
module _ {b : SocketBuffer} (v : IsValid b) (bytes rest : List ℕ)
    (e : unread b ≡ bytes ++ rest) where
  enough : length bytes ≤ size b
  enough =
      let count = length-unread v in
      let ordered = v.ordered in
      let within = v.within in
      let word = v.word in omega (arith, ap length e, length-append bytes rest)

  front : (n : ℕ) → length bytes ≡ n → peek b n ≡ some bytes
  front n size_n =
      peek_lem v n (omega (arith, ap length e, length-append bytes rest))
      ∙ ap some (
          ap (take n) e
          ∙ take-append_left n bytes rest (omega arith)
          ∙ take-all n bytes (omega arith))

  after : (n : ℕ) → length bytes ≡ n → Holds (skip b n) rest
  after n size_n =
      let gone : drop n (unread b) ≡ rest =
        ap (drop n) e
        ∙ drop-append_left n bytes rest (omega arith)
        ∙ ap (λ l. l ++ rest) (drop-all n bytes (omega arith)) in
      rw gone at (skip_lem v n)

module _ (host : Host) {b : SocketBuffer} (v : IsValid b) (rest : List ℕ) (x : ℕ) where
  -- Reading eight bytes that `AppendInt64` or `PrependInt64` stored gives the number back.
  pub read_int64_lem :
      x < 2 ^ 64
      → unread b ≡ swapped host x ++ rest
      → (read_int64 host b ≡ some (x, skip b 8)) × Holds (skip b 8) rest
  unfolding read_int64
  read_int64_lem h e =
      let size_8 = length-memory host 8 (evppbswap_64 x) in
      let room = enough v (swapped host x) rest e in
      let value : evppbswap_64 (of_memory host (swapped host x)) ≡ x =
        ap evppbswap_64 (of_memory-memory host 8 (evppbswap_64 x) (evppbswap_64-lt x))
        ∙ evppbswap_64-evppbswap_64 x h in
      (
        ground (arith, front v (swapped host x) rest e 8 size_8, value),
        after v (swapped host x) rest e 8 size_8,
      )

  network_value :
      (n : ℕ) → x < 256 ^ n → host_to_network host n (of_memory host (networked host n x)) ≡ x
  network_value n h =
      ap (λ l. host_to_network host n (of_memory host l)) (memory-host_to_network host n x)
      ∙ host_to_network-be_bytes host n x h

  pub read_int32_lem :
      x < 2 ^ 32
      → unread b ≡ networked host 4 x ++ rest
      → (read_int32 host b ≡ some (x, skip b 4)) × Holds (skip b 4) rest
  unfolding read_int32
  read_int32_lem h e =
      let size_4 = length-memory host 4 (host_to_network host 4 x) in
      let room = enough v (networked host 4 x) rest e in
      (
        ground (arith, front v (networked host 4 x) rest e 4 size_4, network_value 4 h),
        after v (networked host 4 x) rest e 4 size_4,
      )

  pub read_int16_lem :
      x < 2 ^ 16
      → unread b ≡ networked host 2 x ++ rest
      → (read_int16 host b ≡ some (x, skip b 2))
        × (read_uint16 host b ≡ some (x, skip b 2))
        × Holds (skip b 2) rest
  unfolding read_int16 read_uint16
  read_int16_lem h e =
      let size_2 = length-memory host 2 (host_to_network host 2 x) in
      let room = enough v (networked host 2 x) rest e in
      let got = front v (networked host 2 x) rest e 2 size_2 in
      (
        ground (arith, got, network_value 2 h),
        ground (arith, got, network_value 2 h),
        after v (networked host 2 x) rest e 2 size_2,
      )

  pub read_int8_lem :
      x < 2 ^ 8
      → unread b ≡ memory host 1 x ++ rest
      → (read_int8 host b ≡ some (x, skip b 1)) × Holds (skip b 1) rest
  unfolding read_int8
  read_int8_lem h e =
      let size_1 = length-memory host 1 x in
      let room = enough v (memory host 1 x) rest e in
      (
        ground (arith, front v (memory host 1 x) rest e 1 size_1, of_memory-memory host 1 x h),
        after v (memory host 1 x) rest e 1 size_1,
      )
