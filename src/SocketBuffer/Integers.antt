-- ===== src/SocketBuffer/Integers.antt =====
-- The integers of socket_buffer.cpp and socket_buffer.hpp, as bit patterns. `NetworkToHost16` of
-- webrtc's byteorder.h, which `PeekUInt16` calls, is a parameter.
pub mod Reading
pub mod Order
pub mod RoundTrip
use reechat_base.Base.{ℕ, List, [], ◌∷◌, Option, none, some, leb, ◌>>=◌, ◌>>◌, require, u16}
use reechat_base.Endian.{Host, memory, of_memory, host_to_network, evppbswap_64}
use reechat_base.SocketBuffer.{SocketBuffer, size, write, prepend, skip, peek, unwrite_bytes}

module _ (host : Host) where
  -- What the host stores for `evppbswap_64(x)`.
  abbrev pub swapped : ℕ → List ℕ
  swapped x = memory host 8 (evppbswap_64 x)

  -- What the host stores for `htonl(x)` and `htons(x)`.
  abbrev pub networked : ℕ → ℕ → List ℕ
  networked n x = memory host n (host_to_network host n x)

  module _ (allocate : ℕ → List ℕ) where
    unfoldable pub append_int64 : SocketBuffer → ℕ → Option SocketBuffer
    append_int64 b x = write allocate b (swapped x) 8

    unfoldable pub append_int32 : SocketBuffer → ℕ → Option SocketBuffer
    append_int32 b x = write allocate b (networked 4 x) 4

    unfoldable pub append_int16 : SocketBuffer → ℕ → Option SocketBuffer
    append_int16 b x = write allocate b (networked 2 x) 2

    unfoldable pub append_int8 : SocketBuffer → ℕ → Option SocketBuffer
    append_int8 b x = write allocate b (memory host 1 x) 1

    -- The byte 0 behind the unread ones, outside the length.
    unfoldable pub to_text : SocketBuffer → Option SocketBuffer
    unfolding append_int8
    to_text b = append_int8 b 0 >>= λ c. unwrite_bytes c 1

  unfoldable pub prepend_int64 : SocketBuffer → ℕ → Option SocketBuffer
  prepend_int64 b x = prepend b (swapped x) 8

  unfoldable pub prepend_int32 : SocketBuffer → ℕ → Option SocketBuffer
  prepend_int32 b x = prepend b (networked 4 x) 4

  unfoldable pub prepend_int16 : SocketBuffer → ℕ → Option SocketBuffer
  prepend_int16 b x = prepend b (networked 2 x) 2

  unfoldable pub prepend_int8 : SocketBuffer → ℕ → Option SocketBuffer
  prepend_int8 b x = prepend b (memory host 1 x) 1

  unfoldable pub peek_int64 : SocketBuffer → Option ℕ
  peek_int64 b = do
    require (leb 8 (size b))
    bytes ← peek b 8
    some (evppbswap_64 (of_memory host bytes))

  unfoldable pub peek_int32 : SocketBuffer → Option ℕ
  peek_int32 b = do
    require (leb 4 (size b))
    bytes ← peek b 4
    some (host_to_network host 4 (of_memory host bytes))

  unfoldable pub peek_int16 : SocketBuffer → Option ℕ
  peek_int16 b = do
    require (leb 2 (size b))
    bytes ← peek b 2
    some (host_to_network host 2 (of_memory host bytes))

  unfoldable pub peek_uint16 : (ℕ → ℕ) → SocketBuffer → Option ℕ
  peek_uint16 network_to_host_16 b = do
    require (leb 2 (size b))
    bytes ← peek b 2
    some (network_to_host_16 (of_memory host bytes))

  unfoldable pub peek_int8 : SocketBuffer → Option ℕ
  peek_int8 b = do require (leb 1 (size b)); bytes ← peek b 1; some (of_memory host bytes)

  unfoldable pub read_int64 : SocketBuffer → Option (ℕ × SocketBuffer)
  unfolding peek_int64
  read_int64 b = do result ← peek_int64 b; some (result, skip b 8)

  unfoldable pub read_int32 : SocketBuffer → Option (ℕ × SocketBuffer)
  unfolding peek_int32
  read_int32 b = do result ← peek_int32 b; some (result, skip b 4)

  unfoldable pub read_int16 : SocketBuffer → Option (ℕ × SocketBuffer)
  unfolding peek_int16
  read_int16 b = do result ← peek_int16 b; some (result, skip b 2)

  -- The `int16_t` of `PeekInt16` returned as a `uint16_t`: the same bits.
  unfoldable pub read_uint16 : SocketBuffer → Option (ℕ × SocketBuffer)
  unfolding peek_int16
  read_uint16 b = do result ← peek_int16 b; some (u16 result, skip b 2)

  unfoldable pub read_int8 : SocketBuffer → Option (ℕ × SocketBuffer)
  unfolding peek_int8
  read_int8 b = do result ← peek_int8 b; some (result, skip b 1)
