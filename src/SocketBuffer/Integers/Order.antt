-- ===== src/SocketBuffer/Integers/Order.antt =====
-- The order in which the bytes of an integer are appended (socket_buffer.cpp), by host.
use mathlib.Core.List.{reverse, reverse-reverse}
use reechat_base.Base.{
  ℕ, ◌+◌, ◌*◌, ◌^◌, ◌≤◌, ◌<◌, ◌≡◌, ap, ◌∙◌, List, ◌++◌, some, length, take-all, arith,
}
use reechat_base.Endian.{Host, little, big, le_bytes, be_bytes}
use reechat_base.Endian.Bytes.{length-memory, memory-host_to_network}
use reechat_base.Endian.Swap.{evppbswap_64-of_be}
use reechat_base.SocketBuffer.{SocketBuffer, write}
use reechat_base.SocketBuffer.Grow.{IsValid, unread, Allocates}
use reechat_base.SocketBuffer.Editing.{Holds, write_lem}
use reechat_base.SocketBuffer.Integers.{
  swapped, networked, append_int64, append_int32, append_int16,
}

-- On a little-endian host the macro brings the bytes into network order; on a big-endian host it
-- takes them out of it.
swapped-little : (x : ℕ) → swapped little x ≡ be_bytes 8 x
swapped-little x = ap (le_bytes 8) (evppbswap_64-of_be x) ∙ memory-host_to_network little 8 x

swapped-big : (x : ℕ) → swapped big x ≡ le_bytes 8 x
swapped-big x = ap reverse (swapped-little x) ∙ reverse-reverse (le_bytes 8 x)

-- The bytes of a 64-bit integer as they are appended.
abbrev pub order_64 : Host → ℕ → List ℕ
order_64 little x = be_bytes 8 x
order_64 big x = le_bytes 8 x

swapped-order : (host : Host) (x : ℕ) → swapped host x ≡ order_64 host x
swapped-order little x = swapped-little x
swapped-order big x = swapped-big x

module _ (allocate : ℕ → List ℕ) (host : Host) (allocates : Allocates allocate) where
  pub write_all :
      {b : SocketBuffer} (d : List ℕ) (n : ℕ)
      → IsValid b
      → 2 * b.capacity + n < 2 ^ 64
      → length d ≡ n
      → (c : SocketBuffer) × (write allocate b d n ≡ some c)
        × Holds c (unread b ++ d)
        × (c.capacity ≤ 2 * b.capacity + n)
  write_all {b} d n v fits size_n =
      let (c, e, valid, holds, _, bound) = write_lem allocate d n allocates v fits (omega arith) in
      (
        c,
        e,
        record { valid = valid; holds = holds ∙ ap (◌++◌ (unread b)) (take-all n d (omega arith)) },
        bound,
      )

  append_networked :
      {b : SocketBuffer} (n x : ℕ)
      → IsValid b
      → 2 * b.capacity + n < 2 ^ 64
      → (c : SocketBuffer) × (write allocate b (networked host n x) n ≡ some c)
        × Holds c (unread b ++ be_bytes n x)
  append_networked {b} n x v fits =
      let d = networked host n x in
      let (c, e, holds, _) = write_all d n v fits (length-memory host n _) in
      (c, e, rw (memory-host_to_network host n x) at holds)

  -- Integers of 16 and 32 bits are appended in network order, highest byte first, on every host; those of
  -- 64 bits on a little-endian host only, and on a big-endian one lowest byte first.
  pub append_network_order :
      {b : SocketBuffer} (x : ℕ)
      → IsValid b
      → 2 * b.capacity + 8 < 2 ^ 64
      → ((c : SocketBuffer) × (append_int16 host allocate b x ≡ some c)
          × Holds c (unread b ++ be_bytes 2 x))
        × ((c : SocketBuffer) × (append_int32 host allocate b x ≡ some c)
            × Holds c (unread b ++ be_bytes 4 x))
        × ((c : SocketBuffer) × (append_int64 host allocate b x ≡ some c)
            × Holds c (unread b ++ order_64 host x))
  unfolding append_int16 append_int32 append_int64
  append_network_order {b} x v fits =
      let (c, w, holds, _) = write_all (swapped host x) 8 v fits (length-memory host 8 _) in
      (
        append_networked 2 x v (omega arith),
        append_networked 4 x v (omega arith),
        (c, w, rw (swapped-order host x) at holds),
      )
