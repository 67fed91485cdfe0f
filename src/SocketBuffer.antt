-- ===== src/SocketBuffer.antt =====
-- `SocketBuffer` of socket_buffer.cpp and socket_buffer.hpp: a growing byte buffer with a gap in
-- front for prepending. `none` is a failed `assert` or an access outside the array; `size_t` has
-- 64 bits. `allocate n` is what `new char[n]` returns, whose bytes are whatever they were.
pub mod Grow
pub mod Editing
pub mod Taking
pub mod Integers
pub mod Io
pub mod Api
pub mod Search
mod Tests
use reechat_base.Base.{
  ℕ, ◌+◌, ◌*◌, List, [], ◌∷◌, Option, none, some, ltb, leb, ◌==◌, if◌then◌else◌, ◌>>=◌, ◌>>◌,
  require, add64, sub64, u64, memcpy, slice, length, take, drop,
}

pub record SocketBuffer : Type 0 where
  pub buffer : List ℕ
  pub capacity : ℕ
  pub read_index : ℕ
  pub write_index : ℕ
  pub reserved_prepend_size : ℕ

-- `length()` and `size()`
abbrev pub size : SocketBuffer → ℕ
size b = sub64 b.write_index b.read_index

unfoldable pub writable_bytes : SocketBuffer → Option ℕ
writable_bytes b = do require (leb b.write_index b.capacity); some (sub64 b.capacity b.write_index)

abbrev pub prependable_bytes : SocketBuffer → ℕ
prependable_bytes b = b.read_index

module _ (allocate : ℕ → List ℕ) where
  -- The constructor, with its three assertions.
  unfoldable pub init : ℕ → ℕ → Option SocketBuffer
  unfolding writable_bytes
  init initial_size reserved_prepend_size = do
    let capacity = add64 reserved_prepend_size initial_size
    let b : SocketBuffer = record {
      buffer = allocate capacity;
      capacity = capacity;
      read_index = reserved_prepend_size;
      write_index = reserved_prepend_size;
      reserved_prepend_size = reserved_prepend_size;
    }
    require (size b == 0)
    writable ← writable_bytes b
    require (writable == initial_size)
    require (prependable_bytes b == reserved_prepend_size)
    some b

  -- A larger array, or the unread bytes moved to the front of this one.
  unfoldable pub grow : SocketBuffer → ℕ → Option SocketBuffer
  unfolding writable_bytes
  grow b len = do
    writable ← writable_bytes b
    if ltb (add64 writable (prependable_bytes b)) (add64 len b.reserved_prepend_size)
        then (let n = add64 (u64 (b.capacity * 2)) len in
            memcpy (allocate n) b.reserved_prepend_size (drop b.read_index b.buffer) (size b)
            >>= λ d. some (record {
              buffer = d;
              capacity = n;
              read_index = b.reserved_prepend_size;
              write_index = add64 (size b) b.reserved_prepend_size;
              reserved_prepend_size = b.reserved_prepend_size;
            }))
        else (do
          require (ltb b.reserved_prepend_size b.read_index)
          moved ← memcpy b.buffer b.reserved_prepend_size (drop b.read_index b.buffer) (size b)
          let c : SocketBuffer = record b {
            buffer = moved;
            read_index = b.reserved_prepend_size;
            write_index = add64 b.reserved_prepend_size (size b);
          }
          require (size b == size c)
          room ← writable_bytes c
          require (leb len room)
          some c)

  unfoldable pub reserve : SocketBuffer → ℕ → Option SocketBuffer
  reserve b len =
      if leb (add64 len b.reserved_prepend_size) b.capacity
      then some b
      else grow b (add64 len b.reserved_prepend_size)

  unfoldable pub ensure_writable_bytes : SocketBuffer → ℕ → Option SocketBuffer
  unfolding writable_bytes
  ensure_writable_bytes b len = do
    writable ← writable_bytes b
    c ← if ltb writable len then grow b len else some b
    room ← writable_bytes c
    require (leb len room)
    some c

  -- `Write`, and both `Append`.
  unfoldable pub write : SocketBuffer → List ℕ → ℕ → Option SocketBuffer
  write b d len = do
    c ← ensure_writable_bytes b len
    arr ← memcpy c.buffer c.write_index d len
    require (leb (add64 c.write_index len) c.capacity)
    some (record c { buffer = arr; write_index = add64 c.write_index len })

unfoldable pub truncate : SocketBuffer → ℕ → SocketBuffer
truncate b n =
    if n == 0
    then record b { read_index = b.reserved_prepend_size; write_index = b.reserved_prepend_size }
    else if ltb (add64 b.read_index n) b.write_index
    then record b { write_index = add64 b.read_index n }
    else b

unfoldable pub reset : SocketBuffer → SocketBuffer
unfolding truncate
reset b = truncate b 0

-- `Skip` and `Retrieve`.
unfoldable pub skip : SocketBuffer → ℕ → SocketBuffer
unfolding reset
skip b len = if ltb len (size b) then record b { read_index = add64 b.read_index len } else reset b

unfoldable pub next : SocketBuffer → ℕ → SocketBuffer
next b len = if leb len (size b) then record b { read_index = add64 b.read_index len } else b

unfoldable pub prepend : SocketBuffer → List ℕ → ℕ → Option SocketBuffer
prepend b d len = do
  require (leb len (prependable_bytes b))
  let read_index = sub64 b.read_index len
  arr ← memcpy b.buffer read_index d len
  some (record b { buffer = arr; read_index = read_index })

unfoldable pub unwrite_bytes : SocketBuffer → ℕ → Option SocketBuffer
unwrite_bytes b n = do
  require (leb n (size b))
  some (record b { write_index = sub64 b.write_index n })

unfoldable pub write_bytes : SocketBuffer → ℕ → Option SocketBuffer
unfolding writable_bytes
write_bytes b n = do
  writable ← writable_bytes b
  require (leb n writable)
  some (record b { write_index = add64 b.write_index n })

unfoldable pub unread_bytes : SocketBuffer → ℕ → Option SocketBuffer
unread_bytes b n = do
  require (ltb n b.read_index)
  some (record b { read_index = sub64 b.read_index n })

-- `len` bytes copied from `data()`.
unfoldable pub peek : SocketBuffer → ℕ → Option (List ℕ)
peek b len = do
  require (leb (b.read_index + len) (length b.buffer))
  some (slice b.buffer b.read_index len)

unfoldable pub to_string : SocketBuffer → Option (List ℕ)
unfolding peek
to_string b = peek b (size b)

unfoldable pub read_byte : SocketBuffer → Option (ℕ × SocketBuffer)
unfolding peek
read_byte b = do
  require (leb 1 (size b))
  byte ← peek b 1
  elim byte [ [] ↦ none | x ∷ _ ↦ some (x, record b { read_index = add64 b.read_index 1 }) ]
