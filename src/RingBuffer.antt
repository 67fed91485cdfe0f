-- ===== src/RingBuffer.antt =====
-- `RingBuffer` of socket_buffer.cpp: a byte queue in an array whose size is a power of two, with
-- two free-running 32-bit counters. `none` is a failed `assert` or an access outside the array;
-- a pointer into the array is its index.
pub mod Geometry
pub mod Contents
pub mod Writing
pub mod Series
pub mod Start
pub mod Api
mod Tests
pub mod Threads
use reechat_base.Base.{
  ℕ, ◌+◌, List, Option, none, some, Bool, true, false, ltb, leb, ◌==◌, if◌then◌else◌, ◌>>=◌, ◌>>◌,
  require, add32, sub32, bit_and, memcpy, slice, length, drop,
}

pub record RingBuffer : Type 0 where
  pub capacity : ℕ
  pub max_index : ℕ
  pub data_arr : List ℕ
  pub read_count : ℕ
  pub write_count : ℕ

-- The constructor; `new char[capacity]` leaves the bytes of `storage` as it finds them.
unfoldable pub init : ℕ → List ℕ → RingBuffer
init capacity storage = record {
  capacity = capacity;
  max_index = sub32 capacity 1;
  data_arr = storage;
  read_count = 0;
  write_count = 0;
}

unfoldable pub is_empty : RingBuffer → Bool
is_empty r = r.read_count == r.write_count

-- `write_count_ - read_count_`
abbrev pub content_size : RingBuffer → ℕ
content_size r = sub32 r.write_count r.read_count

-- `count & max_index_`
abbrev pub index : RingBuffer → ℕ → ℕ
index r count = bit_and count r.max_index

unfoldable pub data_head : RingBuffer → ℕ
data_head r = 0

unfoldable pub available_read : RingBuffer → Option ℕ
available_read r = do require (ltb (content_size r) r.capacity); some (content_size r)

unfoldable pub available_series_read : RingBuffer → Option ℕ
available_series_read r = do
  let available = content_size r
  require (leb available r.capacity)
  let read_index = index r r.read_count
  some (
      if available == 0
      then 0
      else if leb (add32 read_index available) r.capacity
      then available
      else sub32 r.capacity read_index)

unfoldable pub current_series_read_head : RingBuffer → ℕ
current_series_read_head r = index r r.read_count

unfoldable pub consume_series_read_len : RingBuffer → ℕ → Option RingBuffer
consume_series_read_len r len = do
  require (leb (add32 (index r r.read_count) len) r.capacity)
  some (record r { read_count = add32 r.read_count len })

-- The copies of `WriteContent`: one piece, or two round the end of the array.
unfoldable pub copy_in : RingBuffer → List ℕ → ℕ → Option (List ℕ)
copy_in r content len =
    let write_index = index r r.write_count in
    if leb (add32 write_index len) r.capacity
    then memcpy r.data_arr write_index content len
    else let tail_left = sub32 r.capacity write_index in
      (memcpy r.data_arr write_index content tail_left >>= λ arr.
      memcpy arr 0 (drop tail_left content) (sub32 len tail_left))

unfoldable pub write_content : RingBuffer → List ℕ → ℕ → Option (RingBuffer × Bool)
unfolding copy_in
write_content r content len = do
  require (leb (content_size r) r.capacity)
  if ltb (sub32 r.capacity (content_size r)) len
      then some (r, false)
      else (copy_in r content len >>= λ arr.
          some (record r { data_arr = arr; write_count = add32 r.write_count len }, true))

unfoldable pub available_write : RingBuffer → Option ℕ
available_write r = do
  require (leb (content_size r) r.capacity)
  some (sub32 r.capacity (content_size r))

unfoldable pub current_series_write_head : RingBuffer → ℕ
current_series_write_head r = index r r.write_count

unfoldable pub available_series_write : RingBuffer → Option ℕ
available_series_write r = do
  require (leb (content_size r) r.capacity)
  let available_write = sub32 r.capacity (content_size r)
  let write_index = index r r.write_count
  some (
      if ltb r.capacity (add32 write_index available_write)
      then sub32 r.capacity write_index
      else available_write)

unfoldable pub consume_series_write_len : RingBuffer → ℕ → Option RingBuffer
consume_series_write_len r len = do
  require (leb (add32 (index r r.write_count) len) r.capacity)
  some (record r { write_count = add32 r.write_count len })

-- `len` bytes read through a pointer into the array.
unfoldable pub load : RingBuffer → ℕ → ℕ → Option (List ℕ)
load r at len = do require (leb (at + len) (length r.data_arr)); some (slice r.data_arr at len)

-- Bytes that a caller stores through a pointer into the array.
unfoldable pub store : RingBuffer → ℕ → List ℕ → Option RingBuffer
store r at bytes =
    memcpy r.data_arr at bytes (length bytes) >>= λ arr. some (record r { data_arr = arr })
