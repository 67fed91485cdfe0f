-- ===== src/PoolBuffer.antt =====
-- `PoolBuffer` and `UdpPoolBuffer` of socket_buffer.hpp. What `new` and the constructor leave
-- uninitialized is an argument; `none` is an access outside an array.
pub mod Copies
mod Tests
use reechat_base.Base.{
  ℕ, ◌+◌, List, ◌++◌, Option, none, some, ltb, leb, if◌then◌else◌, ◌>>=◌, ◌>>◌, require, length,
  take, drop, replicate, memcpy,
}

unfoldable pub max_data_size : ℕ
max_data_size = 81920

pub record PoolBuffer : Type 0 where
  pub data_ptr : List ℕ
  pub data_len : ℕ

-- The constructor: an array and a length that nothing has set.
unfoldable pub init : (ℕ → List ℕ) → ℕ → PoolBuffer
init allocate left_over = record { data_ptr = allocate max_data_size; data_len = left_over }

-- `memset(array, value, n)`
unfoldable pub memset : List ℕ → ℕ → ℕ → Option (List ℕ)
memset array value n = do require (leb n (length array)); some (replicate n value ++ drop n array)

unfoldable pub set_data : PoolBuffer → List ℕ → ℕ → Option PoolBuffer
unfolding memset
set_data p bytes len = do
  let available_copy = if ltb max_data_size len then max_data_size else len
  cleared ← memset p.data_ptr 0 max_data_size
  copied ← memcpy cleared 0 bytes available_copy
  some (record { data_ptr = copied; data_len = available_copy })

-- `sizeof(struct sockaddr)`
abbrev pub sizeof_sockaddr : ℕ
sizeof_sockaddr = 16

pub record UdpPoolBuffer : Type 0 where
  pub pool : PoolBuffer
  pub sock_addr : List ℕ

-- `UdpPoolBuffer::SetData`
unfoldable pub set_data_from : UdpPoolBuffer → List ℕ → ℕ → List ℕ → Option UdpPoolBuffer
unfolding set_data
set_data_from u bytes len addr = do
  p ← set_data u.pool bytes len
  copied ← memcpy u.sock_addr 0 addr sizeof_sockaddr
  some (record { pool = p; sock_addr = copied })
