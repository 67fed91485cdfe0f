-- ===== src/PoolBuffer/Copies.antt =====
-- What `SetData` of socket_buffer.hpp keeps of the bytes it is given.
use reechat_base.Base.{
  ℕ, zero, suc, ◌+◌, ◌-◌, ◌≤◌, ◌≡◌, refl, List, ◌++◌, some, ltb, if◌then◌else◌, min, length, take,
  drop, replicate, memcpy, length-append, length-replicate, arith, drop-all, append-nil,
  length-take,
}
use native.Mathlib.Nat.{sub-zero, zero-sub, suc-sub-suc}
use reechat_base.PoolBuffer.{
  PoolBuffer, max_data_size, memset, set_data, set_data_from, sizeof_sockaddr,
}

pub record IsValid (p : PoolBuffer) : Type 0 where
  pub storage : length p.data_ptr ≡ max_data_size

abbrev pub zeros : ℕ → List ℕ
zeros n = replicate n 0

drop-zeros : (k n : ℕ) → drop k (zeros n) ≡ zeros (n - k)
drop-zeros zero n = rw sub-zero
drop-zeros (suc k) zero = rw zero-sub
drop-zeros (suc k) (suc n) = rw suc-sub-suc (drop-zeros k n)

-- The array after `SetData` of `n` bytes.
abbrev pub filled : List ℕ → ℕ → List ℕ
filled bytes n = take n bytes ++ zeros (max_data_size - n)

module _ {p : PoolBuffer} (v : IsValid p) (bytes : List ℕ) (len : ℕ)
    (enough : len ≤ length bytes) where
  cleared : memset p.data_ptr 0 max_data_size ≡ some (zeros max_data_size)
  unfolding memset
  cleared =
      let storage = v.storage in
      let gone = drop-all max_data_size p.data_ptr (omega arith) in
      ground (arith, append-nil (zeros max_data_size))

  copied :
      (n : ℕ)
      → n ≤ len
      → n ≤ max_data_size
      → memcpy (zeros max_data_size) 0 bytes n ≡ some (filled bytes n)
  unfolding memcpy
  copied n short fits =
      let size = length-replicate {A = ℕ} max_data_size 0 in
      let e : 0 + n ≡ n = omega arith in
      let rest = drop-zeros n max_data_size in rw e (ground arith)

  -- `SetData` on a buffer keeps the first 81920 of the `len` bytes, or all of them, sets the length to
  -- how many these are, and fills the rest of the array with zeros, whatever the array and the length were.
  pub set_data_lem :
      (q : PoolBuffer) × (set_data p bytes len ≡ some q)
      × IsValid q
      × (q.data_len ≡ min len max_data_size)
      × (q.data_ptr ≡ filled bytes (min len max_data_size))
  unfolding set_data
  set_data_lem =
      let n = min len max_data_size in
      let done = copied n (omega arith) (omega arith) in
      let wiped = cleared in
      let e : (if ltb max_data_size len then max_data_size else len) ≡ n = ground arith in
      (
        record { data_ptr = filled bytes n; data_len = n },
        rw (e, wiped, done) refl,
        record {
          storage = omega (
            arith,
            length-append (take n bytes) (zeros (max_data_size - n)),
            length-take n bytes,
            length-replicate {A = ℕ} (max_data_size - n) 0,
          );
        },
        refl,
        refl,
      )

  -- `UdpPoolBuffer::SetData` also keeps the first 16 bytes of the address it is given, and no more of a longer one.
  pub set_data_from_lem :
      (old addr : List ℕ)
      → length old ≡ sizeof_sockaddr
      → sizeof_sockaddr ≤ length addr
      → (q : PoolBuffer) × (set_data_from (record { pool = p; sock_addr = old }) bytes len addr
          ≡ some (record { pool = q; sock_addr = take sizeof_sockaddr addr }))
        × (q.data_ptr ≡ filled bytes (min len max_data_size))
  unfolding set_data_from memcpy
  set_data_from_lem old addr size room =
      let (q, done, _, _, contents) = set_data_lem in
      let none_left = drop-all 16 old (omega arith) in
      (q, ground (arith, append-nil (take sizeof_sockaddr addr)), contents)
