-- ===== src/RingBuffer/Series.antt =====
-- The two sides as a client calls them, against the byte queue of the buffer's contents.
use native.Mathlib.Nat.{mod-lt}
use reechat_base.Base.{
  ℕ, ◌+◌, ◌-◌, ◌%◌, ◌≤◌, ◌<◌, ◌≡◌, ◌↔◌, refl, ap, ◌>>=◌, ◌∙◌, List, ◌++◌, none, some, Bool, true,
  false, length, take, drop, length-take, take-all, arith, min, add32, dec_le,
}
use reechat_base.ByteQueue
use reechat_base.RingBuffer.{
  RingBuffer, content_size, write_content, available_read, available_write, available_series_read,
  current_series_read_head, consume_series_read_len, available_series_write,
  current_series_write_head, consume_series_write_len, load, store, is_empty,
}
use reechat_base.RingBuffer.Geometry.{
  IsValid, index-mod, round, wrap-mod, capacity_pos, capacity_small,
}
use reechat_base.RingBuffer.Contents.{
  contents, length-contents, publish, consume, publish-IsValid, contents-publish, consume-IsValid,
  contents-consume, slice-contents,
}
use reechat_base.RingBuffer.Writing.{copy_in-Written, one_piece}

-- `WriteContent` never stops on a valid buffer. It takes all `len` bytes and returns true if they
-- fit, and otherwise returns false and changes nothing, as the byte queue does; it keeps the
-- invariant and the capacity.
pub write_content_refines :
    {r : RingBuffer} (content : List ℕ) (len : ℕ)
    → IsValid r
    → len ≤ length content
    → (r' : RingBuffer) × (done : Bool) × (write_content r content len ≡ some (r', done))
      × ((contents r', done) ≡ ByteQueue.append r.capacity (contents r) (take len content))
      × IsValid r'
      × (r'.capacity ≡ r.capacity)
unfolding write_content ByteQueue.append
write_content_refines {r} content len v enough =
    let small = capacity_small v in
    let size = length-contents r in
    let count : length (take len content) ≡ len = omega (arith, length-take len content) in
    elim (dec_le (content_size r + len) r.capacity) [
      | yes room ↦
          let (arr, e, w) = copy_in-Written v content len enough (omega arith) in
          (
            publish r arr len,
            true,
            ground (arith, e),
            ground (arith, size, count, contents-publish v room w enough),
            publish-IsValid v room w,
            refl,
          )
      | no full ↦ (r, false, ground arith, ground (arith, size, count), v, refl)
    ]

-- `AvailableSeriesRead` does not stop on a valid buffer. It returns the number of bytes held, or of
-- those before the end of the array if that is less, and that many bytes behind
-- `CurrentSeriesReadHead` are the oldest ones.
pub series_read_lem :
    {r : RingBuffer}
    → IsValid r
    → (n : ℕ) × (available_series_read r ≡ some n)
      × (n ≡ min (length (contents r)) (r.capacity - current_series_read_head r))
      × ((m : ℕ) → m ≤ n → load r (current_series_read_head r) m ≡ some (take m (contents r)))
unfolding available_series_read current_series_read_head load
series_read_lem {r} v =
    let small = capacity_small v in
    let inside : r.read_count % r.capacity < r.capacity = mod-lt r.read_count (capacity_pos v) in
    let at = index-mod v r.read_count in
    let size = length-contents r in
    (
      min (content_size r) (r.capacity - r.read_count % r.capacity),
      ground (arith, at),
      ground (arith, at, size),
      λ m h.
          rw at (ground (arith, v.storage, slice-contents v {n = m} (omega arith) (omega arith))),
    )

-- Consuming up to that many bytes drops them from the front and keeps the buffer valid.
pub consume_series_read_lem :
    {r : RingBuffer} (n : ℕ)
    → IsValid r
    → n ≤ min (length (contents r)) (r.capacity - current_series_read_head r)
    → (r' : RingBuffer) × (consume_series_read_len r n ≡ some r')
      × (contents r' ≡ drop n (contents r))
      × IsValid r'
      × (r'.capacity ≡ r.capacity)
unfolding consume_series_read_len current_series_read_head
consume_series_read_lem {r} n v h =
    let small = capacity_small v in
    let inside : r.read_count % r.capacity < r.capacity = mod-lt r.read_count (capacity_pos v) in
    let at = index-mod v r.read_count in
    let size = length-contents r in
    let held : n ≤ content_size r = omega arith in
    (consume r n, ground (arith, at), contents-consume v held, consume-IsValid v held, refl)

pub consume_series_read_len-consume :
    (r r' : RingBuffer) (n : ℕ) → consume_series_read_len r n ≡ some r' → r' ≡ consume r n
unfolding consume_series_read_len
consume_series_read_len-consume r r' n e = ground arith

-- A reader that has come to the end of the array goes on at its beginning.
pub head-consume :
    {r : RingBuffer}
    → IsValid r
    → (n : ℕ) → n ≤ length (contents r)
    → n ≡ r.capacity - current_series_read_head r
    → current_series_read_head (consume r n) ≡ 0
unfolding current_series_read_head
head-consume {r} v n held e =
    let size = length-contents r in
    let w = consume-IsValid v {n = n} (omega arith) in
    let at = index-mod v r.read_count in
    let inside = mod-lt r.read_count (capacity_pos v) in
    index-mod w (add32 r.read_count n)
    ∙ wrap-mod v (r.read_count + n)
    ∙ ground (arith, round r.capacity r.read_count n (capacity_pos v) (omega arith))

-- `AvailableSeriesWrite` does not stop on a valid buffer, and returns the number of free bytes, or
-- of those before the end of the array if that is less. Storing up to that many bytes at
-- `CurrentSeriesWriteHead` and consuming their number appends them and keeps the buffer valid.
pub series_write_lem :
    {r : RingBuffer}
    → IsValid r
    → (n : ℕ) × (available_series_write r ≡ some n)
      × (n ≡ min (r.capacity - length (contents r)) (r.capacity - current_series_write_head r))
      × ((bytes : List ℕ)
          → length bytes ≤ n
          → (r' : RingBuffer) × ((store r (current_series_write_head r) bytes >>= λ s.
                consume_series_write_len s (length bytes))
              ≡ some r')
            × (contents r' ≡ contents r ++ bytes)
            × IsValid r'
            × (r'.capacity ≡ r.capacity))
unfolding available_series_write current_series_write_head store consume_series_write_len
series_write_lem {r} v =
    let small = capacity_small v in
    let inside : r.write_count % r.capacity < r.capacity = mod-lt r.write_count (capacity_pos v) in
    let at = index-mod v r.write_count in
    let size = length-contents r in
    let fits = v.fits in
    (
      min (r.capacity - content_size r) (r.capacity - r.write_count % r.capacity),
      ground (arith, at),
      ground (arith, at, size),
      λ bytes h.
          let (arr, e, w) = one_piece v bytes (length bytes) (omega arith) (omega arith) in
          let room : content_size r + length bytes ≤ r.capacity = omega arith in
          (
            publish r arr (length bytes),
            rw (at, e) (ground (arith, at)),
            contents-publish v room w (omega arith)
                ∙ ap (◌++◌ (contents r)) (take-all (length bytes) bytes (omega arith)),
            publish-IsValid v room w,
            refl,
          ),
    )

-- `AvailableRead` returns the number of bytes held, unless the buffer is full: then its `assert`
-- fails, although a full buffer is a state that `WriteContent` reaches.
pub available_read_lem :
    {r : RingBuffer}
    → IsValid r
    → (length (contents r) < r.capacity → available_read r ≡ some (length (contents r)))
      × (length (contents r) ≡ r.capacity → available_read r ≡ none)
unfolding available_read
available_read_lem {r} v =
    let size = length-contents r in (λ h. ground (arith, size), λ h. ground (arith, size))

-- `AvailableWrite` and the bytes held make up the capacity, and `IsEmpty` tells if there are none.
pub available_write_lem :
    {r : RingBuffer}
    → IsValid r
    → (n : ℕ) × (available_write r ≡ some n)
      × (n + length (contents r) ≡ r.capacity)
      × ((is_empty r ≡ true) ↔ (length (contents r) ≡ 0))
unfolding available_write is_empty
available_write_lem {r} v =
    let small = capacity_small v in
    let size = length-contents r in
    let fits = v.fits in
    let rw_ = v.read_word in
    let ww = v.write_word in
    (
      r.capacity - content_size r,
      ground arith,
      omega (arith, size),
      ((λ e. ground (arith, size)), (λ e. ground (arith, size))),
    )
