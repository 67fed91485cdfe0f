-- ===== src/RingBuffer/Api.antt =====
-- The calls of a reader and of a writer as they are made one after the other.
use reechat_base.Base.{
  ℕ, ◌-◌, ◌≤◌, ◌≡◌, ap, ◌∙◌, ◌>>=◌, List, [], ◌++◌, some, none, length, take, drop, min, arith, ltb,
  if◌then◌else◌, dec_lt,
}
use reechat_base.RingBuffer.{
  RingBuffer, available_read, available_series_read, current_series_read_head,
  consume_series_read_len, available_series_write, current_series_write_head,
  consume_series_write_len, load, store, copy_in,
}
use reechat_base.RingBuffer.Geometry.{IsValid}
use reechat_base.RingBuffer.Contents.{contents, length-contents}
use reechat_base.RingBuffer.Series.{
  series_read_lem, consume_series_read_lem, series_write_lem, available_read_lem,
}
use reechat_base.RingBuffer.Threads.{Threads, checked, sized, Reach, start}
use reechat_base.RingBuffer.Threads.Steps.{Reach-never_stops}

-- `AvailableSeriesRead` on a valid buffer returns the number of bytes held, or of those before the end
-- of the array if that is less. Up to that many bytes behind `CurrentSeriesReadHead` are the oldest
-- ones, and `ConsumeSeriesReadLen` of their number drops them and keeps the buffer valid.
pub read_series :
    {r : RingBuffer} (m : ℕ)
    → IsValid r
    → m ≤ min (length (contents r)) (r.capacity - current_series_read_head r)
    → (r' : RingBuffer) × (available_series_read r
        ≡ some (min (length (contents r)) (r.capacity - current_series_read_head r)))
      × (load r (current_series_read_head r) m ≡ some (take m (contents r)))
      × (consume_series_read_len r m ≡ some r')
      × (contents r' ≡ drop m (contents r))
      × IsValid r'
      × (r'.capacity ≡ r.capacity)
read_series m v h =
    let (n, e, size, bytes) = series_read_lem v in
    let (r', c, left, w, cap) = consume_series_read_lem m v h in
    (r', e ∙ ap some size, bytes m (omega arith), c, left, w, cap)

-- `AvailableSeriesWrite` on a valid buffer returns the number of free bytes, or of those before the end
-- of the array if that is less. Up to that many bytes stored at `CurrentSeriesWriteHead` and consumed by
-- `ConsumeSeriesWriteLen` are appended, and the buffer stays valid.
pub write_series :
    {r : RingBuffer} (bytes : List ℕ)
    → IsValid r
    → length bytes
      ≤ min (r.capacity - length (contents r)) (r.capacity - current_series_write_head r)
    → (r' : RingBuffer) × (available_series_write r
        ≡ some (min (r.capacity - length (contents r)) (r.capacity - current_series_write_head r)))
      × ((store r (current_series_write_head r) bytes >>= λ s.
            consume_series_write_len s (length bytes))
          ≡ some r')
      × (contents r' ≡ contents r ++ bytes)
      × IsValid r'
      × (r'.capacity ≡ r.capacity)
write_series bytes v h =
    let (n, e, size, stores) = series_write_lem v in
    let (r', c, more, w, cap) = stores bytes (omega arith) in
    (r', e ∙ ap some size, c, more, w, cap)

-- `AvailableRead` on a valid buffer returns the number of bytes held, unless the buffer is full: then
-- its `assert` fails.
pub available_read_full :
    {r : RingBuffer}
    → IsValid r
    → available_read r
      ≡ (if ltb (length (contents r)) r.capacity then some (length (contents r)) else none)
available_read_full {r} v =
    let (part, full) = available_read_lem v in
    let size = length-contents r in
    let fits = v.fits in
    elim (dec_lt (length (contents r)) r.capacity) [
      | yes h ↦ let e = part h in ground (arith, e)
      | no h ↦ let e = full (omega arith) in ground (arith, e)
    ]

-- In every interleaving of one writer and one reader, a writer past its test of the free space can make
-- both its copies, whatever the reader has done since.
pub Reach-copy_in :
    {r : RingBuffer} {t : Threads} (content : List ℕ) (len : ℕ)
    → IsValid r
    → contents r ≡ []
    → Reach (start r) t
    → t.writer ≡ checked content len
    → (arr : List ℕ) × (copy_in t.ring content len ≡ some arr)
Reach-copy_in content len v e path at =
    let (a, _, _) = Reach-never_stops v e path in a content len at

-- In every interleaving of one writer and one reader, a reader past `AvailableSeriesRead` can read up
-- to as many bytes as that returned, whatever the writer has done since.
pub Reach-load :
    {r : RingBuffer} {t : Threads} (n m : ℕ)
    → IsValid r
    → contents r ≡ []
    → Reach (start r) t
    → t.reader ≡ sized n
    → m ≤ n
    → (bytes : List ℕ) × (load t.ring (current_series_read_head t.ring) m ≡ some bytes)
Reach-load n m v e path at h = let (_, b, _) = Reach-never_stops v e path in b n m at h
