-- ===== src/RingBuffer/Threads/Steps.antt =====
-- What follows from the invariant in the states that the interleavings of RingBuffer/Threads reach.
use reechat_base.Base.{ℕ, ◌≤◌, ◌≡◌, sym, subst, List, [], ◌++◌, some, length, take, arith}
use reechat_base.RingBuffer.{
  RingBuffer, copy_in, current_series_read_head, load, consume_series_read_len,
}
use reechat_base.RingBuffer.Geometry.{IsValid}
use reechat_base.RingBuffer.Contents.{contents, Written}
use reechat_base.RingBuffer.Writing.{copy_in-Written}
use reechat_base.RingBuffer.Series.{series_read_lem, consume_series_read_lem}
use reechat_base.RingBuffer.Threads.{
  Writer, checked, Reader, sized, loaded, Threads, Step, check, copy, publish as publish_step, size,
  fetch, release, Reach, here, next, start,
}
use reechat_base.RingBuffer.Threads.Invariant.{
  WriterOk, ReaderOk, Inv, check-Inv, copy-Inv, publish-Inv, size-Inv, fetch-Inv, release-Inv,
}

writer_at : {s : Threads} {w : Writer} → Inv s → s.writer ≡ w → WriterOk s.ring w
writer_at {s} v e = subst (WriterOk s.ring) e v.writer_ok

reader_at : {s : Threads} {r : Reader} → Inv s → s.reader ≡ r → ReaderOk s.ring r
reader_at {s} v e = subst (ReaderOk s.ring) e v.reader_ok

Step-Inv : {s t : Threads} → Inv s → Step s t → Inv t
Step-Inv v (check content len _ enough room e) = rw e (check-Inv v content len enough room)
Step-Inv v (copy content len arr at copies e) =
    let ok = writer_at v at in
    let (arr', copies', w) = copy_in-Written v.valid content len ok.0 (omega arith) in
    let same : arr' ≡ arr = cc in
    rw e (copy-Inv v content arr len ok (subst (Written _ content len) same w))
Step-Inv v (publish_step content len at e) = rw e (publish-Inv v content len (writer_at v at))
Step-Inv v (size n _ available e) = rw e (size-Inv v n available)
Step-Inv v (fetch n m bytes at h loads e) = rw e (fetch-Inv v n m bytes (reader_at v at) h loads)
Step-Inv v (release bytes k ring at h consumes e) =
    rw e (release-Inv v bytes k ring (reader_at v at) h consumes)

Reach-Inv : {s t : Threads} → Inv s → Reach s t → Inv t
Reach-Inv v here = v
Reach-Inv v (next path st) = Step-Inv (Reach-Inv v path) st

start-Inv : {r : RingBuffer} → IsValid r → contents r ≡ [] → Inv (start r)
start-Inv v e = record { valid = v; ledger = sym e; writer_ok = tt; reader_ok = tt }

-- From an empty buffer, after any interleaving of the writer's and the reader's steps, the bytes
-- written are those read followed by those still held, in order: none is lost, repeated or torn.
pub Reach-ledger :
    {r : RingBuffer} {t : Threads}
    → IsValid r
    → contents r ≡ []
    → Reach (start r) t
    → t.sent ≡ t.received ++ contents t.ring
Reach-ledger v e path = (Reach-Inv (start-Inv v e) path).ledger

-- In every state that an interleaving reaches, neither thread's next access is refused: a writer
-- past its test can copy, a reader past `AvailableSeriesRead` can read up to that many bytes, and
-- a reader with bytes in hand can consume any number of them.
pub Reach-never_stops :
    {r : RingBuffer} {t : Threads}
    → IsValid r
    → contents r ≡ []
    → Reach (start r) t
    → ((content : List ℕ) (len : ℕ)
        → t.writer ≡ checked content len
        → (arr : List ℕ) × (copy_in t.ring content len ≡ some arr))
      × ((n m : ℕ)
          → t.reader ≡ sized n
          → m ≤ n
          → (bytes : List ℕ) × (load t.ring (current_series_read_head t.ring) m ≡ some bytes))
      × ((bytes : List ℕ) (k : ℕ)
          → t.reader ≡ loaded bytes
          → k ≤ length bytes
          → (ring : RingBuffer) × (consume_series_read_len t.ring k ≡ some ring))
Reach-never_stops {t} v e path =
    let i = Reach-Inv (start-Inv v e) path in
    (
      λ content len at.
          let ok = writer_at i at in
          let (arr, copies, _) = copy_in-Written i.valid content len ok.0 (omega arith) in
          (arr, copies),
      λ n m at h.
          let ok = reader_at i at in
          let (k, a, b, c) = series_read_lem i.valid in
          (take m (contents t.ring), c m (omega arith)),
      λ bytes k at h.
          let ok = reader_at i at in
          let rest = consume_series_read_lem k i.valid (omega arith) in (rest.0, rest.1),
    )
