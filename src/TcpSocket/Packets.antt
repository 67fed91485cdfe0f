-- ===== src/TcpSocket/Packets.antt =====
-- The reader's half of a packet: its length bytes and its bytes, in one piece or round the end.
use reechat_base.Base.{
  ℕ, ◌+◌, ◌-◌, ◌^◌, ◌≤◌, ◌<◌, ◌≡◌, refl, sym, ap, ◌∙◌, List, ◌++◌, some, length, take, drop,
  take-add, drop-drop, length-drop, min, arith, dec_le, sub32,
}
use reechat_base.Endian.{Host, of_memory}
use reechat_base.Frames.{payload_length}
use reechat_base.RingBuffer.{
  RingBuffer, current_series_read_head, consume_series_read_len, data_head, load,
}
use reechat_base.RingBuffer.Geometry.{IsValid, capacity_small, index-lt}
use reechat_base.RingBuffer.Contents.{contents, consume, length-contents}
use reechat_base.RingBuffer.Series.{
  series_read_lem, consume_series_read_lem, consume_series_read_len-consume, head-consume,
}
use reechat_base.TcpSocket.Receiving.{read_head, take_packet}

-- The number of bytes in one piece.
abbrev pub series_of : RingBuffer → ℕ
series_of r = min (length (contents r)) (r.capacity - current_series_read_head r)

-- Up to the end of the array, and no further, bytes are in one piece.
pub piece :
    {r : RingBuffer} (m : ℕ)
    → IsValid r
    → m ≤ series_of r
    → load r (current_series_read_head r) m ≡ some (take m (contents r))
piece m v h = let (n, _, size, bytes) = series_read_lem v in bytes m (omega arith)

-- The buffer once the whole piece has been read, if there are more bytes.
pub record Turned (r half : RingBuffer) (series : ℕ) : Type 0 where
  pub consumed : consume_series_read_len r series ≡ some half
  pub valid : IsValid half
  pub left : contents half ≡ drop series (contents r)
  pub same_capacity : half.capacity ≡ r.capacity
  start : current_series_read_head half ≡ 0
  same_array : half ≡ consume r series

pub turned :
    {r : RingBuffer}
    → IsValid r
    → series_of r < length (contents r)
    → (half : RingBuffer) × Turned r half (series_of r)
turned {r} v more =
    let (half, e, left, w, cap) = consume_series_read_lem (series_of r) v (omega arith) in
    let is_half = consume_series_read_len-consume r half (series_of r) e in
    (
      half,
      record {
        consumed = e;
        valid = w;
        left = left;
        same_capacity = cap;
        start =
            ap current_series_read_head is_half
            ∙ head-consume v (series_of r) (omega arith) (omega arith);
        same_array = is_half;
      },
    )

module _ {r half : RingBuffer} {series : ℕ} (v : IsValid r) (t : Turned r half series) where
  pub left_size : length (contents half) ≡ length (contents r) - series
  left_size = ap length t.left ∙ length-drop series (contents r)

  -- All that is left stands in one piece at the beginning of the array.
  pub whole : (m : ℕ) → m + series ≤ length (contents r) → m ≤ series_of half
  whole m h =
      let size = left_size in
      let start = t.start in
      let fits = t.valid.fits in let held = length-contents half in omega arith

  behind :
      (m : ℕ)
      → m + series ≤ length (contents r)
      → load half (current_series_read_head half) m ≡ some (take m (drop series (contents r)))
  behind m h = piece m t.valid (whole m h) ∙ ap (λ l. some (take m l)) t.left

  load-consume : (at m : ℕ) → load (consume r series) at m ≡ load r at m
  unfolding load
  load-consume at m = refl

  -- The reader of the length looks there before anything is consumed.
  at_start :
      (m : ℕ)
      → m + series ≤ length (contents r)
      → load r 0 m ≡ some (take m (drop series (contents r)))
  at_start m h =
      sym (load-consume 0 m)
      ∙ ap (λ b. load b 0 m) (sym t.same_array)
      ∙ ap (λ i. load half i m) (sym t.start)
      ∙ behind m h

  finish :
      (m : ℕ)
      → m + series ≤ length (contents r)
      → (rest : RingBuffer) × (consume_series_read_len half m ≡ some rest)
        × (contents rest ≡ drop (series + m) (contents r))
        × IsValid rest
        × (rest.capacity ≡ r.capacity)
  finish m h =
      let (rest, e, left, w, cap) = consume_series_read_lem m t.valid (whole m h) in
      (
        rest,
        e,
        left ∙ ap (drop m) t.left ∙ drop-drop m series (contents r),
        w,
        cap ∙ t.same_capacity,
      )

series_pos : {r : RingBuffer} → IsValid r → 2 ≤ length (contents r) → 1 ≤ series_of r
unfolding current_series_read_head
series_pos {r} v h = let inside = index-lt v r.read_count in omega arith

split_head :
    (r : RingBuffer) {series : ℕ} {a b c : List ℕ} (host : Host)
    → load r (current_series_read_head r) 1 ≡ some a
    → load r 0 1 ≡ some b
    → series < 2
    → c ≡ a ++ b
    → read_head host r series ≡ some (of_memory host c)
unfolding read_head data_head
split_head r host e f h g = rw (e, f, g) (ground arith)

-- The two length bytes are read right wherever they stand.
pub read_head_lem :
    {r : RingBuffer} (host : Host)
    → IsValid r
    → 2 ≤ length (contents r)
    → read_head host r (series_of r) ≡ some (payload_length host (contents r))
unfolding read_head data_head
read_head_lem {r} host v h = elim (dec_le 2 (series_of r)) [
  | yes one ↦ let bytes = piece 2 v one in ground (arith, bytes)
  | no two ↦
      let (half, t) = turned v (omega arith) in
      let pos = series_pos v h in
      let is_one : series_of r ≡ 1 = omega arith in
      let low = piece 1 v (omega arith) in
      let high =
        at_start v t 1 (omega arith) ∙ ap (λ n. some (take 1 (drop n (contents r)))) is_one in
      let both = take-add 1 1 (contents r) in split_head r host low high (omega arith) both
]

split_packet :
    (r half rest : RingBuffer) {series msg_len : ℕ} {a b : List ℕ}
    → series < msg_len
    → msg_len < 2 ^ 32
    → load r (current_series_read_head r) series ≡ some a
    → consume_series_read_len r series ≡ some half
    → load half (current_series_read_head half) (msg_len - series) ≡ some b
    → consume_series_read_len half (msg_len - series) ≡ some rest
    → take_packet r series msg_len ≡ some (a ++ b, rest)
unfolding take_packet
split_packet r half rest {series} {msg_len} h u e f g k =
    let remain : sub32 msg_len series ≡ msg_len - series = omega arith in
    rw (e, f, remain, g, k) (ground arith)

whole_packet :
    (r rest : RingBuffer) {series msg_len : ℕ} {a : List ℕ}
    → msg_len ≤ series
    → load r (current_series_read_head r) msg_len ≡ some a
    → consume_series_read_len r msg_len ≡ some rest
    → take_packet r series msg_len ≡ some (a, rest)
unfolding take_packet
whole_packet r rest h e f = rw (e, f) (ground arith)

-- The bytes of a packet are the oldest ones, and the buffer keeps the others.
pub take_packet_lem :
    {r : RingBuffer} (msg_len : ℕ)
    → IsValid r
    → msg_len ≤ length (contents r)
    → (rest : RingBuffer) × (take_packet r (series_of r) msg_len
        ≡ some (take msg_len (contents r), rest))
      × (contents rest ≡ drop msg_len (contents r))
      × IsValid rest
      × (rest.capacity ≡ r.capacity)
take_packet_lem {r} msg_len v h = elim (dec_le msg_len (series_of r)) [
  | yes one ↦
      let (rest, e, left, w, cap) = consume_series_read_lem msg_len v one in
      (rest, whole_packet r rest one (piece msg_len v one) e, left, w, cap)
  | no two ↦
      let (half, t) = turned v (omega arith) in
      let remain : ℕ = msg_len - series_of r in
      let sum : series_of r + remain ≡ msg_len = omega arith in
      let (rest, e, left, w, cap) = finish v t remain (omega arith) in
      let small = v.fits in
      let size = length-contents r in
      let bound = capacity_small v in
      (
        rest,
        split_packet r half rest (omega arith) (omega arith) (piece (series_of r) v (omega arith))
              t.consumed (behind v t remain (omega arith)) e
            ∙ ap (λ l. some (l, rest))
                (sym (take-add (series_of r) remain (contents r))
                  ∙ ap (λ n. take n (contents r)) sum),
        left ∙ ap (λ n. drop n (contents r)) sum,
        w,
        cap,
      )
]
