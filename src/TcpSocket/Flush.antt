-- ===== src/TcpSocket/Flush.antt =====
-- `TryWriteBufferToSocket` while the kernel has room for all it is offered.
use reechat_base.Base.{
  ℕ, ◌-◌, ◌≤◌, ◌<◌, ◌≡◌, refl, sym, ap, ◌∙◌, List, [], ◌∷◌, ◌++◌, append-nil, append_assoc, some,
  length, take, length-take, take-all, take-append-drop, drop-all, arith, u32, dec_lt, ℕ_discrete,
}
use reechat_base.RingBuffer.{RingBuffer, current_series_read_head, consume_series_read_len}
use reechat_base.RingBuffer.Geometry.{IsValid, capacity_small, index-lt}
use reechat_base.RingBuffer.Contents.{contents}
use reechat_base.TcpSocket.{TcpSocket}
use reechat_base.TcpSocket.Sending.{Outgoing, accepts, try_write_buffer}
use reechat_base.TcpSocket.Packets.{series_of, Turned, turned, whole, left_size, piece}
use reechat_base.TcpSocket.Write.{
  offered, nothing_left, write-nothing, write-accepts, accepting, sent,
}

-- With nothing in the buffer, the loop ends.
idle :
    (s : TcpSocket) (wire : List ℕ) (calls : List Outgoing)
    → IsValid s.sender_buffer
    → contents s.sender_buffer ≡ []
    → try_write_buffer s wire calls ≡ some (s, wire)
unfolding try_write_buffer
idle s wire [] v none_left = refl
idle s wire (call ∷ calls) v none_left =
    let size = ap length none_left in write-nothing s v wire call calls (omega arith)

-- A call that takes the whole piece.
piece_sent :
    (s : TcpSocket) (v : IsValid s.sender_buffer) (n : ℕ)
    → s.sender_buffer.capacity ≤ n
    → sent s v n ≡ take (series_of s.sender_buffer) (contents s.sender_buffer)
piece_sent s v n h =
    let count = length-take (series_of s.sender_buffer) (contents s.sender_buffer) in
    take-all n (take (series_of s.sender_buffer) (contents s.sender_buffer)) (omega arith)

-- One call is enough if there is one piece.
flush_piece :
    (s : TcpSocket) (wire : List ℕ) (n : ℕ) (calls : List Outgoing)
    → IsValid s.sender_buffer
    → s.sender_buffer.capacity ≤ n
    → length (contents s.sender_buffer) ≤ series_of s.sender_buffer
    → (sender : RingBuffer) × (try_write_buffer s wire (accepts n ∷ calls)
        ≡ some (record s { sender_buffer = sender }, wire ++ contents s.sender_buffer))
      × (contents sender ≡ [])
flush_piece s wire n calls v room one = elim (ℕ_discrete (series_of s.sender_buffer) 0) [
  | yes z ↦
      let empty = nothing_left s v z in
      (
        s.sender_buffer,
        write-nothing s v wire (accepts n) calls z
            ∙ ap (λ l. some (s, l)) (sym (append-nil wire) ∙ ap (◌++◌ wire) (sym empty)),
        empty,
      )
  | no h ↦
      let (sender, ran, left, valid, _) = write-accepts s v wire n calls h in
      let all : sent s v n ≡ contents s.sender_buffer =
        piece_sent s v n room
        ∙ take-all (series_of s.sender_buffer) (contents s.sender_buffer) one in
      let empty : contents sender ≡ [] =
        left
        ∙ drop-all (length (sent s v n)) (contents s.sender_buffer)
            (omega (arith, ap length all)) in
      (
        sender,
        ran
            ∙ idle (record s { sender_buffer = sender }) _ calls valid empty
            ∙ ap (λ l. some (record s { sender_buffer = sender }, wire ++ l)) all,
        empty,
      )
]

first_piece :
    (s : TcpSocket) (v : IsValid s.sender_buffer) (wire : List ℕ) (n : ℕ) (calls : List Outgoing)
    {half : RingBuffer}
    → s.sender_buffer.capacity ≤ n
    → Turned s.sender_buffer half (series_of s.sender_buffer)
    → series_of s.sender_buffer < length (contents s.sender_buffer)
    → try_write_buffer s wire (accepts n ∷ calls)
      ≡ try_write_buffer
          (record s { sender_buffer = half })
          (wire ++ take (series_of s.sender_buffer) (contents s.sender_buffer))
          calls
unfolding current_series_read_head
first_piece s v wire n calls {half} p t two =
    let k : ℕ = series_of s.sender_buffer in
    let small = capacity_small v in
    let inside = index-lt v s.sender_buffer.read_count in
    let all = piece_sent s v n p in
    let count = length-take k (contents s.sender_buffer) in
    let same : u32 (length (sent s v n)) ≡ k = omega (arith, ap length all) in
    accepting s wire calls k n half (omega arith) (offered s v) (piece k v (omega arith))
      (ap (consume_series_read_len s.sender_buffer) same ∙ t.consumed)
    ∙ ap (λ l. try_write_buffer (record s { sender_buffer = half }) (wire ++ l) calls) all

-- Two calls of `send` with room for everything put all that a valid sender holds on the wire, in order,
-- and leave it empty, also when the bytes run round the end of the array.
pub try_write_buffer-flush :
    (s : TcpSocket) (wire : List ℕ) (n m : ℕ) (calls : List Outgoing)
    → IsValid s.sender_buffer
    → s.sender_buffer.capacity ≤ n
    → s.sender_buffer.capacity ≤ m
    → (sender : RingBuffer) × (try_write_buffer s wire (accepts n ∷ accepts m ∷ calls)
        ≡ some (record s { sender_buffer = sender }, wire ++ contents s.sender_buffer))
      × (contents sender ≡ [])
try_write_buffer-flush s wire n m calls v p q =
    elim (dec_lt (series_of s.sender_buffer) (length (contents s.sender_buffer))) [
      | no one ↦ flush_piece s wire n (accepts m ∷ calls) v p (omega arith)
      | yes two ↦
          let k : ℕ = series_of s.sender_buffer in
          let c : List ℕ = contents s.sender_buffer in
          let (half, t) = turned v two in
          let size = left_size v t in
          let all_there = whole v t (length c - k) (omega arith) in
          let once : length (contents half) ≤ series_of half = omega arith in
          let cap = t.same_capacity in
          let (sender, ran, empty) =
            flush_piece (record s { sender_buffer = half }) (wire ++ take k c) m calls t.valid
              (omega arith) (omega arith) in
          (
            sender,
            first_piece s v wire n (accepts m ∷ calls) p t two
                ∙ ran
                ∙ ap (λ l. some (record s { sender_buffer = sender }, l))
                    (append_assoc wire (take k c) (contents half)
                      ∙ ap (λ l. wire ++ (take k c ++ l)) t.left
                      ∙ ap (◌++◌ wire) (take-append-drop k c)),
            empty,
          )
    ]
