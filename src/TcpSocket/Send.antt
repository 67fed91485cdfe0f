-- ===== src/TcpSocket/Send.antt =====
-- What `SendData` and `SendDataWithHead` put into the sender's buffer.
use reechat_base.Base.{
  ℕ, ◌+◌, ◌-◌, ◌^◌, ◌≤◌, ◌<◌, ◌≡◌, refl, ap, ◌∙◌, List, [], ◌∷◌, ◌++◌, some, Bool, true, false,
  ◌&&◌, if◌then◌else◌, length, take, drop, length-append, length-drop, length-take, take-take,
  take-append_left, take-all, arith, dec_le, leb, memcpy, u16, u32, sub64,
}
use reechat_base.ByteQueue
use reechat_base.ByteQueue.{ByteQueue}
use reechat_base.Endian.{Host, of_memory}
use reechat_base.Endian.Bytes.{length-memory, of_memory-memory}
use reechat_base.Frames.{payload_length, IsFrame}
use reechat_base.RingBuffer.{RingBuffer, available_write, write_content}
use reechat_base.RingBuffer.Geometry.{IsValid, capacity_small}
use reechat_base.RingBuffer.Contents.{contents, length-contents}
use reechat_base.RingBuffer.Series.{write_content_refines, available_write_lem}
use reechat_base.TcpSocket.{TcpSocket, run_in_network, try_write}
use reechat_base.TcpSocket.Sending.{head_of, send_data, send_data_with_head}

-- The first `len` bytes of the caller's buffer, with the length in front.
abbrev pub framed : Host → List ℕ → ℕ → List ℕ
framed host data_ len = take len (head_of host len ++ drop 2 data_)

overwritten :
    (host : Host) (data_ : List ℕ) (len : ℕ)
    → 2 ≤ length data_
    → memcpy data_ 0 (head_of host len) 2 ≡ some (head_of host len ++ drop 2 data_)
unfolding memcpy
overwritten host data_ len h =
    let size = length-memory host 2 (u16 (sub64 len 2)) in
    let all = take-all 2 (head_of host len) (omega arith) in ground (arith, size, all)

-- What `SendData` puts into the buffer is one packet of the format, for a payload of 1 to 65535 bytes.
pub sent_IsFrame :
    (host : Host) (data_ : List ℕ) (len : ℕ)
    → 3 ≤ len
    → len ≤ 65537
    → len ≤ length data_
    → IsFrame host (framed host data_ len)
sent_IsFrame host data_ len h k enough =
    let size = length-memory host 2 (u16 (sub64 len 2)) in
    let all = length-append (head_of host len) (drop 2 data_) in
    let rest = length-drop 2 data_ in
    let cut = length-take len (head_of host len ++ drop 2 data_) in
    let value : u16 (sub64 len 2) ≡ len - 2 = omega arith in
    let head : payload_length host (framed host data_ len) ≡ len - 2 =
      ap (of_memory host) (
        take-take 2 len (head_of host len ++ drop 2 data_) (omega arith)
        ∙ take-append_left 2 (head_of host len) (drop 2 data_) (omega arith)
        ∙ take-all 2 (head_of host len) (omega arith))
      ∙ of_memory-memory host 2 (u16 (sub64 len 2)) (omega arith)
      ∙ value in
    record { headed = omega arith; filled = omega arith; small = omega arith; exact = omega arith }

-- The object after a write was accepted.
abbrev pub accepted : TcpSocket → RingBuffer → TcpSocket
accepted s sender = record s {
  sender_buffer = sender;
  out = s.out ++ run_in_network try_write ∷ [];
}

appended :
    (capacity : ℕ) (q bytes : List ℕ)
    → length q + length bytes ≤ capacity
    → ByteQueue.append capacity q bytes ≡ (q ++ bytes, true)
unfolding ByteQueue.append
appended capacity q bytes h = ground arith

sending :
    (host : Host) (s : TcpSocket) (data_ : List ℕ) (len : ℕ) (sender : RingBuffer) (d : Bool)
    {room : ℕ} {packet : List ℕ}
    → len ≤ 65537
    → len + 2 ≤ room
    → available_write s.sender_buffer ≡ some room
    → memcpy data_ 0 (head_of host len) 2 ≡ some packet
    → write_content s.sender_buffer packet len ≡ some (sender, d)
    → send_data host s data_ len ≡ some (accepted s sender, true)
unfolding send_data
sending host s data_ len sender d h k a m w =
    let word : u32 len ≡ len = omega arith in rw (a, m, word, w) (ground arith)

-- With a valid sender, and a buffer of the caller that holds `len` bytes and at least the two into which the length is
-- written: `SendData` does not stop, and succeeds exactly if `len` is at most 65537 and the sender's buffer has
-- `len + 2` free bytes. Then the packet is appended to the bytes to be sent and the network loop is told to
-- write; otherwise it returns false and changes nothing. The invariant is kept.
pub send_data_lem :
    (host : Host) (s : TcpSocket) (data_ : List ℕ) (len : ℕ)
    → IsValid s.sender_buffer
    → 2 ≤ length data_
    → len ≤ length data_
    → (sender : RingBuffer) × (done : Bool) × (send_data host s data_ len
        ≡ some (if done then accepted s sender else s, done))
      × (done ≡ (
          leb len 65537
          && leb (length (contents s.sender_buffer) + (len + 2)) s.sender_buffer.capacity))
      × (contents sender ≡ (
          if done
          then contents s.sender_buffer ++ framed host data_ len
          else contents s.sender_buffer))
      × IsValid sender
      × (sender.capacity ≡ s.sender_buffer.capacity)
unfolding send_data
send_data_lem host s data_ len v two enough =
    let (room, a, sum, _) = available_write_lem v in
    let size = length-contents s.sender_buffer in
    let small = capacity_small v in
    elim (dec_le len 65537) [
      | no long ↦ (s.sender_buffer, false, ground arith, ground arith, refl, v, refl)
      | yes short ↦ elim (dec_le (len + 2) room) [
        | no full ↦ (s.sender_buffer, false, rw a (ground arith), ground arith, refl, v, refl)
        | yes fits ↦
            let packet : List ℕ = head_of host len ++ drop 2 data_ in
            let head = length-memory host 2 (u16 (sub64 len 2)) in
            let all = length-append (head_of host len) (drop 2 data_) in
            let rest = length-drop 2 data_ in
            let (sender, d, w, q, valid, cap) = write_content_refines packet len v (omega arith) in
            let there = length-take len packet in
            let taken : (contents sender, d) ≡ (contents s.sender_buffer ++ take len packet, true) =
              q ∙ appended _ _ _ (omega arith) in
            (
              sender,
              true,
              sending host s data_ len sender d short (omega arith) a
                  (overwritten host data_ len two) w,
              ground arith,
              ap (λ (x : ByteQueue × Bool). x.0) taken,
              valid,
              cap,
            )
      ]
    ]

append-fst :
    (capacity : ℕ) (q bytes : List ℕ)
    → (ByteQueue.append capacity q bytes).0
      ≡ (if leb (length q + length bytes) capacity then q ++ bytes else q)
unfolding ByteQueue.append
append-fst capacity q bytes = ground arith

sending_head :
    (s : TcpSocket) (buff : List ℕ) (sender : RingBuffer) (d : Bool)
    → length buff < 2 ^ 32
    → write_content s.sender_buffer buff (length buff) ≡ some (sender, d)
    → send_data_with_head s buff ≡ some (accepted s sender, true)
unfolding send_data_with_head
sending_head s buff sender d h w =
    let word : u32 (length buff) ≡ length buff = omega arith in rw (word, w) refl

-- `SendDataWithHead` never stops on a valid sender and always returns true, and tells the network
-- loop to write. It appends the bytes if they fit, and drops them all if they do not.
pub send_data_with_head_lem :
    (s : TcpSocket) (buff : List ℕ)
    → IsValid s.sender_buffer
    → length buff < 2 ^ 32
    → (sender : RingBuffer) × (send_data_with_head s buff ≡ some (accepted s sender, true))
      × (contents sender ≡ (
          if leb (length (contents s.sender_buffer) + length buff) s.sender_buffer.capacity
          then contents s.sender_buffer ++ buff
          else contents s.sender_buffer))
      × IsValid sender
      × (sender.capacity ≡ s.sender_buffer.capacity)
send_data_with_head_lem s buff v small =
    let (sender, d, w, q, valid, cap) = write_content_refines buff (length buff) v (omega arith) in
    let all = take-all (length buff) buff (omega arith) in
    (
      sender,
      sending_head s buff sender d small w,
      ap (λ (x : ByteQueue × Bool). x.0) q
          ∙ ap (λ l. (ByteQueue.append s.sender_buffer.capacity (contents s.sender_buffer) l).0) all
          ∙ append-fst s.sender_buffer.capacity (contents s.sender_buffer) buff,
      valid,
      cap,
    )
