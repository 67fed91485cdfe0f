-- ===== src/TcpSocket/Delivery.antt =====
-- What the receiving side delivers of the packets that the sending side put into the stream.
use mathlib.Core.List.{flatten}
use reechat_base.Base.{
  ℕ, ◌+◌, ◌<◌, ◌≡◌, sym, ap, arith, subst, ◌∙◌, List, [], ◌++◌, append-nil, some, length,
}
use reechat_base.Endian.{Host}
use reechat_base.Frames.{Verdict, waiting, Parses}
use reechat_base.Frames.Laws.{AllFrames, Parses-frames, Parses-unique, Parses-append}
use reechat_base.RingBuffer.Geometry.{IsValid}
use reechat_base.RingBuffer.Contents.{contents}
use reechat_base.TcpSocket.{TcpSocket, Event}
use reechat_base.TcpSocket.Receiving.{process_buffered}
use reechat_base.TcpSocket.Process.{process_buffered_refines}
use reechat_base.TcpSocket.Rounds.{Processed, delivered, closing}

-- A receiver that holds whole packets calls `SignalReadPacket` with each of them, in order and with
-- nothing else, if it is set, and is empty afterwards.
pub process_buffered-frames :
    (host : Host) (frames : List (List ℕ)) (s : TcpSocket) (write_event : Event)
    → AllFrames host frames
    → contents s.receiver_buffer ≡ flatten frames
    → IsValid s.receiver_buffer
    → length (contents s.receiver_buffer) < s.receiver_buffer.capacity
    → s.write_event ≡ some write_event
    → (s' : TcpSocket) × (process_buffered (length (contents s.receiver_buffer) + 1) host s
        ≡ some s')
      × (s'.out ≡ s.out ++ delivered s.has_read_packet frames)
      × (contents s'.receiver_buffer ≡ [])
      × (s'.state ≡ s.state)
process_buffered-frames host frames s e all whole v room w =
    let (s', packets, verdict, ran, did) =
      process_buffered_refines (length (contents s.receiver_buffer) + 1) host s e v room w
        (omega arith) in
    let (same, left, calm) =
      Parses-unique did.parses
        (subst (λ l. Parses host l frames [] waiting) (sym whole) (Parses-frames frames all)) in
    (
      s',
      ran,
      did.called
          ∙ ap (λ l. s.out ++ (delivered s.has_read_packet l ++ closing s.has_on_close verdict))
              same
          ∙ ap (λ x. s.out ++ (delivered s.has_read_packet frames ++ closing s.has_on_close x)) calm
          ∙ ap (◌++◌ s.out) (append-nil _),
      left,
      did.same_state,
    )

-- Two runs of the loop with bytes arriving in between cut the stream as one run would have cut it whole:
-- where the network divides the bytes does not matter.
pub process_buffered-chunks :
    {host : Host} {s t u w : TcpSocket} {packets more : List (List ℕ)} {verdict : Verdict}
    (chunk : List ℕ)
    → Processed host s t packets waiting
    → contents u.receiver_buffer ≡ contents t.receiver_buffer ++ chunk
    → Processed host u w more verdict
    → Parses host
        (contents s.receiver_buffer ++ chunk)
        (packets ++ more)
        (contents w.receiver_buffer)
        verdict
process_buffered-chunks {host} {w = w} {more = more} {verdict = verdict} chunk first arrived
      second =
    Parses-append chunk first.parses
      (subst (λ l. Parses host l more (contents w.receiver_buffer) verdict) arrived second.parses)
