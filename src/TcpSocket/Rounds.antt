-- ===== src/TcpSocket/Rounds.antt =====
-- One round of the loop of `TryProcessBufferedDataInWorkLoop`, and what a run of it does.
use reechat_base.Base.{
  ℕ, ◌+◌, ◌≤◌, ◌<◌, ◌≡◌, ◌⊎◌, inl, inr, refl, ap, ◌∙◌, List, [], ◌∷◌, ◌++◌, append-nil, some, Bool,
  true, false, Bool-cases, length, arith,
}
use reechat_base.Endian.{Host}
use reechat_base.Frames.{payload_length, Verdict, waiting, illegal, Parses}
use reechat_base.RingBuffer.{RingBuffer, available_read, available_series_read}
use reechat_base.RingBuffer.Geometry.{IsValid}
use reechat_base.RingBuffer.Contents.{contents}
use reechat_base.RingBuffer.Series.{series_read_lem, available_read_lem}
use reechat_base.TcpSocket.{TcpSocket, Event, Effect, read_packet, close_event, event_del}
use reechat_base.TcpSocket.Receiving.{
  stop, again_with, take_packet, deliver, refuse_packet, process_round,
}
use reechat_base.TcpSocket.Packets.{series_of, read_head_lem}

-- The calls of `SignalReadPacket`, one for each packet, if it is set.
abbrev pub delivered : Bool → List (List ℕ) → List Effect
delivered b [] = []
delivered true (p ∷ ps) = read_packet p ∷ delivered true ps
delivered false (p ∷ ps) = []

-- The call of `SignalOnCloseEvent`, if it is set.
abbrev pub closing : Bool → Verdict → List Effect
closing b waiting = []
closing true illegal = close_event ∷ []
closing false illegal = []

-- What a run of the loop does to the object.
pub record Processed (host : Host) (s s' : TcpSocket) (packets : List (List ℕ)) (verdict : Verdict)
    : Type 0 where
  pub parses :
      Parses host (contents s.receiver_buffer) packets (contents s'.receiver_buffer) verdict
  pub called :
      s'.out ≡ s.out ++ (delivered s.has_read_packet packets ++ closing s.has_on_close verdict)
  pub valid : IsValid s'.receiver_buffer
  pub same_capacity : s'.receiver_buffer.capacity ≡ s.receiver_buffer.capacity
  pub same_state : s'.state ≡ s.state
  pub has_write : (e : Event) → s.write_event ≡ some e → (f : Event) × (s'.write_event ≡ some f)
  pub same_callback : s'.has_read_packet ≡ s.has_read_packet

abbrev pub after_packet : TcpSocket → RingBuffer → List ℕ → TcpSocket
after_packet s receiver bytes = record s {
  receiver_buffer = receiver;
  out = s.out ++ delivered s.has_read_packet (bytes ∷ []);
}

deliver_lem :
    (s : TcpSocket) (receiver : RingBuffer) (bytes : List ℕ)
    → deliver (record s { receiver_buffer = receiver }) bytes ≡ after_packet s receiver bytes
deliver_lem s receiver bytes = elim (Bool-cases s.has_read_packet) [
  | inl e ↦ rw e refl
  | inr e ↦ rw (e, append-nil) refl
]

abbrev pub refused : TcpSocket → Event → TcpSocket
refused s e = record s {
  read_event = event_del s.read_event;
  write_event = some (event_del e);
  out = s.out ++ closing s.has_on_close illegal;
}

refuse_packet_lem :
    (s : TcpSocket) (e : Event) → s.write_event ≡ some e → refuse_packet s ≡ some (refused s e)
unfolding refuse_packet
refuse_packet_lem s e h = elim (Bool-cases s.has_on_close) [
  | inl c ↦ rw (h, c) refl
  | inr c ↦ rw (h, c, append-nil) refl
]

-- One round, by what stands at the front of the buffer.
module _ (host : Host) (s : TcpSocket) (v : IsValid s.receiver_buffer)
    (room : length (contents s.receiver_buffer) < s.receiver_buffer.capacity) where
  pub available : available_read s.receiver_buffer ≡ some (length (contents s.receiver_buffer))
  available = let (part, _) = available_read_lem v in part room

  pub series : available_series_read s.receiver_buffer ≡ some (series_of s.receiver_buffer)
  series = let (n, e, size, _) = series_read_lem v in e ∙ ap some size

  pub round_short : length (contents s.receiver_buffer) < 2 → process_round host s ≡ some (stop s)
  unfolding process_round
  round_short h = rw (available, series) (ground arith)

  pub round_unfinished :
      2 ≤ length (contents s.receiver_buffer)
      → 0 < payload_length host (contents s.receiver_buffer)
      → payload_length host (contents s.receiver_buffer) ≤ 65535
      → length (contents s.receiver_buffer) < payload_length host (contents s.receiver_buffer) + 2
      → process_round host s ≡ some (stop s)
  unfolding process_round
  round_unfinished h p u q = rw (available, series, read_head_lem host v h) (ground arith)

  pub round_unlawful :
      (e : Event)
      → s.write_event ≡ some e
      → 2 ≤ length (contents s.receiver_buffer)
      → (payload_length host (contents s.receiver_buffer) ≡ 0)
        ⊎ (65535 < payload_length host (contents s.receiver_buffer))
      → process_round host s ≡ some (stop (refused s e))
  unfolding process_round
  round_unlawful e w h bad =
      rw (available, series, read_head_lem host v h, refuse_packet_lem s e w) (ground arith)

  pub round_packet :
      {bytes : List ℕ} {rest : RingBuffer}
      → 2 ≤ length (contents s.receiver_buffer)
      → 0 < payload_length host (contents s.receiver_buffer)
      → payload_length host (contents s.receiver_buffer) ≤ 65535
      → payload_length host (contents s.receiver_buffer) + 2 ≤ length (contents s.receiver_buffer)
      → take_packet s.receiver_buffer
          (series_of s.receiver_buffer)
          (payload_length host (contents s.receiver_buffer) + 2)
        ≡ some (bytes, rest)
      → process_round host s ≡ some (again_with (after_packet s rest bytes))
  unfolding process_round
  round_packet {bytes} {rest} h p u q e =
      rw (available, series, read_head_lem host v h, e, deliver_lem s rest bytes) (ground arith)
