-- ===== src/TcpSocket/Process.antt =====
-- The loop of `TryProcessBufferedDataInWorkLoop` against the packet format of Frames.
use reechat_base.Base.{
  ℕ, zero, suc, ◌+◌, ◌≤◌, ◌<◌, ◌≡◌, ◌⊎◌, inl, inr, refl, sym, ap, ◌∙◌, List, [], ◌∷◌, ◌++◌,
  append-nil, append_assoc, some, Bool, true, false, length, take, take-take, take-append-drop,
  length-take, length-drop, arith, dec_le, dec_lt,
}
use reechat_base.Endian.{Host, of_memory}
use reechat_base.Frames.{
  payload_length, IsFrame, Verdict, waiting, illegal, Parses, short, unfinished, unlawful, packet,
}
use reechat_base.RingBuffer.{RingBuffer}
use reechat_base.RingBuffer.Geometry.{IsValid}
use reechat_base.RingBuffer.Contents.{contents}
use reechat_base.TcpSocket.{TcpSocket, Event, event_del}
use reechat_base.TcpSocket.Receiving.{stop, again_with, process_round, process_buffered}
use reechat_base.TcpSocket.Packets.{take_packet_lem}
use reechat_base.TcpSocket.Rounds.{
  delivered, closing, Processed, after_packet, refused, round_short, round_unfinished,
  round_unlawful, round_packet,
}

delivered-cons :
    (b : Bool) (p : List ℕ) (ps : List (List ℕ))
    → delivered b (p ∷ []) ++ delivered b ps ≡ delivered b (p ∷ ps)
delivered-cons true p ps = refl
delivered-cons false p [] = refl
delivered-cons false p (q ∷ ps) = refl

-- A run that begins with a packet.
Processed-packet :
    {host : Host} {s s' : TcpSocket} {rest : RingBuffer} {packets : List (List ℕ)}
    {verdict : Verdict} (bytes : List ℕ)
    → IsFrame host bytes
    → contents s.receiver_buffer ≡ bytes ++ contents rest
    → rest.capacity ≡ s.receiver_buffer.capacity
    → Processed host (after_packet s rest bytes) s' packets verdict
    → Processed host s s' (bytes ∷ packets) verdict
Processed-packet {host} {s} {s'} {rest} {packets} {verdict} bytes f e c q = record {
  parses = packet bytes f e q.parses;
  called =
      q.called
      ∙ append_assoc s.out (delivered s.has_read_packet (bytes ∷ [])) _
      ∙ ap (◌++◌ s.out) (
          sym (
            append_assoc (delivered s.has_read_packet (bytes ∷ []))
              (delivered s.has_read_packet packets) (closing s.has_on_close verdict))
          ∙ ap (λ l. l ++ closing s.has_on_close verdict)
              (delivered-cons s.has_read_packet bytes packets));
  valid = q.valid;
  same_capacity = q.same_capacity ∙ c;
  same_state = q.same_state;
  has_write = q.has_write;
  same_callback = q.same_callback;
}

stopped :
    {host : Host} (s : TcpSocket)
    → IsValid s.receiver_buffer
    → Parses host (contents s.receiver_buffer) [] (contents s.receiver_buffer) waiting
    → Processed host s s [] waiting
stopped s v p = record {
  parses = p;
  called = sym (append-nil s.out);
  valid = v;
  same_capacity = refl;
  same_state = refl;
  has_write = λ e h. (e, h);
  same_callback = refl;
}

-- The first packet of a stream that begins with one.
front-IsFrame :
    (host : Host) (c : List ℕ)
    → 0 < payload_length host c
    → payload_length host c ≤ 65535
    → payload_length host c + 2 ≤ length c
    → IsFrame host (take (payload_length host c + 2) c)
front-IsFrame host c p u q =
    let n : ℕ = payload_length host c + 2 in
    let same : payload_length host (take n c) ≡ payload_length host c =
      ap (of_memory host) (take-take 2 n c (omega arith)) in
    let size = length-take n c in
    record { headed = omega arith; filled = omega arith; small = omega arith; exact = omega arith }

-- What stands at the front of the received bytes.
data Front (host : Host) (c : List ℕ) : Type 0 where
  too_short : length c < 2 → Front host c
  out_of_range :
      2 ≤ length c → (payload_length host c ≡ 0) ⊎ (65535 < payload_length host c) → Front host c
  missing :
      2 ≤ length c
      → 0 < payload_length host c
      → payload_length host c ≤ 65535
      → length c < payload_length host c + 2
      → Front host c
  whole :
      2 ≤ length c
      → 0 < payload_length host c
      → payload_length host c ≤ 65535
      → payload_length host c + 2 ≤ length c
      → Front host c

Front-cases : (host : Host) (c : List ℕ) → Front host c
Front-cases host c =
    let p : ℕ = payload_length host c in
    elim (dec_lt (length c) 2) [
      | yes few ↦ too_short few
      | no more ↦ elim (dec_lt 0 p) [
        | no none_ ↦ out_of_range (omega arith) (inl (omega arith))
        | yes positive ↦ elim (dec_le p 65535) [
          | no large ↦ out_of_range (omega arith) (inr (omega arith))
          | yes small ↦ elim (dec_le (p + 2) (length c)) [
            | no few ↦ missing (omega arith) positive small (omega arith)
            | yes there ↦ whole (omega arith) positive small there
          ]
        ]
      ]
    ]

run-stop :
    (host : Host) (s t : TcpSocket) (fuel : ℕ)
    → process_round host s ≡ some (stop t)
    → process_buffered (suc fuel) host s ≡ some t
unfolding process_buffered
run-stop host s t fuel e = rw (e, process_buffered) refl

run-again :
    (host : Host) (s t : TcpSocket) (fuel : ℕ)
    → process_round host s ≡ some (again_with t)
    → process_buffered (suc fuel) host s ≡ process_buffered fuel host t
unfolding process_buffered
run-again host s t fuel e = rw (e, process_buffered) refl

refusal :
    {host : Host} (s : TcpSocket) (e : Event)
    → IsValid s.receiver_buffer
    → 2 ≤ length (contents s.receiver_buffer)
    → (payload_length host (contents s.receiver_buffer) ≡ 0)
      ⊎ (65535 < payload_length host (contents s.receiver_buffer))
    → Processed host s (refused s e) [] illegal
refusal s e v h bad = record {
  parses = unlawful (contents s.receiver_buffer) h bad;
  called = refl;
  valid = v;
  same_capacity = refl;
  same_state = refl;
  has_write = λ _ _. (event_del e, refl);
  same_callback = refl;
}

-- On a valid receiver that is not full, and with a write event, the loop always comes to its end, in at
-- most one round more than there are bytes. It cuts the received bytes into packets exactly as the
-- format says, calls `SignalReadPacket` for each in order, and `SignalOnCloseEvent` after a length
-- out of range; the rest stays in the buffer, which keeps its invariant, and the state is not changed.
pub process_buffered_refines :
    (fuel : ℕ) (host : Host) (s : TcpSocket) (write_event : Event)
    → IsValid s.receiver_buffer
    → length (contents s.receiver_buffer) < s.receiver_buffer.capacity
    → s.write_event ≡ some write_event
    → length (contents s.receiver_buffer) < fuel
    → (s' : TcpSocket) × (packets : List (List ℕ)) × (verdict : Verdict) × (process_buffered fuel
          host s
        ≡ some s')
      × Processed host s s' packets verdict
process_buffered_refines zero host s e v room w enough = absurd (omega arith)
process_buffered_refines (suc fuel) host s e v room w enough =
    elim (Front-cases host (contents s.receiver_buffer)) [
      | too_short few ↦ (
        s,
        [],
        waiting,
        run-stop host s _ fuel (round_short host s v room few),
        stopped s v (short (contents s.receiver_buffer) few),
      )
      | out_of_range more unlawful_length ↦ (
        refused s e,
        [],
        illegal,
        run-stop host s _ fuel (round_unlawful host s v room e w more unlawful_length),
        refusal s e v more unlawful_length,
      )
      | missing more positive small few ↦ (
        s,
        [],
        waiting,
        run-stop host s _ fuel (round_unfinished host s v room more positive small few),
        stopped s v (unfinished (contents s.receiver_buffer) more positive small few),
      )
      | whole more positive small there ↦
          let c : List ℕ = contents s.receiver_buffer in
          let n : ℕ = payload_length host c + 2 in
          let (rest, taken, left, valid, cap) = take_packet_lem n v there in
          let size = ap length left ∙ length-drop n c in
          let (s', packets, verdict, ran, did) =
            process_buffered_refines fuel host (after_packet s rest (take n c)) e valid
              (omega arith) w (omega arith) in
          (
            s',
            take n c ∷ packets,
            verdict,
            run-again host s _ fuel (round_packet host s v room more positive small there taken)
                ∙ ran,
            Processed-packet (take n c) (front-IsFrame host c positive small there)
                (sym (take-append-drop n c) ∙ ap (◌++◌ (take n c)) (sym left)) cap did,
          )
    ]
