-- ===== src/TcpSocket/Write.antt =====
-- The loop of `TryWriteBufferToSocket`, whatever the calls of `send` return.
use reechat_base.Base.{
  false, ℕ, zero, suc, ◌≡◌, ◌≢◌, inl, inr, refl, sym, ap, ◌∙◌, List, [], ◌∷◌, ◌++◌, append-nil,
  append_assoc, some, Bool-cases, if◌then◌else◌, length, take, drop, length-take, take-append-drop,
  take-all, arith, u32, ℕ_discrete,
}
use reechat_base.RingBuffer.{
  RingBuffer, load, consume_series_read_len, available_series_read, current_series_read_head,
}
use reechat_base.RingBuffer.Geometry.{IsValid, capacity_small, index-lt}
use reechat_base.RingBuffer.Contents.{contents}
use reechat_base.RingBuffer.Series.{series_read_lem, consume_series_read_lem}
use reechat_base.TcpSocket.{
  TcpSocket, closed, Event, run_in_worker, signal_close, event_add, event_del, on_error_event,
}
use reechat_base.TcpSocket.Sending.{Outgoing, accepts, busy, broken, try_write_buffer}
use reechat_base.TcpSocket.Packets.{series_of}

-- The object after `OnErrorEvent`.
abbrev pub errored : TcpSocket → Event → TcpSocket
errored s e = record s {
  read_event = event_del s.read_event;
  write_event = some (event_del e);
  state = closed;
  out = s.out ++ (if s.has_on_close then run_in_worker signal_close ∷ [] else []);
}

pub on_error_event_lem :
    (s : TcpSocket) (e : Event) → s.write_event ≡ some e → on_error_event s ≡ some (errored s e)
unfolding on_error_event
on_error_event_lem s e h = elim (Bool-cases s.has_on_close) [
  | inl c ↦ rw (h, c) refl
  | inr c ↦ rw (h, c, append-nil) refl
]

-- How the loop ends: it goes on another time, waits for the socket, or gives the connection up.
pub data Ended (s : TcpSocket) (e : Event) (sender : RingBuffer) : TcpSocket → Type 0 where
  paused : Ended s e sender (record s { sender_buffer = sender })
  waits : Ended s e sender (record s { sender_buffer = sender; write_event = some (event_add e) })
  given_up : Ended s e sender (errored (record s { sender_buffer = sender }) e)

Ended-step :
    {s s' : TcpSocket} {e : Event} {x sender : RingBuffer}
    → Ended (record s { sender_buffer = x }) e sender s'
    → Ended s e sender s'
Ended-step paused = paused
Ended-step waits = waits
Ended-step given_up = given_up

-- Which answer of `send` ended the loop, and what it did: nothing was left to send, the socket was not ready and the write
-- event was added, or `send` failed and the connection was given up; or the answers at hand were all takings.
pub data Cause (e : Event) (sender : RingBuffer) (s' : TcpSocket) : List Outgoing → Type 0 where
  answers_end : s'.write_event ≡ some e → Cause e sender s' []
  none_left :
      {calls : List Outgoing}
      → contents sender ≡ []
      → s'.write_event ≡ some e
      → Cause e sender s' calls
  not_ready :
      {calls : List Outgoing}
      → contents sender ≢ []
      → s'.write_event ≡ some (event_add e)
      → Cause e sender s' (busy ∷ calls)
  fails :
      {calls : List Outgoing}
      → contents sender ≢ []
      → s'.state ≡ closed
      → s'.read_event.added ≡ false
      → s'.write_event ≡ some (event_del e)
      → Cause e sender s' (broken ∷ calls)
  goes_on :
      (n : ℕ) {calls : List Outgoing}
      → Cause e sender s' calls
      → Cause e sender s' (accepts n ∷ calls)

-- What `send` takes of the `m` bytes it is offered is a beginning of all.
take_of_take : (n m : ℕ) (c : List ℕ) → take n (take m c) ≡ take (length (take n (take m c))) c
take_of_take zero m c = refl
take_of_take (suc n) zero c = refl
take_of_take (suc n) (suc m) [] = refl
take_of_take (suc n) (suc m) (x ∷ c) = ap (◌∷◌ x) (take_of_take n m c)

-- The rounds in which there is something to send, by what is offered.
module _ (s : TcpSocket) (wire : List ℕ) (calls : List Outgoing) where
  pub accepting :
      (m n : ℕ) {bytes : List ℕ} (sender : RingBuffer)
      → m ≢ 0
      → available_series_read s.sender_buffer ≡ some m
      → load s.sender_buffer (current_series_read_head s.sender_buffer) m ≡ some bytes
      → consume_series_read_len s.sender_buffer (u32 (length (take n bytes))) ≡ some sender
      → try_write_buffer s wire (accepts n ∷ calls)
        ≡ try_write_buffer (record s { sender_buffer = sender }) (wire ++ take n bytes) calls
  unfolding try_write_buffer
  accepting m n sender h a l c = ground (arith, a, l, c)

  waiting_busy :
      (m : ℕ) (e : Event)
      → m ≢ 0
      → available_series_read s.sender_buffer ≡ some m
      → s.write_event ≡ some e
      → try_write_buffer s wire (busy ∷ calls)
        ≡ some (record s { write_event = some (event_add e) }, wire)
  unfolding try_write_buffer
  waiting_busy m e h a w = ground (arith, a, w)

  giving_up :
      (m : ℕ) (e : Event)
      → m ≢ 0
      → available_series_read s.sender_buffer ≡ some m
      → s.write_event ≡ some e
      → try_write_buffer s wire (broken ∷ calls) ≡ some (errored s e, wire)
  unfolding try_write_buffer
  giving_up m e h a w = let err = on_error_event_lem s e w in ground (arith, a, err)

module _ (s : TcpSocket) (v : IsValid s.sender_buffer) where
  pub offered : available_series_read s.sender_buffer ≡ some (series_of s.sender_buffer)
  offered = let (n, e, size, _) = series_read_lem v in e ∙ ap some size

  pub nothing_left : series_of s.sender_buffer ≡ 0 → contents s.sender_buffer ≡ []
  unfolding current_series_read_head
  nothing_left h =
      let inside = index-lt v s.sender_buffer.read_count in
      sym (take-all 0 (contents s.sender_buffer) (omega arith))

  something_left : series_of s.sender_buffer ≢ 0 → contents s.sender_buffer ≢ []
  unfolding current_series_read_head
  something_left h none_there = h (omega (arith, ap length none_there))

  pub write-nothing :
      (wire : List ℕ) (call : Outgoing) (calls : List Outgoing)
      → series_of s.sender_buffer ≡ 0
      → try_write_buffer s wire (call ∷ calls) ≡ some (s, wire)
  unfolding try_write_buffer
  write-nothing wire (accepts n) calls h = rw (try_write_buffer, offered, h) refl
  write-nothing wire busy calls h = rw (try_write_buffer, offered, h) refl
  write-nothing wire broken calls h = rw (try_write_buffer, offered, h) refl

  abbrev pub sent : ℕ → List ℕ
  sent n = take n (take (series_of s.sender_buffer) (contents s.sender_buffer))

  pub write-accepts :
      (wire : List ℕ) (n : ℕ) (calls : List Outgoing)
      → series_of s.sender_buffer ≢ 0
      → (sender : RingBuffer) × (try_write_buffer s wire (accepts n ∷ calls)
          ≡ try_write_buffer (record s { sender_buffer = sender }) (wire ++ sent n) calls)
        × (contents sender ≡ drop (length (sent n)) (contents s.sender_buffer))
        × IsValid sender
        × (sender.capacity ≡ s.sender_buffer.capacity)
  write-accepts wire n calls h =
      let m : ℕ = series_of s.sender_buffer in
      let (_, _, size, bytes) = series_read_lem v in
      let small = capacity_small v in
      let count = length-take n (take m (contents s.sender_buffer)) in
      let held = length-take m (contents s.sender_buffer) in
      let (sender, e, left, w, cap) = consume_series_read_lem (length (sent n)) v (omega arith) in
      let word : u32 (length (sent n)) ≡ length (sent n) = omega arith in
      (
        sender,
        accepting s wire calls m n sender h offered (bytes m (omega arith))
            (ap (consume_series_read_len s.sender_buffer) word ∙ e),
        left,
        w,
        cap,
      )

  sent_and_left :
      (n : ℕ) {rest : List ℕ}
      → rest ≡ drop (length (sent n)) (contents s.sender_buffer)
      → sent n ++ rest ≡ contents s.sender_buffer
  sent_and_left n {rest} left =
      ap (λ l. l ++ rest) (take_of_take n (series_of s.sender_buffer) (contents s.sender_buffer))
      ∙ ap (◌++◌ (take (length (sent n)) (contents s.sender_buffer))) left
      ∙ take-append-drop (length (sent n)) (contents s.sender_buffer)

-- The loop never stops on a valid sender with a write event, whatever the calls of `send` come to: what
-- the kernel has taken, followed by what the buffer still holds, is what the buffer held, in order. It
-- ends with the object as it was but for the buffer, waiting for the write event, or given up: the first
-- if nothing is left to send or the answers of `send` at hand were all takings, the second, with the write event
-- added, at the first answer that the socket is not ready while bytes are left, the third at the first
-- failure while bytes are left.
pub try_write_buffer_lem :
    (s : TcpSocket) (wire : List ℕ) (calls : List Outgoing) (e : Event)
    → IsValid s.sender_buffer
    → s.write_event ≡ some e
    → (s' : TcpSocket) × (wire' : List ℕ) × (sender : RingBuffer) × (try_write_buffer s wire calls
        ≡ some (s', wire'))
      × (wire' ++ contents sender ≡ wire ++ contents s.sender_buffer)
      × Ended s e sender s'
      × IsValid sender
      × (sender.capacity ≡ s.sender_buffer.capacity)
      × Cause e sender s' calls
unfolding try_write_buffer
try_write_buffer_lem s wire [] e v w =
    (s, wire, s.sender_buffer, refl, refl, paused, v, refl, answers_end w)
try_write_buffer_lem s wire (busy ∷ calls) e v w = elim (ℕ_discrete (series_of s.sender_buffer) 0) [
  | yes z ↦ (
    s,
    wire,
    s.sender_buffer,
    write-nothing s v wire busy calls z,
    refl,
    paused,
    v,
    refl,
    none_left (nothing_left s v z) w,
  )
  | no h ↦ (
    _,
    wire,
    s.sender_buffer,
    waiting_busy s wire calls _ e h (offered s v) w,
    refl,
    waits,
    v,
    refl,
    not_ready (something_left s v h) refl,
  )
]
try_write_buffer_lem s wire (broken ∷ calls) e v w =
    elim (ℕ_discrete (series_of s.sender_buffer) 0) [
      | yes z ↦ (
        s,
        wire,
        s.sender_buffer,
        write-nothing s v wire broken calls z,
        refl,
        paused,
        v,
        refl,
        none_left (nothing_left s v z) w,
      )
      | no h ↦ (
        _,
        wire,
        s.sender_buffer,
        giving_up s wire calls _ e h (offered s v) w,
        refl,
        given_up,
        v,
        refl,
        fails (something_left s v h) refl refl refl,
      )
    ]
try_write_buffer_lem s wire (accepts n ∷ calls) e v w =
    elim (ℕ_discrete (series_of s.sender_buffer) 0) [
      | yes z ↦ (
        s,
        wire,
        s.sender_buffer,
        write-nothing s v wire (accepts n) calls z,
        refl,
        paused,
        v,
        refl,
        none_left (nothing_left s v z) w,
      )
      | no h ↦
          let (sender, ran, left, valid, cap) = write-accepts s v wire n calls h in
          let (s', wire', last, did, same, end, ok, size, why) =
            try_write_buffer_lem (record s { sender_buffer = sender }) (wire ++ sent s v n) calls e
              valid w in
          (
            s',
            wire',
            last,
            ran ∙ did,
            same
                ∙ append_assoc wire (sent s v n) (contents sender)
                ∙ ap (◌++◌ wire) (sent_and_left s v n left),
            Ended-step end,
            ok,
            size ∙ cap,
            goes_on n why,
          )
    ]
