-- ===== src/TcpSocket/Read.antt =====
-- What `TryReadDataFromSocket` does with what the kernel has.
use reechat_base.Base.{
  ℕ, zero, suc, ◌-◌, ◌≡◌, ◌≢◌, refl, ap, ◌∙◌, List, [], ◌∷◌, ◌++◌, some, length, take, ◌>>=◌,
  length-take, min, arith, >>=-eq-some,
}
use reechat_base.RingBuffer.{
  RingBuffer, available_series_write, current_series_write_head, store, consume_series_write_len,
}
use reechat_base.RingBuffer.Geometry.{IsValid}
use reechat_base.RingBuffer.Contents.{contents}
use reechat_base.RingBuffer.Series.{series_write_lem}
use reechat_base.TcpSocket.{TcpSocket, Event, queue_in_worker, try_process}
use reechat_base.TcpSocket.Receiving.{
  Incoming, arrived, ended, would_block, reset, try_read_data, got, sys_read, after_read,
}
use reechat_base.TcpSocket.Write.{errored, on_error_event_lem}

-- The free bytes in one piece.
abbrev pub free_of : RingBuffer → ℕ
free_of r = min (r.capacity - length (contents r)) (r.capacity - current_series_write_head r)

-- The object after bytes were read.
abbrev pub filled : TcpSocket → RingBuffer → TcpSocket
filled s receiver = record s {
  receiver_buffer = receiver;
  out = s.out ++ queue_in_worker try_process ∷ [];
}

stored :
    (s : TcpSocket) (chunk : List ℕ) (receiver : RingBuffer)
    → chunk ≢ []
    → (store s.receiver_buffer (current_series_write_head s.receiver_buffer) chunk >>= λ r.
        consume_series_write_len r (length chunk))
      ≡ some receiver
    → after_read s (got chunk) ≡ some (filled s receiver)
unfolding after_read
stored s [] receiver h e = absurd (h refl)
stored s (b ∷ bs) receiver h e =
    let (r, a, c) =
      >>=-eq-some (store s.receiver_buffer (current_series_write_head s.receiver_buffer) (b ∷ bs))
        (λ x. consume_series_write_len x (length (b ∷ bs))) e in
    rw (after_read, a, c) refl

asked_nothing :
    (s : TcpSocket) (e : Event)
    → s.write_event ≡ some e
    → (incoming : Incoming) → after_read s (sys_read 0 incoming) ≡ some (errored s e)
unfolding after_read
asked_nothing s e w (arrived bytes) = on_error_event_lem s e w
asked_nothing s e w ended = on_error_event_lem s e w
asked_nothing s e w would_block = on_error_event_lem s e w
asked_nothing s e w reset = on_error_event_lem s e w

module _ (s : TcpSocket) (e : Event) (v : IsValid s.receiver_buffer)
    (w : s.write_event ≡ some e) where
  free : available_series_write s.receiver_buffer ≡ some (free_of s.receiver_buffer)
  free = let (n, a, size, _) = series_write_lem v in a ∙ ap some size

  -- Bytes that arrived are appended to the valid receiver, as many as are free in one piece, and the
  -- worker loop is told to cut packets.
  pub try_read_data-arrived :
      (bytes : List ℕ)
      → take (free_of s.receiver_buffer) bytes ≢ []
      → (receiver : RingBuffer) × (try_read_data s (arrived bytes) ≡ some (filled s receiver))
        × (contents receiver ≡ contents s.receiver_buffer ++ take (free_of s.receiver_buffer) bytes)
        × IsValid receiver
        × (receiver.capacity ≡ s.receiver_buffer.capacity)
  unfolding try_read_data
  try_read_data-arrived bytes some_ =
      let (n, _, size, stores) = series_write_lem v in
      let chunk : List ℕ = take (free_of s.receiver_buffer) bytes in
      let count = length-take (free_of s.receiver_buffer) bytes in
      let (receiver, ran, holds, valid, cap) = stores chunk (omega arith) in
      (receiver, rw free (stored s chunk receiver some_ ran), holds, valid, cap)

  -- When the receiver is full, the object closes the connection, whatever the kernel has: the call asks for 0
  -- bytes, and its return is taken for the end of the stream.
  pub try_read_data-full :
      (incoming : Incoming)
      → length (contents s.receiver_buffer) ≡ s.receiver_buffer.capacity
      → try_read_data s incoming ≡ some (errored s e)
  unfolding try_read_data
  try_read_data-full incoming full =
      let none_free : free_of s.receiver_buffer ≡ 0 = omega arith in
      rw (free, none_free) (asked_nothing s e w incoming)

-- All that can come of a call of `TryReadDataFromSocket`.
pub data Outcome (s : TcpSocket) (e : Event) : TcpSocket → Type 0 where
  nothing : Outcome s e s
  received : (receiver : RingBuffer) → IsValid receiver → Outcome s e (filled s receiver)
  failed_read : Outcome s e (errored s e)

module _ (s : TcpSocket) (e : Event) (v : IsValid s.receiver_buffer)
    (w : s.write_event ≡ some e) where
  started :
      (incoming : Incoming)
      → try_read_data s incoming ≡ after_read s (sys_read (free_of s.receiver_buffer) incoming)
  unfolding try_read_data
  started incoming = rw (free s e v w) refl

  blocked :
      (n : ℕ) → (t : TcpSocket) × (after_read s (sys_read n would_block) ≡ some t) × Outcome s e t
  unfolding after_read
  blocked zero = (errored s e, on_error_event_lem s e w, failed_read)
  blocked (suc n) = (s, refl, nothing)

  broke : (n : ℕ) → after_read s (sys_read n reset) ≡ some (errored s e)
  unfolding after_read
  broke zero = on_error_event_lem s e w
  broke (suc n) = on_error_event_lem s e w

  came :
      (bytes chunk : List ℕ)
      → take (free_of s.receiver_buffer) bytes ≡ chunk
      → (t : TcpSocket) × (try_read_data s (arrived bytes) ≡ some t) × Outcome s e t
  unfolding after_read
  came bytes [] h = (
    errored s e,
    started (arrived bytes) ∙ ap (λ l. after_read s (got l)) h ∙ on_error_event_lem s e w,
    failed_read,
  )
  came bytes (b ∷ bs) h =
      let (receiver, ran, _, valid, _) = try_read_data-arrived s e v w bytes (λ n. cc) in
      (filled s receiver, ran, received receiver valid)

  -- On a valid receiver with a write event the call never stops.
  pub try_read_data-Outcome :
      (incoming : Incoming) → (t : TcpSocket) × (try_read_data s incoming ≡ some t) × Outcome s e t
  unfolding after_read
  try_read_data-Outcome (arrived bytes) = came bytes (take (free_of s.receiver_buffer) bytes) refl
  try_read_data-Outcome ended = (errored s e, started ended ∙ on_error_event_lem s e w, failed_read)
  try_read_data-Outcome would_block =
      let (t, ran, o) = blocked (free_of s.receiver_buffer) in (t, started would_block ∙ ran, o)
  try_read_data-Outcome reset =
      (errored s e, started reset ∙ broke (free_of s.receiver_buffer), failed_read)
