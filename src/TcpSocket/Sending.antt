-- ===== src/TcpSocket/Sending.antt =====
-- `SendData`, `SendDataWithHead` and `TryWriteBufferToSocket`.
use reechat_base.Base.{
  ℕ, List, [], ◌∷◌, ◌++◌, Option, some, Bool, true, false, ltb, ◌==◌, if◌then◌else◌, ◌>>=◌, u16,
  u32, sub64, add64, memcpy, length, take,
}
use reechat_base.Endian.{Host, memory}
use reechat_base.RingBuffer.{
  available_write, write_content, available_series_read, current_series_read_head,
  consume_series_read_len, load,
}
use reechat_base.TcpSocket.{TcpSocket, run_in_network, try_write, emit, event_add, on_error_event}

-- The length that `SendData` puts into the caller's buffer.
abbrev pub head_of : Host → ℕ → List ℕ
head_of host len = memory host 2 (u16 (sub64 len 2))

-- `data` is the caller's buffer, whose first two bytes are overwritten.
unfoldable pub send_data : Host → TcpSocket → List ℕ → ℕ → Option (TcpSocket × Bool)
send_data host s data_ len =
    if ltb 65537 len
    then some (s, false)
    else (available_write s.sender_buffer >>= λ room.
        if ltb room (add64 len 2) then some (s, false) else (do
          packet ← memcpy data_ 0 (head_of host len) 2
          (sender, _) ← write_content s.sender_buffer packet (u32 len)
          some (emit (record s { sender_buffer = sender }) (run_in_network try_write), true)))

-- The result of `WriteContent` is not looked at.
unfoldable pub send_data_with_head : TcpSocket → List ℕ → Option (TcpSocket × Bool)
send_data_with_head s buff = do
  (sender, _) ← write_content s.sender_buffer buff (u32 (length buff))
  some (emit (record s { sender_buffer = sender }) (run_in_network try_write), true)

-- What the kernel does at one call of `send`: it has room for so many bytes, or none, or the
-- connection is broken (-1 with EAGAIN or EINTR, and -1 with another error).
pub data Outgoing : Type 0 where
  accepts : ℕ → Outgoing
  busy broken : Outgoing

-- One round of the loop for each call of `send`, until the loop ends or the list does; `wire` is
-- what `send` has taken.
unfoldable pub try_write_buffer : TcpSocket → List ℕ → List Outgoing → Option (TcpSocket × List ℕ)
try_write_buffer s wire [] = some (s, wire)
try_write_buffer s wire (accepts n ∷ calls) = do
  available ← available_series_read s.sender_buffer
  elim (available == 0) [
    | true ↦ some (s, wire)
    | false ↦ (do
      bytes ← load s.sender_buffer (current_series_read_head s.sender_buffer) available
      let sent = take n bytes
      sender ← consume_series_read_len s.sender_buffer (u32 (length sent))
      try_write_buffer (record s { sender_buffer = sender }) (wire ++ sent) calls)
  ]
try_write_buffer s wire (busy ∷ calls) = do
  available ← available_series_read s.sender_buffer
  if available == 0 then some (s, wire) else (do
    write_event ← s.write_event
    some (record s { write_event = some (event_add write_event) }, wire))
try_write_buffer s wire (broken ∷ calls) = do
  available ← available_series_read s.sender_buffer
  if available == 0 then some (s, wire) else (do t ← on_error_event s; some (t, wire))
