-- ===== src/TcpSocket/Receiving.antt =====
-- `TryReadDataFromSocket`, the cutting of packets in `TryProcessBufferedDataInWorkLoop`, and the
-- two event functions of a connected socket.
use reechat_base.Base.{
  ℕ, zero, suc, ◌+◌, List, [], ◌∷◌, ◌++◌, Option, none, some, ltb, leb, ◌==◌, ◌||◌, if◌then◌else◌,
  ◌>>=◌, sub32, length, take,
}
use reechat_base.Endian.{Host, of_memory}
use reechat_base.RingBuffer.{
  RingBuffer, available_read, available_series_read, current_series_read_head,
  consume_series_read_len, data_head, load, available_series_write, current_series_write_head,
  consume_series_write_len, store,
}
use reechat_base.TcpSocket.{
  TcpSocket, connected, queue_in_worker, read_packet, close_event, try_process, emit, event_del,
  on_error_event,
}

-- What the kernel has for a socket when `read` is called.
pub data Incoming : Type 0 where
  arrived : List ℕ → Incoming
  ended would_block reset : Incoming

pub data ReadReturn : Type 0 where
  got : List ℕ → ReadReturn
  again failed : ReadReturn

-- `read(fd, p, count)` of the operating system: at most `count` of the bytes there; 0 at the end
-- of the stream, and also when `count` is 0.
abbrev pub sys_read : ℕ → Incoming → ReadReturn
sys_read count (arrived bytes) = got (take count bytes)
sys_read count ended = got []
sys_read zero would_block = got []
sys_read (suc count) would_block = again
sys_read zero reset = got []
sys_read (suc count) reset = failed

unfoldable pub after_read : TcpSocket → ReadReturn → Option TcpSocket
after_read s (got []) = on_error_event s
after_read s (got (b ∷ bs)) = do
  stored ← store s.receiver_buffer (current_series_write_head s.receiver_buffer) (b ∷ bs)
  receiver ← consume_series_write_len stored (length (b ∷ bs))
  some (emit (record s { receiver_buffer = receiver }) (queue_in_worker try_process))
after_read s again = some s
after_read s failed = on_error_event s

unfoldable pub try_read_data : TcpSocket → Incoming → Option TcpSocket
unfolding after_read
try_read_data s incoming = do
  room ← available_series_write s.receiver_buffer
  after_read s (sys_read room incoming)

-- The two length bytes, which may stand at the two ends of the array.
unfoldable pub read_head : Host → RingBuffer → ℕ → Option ℕ
read_head host r series =
    if leb 2 series
    then (do head ← load r (current_series_read_head r) 2; some (of_memory host head))
    else (do
      low ← load r (current_series_read_head r) 1
      high ← load r (data_head r) 1
      some (of_memory host (low ++ high)))

-- A packet in one piece, or in two round the end of the array, and the buffer without it.
unfoldable pub take_packet : RingBuffer → ℕ → ℕ → Option (List ℕ × RingBuffer)
take_packet r series msg_len =
    if leb msg_len series
    then (do
      bytes ← load r (current_series_read_head r) msg_len
      rest ← consume_series_read_len r msg_len
      some (bytes, rest))
    else (do
      front ← load r (current_series_read_head r) series
      half ← consume_series_read_len r series
      let remain = sub32 msg_len series
      back ← load half (current_series_read_head half) remain
      rest ← consume_series_read_len half remain
      some (front ++ back, rest))

-- What one round of the loop came to.
pub data Round : Type 0 where
  stop : TcpSocket → Round
  again_with : TcpSocket → Round

-- The `SignalReadPacket` of a packet, if it is set.
abbrev pub deliver : TcpSocket → List ℕ → TcpSocket
deliver s bytes = if s.has_read_packet then emit s (read_packet bytes) else s

-- A length out of range: both events are taken out and `SignalOnCloseEvent` is called, if it is set.
unfoldable pub refuse_packet : TcpSocket → Option TcpSocket
refuse_packet s = do
  write_event ← s.write_event
  let t : TcpSocket = record s {
    read_event = event_del s.read_event;
    write_event = some (event_del write_event);
  }
  some (if s.has_on_close then emit t close_event else t)

unfoldable pub process_round : Host → TcpSocket → Option Round
process_round host s = do
  available ← available_read s.receiver_buffer
  series ← available_series_read s.receiver_buffer
  if ltb available 2
      then some (stop s)
      else (read_head host s.receiver_buffer series >>= λ payload_len.
          if ltb 65535 payload_len || payload_len == 0
          then (do t ← refuse_packet s; some (stop t))
          else if ltb available (payload_len + 2)
          then some (stop s)
          else (do
            (bytes, receiver) ← take_packet s.receiver_buffer series (payload_len + 2)
            some (again_with (deliver (record s { receiver_buffer = receiver }) bytes))))

-- The loop on fuel; `none` also means that the fuel ran out.
unfoldable pub process_buffered : ℕ → Host → TcpSocket → Option TcpSocket
process_buffered zero host s = none
process_buffered (suc fuel) host s = elim (process_round host s) [
  | none ↦ none
  | some round ↦ elim round [ stop t ↦ some t | again_with t ↦ process_buffered fuel host t ]
]

-- `OnReadEvent` and `OnWriteEvent` of a wrapper; the latter is `TryWriteBufferToSocket`.
unfoldable pub on_read : TcpSocket → Incoming → Option TcpSocket
unfolding try_read_data
on_read s incoming = elim s.state [ connected ↦ try_read_data s incoming | _ ↦ some s ]
