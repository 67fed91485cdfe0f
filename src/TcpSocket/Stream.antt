-- ===== src/TcpSocket/Stream.antt =====
-- A connection from end to end: the calls that put packets into one `TcpSocketWrapper` and its writes to the
-- network, and the reads and the cutting into packets of the one at the other end (tcp_socket_wrapper.cpp).
pub mod Called
pub mod Ends
pub mod Delivered
mod Tests
use reechat_base.Base.{
  ℕ, ◌+◌, ◌≤◌, ◌<◌, ◌≡◌, ◌≢◌, List, [], ◌∷◌, ◌++◌, some, true, false, length, take,
}
use reechat_base.Endian.{Host}
use reechat_base.RingBuffer.Contents.{contents}
use reechat_base.TcpSocket.{
  TcpSocket, Effect, read_packet, run_in_network, run_in_worker, queue_in_worker, new_connection,
  close_event,
}
use reechat_base.TcpSocket.Sending.{Outgoing, send_data, try_write_buffer}
use reechat_base.TcpSocket.Receiving.{arrived, try_read_data, process_buffered}
use reechat_base.TcpSocket.Send.{framed}
use reechat_base.TcpSocket.Read.{free_of}

-- The packets that `SignalReadPacket` was called with, in order.
unfoldable pub packets_of : List Effect → List (List ℕ)
packets_of [] = []
packets_of (run_in_network t ∷ es) = packets_of es
packets_of (run_in_worker t ∷ es) = packets_of es
packets_of (queue_in_worker t ∷ es) = packets_of es
packets_of (read_packet p ∷ es) = p ∷ packets_of es
packets_of (new_connection ∷ es) = packets_of es
packets_of (close_event ∷ es) = packets_of es

-- A run of the sending end: the packets that `SendData` took, and the bytes that `send` took.
pub data Sends (host : Host) (s : TcpSocket) : TcpSocket → List (List ℕ) → List ℕ → Type 0 where
  begin : Sends host s s [] []
  taken :
      {t u : TcpSocket} {frames more : List (List ℕ)} {wire : List ℕ} (data_ : List ℕ) (len : ℕ)
      → Sends host s t frames wire
      → 3 ≤ len
      → len ≤ length data_
      → send_data host t data_ len ≡ some (u, true)
      → more ≡ frames ++ framed host data_ len ∷ []
      → Sends host s u more wire
  refused :
      {t u : TcpSocket} {frames : List (List ℕ)} {wire : List ℕ} (data_ : List ℕ) (len : ℕ)
      → Sends host s t frames wire
      → 3 ≤ len
      → len ≤ length data_
      → send_data host t data_ len ≡ some (u, false)
      → Sends host s u frames wire
  written :
      {t u : TcpSocket} {frames : List (List ℕ)} {wire wire' : List ℕ} (calls : List Outgoing)
      → Sends host s t frames wire
      → try_write_buffer t wire calls ≡ some (u, wire')
      → Sends host s u frames wire'

-- A run of the receiving end, and the bytes that `read` gave it.
pub data Receives (host : Host) (r : TcpSocket) : TcpSocket → List ℕ → Type 0 where
  begin : Receives host r r []
  reads :
      {t u : TcpSocket} {bytes more : List ℕ} (there : List ℕ)
      → Receives host r t bytes
      → take (free_of t.receiver_buffer) there ≢ []
      → try_read_data t (arrived there) ≡ some u
      → more ≡ bytes ++ take (free_of t.receiver_buffer) there
      → Receives host r u more
  cuts :
      {t u : TcpSocket} {bytes : List ℕ}
      → Receives host r t bytes
      → length (contents t.receiver_buffer) < t.receiver_buffer.capacity
      → process_buffered (length (contents t.receiver_buffer) + 1) host t ≡ some u
      → Receives host r u bytes
