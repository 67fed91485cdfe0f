-- ===== src/TcpSocket/Tests.antt =====
-- Runs of the wrapper on these samples.
use reechat_base.Base.{
  ℕ, ◌+◌, ◌≡◌, ◌≢◌, ◌⊎◌, ◌&&◌, refl, List, [], ◌∷◌, ◌++◌, some, Bool, true, length, take, leb,
  if◌then◌else◌, arith,
}
use reechat_base.Endian.{little}
use reechat_base.Frames.{Verdict}
use reechat_base.RingBuffer.{RingBuffer}
use reechat_base.RingBuffer.Geometry.{IsValid}
use reechat_base.RingBuffer.Contents.{contents}
use reechat_base.TcpSocket.{
  TcpSocket, connecting, connected, Event, cleared, run_in_worker, signal_close,
}
use reechat_base.TcpSocket.Sending.{send_data, try_write_buffer}
use reechat_base.TcpSocket.Send.{framed, accepted, send_data_lem}
use reechat_base.TcpSocket.Receiving.{arrived, would_block, try_read_data, process_buffered}
use reechat_base.TcpSocket.Process.{process_buffered_refines}
use reechat_base.TcpSocket.Rounds.{Processed}
use reechat_base.TcpSocket.Write.{errored, Ended, Cause, try_write_buffer_lem}
use reechat_base.TcpSocket.Read.{filled, free_of, try_read_data-arrived, try_read_data-full}
use reechat_base.TcpSocket.Connecting.{
  refused, connect_server_in_network_loop, on_connection_event, writable, helper_arg,
}
use reechat_base.TcpSocket.Lifecycle.{Wired, fired}
use reechat_base.TcpSocket.Lifecycle.Reached.{Reach-Wired, connect-refused_twice}
use reechat_base.TcpSocket.Samples.{
  ring-IsValid, full-IsValid, sock, clogged, accepted_socket, accepted_run, cleared_handler,
  closed_state, calls, caller_buffer, some_read,
}

-- The theorems at these examples.
process_buffered_refines_example :
    (s' : TcpSocket) × (packets : List (List ℕ)) × (verdict : Verdict) × (process_buffered 8 little
        sock
      ≡ some s')
    × Processed little sock s' packets verdict
process_buffered_refines_example =
    process_buffered_refines 8 little sock cleared ring-IsValid (omega arith) refl (omega arith)

try_write_buffer_lem_example :
    (s' : TcpSocket) × (wire' : List ℕ) × (sender : RingBuffer) × (try_write_buffer sock [] calls
      ≡ some (s', wire'))
    × (wire' ++ contents sender ≡ [] ++ contents sock.sender_buffer)
    × Ended sock cleared sender s'
    × IsValid sender
    × (sender.capacity ≡ sock.sender_buffer.capacity)
    × Cause cleared sender s' calls
try_write_buffer_lem_example = try_write_buffer_lem sock [] calls cleared ring-IsValid refl

send_data_lem_example :
    (sender : RingBuffer) × (done : Bool) × (send_data little sock caller_buffer 5
      ≡ some (if done then accepted sock sender else sock, done))
    × (done ≡ (
        leb 5 65537
        && leb (length (contents sock.sender_buffer) + (5 + 2)) sock.sender_buffer.capacity))
    × (contents sender ≡ (
        if done
        then contents sock.sender_buffer ++ framed little caller_buffer 5
        else contents sock.sender_buffer))
    × IsValid sender
    × (sender.capacity ≡ sock.sender_buffer.capacity)
send_data_lem_example =
    send_data_lem little sock caller_buffer 5 ring-IsValid (omega arith) (omega arith)

Reach-Wired_example :
    (e : Event) × (accepted_socket.write_event ≡ some e)
    × ((accepted_socket.state ≢ connected) ⊎ Wired accepted_socket e)
    × IsValid accepted_socket.sender_buffer
    × IsValid accepted_socket.receiver_buffer
Reach-Wired_example =
    Reach-Wired cleared refl cleared_handler closed_state ring-IsValid ring-IsValid accepted_run

try_read_data-arrived_example :
    (receiver : RingBuffer) × (try_read_data sock (arrived caller_buffer)
      ≡ some (filled sock receiver))
    × (contents receiver
        ≡ contents sock.receiver_buffer ++ take (free_of sock.receiver_buffer) caller_buffer)
    × IsValid receiver
    × (receiver.capacity ≡ sock.receiver_buffer.capacity)
try_read_data-arrived_example =
    try_read_data-arrived sock cleared ring-IsValid refl caller_buffer some_read

try_read_data-full_example : try_read_data clogged would_block ≡ some (errored clogged cleared)
try_read_data-full_example = try_read_data-full clogged cleared full-IsValid refl would_block refl

connect-refused_twice_example :
    (t : TcpSocket) × (e : Event) × (u : TcpSocket) × (connect_server_in_network_loop sock
        (some 6)
        refused
      ≡ some t)
    × (t.state ≡ connecting)
    × (t.write_event ≡ some e)
    × (e.added ≡ true)
    × (t.out ≡ sock.out ++ run_in_worker signal_close ∷ [])
    × (on_connection_event (helper_arg t) (fired t e) writable true ≡ some u)
    × (u.out ≡ sock.out ++ (run_in_worker signal_close ∷ run_in_worker signal_close ∷ []))
connect-refused_twice_example = connect-refused_twice sock cleared 6 refl refl refl
