-- ===== src/TcpSocket/Lifetime/Tests.antt =====
-- Runs of the helper of tcp_socket_wrapper.cpp.
use reechat_base.Base.{◌≡◌, refl, [], ◌∷◌, ◌++◌, none, some, false, arith}
use reechat_base.Endian.{little}
use reechat_base.RingBuffer.{
  available_read, available_series_read, current_series_read_head, load, consume_series_read_len,
}
use reechat_base.TcpSocket.{TcpSocket, Event, closed, null, read_packet, on_write_event, event_add}
use reechat_base.TcpSocket.Sending.{busy, try_write_buffer}
use reechat_base.TcpSocket.Receiving.{
  process_buffered, process_round, read_head, take_packet, refuse_packet,
}
use reechat_base.TcpSocket.Connecting.{
  close_connection_in_network_loop, on_destroy_socket, helper_arg,
}
use reechat_base.TcpSocket.Lifetime.{on_write_of}
use reechat_base.TcpSocket.Lifetime.Quiet.{
  EventSteps, here, next, destroys, processes, close-EventSteps, try_write_buffer-closed,
}
use reechat_base.TcpSocket.Lifecycle.{fired}
use reechat_base.TcpSocket.Samples.{sock, ring}

-- A wrapper with one whole packet read, the first of two, and after it has been handed over.
abbrev one_read : TcpSocket
one_read = record sock { receiver_buffer = record ring { write_count = 18 } }

abbrev handed_over : TcpSocket
handed_over = record (close_connection_in_network_loop one_read) {
  share_this_helper = null;
  receiver_buffer = record ring { read_count = 18; write_count = 18 };
  out = (close_connection_in_network_loop one_read).out ++ read_packet (2 ∷ 0 ∷ 11 ∷ 12 ∷ []) ∷ [];
}

destroyed_run : EventSteps (close_connection_in_network_loop one_read) handed_over
unfolding on_destroy_socket close_connection_in_network_loop process_buffered process_round
    read_head take_packet refuse_packet available_read available_series_read
    current_series_read_head load consume_series_read_len
destroyed_run = next (next here (destroys refl)) (processes 8 little refl)

-- A connection whose write event was set for writing.
abbrev writing : Event
writing = record { handler = on_write_event; added = false }

abbrev writer : TcpSocket
writer = record sock { write_event = some writing }

sock_series : available_series_read writer.sender_buffer ≡ some 2
unfolding available_series_read
sock_series = refl

-- The theorems at these examples.
close-EventSteps_example :
    (handed_over.read_event.added ≡ false)
    × ((e : Event) → handed_over.write_event ≡ some e → e.added ≡ false)
    × (handed_over.state ≡ closed)
    × (handed_over.sender_buffer ≡ one_read.sender_buffer)
close-EventSteps_example = close-EventSteps one_read destroyed_run

try_write_buffer-closed_example :
    (t : TcpSocket) × (u : TcpSocket) × (try_write_buffer
        (close_connection_in_network_loop writer)
        []
        (busy ∷ [])
      ≡ some (t, []))
    × (on_destroy_socket t ≡ some u)
    × (u.write_event ≡ some (event_add writing))
    × ((event_add writing).handler ≡ on_write_event)
    × (on_write_of (helper_arg u) (fired u (event_add writing)) [] (busy ∷ []) ≡ none)
try_write_buffer-closed_example =
    try_write_buffer-closed writer writing 2 [] (busy ∷ []) refl refl refl sock_series
      (λ e. omega arith)
