-- ===== src/TcpSocket/Lifetime.antt =====
-- The static functions through which the read and write events of a `TcpSocketWrapper` reach it, and its destructor
-- (tcp_socket_wrapper.cpp). `none` is also a use of a helper that is not there.
pub mod Quiet
mod Tests
use reechat_base.Base.{ℕ, List, Option, none, some, Bool, true, false, ltb, if◌then◌else◌}
use reechat_base.EventWatcher.Pipe.{Descriptors, closed}
use reechat_base.TcpSocket.{TcpSocket, ConnState, event_del}
use reechat_base.TcpSocket.Sending.{Outgoing, try_write_buffer}
use reechat_base.TcpSocket.Receiving.{Incoming, on_read}
use reechat_base.TcpSocket.Connecting.{HelperArg, null_arg, live_arg, stray_arg}

-- The static `OnReadEvent`. The helper's `socket_wrapper` is never null.
unfoldable pub on_read_of : HelperArg → TcpSocket → Incoming → Option TcpSocket
unfolding on_read
on_read_of null_arg s incoming = some s
on_read_of live_arg s incoming = on_read s incoming
on_read_of stray_arg s incoming = none

-- The member `OnWriteEvent`, and the static one.
unfoldable pub on_write : TcpSocket → List ℕ → List Outgoing → Option (TcpSocket × List ℕ)
unfolding try_write_buffer
on_write s wire calls = try_write_buffer s wire calls

unfoldable pub on_write_of :
    HelperArg → TcpSocket → List ℕ → List Outgoing → Option (TcpSocket × List ℕ)
unfolding on_write
on_write_of null_arg s wire calls = some (s, wire)
on_write_of live_arg s wire calls = on_write s wire calls
on_write_of stray_arg s wire calls = none

abbrev pub get_state : TcpSocket → ConnState
get_state s = s.state

-- `EVUTIL_CLOSESOCKET` of a descriptor above 0.
abbrev pub close_socket : Option ℕ → Descriptors → Descriptors
close_socket none open_ = open_
close_socket (some fd) open_ = if ltb 0 fd then closed fd open_ else open_

-- `~TcpSocketWrapper`
unfoldable pub destruct : TcpSocket → Descriptors → TcpSocket × Descriptors
destruct s open_ = (
  record s { read_event = event_del s.read_event; write_event = none },
  close_socket s.socketfd open_,
)
