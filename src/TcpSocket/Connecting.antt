-- ===== src/TcpSocket/Connecting.antt =====
-- How a `TcpSocketWrapper` begins to listen, connects, is accepted and is closed, and the functions
-- that its events call. The part under `__APPLE__` is left out, and so are addresses.
use reechat_base.Base.{ℕ, List, Option, none, some, Bool, true, false, not, if◌then◌else◌, ◌>>=◌}
use reechat_base.TcpSocket.{
  TcpSocket, closed, connecting, connected, Event, on_new_connection, on_connection, on_read_event,
  on_write_event, connect_server, begin_process, close_connection, destroy_socket, signal_connected,
  run_in_network, run_in_worker, new_connection, event_set, event_add, event_del, emit,
  on_error_event, init, unset, live, null,
}

-- What the calls of `BeginListen` returned: `socket` a descriptor or -1, the others 0 or -1.
pub record ListenReturns : Type 0 where
  pub socket : Option ℕ
  pub nonblocking : Bool
  pub reuse : Bool
  pub bind : Bool
  pub listen : Bool

-- The listener once everything has succeeded.
abbrev pub listener : TcpSocket → ℕ → TcpSocket
listener s port = record s {
  listening = true;
  listen_port = port;
  share_this_helper = live;
  read_event = event_add (event_set s.read_event on_new_connection);
  write_event = none;
}

unfoldable pub begin_listen : TcpSocket → ListenReturns → ℕ → TcpSocket × Bool
begin_listen s calls port = elim calls.socket [
  | none ↦ (record s { socketfd = none }, false)
  | some fd ↦
      let t : TcpSocket = record s { socketfd = some fd } in
      if not calls.nonblocking
      then (t, false)
      else if not calls.reuse
      then (t, false)
      else if not calls.bind
      then (t, false)
      else if not calls.listen
      then (t, false)
      else (listener t port, true)
]

unfoldable pub begin_connect : TcpSocket → TcpSocket × Bool
begin_connect s =
    (emit (record s { share_this_helper = live }) (run_in_network connect_server), true)

-- `connect` returned 0, -1 with EINPROGRESS or EINTR, or -1 with another error.
pub data ConnectReturn : Type 0 where
  at_once in_progress refused : ConnectReturn

-- Both events set, neither added.
abbrev pub prepared : TcpSocket → ℕ → Event → TcpSocket
prepared s fd write_event = record s {
  socketfd = some fd;
  write_event = some (event_set write_event on_connection);
  read_event = event_set s.read_event on_read_event;
}

unfoldable pub after_connect : TcpSocket → ConnectReturn → Option TcpSocket
after_connect s at_once = some s
after_connect s in_progress = some s
after_connect s refused = on_error_event s

-- `event_set` and `event_add` of a null event are faults.
unfoldable pub connect_server_in_network_loop :
    TcpSocket → Option ℕ → ConnectReturn → Option TcpSocket
unfolding after_connect
connect_server_in_network_loop s none ret = on_error_event (record s { socketfd = none })
connect_server_in_network_loop s (some fd) ret = do
  write_event ← s.write_event
  t ← after_connect (prepared s fd write_event) ret
  again ← t.write_event
  some (record t { state = connecting; write_event = some (event_add again) })

unfoldable pub begin_process_of : TcpSocket → ℕ → TcpSocket
begin_process_of s client_fd = emit s (run_in_network (begin_process client_fd))

-- `nonblocking` is what `evutil_make_socket_nonblocking` came to.
unfoldable pub begin_process_in_network_loop : TcpSocket → ℕ → Bool → Option TcpSocket
begin_process_in_network_loop s client_fd nonblocking =
    if not nonblocking then on_error_event (record s { socketfd = some client_fd }) else (do
      write_event ← s.write_event
      some (record s {
        socketfd = some client_fd;
        state = connected;
        share_this_helper = live;
        read_event = event_add (event_set s.read_event on_read_event);
        write_event = some (event_set write_event on_write_event);
      }))

-- The wrapper that `AcceptConnection` makes, if `accept` returned a descriptor.
unfoldable pub accept_connection : Option ℕ → List ℕ → List ℕ → Option TcpSocket
unfolding begin_process_of
accept_connection none sender receiver = none
accept_connection (some client_fd) sender receiver =
    some (begin_process_of (init sender receiver) client_fd)

unfoldable pub close_connection_of : TcpSocket → TcpSocket
close_connection_of s = emit s (run_in_network close_connection)

abbrev deleted : Option Event → Option Event
deleted none = none
deleted (some e) = some (event_del e)

unfoldable pub close_connection_in_network_loop : TcpSocket → TcpSocket
close_connection_in_network_loop s =
    emit
      (record s {
        state = closed;
        read_event = event_del s.read_event;
        write_event = deleted s.write_event;
      })
      (run_in_worker destroy_socket)

unfoldable pub client_connected : TcpSocket → Option TcpSocket
client_connected s = do
  write_event ← s.write_event
  let t : TcpSocket = record s {
    read_event = event_add s.read_event;
    write_event = some (event_set write_event on_write_event);
    state = connected;
  }
  some (if s.has_on_connected then emit t (run_in_worker signal_connected) else t)

-- Why `OnConnection` is called.
pub data What : Type 0 where
  writable timed_out other : What

-- The argument that an event hands to its function: null, the helper, or an address where there is none.
pub data HelperArg : Type 0 where
  null_arg live_arg stray_arg : HelperArg

-- The argument of an event of the wrapper: the address that the helper had when the event was set.
unfoldable pub helper_arg : TcpSocket → HelperArg
helper_arg s = elim s.share_this_helper [ unset ↦ stray_arg | live ↦ live_arg | null ↦ stray_arg ]

-- `OnConnection`; `err` is whether SO_ERROR was set, and `none` also a use of a helper that is not there. The
-- helper's `socket_wrapper` is never null.
unfoldable pub on_connection_event : HelperArg → TcpSocket → What → Bool → Option TcpSocket
unfolding client_connected
on_connection_event null_arg s what err = some s
on_connection_event live_arg s writable err = if err then on_error_event s else client_connected s
on_connection_event live_arg s timed_out err = on_error_event s
on_connection_event live_arg s other err = some s
on_connection_event stray_arg s what err = none

unfoldable pub on_new_connection_event : HelperArg → TcpSocket → Option TcpSocket
on_new_connection_event null_arg s = some s
on_new_connection_event live_arg s =
    some (if s.has_new_connection then emit s new_connection else s)
on_new_connection_event stray_arg s = none

-- `SAFE_DELETE` deletes a pointer that is not null, also one that was never set.
unfoldable pub on_destroy_socket : TcpSocket → Option TcpSocket
on_destroy_socket s = elim s.share_this_helper [
  | unset ↦ none
  | live ↦ some (record s { share_this_helper = null })
  | null ↦ some s
]
