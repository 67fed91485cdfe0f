-- ===== src/ClientTask.antt =====
-- `TcpClientTask` of tcp_client_task.cpp. The wrapper it drives is seen by whether there is one and by
-- the calls made on it, which are kept in `out` with the calls of the virtual functions; what those
-- return, and the time, are arguments. Times are milliseconds and not negative.
pub mod Reconnect
pub mod Tries
pub mod Events
pub mod Connections
pub mod Stopped
mod Tests
use reechat_base.TcpSocket.{ConnState, closed}
use reechat_base.Base.{
  ℕ, ◌+◌, List, [], ◌∷◌, ◌++◌, Bool, true, false, ◌&&◌, ltb, leb, ◌==◌, if◌then◌else◌,
}

-- `reconnect_timer_`: null, not started, or added to the base; it fires once.
pub data Timer : Type 0 where
  absent idle waiting : Timer

pub data Effect : Type 0 where
  connect close_connection : Effect
  add_to_manager remove_from_manager : Effect
  connect_open connect_error : Effect
  send_verify send_hello : Effect
  parse : List ℕ → Effect

pub record ClientTask : Type 0 where
  pub has_socket : Bool
  pub reconnect_timer : Timer
  pub verified : Bool
  pub check_hello : Bool
  pub last_hello_time : ℕ
  pub last_schedule_time : ℕ
  -- 0 stands for every count that is not above 0.
  pub max_reconnect_times : ℕ
  pub connect_round : ℕ
  pub out : List Effect

abbrev pub init : ClientTask
init = record {
  has_socket = false;
  reconnect_timer = absent;
  verified = false;
  check_hello = true;
  last_hello_time = 0;
  last_schedule_time = 0;
  max_reconnect_times = 0;
  connect_round = 0;
  out = [];
}

abbrev pub emit : ClientTask → Effect → ClientTask
emit t e = record t { out = t.out ++ e ∷ [] }

abbrev pub set_max_reconnect_times : ClientTask → ℕ → ClientTask
set_max_reconnect_times t count = record t { max_reconnect_times = count }

abbrev pub set_check_hello : ClientTask → Bool → ClientTask
set_check_hello t enable = record t { check_hello = enable }

unfoldable pub connect_to_server : ClientTask → ClientTask
connect_to_server t = emit (record t { has_socket = true }) connect

unfoldable pub begin_process : ClientTask → ClientTask
unfolding connect_to_server
begin_process t = connect_to_server (record t { reconnect_timer = idle })

-- The socket, if there is one, is closed and given up.
abbrev pub drop_socket : ClientTask → ClientTask
drop_socket t = record t {
  has_socket = false;
  out = if t.has_socket then t.out ++ close_connection ∷ [] else t.out;
}

unfoldable pub stop_process : ClientTask → ClientTask
stop_process t = record (drop_socket (emit t remove_from_manager)) { reconnect_timer = absent }

-- `AsyncWait` of the timer, if there is one.
abbrev pub wait : Timer → Timer
wait absent = absent
wait idle = waiting
wait waiting = waiting

unfoldable pub try_reconnect_server_inner : ClientTask → ClientTask
unfolding stop_process
try_reconnect_server_inner t =
    let limited = ltb 0 t.max_reconnect_times in
    let next_round = if limited then t.connect_round + 1 else t.connect_round in
    if limited && leb t.max_reconnect_times next_round
    then stop_process (emit (record t { connect_round = next_round }) connect_error)
    else record (drop_socket t) {
      connect_round = next_round;
      reconnect_timer = wait t.reconnect_timer;
      last_hello_time = 0;
      verified = false;
    }

-- `accepted` is what `OnRecvVerifyMsg` returned.
unfoldable pub on_internal_packet : ClientTask → List ℕ → Bool → ClientTask
unfolding stop_process
on_internal_packet t bytes accepted =
    if t.verified
    then emit t (parse bytes)
    else if accepted
    then emit (record t { verified = true }) add_to_manager
    else stop_process t

unfoldable pub on_connect_event : ClientTask → ℕ → ClientTask
on_connect_event t now = record t {
  out = t.out ++ (connect_open ∷ send_verify ∷ []);
  last_hello_time = now;
  connect_round = 0;
}

unfoldable pub on_close_event : ClientTask → ClientTask
unfolding try_reconnect_server_inner
on_close_event t = try_reconnect_server_inner t

unfoldable pub on_recv_hello_msg : ClientTask → ℕ → ClientTask
on_recv_hello_msg t now = record t { last_hello_time = now }

-- The hello of `ScheduleEvent`; `sent` is what `OnSendHelloMsg` returned.
abbrev pub say_hello : ClientTask → ℕ → Bool → ClientTask
say_hello t current_time sent =
    if t.last_schedule_time == 0
    then record t {
      out = t.out ++ send_hello ∷ [];
      last_schedule_time = if sent then current_time else 0;
    }
    else if leb (t.last_schedule_time + 10000) current_time
    then record t { out = t.out ++ send_hello ∷ []; last_schedule_time = current_time }
    else t

-- No hello from the server for more than 30 seconds.
abbrev pub timed_out : ClientTask → ℕ → Bool
timed_out t current_time =
    t.check_hello && ltb 0 t.last_hello_time && ltb (t.last_hello_time + 30000) current_time

unfoldable pub schedule_event : ClientTask → ℕ → Bool → ClientTask
unfolding try_reconnect_server_inner
schedule_event t current_time sent =
    let u = say_hello t current_time sent in
    if timed_out u current_time then try_reconnect_server_inner u else u

-- `is_connected` is whether the wrapper's state is CS_CONNECTED, `sent` what its `SendData` returned.
unfoldable pub send_data : ClientTask → Bool → Bool → Bool
send_data t is_connected sent = t.has_socket && is_connected && sent

-- The destructor deletes the timer and leaves the wrapper open.
unfoldable pub destroy : ClientTask → ClientTask
destroy t = record t { reconnect_timer = absent; has_socket = false }

-- `GetState` and `GetRemoteAddress`; the last argument is what the wrapper's return.
unfoldable pub get_state : ClientTask → ConnState → ConnState
get_state t state = if t.has_socket then state else closed

unfoldable pub get_remote_address : ClientTask → List ℕ → List ℕ
get_remote_address t address = if t.has_socket then address else []
