-- ===== src/ServerTask.antt =====
-- `TcpServerTask` of tcp_server_task.cpp. The wrapper of the connection is seen by whether there is one
-- and by the calls made on it, which are kept in `out` with the calls of the virtual functions; what
-- those return, and the time, are arguments. Times are milliseconds and not negative; `none` is a null
-- pointer followed.
pub mod Verified
pub mod Closing
mod Tests
use reechat_base.Base.{
  ℕ, ◌+◌, List, [], ◌∷◌, ◌++◌, Option, none, some, Bool, true, false, not, ◌&&◌, ltb, ◌==◌,
  if◌then◌else◌,
}

-- A `std::unique_ptr` to a timer: null, not started, or added to the base.
pub data Timer : Type 0 where
  absent idle waiting : Timer

pub data Effect : Type 0 where
  add_to_manager remove_from_manager : Effect
  close_connection : Effect
  parse : List ℕ → Effect

pub record ServerTask : Type 0 where
  pub has_socket : Bool
  pub verified_client : Bool
  pub close_timer : Timer
  pub verify_timer : Timer
  pub last_hello_time : ℕ
  pub out : List Effect

abbrev pub init : ServerTask
init = record {
  has_socket = false;
  verified_client = false;
  close_timer = absent;
  verify_timer = absent;
  last_hello_time = 0;
  out = [];
}

abbrev pub emit : ServerTask → Effect → ServerTask
emit t e = record t { out = t.out ++ e ∷ [] }

-- `AsyncWait` through the pointer.
abbrev pub async_wait : Timer → Option Timer
async_wait absent = none
async_wait idle = some waiting
async_wait waiting = some waiting

-- `has_wrapper` is whether the argument is not null.
unfoldable pub begin_process : ServerTask → Bool → ℕ → ServerTask × Bool
begin_process t has_wrapper now = if not has_wrapper then (t, false) else (
  record t { has_socket = true; close_timer = idle; verify_timer = waiting; last_hello_time = now },
  true,
)

-- The connection closed and both timers deleted.
abbrev pub release : ServerTask → ServerTask
release t = record t {
  has_socket = false;
  close_timer = absent;
  verify_timer = absent;
  out = if t.has_socket then t.out ++ close_connection ∷ [] else t.out;
}

unfoldable pub stop_process : ServerTask → ServerTask
stop_process t = release (emit t remove_from_manager)

unfoldable pub stop_process_v2 : ServerTask → Bool → ServerTask
stop_process_v2 t notify_manager =
    release (if notify_manager then emit t remove_from_manager else t)

-- `is_connected` is whether the wrapper's state is CS_CONNECTED, `sent` what its `SendData` returned.
unfoldable pub send_data : ServerTask → Bool → Bool → Bool
send_data t is_connected sent = t.has_socket && is_connected && sent

-- The close timer, started.
abbrev pub start_close : ServerTask → Option ServerTask
start_close t = elim (async_wait t.close_timer) [
  | none ↦ none
  | some timer ↦ some (record t { close_timer = timer })
]

unfoldable pub schedule_event : ServerTask → ℕ → Option ServerTask
schedule_event t current_time =
    if t.last_hello_time == 0
    then some t
    else if t.verified_client && ltb (t.last_hello_time + 30000) current_time
    then start_close t
    else some t

unfoldable pub on_recv_hello_msg : ServerTask → ℕ → ServerTask
on_recv_hello_msg t now = record t { last_hello_time = now }

-- `accepted` is what `OnRecvVerifyMsg` returned.
unfoldable pub on_internal_packet : ServerTask → List ℕ → Bool → ServerTask
on_internal_packet t bytes accepted =
    if not t.verified_client
    then (if accepted then emit (record t { verified_client = true }) add_to_manager else t)
    else emit t (parse bytes)

unfoldable pub on_close_event : ServerTask → ServerTask
unfolding stop_process
on_close_event t = stop_process t

unfoldable pub on_check_verified : ServerTask → Option ServerTask
on_check_verified t = if not t.verified_client then start_close t else some t

-- The destructor closes the connection, if it still holds one, and deletes both timers.
unfoldable pub destroy : ServerTask → ServerTask
destroy t = release t

-- `GetRemoteAddress`; `address` is what the wrapper's returns.
unfoldable pub get_remote_address : ServerTask → List ℕ → List ℕ
get_remote_address t address = if t.has_socket then address else []
