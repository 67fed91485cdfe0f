-- ===== src/TcpSocket.antt =====
-- `TcpSocketWrapper` of tcp_socket_wrapper.cpp and tcp_socket_wrapper.hpp. What the object hands
-- to its two event loops and to the user's callbacks is kept in `out`, in order; what the system
-- calls return is an argument. `none` is a failed `assert` or an access outside an array.
pub mod Sending
pub mod Receiving
pub mod Packets
pub mod Rounds
pub mod Process
pub mod Send
pub mod Write
pub mod Flush
pub mod Read
pub mod Delivery
pub mod Connecting
pub mod Lifecycle
pub mod Untouched
pub mod Lifetime
pub mod Stream
mod Samples
mod Tests
use reechat_base.Base.{
  ℕ, zero, suc, ◌+◌, ◌^◌, List, [], ◌∷◌, ◌++◌, Option, none, some, Bool, true, false, not, ltb, leb,
  ◌==◌, if◌then◌else◌, ◌>>=◌, ◌>>◌, require, add32, sub32, u16, u32, u64, add64, sub64, memcpy,
  length, take, drop,
}
use reechat_base.Endian.{Host, memory, of_memory}
use reechat_base.RingBuffer
use reechat_base.RingBuffer.{RingBuffer}

-- `rtc::Socket::ConnState`
pub data ConnState : Type 0 where
  closed connecting connected : ConnState

-- The function that a libevent event calls.
pub data Handler : Type 0 where
  no_handler on_new_connection on_connection on_read_event on_write_event : Handler

-- A `struct event`: its function, and whether it is added to the event base.
pub record Event : Type 0 where
  pub handler : Handler
  pub added : Bool

-- The functors that the object binds.
pub data Task : Type 0 where
  connect_server try_write close_connection try_process destroy_socket : Task
  begin_process : ℕ → Task
  signal_connected signal_close : Task

pub data Effect : Type 0 where
  run_in_network : Task → Effect
  run_in_worker : Task → Effect
  queue_in_worker : Task → Effect
  read_packet : List ℕ → Effect
  new_connection : Effect
  close_event : Effect

-- The pointer `share_this_helper_`: as the constructor leaves it, to a helper, or null after `SAFE_DELETE`.
pub data Helper : Type 0 where
  unset live null : Helper

pub record TcpSocket : Type 0 where
  pub socketfd : Option ℕ
  pub listening : Bool
  pub state : ConnState
  pub listen_port : ℕ
  pub read_event : Event
  -- `BeginListen` deletes it.
  pub write_event : Option Event
  pub sender_buffer : RingBuffer
  pub receiver_buffer : RingBuffer
  pub share_this_helper : Helper
  -- Which of the callbacks are set.
  pub has_on_connected : Bool
  pub has_read_packet : Bool
  pub has_new_connection : Bool
  pub has_on_close : Bool
  pub out : List Effect

-- `16 * 1024 * 1024`
abbrev pub max_buffer_size : ℕ
max_buffer_size = 2 ^ 24

abbrev pub cleared : Event
cleared = record { handler = no_handler; added = false }

-- The constructor; `sender` and `receiver` are what `new char[]` returned.
pub init : List ℕ → List ℕ → TcpSocket
init sender receiver = record {
  socketfd = none;
  listening = false;
  state = closed;
  listen_port = 0;
  read_event = cleared;
  write_event = some cleared;
  sender_buffer = RingBuffer.init max_buffer_size sender;
  receiver_buffer = RingBuffer.init max_buffer_size receiver;
  share_this_helper = unset;
  has_on_connected = false;
  has_read_packet = false;
  has_new_connection = false;
  has_on_close = false;
  out = [];
}

-- `event_set` and `event_base_set`, `event_add`, `event_del`.
abbrev pub event_set : Event → Handler → Event
event_set e h = record { handler = h; added = false }

abbrev pub event_add : Event → Event
event_add e = record e { added = true }

abbrev pub event_del : Event → Event
event_del e = record e { added = false }

abbrev pub emit : TcpSocket → Effect → TcpSocket
emit s e = record s { out = s.out ++ e ∷ [] }

-- `event_del` of the null pointer that `BeginListen` leaves is a fault.
unfoldable pub on_error_event : TcpSocket → Option TcpSocket
on_error_event s = do
  write_event ← s.write_event
  let t : TcpSocket = record s {
    read_event = event_del s.read_event;
    write_event = some (event_del write_event);
    state = closed;
  }
  some (if s.has_on_close then emit t (run_in_worker signal_close) else t)
