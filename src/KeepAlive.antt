-- ===== src/KeepAlive.antt =====
-- A client of tcp_client_task.cpp and a task of tcp_server_task.cpp at the two ends of one connection: the
-- hellos of the client's `ScheduleEvent` and the time-out of the server's.
pub mod Hello
pub mod Chain
pub mod Timely
pub mod Calls
pub mod OnTime
mod Tests
use reechat_base.Base.{
  ℕ, ◌+◌, ◌≤◌, ◌≡◌, List, [], ◌∷◌, ◌++◌, Option, none, some, Bool, true, false, ltb, if◌then◌else◌,
}
use reechat_base.ClientTask.{
  ClientTask, Effect, send_hello, say_hello, timed_out, schedule_event as client_schedule,
  on_recv_hello_msg as client_hears,
}
use reechat_base.ServerTask.{
  ServerTask, schedule_event, on_recv_hello_msg, on_internal_packet, on_close_event,
  on_check_verified, stop_process_v2, init, begin_process,
}

unfoldable pub hellos : List Effect → ℕ
hellos [] = 0
hellos (send_hello ∷ es) = hellos es + 1
hellos (_ ∷ es) = hellos es

-- `now` is the time, `called` when the client's `ScheduleEvent` was last called, and `transit` when each hello that has
-- not arrived was sent.
pub record Pair : Type 0 where
  pub client : ClientTask
  pub server : ServerTask
  pub now : ℕ
  pub called : ℕ
  pub transit : List ℕ

-- The server's task has just been given the connection.
abbrev pub start : ClientTask → ℕ → Pair
start client now = record {
  client = client;
  server = (begin_process init true now).0;
  now = now;
  called = now;
  transit = [];
}

-- The hellos under way once the client has been called: one more, if it sent one.
abbrev pub under_way : Pair → List ℕ
under_way s =
    if ltb (hellos s.client.out) (hellos (client_schedule s.client s.now true).out)
    then s.transit ++ s.now ∷ []
    else s.transit

module _ (period delay : ℕ) where
  -- No hello is under way for longer than the delay.
  abbrev pub Within : ℕ → List ℕ → Type 0
  Within now [] = Unit {0}
  Within now (sent ∷ more) = (now ≤ sent + delay) × Within now more

  -- Time passes, but not beyond the next call of the client or the arrival of a hello; a hello that the client sends is
  -- on its way, and they arrive in order.
  pub data Step (s t : Pair) : Type 0 where
    passes :
        (later : ℕ)
        → s.now ≤ later
        → later ≤ s.called + period
        → Within later s.transit
        → t ≡ record s { now = later }
        → Step s t
    schedules :
        timed_out (say_hello s.client s.now true) s.now ≡ false
        → t ≡ record s {
          client = client_schedule s.client s.now true;
          called = s.now;
          transit = under_way s;
        }
        → Step s t
    hears : t ≡ record s { client = client_hears s.client s.now } → Step s t
    arrives :
        (sent : ℕ) (more : List ℕ)
        → s.transit ≡ sent ∷ more
        → t ≡ record s { server = on_recv_hello_msg s.server s.now; transit = more }
        → Step s t
    packet :
        (bytes : List ℕ) (accepted : Bool)
        → t ≡ record s { server = on_internal_packet s.server bytes accepted }
        → Step s t
    checks :
        (u : ServerTask)
        → on_check_verified s.server ≡ some u
        → t ≡ record s { server = u }
        → Step s t
    looks :
        (u : ServerTask)
        → schedule_event s.server s.now ≡ some u
        → t ≡ record s { server = u }
        → Step s t
    server_closed : t ≡ record s { server = on_close_event s.server } → Step s t
    server_stops :
        (notify_manager : Bool)
        → t ≡ record s { server = stop_process_v2 s.server notify_manager }
        → Step s t

  pub data Reach (s : Pair) : Pair → Type 0 where
    here : Reach s s
    next : {t u : Pair} → Reach s t → Step t u → Reach s u
