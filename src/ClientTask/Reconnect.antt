-- ===== src/ClientTask/Reconnect.antt =====
-- How often the client connects: the events that the loops bring, in any order.
use reechat_base.Base.{ℕ, ◌+◌, ◌≡◌, List, Bool}
use reechat_base.ClientTask.{
  ClientTask, idle, waiting, init, set_max_reconnect_times, connect_to_server, begin_process,
  stop_process, on_internal_packet, on_connect_event, on_close_event, on_recv_hello_msg,
  schedule_event,
}

-- The task, and how often it has begun to connect since it was last connected.
pub record Run : Type 0 where
  pub task : ClientTask
  pub tries : ℕ

pub data Step (s t : Run) : Type 0 where
  fire :
      s.task.reconnect_timer ≡ waiting
      → t ≡ record {
        task = connect_to_server (record s.task { reconnect_timer = idle });
        tries = s.tries + 1;
      }
      → Step s t
  connected : (now : ℕ) → t ≡ record { task = on_connect_event s.task now; tries = 0 } → Step s t
  closed : t ≡ record s { task = on_close_event s.task } → Step s t
  packet :
      (bytes : List ℕ) (accepted : Bool)
      → t ≡ record s { task = on_internal_packet s.task bytes accepted }
      → Step s t
  hello : (now : ℕ) → t ≡ record s { task = on_recv_hello_msg s.task now } → Step s t
  schedule :
      (now : ℕ) (sent : Bool) → t ≡ record s { task = schedule_event s.task now sent } → Step s t
  stop : t ≡ record s { task = stop_process s.task } → Step s t

pub data Reach (s : Run) : Run → Type 0 where
  here : Reach s s
  next : {t u : Run} → Reach s t → Step t u → Reach s u

abbrev pub start : ℕ → Run
start limit = record { task = begin_process (set_max_reconnect_times init limit); tries = 1 }
