-- ===== src/ClientTask/Tests.antt =====
-- A client that may connect twice, and has once been closed and once begun to connect again.
use reechat_base.Base.{◌≤◌, ◌+◌, ◌≡◌, refl, [], ◌∷◌, false, arith}
use reechat_base.ClientTask.{
  idle, waiting, connect, close_connection, init, set_max_reconnect_times, connect_to_server,
  begin_process, on_close_event, on_recv_hello_msg, stop_process, absent,
}
use reechat_base.ClientTask.Reconnect.{Run, fire, closed, hello, Reach, here, next, start}
use reechat_base.ClientTask.Connections.{held, Reach-closes}
use reechat_base.ClientTask.Tries.{Reach-tries}
use reechat_base.ClientTask.Events.{connects, closes}
use reechat_base.ClientTask.Stopped.{Reach-stop_process}

abbrev after_close : Run
after_close = record (start 2) {
  task = record (begin_process (set_max_reconnect_times init 2)) {
    has_socket = false;
    reconnect_timer = waiting;
    connect_round = 1;
    out = connect ∷ close_connection ∷ [];
  };
}

abbrev after_fire : Run
after_fire = record {
  task = connect_to_server (record after_close.task { reconnect_timer = idle });
  tries = 2;
}

fire_run : Reach (start 2) after_fire
unfolding begin_process connect_to_server on_close_event
fire_run = next (next here (closed refl)) (fire refl refl)

-- What is left of that client when it is stopped and a hello still arrives.
abbrev late : Run
late = record after_fire { task = record (stop_process after_fire.task) { last_hello_time = 900 } }

late_run : Reach (record after_fire { task = stop_process after_fire.task }) late
unfolding stop_process connect_to_server on_recv_hello_msg
late_run = next here (hello 900 refl)

-- The theorems at these examples.
Reach-tries_example : after_fire.tries ≤ 2
Reach-tries_example = Reach-tries 2 (omega arith) fire_run

Reach-closes_example :
    (closes after_fire.task.out + held after_fire.task.has_socket ≡ connects after_fire.task.out)
    × (after_fire.task.reconnect_timer ≡ waiting → after_fire.task.has_socket ≡ false)
Reach-closes_example = Reach-closes 2 fire_run

Reach-stop_process_example :
    (late.task.reconnect_timer ≡ absent)
    × (late.task.has_socket ≡ false)
    × (connects late.task.out ≡ connects (stop_process after_fire.task).out)
Reach-stop_process_example = Reach-stop_process after_fire late_run
