-- ===== src/KeepAlive/Tests.antt =====
-- A client that is called a second after the connection began, and whose hello arrives two seconds later.
use reechat_base.Base.{◌≡◌, refl, [], ◌∷◌, some, arith}
use reechat_base.ClientTask.{send_hello, init, schedule_event as client_schedule}
use reechat_base.ServerTask.{begin_process, schedule_event, on_recv_hello_msg}
use reechat_base.KeepAlive.{Pair, start, hellos, passes, schedules, arrives, Reach, here, next}
use reechat_base.KeepAlive.OnTime.{Reach-schedule_event}

abbrev greeted : Pair
greeted = record (start init 5000) {
  client = record init { last_schedule_time = 6000; out = send_hello ∷ [] };
  server = record (start init 5000).server { last_hello_time = 8000 };
  now = 8000;
  called = 6000;
}

greeted_run : Reach 5000 15000 (start init 5000) greeted
unfolding begin_process client_schedule hellos on_recv_hello_msg
greeted_run =
    next
      (next
        (next (next here (passes 6000 (omega arith) (omega arith) tt refl)) (schedules refl refl))
        (passes 8000 (omega arith) (omega arith) (omega arith, tt) refl))
      (arrives 6000 [] refl refl)

-- The theorems at these examples.
Reach-schedule_event_example : schedule_event greeted.server greeted.now ≡ some greeted.server
Reach-schedule_event_example =
    Reach-schedule_event 5000 15000 init 5000 (omega arith) (omega arith) (omega arith) greeted_run
