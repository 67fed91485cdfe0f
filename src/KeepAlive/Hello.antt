-- ===== src/KeepAlive/Hello.antt =====
-- Which functions of tcp_client_task.cpp and tcp_server_task.cpp say and note a hello.
use reechat_base.Base.{
  ℕ, ◌+◌, ◌≤◌, ◌<◌, ◌≡◌, ◌⊎◌, refl, List, [], ◌∷◌, ◌++◌, some, Bool, true, false, arith,
}
use reechat_base.ClientTask.{
  ClientTask, Effect, connect, close_connection, add_to_manager, remove_from_manager, connect_open,
  connect_error, send_verify, send_hello, parse, say_hello, timed_out,
  schedule_event as client_schedule,
}
use reechat_base.ServerTask.{
  ServerTask, schedule_event, on_internal_packet, on_check_verified, stop_process_v2, start_close,
}
use reechat_base.KeepAlive.{hellos}

hellos-append : (xs ys : List Effect) → hellos (xs ++ ys) ≡ hellos xs + hellos ys
unfolding hellos
hellos-append [] ys = omega arith
hellos-append (send_hello ∷ xs) ys = omega (arith, hellos-append xs ys)
hellos-append (connect ∷ xs) ys = hellos-append xs ys
hellos-append (close_connection ∷ xs) ys = hellos-append xs ys
hellos-append (add_to_manager ∷ xs) ys = hellos-append xs ys
hellos-append (remove_from_manager ∷ xs) ys = hellos-append xs ys
hellos-append (connect_open ∷ xs) ys = hellos-append xs ys
hellos-append (connect_error ∷ xs) ys = hellos-append xs ys
hellos-append (send_verify ∷ xs) ys = hellos-append xs ys
hellos-append (parse b ∷ xs) ys = hellos-append xs ys

-- A call of the client's `ScheduleEvent` says hello, or the last hello is not 10 seconds old.
pub client_schedule-hellos :
    (c : ClientTask) (now : ℕ)
    → timed_out (say_hello c now true) now ≡ false
    → ((hellos (client_schedule c now true).out ≡ hellos c.out + 1)
        × ((client_schedule c now true).last_schedule_time ≡ now)
        × ((c.last_schedule_time ≡ 0) ⊎ (c.last_schedule_time + 10000 ≤ now)))
      ⊎ ((client_schedule c now true ≡ c)
          × (0 < c.last_schedule_time)
          × (now < c.last_schedule_time + 10000))
unfolding client_schedule hellos
client_schedule-hellos c now quiet =
    let more = hellos-append c.out (send_hello ∷ []) in ground (arith, quiet, more)

-- Of the server's functions only `OnRecvHelloMsg` sets the time of the last hello.
pub on_internal_packet-last_hello_time :
    (s : ServerTask) (bytes : List ℕ) (accepted : Bool)
    → (on_internal_packet s bytes accepted).last_hello_time ≡ s.last_hello_time
unfolding on_internal_packet
on_internal_packet-last_hello_time s bytes accepted = ground arith

start_close-last_hello_time :
    (s u : ServerTask) → start_close s ≡ some u → u.last_hello_time ≡ s.last_hello_time
start_close-last_hello_time s u e = ground (arith, e)

pub on_check_verified-last_hello_time :
    (s u : ServerTask) → on_check_verified s ≡ some u → u.last_hello_time ≡ s.last_hello_time
unfolding on_check_verified
on_check_verified-last_hello_time s u e = ground (arith, e)

pub schedule_event-last_hello_time :
    (s u : ServerTask) (now : ℕ)
    → schedule_event s now ≡ some u
    → u.last_hello_time ≡ s.last_hello_time
unfolding schedule_event
schedule_event-last_hello_time s u now e = ground (arith, e)

pub stop_process_v2-last_hello_time :
    (s : ServerTask) (b : Bool) → (stop_process_v2 s b).last_hello_time ≡ s.last_hello_time
unfolding stop_process_v2
stop_process_v2-last_hello_time s true = refl
stop_process_v2-last_hello_time s false = refl

pub schedule_event-in_time :
    (s : ServerTask) (now : ℕ) → now ≤ s.last_hello_time + 30000 → schedule_event s now ≡ some s
unfolding schedule_event
schedule_event-in_time s now le = ground (arith, le)
