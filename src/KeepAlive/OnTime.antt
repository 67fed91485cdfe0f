-- ===== src/KeepAlive/OnTime.antt =====
-- That hellos come in time for the server's `ScheduleEvent` (tcp_server_task.cpp).
use reechat_base.Base.{ℕ, ◌+◌, ◌≤◌, ◌<◌, ◌≡◌, refl, sym, subst, some, arith}
use reechat_base.ClientTask.{ClientTask}
use reechat_base.ServerTask.{schedule_event, on_close_event, stop_process}
use reechat_base.KeepAlive.{
  Pair, Step, passes, schedules, hears, arrives, packet, checks, looks, server_closed, server_stops,
  Reach, here, next, start,
}
use reechat_base.KeepAlive.Hello.{
  on_internal_packet-last_hello_time, on_check_verified-last_hello_time,
  schedule_event-last_hello_time, stop_process_v2-last_hello_time, schedule_event-in_time,
}
use reechat_base.KeepAlive.Timely.{
  Timely, Timely-bound, Timely-server, Timely-passes, Timely-hears, Timely-arrives, Timely-start,
}
use reechat_base.KeepAlive.Calls.{Timely-schedules}

module _ (period delay : ℕ) where
  Timely-Step : {s t : Pair} → Timely period delay s → Step period delay s t → Timely period delay t
  unfolding on_close_event stop_process
  Timely-Step i (passes later le called w e) =
      subst (Timely period delay) (sym e) (Timely-passes period delay later i le called w)
  Timely-Step i (schedules quiet e) =
      subst (Timely period delay) (sym e) (Timely-schedules period delay i quiet)
  Timely-Step i (hears e) = subst (Timely period delay) (sym e) (Timely-hears period delay i)
  Timely-Step i (arrives sent more q e) =
      subst (Timely period delay) (sym e) (Timely-arrives period delay sent more i q)
  Timely-Step {s} i (packet bytes accepted e) =
      subst (Timely period delay) (sym e) (
        Timely-server period delay _ i (on_internal_packet-last_hello_time s.server bytes accepted))
  Timely-Step {s} i (checks u h e) =
      subst (Timely period delay) (sym e)
        (Timely-server period delay u i (on_check_verified-last_hello_time s.server u h))
  Timely-Step {s} i (looks u h e) =
      subst (Timely period delay) (sym e)
        (Timely-server period delay u i (schedule_event-last_hello_time s.server u s.now h))
  Timely-Step i (server_closed e) =
      subst (Timely period delay) (sym e) (Timely-server period delay _ i refl)
  Timely-Step {s} i (server_stops b e) =
      subst (Timely period delay) (sym e)
        (Timely-server period delay _ i (stop_process_v2-last_hello_time s.server b))

  Timely-Reach :
      {s t : Pair} → Timely period delay s → Reach period delay s t → Timely period delay t
  Timely-Reach i here = i
  Timely-Reach i (next r step) = Timely-Step (Timely-Reach i r) step

-- From when a server's task begins to serve (`BeginProcess`), its `ScheduleEvent` never starts the close timer, whatever happens
-- in whatever order, as long as the client's `ScheduleEvent` is called at least every `period`, a hello arrives
-- within `delay`, these two are together at most 20 seconds, every hello is sent, and the client does not time
-- out itself. The client may be new or have said its last hello on an earlier connection.
pub Reach-schedule_event :
    (period delay : ℕ) (client : ClientTask) (now : ℕ) {t : Pair}
    → period + delay ≤ 20000
    → 0 < now
    → client.last_schedule_time ≤ now
    → Reach period delay (start client now) t
    → schedule_event t.server t.now ≡ some t.server
Reach-schedule_event period delay client now {t} small positive old r =
    let i = Timely-Reach period delay (Timely-start period delay client now positive old) r in
    schedule_event-in_time t.server t.now (omega (arith, Timely-bound period delay i, small))
