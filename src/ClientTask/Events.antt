-- ===== src/ClientTask/Events.antt =====
-- What a predicate on a client of tcp_client_task.cpp has to withstand to hold after every event of Reconnect.
use reechat_base.Base.{
  ℕ, ◌+◌, ◌≡◌, refl, sym, subst, List, [], ◌∷◌, ◌++◌, append-nil, Bool, true, false, arith, leb,
  ltb, ◌==◌, ◌&&◌, if◌then◌else◌,
}
use reechat_base.ClientTask.{
  ClientTask, idle, waiting, wait, Effect, connect, close_connection, add_to_manager, connect_open,
  connect_error, send_verify, send_hello, parse, emit, connect_to_server, drop_socket, stop_process,
  try_reconnect_server_inner, on_internal_packet, on_connect_event, on_close_event,
  on_recv_hello_msg, say_hello, timed_out, schedule_event,
}
use reechat_base.ClientTask.Reconnect.{
  Run, Step, fire, connected, closed, packet, hello, schedule, stop, Reach, here, next,
}

-- How often the client began to connect, and how often it closed a connection.
unfoldable pub connects : List Effect → ℕ
connects [] = 0
connects (connect ∷ es) = connects es + 1
connects (_ ∷ es) = connects es

unfoldable pub closes : List Effect → ℕ
closes [] = 0
closes (close_connection ∷ es) = closes es + 1
closes (_ ∷ es) = closes es

pub connects-append : (xs ys : List Effect) → connects (xs ++ ys) ≡ connects xs + connects ys
unfolding connects
connects-append [] ys = omega arith
connects-append (connect ∷ xs) ys = omega (arith, connects-append xs ys)
connects-append (x ∷ xs) ys = connects-append xs ys

pub closes-append : (xs ys : List Effect) → closes (xs ++ ys) ≡ closes xs + closes ys
unfolding closes
closes-append [] ys = omega arith
closes-append (close_connection ∷ xs) ys = omega (arith, closes-append xs ys)
closes-append (x ∷ xs) ys = closes-append xs ys

-- The predicate holds after calls that are no connection's, after a stop, after a lost connection with a timer that
-- waits, and after a new connection of a timer that waited.
pub record Stable (P : ClientTask → Type 0) : Type 0 where
  pub calls :
      {t : ClientTask} (u : ClientTask) (es : List Effect)
      → P t
      → u.out ≡ t.out ++ es
      → connects es ≡ 0
      → closes es ≡ 0
      → u.reconnect_timer ≡ t.reconnect_timer
      → u.has_socket ≡ t.has_socket
      → P u
  pub stops : {t : ClientTask} → P t → P (stop_process t)
  pub drops :
      {t : ClientTask} (u : ClientTask)
      → P t
      → u.out ≡ (drop_socket t).out
      → u.reconnect_timer ≡ wait t.reconnect_timer
      → u.has_socket ≡ false
      → P u
  pub fires :
      {t : ClientTask}
      → P t
      → t.reconnect_timer ≡ waiting
      → P (connect_to_server (record t { reconnect_timer = idle }))

module _ {P : ClientTask → Type 0} (keeps : Stable P) where
  Stable-closed : {t : ClientTask} → P t → P (try_reconnect_server_inner t)
  unfolding try_reconnect_server_inner connects closes
  Stable-closed {t} i = go (ltb 0 t.max_reconnect_times && leb t.max_reconnect_times round)
    where
      round : ℕ
      round = if ltb 0 t.max_reconnect_times then t.connect_round + 1 else t.connect_round

      go :
          (b : Bool)
          → P (
              if b
              then stop_process (emit (record t { connect_round = round }) connect_error)
              else record (drop_socket t) {
                connect_round = round;
                reconnect_timer = wait t.reconnect_timer;
                last_hello_time = 0;
                verified = false;
              })
      go true = keeps.stops (
          keeps.calls (emit (record t { connect_round = round }) connect_error) (connect_error ∷ [])
            i refl refl refl refl refl)
      go false = keeps.drops _ i refl refl refl

  Stable-packet :
      {t : ClientTask} (bytes : List ℕ) (accepted : Bool)
      → P t
      → P (on_internal_packet t bytes accepted)
  unfolding on_internal_packet connects closes
  Stable-packet {t} bytes accepted i = go t.verified accepted
    where
      go :
          (b a : Bool)
          → P (
              if b
              then emit t (parse bytes)
              else if a
              then emit (record t { verified = true }) add_to_manager
              else stop_process t)
      go true a = keeps.calls _ (parse bytes ∷ []) i refl refl refl refl refl
      go false true = keeps.calls _ (add_to_manager ∷ []) i refl refl refl refl refl
      go false false = keeps.stops i

  Stable-said : {t : ClientTask} (now : ℕ) (sent : Bool) → P t → P (say_hello t now sent)
  unfolding connects closes
  Stable-said {t} now sent i =
      go (t.last_schedule_time == 0) (leb (t.last_schedule_time + 10000) now)
    where
      go :
          (a b : Bool)
          → P (
              if a
              then record t {
                out = t.out ++ send_hello ∷ [];
                last_schedule_time = if sent then now else 0;
              }
              else if b
              then record t { out = t.out ++ send_hello ∷ []; last_schedule_time = now }
              else t)
      go true b = keeps.calls _ (send_hello ∷ []) i refl refl refl refl refl
      go false true = keeps.calls _ (send_hello ∷ []) i refl refl refl refl refl
      go false false = i

  Stable-schedule : {t : ClientTask} (now : ℕ) (sent : Bool) → P t → P (schedule_event t now sent)
  unfolding schedule_event
  Stable-schedule {t} now sent i = go (timed_out (say_hello t now sent) now)
    where
      go :
          (b : Bool)
          → P (
              if b then try_reconnect_server_inner (say_hello t now sent) else say_hello t now sent)
      go true = Stable-closed (Stable-said now sent i)
      go false = Stable-said now sent i

  Stable-Step : {s t : Run} → P s.task → Step s t → P t.task
  unfolding on_close_event on_recv_hello_msg on_connect_event connects closes
  Stable-Step {s} i (fire p e) = subst (λ (x : Run). P x.task) (sym e) (keeps.fires i p)
  Stable-Step {s} i (connected now e) =
      subst (λ (x : Run). P x.task) (sym e)
        (keeps.calls _ (connect_open ∷ send_verify ∷ []) i refl refl refl refl refl)
  Stable-Step i (closed e) = subst (λ (x : Run). P x.task) (sym e) (Stable-closed i)
  Stable-Step i (packet bytes accepted e) =
      subst (λ (x : Run). P x.task) (sym e) (Stable-packet bytes accepted i)
  Stable-Step {s} i (hello now e) =
      subst (λ (x : Run). P x.task) (sym e)
        (keeps.calls (on_recv_hello_msg s.task now) [] i (sym (append-nil s.task.out)) refl refl
          refl refl)
  Stable-Step i (schedule now sent e) =
      subst (λ (x : Run). P x.task) (sym e) (Stable-schedule now sent i)
  Stable-Step i (stop e) = subst (λ (x : Run). P x.task) (sym e) (keeps.stops i)

  pub Stable-Reach : {s t : Run} → P s.task → Reach s t → P t.task
  Stable-Reach i here = i
  Stable-Reach i (next r step) = Stable-Step (Stable-Reach i r) step
