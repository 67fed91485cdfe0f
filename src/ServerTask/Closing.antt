-- ===== src/ServerTask/Closing.antt =====
-- How often a task of tcp_server_task.cpp closes its connection.
use reechat_base.Base.{
  ℕ, ◌+◌, ◌≡◌, refl, sym, ap, subst, List, [], ◌∷◌, ◌++◌, some, Bool, true, false, not, ◌&&◌, ltb,
  ◌==◌, if◌then◌else◌, arith,
}
use reechat_base.ServerTask.{
  ServerTask, waiting, Effect, add_to_manager, remove_from_manager, close_connection, parse, init,
  emit, begin_process, stop_process, stop_process_v2, schedule_event, on_recv_hello_msg,
  on_internal_packet, on_close_event, on_check_verified, start_close, release, destroy,
}

unfoldable pub closes : List Effect → ℕ
closes [] = 0
closes (add_to_manager ∷ es) = closes es
closes (remove_from_manager ∷ es) = closes es
closes (close_connection ∷ es) = closes es + 1
closes (parse bytes ∷ es) = closes es

abbrev pub held : Bool → ℕ
held true = 1
held false = 0

-- A task that was given one connection, and the events that reach it from then on.
pub data Serves (now : ℕ) : ServerTask → Type 0 where
  started : (s : ServerTask) → s ≡ (begin_process init true now).0 → Serves now s
  packets :
      (s t : ServerTask) (bytes : List ℕ) (accepted : Bool)
      → Serves now s
      → t ≡ on_internal_packet s bytes accepted
      → Serves now t
  hellos :
      (s t : ServerTask) (later : ℕ) → Serves now s → t ≡ on_recv_hello_msg s later → Serves now t
  schedules :
      (s t : ServerTask) (later : ℕ) → Serves now s → schedule_event s later ≡ some t → Serves now t
  checks : (s t : ServerTask) → Serves now s → on_check_verified s ≡ some t → Serves now t
  times_out :
      (s t : ServerTask)
      → Serves now s
      → s.close_timer ≡ waiting
      → t ≡ stop_process s
      → Serves now t
  closed_by : (s t : ServerTask) → Serves now s → t ≡ on_close_event s → Serves now t
  stops :
      (s t : ServerTask) (notify_manager : Bool)
      → Serves now s
      → t ≡ stop_process_v2 s notify_manager
      → Serves now t

closes-append : (xs ys : List Effect) → closes (xs ++ ys) ≡ closes xs + closes ys
unfolding closes
closes-append [] ys = omega arith
closes-append (add_to_manager ∷ xs) ys = closes-append xs ys
closes-append (remove_from_manager ∷ xs) ys = closes-append xs ys
closes-append (close_connection ∷ xs) ys = omega (arith, closes-append xs ys)
closes-append (parse bytes ∷ xs) ys = closes-append xs ys

-- One connection: closed once, or held.
abbrev One : ServerTask → Type 0
One t = closes t.out + held t.has_socket ≡ 1

One-more :
    (s t : ServerTask) (es : List Effect)
    → One s
    → t.out ≡ s.out ++ es
    → closes es ≡ 0
    → t.has_socket ≡ s.has_socket
    → One t
One-more s t es i o c h = omega (arith, ap closes o, closes-append s.out es, ap held h)

One-same : (s t : ServerTask) → One s → t.out ≡ s.out → t.has_socket ≡ s.has_socket → One t
One-same s t i o h = omega (arith, ap closes o, ap held h)

One-release : (s : ServerTask) → One s → One (release s)
unfolding closes
One-release s i = go s.has_socket refl
  where
    go :
        (b : Bool)
        → s.has_socket ≡ b
        → closes (if b then s.out ++ close_connection ∷ [] else s.out) + 0 ≡ 1
    go true h = omega (arith, closes-append s.out (close_connection ∷ []), ap held h)
    go false h = omega (arith, ap held h)

One-remove : (s : ServerTask) → One s → One (emit s remove_from_manager)
unfolding closes
One-remove s i = One-more s (emit s remove_from_manager) (remove_from_manager ∷ []) i refl refl refl

One-packet :
    (s : ServerTask) (bytes : List ℕ) (accepted : Bool)
    → One s
    → One (on_internal_packet s bytes accepted)
unfolding on_internal_packet closes
One-packet s bytes accepted i = go s.verified_client accepted
  where
    go :
        (b a : Bool)
        → One (
            if not b
            then (if a then emit (record s { verified_client = true }) add_to_manager else s)
            else emit s (parse bytes))
    go true a = One-more s (emit s (parse bytes)) (parse bytes ∷ []) i refl refl refl
    go false true =
        One-more s (emit (record s { verified_client = true }) add_to_manager) (add_to_manager ∷ [])
          i refl refl refl
    go false false = i

One-start_close : (s t : ServerTask) → One s → start_close s ≡ some t → One t
One-start_close s t i e = ground (arith, e)

One-guarded :
    (s t : ServerTask) (b : Bool) → One s → (if b then start_close s else some s) ≡ some t → One t
One-guarded s t true i e = One-start_close s t i e
One-guarded s t false i e = let same : s ≡ t = cc in subst One same i

One-schedule : (s t : ServerTask) (now : ℕ) → One s → schedule_event s now ≡ some t → One t
unfolding schedule_event
One-schedule s t now i e =
    go (s.last_hello_time == 0) (s.verified_client && ltb (s.last_hello_time + 30000) now) e
  where
    go : (a b : Bool) → (if a then some s else if b then start_close s else some s) ≡ some t → One t
    go true b h = let same : s ≡ t = cc in subst One same i
    go false b h = One-guarded s t b i h

One-stop_v2 : (s : ServerTask) (b : Bool) → One s → One (stop_process_v2 s b)
unfolding stop_process_v2
One-stop_v2 s true i = One-release (emit s remove_from_manager) (One-remove s i)
One-stop_v2 s false i = One-release s i

Serves-One : {now : ℕ} {t : ServerTask} → Serves now t → One t
unfolding begin_process on_check_verified on_close_event stop_process on_recv_hello_msg closes
Serves-One (started s e) = subst One (sym e) refl
Serves-One (packets s t bytes accepted r e) =
    subst One (sym e) (One-packet s bytes accepted (Serves-One r))
Serves-One (hellos s t later r e) =
    subst One (sym e) (One-same s (on_recv_hello_msg s later) (Serves-One r) refl refl)
Serves-One (schedules s t later r e) = One-schedule s t later (Serves-One r) e
Serves-One (checks s t r e) = One-guarded s t (not s.verified_client) (Serves-One r) e
Serves-One (times_out s t r w e) =
    subst One (sym e) (One-release (emit s remove_from_manager) (One-remove s (Serves-One r)))
Serves-One (closed_by s t r e) =
    subst One (sym e) (One-release (emit s remove_from_manager) (One-remove s (Serves-One r)))
Serves-One (stops s t b r e) = subst One (sym e) (One-stop_v2 s b (Serves-One r))

-- A task that was given one connection by `BeginProcess` closes it exactly once by the end of its destructor,
-- whatever packets, timers, close events and calls of `StopProcess` and `StopProcessV2` reach it before, in whatever
-- order and however often; until it does, it holds the wrapper.
pub Serves-closes :
    {now : ℕ} {t : ServerTask}
    → Serves now t
    → (closes (destroy t).out ≡ 1) × (closes t.out + held t.has_socket ≡ 1)
unfolding destroy
Serves-closes {now} {t} r = let i = Serves-One r in let j = One-release t i in (omega (arith, j), i)
