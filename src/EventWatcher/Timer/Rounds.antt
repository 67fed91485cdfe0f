-- ===== src/EventWatcher/Timer/Rounds.antt =====
-- How often the handlers of timers and signals of event_watcher.cpp run.
use reechat_base.Base.{
  ◌<◌, ℕ, zero, suc, ◌+◌, ◌≡◌, ◌≢◌, refl, ap, ◌∙◌, Option, none, some, Bool, true, false, ◌>>=◌,
  arith,
}
use reechat_base.EventWatcher.{Event, EventWatcher, create, init, watch, fire, time_of}
use reechat_base.EventWatcher.Timer.{
  TimerEventWatcher, SignalEventWatcher, create_bare_timer, timer_wait, on_timer, call_handler,
  create_signal, init_signal, signal_wait, on_signal,
}

-- `AsyncWait` and, when the time is over, the event, as often as the number says, where the base takes the event.
unfoldable pub rounds : ℕ → TimerEventWatcher → Option TimerEventWatcher
unfolding timer_wait on_timer
rounds zero t = some t
rounds (suc n) t = do
  (waiting, _) ← timer_wait t true true
  fired ← on_timer waiting
  rounds n fired

-- The base holds the event.
abbrev pub in_base : EventWatcher → Bool
in_base w = elim w.event [ none ↦ false | some e ↦ e.added ]

-- A timer that waits.
abbrev pub armed : TimerEventWatcher → TimerEventWatcher
armed t = record t {
  base = record t.base {
    watcher = record t.base.watcher {
      event = some (record { added = true; timeout = time_of t.timeout_ms });
      attached = true;
    };
  };
}

-- The timer after the event.
abbrev fired : TimerEventWatcher → TimerEventWatcher
fired t = record t {
  base = record t.base {
    handled = t.base.handled + 1;
    watcher = record t.base.watcher {
      event = some (record { added = false; timeout = time_of t.timeout_ms });
      attached = true;
    };
  };
}

-- `AsyncWait` of a timer whose event is not freed arms it, whether it waited before or not.
timer_wait_lem :
    (t : TimerEventWatcher) (e : Event)
    → t.base.watcher.event ≡ some e
    → timer_wait t true true ≡ some (armed t, true)
unfolding timer_wait watch
timer_wait_lem t e h = rw h refl

on_timer-armed :
    (t : TimerEventWatcher) → t.base.has_handler ≡ true → on_timer (armed t) ≡ some (fired t)
unfolding on_timer fire call_handler
on_timer-armed t h = rw h refl

rounds-suc :
    (n : ℕ) (t : TimerEventWatcher) (e : Event)
    → t.base.watcher.event ≡ some e
    → t.base.has_handler ≡ true
    → rounds (suc n) t ≡ rounds n (fired t)
unfolding rounds
rounds-suc n t e h k = rw (timer_wait_lem t e h) (rw (on_timer-armed t k) refl)

-- For a timer with a handler whose event is not freed, as many rounds of `AsyncWait` and the event as wanted run
-- the handler once each, where the base takes the event every time: the event is out of the base
-- after each, and a later `AsyncWait` puts it back with the timer's time.
pub rounds_lem :
    (n : ℕ) (t : TimerEventWatcher) (e : Event)
    → t.base.watcher.event ≡ some e
    → t.base.has_handler ≡ true
    → (u : TimerEventWatcher) × (rounds n t ≡ some u)
      × (u.base.handled ≡ t.base.handled + n)
      × (0 < n → in_base u.base.watcher ≡ false)
      × (timer_wait u true true ≡ some (armed u, true))
unfolding rounds
rounds_lem zero t e h k = (t, refl, omega arith, (λ p. absurd (omega arith)), timer_wait_lem t e h)
rounds_lem (suc zero) t e h k =
    let e' : Event = record { added = false; timeout = time_of t.timeout_ms } in
    (fired t, rounds-suc 0 t e h k, refl, (λ _. refl), timer_wait_lem (fired t) e' refl)
rounds_lem (suc (suc n)) t e h k =
    let e' : Event = record { added = false; timeout = time_of t.timeout_ms } in
    let (u, run, count, out, again) = rounds_lem (suc n) (fired t) e' refl k in
    (u, rounds-suc (suc n) t e h k ∙ run, omega arith, (λ _. out (omega arith)), again)

-- A timer made without a handler waits, and its event then calls the empty function.
pub on_timer-bare :
    (timeout_ms : ℕ)
    → (t : TimerEventWatcher) × (timer_wait (create_bare_timer timeout_ms) true true
        ≡ some (t, true))
      × (on_timer t ≡ none)
unfolding timer_wait watch on_timer fire call_handler create_bare_timer
on_timer-bare timeout_ms = (armed (create_bare_timer timeout_ms), refl, refl)

-- The event of a signal, as often as the number says.
unfoldable pub signals : ℕ → SignalEventWatcher → Option SignalEventWatcher
unfolding on_signal
signals zero s = some s
signals (suc n) s = do t ← on_signal s; signals n t

-- A signal watcher that waits, after so many signals.
abbrev caught : ℕ → ℕ → SignalEventWatcher
caught signo count = record {
  base = record {
    watcher = record {
      event = some (record { added = true; timeout = none });
      attached = true;
      has_cancel_callback = false;
      cancel_calls = 0;
      opened = true;
    };
    has_handler = true;
    handled = count;
  };
  signo = signo;
}

signals-caught :
    (n signo count : ℕ) → signals n (caught signo count) ≡ some (caught signo (count + n))
unfolding signals on_signal fire call_handler
signals-caught zero signo count = ap (λ k. some (caught signo k)) (omega arith)
signals-caught (suc n) signo count =
    signals-caught n signo (count + 1) ∙ ap (λ k. some (caught signo k)) (omega arith)

-- A signal number other than 0 makes a watcher that, once it waits, runs its handler at every signal and
-- stays in the base, without another `AsyncWait`; the number 0 fails the constructor's assert.
pub signals_lem :
    (signo n : ℕ)
    → signo ≢ 0
    → (s : SignalEventWatcher) × (t : SignalEventWatcher) × (u : SignalEventWatcher)
      × (create_signal signo ≡ some s)
      × (init_signal s ≡ some (t, true))
      × ((do (w, _) ← signal_wait t true true; signals n w) ≡ some u)
      × (u.base.handled ≡ n)
      × (in_base u.base.watcher ≡ true)
unfolding create_signal init_signal signal_wait watch init
signals_lem signo n ne =
    let s : SignalEventWatcher = record {
      base = record { watcher = create; has_handler = true; handled = 0 };
      signo = signo;
    } in
    let t : SignalEventWatcher = record {
      base = record { watcher = record create { opened = true }; has_handler = true; handled = 0 };
      signo = signo;
    } in
    (
      s,
      t,
      caught signo (0 + n),
      ground arith,
      ground arith,
      signals-caught n signo 0,
      omega arith,
      refl,
    )
