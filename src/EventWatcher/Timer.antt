-- ===== src/EventWatcher/Timer.antt =====
-- `TimerEventWatcher` and `SignalEventWatcher` of event_watcher.cpp, and the handler of any watcher.
-- `none` is a failed `assert`, a null event followed, or an empty `std::function` called.
pub mod Rounds
mod Tests
use reechat_base.Base.{
  ℕ, ◌+◌, Option, none, some, Bool, true, false, not, ◌==◌, if◌then◌else◌, ◌>>=◌, ◌>>◌, require,
}
use reechat_base.EventWatcher.{EventWatcher, create, init, watch, fire}

-- A watcher with its `handler_`: whether it is set, and how often it was called.
pub record Handled : Type 0 where
  pub watcher : EventWatcher
  pub has_handler : Bool
  pub handled : ℕ

unfoldable pub call_handler : Handled → Option Handled
call_handler h = do require h.has_handler; some (record h { handled = h.handled + 1 })

unfoldable pub clear_handler : Handled → Handled
clear_handler h = record h { has_handler = false }

-- `is_set` is whether the given function is not empty.
unfoldable pub set_handler : Handled → Bool → Handled
set_handler h is_set = record h { has_handler = is_set }

pub record TimerEventWatcher : Type 0 where
  pub base : Handled
  pub timeout_ms : ℕ

-- The four constructors with a handler, and the one with none.
unfoldable pub create_timer : ℕ → TimerEventWatcher
create_timer timeout_ms = record {
  base = record { watcher = create; has_handler = true; handled = 0 };
  timeout_ms = timeout_ms;
}

unfoldable pub create_bare_timer : ℕ → TimerEventWatcher
create_bare_timer timeout_ms = record {
  base = record { watcher = create; has_handler = false; handled = 0 };
  timeout_ms = timeout_ms;
}

-- `Init`; `DoInit` always returns true.
unfoldable pub init_timer : TimerEventWatcher → Option (TimerEventWatcher × Bool)
unfolding init
init_timer t = do
  (w, done) ← init t.base.watcher true
  some (record t { base = record t.base { watcher = w } }, done)

-- `AsyncWait`
unfoldable pub timer_wait : TimerEventWatcher → Bool → Bool → Option (TimerEventWatcher × Bool)
unfolding watch
timer_wait t deleted added = do
  (w, result) ← watch t.base.watcher t.timeout_ms deleted added
  some (record t { base = record t.base { watcher = w } }, result)

-- `HandlerFn`, when the base takes the event, which is not persistent, out and runs it.
unfoldable pub on_timer : TimerEventWatcher → Option TimerEventWatcher
unfolding fire call_handler
on_timer t = do
  w ← fire t.base.watcher false
  h ← call_handler (record t.base { watcher = w })
  some (record t { base = h })

pub record SignalEventWatcher : Type 0 where
  pub base : Handled
  pub signo : ℕ

unfoldable pub create_signal : ℕ → Option SignalEventWatcher
create_signal signo = do
  require (not (signo == 0))
  some (record {
    base = record { watcher = create; has_handler = true; handled = 0 };
    signo = signo;
  })

unfoldable pub init_signal : SignalEventWatcher → Option (SignalEventWatcher × Bool)
unfolding init
init_signal s = do
  require (not (s.signo == 0))
  (w, done) ← init s.base.watcher true
  some (record s { base = record s.base { watcher = w } }, done)

unfoldable pub signal_wait : SignalEventWatcher → Bool → Bool → Option (SignalEventWatcher × Bool)
unfolding watch
signal_wait s deleted added = do
  (w, result) ← watch s.base.watcher 0 deleted added
  some (record s { base = record s.base { watcher = w } }, result)

-- `HandlerFn`; a signal's event stays in the base.
unfoldable pub on_signal : SignalEventWatcher → Option SignalEventWatcher
unfolding fire call_handler
on_signal s = do
  w ← fire s.base.watcher true
  h ← call_handler (record s.base { watcher = w })
  some (record s { base = h })
