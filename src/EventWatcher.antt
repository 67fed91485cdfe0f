-- ===== src/EventWatcher.antt =====
-- `EventWatcher` of event_watcher.cpp, and the times of `TimerEventWatcher`. What `event_add`,
-- `event_del` and the initialization of a subclass came to are arguments; `none` is a failed `assert`
-- or a null event followed.
pub mod Attached
pub mod Pipe
pub mod Timer
mod Tests
use reechat_base.Base.{
  ℕ, ◌+◌, ◌*◌, ◌/◌, ◌%◌, Option, none, some, Bool, true, false, ltb, if◌then◌else◌, ◌>>=◌, ◌>>◌,
  require, not,
}

-- `struct timeval`: seconds and microseconds.
pub record TimeVal : Type 0 where
  pub tv_sec : ℕ
  pub tv_usec : ℕ

-- A `struct event`: whether it is in the base, and its timeout there.
pub record Event : Type 0 where
  pub added : Bool
  pub timeout : Option TimeVal

pub record EventWatcher : Type 0 where
  pub event : Option Event
  pub attached : Bool
  -- `cancel_callback_` is set, and how often it was called.
  pub has_cancel_callback : Bool
  pub cancel_calls : ℕ
  -- The subclass holds its resources: for a pipe, the two sockets.
  pub opened : Bool

abbrev pub new_event : Event
new_event = record { added = false; timeout = none }

abbrev pub create : EventWatcher
create = record {
  event = some new_event;
  attached = false;
  has_cancel_callback = false;
  cancel_calls = 0;
  opened = false;
}

abbrev pub close : EventWatcher → EventWatcher
close w = record w { opened = false }

-- `event_set` of the event: `none` is a null event followed, or an event that is in the base, which
-- `event_set` must not be given.
abbrev pub set_event : EventWatcher → Option EventWatcher
set_event w = do
  event ← w.event
  require (not event.added)
  some (record w { event = some (record event { added = false }) })

-- `Init`; `done` is whether `DoInit` came to its `event_set`.
unfoldable pub init : EventWatcher → Bool → Option (EventWatcher × Bool)
init w done =
    if done
    then (do u ← set_event w; some (record u { opened = true }, true))
    else some (close w, false)

-- The timeout of `Watch(timeout_ms)`; 0 stands for every number that is not above 0.
abbrev pub time_of : ℕ → Option TimeVal
time_of timeout_ms =
    if ltb 0 timeout_ms
    then some (record { tv_sec = timeout_ms / 1000; tv_usec = timeout_ms % 1000 * 1000 })
    else none

-- What `event_del` and `event_add` leave.
abbrev pub after_del : Event → Bool → Event
after_del e deleted = if deleted then record e { added = false } else e

abbrev pub after_add : Event → Option TimeVal → Bool → Event
after_add e timeout added = if added then record { added = true; timeout = timeout } else e

unfoldable pub watch : EventWatcher → ℕ → Bool → Bool → Option (EventWatcher × Bool)
watch w timeout_ms deleted added = do
  event ← w.event
  let taken_out = if w.attached then after_del event deleted else event
  some (
    record w { event = some (after_add taken_out (time_of timeout_ms) added); attached = added },
    added,
  )

unfoldable pub free_event : EventWatcher → EventWatcher
free_event w = elim w.event [ none ↦ w | some event ↦ record w { event = none; attached = false } ]

unfoldable pub cancel : EventWatcher → Option EventWatcher
unfolding free_event
cancel w = do
  event ← w.event
  let freed = free_event w
  some (
      if freed.has_cancel_callback
      then record freed { has_cancel_callback = false; cancel_calls = freed.cancel_calls + 1 }
      else freed)

unfoldable pub set_cancel_callback : EventWatcher → EventWatcher
set_cancel_callback w = record w { has_cancel_callback = true }

-- The destructor.
unfoldable pub destroy : EventWatcher → EventWatcher
unfolding free_event
destroy w = close (free_event w)

-- The event fires: one that is not persistent leaves the base.
unfoldable pub fire : EventWatcher → Bool → Option EventWatcher
fire w persistent = do
  event ← w.event
  some (record w { event = some (record event { added = persistent }) })
