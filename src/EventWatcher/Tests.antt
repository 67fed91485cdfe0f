-- ===== src/EventWatcher/Tests.antt =====
-- A timer that was initialized and watched for 1234 milliseconds, twice.
use reechat_base.Base.{◌≡◌, refl, some, true, false}
use reechat_base.EventWatcher.{Event, EventWatcher, create, init, watch}
use reechat_base.EventWatcher.Attached.{inits, watches, Reach, here, next, Reach-attached}

abbrev watched_event : Event
watched_event = record { added = true; timeout = some (record { tv_sec = 1; tv_usec = 234000 }) }

abbrev timer : EventWatcher
timer = record create {
  event = some watched_event;
  attached = true;
  opened = true;
  has_cancel_callback = false;
}

abbrev to_cancel : EventWatcher
to_cancel = record timer { has_cancel_callback = true }

timer_run : Reach create timer
unfolding init watch
timer_run =
    next (next (next here (inits true true refl)) (watches 1234 true true refl))
      (watches 1234 true true refl)

-- The theorems at these examples.
Reach-attached_example : timer.attached ≡ true
Reach-attached_example = Reach-attached watched_event timer_run refl refl
