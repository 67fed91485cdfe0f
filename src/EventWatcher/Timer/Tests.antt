-- ===== src/EventWatcher/Timer/Tests.antt =====
-- Runs of the timers and signals of event_watcher.cpp.
use reechat_base.Base.{some, true, ◌≡◌, refl, ◌<◌, ◌+◌, ◌≡◌, refl, some, true, false}
use reechat_base.EventWatcher.{new_event}
use reechat_base.EventWatcher.Timer.{TimerEventWatcher, create_timer, timer_wait}
use reechat_base.EventWatcher.Timer.Rounds.{rounds, rounds_lem, in_base, armed}

timer_event : (create_timer 1500).base.watcher.event ≡ some new_event
unfolding create_timer
timer_event = refl

timer_handler : (create_timer 1500).base.has_handler ≡ true
unfolding create_timer
timer_handler = refl

-- The theorems at these examples.
rounds_lem_example :
    (u : TimerEventWatcher) × (rounds 3 (create_timer 1500) ≡ some u)
    × (u.base.handled ≡ (create_timer 1500).base.handled + 3)
    × (0 < 3 → in_base u.base.watcher ≡ false)
    × (timer_wait u true true ≡ some (armed u, true))
rounds_lem_example = rounds_lem 3 (create_timer 1500) new_event timer_event timer_handler
