-- ===== src/EventLoop/Threads/Tests.antt =====
-- A loop that has been given two functors, one of them after it had woken for the first.
use reechat_base.Base.{ℕ, ◌+◌, ◌≡◌, ◌≢◌, refl, [], ◌∷◌, ◌++◌, true, length, arith}
use reechat_base.EventLoop.{EventLoop, init, begin_run, queue_in_loop, receive}
use reechat_base.EventLoop.Threads.{
  Threads, woken, queue, of_loop, wake, Reach, here, next, start, batch, Noticed,
}
use reechat_base.EventLoop.Threads.Delivery.{own, Reach-in_order, Reach-Noticed}

abbrev begun : EventLoop ℕ
begun = begin_run init

-- Functor 7 was queued, the loop's thread has read the byte, and functor 8 was queued.
abbrev queued_7 : EventLoop ℕ
queued_7 = record begun {
  pipe = 1;
  notified = true;
  pending_functors = 7 ∷ [];
  pending_functor_count = 1;
}

abbrev queued_8 : EventLoop ℕ
queued_8 = record (receive queued_7) { pending_functors = 7 ∷ 8 ∷ []; pending_functor_count = 2 }

abbrev both : Threads ℕ
both = record { loop = queued_8; phase = woken; queued = 7 ∷ 8 ∷ []; called = []; lost = 0 }

both_run : Reach (start begun) both
unfolding queue_in_loop begin_run init
both_run =
    next
      (next (next here (queue 7 true queued_7 refl refl))
        (of_loop (wake refl refl (omega arith) refl)))
      (queue 8 true queued_8 refl refl)

some_pending : both.loop.pending_functors ≢ []
some_pending e = cc

-- The theorems at these examples.
Reach-in_order_example :
    (both.queued ≡ both.called ++ (batch both.phase ++ both.loop.pending_functors))
    × (both.loop.pending_functor_count
        ≡ length (batch both.phase) + length both.loop.pending_functors)
Reach-in_order_example = Reach-in_order own both_run

Reach-Noticed_example : Noticed both × (both.loop.attached ≡ true)
Reach-Noticed_example = Reach-Noticed own both_run refl some_pending
