-- ===== src/EventLoop/Counting/Tests.antt =====
-- A functor above 0 queues the one below it, and such a loop with two functors called.
use reechat_base.Base.{ℕ, zero, suc, ◌≡◌, refl, subst, [], ◌∷◌, length, Option, some, true}
use reechat_base.EventLoop.{
  EventLoop, init_existing, queue_in_loop, handler_fn, do_pending_functors, call_all,
}
use reechat_base.EventLoop.Counting.{
  Counted, Keeps, Counted-queue_in_loop, Reach, made_from, queues, handles,
  Reach-pending_functor_count,
}

unfoldable queue_below : ℕ → EventLoop ℕ → Option (EventLoop ℕ)
queue_below zero s = some s
queue_below (suc n) s = queue_in_loop true n s

queue_below-Keeps : Keeps queue_below
unfolding queue_below
queue_below-Keeps k zero s t c e = let same : s ≡ t = cc in subst (Counted k) same c
queue_below-Keeps k (suc n) s t c e = Counted-queue_in_loop k true n s t c e

-- The functor 3 was called and has queued 2.
abbrev two_waits : EventLoop ℕ
two_waits = record init_existing {
  notified = true;
  pipe = 1;
  pending_functors = 2 ∷ [];
  pending_functor_count = 1;
}

two_waits_run : Reach queue_below two_waits
unfolding init_existing queue_in_loop handler_fn do_pending_functors call_all queue_below
two_waits_run =
    handles _ two_waits (queues init_existing _ true 3 (made_from init_existing refl) refl) refl

-- The theorems at these examples.
Reach-pending_functor_count_example :
    two_waits.pending_functor_count ≡ length two_waits.pending_functors
Reach-pending_functor_count_example =
    Reach-pending_functor_count queue_below queue_below-Keeps two_waits_run
