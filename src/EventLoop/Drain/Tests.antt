-- ===== src/EventLoop/Drain/Tests.antt =====
-- Functors that count down: the functor `n + 1` queues the functor `n`.
use reechat_base.Base.{
  ℕ, zero, suc, ◌≡◌, refl, sym, append-nil, List, [], ◌∷◌, ◌++◌, Option, some, true, arith,
  if◌then◌else◌,
}
use reechat_base.EventLoop.{EventLoop, stopping, init_existing, stop_in_loop, queue_in_loop, notify}
use reechat_base.EventLoop.Threads.Delivery.{pushed}
use reechat_base.EventLoop.Drain.{Below, Descends, stop_in_loop_lem}

unfoldable count_down : ℕ → EventLoop ℕ → Option (EventLoop ℕ)
count_down zero s = some s
count_down (suc n) s = queue_in_loop true n s

unfoldable queues_of : ℕ → List ℕ
queues_of zero = []
queues_of (suc n) = n ∷ []

unfoldable after_call : ℕ → EventLoop ℕ → EventLoop ℕ
after_call zero s = s
after_call (suc n) s =
    if s.notified then pushed n s else notify true (record (pushed n s) { notified = true })

queues_of-Below : (n : ℕ) → Below count_down (λ k. k) n (queues_of n)
unfolding queues_of
queues_of-Below zero = tt
queues_of-Below (suc n) = (omega arith, tt)

count_down_lem :
    (n : ℕ) (s : EventLoop ℕ) → s.has_watcher ≡ true → count_down n s ≡ some (after_call n s)
unfolding count_down after_call queue_in_loop
count_down_lem zero s has = refl
count_down_lem (suc n) s has = ground (arith, has)

after_call-pending :
    (n : ℕ) (s : EventLoop ℕ)
    → (after_call n s).pending_functors ≡ s.pending_functors ++ queues_of n
unfolding after_call queues_of
after_call-pending zero s = sym (append-nil s.pending_functors)
after_call-pending (suc n) s = ground arith

after_call-rest :
    (n : ℕ) (s : EventLoop ℕ)
    → ((after_call n s).status ≡ s.status)
      × ((after_call n s).exiting ≡ s.exiting)
      × ((after_call n s).has_watcher ≡ s.has_watcher)
unfolding after_call
after_call-rest zero s = (refl, refl, refl)
after_call-rest (suc n) s = (ground arith, ground arith, ground arith)

count_down-Descends : Descends count_down (λ k. k)
count_down-Descends = record {
  queues = λ n _. queues_of n;
  ends = after_call;
  calls = count_down_lem;
  appends = after_call-pending;
  smaller = λ n _. queues_of-Below n;
  keeps = λ n s. (after_call-rest n s).0;
  goes_on = λ n s. (after_call-rest n s).1;
  watches = λ n s. (after_call-rest n s).2;
}

abbrev stopping_loop : EventLoop ℕ
stopping_loop = record init_existing {
  status = stopping;
  notified = true;
  pipe = 1;
  pending_functors = 2 ∷ 0 ∷ [];
  pending_functor_count = 2;
}

stopping_loop-watcher : stopping_loop.has_watcher ≡ true
unfolding init_existing
stopping_loop-watcher = refl

-- The theorems at these examples.
stop_in_loop_lem_example :
    (t : EventLoop ℕ) × (stop_in_loop count_down (suc 2) stopping_loop ≡ some t)
    × (t.pending_functors ≡ [])
    × (t.exiting ≡ true)
    × (t.status ≡ stopping)
stop_in_loop_lem_example =
    stop_in_loop_lem count_down (λ k. k) count_down-Descends 2 stopping_loop refl
      stopping_loop-watcher ((omega arith), ((omega arith), tt))
