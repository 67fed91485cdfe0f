-- ===== src/EventLoop.antt =====
-- `EventLoop` of event_loop.cpp, with `BaseStatus` of base_status.hpp and the pipe of
-- `PipeEventWatcher` (event_watcher.cpp). A functor is a value of `A`, and what it does is the
-- parameter `call`; `none` is a failed `assert`. Making the base, the socket pair and the event is
-- taken to succeed.
pub mod Threads
pub mod Drain
pub mod Counting
use reechat_base.Base.{
  ℕ, zero, suc, ◌+◌, ◌-◌, List, [], ◌∷◌, ◌++◌, Option, none, some, Bool, true, false, not, ◌&&◌,
  if◌then◌else◌, ◌>>=◌, ◌>>◌, require, min,
}

-- `BaseStatus::Status`
pub data Status : Type 0 where
  null initializing initialized starting running stopping stopped : Status

abbrev pub is_running : Status → Bool
is_running running = true
is_running _ = false

abbrev pub is_stopping : Status → Bool
is_stopping stopping = true
is_stopping _ = false

abbrev pub is_stopped : Status → Bool
is_stopped stopped = true
is_stopped _ = false

pub record EventLoop (A : Type 0) : Type 0 where
  pub status : Status
  -- `watcher_` is not null, and its event is added to the base.
  pub has_watcher : Bool
  pub attached : Bool
  -- Bytes in the socket pair.
  pub pipe : ℕ
  pub notified : Bool
  pub pending_functors : List A
  pub pending_functor_count : ℕ
  -- `event_base_loopexit` was called.
  pub exiting : Bool

module _ {A : Type 0} where
  -- `EventLoop()` and `EventLoop(base)`; both call `Init`.
  unfoldable pub init : EventLoop A
  init = record {
    status = initialized;
    has_watcher = true;
    attached = false;
    pipe = 0;
    notified = false;
    pending_functors = [];
    pending_functor_count = 0;
    exiting = false;
  }

  unfoldable pub init_existing : EventLoop A
  init_existing = record {
    status = running;
    has_watcher = true;
    attached = true;
    pipe = 0;
    notified = false;
    pending_functors = [];
    pending_functor_count = 0;
    exiting = false;
  }

  -- `PipeEventWatcher::Notify`: one byte, if the socket takes it; `sent` is whether `send` did.
  abbrev pub notify : Bool → EventLoop A → EventLoop A
  notify sent s = if sent then record s { pipe = s.pipe + 1 } else s

  unfoldable pub queue_in_loop : Bool → A → EventLoop A → Option (EventLoop A)
  queue_in_loop sent cb s =
      let t : EventLoop A = record s {
        pending_functors = s.pending_functors ++ cb ∷ [];
        pending_functor_count = s.pending_functor_count + 1;
      } in
      if s.notified
      then some t
      else if s.has_watcher
      then some (notify sent (record t { notified = true }))
      else (do require (not (is_running s.status)); some (record t { notified = true }))

  -- `in_loop_thread` is `IsInLoopThread()`.
  unfoldable pub run_in_loop :
      (A → EventLoop A → Option (EventLoop A))
      → Bool
      → Bool
      → A
      → EventLoop A
      → Option (EventLoop A)
  run_in_loop call in_loop_thread sent functor s =
      if is_running s.status && in_loop_thread then call functor s else queue_in_loop sent functor s

  -- `stop_functor` is the binding of `StopInLoop`.
  unfoldable pub stop : Bool → A → EventLoop A → Option (EventLoop A)
  stop sent stop_functor s = do
    require (is_running s.status)
    queue_in_loop sent stop_functor (record s { status = stopping })

  abbrev pub is_pending_queue_empty : EventLoop A → Bool
  is_pending_queue_empty s = elim s.pending_functors [ [] ↦ true | _ ∷ _ ↦ false ]

  -- What `DoPendingFunctors` does under the lock.
  abbrev pub take_pending : EventLoop A → EventLoop A
  take_pending s = record s { notified = false; pending_functors = [] }

  unfoldable pub call_all :
      (A → EventLoop A → Option (EventLoop A)) → List A → EventLoop A → Option (EventLoop A)
  call_all call [] s = some s
  call_all call (f ∷ fs) s = do
    t ← call f s
    call_all call fs (record t { pending_functor_count = t.pending_functor_count - 1 })

  unfoldable pub do_pending_functors :
      (A → EventLoop A → Option (EventLoop A)) → EventLoop A → Option (EventLoop A)
  do_pending_functors call s = call_all call s.pending_functors (take_pending s)

  -- The loop `f` of `StopInLoop`, on fuel; `none` also means that the fuel ran out.
  unfoldable pub drain :
      (A → EventLoop A → Option (EventLoop A)) → ℕ → EventLoop A → Option (EventLoop A)
  drain call zero s = none
  drain call (suc fuel) s = elim (do_pending_functors call s) [
    | none ↦ none
    | some t ↦ elim (is_pending_queue_empty t) [ true ↦ some t | false ↦ drain call fuel t ]
  ]

  unfoldable pub stop_in_loop :
      (A → EventLoop A → Option (EventLoop A)) → ℕ → EventLoop A → Option (EventLoop A)
  stop_in_loop call fuel s = do
    require (is_stopping s.status)
    t ← drain call fuel s
    drain call fuel (record t { exiting = true })

  -- `recv` of up to 128 bytes by `HandlerFn`, which then calls `DoPendingFunctors`: a return of -1 is
  -- not below 1 as a `size_t`.
  abbrev pub receive : EventLoop A → EventLoop A
  receive s = record s { pipe = s.pipe - min s.pipe 128 }

  unfoldable pub handler_fn :
      (A → EventLoop A → Option (EventLoop A)) → EventLoop A → Option (EventLoop A)
  handler_fn call s = do_pending_functors call (receive s)

  -- `Run` before and after `event_base_dispatch`.
  unfoldable pub begin_run : EventLoop A → EventLoop A
  begin_run s = record s { attached = true; status = running }

  unfoldable pub end_run : EventLoop A → EventLoop A
  end_run s = record s { has_watcher = false; attached = false; status = stopped }

  unfoldable pub cancel : EventLoop A → EventLoop A
  cancel s = record s { has_watcher = false; attached = false }
