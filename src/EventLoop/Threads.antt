-- ===== src/EventLoop/Threads.antt =====
-- Any number of threads in `QueueInLoop` and the loop's thread in `HandlerFn` and
-- `DoPendingFunctors`, interleaved at the sections that the mutex makes whole and at the calls of the
-- functors, which may queue others. `queued` and `called` record what went in and what ran, and `lost` how often
-- the `send` of `Notify` failed while no byte stood in the pipe. `StopInLoop`, with its nested calls of
-- `DoPendingFunctors`, and `Cancel` are not steps here.
pub mod Delivery
pub mod Progress
mod Tests
use reechat_base.Base.{
  ℕ, ◌+◌, ◌-◌, ◌<◌, ◌≡◌, ◌≢◌, ◌⊎◌, inl, inr, refl, sym, ap, ◌∙◌, List, [], ◌∷◌, ◌++◌, append_assoc,
  append-nil, Option, some, Bool, true, false, length, length-append, min, arith, Bool-cases, ◌||◌,
  ltb, if◌then◌else◌,
}
use reechat_base.EventLoop.{
  EventLoop, queue_in_loop, receive, take_pending, notify, init, init_existing, begin_run,
}

-- Where the loop's thread is: in the base, past `recv`, or with functors left to call.
pub data Phase (A : Type 0) : Type 0 where
  polling : Phase A
  woken : Phase A
  calling : List A → Phase A

pub record Threads (A : Type 0) : Type 0 where
  pub loop : EventLoop A
  pub phase : Phase A
  pub queued : List A
  pub called : List A
  pub lost : ℕ

module _ {A : Type 0} where
  abbrev pub lost_after : Threads A → Bool → ℕ
  lost_after s sent = if sent || s.loop.notified || ltb 0 s.loop.pipe then s.lost else s.lost + 1

  -- A step of the loop's thread.
  pub data LoopStep (s t : Threads A) : Type 0 where
    wake :
        s.phase ≡ polling
        → s.loop.attached ≡ true
        → 0 < s.loop.pipe
        → t ≡ record s { loop = receive s.loop; phase = woken }
        → LoopStep s t
    swap :
        s.phase ≡ woken
        → t ≡ record s { loop = take_pending s.loop; phase = calling s.loop.pending_functors }
        → LoopStep s t
    call :
        (f : A) (fs : List A)
        → s.phase ≡ calling (f ∷ fs)
        → t ≡ record s {
          loop = record s.loop { pending_functor_count = s.loop.pending_functor_count - 1 };
          phase = calling fs;
          called = s.called ++ f ∷ [];
        }
        → LoopStep s t
    return : s.phase ≡ calling [] → t ≡ record s { phase = polling } → LoopStep s t

  pub data Step (s t : Threads A) : Type 0 where
    queue :
        (f : A) (sent : Bool) (loop : EventLoop A)
        → queue_in_loop sent f s.loop ≡ some loop
        → t ≡ record s { loop = loop; queued = s.queued ++ f ∷ []; lost = lost_after s sent }
        → Step s t
    of_loop : LoopStep s t → Step s t

  pub data Reach (s : Threads A) : Threads A → Type 0 where
    here : Reach s s
    next : {t u : Threads A} → Reach s t → Step t u → Reach s u

  -- The loop's thread alone.
  pub data Runs : Threads A → Threads A → Type 0 where
    done : {s : Threads A} → Runs s s
    then_ : {s t u : Threads A} → LoopStep s t → Runs t u → Runs s u

  abbrev pub start : EventLoop A → Threads A
  start loop = record { loop = loop; phase = polling; queued = []; called = []; lost = 0 }

  -- The functors that were taken and not called yet.
  abbrev pub batch : Phase A → List A
  batch polling = []
  batch woken = []
  batch (calling fs) = fs

  -- The pipe holds a byte, or the thread is about to take what is pending.
  abbrev pub Noticed : Threads A → Type 0
  Noticed s = (s.phase ≡ woken) ⊎ (0 < s.loop.pipe)

  pub record Inv (s : Threads A) : Type 0 where
    pub ledger : s.queued ≡ s.called ++ (batch s.phase ++ s.loop.pending_functors)
    pub count :
        s.loop.pending_functor_count ≡ length (batch s.phase) + length s.loop.pending_functors
    pub told : (s.loop.pending_functors ≡ []) ⊎ (s.loop.notified ≡ true)
    pub woke : (s.loop.notified ≡ false) ⊎ (Noticed s ⊎ (0 < s.lost))
    pub watched : s.loop.has_watcher ≡ true
    pub waits : s.loop.attached ≡ true
