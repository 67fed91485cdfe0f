-- ===== src/EventWatcher/Pipe/Leaks.antt =====
-- The descriptors that a `PipeEventWatcher` of event_watcher.cpp opens and closes.
use reechat_base.Base.{ℕ, ◌<◌, ◌≡◌, ◌≢◌, refl, none, some, Bool, true, false, arith, lt→ltb, ◌&&◌}
use reechat_base.EventWatcher.{free_event}
use reechat_base.EventWatcher.Pipe.{
  Descriptors, opened, closed, PipeEventWatcher, create_pipe, do_close, SocketPair, no_pair, pair,
  do_init, init_pipe, destroy_pipe,
}

-- Whether `evutil_socketpair` made the two sockets.
abbrev pub made : SocketPair → Bool
made no_pair = false
made (pair fd_0 fd_1) = true

-- New descriptors, the first of them not 0.
abbrev pub Fresh : Descriptors → SocketPair → Type 0
Fresh open_ no_pair = Unit {0}
Fresh open_ (pair fd_0 fd_1) = (0 < fd_0) × (open_ fd_0 ≡ false) × (open_ fd_1 ≡ false)

-- Both calls of `Close` after a failure.
after_failure :
    (left_over : ℕ) (open_ : Descriptors) (a b : ℕ)
    → 0 < a
    → open_ a ≡ false
    → open_ b ≡ false
    → (do_close
          (record (create_pipe left_over) { pipe_0 = a; pipe_1 = b })
          (opened b (opened a open_))
        ≡ (
          record (create_pipe left_over) { pipe_0 = 0; pipe_1 = 0 },
          closed b (closed a (opened b (opened a open_))),
        ))
      × ((x : ℕ) → closed b (closed a (opened b (opened a open_))) x ≡ open_ x)
unfolding do_close
after_failure left_over open_ a b pos na nb = (rw (lt→ltb 0 a pos) refl, λ x. ground arith)

-- `Init` of a new pipe watcher passes its assert and returns true exactly if the socket pair was made and both
-- sockets were made non-blocking. The destructor then leaves open what was open before, on every one of
-- these paths, where the descriptors are new ones and the first is not 0; and the event is freed.
pub init_pipe-destroy_pipe :
    (left_over : ℕ) (open_ : Descriptors) (result : SocketPair) (first second : Bool)
    → Fresh open_ result
    → (p : PipeEventWatcher) × (held : Descriptors) × (done : Bool) × (init_pipe
          (create_pipe left_over)
          open_
          result
          first
          second
        ≡ some (p, held, done))
      × (done ≡ (made result && (first && second)))
      × ((done ≡ true) → (p.pipe_0 ≢ 0) × (held p.pipe_0 ≡ true) × (held p.pipe_1 ≡ true))
      × ((done ≡ false) → (x : ℕ) → held x ≡ open_ x)
      × ((x : ℕ) → (destroy_pipe p held).1 x ≡ open_ x)
      × ((destroy_pipe p held).0.watcher.event ≡ none)
unfolding init_pipe create_pipe do_init do_close destroy_pipe free_event
init_pipe-destroy_pipe left_over open_ no_pair first second _ =
    (create_pipe left_over, open_, false, refl, refl, (λ h. cc), (λ _ x. refl), (λ x. refl), refl)
init_pipe-destroy_pipe left_over open_ (pair a b) true true (pos, na, nb) = (
  record (create_pipe left_over) { pipe_0 = a; pipe_1 = b },
  opened b (opened a open_),
  true,
  refl,
  refl,
  (λ _. (ground arith, ground arith, ground arith)),
  (λ h. cc),
  (λ x. ground arith),
  ground arith,
)
init_pipe-destroy_pipe left_over open_ (pair a b) true false (pos, na, nb) =
    let (failed, undone) = after_failure left_over open_ a b pos na nb in
    (
      record (create_pipe left_over) { pipe_0 = 0; pipe_1 = 0 },
      closed b (closed a (opened b (opened a open_))),
      false,
      ground (arith, failed),
      refl,
      (λ h. cc),
      (λ _ x. undone x),
      (λ x. undone x),
      refl,
    )
init_pipe-destroy_pipe left_over open_ (pair a b) false second (pos, na, nb) =
    let (failed, undone) = after_failure left_over open_ a b pos na nb in
    (
      record (create_pipe left_over) { pipe_0 = 0; pipe_1 = 0 },
      closed b (closed a (opened b (opened a open_))),
      false,
      ground (arith, failed),
      refl,
      (λ h. cc),
      (λ _ x. undone x),
      (λ x. undone x),
      refl,
    )

-- If `evutil_socketpair` gives descriptor 0 as the first of the two, which `DoClose` takes for no descriptor,
-- `Init` succeeds and both sockets are still open after the destructor.
pub destroy_pipe-zero :
    (left_over : ℕ) (open_ : Descriptors) (fd_1 : ℕ)
    → (p : PipeEventWatcher) × (held : Descriptors) × (init_pipe
          (create_pipe left_over)
          open_
          (pair 0 fd_1)
          true
          true
        ≡ some (p, held, true))
      × ((destroy_pipe p held).1 0 ≡ true)
      × ((destroy_pipe p held).1 fd_1 ≡ true)
unfolding init_pipe create_pipe do_init do_close destroy_pipe
destroy_pipe-zero left_over open_ fd_1 = (
  record (create_pipe left_over) { pipe_0 = 0; pipe_1 = fd_1 },
  opened fd_1 (opened 0 open_),
  refl,
  ground arith,
  ground arith,
)
