-- ===== src/EventWatcher/Pipe/Tests.antt =====
-- Runs of the pipe's watcher of event_watcher.cpp.
use reechat_base.Base.{none, ℕ, ◌≡◌, ◌≢◌, refl, some, Bool, true, false, ◌==◌, ◌||◌, ◌&&◌, arith}
use reechat_base.EventWatcher.Pipe.{
  Descriptors, PipeEventWatcher, create_pipe, pair, init_pipe, destroy_pipe,
}
use reechat_base.EventWatcher.Pipe.Leaks.{init_pipe-destroy_pipe, made}

-- Descriptors 1 and 2 are open.
abbrev standard : Descriptors
standard = λ x. x == 1 || x == 2

-- The theorems at these examples.
init_pipe-destroy_pipe_example :
    (p : PipeEventWatcher) × (held : Descriptors) × (done : Bool) × (init_pipe
        (create_pipe 7)
        standard
        (pair 8 9)
        true
        false
      ≡ some (p, held, done))
    × (done ≡ (made (pair 8 9) && (true && false)))
    × ((done ≡ true) → (p.pipe_0 ≢ 0) × (held p.pipe_0 ≡ true) × (held p.pipe_1 ≡ true))
    × ((done ≡ false) → (x : ℕ) → held x ≡ standard x)
    × ((x : ℕ) → (destroy_pipe p held).1 x ≡ standard x)
    × ((destroy_pipe p held).0.watcher.event ≡ none)
init_pipe-destroy_pipe_example =
    init_pipe-destroy_pipe 7 standard (pair 8 9) true false ((omega arith), refl, refl)
