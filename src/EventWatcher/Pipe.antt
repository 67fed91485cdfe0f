-- ===== src/EventWatcher/Pipe.antt =====
-- `PipeEventWatcher` of event_watcher.cpp: its two sockets among the descriptors that the process has
-- open. What `evutil_socketpair` and `evutil_make_socket_nonblocking` came to are arguments; `none` is a
-- failed `assert`.
pub mod Leaks
mod Tests
use reechat_base.Base.{
  ℕ, Option, none, some, Bool, true, false, ◌&&◌, ltb, ◌==◌, if◌then◌else◌, ◌>>=◌, ◌>>◌, require,
}
use reechat_base.EventWatcher.{EventWatcher, create, free_event, watch, set_event}

-- Which descriptors are open.
abbrev pub Descriptors : Type 0
Descriptors = ℕ → Bool

abbrev pub opened : ℕ → Descriptors → Descriptors
opened fd open_ = λ x. if x == fd then true else open_ x

abbrev pub closed : ℕ → Descriptors → Descriptors
closed fd open_ = λ x. if x == fd then false else open_ x

pub record PipeEventWatcher : Type 0 where
  pub watcher : EventWatcher
  pub pipe_0 : ℕ
  pub pipe_1 : ℕ

-- Both constructors: `memset` clears `sizeof(int)` bytes, which is `pipe_[0]`.
unfoldable pub create_pipe : ℕ → PipeEventWatcher
create_pipe left_over = record { watcher = create; pipe_0 = 0; pipe_1 = left_over }

unfoldable pub do_close : PipeEventWatcher → Descriptors → PipeEventWatcher × Descriptors
do_close p open_ =
    if ltb 0 p.pipe_0
    then (record p { pipe_0 = 0; pipe_1 = 0 }, closed p.pipe_1 (closed p.pipe_0 open_))
    else (p, open_)

-- What `evutil_socketpair` returned.
pub data SocketPair : Type 0 where
  no_pair : SocketPair
  pair : ℕ → ℕ → SocketPair

-- `DoInit` behind its assert; `none` is a fault of its `event_set`.
unfoldable pub do_init :
    PipeEventWatcher
    → Descriptors
    → SocketPair
    → Bool
    → Bool
    → Option (PipeEventWatcher × Descriptors × Bool)
unfolding do_close
do_init p open_ no_pair first second = let (q, rest) = do_close p open_ in some (q, rest, false)
do_init p open_ (pair fd_0 fd_1) first second =
    let q : PipeEventWatcher = record p { pipe_0 = fd_0; pipe_1 = fd_1 } in
    let both = opened fd_1 (opened fd_0 open_) in
    if first && second
    then (do w ← set_event p.watcher; some (record q { watcher = w }, both, true))
    else (let (c, rest) = do_close q both in some (c, rest, false))

-- `Init`, which closes again where `DoInit` failed.
unfoldable pub init_pipe :
    PipeEventWatcher
    → Descriptors
    → SocketPair
    → Bool
    → Bool
    → Option (PipeEventWatcher × Descriptors × Bool)
unfolding do_init do_close
init_pipe p open_ result first second = do
  require (p.pipe_0 == 0)
  (q, rest, done) ← do_init p open_ result first second
  some (if done then (q, rest, true) else (let (c, end) = do_close q rest in (c, end, false)))

-- `~PipeEventWatcher`, and `~EventWatcher` after it, whose `DoClose` does nothing.
unfoldable pub destroy_pipe : PipeEventWatcher → Descriptors → PipeEventWatcher × Descriptors
unfolding do_close free_event
destroy_pipe p open_ =
    let (q, rest) = do_close p open_ in (record q { watcher = free_event q.watcher }, rest)

-- `AsyncWait`
unfoldable pub async_wait : PipeEventWatcher → Bool → Bool → Option (PipeEventWatcher × Bool)
unfolding watch
async_wait p deleted added = do
  (w, result) ← watch p.watcher 0 deleted added
  some (record p { watcher = w }, result)
