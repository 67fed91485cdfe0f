-- ===== src/EventLoop/Threads/Progress.antt =====
-- Runs of the loop's thread alone, from the states that the interleavings of EventLoop/Threads reach.
use reechat_base.Base.{◌≡◌, []}
use reechat_base.EventLoop.{EventLoop}
use reechat_base.EventLoop.Threads.{polling, Threads, Runs}

module _ {A : Type 0} where
  -- Back in the base with all functors called.
  pub record Settled (s t : Threads A) : Type 0 where
    pub ran : Runs s t
    pub all_called : t.called ≡ s.queued
    pub nothing_pending : t.loop.pending_functors ≡ []
    pub back : t.phase ≡ polling
