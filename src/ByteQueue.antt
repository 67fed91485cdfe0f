-- ===== src/ByteQueue.antt =====
-- What a ring buffer promises: a first-in first-out queue of at most `capacity` bytes, oldest
-- first, that takes a write whole or not at all.
use reechat_base.Base.{ℕ, ◌+◌, List, ◌++◌, length, Bool, true, false, leb, if◌then◌else◌}

abbrev pub ByteQueue : Type 0
ByteQueue = List ℕ

unfoldable pub append : ℕ → ByteQueue → List ℕ → ByteQueue × Bool
append capacity q bytes =
    if leb (length q + length bytes) capacity then (q ++ bytes, true) else (q, false)
