-- ===== src/RingBuffer/Threads.antt =====
-- One writer thread in `WriteContent` and one reader thread in `AvailableSeriesRead`,
-- `CurrentSeriesReadHead`, `ConsumeSeriesReadLen`, interleaved at their accesses of the shared
-- atomic counters. The copy of the bytes is a step of its own: the reader may run before and
-- after it. `sent` and `received` record what went in and came out.
pub mod Invariant
pub mod Steps
use reechat_base.Base.{ℕ, ◌≤◌, ◌≡◌, List, [], ◌++◌, some, length, take, false, ltb, sub32, add32}
use reechat_base.RingBuffer.{
  RingBuffer, content_size, copy_in, available_series_read, current_series_read_head, load,
  consume_series_read_len,
}

-- Where the writer is: outside, past the test of the free space, or past the copy.
pub data Writer : Type 0 where
  resting : Writer
  checked : List ℕ → ℕ → Writer
  copied : List ℕ → ℕ → Writer

-- Where the reader is: outside, past `AvailableSeriesRead`, or with bytes in hand.
pub data Reader : Type 0 where
  waiting : Reader
  sized : ℕ → Reader
  loaded : List ℕ → Reader

pub record Threads : Type 0 where
  pub ring : RingBuffer
  pub writer : Writer
  pub reader : Reader
  pub sent : List ℕ
  pub received : List ℕ

pub data Step (s t : Threads) : Type 0 where
  check :
      (content : List ℕ) (len : ℕ)
      → s.writer ≡ resting
      → len ≤ length content
      → ltb (sub32 s.ring.capacity (content_size s.ring)) len ≡ false
      → t ≡ record s { writer = checked content len }
      → Step s t
  copy :
      (content : List ℕ) (len : ℕ) (arr : List ℕ)
      → s.writer ≡ checked content len
      → copy_in s.ring content len ≡ some arr
      → t ≡ record s { ring = record s.ring { data_arr = arr }; writer = copied content len }
      → Step s t
  publish :
      (content : List ℕ) (len : ℕ)
      → s.writer ≡ copied content len
      → t ≡ record s {
        ring = record s.ring { write_count = add32 s.ring.write_count len };
        writer = resting;
        sent = s.sent ++ take len content;
      }
      → Step s t
  size :
      (n : ℕ)
      → s.reader ≡ waiting
      → available_series_read s.ring ≡ some n
      → t ≡ record s { reader = sized n }
      → Step s t
  fetch :
      (n m : ℕ) (bytes : List ℕ)
      → s.reader ≡ sized n
      → m ≤ n
      → load s.ring (current_series_read_head s.ring) m ≡ some bytes
      → t ≡ record s { reader = loaded bytes }
      → Step s t
  release :
      (bytes : List ℕ) (k : ℕ) (ring : RingBuffer)
      → s.reader ≡ loaded bytes
      → k ≤ length bytes
      → consume_series_read_len s.ring k ≡ some ring
      → t ≡ record s { ring = ring; reader = waiting; received = s.received ++ take k bytes }
      → Step s t

pub data Reach (s : Threads) : Threads → Type 0 where
  here : Reach s s
  next : {t u : Threads} → Reach s t → Step t u → Reach s u

-- Both threads outside, and nothing written yet.
abbrev pub start : RingBuffer → Threads
start ring = record { ring = ring; writer = resting; reader = waiting; sent = []; received = [] }
