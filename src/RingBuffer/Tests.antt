-- ===== src/RingBuffer/Tests.antt =====
-- Ring buffers whose counters are about to wrap, and runs of the two threads on one.
use reechat_base.Base.{
  ℕ, ◌-◌, ◌≤◌, ◌≡◌, refl, List, [], ◌∷◌, ◌++◌, some, Bool, length, take, drop, min, arith, memcpy,
}
use reechat_base.ByteQueue
use reechat_base.RingBuffer.{
  RingBuffer, write_content, available_series_read, current_series_read_head,
  consume_series_read_len, current_series_write_head, load, copy_in,
}
use reechat_base.RingBuffer.Geometry.{IsValid}
use reechat_base.RingBuffer.Contents.{contents}
use reechat_base.RingBuffer.Series.{write_content_refines}
use reechat_base.RingBuffer.Api.{read_series, Reach-copy_in, Reach-load}
use reechat_base.RingBuffer.Threads.{
  Threads, resting, checked, copied, sized, check, copy, publish, size, Reach, here, next, start,
}
use reechat_base.RingBuffer.Threads.Steps.{Reach-ledger}

abbrev array : List ℕ
array = 1 ∷ 2 ∷ 3 ∷ 4 ∷ 5 ∷ 6 ∷ 7 ∷ 8 ∷ []

-- Two bytes are held, at the indices 5 and 6.
abbrev ring : RingBuffer
ring = record {
  capacity = 8;
  max_index = 7;
  data_arr = array;
  read_count = 4294967293;
  write_count = 4294967295;
}

ring-IsValid : IsValid ring
ring-IsValid = record {
  bits = 3;
  bits_small = omega arith;
  power = refl;
  mask = refl;
  storage = refl;
  read_word = omega arith;
  write_word = omega arith;
  fits = omega arith;
}

abbrev empty : RingBuffer
empty = record ring { read_count = 4294967295 }

empty-IsValid : IsValid empty
empty-IsValid = record {
  bits = 3;
  bits_small = omega arith;
  power = refl;
  mask = refl;
  storage = refl;
  read_word = omega arith;
  write_word = omega arith;
  fits = omega arith;
}

abbrev content : List ℕ
content = 91 ∷ 92 ∷ 93 ∷ 94 ∷ []

abbrev wrapped_array : List ℕ
wrapped_array = 92 ∷ 2 ∷ 3 ∷ 4 ∷ 5 ∷ 6 ∷ 7 ∷ 91 ∷ []

ring_contents : contents ring ≡ 6 ∷ 7 ∷ []
ring_contents = refl

-- The copy runs round the end of the array.
copy_wraps : copy_in ring (91 ∷ 92 ∷ []) 2 ≡ some wrapped_array
unfolding copy_in memcpy
copy_wraps = refl

abbrev at_check : Threads
at_check = record (start empty) { writer = checked (91 ∷ 92 ∷ []) 2 }

abbrev at_copy : Threads
at_copy = record at_check {
  ring = record empty { data_arr = wrapped_array };
  writer = copied (91 ∷ 92 ∷ []) 2;
}

abbrev at_publish : Threads
at_publish = record at_copy {
  ring = record empty { data_arr = wrapped_array; write_count = 1 };
  writer = resting;
  sent = 91 ∷ 92 ∷ [];
}

abbrev at_size : Threads
at_size = record at_publish { reader = sized 1 }

check_run : Reach (start empty) at_check
check_run = next here (check (91 ∷ 92 ∷ []) 2 refl (omega arith) refl refl)

publish_run : Reach (start empty) at_publish
unfolding copy_in memcpy
publish_run =
    next (next check_run (copy (91 ∷ 92 ∷ []) 2 wrapped_array refl refl refl))
      (publish (91 ∷ 92 ∷ []) 2 refl refl)

size_run : Reach (start empty) at_size
unfolding available_series_read
size_run = next publish_run (size 1 refl refl refl)

abbrev one_byte : List ℕ
one_byte = 91 ∷ []

two_in_series : 2 ≤ min (length (contents ring)) (ring.capacity - current_series_read_head ring)
unfolding current_series_read_head
two_in_series = omega arith

one_fits :
    length one_byte
    ≤ min (ring.capacity - length (contents ring)) (ring.capacity - current_series_write_head ring)
unfolding current_series_write_head
one_fits = omega arith

-- The theorems at these examples.
write_content_refines_example :
    (r' : RingBuffer) × (done : Bool) × (write_content ring content 4 ≡ some (r', done))
    × ((contents r', done) ≡ ByteQueue.append ring.capacity (contents ring) (take 4 content))
    × IsValid r'
    × (r'.capacity ≡ ring.capacity)
write_content_refines_example = write_content_refines content 4 ring-IsValid (omega arith)

Reach-ledger_example : at_publish.sent ≡ at_publish.received ++ contents at_publish.ring
Reach-ledger_example = Reach-ledger empty-IsValid refl publish_run

Reach-copy_in_example : (arr : List ℕ) × (copy_in at_check.ring (91 ∷ 92 ∷ []) 2 ≡ some arr)
Reach-copy_in_example = Reach-copy_in (91 ∷ 92 ∷ []) 2 empty-IsValid refl check_run refl

Reach-load_example :
    (bytes : List ℕ) × (load at_size.ring (current_series_read_head at_size.ring) 1 ≡ some bytes)
Reach-load_example = Reach-load 1 1 empty-IsValid refl size_run refl (omega arith)

read_series_example :
    (r' : RingBuffer) × (available_series_read ring
      ≡ some (min (length (contents ring)) (ring.capacity - current_series_read_head ring)))
    × (load ring (current_series_read_head ring) 2 ≡ some (take 2 (contents ring)))
    × (consume_series_read_len ring 2 ≡ some r')
    × (contents r' ≡ drop 2 (contents ring))
    × IsValid r'
    × (r'.capacity ≡ ring.capacity)
read_series_example = read_series 2 ring-IsValid two_in_series
