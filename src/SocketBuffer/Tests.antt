-- ===== src/SocketBuffer/Tests.antt =====
-- A buffer with three unread bytes behind a gap of four, and an empty one.
use reechat_base.Base.{
  ℕ, ◌+◌, ◌*◌, ◌≤◌, ◌≡◌, refl, List, [], ◌∷◌, ◌++◌, some, length, take, arith, replicate,
  length-replicate,
}
use reechat_base.Endian.{little}
use reechat_base.SocketBuffer.{SocketBuffer, write}
use reechat_base.SocketBuffer.Grow.{IsValid, unread, Allocates}
use reechat_base.SocketBuffer.Editing.{Holds, write_lem}
use reechat_base.SocketBuffer.Integers.RoundTrip.{
  append_record-read_record, append_record, read_record,
}
use reechat_base.SocketBuffer.Io.{read_from_fd, received, failed, count, error, read_from_fd_lem}

abbrev zeros : ℕ → List ℕ
zeros n = replicate n 0

zeros-Allocates : Allocates zeros
zeros-Allocates n = length-replicate n 0

abbrev buffer : SocketBuffer
buffer = record {
  buffer = 0 ∷ 0 ∷ 0 ∷ 0 ∷ 1 ∷ 2 ∷ 3 ∷ 0 ∷ [];
  capacity = 8;
  read_index = 4;
  write_index = 7;
  reserved_prepend_size = 4;
}

buffer-IsValid : IsValid buffer
buffer-IsValid = record {
  storage = refl;
  ordered = omega arith;
  within = omega arith;
  gap = omega arith;
  word = omega arith;
}

abbrev empty : SocketBuffer
empty = record buffer { write_index = 4 }

empty-IsValid : IsValid empty
empty-IsValid = record {
  storage = refl;
  ordered = omega arith;
  within = omega arith;
  gap = omega arith;
  word = omega arith;
}

buffer_unread : unread buffer ≡ 1 ∷ 2 ∷ 3 ∷ []
buffer_unread = refl

abbrev five : List ℕ
five = 11 ∷ 12 ∷ 13 ∷ 14 ∷ 15 ∷ []

-- The theorems at these examples.
write_lem_example :
    (c : SocketBuffer) × (write zeros buffer five 5 ≡ some c)
    × IsValid c
    × (unread c ≡ unread buffer ++ take 5 five)
    × (c.reserved_prepend_size ≡ buffer.reserved_prepend_size)
    × (c.capacity ≤ 2 * buffer.capacity + 5)
write_lem_example =
    write_lem zeros five 5 zeros-Allocates buffer-IsValid (omega arith) (omega arith)

read_from_fd_lem_example :
    ((c : SocketBuffer) × (read_from_fd zeros buffer (received five)
        ≡ some (c, count (length five)))
      × Holds c (unread buffer ++ five))
    × (read_from_fd zeros buffer (failed 11) ≡ some (buffer, error 11))
read_from_fd_lem_example =
    read_from_fd_lem zeros five 11 zeros-Allocates buffer-IsValid (omega arith) (omega arith)

append_record-read_record_example :
    (c d : SocketBuffer) × (append_record zeros little empty 1 2 3 4 ≡ some c)
    × (read_record little c ≡ some ((1, 2, 3, 4), d))
    × Holds d []
append_record-read_record_example =
    append_record-read_record zeros little 1 2 3 4 zeros-Allocates empty-IsValid refl (omega arith)
      (omega arith) (omega arith) (omega arith) (omega arith)
