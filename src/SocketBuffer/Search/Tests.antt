-- ===== src/SocketBuffer/Search/Tests.antt =====
-- A buffer that holds two lines: the bytes 5 and 6 with "\n", and 7 with "\r\n".
use reechat_base.Base.{ℕ, ◌+◌, ◌≡◌, refl, List, [], ◌∷◌, some, length, arith}
use reechat_base.SocketBuffer.{SocketBuffer, peek, next}
use reechat_base.SocketBuffer.Grow.{IsValid}
use reechat_base.SocketBuffer.Editing.{Holds}
use reechat_base.SocketBuffer.Search.{find_eol, find_crlf}
use reechat_base.SocketBuffer.Search.Lines.{Unbroken, find_eol-next}

abbrev two_lines : SocketBuffer
two_lines = record {
  buffer = 0 ∷ 5 ∷ 6 ∷ 10 ∷ 7 ∷ 13 ∷ 10 ∷ 0 ∷ [];
  capacity = 8;
  read_index = 1;
  write_index = 7;
  reserved_prepend_size = 1;
}

two_lines-IsValid : IsValid two_lines
two_lines-IsValid = record {
  storage = refl;
  ordered = omega arith;
  within = omega arith;
  gap = omega arith;
  word = omega arith;
}

abbrev second_line : List ℕ
second_line = 7 ∷ 13 ∷ 10 ∷ []

abbrev first_line : List ℕ
first_line = 5 ∷ 6 ∷ []

first_line-Unbroken : Unbroken first_line
first_line-Unbroken = ((λ e. omega arith), ((λ e. omega arith), tt))

second_crlf : find_crlf two_lines ≡ some (some 5)
unfolding find_crlf
second_crlf = refl

-- The theorems at these examples.
find_eol-next_example :
    (find_eol two_lines ≡ some (some (two_lines.read_index + length first_line)))
    × (peek two_lines (length first_line) ≡ some first_line)
    × Holds (next two_lines (length first_line + 1)) second_line
find_eol-next_example =
    find_eol-next two_lines-IsValid first_line second_line refl first_line-Unbroken
