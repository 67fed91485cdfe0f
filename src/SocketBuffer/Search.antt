-- ===== src/SocketBuffer/Search.antt =====
-- `FindCRLF` and `FindEOL` of socket_buffer.hpp. A pointer into the array is its index there, a null
-- pointer the inner `none`; the outer one is a failed `assert` or an access outside the array.
pub mod Found
pub mod Lines
mod Tests
use reechat_base.Base.{
  ℕ, suc, ◌+◌, ◌-◌, Bool, true, false, ◌&&◌, Option, none, some, List, [], ◌∷◌, leb, ◌==◌,
  if◌then◌else◌, length, slice, require, ◌>>=◌, ◌>>◌,
}
use reechat_base.SocketBuffer.{SocketBuffer}

abbrev pub k_crlf : List ℕ
k_crlf = 13 ∷ 10 ∷ []

unfoldable pub starts_with : List ℕ → List ℕ → Bool
starts_with [] xs = true
starts_with (p ∷ ps) [] = false
starts_with (p ∷ ps) (x ∷ xs) = p == x && starts_with ps xs

-- `std::search`: where the pattern starts first, or the end.
unfoldable pub std_search : List ℕ → List ℕ → ℕ
unfolding starts_with
std_search pattern_ [] = 0
std_search pattern_ (x ∷ xs) =
    if starts_with pattern_ (x ∷ xs) then 0 else suc (std_search pattern_ xs)

-- `memchr`: where the byte stands first, if it does.
unfoldable pub memchr : List ℕ → ℕ → Option ℕ
memchr [] c = none
memchr (x ∷ xs) c =
    if x == c then some 0 else elim (memchr xs c) [ none ↦ none | some k ↦ some (suc k) ]

-- `WriteBegin()`
abbrev pub write_begin : SocketBuffer → ℕ
write_begin b = b.write_index

-- The bytes from `start` to `WriteBegin()`.
unfoldable pub to_write_begin : SocketBuffer → ℕ → Option (List ℕ)
to_write_begin b start = do
  require (leb start (write_begin b))
  require (leb (write_begin b) (length b.buffer))
  some (slice b.buffer start (write_begin b - start))

-- `FindCRLF()` and `FindCRLF(start)`.
unfoldable pub find_crlf : SocketBuffer → Option (Option ℕ)
unfolding std_search to_write_begin
find_crlf b = do
  bytes ← to_write_begin b b.read_index
  let crlf = b.read_index + std_search k_crlf bytes
  some (if crlf == write_begin b then none else some crlf)

unfoldable pub find_crlf_from : SocketBuffer → ℕ → Option (Option ℕ)
unfolding std_search to_write_begin
find_crlf_from b start = do
  require (leb b.read_index start)
  require (leb start (write_begin b))
  bytes ← to_write_begin b start
  let crlf = start + std_search k_crlf bytes
  some (if crlf == write_begin b then none else some crlf)

-- `FindEOL()` and `FindEOL(start)`.
unfoldable pub find_eol : SocketBuffer → Option (Option ℕ)
unfolding memchr to_write_begin
find_eol b = do
  bytes ← to_write_begin b b.read_index
  some (elim (memchr bytes 10) [ none ↦ none | some k ↦ some (b.read_index + k) ])

unfoldable pub find_eol_from : SocketBuffer → ℕ → Option (Option ℕ)
unfolding memchr to_write_begin
find_eol_from b start = do
  require (leb b.read_index start)
  require (leb start (write_begin b))
  bytes ← to_write_begin b start
  some (elim (memchr bytes 10) [ none ↦ none | some k ↦ some (start + k) ])
