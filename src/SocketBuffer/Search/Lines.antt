-- ===== src/SocketBuffer/Search/Lines.antt =====
-- Reading lines from the buffer of socket_buffer.hpp: `FindEOL`, `FindCRLF` and the calls that take a line out.
use reechat_base.Base.{
  ℕ, ◌+◌, ◌<◌, ◌≡◌, ◌≢◌, refl, ap, sym, ◌∙◌, subst, ◌⊎◌, none, some, List, [], ◌∷◌, ◌++◌, length,
  take, drop, arith, length-append, take-append_left, take-all, drop-append_left, drop-all,
  drop-drop,
}
use reechat_base.SocketBuffer.{SocketBuffer, peek, next}
use reechat_base.SocketBuffer.Grow.{IsValid, unread}
use reechat_base.SocketBuffer.Editing.{Holds, length-unread}
use reechat_base.SocketBuffer.Taking.{peek_lem, next_lem}
use reechat_base.SocketBuffer.Search.{
  k_crlf, starts_with, std_search, memchr, to_write_begin, find_crlf, find_crlf_from, find_eol,
  find_eol_from,
}

-- No line feed among the bytes.
abbrev pub Unbroken : List ℕ → Type 0
Unbroken [] = Unit {0}
Unbroken (c ∷ cs) = (c ≢ 10) × Unbroken cs

memchr-append :
    (line rest : List ℕ) → Unbroken line → memchr (line ++ 10 ∷ rest) 10 ≡ some (length line)
unfolding memchr
memchr-append [] rest h = refl
memchr-append (c ∷ line) rest (h, hs) = ground (arith, memchr-append line rest hs)

std_search-append :
    (line rest : List ℕ) → Unbroken line → std_search k_crlf (line ++ 13 ∷ 10 ∷ rest) ≡ length line
unfolding std_search starts_with
std_search-append [] rest h = refl
std_search-append (c ∷ []) rest (h, hs) = ground arith
std_search-append (c ∷ d ∷ line) rest (h, (h', hs)) =
    ground (arith, std_search-append (d ∷ line) rest (h', hs))

module _ {b : SocketBuffer} (v : IsValid b) where
  to_write_begin-unread : to_write_begin b b.read_index ≡ some (unread b)
  unfolding to_write_begin
  to_write_begin-unread =
      let storage = v.storage in let within = v.within in let ordered = v.ordered in ground arith

  -- What is taken out in front of a break of `gap` bytes, and behind it.
  line_taken :
      (line break rest : List ℕ)
      → unread b ≡ line ++ (break ++ rest)
      → (peek b (length line) ≡ some line) × Holds (next b (length line + length break)) rest
  line_taken line break rest e =
      let count = ap length e ∙ length-append line (break ++ rest) in
      let more = length-append break rest in
      let (found, _) = next_lem v (length line + length break) in
      (
        peek_lem v (length line) (omega arith)
            ∙ ap some (
                ap (take (length line)) e
                ∙ take-append_left (length line) line (break ++ rest) (omega arith)
                ∙ take-all (length line) line (omega arith)),
        subst (Holds (next b (length line + length break)))
            (sym (drop-drop (length break) (length line) (unread b))
              ∙ ap (λ l. drop (length break) (drop (length line) l)) e
              ∙ ap (drop (length break)) (
                  drop-append_left (length line) line (break ++ rest) (omega arith)
                  ∙ ap (λ l. l ++ (break ++ rest)) (drop-all (length line) line (omega arith)))
              ∙ drop-append_left (length break) break rest (omega arith)
              ∙ ap (λ l. l ++ rest) (drop-all (length break) break (omega arith)))
            (found (omega arith)),
      )

  -- If the unread bytes of a valid buffer are a line without "\n", a "\n" and more, `FindEOL` points
  -- behind the line, the bytes from `data()` to there are the line, and `Next` over it and its "\n" leaves the rest.
  pub find_eol-next :
      (line rest : List ℕ)
      → unread b ≡ line ++ 10 ∷ rest
      → Unbroken line
      → (find_eol b ≡ some (some (b.read_index + length line)))
        × (peek b (length line) ≡ some line)
        × Holds (next b (length line + 1)) rest
  unfolding find_eol
  find_eol-next line rest e h =
      let (front, back) = line_taken line (10 ∷ []) rest e in
      (rw (to_write_begin-unread, e, memchr-append line rest h), front, back)

  -- If the unread bytes of a valid buffer are a line without "\n", a "\r\n" and more, `FindCRLF` points
  -- behind the line, the bytes from `data()` to there are the line, and `Next` over it and its "\r\n" leaves
  -- the rest.
  pub find_crlf-next :
      (line rest : List ℕ)
      → unread b ≡ line ++ 13 ∷ 10 ∷ rest
      → Unbroken line
      → (find_crlf b ≡ some (some (b.read_index + length line)))
        × (peek b (length line) ≡ some line)
        × Holds (next b (length line + 2)) rest
  unfolding find_crlf
  find_crlf-next line rest e h =
      let (front, back) = line_taken line (13 ∷ 10 ∷ []) rest e in
      let count = ap length e ∙ length-append line (13 ∷ 10 ∷ rest) in
      let size = length-unread v in
      let bytes = to_write_begin-unread in
      let searched = ap (std_search k_crlf) e ∙ std_search-append line rest h in
      (ground arith, front, back)

  -- `FindCRLF(start)` and `FindEOL(start)` fail their asserts if `start` is not among the unread bytes or at their end.
  pub find_from_outside :
      (start : ℕ)
      → (start < b.read_index) ⊎ (b.write_index < start)
      → (find_crlf_from b start ≡ none) × (find_eol_from b start ≡ none)
  unfolding find_crlf_from find_eol_from
  find_from_outside start h = (ground arith, ground arith)
