-- ===== src/SocketBuffer/Search/Found.antt =====
-- Where `FindCRLF` and `FindEOL` of socket_buffer.hpp point.
use reechat_base.Base.{
  ℕ, zero, suc, ◌+◌, ◌-◌, ◌≤◌, ◌<◌, ◌≡◌, ap, sym, ◌∙◌, true, false, inl, inr, Option, none, some,
  List, [], ◌∷◌, ◌==◌, if◌then◌else◌, length, slice, get_or, arith, Bool-cases, get_or-slice,
  length-slice,
}
use reechat_base.SocketBuffer.{SocketBuffer}
use reechat_base.SocketBuffer.Grow.{IsValid}
use reechat_base.SocketBuffer.Search.{
  k_crlf, starts_with, std_search, memchr, to_write_begin, find_crlf_from, find_eol_from,
}

-- A carriage return and a line feed at an index, or a line feed.
abbrev pub CrlfAt : List ℕ → ℕ → Type 0
CrlfAt xs j = (get_or xs j 0 ≡ 13) × (get_or xs (suc j) 0 ≡ 10)

abbrev pub EolAt : List ℕ → ℕ → Type 0
EolAt xs j = get_or xs j 0 ≡ 10

-- The first index from `start` on at which the property holds, of those at most `limit`.
abbrev pub First : (ℕ → Type 0) → ℕ → ℕ → Option ℕ → Type 0
First At start limit none = (j : ℕ) → start ≤ j → j < limit → ¬ At j
First At start limit (some i) =
    (start ≤ i) × (i < limit) × At i × ((j : ℕ) → start ≤ j → j < i → ¬ At j)

starts_with-crlf : (xs : List ℕ) → starts_with k_crlf xs ≡ true → CrlfAt xs 0
unfolding starts_with
starts_with-crlf [] h = cc
starts_with-crlf (x ∷ []) h = ground arith
starts_with-crlf (x ∷ y ∷ xs) h = ground arith

crlf-starts_with : (xs : List ℕ) → CrlfAt xs 0 → starts_with k_crlf xs ≡ true
unfolding starts_with
crlf-starts_with [] h = absurd (omega arith)
crlf-starts_with (x ∷ []) (h, k) = absurd (ground arith)
crlf-starts_with (x ∷ y ∷ xs) (h, k) = ground arith

-- What `std::search` returns is the first place, or the length.
std_search_bounds : (xs : List ℕ) → std_search k_crlf xs ≤ length xs
unfolding std_search
std_search_bounds [] = omega arith
std_search_bounds (x ∷ xs) = ground (arith, std_search_bounds xs)

std_search_at : (xs : List ℕ) → std_search k_crlf xs < length xs → CrlfAt xs (std_search k_crlf xs)
unfolding std_search
std_search_at [] h = absurd (omega arith)
std_search_at (x ∷ xs) h = elim (Bool-cases (starts_with k_crlf (x ∷ xs))) [
  | inl y ↦ rw y (starts_with-crlf (x ∷ xs) y)
  | inr n ↦ rw n (std_search_at xs (ground arith))
]

std_search_before : (xs : List ℕ) (j : ℕ) → j < std_search k_crlf xs → ¬ CrlfAt xs j
unfolding std_search
std_search_before [] j h c = omega arith
std_search_before (x ∷ xs) zero h c = let y = crlf-starts_with (x ∷ xs) c in ground arith
std_search_before (x ∷ xs) (suc j) h c = elim (Bool-cases (starts_with k_crlf (x ∷ xs))) [
  | inl y ↦ ground arith
  | inr n ↦ std_search_before xs j (ground arith) c
]

get_or_inside : (xs : List ℕ) (j : ℕ) → get_or xs j 0 ≡ 10 → j < length xs
get_or_inside [] j h = absurd (omega arith)
get_or_inside (x ∷ xs) zero h = omega arith
get_or_inside (x ∷ xs) (suc j) h = omega (arith, get_or_inside xs j h)

not_in_front :
    (x : ℕ) (xs : List ℕ) (limit : ℕ)
    → (x == 10) ≡ false
    → ((j : ℕ) → 0 ≤ j → j < limit → ¬ EolAt xs j)
    → (j : ℕ) → 0 ≤ j
    → j < suc limit
    → ¬ EolAt (x ∷ xs) j
not_in_front x xs limit n h zero _ lt at = ground arith
not_in_front x xs limit n h (suc j) _ lt at = h j (omega arith) (omega arith) at

-- What `memchr` returns is the first place.
memchr_lem : (xs : List ℕ) → First (EolAt xs) 0 (length xs) (memchr xs 10)
unfolding memchr
memchr_lem [] = λ j _ h. absurd (omega arith)
memchr_lem (x ∷ xs) = elim (Bool-cases (x == 10)) [
  | inl y ↦ rw y (omega arith, omega arith, ground arith, λ j _ h. absurd (omega arith))
  | inr n ↦ rw n (go n (memchr xs 10) (memchr_lem xs))
]
  where
    go :
        (x == 10) ≡ false
        → (o : Option ℕ) → First (EolAt xs) 0 (length xs) o
        → First
            (EolAt (x ∷ xs))
            0
            (suc (length xs))
            (elim o [ none ↦ none | some k ↦ some (suc k) ])
    go n none h = not_in_front x xs (length xs) n h
    go n (some k) (_, lt, at, before) = (omega arith, omega arith, at, not_in_front x xs k n before)

module _ {b : SocketBuffer} (v : IsValid b) (start : ℕ) (from : b.read_index ≤ start)
    (to : start ≤ b.write_index) where
  bytes_from : List ℕ
  bytes_from = slice b.buffer start (b.write_index - start)

  length-bytes_from : length bytes_from ≡ b.write_index - start
  unfolding bytes_from
  length-bytes_from =
      let storage = v.storage in
      let within = v.within in length-slice b.buffer start (b.write_index - start) (omega arith)

  to_write_begin_lem : to_write_begin b start ≡ some bytes_from
  unfolding to_write_begin bytes_from
  to_write_begin_lem = let storage = v.storage in let within = v.within in ground arith

  at_buffer :
      (j : ℕ) → j < b.write_index - start → get_or bytes_from j 0 ≡ get_or b.buffer (start + j) 0
  unfolding bytes_from
  at_buffer j h = get_or-slice b.buffer start (b.write_index - start) j 0 h

  -- A place in the array, as one in the bytes that are searched.
  at_bytes :
      (j : ℕ)
      → start ≤ j
      → j < b.write_index
      → get_or bytes_from (j - start) 0 ≡ get_or b.buffer j 0
  at_bytes j from_start h =
      at_buffer (j - start) (omega arith) ∙ ap (λ i. get_or b.buffer i 0) (omega arith)

  CrlfAt-bytes :
      (j : ℕ)
      → start ≤ j
      → suc j < b.write_index
      → CrlfAt b.buffer j
      → CrlfAt bytes_from (j - start)
  CrlfAt-bytes j from_start h (cr, lf) =
      let e : suc j - start ≡ suc (j - start) = omega arith in
      (at_bytes j from_start (omega arith) ∙ cr, rw e at (at_bytes (suc j) (omega arith) h ∙ lf))

  CrlfAt-buffer :
      (k : ℕ)
      → CrlfAt bytes_from k
      → CrlfAt b.buffer (start + k) × (suc (start + k) < b.write_index)
  CrlfAt-buffer k (cr, lf) =
      let inside = get_or_inside bytes_from (suc k) lf in
      let lt : suc k < b.write_index - start = omega (arith, length-bytes_from) in
      let e : start + suc k ≡ suc (start + k) = omega arith in
      (
        (sym (at_buffer k (omega arith)) ∙ cr, rw e at (sym (at_buffer (suc k) lt) ∙ lf)),
        omega arith,
      )

  First-crlf :
      (k : ℕ)
      → k ≤ b.write_index - start
      → (k < b.write_index - start → CrlfAt bytes_from k)
      → ((j : ℕ) → j < k → ¬ CrlfAt bytes_from j)
      → First
          (CrlfAt b.buffer)
          start
          (b.write_index - 1)
          (if (start + k) == b.write_index then none else some (start + k))
  First-crlf k le at before = elim (Bool-cases ((start + k) == b.write_index)) [
    | inl end ↦
        rw end (λ j f h c. before (j - start) (ground arith) (CrlfAt-bytes j f (omega arith) c))
    | inr inner ↦
        let (c, lt) = CrlfAt-buffer k (at (ground arith)) in
        rw inner (
          omega arith,
          omega arith,
          c,
          λ j f h c'. before (j - start) (omega arith) (CrlfAt-bytes j f (omega arith) c'),
        )
  ]

  -- `FindCRLF(start)`, with `start` among the unread bytes of a valid buffer or at their end, points
  -- to the first "\r\n" from there on that ends before `WriteBegin()`, and is null exactly if there is none.
  pub find_crlf_from_lem :
      (found : Option ℕ) × (find_crlf_from b start ≡ some found)
      × First (CrlfAt b.buffer) start (b.write_index - 1) found
  unfolding find_crlf_from
  find_crlf_from_lem =
      let k = std_search k_crlf bytes_from in
      (
        (if (start + k) == b.write_index then none else some (start + k)),
        ground (arith, to_write_begin_lem),
        First-crlf k (omega (arith, std_search_bounds bytes_from, length-bytes_from))
            (λ h. std_search_at bytes_from (omega (arith, length-bytes_from)))
            (λ j h. std_search_before bytes_from j h),
      )

  First-eol :
      (o : Option ℕ)
      → First (EolAt bytes_from) 0 (length bytes_from) o
      → First
          (EolAt b.buffer)
          start
          b.write_index
          (elim o [ none ↦ none | some k ↦ some (start + k) ])
  First-eol none h = λ j f lt at.
      h (j - start) (omega arith) (omega (arith, length-bytes_from)) (at_bytes j f lt ∙ at)
  First-eol (some k) (_, lt, at, before) =
      let inside : k < b.write_index - start = omega (arith, length-bytes_from) in
      (
        omega arith,
        omega arith,
        sym (at_buffer k inside) ∙ at,
        λ j f h e. before (j - start) (omega arith) (omega arith) (at_bytes j f (omega arith) ∙ e),
      )

  -- `FindEOL(start)`, with `start` among the unread bytes of a valid buffer or at their end, points
  -- to the first "\n" from there on and before `WriteBegin()`, and is null exactly if there is none.
  pub find_eol_from_lem :
      (found : Option ℕ) × (find_eol_from b start ≡ some found)
      × First (EolAt b.buffer) start b.write_index found
  unfolding find_eol_from
  find_eol_from_lem = (
    elim (memchr bytes_from 10) [ none ↦ none | some k ↦ some (start + k) ],
    ground (arith, to_write_begin_lem),
    First-eol (memchr bytes_from 10) (memchr_lem bytes_from),
  )
