-- ===== src/StringHelper/Splitting.antt =====
-- `stringtok` of src/string_helper.h against the spelling of the text.
use reechat_base.Base.{
  ℕ, zero, suc, ◌+◌, ◌-◌, ◌<◌, ◌≡◌, refl, ap, sym, ◌∙◌, Bool, true, false, not, none, some, List,
  [], ◌∷◌, ◌++◌, length, if◌then◌else◌, append_assoc, arith, append-nil, inl, inr, Bool-cases, take,
  drop, ltb, length-append, length-drop, take-append_left, drop-append_left, take-all, drop-all,
  drop-drop,
}
use reechat_base.StringHelper.{
  ℤ, is_in, too_deep, raise, find_if, find_from, find_first_of, find_first_not_of, push_token,
  tokenize_round, tokenize,
}
use reechat_base.StringHelper.Spelling.{
  All, Piece, spell, Gap, Token, IsSpelling, only, last, more, shorter, counted,
}

find_if-append :
    (p q : ℕ → Bool) (xs ys : List ℕ)
    → ((c : ℕ) → q c ≡ true → p c ≡ false)
    → All q xs
    → find_if p (xs ++ ys) ≡ raise (length xs) (find_if p ys)
unfolding find_if
find_if-append p q [] ys no_p h = elim (find_if p ys) as (λ o. o ≡ raise 0 o) [
  | none ↦ refl
  | some k ↦ ground arith
]
find_if-append p q (c ∷ xs) ys no_p (h, hs) = rw (no_p c h) (
    rw (find_if-append p q xs ys no_p hs)
      (elim (find_if p ys) as (λ o. raise 1 (raise (length xs) o) ≡ raise (suc (length xs)) o) [
        | none ↦ refl
        | some k ↦ ap some (omega arith)
      ]))

find_if-head : (p : ℕ → Bool) (c : ℕ) (cs : List ℕ) → p c ≡ true → find_if p (c ∷ cs) ≡ some 0
unfolding find_if
find_if-head p c cs h = rw h

find_if-none :
    (p q : ℕ → Bool) (xs : List ℕ)
    → ((c : ℕ) → q c ≡ true → p c ≡ false)
    → All q xs
    → find_if p xs ≡ none
unfolding find_if
find_if-none p q [] no_p h = refl
find_if-none p q (c ∷ xs) no_p (h, hs) = rw (no_p c h) (rw (find_if-none p q xs no_p hs))

take-length-append : (xs ys : List ℕ) → take (length xs) (xs ++ ys) ≡ xs
take-length-append xs ys =
    take-append_left (length xs) xs ys (omega arith) ∙ take-all (length xs) xs (omega arith)

drop-length-append : (xs ys : List ℕ) → drop (length xs) (xs ++ ys) ≡ ys
drop-length-append xs ys =
    drop-append_left (length xs) xs ys (omega arith)
    ∙ ap (λ l. l ++ ys) (drop-all (length xs) xs (omega arith))

module _ (delimiters text : List ℕ) (deep : ℤ) where
  -- The two searches of a round, at a gap, a token and what follows.
  start_found :
      (i : ℕ) (gap token after : List ℕ)
      → Gap delimiters gap
      → Token delimiters token
      → drop i text ≡ gap ++ (token ++ after)
      → find_first_not_of delimiters text i ≡ some (i + length gap)
  unfolding find_first_not_of find_from
  start_found i gap (c ∷ cs) after g (_, (t, ts)) e =
      rw
        (
          e,
          find_if-append (λ c. not (is_in delimiters c)) (is_in delimiters) gap (c ∷ cs ++ after)
              (λ c h. rw h) g,
          find_if-head (λ c. not (is_in delimiters c)) c (cs ++ after) t,
        )
        (ap some (omega arith))
  start_found i gap [] after g (n, t) e = elim n [ ]

  start_none :
      (i : ℕ) (rest : List ℕ)
      → Gap delimiters rest
      → drop i text ≡ rest
      → find_first_not_of delimiters text i ≡ none
  unfolding find_first_not_of find_from
  start_none i rest g e =
      rw (e, find_if-none (λ c. not (is_in delimiters c)) (is_in delimiters) rest (λ c h. rw h) g)

  end_found :
      (i : ℕ) (token after : List ℕ) (d : ℕ)
      → Token delimiters token
      → is_in delimiters d ≡ true
      → drop i text ≡ token ++ d ∷ after
      → find_first_of delimiters text i ≡ some (i + length token)
  unfolding find_first_of find_from
  end_found i token after d (_, t) isd e =
      rw
        (
          e,
          find_if-append (is_in delimiters) (λ c. not (is_in delimiters c)) token (d ∷ after)
              (λ c h. ground (arith, h)) t,
          find_if-head (is_in delimiters) d after isd,
        )
        (ap some (omega arith))

  end_none :
      (i : ℕ) (token : List ℕ)
      → Token delimiters token
      → drop i text ≡ token
      → find_first_of delimiters text i ≡ none
  unfolding find_first_of find_from
  end_none i token (_, t) e = rw (
    e,
    find_if-none (is_in delimiters) (λ c. not (is_in delimiters c)) token (λ c h. ground (arith, h))
        t,
  )

  -- The text at an index behind a prefix of what stands at `i`.
  drop_behind :
      (i : ℕ) (front after : List ℕ)
      → drop i text ≡ front ++ after
      → drop (i + length front) text ≡ after
  drop_behind i front after e =
      sym (drop-drop (length front) i text)
      ∙ ap (drop (length front)) e
      ∙ drop-length-append front after

  drop_after :
      (i : ℕ) (gap token : List ℕ) (d : ℕ) (after : List ℕ)
      → drop i text ≡ gap ++ (token ++ d ∷ after)
      → drop (i + length gap + length token + 1) text ≡ after
  drop_after i gap token d after e =
      drop_behind (i + length gap + length token) (d ∷ []) after
        (drop_behind (i + length gap) token (d ∷ after) (drop_behind i gap (token ++ d ∷ after) e))

  -- Text left over is what the loop's test sees.
  test_nonempty :
      (i : ℕ) (gap : List ℕ) (c : ℕ) (cs : List ℕ)
      → drop i text ≡ gap ++ c ∷ cs
      → ltb i (length text) ≡ true
  test_nonempty i gap c cs e =
      ground (arith, ap length e, length-drop i text, length-append gap (c ∷ cs))

  -- A round whose token ends the text.
  step_end :
      (fuel i count : ℕ) (container : List (List ℕ)) (gap token : List ℕ)
      → Gap delimiters gap
      → Token delimiters token
      → drop i text ≡ gap ++ token
      → tokenize (suc fuel) text delimiters deep i count container ≡ some (container ++ token ∷ [])
  unfolding tokenize tokenize_round push_token
  step_end fuel i count container gap [] g (n, _) e = elim n [ ]
  step_end fuel i count container gap (c ∷ cs) g t e =
      let e' = e ∙ ap (λ l. gap ++ l) (sym (append-nil (c ∷ cs))) in
      let behind = drop_behind i gap (c ∷ cs) e in
      let e1 = test_nonempty i gap c cs e in
      let e2 = start_found i gap (c ∷ cs) [] g t e' in
      let e3 = end_none (i + length gap) (c ∷ cs) t behind in ground arith

  -- A round whose token is followed by a delimiter.
  step_more :
      (fuel i count : ℕ) (container : List (List ℕ)) (gap token : List ℕ) (d : ℕ) (after : List ℕ)
      → Gap delimiters gap
      → Token delimiters token
      → is_in delimiters d ≡ true
      → drop i text ≡ gap ++ (token ++ d ∷ after)
      → tokenize (suc fuel) text delimiters deep i count container ≡ (
          if too_deep deep (count + 1)
          then some (container ++ (token ++ d ∷ after) ∷ [])
          else tokenize fuel text delimiters deep
              (i + length gap + length token + 1)
              (count + 1)
              (container ++ token ∷ []))
  unfolding tokenize tokenize_round push_token
  step_more fuel i count container gap [] d after g (n, _) isd e = elim n [ ]
  step_more fuel i count container gap (c ∷ cs) d after g t isd e =
      let behind = drop_behind i gap (c ∷ cs ++ d ∷ after) e in
      let span : i + length gap + length (c ∷ cs) - (i + length gap) ≡ length (c ∷ cs) =
        omega arith in
      let e1 = test_nonempty i gap c (cs ++ d ∷ after) e in
      let e2 = start_found i gap (c ∷ cs) (d ∷ after) g t e in
      let e3 = end_found (i + length gap) (c ∷ cs) after d t isd behind in
      elim (Bool-cases (too_deep deep (count + 1))) [
        | inl y ↦ ground arith
        | inr n ↦ ground (arith, take-length-append (c ∷ cs) (d ∷ after))
      ]

  -- The loop, from an index at which the text is spelled by the pieces.
  pub tokenize_lem :
      (fuel i count : ℕ) (container : List (List ℕ)) (ps : List Piece) (rest : List ℕ)
      → IsSpelling delimiters ps rest
      → drop i text ≡ spell ps rest
      → length (spell ps rest) < fuel
      → tokenize fuel text delimiters deep i count container
        ≡ some (container ++ counted delimiters deep count ps rest)
  unfolding tokenize tokenize_round counted spell
  tokenize_lem zero i count container ps rest s e f = absurd (omega arith)
  tokenize_lem (suc fuel) i count container _ rest (only _ g) e f =
      let none_left = start_none i rest g e in ground (arith, append-nil container)
  tokenize_lem (suc fuel) i count container _ _ (last gap token [] g t r) e f =
      let ended =
        step_end fuel i count container gap token g t (e ∙ ap (λ l. gap ++ l) (append-nil token)) in
      ground (arith, append-nil token)
  tokenize_lem (suc fuel) i count container _ _ (last gap token (d ∷ rest) g t (isd, r)) e f =
      let stepped = step_more fuel i count container gap token d rest g t isd e in
      let behind = drop_after i gap token d rest e in
      let ih =
        tokenize_lem fuel (i + length gap + length token + 1) (count + 1) (container ++ token ∷ [])
          [] rest (only rest r) behind
          (omega
            (arith, f, length-append gap (token ++ d ∷ rest), length-append token (d ∷ rest))) in
      ground (arith, append_assoc container (token ∷ []) [])
  tokenize_lem (suc fuel) i count container _ rest (more gap token d between token' ps _ g t s) e
        f =
      let (isd, s') = shorter delimiters d between token' ps rest s in
      let after : List ℕ = between ++ (token' ++ spell ps rest) in
      let stepped = step_more fuel i count container gap token d after g t isd e in
      let behind = drop_after i gap token d after e in
      let ih =
        tokenize_lem fuel (i + length gap + length token + 1) (count + 1) (container ++ token ∷ [])
          (record { gap = between; token = token' } ∷ ps) rest s' behind
          (omega
            (arith, f, length-append gap (token ++ d ∷ after), length-append token (d ∷ after))) in
      ground (
        arith,
        append_assoc container (token ∷ []) (
            counted delimiters deep (count + 1) (record { gap = between; token = token' } ∷ ps)
              rest),
      )
