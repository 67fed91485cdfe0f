-- ===== src/StringHelper/Tokens.antt =====
-- What `stringtok` and `Avar` of src/string_helper.h return for every text.
use reechat_base.Base.{
  zero, suc, ℕ, zero, suc, ◌+◌, ◌<◌, ◌≤◌, ◌≡◌, refl, ap, subst, ◌∙◌, true, false, not, some, List,
  [], ◌∷◌, ◌++◌, length, arith, inl, inr, Bool-cases, take, drop, ◌==◌, append_assoc, replicate,
}
use reechat_base.StringHelper.{ℤ, pos, is_in, stringtok, until_nul, vsnprintf, avar}
use reechat_base.StringHelper.Spelling.{
  All, nonempty, Piece, spell, IsSpelling, only, last, more, cut, limit, counted-cut,
}
use reechat_base.StringHelper.Splitting.{tokenize_lem}

module _ (delimiters : List ℕ) where
  -- The gaps and tokens of a text.
  record Spelled (text : List ℕ) : Type 0 where
    pieces : List Piece
    rest : List ℕ
    is_spelling : IsSpelling delimiters pieces rest
    spelled : spell pieces rest ≡ text

  delimiter_before :
      (c : ℕ) (text : List ℕ) (ps : List Piece) (rest : List ℕ)
      → is_in delimiters c ≡ true
      → IsSpelling delimiters ps rest
      → spell ps rest ≡ text
      → Spelled (c ∷ text)
  unfolding spell
  delimiter_before c text _ rest h (only _ g) e = record {
    pieces = [];
    rest = c ∷ rest;
    is_spelling = only (c ∷ rest) (h, g);
    spelled = ap (◌∷◌ c) e;
  }
  delimiter_before c text _ rest h (last gap token _ g t r) e = record {
    pieces = record { gap = c ∷ gap; token = token } ∷ [];
    rest = rest;
    is_spelling = last (c ∷ gap) token rest (h, g) t r;
    spelled = ap (◌∷◌ c) e;
  }
  delimiter_before c text _ rest h (more gap token d b t' ps _ g t s) e = record {
    pieces = record { gap = c ∷ gap; token = token } ∷ record { gap = d ∷ b; token = t' } ∷ ps;
    rest = rest;
    is_spelling = more (c ∷ gap) token d b t' ps rest (h, g) t s;
    spelled = ap (◌∷◌ c) e;
  }

  token_before :
      (c : ℕ) (text : List ℕ) (ps : List Piece) (rest : List ℕ)
      → is_in delimiters c ≡ false
      → IsSpelling delimiters ps rest
      → spell ps rest ≡ text
      → Spelled (c ∷ text)
  unfolding spell
  token_before c text _ rest h (only _ g) e = record {
    pieces = record { gap = []; token = c ∷ [] } ∷ [];
    rest = rest;
    is_spelling = last [] (c ∷ []) rest tt (nonempty c [], (rw h, tt)) g;
    spelled = ap (◌∷◌ c) e;
  }
  token_before c text _ rest h (last [] token _ g (n, t) r) e = record {
    pieces = record { gap = []; token = c ∷ token } ∷ [];
    rest = rest;
    is_spelling = last [] (c ∷ token) rest tt (nonempty c token, (rw h, t)) r;
    spelled = ap (◌∷◌ c) e;
  }
  token_before c text _ rest h (last (d ∷ gap) token _ g t r) e = record {
    pieces = record { gap = []; token = c ∷ [] } ∷ record { gap = d ∷ gap; token = token } ∷ [];
    rest = rest;
    is_spelling =
        more [] (c ∷ []) d gap token [] rest tt (nonempty c [], (rw h, tt))
          (last (d ∷ gap) token rest g t r);
    spelled = ap (◌∷◌ c) e;
  }
  token_before c text _ rest h (more [] token d b t' ps _ g (n, t) s) e = record {
    pieces = record { gap = []; token = c ∷ token } ∷ record { gap = d ∷ b; token = t' } ∷ ps;
    rest = rest;
    is_spelling = more [] (c ∷ token) d b t' ps rest tt (nonempty c token, (rw h, t)) s;
    spelled = ap (◌∷◌ c) e;
  }
  token_before c text _ rest h (more (d' ∷ gap) token d b t' ps _ g t s) e = record {
    pieces =
        record { gap = []; token = c ∷ [] }
        ∷ record { gap = d' ∷ gap; token = token }
        ∷ record { gap = d ∷ b; token = t' }
        ∷ ps;
    rest = rest;
    is_spelling =
        more [] (c ∷ []) d' gap token (record { gap = d ∷ b; token = t' } ∷ ps) rest tt
          (nonempty c [], (rw h, tt)) (more (d' ∷ gap) token d b t' ps rest g t s);
    spelled = ap (◌∷◌ c) e;
  }

  Spelled-every : (text : List ℕ) → Spelled text
  unfolding spell
  Spelled-every [] = record { pieces = []; rest = []; is_spelling = only [] tt; spelled = refl }
  Spelled-every (c ∷ text) =
      let r = Spelled-every text in
      elim (Bool-cases (is_in delimiters c)) [
        | inl h ↦ delimiter_before c text r.pieces r.rest h r.is_spelling r.spelled
        | inr h ↦ token_before c text r.pieces r.rest h r.is_spelling r.spelled
      ]

  -- `stringtok` of a text that gaps of delimiters and non-empty tokens spell, in this order and with
  -- no two tokens touching, appends to the container the tokens, for any `deep`: all of them
  -- where `deep` is not positive, and otherwise the first `deep` and then, where there are more, one
  -- last entry with the rest of the text from the next token on, delimiters included.
  pub stringtok-spell :
      (container : List (List ℕ)) (deep : ℤ) (ps : List Piece) (rest : List ℕ)
      → IsSpelling delimiters ps rest
      → stringtok container (spell ps rest) delimiters deep
        ≡ some (container ++ cut (limit deep) ps rest)
  unfolding stringtok
  stringtok-spell container deep ps rest s =
      tokenize_lem delimiters (spell ps rest) deep (length (spell ps rest) + 1) 0 0 container ps
        rest s refl (omega arith)
      ∙ ap (λ l. some (container ++ l)) (counted-cut delimiters deep ps rest)

  -- `stringtok` ends on every text, within one round for each byte and one more: there are
  -- gaps and tokens that spell the text, and it returns the container with their tokens appended,
  -- cut off at the depth.
  pub stringtok-returns :
      (container : List (List ℕ)) (text : List ℕ) (deep : ℤ)
      → (ps : List Piece) × (rest : List ℕ) × IsSpelling delimiters ps rest
        × (spell ps rest ≡ text)
        × (stringtok container text delimiters deep ≡ some (container ++ cut (limit deep) ps rest))
  stringtok-returns container text deep =
      let r = Spelled-every text in
      (
        r.pieces,
        r.rest,
        r.is_spelling,
        r.spelled,
        subst
            (λ t.
              stringtok container t delimiters deep
              ≡ some (container ++ cut (limit deep) r.pieces r.rest))
            r.spelled (stringtok-spell container deep r.pieces r.rest r.is_spelling),
      )

  length-cut : (n : ℕ) (ps : List Piece) (rest : List ℕ) → length (cut (some n) ps rest) ≤ n + 1
  unfolding cut
  length-cut n [] rest = omega arith
  length-cut zero (q ∷ ps) rest = omega arith
  length-cut (suc n) (q ∷ ps) rest = omega (arith, length-cut n ps rest)

  -- With a positive `deep`, `stringtok` on an empty container returns at most `deep + 1` strings.
  pub stringtok-le-deep :
      (text : List ℕ) (deep : ℕ)
      → 0 < deep
      → (tokens : List (List ℕ)) × (stringtok [] text delimiters (pos deep) ≡ some tokens)
        × (length tokens ≤ deep + 1)
  unfolding limit
  stringtok-le-deep text zero p = absurd (omega arith)
  stringtok-le-deep text (suc d) p =
      let (ps, rest, _, _, e) = stringtok-returns [] text (pos (suc d)) in
      (cut (some (suc d)) ps rest, e, length-cut (suc d) ps rest)

-- Bytes with no NUL among them.
abbrev pub NulFree : List ℕ → Type 0
NulFree cs = All (λ c. not (c == 0)) cs

until_nul-append : (cs after : List ℕ) → NulFree cs → until_nul (cs ++ 0 ∷ after) ≡ cs
unfolding until_nul
until_nul-append [] after h = refl
until_nul-append (c ∷ cs) after (h, hs) = ground (arith, until_nul-append cs after hs)

take-NulFree : (n : ℕ) (cs : List ℕ) → NulFree cs → NulFree (take n cs)
take-NulFree zero cs h = tt
take-NulFree (suc n) [] h = tt
take-NulFree (suc n) (c ∷ cs) (h, hs) = (h, take-NulFree n cs hs)

-- `Avar` returns what its format expands to, where that has no NUL, cut off after 1023 bytes.
pub avar_lem : (expanded : List ℕ) → NulFree expanded → avar expanded ≡ take 1023 expanded
unfolding avar vsnprintf
avar_lem expanded h =
    let front : List ℕ = take 1023 expanded in
    let rest : List ℕ = drop (length (front ++ 0 ∷ [])) (replicate 1024 0) in
    ap until_nul (append_assoc front (0 ∷ []) rest)
    ∙ until_nul-append front rest (take-NulFree 1023 expanded h)
