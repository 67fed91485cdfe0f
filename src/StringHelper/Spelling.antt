-- ===== src/StringHelper/Spelling.antt =====
-- How a text falls into tokens and the delimiters around them.
use reechat_base.Base.{
  zero, suc, ◌<◌, Option, none, some, false, ap, arith, refl, ℕ, ◌+◌, ◌≡◌, Bool, true, not, List,
  [], ◌∷◌, ◌++◌, if◌then◌else◌,
}
use reechat_base.StringHelper.{ℤ, pos, negsuc, is_in, too_deep}

-- Every byte of the list has the property.
abbrev pub All : (ℕ → Bool) → List ℕ → Type 0
All p [] = Unit {0}
All p (c ∷ cs) = (p c ≡ true) × All p cs

pub data Nonempty : List ℕ → Type 0 where
  nonempty : (c : ℕ) (cs : List ℕ) → Nonempty (c ∷ cs)

-- A gap of delimiters and the token after it.
pub record Piece : Type 0 where
  pub gap : List ℕ
  pub token : List ℕ

unfoldable pub spell : List Piece → List ℕ → List ℕ
spell [] rest = rest
spell (p ∷ ps) rest = p.gap ++ (p.token ++ spell ps rest)

-- How many tokens are split off: no limit for a depth that is not positive.
unfoldable pub limit : ℤ → Option ℕ
limit (pos zero) = none
limit (pos (suc d)) = some (suc d)
limit (negsuc _) = none

-- The tokens under a limit: past it, one entry with the rest of the text as it stands.
unfoldable pub cut : Option ℕ → List Piece → List ℕ → List (List ℕ)
unfolding spell
cut l [] rest = []
cut none (p ∷ ps) rest = p.token ∷ cut none ps rest
cut (some zero) (p ∷ ps) rest = (p.token ++ spell ps rest) ∷ []
cut (some (suc n)) (p ∷ ps) rest = p.token ∷ cut (some n) ps rest

module _ (delimiters : List ℕ) where
  abbrev pub Gap : List ℕ → Type 0
  Gap cs = All (is_in delimiters) cs

  abbrev pub Token : List ℕ → Type 0
  Token cs = Nonempty cs × All (λ c. not (is_in delimiters c)) cs

  -- Gaps of delimiters, tokens of other bytes, and no two tokens that touch.
  pub data IsSpelling : List Piece → List ℕ → Type 0 where
    only : (rest : List ℕ) → Gap rest → IsSpelling [] rest
    last :
        (gap token rest : List ℕ)
        → Gap gap
        → Token token
        → Gap rest
        → IsSpelling (record { gap = gap; token = token } ∷ []) rest
    more :
        (gap token : List ℕ) (d : ℕ) (between token' : List ℕ) (ps : List Piece) (rest : List ℕ)
        → Gap gap
        → Token token
        → IsSpelling (record { gap = d ∷ between; token = token' } ∷ ps) rest
        → IsSpelling
            (record { gap = gap; token = token }
              ∷ record { gap = d ∷ between; token = token' }
              ∷ ps)
            rest

  -- One delimiter less in front.
  pub shorter :
      (d : ℕ) (between token : List ℕ) (ps : List Piece) (rest : List ℕ)
      → IsSpelling (record { gap = d ∷ between; token = token } ∷ ps) rest
      → (is_in delimiters d ≡ true) × IsSpelling (record { gap = between; token = token } ∷ ps) rest
  shorter d between token _ rest (last _ _ _ (isd, g) t r) = (isd, last between token rest g t r)
  shorter d between token _ rest (more _ _ d' between' token' ps _ (isd, g) t s) =
      (isd, more between token d' between' token' ps rest g t s)

  -- The tokens as the loop's count takes them.
  unfoldable pub counted : ℤ → ℕ → List Piece → List ℕ → List (List ℕ)
  unfolding spell too_deep
  counted deep count [] rest = []
  counted deep count (p ∷ ps) rest =
      if too_deep deep (count + 1)
      then (p.token ++ spell ps rest) ∷ []
      else p.token ∷ counted deep (count + 1) ps rest

  counted_unlimited :
      (deep : ℤ) (count : ℕ) (ps : List Piece) (rest : List ℕ)
      → ((c : ℕ) → too_deep deep c ≡ false)
      → counted deep count ps rest ≡ cut none ps rest
  unfolding cut counted
  counted_unlimited deep count [] rest h = refl
  counted_unlimited deep count (p ∷ ps) rest h =
      rw (h (count + 1)) (ap (◌∷◌ p.token) (counted_unlimited deep (count + 1) ps rest h))

  counted_limited :
      (d count n : ℕ) (ps : List Piece) (rest : List ℕ)
      → 0 < d
      → n + count ≡ d
      → counted (pos d) count ps rest ≡ cut (some n) ps rest
  unfolding cut counted too_deep
  counted_limited d count n [] rest p e = refl
  counted_limited d count zero (q ∷ ps) rest p e = ground arith
  counted_limited d count (suc n) (q ∷ ps) rest p e =
      ground (arith, counted_limited d (count + 1) n ps rest p)

  pub counted-cut :
      (deep : ℤ) (ps : List Piece) (rest : List ℕ)
      → counted deep 0 ps rest ≡ cut (limit deep) ps rest
  unfolding limit too_deep
  counted-cut (pos zero) ps rest = counted_unlimited (pos 0) 0 ps rest (λ c. refl)
  counted-cut (pos (suc d)) ps rest =
      counted_limited (suc d) 0 (suc d) ps rest (omega arith) (omega arith)
  counted-cut (negsuc n) ps rest = counted_unlimited (negsuc n) 0 ps rest (λ c. refl)
