-- ===== src/StringHelper.antt =====
-- src/string_helper.h: `stringtok` and `Avar`. A `std::string` is the list of its bytes, and an
-- index of it a number; `npos` is `none`.
use reechat_base.Base.{
  ℕ, zero, suc, ◌+◌, ◌-◌, Bool, true, false, not, ◌&&◌, ◌||◌, Option, none, some, List, [], ◌∷◌,
  ◌++◌, ltb, leb, ◌==◌, if◌then◌else◌, length, take, drop, replicate,
}
mod Spelling
mod Splitting
mod Tokens
mod Tests

-- `int`: `negsuc n` is -(n + 1).
pub data ℤ : Type 0 where
  pos : ℕ → ℤ
  negsuc : ℕ → ℤ

unfoldable pub is_in : List ℕ → ℕ → Bool
is_in [] c = false
is_in (d ∷ ds) c = c == d || is_in ds c

-- An index found in what starts at `n`.
abbrev pub raise : ℕ → Option ℕ → Option ℕ
raise n none = none
raise n (some k) = some (n + k)

-- Where the first byte with the property stands.
unfoldable pub find_if : (ℕ → Bool) → List ℕ → Option ℕ
find_if p [] = none
find_if p (c ∷ cs) = if p c then some 0 else raise 1 (find_if p cs)

-- The search from an index on.
unfoldable pub find_from : (ℕ → Bool) → List ℕ → ℕ → Option ℕ
unfolding find_if
find_from p text i = raise i (find_if p (drop i text))

unfoldable pub find_first_of : List ℕ → List ℕ → ℕ → Option ℕ
unfolding find_from is_in
find_first_of delimiters text i = find_from (is_in delimiters) text i

unfoldable pub find_first_not_of : List ℕ → List ℕ → ℕ → Option ℕ
unfolding find_from is_in
find_first_not_of delimiters text i = find_from (λ c. not (is_in delimiters c)) text i

-- `deep > 0 && count > deep`.
unfoldable pub too_deep : ℤ → ℕ → Bool
too_deep (pos deep) count = ltb 0 deep && ltb deep count
too_deep (negsuc _) count = false

-- How a round of the loop ends: it returns, or sets `i` and `count` for the next round.
pub data Round : Type 0 where
  returns : List (List ℕ) → Round
  continues : ℕ → ℕ → List (List ℕ) → Round

-- The end of a round whose token starts at `i`: the rest of the text, or the bytes up to `j`.
unfoldable pub push_token : List ℕ → ℤ → ℕ → ℕ → Option ℕ → List (List ℕ) → Round
unfolding too_deep
push_token text deep count i none container = returns (container ++ drop i text ∷ [])
push_token text deep count i (some j) container =
    if too_deep deep count
    then returns (container ++ drop i text ∷ [])
    else continues (j + 1) count (container ++ take (j - i) (drop i text) ∷ [])

-- The body of the loop.
unfoldable pub tokenize_round : List ℕ → List ℕ → ℤ → ℕ → ℕ → List (List ℕ) → Round
unfolding find_first_of find_first_not_of push_token
tokenize_round text delimiters deep i count container = elim (find_first_not_of delimiters text i) [
  | none ↦ returns container
  | some start ↦
      push_token text deep (count + 1) start (find_first_of delimiters text start) container
]

-- The loop `while (i < len)`; `none` means that the fuel ran out.
unfoldable pub tokenize : ℕ → List ℕ → List ℕ → ℤ → ℕ → ℕ → List (List ℕ) → Option (List (List ℕ))
unfolding tokenize_round
tokenize zero text delimiters deep i count container = none
tokenize (suc fuel) text delimiters deep i count container = elim (ltb i (length text)) [
  | false ↦ some container
  | true ↦ elim (tokenize_round text delimiters deep i count container) [
    | returns out ↦ some out
    | continues i' count' out ↦ tokenize fuel text delimiters deep i' count' out
  ]
]

-- One round for each byte at most, and one to see the end.
unfoldable pub stringtok : List (List ℕ) → List ℕ → List ℕ → ℤ → Option (List (List ℕ))
unfolding tokenize
stringtok container text delimiters deep =
    tokenize (length text + 1) text delimiters deep 0 0 container

abbrev pub default_delimiters : List ℕ
default_delimiters = b' ' ∷ 9 ∷ 10 ∷ []

-- `vsnprintf(buffer, size, …)`, whose format expands to `expanded`: as much as fits, then a NUL.
unfoldable pub vsnprintf : List ℕ → ℕ → List ℕ → List ℕ
vsnprintf buffer size expanded =
    let written = take (size - 1) expanded ++ 0 ∷ [] in written ++ drop (length written) buffer

-- A `std::string` made of a C string.
unfoldable pub until_nul : List ℕ → List ℕ
until_nul [] = []
until_nul (c ∷ cs) = if c == 0 then [] else c ∷ until_nul cs

unfoldable pub avar : List ℕ → List ℕ
unfolding vsnprintf until_nul
avar expanded = until_nul (vsnprintf (replicate 1024 0) 1024 expanded)
