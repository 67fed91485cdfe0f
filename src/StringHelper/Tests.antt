-- ===== src/StringHelper/Tests.antt =====
-- Runs of src/string_helper.h: the text " ab c" and the delimiters of the default argument.
use reechat_base.Base.{ℕ, ◌≡◌, ◌++◌, refl, List, [], ◌∷◌, some}
use reechat_base.StringHelper.{pos, negsuc, default_delimiters, stringtok, avar, is_in}
use reechat_base.StringHelper.Spelling.{Piece, spell, IsSpelling, last, more, nonempty, cut, limit}
use reechat_base.StringHelper.Tokens.{stringtok-spell, stringtok-returns}

abbrev spaced : List ℕ
spaced = b' ' ∷ b'a' ∷ b'b' ∷ b' ' ∷ 9 ∷ b'c' ∷ 10 ∷ []

abbrev spaced_pieces : List Piece
spaced_pieces =
    record { gap = b' ' ∷ []; token = b'a' ∷ b'b' ∷ [] }
    ∷ record { gap = b' ' ∷ 9 ∷ []; token = b'c' ∷ [] }
    ∷ []

spaced_pieces-IsSpelling : IsSpelling default_delimiters spaced_pieces (10 ∷ [])
unfolding is_in
spaced_pieces-IsSpelling =
    more (b' ' ∷ []) (b'a' ∷ b'b' ∷ []) b' ' (9 ∷ []) (b'c' ∷ []) [] (10 ∷ []) (refl, tt)
      (nonempty b'a' (b'b' ∷ []), (refl, (refl, tt)))
      (last (b' ' ∷ 9 ∷ []) (b'c' ∷ []) (10 ∷ []) (refl, (refl, tt)) (nonempty b'c' [], (refl, tt))
        (refl, tt))

stringtok_all :
    stringtok [] spaced default_delimiters (pos 0) ≡ some ((b'a' ∷ b'b' ∷ []) ∷ (b'c' ∷ []) ∷ [])
unfolding stringtok
stringtok_all = refl

stringtok_deep :
    stringtok [] spaced default_delimiters (pos 1)
    ≡ some ((b'a' ∷ b'b' ∷ []) ∷ (b'c' ∷ 10 ∷ []) ∷ [])
unfolding stringtok
stringtok_deep = refl

stringtok_negative :
    stringtok [] (b'a' ∷ []) default_delimiters (negsuc 4) ≡ some ((b'a' ∷ []) ∷ [])
unfolding stringtok
stringtok_negative = refl

avar_run : avar (b'o' ∷ b'k' ∷ []) ≡ b'o' ∷ b'k' ∷ []
unfolding avar
avar_run = refl

-- The theorems at these examples.
stringtok-returns_example :
    (ps : List Piece) × (rest : List ℕ) × IsSpelling default_delimiters ps rest
    × (spell ps rest ≡ spaced)
    × (stringtok [] spaced default_delimiters (pos 1) ≡ some ([] ++ cut (limit (pos 1)) ps rest))
stringtok-returns_example = stringtok-returns default_delimiters [] spaced (pos 1)

stringtok-spell_example :
    stringtok [] (spell spaced_pieces (10 ∷ [])) default_delimiters (pos 1)
    ≡ some ([] ++ cut (limit (pos 1)) spaced_pieces (10 ∷ []))
stringtok-spell_example =
    stringtok-spell default_delimiters [] (pos 1) spaced_pieces (10 ∷ []) spaced_pieces-IsSpelling
