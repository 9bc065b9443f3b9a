-- ===== src/Common/LikePattern.antt =====
-- common/string_pattern.cpp without the regular expressions: LIKE patterns, the literals that an
-- index can use of them, and trigrams. Texts and patterns are lists of bytes.
pub mod Suffixes
pub mod Matching
pub mod Literals
pub mod Trigrams
use vertex_db.Base.{
  ℕ, Text, Bool, true, false, not, ◌&&◌, ◌||◌, Option, none, some, List, [], ◌∷◌, ltb, ◌==◌,
  if◌then◌else◌, any, length,
}

abbrev pub is_empty : Text → Bool
is_empty [] = true
is_empty (a ∷ s) = false

-- `text.substr(i)` for each `i <= text.size()`
unfoldable pub suffixes : Text → List Text
suffixes [] = [] ∷ []
suffixes (a ∷ s) = (a ∷ s) ∷ suffixes s

-- matchLikeRec: the outer loop is the recursion on the pattern.
unfoldable pub match_like_rec : Text → Text → Bool
unfolding suffixes
match_like_rec text [] = is_empty text
match_like_rec text (c ∷ pattern) =
    if c == b'%'
    then (if is_empty pattern then true else any (λ s. match_like_rec s pattern) (suffixes text))
    else elim text [
      | [] ↦ false
      | a ∷ rest ↦ if not (c == b'_') && not (c == a) then false else match_like_rec rest pattern
    ]

-- matchLikePattern
unfoldable pub match_like_pattern : Text → Text → Bool
unfolding match_like_rec
match_like_pattern text pattern = match_like_rec text pattern

-- `text.find('%') == npos && text.find('_') == npos`
unfoldable pub is_wildcard_free : Text → Bool
is_wildcard_free [] = true
is_wildcard_free (a ∷ s) = not (a == b'%') && not (a == b'_') && is_wildcard_free s

-- `pattern.back() == c`, false for an empty pattern
unfoldable pub ends_with : Text → ℕ → Bool
ends_with [] c = false
ends_with (a ∷ []) c = a == c
ends_with (a ∷ b ∷ s) c = ends_with (b ∷ s) c

-- `pattern.substr(0, pattern.size() - 1)`
unfoldable pub drop_back : Text → Text
drop_back [] = []
drop_back (a ∷ []) = []
drop_back (a ∷ b ∷ s) = a ∷ drop_back (b ∷ s)

-- likePrefixLiteral
unfoldable pub like_prefix_literal : Text → Option Text
unfolding ends_with drop_back is_wildcard_free
like_prefix_literal pattern =
    if not (ends_with pattern b'%')
    then none
    else if is_empty (drop_back pattern) || not (is_wildcard_free (drop_back pattern))
    then none
    else some (drop_back pattern)

-- likeContainsLiteral
unfoldable pub like_contains_literal : Text → Option Text
unfolding ends_with drop_back is_wildcard_free
like_contains_literal [] = none
like_contains_literal (c ∷ rest) =
    if ltb (length (c ∷ rest)) 3 || not (c == b'%') || not (ends_with (c ∷ rest) b'%')
    then none
    else if is_empty (drop_back rest) || not (is_wildcard_free (drop_back rest))
    then none
    else some (drop_back rest)

-- The windows of three bytes, from the left.
unfoldable pub windows : Text → List Text
windows (a ∷ b ∷ c ∷ s) = (a ∷ b ∷ c ∷ []) ∷ windows (b ∷ c ∷ s)
windows _ = []

-- extractTrigrams
unfoldable pub extract_trigrams : Text → List Text
unfolding windows
extract_trigrams text =
    if ltb (length text) 3 then (if is_empty text then [] else text ∷ []) else windows text
