-- ===== src/Examples/Texts.antt =====
-- Values, LIKE patterns and tokens.
use vertex_db.Base.{◌≡◌, refl, true, some, [], ◌∷◌, ◌++◌, arith, Text, text_eq, length, ◌↔◌}
use vertex_db.Common.LikePattern.{
  match_like_pattern, like_prefix_literal, like_contains_literal, extract_trigrams, windows,
  is_wildcard_free, ends_with, drop_back,
}
use vertex_db.Common.LikePattern.Suffixes.{starts_with, contains}
use vertex_db.Common.LikePattern.Matching.{Matches, match_like_pattern-Matches}
use vertex_db.Common.LikePattern.Literals.{
  like_prefix_literal-starts_with, like_contains_literal-contains,
}
use vertex_db.Common.LikePattern.Trigrams.{has_gram, extract_trigrams-contains}
use vertex_db.Parser.Tokenizer.{
  string as string_token, start, make_token, cons_token, tokenize_loop, tokenize,
}
use vertex_db.Parser.Tokenizer.Literals.{string_literal, advance_all, tokenize_loop-string_literal}
use vertex_db.Parser.Tokenizer.Offsets.{Located, tokenize-Located}

abbrev abcd : Text
abcd = 97 ∷ 98 ∷ 99 ∷ 100 ∷ []

abbrev abc : Text
abc = 97 ∷ 98 ∷ 99 ∷ []

-- "abc%" and "%abc%"
abbrev prefix_pattern : Text
prefix_pattern = 97 ∷ 98 ∷ 99 ∷ 37 ∷ []

abbrev contains_pattern : Text
contains_pattern = 37 ∷ 97 ∷ 98 ∷ 99 ∷ 37 ∷ []

match_like_pattern-Matches_example :
    (match_like_pattern abcd prefix_pattern ≡ true) ↔ Matches abcd prefix_pattern
match_like_pattern-Matches_example = match_like_pattern-Matches abcd prefix_pattern

prefix_of_pattern : like_prefix_literal prefix_pattern ≡ some abc
unfolding like_prefix_literal is_wildcard_free ends_with drop_back
prefix_of_pattern = refl

like_prefix_literal-starts_with_example :
    match_like_pattern abcd prefix_pattern ≡ starts_with abcd abc
like_prefix_literal-starts_with_example =
    like_prefix_literal-starts_with prefix_pattern abc abcd prefix_of_pattern

literal_of_pattern : like_contains_literal contains_pattern ≡ some abc
unfolding like_contains_literal is_wildcard_free ends_with drop_back
literal_of_pattern = refl

like_contains_literal-contains_example :
    match_like_pattern abcd contains_pattern ≡ contains abcd abc
like_contains_literal-contains_example =
    like_contains_literal-contains contains_pattern abc abcd literal_of_pattern

abc_contained : contains abcd abc ≡ true
unfolding contains starts_with
abc_contained = refl

abc_gram : has_gram abc (extract_trigrams abc) ≡ true
unfolding extract_trigrams windows text_eq
abc_gram = refl

extract_trigrams-contains_example : has_gram abc (extract_trigrams abcd) ≡ true
extract_trigrams-contains_example =
    extract_trigrams-contains abcd abc abc (omega arith) abc_contained abc_gram

-- A quote and a backslash between letters
abbrev awkward : Text
awkward = 97 ∷ 34 ∷ 92 ∷ 98 ∷ []

tokenize_loop-string_literal_example :
    tokenize_loop 4 start (string_literal awkward ++ 59 ∷ [])
    ≡ cons_token
        (make_token string_token awkward start)
        (tokenize_loop 3 (advance_all (string_literal awkward) start) (59 ∷ []))
tokenize_loop-string_literal_example = tokenize_loop-string_literal 3 start awkward (59 ∷ [])

tokenize-Located_example : Located 0 (length prefix_pattern) (tokenize prefix_pattern)
tokenize-Located_example = tokenize-Located prefix_pattern
