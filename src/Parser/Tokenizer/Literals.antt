-- ===== src/Parser/Tokenizer/Literals.antt =====
-- execution/sql_literal.cpp, the string case of sqlLiteral: what the tokenizer makes of a literal that
-- the log and the command line are given.
use vertex_db.Base.{
  ℕ, suc, ◌≡◌, refl, Text, false, ◌||◌, some, [], ◌∷◌, ◌++◌, ◌==◌, if◌then◌else◌, arith,
  append_assoc,
}
use vertex_db.Parser.Tokenizer.{
  string, SourceCursor, err, advance_char, make_token, string_loop, round, tokenize_loop,
  cons_token, found, skip, fail, is_identifier_start,
}

unfoldable pub escape : Text → Text
escape [] = []
escape (ch ∷ text) = if ch == 34 || ch == 92 then 92 ∷ ch ∷ escape text else ch ∷ escape text

unfoldable pub string_literal : Text → Text
string_literal text = 34 ∷ (escape text ++ 34 ∷ [])

-- The cursor behind a text
unfoldable pub advance_all : Text → SourceCursor → SourceCursor
advance_all [] c = c
advance_all (ch ∷ text) c = advance_all text (advance_char ch c)

string_loop-escape :
    (c : SourceCursor) (text rest : Text)
    → string_loop false c (escape text ++ 34 ∷ rest)
      ≡ some
          (record { lexeme = text; rest = rest; cursor = advance_all (escape text ++ 34 ∷ []) c })
unfolding string_loop escape advance_all
string_loop-escape c [] rest = refl
string_loop-escape c (ch ∷ text) rest = ground (
  arith,
  string_loop-escape (advance_char ch c) text rest,
  string_loop-escape (advance_char ch (advance_char 92 c)) text rest,
)

round-string_literal :
    (c : SourceCursor) (text rest : Text)
    → round c 34 (escape text ++ 34 ∷ rest)
      ≡ found (make_token string text c) rest (advance_all (string_literal text) c)
unfolding round is_identifier_start string_literal advance_all
round-string_literal c text rest = rw (string_loop-escape (advance_char 34 c) text rest)

literal-append : (text rest : Text) → string_literal text ++ rest ≡ 34 ∷ (escape text ++ 34 ∷ rest)
unfolding string_literal
literal-append text rest = rw append_assoc

tokenize_loop_cons :
    (fuel : ℕ) (c : SourceCursor) (ch : ℕ) (rest : Text)
    → tokenize_loop (suc fuel) c (ch ∷ rest) ≡ elim (round c ch rest) [
      | skip rest' c' ↦ tokenize_loop fuel c' rest'
      | found t rest' c' ↦ cons_token t (tokenize_loop fuel c' rest')
      | fail e ↦ err e
    ]
unfolding tokenize_loop
tokenize_loop_cons fuel c ch rest = refl

-- The literal of a text is read back as one string token with exactly that text, whatever quotes,
-- backslashes or line ends are in it, and the cursor then stands behind the literal.
pub tokenize_loop-string_literal :
    (fuel : ℕ) (c : SourceCursor) (text rest : Text)
    → tokenize_loop (suc fuel) c (string_literal text ++ rest)
      ≡ cons_token
          (make_token string text c)
          (tokenize_loop fuel (advance_all (string_literal text) c) rest)
unfolding tokenize_loop
tokenize_loop-string_literal fuel c text rest =
    rw (literal-append text rest, tokenize_loop_cons, round-string_literal c text rest)
