-- ===== src/Parser/Tokenizer.antt =====
-- parser/tokenizer.cpp: a statement's text, cut into tokens. A text is the list of its bytes; the
-- classes of characters are those of the C locale. Of a ParseError the place is kept.
pub mod Literals
pub mod Offsets
use vertex_db.Base.{
  ℕ, zero, suc, ◌+◌, Text, Bool, true, false, ◌&&◌, ◌||◌, Option, none, some, List, [], ◌∷◌, ◌++◌,
  leb, ◌==◌, if◌then◌else◌, length,
}

-- parser/token.hpp
pub data TokenType : Type 0 where
  identifier number string comma semicolon left_paren right_paren star equal greater less plus minus
        parameter tilde end :
      TokenType

pub record Token : Type 0 where
  pub kind : TokenType
  pub lexeme : Text
  pub offset : ℕ
  pub line : ℕ
  pub column : ℕ

pub record SourceCursor : Type 0 where
  pub pos : ℕ
  pub line : ℕ
  pub column : ℕ

pub data ParseErrorKind : Type 0 where
  unterminated_string unexpected_character : ParseErrorKind

pub record ParseError : Type 0 where
  pub kind : ParseErrorKind
  pub place : SourceCursor

pub data Result {ℓ} (A : Type ℓ) : Type ℓ where
  ok : A → Result A
  err : ParseError → Result A

abbrev pub start : SourceCursor
start = record { pos = 0; line = 1; column = 1 }

abbrev pub is_between : ℕ → ℕ → ℕ → Bool
is_between low high ch = leb low ch && leb ch high

abbrev pub is_digit : ℕ → Bool
is_digit ch = is_between 48 57 ch

abbrev pub is_alpha : ℕ → Bool
is_alpha ch = is_between 65 90 ch || is_between 97 122 ch

abbrev pub is_space : ℕ → Bool
is_space ch = is_between 9 13 ch || ch == 32

unfoldable pub is_identifier_start : ℕ → Bool
is_identifier_start ch = is_alpha ch || ch == 95

unfoldable pub is_identifier_part : ℕ → Bool
is_identifier_part ch = is_alpha ch || is_digit ch || ch == 95 || ch == 46

-- The test of the loop over a number
abbrev pub is_number_part : ℕ → Bool
is_number_part ch = is_digit ch || ch == 46

-- SourceCursor::advanceChar
unfoldable pub advance_char : ℕ → SourceCursor → SourceCursor
advance_char ch c = record {
  pos = suc c.pos;
  line = if ch == 10 then suc c.line else c.line;
  column = if ch == 10 then 1 else suc c.column;
}

abbrev pub make_token : TokenType → Text → SourceCursor → Token
make_token kind lexeme c = record {
  kind = kind;
  lexeme = lexeme;
  offset = c.pos;
  line = c.line;
  column = c.column;
}

-- What a loop over characters leaves: the lexeme, the rest of the text, and the cursor.
pub record Lexed : Type 0 where
  pub lexeme : Text
  pub rest : Text
  pub cursor : SourceCursor

abbrev pub prepend : ℕ → Lexed → Lexed
prepend ch l = record l { lexeme = ch ∷ l.lexeme }

-- The loops over an identifier and over a number
unfoldable pub advance_while : (ℕ → Bool) → SourceCursor → Text → Lexed
advance_while part c [] = record { lexeme = []; rest = []; cursor = c }
advance_while part c (ch ∷ rest) = elim (part ch) [
  | true ↦ prepend ch (advance_while part (advance_char ch c) rest)
  | false ↦ record { lexeme = []; rest = ch ∷ rest; cursor = c }
]

-- The loop over a string and the closing quote; the flag holds behind a backslash. `none` where the
-- text ends first.
unfoldable pub string_loop : Bool → SourceCursor → Text → Option Lexed
string_loop escaped c [] = none
string_loop true c (ch ∷ rest) = elim (string_loop false (advance_char ch c) rest) [
  | none ↦ none
  | some l ↦ some (prepend ch l)
]
string_loop false c (ch ∷ rest) = elim (ch == 34) [
  | true ↦ some (record { lexeme = []; rest = rest; cursor = advance_char ch c })
  | false ↦ elim (ch == 92) [
    | true ↦ string_loop true (advance_char ch c) rest
    | false ↦ elim (string_loop false (advance_char ch c) rest) [
      | none ↦ none
      | some l ↦ some (prepend ch l)
    ]
  ]
]

-- The `switch` over single characters
unfoldable pub symbol_type : ℕ → Option TokenType
symbol_type ch =
    if ch == 44
    then some comma
    else if ch == 59
    then some semicolon
    else if ch == 40
    then some left_paren
    else if ch == 41
    then some right_paren
    else if ch == 42
    then some star
    else if ch == 61
    then some equal
    else if ch == 62
    then some greater
    else if ch == 60
    then some less
    else if ch == 43
    then some plus
    else if ch == 45
    then some minus
    else if ch == 63
    then some parameter
    else if ch == 126
    then some tilde
    else none

-- What one round of the loop finds at the cursor.
pub data Round : Type 0 where
  skip : Text → SourceCursor → Round
  found : Token → Text → SourceCursor → Round
  fail : ParseError → Round

abbrev pub found_lexed : TokenType → SourceCursor → Lexed → Round
found_lexed kind c l = found (make_token kind l.lexeme c) l.rest l.cursor

-- The body of the loop of `tokenize`, at a character and what follows it
unfoldable pub round : SourceCursor → ℕ → Text → Round
unfolding is_identifier_start is_identifier_part advance_while string_loop symbol_type advance_char
round c ch rest =
    let next = advance_char ch c in
    if is_space ch
    then skip rest next
    else if is_identifier_start ch
    then found_lexed identifier c (prepend ch (advance_while is_identifier_part next rest))
    else if is_digit ch
    then found_lexed number c (prepend ch (advance_while is_number_part next rest))
    else if ch == 34
    then elim (string_loop false next rest) [
      | none ↦ fail (record { kind = unterminated_string; place = c })
      | some l ↦ found_lexed string c l
    ]
    else elim (symbol_type ch) [
      | none ↦ fail (record { kind = unexpected_character; place = c })
      | some kind ↦ found (make_token kind (ch ∷ []) c) rest next
    ]

abbrev pub cons_token : Token → Result (List Token) → Result (List Token)
cons_token t (ok ts) = ok (t ∷ ts)
cons_token t (err e) = err e

-- The loop of `tokenize`, on fuel.
unfoldable pub tokenize_loop : ℕ → SourceCursor → Text → Result (List Token)
tokenize_loop fuel c [] = ok (make_token end [] c ∷ [])
tokenize_loop zero c (ch ∷ rest) = ok []
tokenize_loop (suc fuel) c (ch ∷ rest) = elim (round c ch rest) [
  | skip rest' c' ↦ tokenize_loop fuel c' rest'
  | found t rest' c' ↦ cons_token t (tokenize_loop fuel c' rest')
  | fail e ↦ err e
]

-- Tokenizer::tokenize: each round takes at least one character, so this fuel is enough.
unfoldable pub tokenize : Text → Result (List Token)
tokenize sql = tokenize_loop (length sql) start sql
