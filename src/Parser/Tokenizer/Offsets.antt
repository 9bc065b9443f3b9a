-- ===== src/Parser/Tokenizer/Offsets.antt =====
-- Every round of the loop moves on, the tokens stand in the order of the text, and an error names a
-- place in it.
use vertex_db.Base.{
  ℕ, zero, suc, ◌+◌, ◌≤◌, ◌<◌, ◌≡◌, refl, subst, Text, Bool, true, false, some, List, [], ◌∷◌, ◌==◌,
  length, Bool-cases, Option-cases, inl, inr, arith, ◌⊎◌,
}
use vertex_db.Parser.Tokenizer.{
  Token, end, SourceCursor, Result, ok, err, start, advance_char, Lexed, string_loop, advance_while,
  round, tokenize_loop, tokenize, cons_token, found, skip, fail, Round, is_identifier_start,
  is_identifier_part, is_number_part, is_space, is_digit, symbol_type,
}

-- Between two places nothing of the text is lost: what is left gets shorter as the cursor moves on.
abbrev Moves : SourceCursor → Text → SourceCursor → Text → Type 0
Moves c input c' rest = (c'.pos + length rest ≡ c.pos + length input) × (c.pos ≤ c'.pos)

advance_while-Moves :
    (part : ℕ → Bool) (c : SourceCursor) (input : Text)
    → let l = advance_while part c input in Moves c input l.cursor l.rest
unfolding advance_while advance_char
advance_while-Moves part c [] = (refl, omega arith)
advance_while-Moves part c (ch ∷ input) = elim (Bool-cases (part ch)) [
  | inl e ↦ ground (arith, advance_while-Moves part (advance_char ch c) input)
  | inr e ↦ ground (arith, advance_while-Moves part (advance_char ch c) input)
]

string_loop-Moves :
    (escaped : Bool) (c : SourceCursor) (input : Text) (l : Lexed)
    → string_loop escaped c input ≡ some l
    → Moves c input l.cursor l.rest
unfolding string_loop advance_char
string_loop-Moves escaped c [] l h = ground arith
string_loop-Moves true c (ch ∷ input) l h =
    elim (Option-cases (string_loop false (advance_char ch c) input)) [
      | inl e ↦ ground arith
      | inr (l', e) ↦ ground (arith, string_loop-Moves false (advance_char ch c) input l' e)
    ]
string_loop-Moves false c (ch ∷ input) l h = elim (Bool-cases (ch == 34)) [
  | inl e ↦ ground arith
  | inr e ↦ elim (Bool-cases (ch == 92)) [
    | inl e' ↦ ground (arith, string_loop-Moves true (advance_char ch c) input l)
    | inr e' ↦ elim (Option-cases (string_loop false (advance_char ch c) input)) [
      | inl e'' ↦ ground arith
      | inr (l', e'') ↦ ground (arith, string_loop-Moves false (advance_char ch c) input l' e'')
    ]
  ]
]

-- What a round finds moves the cursor on, a token stands where the round began, and so does the
-- place of an error.
RoundMoves : SourceCursor → ℕ → Text → Round → Type 0
RoundMoves c ch rest (skip rest' c') =
    (c'.pos + length rest' ≡ suc (c.pos + length rest)) × (c.pos < c'.pos)
RoundMoves c ch rest (found t rest' c') =
    (c'.pos + length rest' ≡ suc (c.pos + length rest)) × (c.pos < c'.pos) × (t.offset ≡ c.pos)
RoundMoves c ch rest (fail e) = e.place.pos ≡ c.pos

round-RoundMoves :
    (c : SourceCursor) (ch : ℕ) (rest : Text) → RoundMoves c ch rest (round c ch rest)
unfolding RoundMoves round advance_char
round-RoundMoves c ch rest = elim (Bool-cases (is_space ch)) [
  | inl space ↦ rw space (omega arith)
  | inr e0 ↦ elim (Bool-cases (is_identifier_start ch)) [
    | inl e1 ↦
        rw (e0, e1) (omega (arith, advance_while-Moves is_identifier_part (advance_char ch c) rest))
    | inr e1 ↦ elim (Bool-cases (is_digit ch)) [
      | inl e2 ↦
          rw (e0, e1, e2)
            (omega (arith, advance_while-Moves is_number_part (advance_char ch c) rest))
      | inr e2 ↦ elim (Bool-cases (ch == 34)) [
        | inl e3 ↦ elim (Option-cases (string_loop false (advance_char ch c) rest)) [
          | inl e4 ↦ rw (e0, e1, e2, e3, e4)
          | inr (l, e4) ↦
              rw (e0, e1, e2, e3, e4)
                (omega (arith, string_loop-Moves false (advance_char ch c) rest l e4))
        ]
        | inr e3 ↦ elim (Option-cases (symbol_type ch)) [
          | inl e4 ↦ rw (e0, e1, e2, e3, e4)
          | inr (kind, e4) ↦ rw (e0, e1, e2, e3, e4) (omega arith)
        ]
      ]
    ]
  ]
]

-- From `low` on the tokens begin at places that ascend; the last is `end`, at `last`.
unfoldable pub Ascends : ℕ → ℕ → List Token → Type 0
Ascends low last [] = ⊥
Ascends low last (t ∷ ts) =
    (low ≤ t.offset)
    × (((t.kind ≡ end) × (t.offset ≡ last) × (ts ≡ [])) ⊎ Ascends (suc t.offset) last ts)

Ascends-weaken :
    (low low' last : ℕ) (ts : List Token) → low ≤ low' → Ascends low' last ts → Ascends low last ts
unfolding Ascends
Ascends-weaken low low' last [] h a = a
Ascends-weaken low low' last (t ∷ ts) h a = (omega (arith, a.0), a.1)

-- The result of the loop from a cursor on: ascending tokens, or an error inside the text.
unfoldable pub Located : ℕ → ℕ → Result (List Token) → Type 0
Located low last (ok ts) = Ascends low last ts
Located low last (err e) = (low ≤ e.place.pos) × (e.place.pos < last)

Located-weaken :
    (low low' last : ℕ) (r : Result (List Token))
    → low ≤ low'
    → Located low' last r
    → Located low last r
unfolding Located
Located-weaken low low' last (ok ts) h a = Ascends-weaken low low' last ts h a
Located-weaken low low' last (err e) h a = (omega (arith, a.0), a.1)

Located-cons_token :
    (low last : ℕ) (t : Token) (r : Result (List Token))
    → low ≤ t.offset
    → Located (suc t.offset) last r
    → Located low last (cons_token t r)
unfolding Located Ascends
Located-cons_token low last t (ok ts) h a = (h, inr a)
Located-cons_token low last t (err e) h a = (omega (arith, a.0), a.1)

-- One round, if the loop is right on what the round leaves.
Located-round :
    (fuel : ℕ) (c : SourceCursor) (ch : ℕ) (rest : Text) (r : Round)
    → length rest ≤ fuel
    → RoundMoves c ch rest r
    → ((c' : SourceCursor) (rest' : Text)
        → length rest' ≤ fuel
        → Located c'.pos (c'.pos + length rest') (tokenize_loop fuel c' rest'))
    → Located c.pos (c.pos + suc (length rest)) (elim r [
      | skip rest' c' ↦ tokenize_loop fuel c' rest'
      | found t rest' c' ↦ cons_token t (tokenize_loop fuel c' rest')
      | fail e ↦ err e
    ])
unfolding RoundMoves
Located-round fuel c ch rest (skip rest' c') enough h loop =
    let last : c'.pos + length rest' ≡ c.pos + suc (length rest) = omega (arith, h.0) in
    Located-weaken c.pos c'.pos (c.pos + suc (length rest)) (tokenize_loop fuel c' rest')
      (omega (arith, h.1))
      (subst (λ n. Located c'.pos n (tokenize_loop fuel c' rest')) last
        (loop c' rest' (omega (arith, h.0, h.1))))
Located-round fuel c ch rest (found t rest' c') enough h loop =
    let last : c'.pos + length rest' ≡ c.pos + suc (length rest) = omega (arith, h.0) in
    Located-cons_token c.pos (c.pos + suc (length rest)) t (tokenize_loop fuel c' rest')
      (omega (arith, h.1))
      (Located-weaken (suc t.offset) c'.pos (c.pos + suc (length rest))
        (tokenize_loop fuel c' rest') (omega (arith, h.1))
        (subst (λ n. Located c'.pos n (tokenize_loop fuel c' rest')) last
          (loop c' rest' (omega (arith, h.0, h.1)))))
Located-round fuel c ch rest (fail e) enough h loop = unfold Located in omega (arith, h)

tokenize_loop-Located :
    (fuel : ℕ) (c : SourceCursor) (input : Text)
    → length input ≤ fuel
    → Located c.pos (c.pos + length input) (tokenize_loop fuel c input)
unfolding tokenize_loop
tokenize_loop-Located fuel c [] enough =
    unfold Located Ascends in (omega arith, inl (refl, omega arith, refl))
tokenize_loop-Located zero c (ch ∷ input) enough = ground arith
tokenize_loop-Located (suc fuel) c (ch ∷ input) enough =
    Located-round fuel c ch input (round c ch input) (omega arith) (round-RoundMoves c ch input)
      (λ c' rest'. tokenize_loop-Located fuel c' rest')

-- The tokens of a text begin at ascending places of it and end with one `end` token at its length;
-- if it is refused, the error's place is in it. So the loop never stops before the end.
pub tokenize-Located : (sql : Text) → Located 0 (length sql) (tokenize sql)
unfolding tokenize
tokenize-Located sql =
    let all : 0 + length sql ≡ length sql = omega arith in
    subst (λ n. Located 0 n (tokenize_loop (length sql) start sql)) all
      (tokenize_loop-Located (length sql) start sql (omega arith))
