-- ===== src/Storage/CheckEval/Kleene.antt =====
-- CHECK predicates are evaluated in the three-valued logic of Kleene.
use vertex_db.Base.{
  ℕ, ◌≡◌, refl, ap, sym, ◌∙◌, true, false, Option, none, some, Text, is_some, Option-cases, inl,
  inr, Bool-cases, arith,
}
use Prim.Native.Nat.{min, max}
use vertex_db.Common.Value.{Value, is_null, compare_cell, Row}
use vertex_db.Storage.CheckEval.{
  ComparisonPred, Predicate, comparison, both, either, in_list, in_subquery, exists, like, regex,
  TriBool, falsity, truth, unknown, tri_of, cell, compare_tri, eval_check_tri,
  assert_simple_check_constraint,
}

-- Falsity is least, truth is greatest, and the unknown stands between.
abbrev pub rank : TriBool → ℕ
rank falsity = 0
rank unknown = 1
rank truth = 2

abbrev pub rank_or : Option TriBool → ℕ
rank_or none = 1
rank_or (some t) = rank t

module _ (lookup : Text → Option ℕ) where
  cells :
      (column : Text) (row : Row)
      → is_some (cell lookup row column) ≡ true
      → (v : Value) × (cell lookup row column ≡ some v)
  cells column row h = elim (Option-cases (cell lookup row column)) [
    | inl e ↦ absurd (ground arith)
    | inr (v, e) ↦ (v, e)
  ]

  abbrev pub HasOptional : Row → Option Text → Type 0
  HasOptional row none = Unit
  HasOptional row (some column) = is_some (cell lookup row column) ≡ true

  -- The columns that a comparison names are in the row.
  abbrev pub HasColumns : {X : Type 0} → ComparisonPred X → Row → Type 0
  HasColumns p row = (is_some (cell lookup row p.column) ≡ true) × HasOptional row p.rhs_column

  compares :
      {X : Type 0} (p : ComparisonPred X) (row : Row)
      → is_some p.expression ≡ false
      → HasColumns p row
      → (t : TriBool) × (compare_tri lookup p row ≡ some t)
  unfolding compare_tri
  compares p row s v =
      let (a, ea) = cells p.column row v.0 in
      elim (Bool-cases (is_null a)) [
        | inl n ↦ (unknown, rw s (rw ea (rw n refl)))
        | inr n ↦ elim (Option-cases p.rhs_column) [
          | inl e ↦ elim (Bool-cases (is_null p.value)) [
            | inl m ↦ (unknown, rw s (rw ea (rw n (rw e (rw m refl)))))
            | inr m ↦ (tri_of (compare_cell a p.op p.value), rw s (rw ea (rw n (rw e (rw m refl)))))
          ]
          | inr (column, e) ↦
              let (b, eb) = cells column row (rw e at v.1) in
              elim (Bool-cases (is_null b)) [
                | inl m ↦ (unknown, rw s (rw ea (rw n (rw e (rw eb (rw m refl))))))
                | inr m ↦
                    (tri_of (compare_cell a p.op b), rw s (rw ea (rw n (rw e (rw eb (rw m refl))))))
              ]
        ]
      ]

module _ {S X : Type 0} (lookup : Text → Option ℕ) where
  -- Every column that the predicate names is one of the row.
  unfoldable pub Resolves : Predicate S X → Row → Type 0
  Resolves (comparison p) row = HasColumns lookup p row
  Resolves (both l r) row = Resolves l row × Resolves r row
  Resolves (either l r) row = Resolves l row × Resolves r row
  Resolves _ row = Unit

  -- What a predicate means: the least of the parts of AND, the greatest of those of OR
  unfoldable pub meaning : Predicate S X → Row → ℕ
  meaning (comparison p) row = rank_or (compare_tri lookup p row)
  meaning (both l r) row = min (meaning l row) (meaning r row)
  meaning (either l r) row = max (meaning l row) (meaning r row)
  meaning _ row = 1

  both_values :
      (l r : Predicate S X) (row : Row) (a b : TriBool)
      → eval_check_tri lookup l row ≡ some a
      → eval_check_tri lookup r row ≡ some b
      → (t : TriBool) × (eval_check_tri lookup (both l r) row ≡ some t)
        × (rank t ≡ min (rank a) (rank b))
  unfolding eval_check_tri
  both_values l r row falsity falsity p q = (falsity, rw p refl, refl)
  both_values l r row falsity truth p q = (falsity, rw p refl, refl)
  both_values l r row falsity unknown p q = (falsity, rw p refl, refl)
  both_values l r row truth falsity p q = (falsity, rw p (rw q refl), refl)
  both_values l r row truth truth p q = (truth, rw p (rw q refl), refl)
  both_values l r row truth unknown p q = (unknown, rw p (rw q refl), refl)
  both_values l r row unknown falsity p q = (falsity, rw p (rw q refl), refl)
  both_values l r row unknown truth p q = (unknown, rw p (rw q refl), refl)
  both_values l r row unknown unknown p q = (unknown, rw p (rw q refl), refl)

  either_values :
      (l r : Predicate S X) (row : Row) (a b : TriBool)
      → eval_check_tri lookup l row ≡ some a
      → eval_check_tri lookup r row ≡ some b
      → (t : TriBool) × (eval_check_tri lookup (either l r) row ≡ some t)
        × (rank t ≡ max (rank a) (rank b))
  unfolding eval_check_tri
  either_values l r row truth falsity p q = (truth, rw p refl, refl)
  either_values l r row truth truth p q = (truth, rw p refl, refl)
  either_values l r row truth unknown p q = (truth, rw p refl, refl)
  either_values l r row falsity falsity p q = (falsity, rw p (rw q refl), refl)
  either_values l r row falsity truth p q = (truth, rw p (rw q refl), refl)
  either_values l r row falsity unknown p q = (unknown, rw p (rw q refl), refl)
  either_values l r row unknown falsity p q = (unknown, rw p (rw q refl), refl)
  either_values l r row unknown truth p q = (truth, rw p (rw q refl), refl)
  either_values l r row unknown unknown p q = (unknown, rw p (rw q refl), refl)

  -- A predicate that assertSimpleCheckConstraint lets pass is evaluated without a throw for every row
  -- that has its columns, and its value is the one of Kleene's logic: the least of the values of the
  -- parts of an AND, the greatest of those of an OR, with UNKNOWN between FALSE and TRUE.
  pub eval_check_tri-meaning :
      (p : Predicate S X) (row : Row)
      → assert_simple_check_constraint p ≡ true
      → Resolves p row
      → (t : TriBool) × (eval_check_tri lookup p row ≡ some t) × (rank t ≡ meaning p row)
  unfolding eval_check_tri assert_simple_check_constraint Resolves meaning
  eval_check_tri-meaning (comparison p) row s v =
      let (t, e) = compares lookup p row (ground arith) v in (t, e, sym (ap rank_or e))
  eval_check_tri-meaning (both l r) row s v =
      let (a, ea, ma) = eval_check_tri-meaning l row (ground arith) v.0 in
      let (b, eb, mb) = eval_check_tri-meaning r row (ground arith) v.1 in
      let (t, e, m) = both_values l r row a b ea eb in
      (t, e, m ∙ ap (min (rank a)) mb ∙ ap (λ n. min n (meaning r row)) ma)
  eval_check_tri-meaning (either l r) row s v =
      let (a, ea, ma) = eval_check_tri-meaning l row (ground arith) v.0 in
      let (b, eb, mb) = eval_check_tri-meaning r row (ground arith) v.1 in
      let (t, e, m) = either_values l r row a b ea eb in
      (t, e, m ∙ ap (max (rank a)) mb ∙ ap (λ n. max n (meaning r row)) ma)
  eval_check_tri-meaning (in_list column values x o) row s v = absurd (ground arith)
  eval_check_tri-meaning (in_subquery column q o) row s v = absurd (ground arith)
  eval_check_tri-meaning (exists q o) row s v = absurd (ground arith)
  eval_check_tri-meaning (like column pattern o) row s v = absurd (ground arith)
  eval_check_tri-meaning (regex column pattern o) row s v = absurd (ground arith)
