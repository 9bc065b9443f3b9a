-- ===== src/Examples/Uniques.antt =====
-- UNIQUE (a, b) on rows of two columns
use vertex_db.Base.{
  ℕ, ◌≡◌, inr, refl, true, false, Option, none, some, List, [], ◌∷◌, Text, text_eq,
}
use vertex_db.Base.Int.{pos}
use vertex_db.Common.Value.{
  Value, null, int, Row, value_eq, int_type, make_composite, has_null_composite_part,
}
use vertex_db.Storage.Constraints.{
  Column, column_index, parts_of, validate_row, all_unique_constraints, constraint_index_name,
  rows_conflict_on_unique, enforce_unique, enforce_unique_constraints,
}
use vertex_db.Storage.Constraints.Unique.{
  HasKeys, no_rows, and_row, ids_with_key, enforce_unique-indexed,
}

abbrev column : ℕ → Column
column c = record {
  name = c ∷ [];
  type = int_type;
  nullable = true;
  unique = false;
  primary_key = false;
}

abbrev schema : List Column
schema = column 97 ∷ column 98 ∷ []

abbrev both : List Text
both = (97 ∷ []) ∷ (98 ∷ []) ∷ []

abbrev pair : ℕ → ℕ → Row
pair a b = int (pos a) ∷ int (pos b) ∷ []

abbrev stored : List (ℕ × Row)
stored = (0, pair 1 2) ∷ (4, pair 1 3) ∷ []

abbrev by_index : List Text → Value → Option (List ℕ)
by_index columns key = some (ids_with_key (column_index schema) columns key stored)

stored-HasKeys : HasKeys (column_index schema) both stored
unfolding parts_of column_index make_composite text_eq
stored-HasKeys = and_row refl refl (and_row refl refl no_rows)

twice_refused :
    enforce_unique (column_index schema) by_index stored both (pair 1 3) none ≡ some false
unfolding enforce_unique column_index text_eq ids_with_key value_eq
twice_refused = refl

itself_excluded :
    enforce_unique (column_index schema) by_index stored both (pair 1 3) (some 4) ≡ some true
unfolding enforce_unique column_index text_eq ids_with_key value_eq
itself_excluded = refl

null_accepted :
    enforce_unique_constraints
      (column_index schema)
      by_index
      stored
      ((record { columns = both; primary_key = false }) ∷ [])
      (int (pos 1) ∷ null ∷ [])
      none
    ≡ some true
unfolding enforce_unique_constraints column_index text_eq has_null_composite_part
null_accepted = refl

one_name_for_two :
    constraint_index_name (record { columns = both; primary_key = false })
    ≡ constraint_index_name (record { columns = (97 ∷ 95 ∷ 98 ∷ []) ∷ []; primary_key = false })
unfolding constraint_index_name
one_name_for_two = refl

short_refused : validate_row {S = Unit} {X = Unit} schema [] (null ∷ []) ≡ some false
unfolding validate_row
short_refused = refl

conflicting :
    rows_conflict_on_unique
      (column_index schema)
      (all_unique_constraints ((record { columns = both; primary_key = false }) ∷ []) schema)
      (pair 1 3)
      (pair 1 3)
    ≡ some true
unfolding rows_conflict_on_unique column_index all_unique_constraints text_eq value_eq
conflicting = refl

enforce_unique-indexed_example :
    enforce_unique (column_index schema) by_index stored both (pair 1 3) none
    ≡ enforce_unique (column_index schema) (λ _ _. none) stored both (pair 1 3) none
enforce_unique-indexed_example =
    enforce_unique-indexed (column_index schema) by_index both (pair 1 3) none stored
      (λ key h. inr (ids_with_key (column_index schema) both key stored, refl, λ id. refl))
      stored-HasKeys
