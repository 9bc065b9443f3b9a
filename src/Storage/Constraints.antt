-- ===== src/Storage/Constraints.antt =====
-- storage/table_constraints.cpp: what a table asks of a row before it takes it. `none` is a throw for
-- a column that is not there, or a row that is too short; `false` a violated constraint. The index on
-- the columns of a constraint, and the live rows, are arguments.
pub mod Unique
use vertex_db.Base.{
  ℕ, zero, suc, Bool, true, false, not, ◌&&◌, ◌||◌, Option, none, some, List, [], ◌∷◌, ◌++◌, ◌==◌,
  Text, text_eq, get_elem?, length, any, if◌then◌else◌,
}
use vertex_db.Common.Value.{
  Value, Values, nil, cons, ColumnType, int_type, double_type, string_type, Row, is_null, value_eq,
  type_of, make_composite, has_null_composite_part,
}
use vertex_db.Storage.CheckEval.{Predicate, eval_check_predicate, ◌>>=◌}

-- struct Column
pub record Column : Type 0 where
  pub name : Text
  pub type : ColumnType
  pub nullable : Bool
  pub unique : Bool
  pub primary_key : Bool

-- struct UniqueConstraint
pub record UniqueConstraint : Type 0 where
  pub columns : List Text
  pub primary_key : Bool

-- Table::columnIndex
unfoldable pub column_index : List Column → Text → Option ℕ
unfolding text_eq
column_index [] name = none
column_index (c ∷ schema) name =
    let rest = column_index schema name in
    if text_eq c.name name then some 0 else do i ← rest; some (suc i)

abbrev pub same_type : ColumnType → ColumnType → Bool
same_type int_type int_type = true
same_type double_type double_type = true
same_type string_type string_type = true
same_type _ _ = false

-- The loop of Table::validateRow; Value::type throws for a composite and a parameter slot.
unfoldable pub validate_cells : List Column → Row → Option Bool
unfolding type_of
validate_cells [] [] = some true
validate_cells [] (v ∷ row) = some false
validate_cells (c ∷ schema) [] = some false
validate_cells (c ∷ schema) (v ∷ row) =
    let rest = validate_cells schema row in
    if is_null v
    then (if c.nullable then rest else some false)
    else do t ← type_of v; if same_type t c.type then rest else some false

-- Table::enforceCheckConstraints
unfoldable pub enforce_check_constraints :
    {S X : Type 0} → (Text → Option ℕ) → List (Predicate S X) → Row → Option Bool
unfolding eval_check_predicate
enforce_check_constraints lookup [] row = some true
enforce_check_constraints lookup (p ∷ checks) row = do
  accepted ← eval_check_predicate lookup p row
  if accepted then enforce_check_constraints lookup checks row else some false

-- Table::validateRow
unfoldable pub validate_row :
    {S X : Type 0} → List Column → List (Predicate S X) → Row → Option Bool
unfolding validate_cells enforce_check_constraints column_index
validate_row schema checks row = if not (length row == length schema) then some false else do
  typed ← validate_cells schema row
  if typed then enforce_check_constraints (column_index schema) checks row else some false

-- Whether a constraint is on the one column
abbrev pub is_on_column : Text → UniqueConstraint → Bool
is_on_column name c = elim c.columns [
  | [] ↦ false
  | first ∷ others ↦ elim others [ [] ↦ text_eq first name | _ ∷ _ ↦ false ]
]

unfoldable pub column_constraints : List UniqueConstraint → List Column → List UniqueConstraint
column_constraints table [] = []
column_constraints table (c ∷ schema) =
    let rest = column_constraints table schema in
    if not (c.unique || c.primary_key) || any (is_on_column c.name) table
    then rest
    else (record { columns = c.name ∷ []; primary_key = c.primary_key }) ∷ rest

-- Table::allUniqueConstraints
unfoldable pub all_unique_constraints : List UniqueConstraint → List Column → List UniqueConstraint
unfolding column_constraints text_eq
all_unique_constraints table schema = table ++ column_constraints table schema

abbrev pub is_excluded : Option ℕ → ℕ → Bool
is_excluded none id = false
is_excluded (some excluded) id = id == excluded

-- The rows that an index has found
unfoldable pub no_other_hit : Option ℕ → List ℕ → Bool
no_other_hit exclude [] = true
no_other_hit exclude (hit ∷ hits) =
    let rest = no_other_hit exclude hits in if is_excluded exclude hit then rest else false

module _ (lookup : Text → Option ℕ) where
  -- The loop of Table::uniqueKeyForRow
  unfoldable pub parts_of : List Text → Row → Option Values
  parts_of [] row = some nil
  parts_of (c ∷ columns) row = do
    i ← lookup c
    v ← get_elem? row i
    vs ← parts_of columns row
    some (cons v vs)

  -- Table::uniqueKeyForRow
  unfoldable pub unique_key_for_row : List Text → Row → Option Value
  unfolding parts_of make_composite
  unique_key_for_row columns row = do vs ← parts_of columns row; make_composite vs

  -- Table::uniqueRowsEqual
  unfoldable pub unique_rows_equal : List Text → Row → Row → Option Bool
  unfolding value_eq
  unique_rows_equal [] left right = some true
  unique_rows_equal (c ∷ columns) left right =
      let rest = unique_rows_equal columns left right in
      elim (lookup c) [
        | none ↦ some false
        | some i ↦ do
          l ← get_elem? left i
          r ← get_elem? right i
          if is_null l || is_null r || not (value_eq l r) then some false else rest
      ]

  -- The scan of the live rows
  unfoldable pub no_other_equal : List Text → Row → Option ℕ → List (ℕ × Row) → Option Bool
  unfolding unique_rows_equal
  no_other_equal columns row exclude [] = some true
  no_other_equal columns row exclude ((id, existing) ∷ live) =
      let rest = no_other_equal columns row exclude live in
      if is_excluded exclude id
      then rest
      else do equal ← unique_rows_equal columns row existing; if equal then some false else rest

  -- The round of Table::enforceUniqueConstraintsUnlocked for one constraint
  unfoldable pub enforce_unique :
      (List Text → Value → Option (List ℕ))
      → List (ℕ × Row)
      → List Text
      → Row
      → Option ℕ
      → Option Bool
  unfolding unique_key_for_row no_other_hit no_other_equal has_null_composite_part
  enforce_unique indexed_lookup live columns row exclude = do
    key ← unique_key_for_row columns row
    if has_null_composite_part key then some true else elim (indexed_lookup columns key) [
      | some hits ↦ some (no_other_hit exclude hits)
      | none ↦ no_other_equal columns row exclude live
    ]

  -- Table::enforceUniqueConstraintsUnlocked
  unfoldable pub enforce_unique_constraints :
      (List Text → Value → Option (List ℕ))
      → List (ℕ × Row)
      → List UniqueConstraint
      → Row
      → Option ℕ
      → Option Bool
  unfolding enforce_unique
  enforce_unique_constraints indexed_lookup live [] row exclude = some true
  enforce_unique_constraints indexed_lookup live (c ∷ constraints) row exclude = do
    kept ← enforce_unique indexed_lookup live c.columns row exclude
    if kept
        then enforce_unique_constraints indexed_lookup live constraints row exclude
        else some false

  -- Table::rowsConflictOnUnique
  unfoldable pub rows_conflict_on_unique : List UniqueConstraint → Row → Row → Option Bool
  unfolding unique_rows_equal
  rows_conflict_on_unique [] left right = some false
  rows_conflict_on_unique (c ∷ constraints) left right = do
    equal ← unique_rows_equal c.columns left right
    if equal then some true else rows_conflict_on_unique constraints left right

unfoldable pub joined : List Text → Text
joined [] = []
joined (c ∷ columns) = elim columns [ [] ↦ c | _ ∷ _ ↦ c ++ (b'_' ∷ joined columns) ]

-- Table::constraintIndexName
unfoldable pub constraint_index_name : UniqueConstraint → Text
unfolding joined
constraint_index_name c =
    (if c.primary_key
      then b'_' ∷ b'_' ∷ b'p' ∷ b'k' ∷ b'_' ∷ []
      else b'_' ∷ b'_' ∷ b'u' ∷ b'q' ∷ b'_' ∷ [])
    ++ joined c.columns
