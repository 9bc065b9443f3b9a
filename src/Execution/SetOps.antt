-- ===== src/Execution/SetOps.antt =====
-- execution/set_ops.cpp: UNION, INTERSECT and EXCEPT, each with ALL, on query results. The hashed
-- containers are taken by their contract: elements are found by `operator==`, whatever the hash. RowHash
-- throws for a cell that is a composite or a parameter slot; which rows a container hashes is its own
-- affair, and `Table::validateRow` keeps such cells out of rows, so that throw is left out.
pub mod Rows
pub mod Multiset
pub mod Distinct
use vertex_db.Base.{
  ℕ, zero, suc, ◌+◌, ◌-◌, Text, Bool, true, false, not, ◌&&◌, ◌||◌, Option, none, some, List, [],
  ◌∷◌, ◌++◌, leb, ◌==◌, if◌then◌else◌, any, length, Equality,
}
use vertex_db.Base.Dict.{lookup, put}
use vertex_db.Common.Value.{Row}
use Rows.{row_eq, row_equality}

pub data SetOpKind : Type 0 where
  union union_all intersect intersect_all except except_all : SetOpKind

-- execution/query_result.hpp, the fields that set operations read or write
pub record QueryResult : Type 0 where
  pub success : Bool
  pub message : Text
  pub columns : List Text
  pub rows : List Row

pub data Error : Type 0 where
  failed : Text → Error
  unequal_columns left_width right_width : Error

-- `set.contains(row)`
abbrev pub contains : List Row → Row → Bool
contains set row = any (λ r. row_eq r row) set

-- deduplicateRows: `insert` tells whether the row is new to `seen`
unfoldable pub dedup_loop : List Row → List Row → List Row
dedup_loop seen [] = []
dedup_loop seen (row ∷ rows) = elim (contains seen row) [
  | true ↦ dedup_loop seen rows
  | false ↦ row ∷ dedup_loop (row ∷ seen) rows
]

unfoldable pub deduplicate_rows : List Row → List Row
unfolding dedup_loop
deduplicate_rows rows = dedup_loop [] rows

-- The loops of INTERSECT and EXCEPT: rows that stand, or do not stand, in the right result, each
-- emitted once.
unfoldable pub filter_loop : Bool → List Row → List Row → List Row → List Row
filter_loop wanted right emitted [] = []
filter_loop wanted right emitted (row ∷ rows) =
    let passes = if wanted then contains right row else not (contains right row) in
    elim (passes && not (contains emitted row)) [
      | true ↦ row ∷ filter_loop wanted right (row ∷ emitted) rows
      | false ↦ filter_loop wanted right emitted rows
    ]

abbrev pub Counts : Type 0
Counts = List (Row × ℕ)

-- `counts[row]`, which is zero for a row that is not there
abbrev pub count_in : Counts → Row → ℕ
count_in counts row = elim (lookup row counts) [ none ↦ 0 | some n ↦ n ]

-- `++rightCounts[row]` for each row
unfoldable pub count_rows : Counts → List Row → Counts
unfolding lookup put
count_rows counts [] = counts
count_rows counts (row ∷ rows) = count_rows (put row (suc (count_in counts row)) counts) rows

-- The loop of INTERSECT ALL
unfoldable pub intersect_all_loop : Counts → List Row → List Row
unfolding lookup put
intersect_all_loop counts [] = []
intersect_all_loop counts (row ∷ rows) = elim (count_in counts row) [
  | zero ↦ intersect_all_loop counts rows
  | suc n ↦ row ∷ intersect_all_loop (put row n counts) rows
]

-- The loop of EXCEPT ALL
unfoldable pub except_all_loop : Counts → List Row → List Row
unfolding lookup put
except_all_loop counts [] = []
except_all_loop counts (row ∷ rows) = elim (count_in counts row) [
  | zero ↦ row ∷ except_all_loop counts rows
  | suc n ↦ except_all_loop (put row n counts) rows
]

unfoldable pub combine : SetOpKind → List Row → List Row → List Row
unfolding deduplicate_rows filter_loop count_rows intersect_all_loop except_all_loop
combine union_all left right = left ++ right
combine union left right = deduplicate_rows (left ++ right)
combine intersect left right = filter_loop true right [] left
combine intersect_all left right = intersect_all_loop (count_rows [] right) left
combine except left right = filter_loop false right [] left
combine except_all left right = except_all_loop (count_rows [] right) left

abbrev pub all_have_width : ℕ → List Row → Bool
all_have_width n rows = not (any (λ row. not (length row == n)) rows)

-- requireCompatibleSetOpSchemas: the first check that fails
unfoldable pub incompatibility : QueryResult → QueryResult → Option Error
incompatibility left right =
    if not left.success
    then some (failed left.message)
    else if not right.success
    then some (failed right.message)
    else if not (length left.columns == length right.columns)
    then some unequal_columns
    else if not (all_have_width (length left.columns) left.rows)
    then some left_width
    else if not (all_have_width (length left.columns) right.rows)
    then some right_width
    else none

pub data Result {ℓ} (A : Type ℓ) : Type ℓ where
  ok : A → Result A
  err : Error → Result A

-- "selected rows"
abbrev pub selected_rows : Text
selected_rows = 115 ∷ 101 ∷ 108 ∷ 101 ∷ 99 ∷ 116 ∷ 101 ∷ 100 ∷ 32 ∷ 114 ∷ 111 ∷ 119 ∷ 115 ∷ []

-- applySetOperation
unfoldable pub apply_set_operation : SetOpKind → QueryResult → QueryResult → Result QueryResult
unfolding incompatibility combine
apply_set_operation op left right = elim (incompatibility left right) [
  | some e ↦ err e
  | none ↦ ok (record {
    success = true;
    message = selected_rows;
    columns = left.columns;
    rows = combine op left.rows right.rows;
  })
]
