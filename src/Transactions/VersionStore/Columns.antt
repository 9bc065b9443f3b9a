-- ===== src/Transactions/VersionStore/Columns.antt =====
-- The version store under ALTER TABLE: a column is taken out of every version, or put back. Like the
-- chains, the values of a row's versions stand with the newest first. Where the code throws, the
-- versions that it has rewritten by then stay rewritten.
pub mod Undoing
use vertex_db.Base.{
  ℕ, zero, suc, ◌+◌, ◌≤◌, ◌<◌, ◌≡◌, ◌≢◌, refl, Bool, true, false, Option, none, some, List, [], ◌∷◌,
  ◌==◌, ltb, not, if◌then◌else◌, length, get_elem?, All, arith, Option-cases, Bool-cases, inl, inr,
  is_some,
}
use vertex_db.Base.OrderedMap.{Map, lookup, emplace, put}
use vertex_db.Common.Value.{Row, Value}
use vertex_db.Transactions.Manager.{Manager, ReadSnapshot}
use vertex_db.Transactions.VersionStore.{RowVersion, Versions, read}

-- MVCCRowStore::clear
abbrev pub clear_versions : Versions → Versions
clear_versions m = []

-- MVCCRowStore::transformRows
unfoldable pub transform_chain : (Row → Row) → List RowVersion → List RowVersion
transform_chain fn [] = []
transform_chain fn (v ∷ older) = record v { row = fn v.row } ∷ transform_chain fn older

unfoldable pub transform_rows : (Row → Row) → Versions → Versions
unfolding transform_chain
transform_rows fn [] = []
transform_rows fn ((id, chain) ∷ m) = (id, transform_chain fn chain) ∷ transform_rows fn m

-- `row.erase(row.begin() + i)` and `row.insert(row.begin() + i, value)`, in bounds
unfoldable pub erase_at : ℕ → Row → Row
erase_at i [] = []
erase_at zero (x ∷ row) = row
erase_at (suc i) (x ∷ row) = x ∷ erase_at i row

unfoldable pub insert_at : ℕ → Value → Row → Row
insert_at zero value row = value ∷ row
insert_at (suc i) value [] = []
insert_at (suc i) value (x ∷ row) = x ∷ insert_at i value row

-- The inner loop of extractColumn, which begins at the oldest version; `none` where it throws.
unfoldable pub extract_chain : ℕ → List RowVersion → Option (List Value) × List RowVersion
unfolding erase_at
extract_chain i [] = (some [], [])
extract_chain i (v ∷ older) =
    let (found, rest) = extract_chain i older in
    elim found [
      | none ↦ (none, v ∷ rest)
      | some values ↦ elim (get_elem? v.row i) [
        | none ↦ (none, v ∷ rest)
        | some value ↦ (some (value ∷ values), record v { row = erase_at i v.row } ∷ rest)
      ]
    ]

-- MVCCRowStore::extractColumn
unfoldable pub extract_column : ℕ → Versions → Option (Map (List Value)) × Versions
unfolding extract_chain
extract_column i [] = (some [], [])
extract_column i ((id, chain) ∷ m) =
    let (found, chain') = extract_chain i chain in
    elim found [
      | none ↦ (none, (id, chain') ∷ m)
      | some values ↦
          let (others, rest) = extract_column i m in
          elim others [
            | none ↦ (none, (id, chain') ∷ rest)
            | some columns ↦ (some ((id, values) ∷ columns), (id, chain') ∷ rest)
          ]
    ]

-- The inner loop of insertColumn, on as many values as versions; it answers whether it ends.
unfoldable pub insert_chain : ℕ → List Value → List RowVersion → Bool × List RowVersion
unfolding insert_at
insert_chain i values [] = (true, [])
insert_chain i [] (v ∷ older) = (false, v ∷ older)
insert_chain i (value ∷ values) (v ∷ older) =
    let (going, rest) = insert_chain i values older in
    elim going [
      | false ↦ (false, v ∷ rest)
      | true ↦ elim (ltb (length v.row) i) [
        | true ↦ (false, v ∷ rest)
        | false ↦ (true, record v { row = insert_at i value v.row } ∷ rest)
      ]
    ]

-- `byId`
unfoldable pub by_id : Map (List Value) → Map (List Value) → Map (List Value)
unfolding emplace
by_id entries [] = entries
by_id entries ((id, values) ∷ rest) = by_id (emplace id values entries) rest

unfoldable pub insert_loop : ℕ → Map (List Value) → Versions → Bool × Versions
unfolding lookup insert_chain
insert_loop i entries [] = (true, [])
insert_loop i entries ((id, chain) ∷ m) = elim (lookup id entries) [
  | none ↦ (false, (id, chain) ∷ m)
  | some values ↦
      if not (length values == length chain)
      then (false, (id, chain) ∷ m)
      else let (going, chain') = insert_chain i values chain in
        elim going [
          | false ↦ (false, (id, chain') ∷ m)
          | true ↦ let (done, rest) = insert_loop i entries m in (done, (id, chain') ∷ rest)
        ]
]

-- MVCCRowStore::insertColumn
unfoldable pub insert_column : ℕ → Map (List Value) → Versions → Bool × Versions
unfolding by_id insert_loop
insert_column i values m = insert_loop i (by_id [] values) m

-- MVCCRowStore::visibleRows
unfoldable pub visible_rows : ReadSnapshot → Manager → Versions → List Row
unfolding read
visible_rows s tm m = go m
  where
    go : Versions → List Row
    go [] = []
    go ((id, chain) ∷ rest) = elim (read id s tm m) [ none ↦ go rest | some row ↦ row ∷ go rest ]

-- MVCCRowStore::visibleRowsById
unfoldable pub visible_rows_by_id : List ℕ → ReadSnapshot → Manager → Versions → List Row
unfolding read
visible_rows_by_id [] s tm m = []
visible_rows_by_id (id ∷ ids) s tm m = elim (read id s tm m) [
  | none ↦ visible_rows_by_id ids s tm m
  | some row ↦ row ∷ visible_rows_by_id ids s tm m
]
