-- ===== src/Storage/VectorRowStore.antt =====
-- storage/vector_row_store.cpp: rows in slots, with a list of free slots. Vectors are lists, front
-- first; the free list is used at its back.
pub mod Runs
pub mod Sparse
pub mod FreeList
pub mod Invariant
pub mod Contents
use vertex_db.Base.{
  ℕ, zero, suc, ◌+◌, ◌-◌, Bool, true, false, Option, none, some, List, [], ◌∷◌, ◌++◌, ◌==◌, ltb,
  if◌then◌else◌, length, get_elem?, set, any, is_some,
}
use vertex_db.Common.Value.{Row}

pub record Store : Type 0 where
  pub rows : List (Option Row)
  pub free_list : List ℕ
  pub live_count : ℕ

abbrev pub empty : Store
empty = record { rows = []; free_list = []; live_count = 0 }

-- The vector without its last element, and that element.
unfoldable pub unsnoc {ℓ} : {A : Type ℓ} → List A → Option (List A × A)
unsnoc [] = none
unsnoc (x ∷ xs) = elim (unsnoc xs) [ none ↦ some ([], x) | some p ↦ some (x ∷ p.0, p.1) ]

-- `std::find` and `erase` of what it found
unfoldable pub erase_first : ℕ → List ℕ → List ℕ
erase_first id [] = []
erase_first id (x ∷ xs) = if x == id then xs else x ∷ erase_first id xs

-- VectorRowStore::get
unfoldable pub get : Store → ℕ → Option Row
get s row_id = elim (get_elem? s.rows row_id) [ none ↦ none | some slot ↦ slot ]

-- VectorRowStore::append
unfoldable pub append : Store → Row → ℕ × Store
unfolding unsnoc
append s row = elim (unsnoc s.free_list) [
  | some p ↦ (
    p.1,
    record { rows = set s.rows p.1 (some row); free_list = p.0; live_count = suc s.live_count },
  )
  | none ↦ (
    length s.rows,
    record { rows = s.rows ++ some row ∷ []; free_list = []; live_count = suc s.live_count },
  )
]

-- VectorRowStore::erase
unfoldable pub erase : Store → ℕ → Bool × Store
unfolding get
erase s row_id = elim (get s row_id) [
  | none ↦ (false, s)
  | some old ↦ (
    true,
    record {
      rows = set s.rows row_id none;
      free_list = s.free_list ++ row_id ∷ [];
      live_count = s.live_count - 1;
    },
  )
]

-- VectorRowStore::update
unfoldable pub update : Store → ℕ → Row → Bool × Store
unfolding get
update s row_id row = elim (get s row_id) [
  | none ↦ (false, s)
  | some old ↦ (true, record s { rows = set s.rows row_id (some row) })
]

-- VectorRowStore::revive
unfoldable pub revive : Store → ℕ → Row → Bool × Store
unfolding erase_first
revive s row_id row = elim (get_elem? s.rows row_id) [
  | none ↦ (false, s)
  | some slot ↦ elim slot [
    | some old ↦ (false, s)
    | none ↦
        if any (λ id. id == row_id) s.free_list
        then (
          true,
          record {
            rows = set s.rows row_id (some row);
            free_list = erase_first row_id s.free_list;
            live_count = suc s.live_count;
          },
        )
        else (false, s)
  ]
]

-- VectorRowStore::upsertAt
unfoldable pub upsert_at : Store → ℕ → Row → Bool × Store
unfolding get update revive
upsert_at s row_id row =
    if ltb row_id (length s.rows)
    then (if is_some (get s row_id) then update s row_id row else revive s row_id row)
    else if row_id == length s.rows
    then (true, record s { rows = s.rows ++ some row ∷ []; live_count = suc s.live_count })
    else (false, s)

-- VectorRowStore::snapshot
unfoldable pub live_rows : List (Option Row) → List Row
live_rows [] = []
live_rows (none ∷ slots) = live_rows slots
live_rows (some row ∷ slots) = row ∷ live_rows slots

unfoldable pub snapshot : Store → List Row
unfolding live_rows
snapshot s = live_rows s.rows

-- VectorRowStore::liveEntries
unfoldable pub entries_from : ℕ → List (Option Row) → List (ℕ × Row)
entries_from row_id [] = []
entries_from row_id (none ∷ slots) = entries_from (suc row_id) slots
entries_from row_id (some row ∷ slots) = (row_id, row) ∷ entries_from (suc row_id) slots

unfoldable pub live_entries : Store → List (ℕ × Row)
unfolding entries_from
live_entries s = entries_from 0 s.rows

-- VectorRowStore::rowsById
unfoldable pub rows_by_id : Store → List ℕ → List Row
unfolding get
rows_by_id s [] = []
rows_by_id s (row_id ∷ ids) =
    let rest = rows_by_id s ids in elim (get s row_id) [ none ↦ rest | some row ↦ row ∷ rest ]

-- VectorRowStore::replaceRows
unfoldable pub append_all : Store → List Row → Store
unfolding append
append_all s [] = s
append_all s (row ∷ rows) = append_all (append s row).1 rows

unfoldable pub replace_rows : Store → List Row → Store
unfolding append_all
replace_rows s rows = append_all empty rows
