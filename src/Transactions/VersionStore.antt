-- ===== src/Transactions/VersionStore.antt =====
-- transaction/mvcc_row_store.hpp and .cpp: the chains of row versions. The head of a chain is the
-- back of the vector, so a chain is read from the newest version to the oldest, as `read` does.
pub mod Undo
pub mod Reads
pub mod Withdrawn
pub mod Snapshots
pub mod Columns
use vertex_db.Base.{
  ℕ, Bool, true, false, not, Option, none, some, List, [], ◌∷◌, ◌==◌, if◌then◌else◌, length,
}
use vertex_db.Base.OrderedMap.{Map, lookup, put, erase}
use vertex_db.Common.Value.{Row}
use vertex_db.Transactions.Manager.{Manager, ReadSnapshot, is_visible}

-- struct RowVersion
pub record RowVersion : Type 0 where
  pub created_by : ℕ
  pub deleted_by : Option ℕ
  pub row : Row

-- versions_
abbrev pub Versions : Type 0
Versions = Map (List RowVersion)

-- The chain of a row, empty if there is none.
abbrev pub chain_of : ℕ → Versions → List RowVersion
chain_of row_id m = elim (lookup row_id m) [ none ↦ [] | some chain ↦ chain ]

-- The newest version is closed, unless it was deleted.
abbrev pub close_latest : ℕ → List RowVersion → List RowVersion
close_latest txn [] = []
close_latest txn (v ∷ older) = elim v.deleted_by [
  | none ↦ record v { deleted_by = some txn } ∷ older
  | some d ↦ v ∷ older
]

-- MVCCRowStore::write
unfoldable pub write : ℕ → Row → ℕ → Versions → Versions
unfolding lookup put
write row_id row txn m =
    put row_id
      (record { created_by = txn; deleted_by = none; row = row }
        ∷ close_latest txn (chain_of row_id m))
      m

abbrev pub mark_latest : Option ℕ → List RowVersion → List RowVersion
mark_latest d [] = []
mark_latest d (v ∷ older) = record v { deleted_by = d } ∷ older

-- MVCCRowStore::erase
unfoldable pub erase_row : ℕ → ℕ → Versions → Versions
unfolding lookup put
erase_row row_id txn m = elim (lookup row_id m) [
  | none ↦ m
  | some chain ↦ put row_id (mark_latest (some txn) chain) m
]

-- MVCCRowStore::popLatestVersion
unfoldable pub pop_latest_version : ℕ → Versions → Bool × Versions
unfolding lookup put erase
pop_latest_version row_id m = elim (chain_of row_id m) [
  | [] ↦ (false, m)
  | v ∷ older ↦ elim older [
    | [] ↦ (true, erase row_id m)
    | w ∷ rest ↦ (true, put row_id (record w { deleted_by = none } ∷ rest) m)
  ]
]

-- MVCCRowStore::clearLatestDeletedBy
unfoldable pub clear_latest_deleted_by : ℕ → Versions → Bool × Versions
unfolding lookup put
clear_latest_deleted_by row_id m = elim (chain_of row_id m) [
  | [] ↦ (false, m)
  | v ∷ older ↦ elim v.deleted_by [
    | none ↦ (false, m)
    | some d ↦ (true, put row_id (record v { deleted_by = none } ∷ older) m)
  ]
]

-- The loop of `read` over a chain.
unfoldable pub first_visible : Manager → ReadSnapshot → List RowVersion → Option Row
first_visible transactions s [] = none
first_visible transactions s (v ∷ older) =
    let rest = first_visible transactions s older in
    if is_visible transactions v.created_by v.deleted_by s then some v.row else rest

-- MVCCRowStore::read
unfoldable pub read : ℕ → ReadSnapshot → Manager → Versions → Option Row
unfolding lookup first_visible
read row_id s transactions m = elim (lookup row_id m) [
  | none ↦ none
  | some chain ↦ first_visible transactions s chain
]

-- MVCCRowStore::visibleEntries: the keys are in order in the map
unfoldable pub entries_of : ReadSnapshot → Manager → Versions → Versions → List (ℕ × Row)
unfolding read
entries_of s transactions m [] = []
entries_of s transactions m ((row_id, chain) ∷ rest) =
    let others = entries_of s transactions m rest in
    elim (read row_id s transactions m) [ none ↦ others | some row ↦ (row_id, row) ∷ others ]

unfoldable pub visible_entries : ReadSnapshot → Manager → Versions → List (ℕ × Row)
unfolding entries_of
visible_entries s transactions m = entries_of s transactions m m

-- MVCCRowStore::visibleEntriesById
unfoldable pub visible_entries_by_id : List ℕ → ReadSnapshot → Manager → Versions → List (ℕ × Row)
unfolding read
visible_entries_by_id [] s transactions m = []
visible_entries_by_id (row_id ∷ ids) s transactions m =
    let others = visible_entries_by_id ids s transactions m in
    elim (read row_id s transactions m) [ none ↦ others | some row ↦ (row_id, row) ∷ others ]

-- MVCCRowStore::versionCount
unfoldable pub version_count : ℕ → Versions → ℕ
unfolding lookup
version_count row_id m = length (chain_of row_id m)
