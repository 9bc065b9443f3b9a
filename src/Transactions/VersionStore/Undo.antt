-- ===== src/Transactions/VersionStore/Undo.antt =====
-- Undoing a write or a deletion.
use vertex_db.Base.{
  ℕ, ◌≡◌, refl, ap, ◌∙◌, true, none, some, List, [], ◌∷◌, arith, ◌==◌, if◌then◌else◌, Option-cases,
  inl, inr,
}
use vertex_db.Base.OrderedMap.{lookup, lookup-put, lookup-erase}
use vertex_db.Common.Value.{Row}
use vertex_db.Transactions.Manager.{Manager, ReadSnapshot, is_visible, is_creator_visible}
use vertex_db.Transactions.VersionStore.{
  RowVersion, Versions, chain_of, close_latest, mark_latest, write, erase_row, first_visible, read,
  pop_latest_version, clear_latest_deleted_by,
}
use vertex_db.Transactions.VersionStore.Reads.{IsLatestOpen}

-- The chain after a write, and after the pop that undoes it.
chain-write :
    (row_id j : ℕ) (row : Row) (txn : ℕ) (m : Versions)
    → chain_of j (write row_id row txn m) ≡ (
        if row_id == j
        then record { created_by = txn; deleted_by = none; row = row }
          ∷ close_latest txn (chain_of row_id m)
        else chain_of j m)
unfolding write
chain-write row_id j row txn m = ground (
  arith,
  lookup-put row_id j
      (record { created_by = txn; deleted_by = none; row = row }
        ∷ close_latest txn (chain_of row_id m))
      m,
)

abbrev pub popped : List RowVersion → List RowVersion
popped [] = []
popped (v ∷ older) = mark_latest none older

pub chain-pop :
    (row_id j : ℕ) (m : Versions)
    → chain_of j (pop_latest_version row_id m).1
      ≡ (if row_id == j then popped (chain_of row_id m) else chain_of j m)
unfolding pop_latest_version
chain-pop row_id j m = go (chain_of row_id m) refl
  where
    go :
        (c : List RowVersion)
        → chain_of row_id m ≡ c
        → chain_of j (pop_latest_version row_id m).1
          ≡ (if row_id == j then popped c else chain_of j m)
    go [] e = rw (e, pop_latest_version) (ground arith)
    go (v ∷ []) e = rw (e, pop_latest_version) (ground (arith, lookup-erase row_id j m))
    go (v ∷ w ∷ rest) e =
        rw (e, pop_latest_version)
          (ground (arith, lookup-put row_id j (record w { deleted_by = none } ∷ rest) m))

undone :
    (txn : ℕ) (chain : List RowVersion)
    → IsLatestOpen chain
    → mark_latest none (close_latest txn chain) ≡ chain
undone txn [] h = refl
undone txn (v ∷ older) h = ground arith

-- The pop after a write restores every chain, if the newest version of the row was not deleted: the
-- undo of an INSERT into a fresh slot and of an UPDATE.
pub pop_latest_version-write :
    (row_id j : ℕ) (row : Row) (txn : ℕ) (m : Versions)
    → IsLatestOpen (chain_of row_id m)
    → chain_of j (pop_latest_version row_id (write row_id row txn m)).1 ≡ chain_of j m
pop_latest_version-write row_id j row txn m h = ground (
  arith,
  chain-pop row_id j (write row_id row txn m),
  chain-write row_id row_id row txn m,
  chain-write row_id j row txn m,
  undone txn (chain_of row_id m) h,
)

pub read-chain_of :
    (row_id : ℕ) (s : ReadSnapshot) (tm : Manager) (m : Versions)
    → read row_id s tm m ≡ first_visible tm s (chain_of row_id m)
unfolding read first_visible
read-chain_of row_id s tm m = ground arith

open_visible :
    (tm : Manager) (s : ReadSnapshot) (v : RowVersion) (older : List RowVersion)
    → is_creator_visible tm v.created_by s ≡ true
    → first_visible tm s (record v { deleted_by = none } ∷ older) ≡ some v.row
unfolding first_visible is_visible
open_visible tm s v older h = ground arith

deleted_passed :
    (tm : Manager) (s : ReadSnapshot) (d : ℕ) (v : RowVersion) (older : List RowVersion)
    → v.deleted_by ≡ some d
    → is_creator_visible tm d s ≡ true
    → first_visible tm s (v ∷ older) ≡ first_visible tm s older
unfolding first_visible is_visible
deleted_passed tm s d v older h k = ground arith

marked :
    (txn : ℕ) (chain : List RowVersion)
    → IsLatestOpen chain
    → mark_latest none (mark_latest (some txn) chain) ≡ chain
marked txn [] h = refl
marked txn (v ∷ older) h = ground arith

-- Where the newest version had been deleted, as when an INSERT takes the slot of a deleted row, the
-- pop after a write brings the deleted version back: a snapshot that sees its creator and its
-- deleter reads it again, where before the write it read on in the older versions.
pub pop_latest_version_revives :
    (tm : Manager) (s : ReadSnapshot) (row_id : ℕ) (row : Row) (txn d : ℕ) (v : RowVersion)
    (older : List RowVersion) (m : Versions)
    → lookup row_id m ≡ some (v ∷ older)
    → v.deleted_by ≡ some d
    → is_creator_visible tm v.created_by s ≡ true
    → is_creator_visible tm d s ≡ true
    → (read row_id s tm (pop_latest_version row_id (write row_id row txn m)).1 ≡ some v.row)
      × (read row_id s tm m ≡ first_visible tm s older)
pop_latest_version_revives tm s row_id row txn d v older m e deleted seen gone = (
  read-chain_of row_id s tm (pop_latest_version row_id (write row_id row txn m)).1
      ∙ ap (first_visible tm s) (
          ground (
            arith,
            chain-pop row_id row_id (write row_id row txn m),
            chain-write row_id row_id row txn m,
          ))
      ∙ open_visible tm s v older seen,
  read-chain_of row_id s tm m
      ∙ ap (first_visible tm s) (ground arith)
      ∙ deleted_passed tm s d v older deleted gone,
)

chain-erase_row :
    (row_id j txn : ℕ) (m : Versions)
    → chain_of j (erase_row row_id txn m)
      ≡ (if row_id == j then mark_latest (some txn) (chain_of row_id m) else chain_of j m)
unfolding erase_row
chain-erase_row row_id j txn m = elim (Option-cases (lookup row_id m)) [
  | inl e ↦ ground arith
  | inr (chain, e) ↦ ground (arith, lookup-put row_id j (mark_latest (some txn) chain) m)
]

abbrev pub cleared : List RowVersion → List RowVersion
cleared = mark_latest none

pub chain-clear :
    (row_id j : ℕ) (m : Versions)
    → chain_of j (clear_latest_deleted_by row_id m).1
      ≡ (if row_id == j then cleared (chain_of row_id m) else chain_of j m)
unfolding clear_latest_deleted_by
chain-clear row_id j m = go (chain_of row_id m) refl
  where
    go :
        (c : List RowVersion)
        → chain_of row_id m ≡ c
        → chain_of j (clear_latest_deleted_by row_id m).1
          ≡ (if row_id == j then cleared c else chain_of j m)
    go [] e = rw (e, clear_latest_deleted_by) (ground arith)
    go (v ∷ older) e =
        rw (e, clear_latest_deleted_by)
          (ground (arith, lookup-put row_id j (record v { deleted_by = none } ∷ older) m))

-- The undo of a DELETE restores every chain, if the newest version was open.
pub clear_latest_deleted_by-erase_row :
    (row_id j txn : ℕ) (m : Versions)
    → IsLatestOpen (chain_of row_id m)
    → chain_of j (clear_latest_deleted_by row_id (erase_row row_id txn m)).1 ≡ chain_of j m
clear_latest_deleted_by-erase_row row_id j txn m h = ground (
  arith,
  chain-clear row_id j (erase_row row_id txn m),
  chain-erase_row row_id row_id txn m,
  chain-erase_row row_id j txn m,
  marked txn (chain_of row_id m) h,
)
