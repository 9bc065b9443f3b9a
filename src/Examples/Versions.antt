-- ===== src/Examples/Versions.antt =====
-- Versions of rows under concurrent transactions, and the undo log.
use vertex_db.Base.{◌≡◌, ◌≢◌, refl, true, false, none, some, List, [], ◌∷◌, arith, Text, inl, inr}
use vertex_db.Base.Int.{pos}
use vertex_db.Base.OrderedMap.{Map, lookup, put, erase}
use vertex_db.Common.Value.{Value, Row, int}
use vertex_db.Transactions.Manager.{
  Manager, ReadSnapshot, init, is_active, is_creator_visible, begin, commit, rollback,
  begin_committed, is_serializable, write_conflict, insert_conflict, predicate_conflict, prune,
}
use vertex_db.Transactions.Manager.Runs.{begins, begins_committed, rolls_back, step, run, run-IsWf}
use vertex_db.Transactions.VersionStore.{
  Versions, RowVersion, chain_of, write, erase_row, pop_latest_version, clear_latest_deleted_by,
  first_visible, read,
}
use vertex_db.Transactions.VersionStore.Reads.{IsLatestOpen}
use vertex_db.Transactions.VersionStore.Undo.{
  pop_latest_version-write, clear_latest_deleted_by-erase_row, pop_latest_version_revives,
}
use vertex_db.Transactions.VersionStore.Snapshots.{
  System, Action, IsOther, calls, writes_row, erases_row, pops_version, clears_deletion, act,
  act_all, IsReady, AllByOthers, repeatable_read,
}
use vertex_db.Transactions.VersionStore.Columns.{
  extract_column, extract_chain, insert_column, erase_at,
}
use vertex_db.Transactions.VersionStore.Columns.Undoing.{UniqueKeys, insert_column-extract_column}
use vertex_db.Transactions.UndoLog.{UndoRecord}

abbrev ten : Row
ten = int (pos 10) ∷ []

abbrev twenty : Row
twenty = int (pos 20) ∷ []

-- Row 0 was loaded; two transactions are active.
abbrev two_active : System
two_active = record {
  manager = run init (begins ∷ begins ∷ []);
  versions = (0, record { created_by = 0; deleted_by = none; row = ten } ∷ []) ∷ [];
}

abbrev reader : ReadSnapshot
reader = record { self = 1; max_commit_seq = 0 }

two_active-IsReady : IsReady reader 3 two_active
unfolding run step begin
two_active-IsReady = record {
  wf = run-IsWf (begins ∷ begins ∷ []) (omega arith);
  counts = omega arith;
  taken = omega arith;
}

-- The second transaction updates row 0, inserts row 1, deletes it again and rolls back with its undo;
-- then an autocommit writes row 0.
abbrev updates : List Action
updates =
    writes_row 0 twenty 2
    ∷ writes_row 1 ten 2
    ∷ erases_row 1 2
    ∷ clears_deletion 1 2
    ∷ pops_version 1 2
    ∷ pops_version 0 2
    ∷ calls (rolls_back 2)
    ∷ calls begins_committed
    ∷ writes_row 0 twenty 3
    ∷ []

second-IsOther : IsOther reader two_active.manager 2
unfolding run step begin is_active lookup put
second-IsOther = (omega arith, omega arith, inl refl)

updates_by_others : AllByOthers reader two_active updates
unfolding act run step begin is_active lookup put write erase_row pop_latest_version
    clear_latest_deleted_by rollback prune begin_committed commit is_serializable write_conflict
    insert_conflict predicate_conflict erase
updates_by_others = (
  second-IsOther,
  (
    second-IsOther,
    (
      (second-IsOther, refl),
      (
        (second-IsOther, inr refl),
        (
          (second-IsOther, (refl, tt)),
          (
            (second-IsOther, (refl, inr refl)),
            (tt, (tt, ((omega arith, omega arith, inr (_, 1, refl, refl, omega arith)), tt))),
          ),
        ),
      ),
    ),
  ),
)

repeatable_read_example :
    read 0 reader (act_all two_active updates).manager (act_all two_active updates).versions
    ≡ read 0 reader two_active.manager two_active.versions
repeatable_read_example =
    repeatable_read reader 3 0 two_active updates two_active-IsReady (omega arith) updates_by_others

second_hidden : is_creator_visible two_active.manager 2 reader ≡ false
unfolding is_creator_visible run step begin lookup put
second_hidden = refl

row_open : IsLatestOpen (chain_of 0 two_active.versions)
unfolding lookup
row_open = refl

pop_latest_version-write_example :
    chain_of 0 (pop_latest_version 0 (write 0 twenty 2 two_active.versions)).1
    ≡ chain_of 0 two_active.versions
pop_latest_version-write_example =
    pop_latest_version-write 0 0 twenty 2 two_active.versions row_open

clear_latest_deleted_by-erase_row_example :
    chain_of 0 (clear_latest_deleted_by 0 (erase_row 0 2 two_active.versions)).1
    ≡ chain_of 0 two_active.versions
clear_latest_deleted_by-erase_row_example =
    clear_latest_deleted_by-erase_row 0 0 2 two_active.versions row_open

-- Row 0 was deleted in an autocommit; then a transaction inserts into its slot and rolls back.
abbrev deleted_once : Manager
deleted_once = run init (begins_committed ∷ begins ∷ [])

abbrev deleted_version : RowVersion
deleted_version = record { created_by = 0; deleted_by = some 1; row = ten }

abbrev later_reader : ReadSnapshot
later_reader = record { self = 3; max_commit_seq = 1 }

creator_seen : is_creator_visible deleted_once 0 later_reader ≡ true
unfolding is_creator_visible
creator_seen = refl

deleter_seen : is_creator_visible deleted_once 1 later_reader ≡ true
unfolding is_creator_visible run step begin commit lookup put begin_committed is_serializable
    write_conflict insert_conflict predicate_conflict prune
deleter_seen = refl

deleted_chain : lookup 0 ((0, deleted_version ∷ []) ∷ []) ≡ some (deleted_version ∷ [])
unfolding lookup
deleted_chain = refl

pop_latest_version_revives_example :
    (read 0 later_reader deleted_once
        (pop_latest_version 0 (write 0 twenty 2 ((0, deleted_version ∷ []) ∷ []))).1
      ≡ some ten)
    × (read 0 later_reader deleted_once ((0, deleted_version ∷ []) ∷ [])
        ≡ first_visible deleted_once later_reader [])
pop_latest_version_revives_example =
    pop_latest_version_revives deleted_once later_reader 0 twenty 2 1 deleted_version []
      ((0, deleted_version ∷ []) ∷ []) deleted_chain refl creator_seen deleter_seen

-- Two records of the undo log; what else they hold is left out.
abbrev old_table : Text
old_table = 97 ∷ []

abbrev new_table : Text
new_table = 98 ∷ []

abbrev log : List (UndoRecord (Unit {0}))
log =
    record { table_name = old_table; rename_to = []; rest = tt }
    ∷ record { table_name = 99 ∷ []; rename_to = old_table; rest = tt }
    ∷ []

names_differ : old_table ≢ new_table
names_differ = λ e. ground arith

abbrev table_versions : Versions
table_versions =
    (3, record { created_by = 1; deleted_by = none; row = int (pos 10) ∷ int (pos 11) ∷ [] } ∷ [])
    ∷ (5, record { created_by = 1; deleted_by = none; row = int (pos 20) ∷ int (pos 21) ∷ [] } ∷ [])
    ∷ []

abbrev first_column : Map (List Value)
first_column = (3, int (pos 10) ∷ []) ∷ (5, int (pos 20) ∷ []) ∷ []

rows_apart : UniqueKeys table_versions
rows_apart = ((omega arith, tt), (tt, tt))

column_extracted : (extract_column 0 table_versions).0 ≡ some first_column
unfolding extract_column extract_chain erase_at
column_extracted = refl

insert_column-extract_column_example :
    insert_column 0 first_column (extract_column 0 table_versions).1 ≡ (true, table_versions)
insert_column-extract_column_example =
    insert_column-extract_column 0 table_versions first_column rows_apart column_extracted
