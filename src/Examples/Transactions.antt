-- ===== src/Examples/Transactions.antt =====
-- Runs of the transaction manager.
use vertex_db.Base.{
  ℕ, ◌+◌, ◌<◌, ◌≡◌, refl, true, none, some, List, [], ◌∷◌, arith, Text, text_eq, inl,
}
use vertex_db.Base.OrderedMap.{lookup, put}
use vertex_db.Transactions.Conflict.{conflict_key, to_string, insert_key}
use vertex_db.Transactions.Manager.{
  Manager, Transaction, active, ReadSnapshot, ok, err, serialization_failure, init, is_active,
  is_serializable, commit, prune, begin, record_read, record_write, is_creator_visible,
  current_snapshot, write_conflict, insert_conflict, predicate_conflict,
}
use vertex_db.Transactions.Manager.WellFormed.{IsWf}
use vertex_db.Transactions.Manager.Runs.{
  Call, begins, commits, reads, writes, step, run, run-IsWf, CountsTo,
}
use vertex_db.Transactions.Manager.Pruning.{prune-is_serializable}
use vertex_db.Transactions.Manager.Isolation.{SameView, run-SameView}
use vertex_db.Transactions.Manager.Serializability.{Clashes, first_committer_wins}
use vertex_db.Transactions.Manager.Visibility.{committed_stays_visible}
use vertex_db.Transactions.Manager.Autocommit.{commit_without_concurrency}

abbrev accounts : Text
accounts = 97 ∷ 99 ∷ []

-- Two transactions begin; the first writes the row that the second reads.
abbrev racing_calls : List Call
racing_calls = begins ∷ begins ∷ writes 1 accounts 7 ∷ reads 2 accounts 7 ∷ []

abbrev racing : Manager
racing = run init racing_calls

racing-IsWf : IsWf racing
racing-IsWf = run-IsWf racing_calls (omega arith)

run-IsWf_example : IsWf (run init (begins ∷ writes 1 accounts 7 ∷ commits 1 ∷ commits 1 ∷ []))
run-IsWf_example =
    run-IsWf (begins ∷ writes 1 accounts 7 ∷ commits 1 ∷ commits 1 ∷ []) (omega arith)

first_commits : (commit racing 1).0 ≡ ok tt
unfolding run step begin record_write record_read commit is_serializable lookup put write_conflict
    insert_conflict predicate_conflict
first_commits = refl

racing_clash : Clashes racing 1 2
unfolding run step begin record_write record_read conflict_key to_string insert_key lookup put
    is_active text_eq
racing_clash = inl (conflict_key accounts 7, refl, inl refl)

second_active : is_active racing 2 ≡ true
unfolding run step begin record_write record_read lookup put is_active
second_active = refl

racing_seq : racing.next_commit_seq + 1 < 18446744073709551616
unfolding run step begin record_write record_read
racing_seq = omega arith

first_committer_wins_example : (commit (commit racing 1).1 2).0 ≡ err serialization_failure
first_committer_wins_example =
    first_committer_wins racing 1 2 racing-IsWf racing_seq (omega arith) second_active racing_clash
      first_commits

prune-is_serializable_example : is_serializable (prune racing) 2 ≡ is_serializable racing 2
prune-is_serializable_example = prune-is_serializable racing 2 racing-IsWf

racing_counted : CountsTo 4 racing
unfolding run step begin record_write record_read
racing_counted = omega arith

-- The second transaction fails, a third one begins.
abbrev later_calls : List Call
later_calls = commits 2 ∷ begins ∷ []

committed_stays_visible_example :
    is_creator_visible
      (run (commit racing 1).1 later_calls)
      1
      (current_snapshot (run (commit racing 1).1 later_calls) 3)
    ≡ true
committed_stays_visible_example =
    committed_stays_visible racing 4 1 3 later_calls racing-IsWf racing_counted (omega arith)
      first_commits

racing_id : racing.next_id + 1 < 18446744073709551616
unfolding run step begin record_write record_read
racing_id = omega arith

-- A snapshot of the second transaction, before the first one commits
abbrev second_snapshot : ReadSnapshot
second_snapshot = record { self = 2; max_commit_seq = 0 }

racing_counts : CountsTo 3 racing
unfolding run step begin record_write record_read
racing_counts = omega arith

run-SameView_example :
    SameView second_snapshot racing (run racing (commits 1 ∷ begins ∷ commits 2 ∷ []))
run-SameView_example =
    run-SameView second_snapshot racing 3 (commits 1 ∷ begins ∷ commits 2 ∷ []) racing-IsWf
      racing_counts (omega arith) (omega arith)

abbrev first_transaction : Transaction
first_transaction = record {
  id = 1;
  state = active;
  commit_seq = none;
  snapshot_max_commit_seq = 0;
}

first_found : lookup 1 racing.transactions ≡ some first_transaction
unfolding run step begin record_write record_read lookup put
first_found = refl

racing_now : 0 ≡ racing.next_commit_seq
unfolding run step begin record_write record_read
racing_now = refl

commit_without_concurrency_example : (commit racing 1).0 ≡ ok tt
commit_without_concurrency_example =
    commit_without_concurrency racing 1 first_transaction racing-IsWf first_found refl racing_now

abbrev seventeen : ℕ
seventeen = 17
