-- ===== src/Transactions/Manager.antt =====
-- transaction/transaction_manager.hpp and .cpp: the transaction manager, its state and operations.
-- A method that may throw returns its result beside the state, which keeps what was written.
pub mod WellFormed
pub mod Pruning
pub mod Isolation
pub mod Serializability
pub mod Runs
pub mod Autocommit
pub mod Visibility
use vertex_db.Base.{
  ℕ, ◌+◌, ◌%◌, Text, Bool, true, false, not, ◌&&◌, ◌||◌, Option, none, some, List, [], ◌∷◌, ◌++◌,
  ltb, leb, ◌==◌, if◌then◌else◌, any,
}
use Prim.Native.Nat.{min}
use mathlib.Core.List.{foldl}
use vertex_db.Base.OrderedMap.{Map, lookup, put, erase, emplace, erase_upto}
use vertex_db.Transactions.Conflict.{
  SsiPredicate, SsiInsert, conflict_key, insert_key, intersects, predicate_conflicts_with_inserts,
}

pub data TransactionState : Type 0 where
  active committed rolled_back : TransactionState

-- struct Transaction
pub record Transaction : Type 0 where
  pub id : ℕ
  pub state : TransactionState
  pub commit_seq : Option ℕ
  pub snapshot_max_commit_seq : ℕ

-- struct ReadSnapshot
pub record ReadSnapshot : Type 0 where
  pub self : ℕ
  pub max_commit_seq : ℕ

abbrev pub system_transaction_id : ℕ
system_transaction_id = 0

-- class TransactionManager
pub record Manager : Type 0 where
  pub next_id : ℕ
  pub next_commit_seq : ℕ
  pub transactions : Map Transaction
  pub active_reads : Map (List Text)
  pub active_writes : Map (List Text)
  pub active_predicate_reads : Map (List SsiPredicate)
  pub active_inserts : Map (List SsiInsert)
  pub committed_write_sets : Map (List Text)
  pub committed_predicate_reads : Map (List SsiPredicate)
  pub committed_inserts : Map (List SsiInsert)

abbrev pub init : Manager
init = record {
  next_id = 1;
  next_commit_seq = 0;
  transactions = [];
  active_reads = [];
  active_writes = [];
  active_predicate_reads = [];
  active_inserts = [];
  committed_write_sets = [];
  committed_predicate_reads = [];
  committed_inserts = [];
}

pub data Error : Type 0 where
  inactive_transaction serialization_failure : Error

pub data Result {ℓ} (A : Type ℓ) : Type ℓ where
  ok : A → Result A
  err : Error → Result A

-- An identifier or a sequence number is a uint64_t.
abbrev pub increment : ℕ → ℕ
increment n = (n + 1) % 18446744073709551616

abbrev pub is_active_state : TransactionState → Bool
is_active_state active = true
is_active_state _ = false

abbrev pub is_empty {ℓ} : {A : Type ℓ} → List A → Bool
is_empty [] = true
is_empty (x ∷ xs) = false

-- The set of an identifier, empty if the map has none.
abbrev pub set_of {ℓ} : {A : Type ℓ} → ℕ → Map (List A) → List A
set_of id m = elim (lookup id m) [ none ↦ [] | some s ↦ s ]

-- TransactionManager::begin
unfoldable pub begin : Manager → Transaction × Manager
unfolding emplace
begin m =
    let t : Transaction = record {
      id = m.next_id;
      state = active;
      commit_seq = none;
      snapshot_max_commit_seq = m.next_commit_seq;
    } in
    (
      t,
      record m {
        next_id = increment m.next_id;
        transactions = emplace m.next_id t m.transactions;
        active_reads = emplace m.next_id [] m.active_reads;
        active_writes = emplace m.next_id [] m.active_writes;
        active_predicate_reads = emplace m.next_id [] m.active_predicate_reads;
        active_inserts = emplace m.next_id [] m.active_inserts;
      },
    )

-- The transaction is in the map and active.
unfoldable pub is_active : Manager → ℕ → Bool
unfolding lookup
is_active m id = elim (lookup id m.transactions) [ none ↦ false | some t ↦ is_active_state t.state ]

-- The three loops of isSerializable over the sets of transactions that committed after the
-- snapshot was taken.
unfoldable pub write_conflict : ℕ → List Text → List Text → Map (List Text) → Bool
write_conflict snapshot reads writes =
    any λ e. not (leb e.0 snapshot) && (intersects reads e.1 || intersects writes e.1)

unfoldable pub insert_conflict : ℕ → List SsiPredicate → Map (List SsiInsert) → Bool
insert_conflict snapshot predicates =
    any λ e. not (leb e.0 snapshot) && predicate_conflicts_with_inserts predicates e.1

unfoldable pub predicate_conflict : ℕ → List SsiInsert → Map (List SsiPredicate) → Bool
predicate_conflict snapshot inserts =
    any λ e. not (leb e.0 snapshot) && predicate_conflicts_with_inserts e.1 inserts

-- TransactionManager::isSerializable
unfoldable pub is_serializable : Manager → ℕ → Bool
unfolding lookup
is_serializable m id = elim (lookup id m.transactions) [
  | none ↦ false
  | some t ↦
      if not (is_active_state t.state)
      then false
      else if write_conflict t.snapshot_max_commit_seq (set_of id m.active_reads)
          (set_of id m.active_writes) m.committed_write_sets
      then false
      else if insert_conflict t.snapshot_max_commit_seq (set_of id m.active_predicate_reads)
          m.committed_inserts
      then false
      else if predicate_conflict t.snapshot_max_commit_seq (set_of id m.active_inserts)
          m.committed_predicate_reads
      then false
      else true
]

-- `consider` of pruneCommittedConflictSets
unfoldable pub consider : Manager → ℕ → ℕ → ℕ
unfolding lookup
consider m least id = elim (lookup id m.transactions) [
  | none ↦ least
  | some t ↦ if is_active_state t.state then min least t.snapshot_max_commit_seq else least
]

-- The loop of `consider` over the keys of one map.
unfoldable pub consider_all {ℓ} : {A : Type ℓ} → Manager → ℕ → Map A → ℕ
unfolding consider
consider_all m least [] = least
consider_all m least ((id, s) ∷ rest) = consider_all m (consider m least id) rest

unfoldable pub min_snapshot : Manager → ℕ
min_snapshot m =
    consider_all m
      (consider_all m
        (consider_all m (consider_all m m.next_commit_seq m.active_reads) m.active_predicate_reads)
        m.active_inserts)
      m.active_writes

-- TransactionManager::pruneCommittedConflictSets
unfoldable pub prune : Manager → Manager
unfolding erase_upto
prune m =
    if is_empty m.active_reads
      && is_empty m.active_predicate_reads
      && is_empty m.active_inserts
      && is_empty m.active_writes
    then record m {
      committed_write_sets = [];
      committed_predicate_reads = [];
      committed_inserts = [];
    }
    else record m {
      committed_write_sets = erase_upto (min_snapshot m) m.committed_write_sets;
      committed_predicate_reads = erase_upto (min_snapshot m) m.committed_predicate_reads;
      committed_inserts = erase_upto (min_snapshot m) m.committed_inserts;
    }

-- The four active sets of a transaction that ends are erased.
abbrev pub end_active : Manager → ℕ → Manager
end_active m id = record m {
  active_reads = erase id m.active_reads;
  active_writes = erase id m.active_writes;
  active_predicate_reads = erase id m.active_predicate_reads;
  active_inserts = erase id m.active_inserts;
}

-- TransactionManager::rollback
unfoldable pub rollback : Manager → ℕ → Result (Unit {0}) × Manager
unfolding lookup put erase
rollback m id = elim (lookup id m.transactions) [
  | none ↦ (err inactive_transaction, m)
  | some t ↦ if not (is_active_state t.state) then (err inactive_transaction, m) else (
    ok tt,
    prune (
        end_active
          (record m { transactions = put id (record t { state = rolled_back }) m.transactions })
          id),
  )
]

-- `sets.emplace(seq, move(set))`, done for a set that is not empty
abbrev pub keep_set {ℓ} : {A : Type ℓ} → ℕ → List A → Map (List A) → Map (List A)
keep_set seq s m = if is_empty s then m else emplace seq s m

-- The state when the transaction is marked committed and its sets are handed over.
abbrev pub hand_over : Manager → ℕ → Transaction → Manager
hand_over m id t =
    let seq = increment m.next_commit_seq in
    record m {
      next_commit_seq = seq;
      transactions = put id (record t { state = committed; commit_seq = some seq }) m.transactions;
      committed_write_sets = keep_set seq (set_of id m.active_writes) m.committed_write_sets;
      committed_predicate_reads =
          keep_set seq (set_of id m.active_predicate_reads) m.committed_predicate_reads;
      committed_inserts = keep_set seq (set_of id m.active_inserts) m.committed_inserts;
    }

-- TransactionManager::commit
unfoldable pub commit : Manager → ℕ → Result (Unit {0}) × Manager
unfolding lookup put erase emplace
commit m id = elim (lookup id m.transactions) [
  | none ↦ (err inactive_transaction, m)
  | some t ↦
      if not (is_active_state t.state)
      then (err inactive_transaction, m)
      else if not (is_serializable m id)
      then (err serialization_failure, (rollback m id).1)
      else (ok tt, prune (end_active (hand_over m id t) id))
]

-- TransactionManager::beginCommitted
unfoldable pub begin_committed : Manager → Result ℕ × Manager
begin_committed m =
    let (t, m') = begin m in
    let (r, m'') = commit m' t.id in elim r [ ok u ↦ (ok t.id, m'') | err e ↦ (err e, m'') ]

-- TransactionManager::isCreatorVisible
unfoldable pub is_creator_visible : Manager → ℕ → ReadSnapshot → Bool
unfolding lookup
is_creator_visible m creator snapshot =
    if creator == system_transaction_id
    then true
    else if creator == snapshot.self
    then true
    else elim (lookup creator m.transactions) [
      | none ↦ false
      | some t ↦ elim t.state [
        | committed ↦ elim t.commit_seq [
          | none ↦ false
          | some seq ↦ leb seq snapshot.max_commit_seq
        ]
        | _ ↦ false
      ]
    ]

-- TransactionManager::isVisible
unfoldable pub is_visible : Manager → ℕ → Option ℕ → ReadSnapshot → Bool
is_visible m created_by deleted_by snapshot =
    if not (is_creator_visible m created_by snapshot) then false else elim deleted_by [
      | none ↦ true
      | some d ↦ if is_creator_visible m d snapshot then false else true
    ]

-- TransactionManager::currentSnapshot
abbrev pub current_snapshot : Manager → ℕ → ReadSnapshot
current_snapshot m self = record { self = self; max_commit_seq = m.next_commit_seq }

-- TransactionManager::recordRead
unfoldable pub record_read : Manager → ℕ → Text → ℕ → Manager
unfolding lookup put conflict_key insert_key
record_read m id relation row_id =
    if id == system_transaction_id then m else elim (lookup id m.active_reads) [
      | none ↦ m
      | some s ↦ record m {
        active_reads = put id (insert_key (conflict_key relation row_id) s) m.active_reads;
      }
    ]

-- The commit sequence of a transaction that has committed.
abbrev pub committed_seq : Manager → ℕ → Option ℕ
committed_seq m id = elim (lookup id m.transactions) [
  | none ↦ none
  | some t ↦ elim t.state [ committed ↦ t.commit_seq | _ ↦ none ]
]

-- TransactionManager::recordWrite: an autocommit write joins the commit that has been made.
unfoldable pub record_write : Manager → ℕ → Text → ℕ → Manager
unfolding lookup put conflict_key insert_key
record_write m id relation row_id =
    let key = conflict_key relation row_id in
    if id == system_transaction_id then m else elim (lookup id m.active_writes) [
      | some s ↦ record m { active_writes = put id (insert_key key s) m.active_writes }
      | none ↦ elim (committed_seq m id) [
        | none ↦ m
        | some seq ↦ record m {
          committed_write_sets =
              put seq (insert_key key (set_of seq m.committed_write_sets)) m.committed_write_sets;
        }
      ]
    ]

-- TransactionManager::recordPredicateRead
unfoldable pub record_predicate_read : Manager → ℕ → SsiPredicate → Manager
unfolding lookup put
record_predicate_read m id predicate =
    if id == system_transaction_id then m else elim (lookup id m.active_predicate_reads) [
      | none ↦ m
      | some s ↦ record m {
        active_predicate_reads = put id (s ++ predicate ∷ []) m.active_predicate_reads;
      }
    ]

-- TransactionManager::recordRelationRead
abbrev pub relation_predicate : Text → SsiPredicate
relation_predicate relation = record {
  relation = relation;
  column = [];
  op = none;
  value = none;
  like_pattern = none;
}

unfoldable pub record_relation_read : Manager → ℕ → Text → Manager
unfolding record_predicate_read
record_relation_read m id relation = record_predicate_read m id (relation_predicate relation)

-- TransactionManager::recordInsert
unfoldable pub record_insert : Manager → ℕ → SsiInsert → Manager
unfolding lookup put
record_insert m id insert =
    if id == system_transaction_id then m else elim (lookup id m.active_inserts) [
      | some s ↦ record m { active_inserts = put id (s ++ insert ∷ []) m.active_inserts }
      | none ↦ elim (committed_seq m id) [
        | none ↦ m
        | some seq ↦ record m {
          committed_inserts =
              put seq (set_of seq m.committed_inserts ++ insert ∷ []) m.committed_inserts;
        }
      ]
    ]
