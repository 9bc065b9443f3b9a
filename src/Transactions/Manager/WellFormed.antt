-- ===== src/Transactions/Manager/WellFormed.antt =====
-- The invariant of the transaction manager, and that each operation keeps it.
pub mod Commit
pub mod Begin
pub mod Records
use vertex_db.Base.{
  ℕ, ◌+◌, ◌≤◌, ◌<◌, ◌≡◌, ◌≢◌, refl, sym, ◌∙◌, Text, Bool, true, false, not, Option, none, some,
  List, [], ◌∷◌, arith, is_some, ◌==◌, leb, if◌then◌else◌, Bool-cases, Option-cases, inl, inr,
}
use vertex_db.Base.OrderedMap.{
  Map, lookup, put, erase, emplace, erase_upto, lookup-put, lookup-erase, lookup-emplace,
  lookup-erase_upto,
}
use vertex_db.Transactions.Conflict.{SsiPredicate, SsiInsert}
use vertex_db.Transactions.Manager.{
  Manager, Transaction, TransactionState, active, committed, rolled_back, Result, ok, err,
  is_active_state, is_active, begin, prune, end_active, hand_over, rollback, commit, keep_set,
  set_of, increment, init, min_snapshot, is_serializable, committed_seq, record_read, record_write,
  record_predicate_read, record_insert, begin_committed, is_empty,
}

-- What the manager knows of a transaction in its map.
pub record IsKnown (next_id next_commit_seq i : ℕ) (t : Transaction) : Type 0 where
  pub same_id : t.id ≡ i
  pub id_below : i < next_id
  pub snapshot_below : t.snapshot_max_commit_seq ≤ next_commit_seq
  pub seq_of_committed : t.state ≡ committed → t.commit_seq ≢ none
  pub committed_of_seq : (s : ℕ) → t.commit_seq ≡ some s → t.state ≡ committed
  pub seq_below : (s : ℕ) → t.commit_seq ≡ some s → s ≤ next_commit_seq
  pub seq_after_snapshot : (s : ℕ) → t.commit_seq ≡ some s → t.snapshot_max_commit_seq < s

pub record IsWf (m : Manager) : Type 0 where
  pub known :
      (i : ℕ) (t : Transaction)
      → lookup i m.transactions ≡ some t
      → IsKnown m.next_id m.next_commit_seq i t
  -- a commit sequence belongs to one transaction
  pub seq_unique : (i j s : ℕ) → committed_seq m i ≡ some s → committed_seq m j ≡ some s → i ≡ j
  -- exactly the active transactions have conflict sets
  pub reads_of_active : (i : ℕ) → is_some (lookup i m.active_reads) ≡ is_active m i
  pub writes_of_active : (i : ℕ) → is_some (lookup i m.active_writes) ≡ is_active m i
  pub predicates_of_active : (i : ℕ) → is_some (lookup i m.active_predicate_reads) ≡ is_active m i
  pub inserts_of_active : (i : ℕ) → is_some (lookup i m.active_inserts) ≡ is_active m i
  -- committed sets stand under sequence numbers that have been given out
  pub writes_below : (s : ℕ) → m.next_commit_seq < s → lookup s m.committed_write_sets ≡ none
  pub predicates_below :
      (s : ℕ) → m.next_commit_seq < s → lookup s m.committed_predicate_reads ≡ none
  pub inserts_below : (s : ℕ) → m.next_commit_seq < s → lookup s m.committed_inserts ≡ none

-- Neither counter is at its last value.
abbrev pub HasRoom : Manager → Type 0
HasRoom m = (m.next_id + 1 < 18446744073709551616) × (m.next_commit_seq + 1 < 18446744073709551616)

pub if_elim {ℓ κ} :
    {A : Type ℓ} (P : A → Type κ) (b : Bool) (x y : A) → P x → P y → P (if b then x else y)
if_elim P true x y p q = p
if_elim P false x y p q = q

erased_below {ℓ} :
    {A : Type ℓ} (b s : ℕ) (m : Map A) → lookup s m ≡ none → lookup s (erase_upto b m) ≡ none
erased_below b s m h = ground (arith, lookup-erase_upto b s m)

pub prune-IsWf : {m : Manager} → IsWf m → IsWf (prune m)
unfolding prune lookup is_active
prune-IsWf {m} v =
    if_elim IsWf _ _ _
      (record {
        known = v.known;
        seq_unique = v.seq_unique;
        reads_of_active = v.reads_of_active;
        writes_of_active = v.writes_of_active;
        predicates_of_active = v.predicates_of_active;
        inserts_of_active = v.inserts_of_active;
        writes_below = λ s h. refl;
        predicates_below = λ s h. refl;
        inserts_below = λ s h. refl;
      })
      (record {
        known = v.known;
        seq_unique = v.seq_unique;
        reads_of_active = v.reads_of_active;
        writes_of_active = v.writes_of_active;
        predicates_of_active = v.predicates_of_active;
        inserts_of_active = v.inserts_of_active;
        writes_below = λ s h. erased_below _ s m.committed_write_sets (v.writes_below s h);
        predicates_below =
            λ s h. erased_below _ s m.committed_predicate_reads (v.predicates_below s h);
        inserts_below = λ s h. erased_below _ s m.committed_inserts (v.inserts_below s h);
      })

-- A transaction that is marked rolled back.
roll-IsWf :
    {m : Manager} (id : ℕ) (t : Transaction)
    → IsWf m
    → lookup id m.transactions ≡ some t
    → is_active_state t.state ≡ true
    → IsWf (
        end_active
          (record m { transactions = put id (record t { state = rolled_back }) m.transactions })
          id)
unfolding is_active
roll-IsWf {m} id t v h a = record {
  known = λ i u e. ground (
    arith,
    lookup-put id i (record t { state = rolled_back }) m.transactions,
    v.known i u,
    v.known id t h,
  );
  seq_unique = λ i j s p q. ground (
    arith,
    lookup-put id i (record t { state = rolled_back }) m.transactions,
    lookup-put id j (record t { state = rolled_back }) m.transactions,
    v.seq_unique i j s,
  );
  reads_of_active = λ i. ground (
    arith,
    lookup-put id i (record t { state = rolled_back }) m.transactions,
    lookup-erase id i m.active_reads,
    v.reads_of_active i,
  );
  writes_of_active = λ i. ground (
    arith,
    lookup-put id i (record t { state = rolled_back }) m.transactions,
    lookup-erase id i m.active_writes,
    v.writes_of_active i,
  );
  predicates_of_active = λ i. ground (
    arith,
    lookup-put id i (record t { state = rolled_back }) m.transactions,
    lookup-erase id i m.active_predicate_reads,
    v.predicates_of_active i,
  );
  inserts_of_active = λ i. ground (
    arith,
    lookup-put id i (record t { state = rolled_back }) m.transactions,
    lookup-erase id i m.active_inserts,
    v.inserts_of_active i,
  );
  writes_below = v.writes_below;
  predicates_below = v.predicates_below;
  inserts_below = v.inserts_below;
}

pub rollback-IsWf : {m : Manager} (id : ℕ) → IsWf m → IsWf (rollback m id).1
unfolding rollback
rollback-IsWf {m} id v = elim (Option-cases (lookup id m.transactions)) [
  | inl e ↦ rw (e, rollback) v
  | inr (t, e) ↦ elim (Bool-cases (is_active_state t.state)) [
    | inl a ↦ rw (e, a, rollback) (prune-IsWf (roll-IsWf id t v e a))
    | inr n ↦ rw (e, n, rollback) v
  ]
]
