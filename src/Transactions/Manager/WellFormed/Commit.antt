-- ===== src/Transactions/Manager/WellFormed/Commit.antt =====
-- `commit` keeps the invariant of the transaction manager.
use vertex_db.Base.{
  ℕ, ◌+◌, ◌≤◌, ◌<◌, ◌≡◌, true, none, some, List, [], ◌∷◌, arith, Bool-cases, Option-cases, inl, inr,
}
use vertex_db.Base.OrderedMap.{Map, lookup, emplace, lookup-put, lookup-erase}
use vertex_db.Transactions.Manager.{
  Manager, Transaction, committed, is_active_state, is_active, end_active, hand_over, commit,
  keep_set, increment, is_serializable, committed_seq,
}
use vertex_db.Transactions.Manager.WellFormed.{IsWf, prune-IsWf, rollback-IsWf}

pub committed_seq_below :
    {m : Manager} (i s : ℕ) → IsWf m → committed_seq m i ≡ some s → s ≤ m.next_commit_seq
committed_seq_below {m} i s v h = elim (Option-cases (lookup i m.transactions)) [
  | inl e ↦ ground arith
  | inr (t, e) ↦ (v.known i t e).seq_below s (ground arith)
]

kept_above {ℓ} :
    {A : Type ℓ} (seq s : ℕ) (xs : List A) (m : Map (List A))
    → lookup s m ≡ none
    → seq < s
    → lookup s (keep_set seq xs m) ≡ none
unfolding emplace
kept_above seq s [] m h k = h
kept_above seq s (x ∷ xs) m h k = ground (arith, lookup-put seq s (x ∷ xs) m)

-- A transaction that commits.
pub hand_over-IsWf :
    {m : Manager} (id : ℕ) (t : Transaction)
    → IsWf m
    → m.next_commit_seq + 1 < 18446744073709551616
    → lookup id m.transactions ≡ some t
    → is_active_state t.state ≡ true
    → IsWf (end_active (hand_over m id t) id)
unfolding is_active
hand_over-IsWf {m} id t v room h a = record {
  known = λ i u e. ground (arith, lookup-put id i t' m.transactions, v.known i u, v.known id t h);
  seq_unique = λ i j s p q. ground (
    arith,
    lookup-put id i t' m.transactions,
    lookup-put id j t' m.transactions,
    v.seq_unique i j s,
    committed_seq_below i s v,
    committed_seq_below j s v,
  );
  reads_of_active = λ i. ground (
    arith,
    lookup-put id i t' m.transactions,
    lookup-erase id i m.active_reads,
    v.reads_of_active i,
  );
  writes_of_active = λ i. ground (
    arith,
    lookup-put id i t' m.transactions,
    lookup-erase id i m.active_writes,
    v.writes_of_active i,
  );
  predicates_of_active = λ i. ground (
    arith,
    lookup-put id i t' m.transactions,
    lookup-erase id i m.active_predicate_reads,
    v.predicates_of_active i,
  );
  inserts_of_active = λ i. ground (
    arith,
    lookup-put id i t' m.transactions,
    lookup-erase id i m.active_inserts,
    v.inserts_of_active i,
  );
  writes_below = λ s k. kept_above _ s _ m.committed_write_sets (v.writes_below s (omega arith)) k;
  predicates_below =
      λ s k. kept_above _ s _ m.committed_predicate_reads (v.predicates_below s (omega arith)) k;
  inserts_below = λ s k. kept_above _ s _ m.committed_inserts (v.inserts_below s (omega arith)) k;
}
  where
    t' : Transaction
    t' = record t { state = committed; commit_seq = some (increment m.next_commit_seq) }

pub commit-IsWf :
    {m : Manager} (id : ℕ)
    → IsWf m
    → m.next_commit_seq + 1 < 18446744073709551616
    → IsWf (commit m id).1
unfolding commit
commit-IsWf {m} id v room = elim (Option-cases (lookup id m.transactions)) [
  | inl e ↦ rw (e, commit) v
  | inr (t, e) ↦ elim (Bool-cases (is_active_state t.state)) [
    | inr n ↦ rw (e, n, commit) v
    | inl a ↦ elim (Bool-cases (is_serializable m id)) [
      | inr n ↦ rw (e, a, n, commit) (rollback-IsWf id v)
      | inl y ↦ rw (e, a, y, commit) (prune-IsWf (hand_over-IsWf id t v room e a))
    ]
  ]
]
