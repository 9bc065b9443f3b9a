-- ===== src/Transactions/Manager/Isolation.antt =====
-- Snapshot isolation: what a snapshot sees of the committed transactions never changes.
use vertex_db.Base.{
  ℕ, suc, ◌+◌, ◌≤◌, ◌<◌, ◌≡◌, ◌⊎◌, refl, ap, ◌∙◌, true, some, List, [], ◌∷◌, arith, length,
  Bool-cases, Option-cases, inl, inr,
}
use vertex_db.Base.OrderedMap.{lookup, put, lookup-put, lookup-emplace}
use vertex_db.Transactions.Manager.{
  Manager, Transaction, committed, rolled_back, ReadSnapshot, is_active_state, begin, prune,
  end_active, hand_over, rollback, commit, increment, is_creator_visible, record_read, record_write,
  record_predicate_read, record_insert, is_serializable,
}
use vertex_db.Transactions.Manager.WellFormed.{IsWf}
use vertex_db.Transactions.Manager.WellFormed.Begin.{next_id_free}
use vertex_db.Transactions.Manager.Pruning.{transactions-prune}
use vertex_db.Transactions.Manager.Runs.{
  Call, begins, begins_committed, commits, rolls_back, reads, writes, reads_predicate, inserts,
  step, run, CountsTo, step-IsWf, step-CountsTo, begin_committed_state,
}

-- Two managers show a snapshot the same transactions.
abbrev pub SameView : ReadSnapshot → Manager → Manager → Type 0
SameView s m m' = (c : ℕ) → is_creator_visible m' c s ≡ is_creator_visible m c s

same_transactions :
    (s : ReadSnapshot) (m m' : Manager) → m'.transactions ≡ m.transactions → SameView s m m'
unfolding is_creator_visible
same_transactions s m m' e c = ground (arith, ap (lookup c) e)

begin-SameView : (s : ReadSnapshot) (m : Manager) → IsWf m → SameView s m (begin m).1
unfolding begin is_creator_visible
begin-SameView s m v c =
    ground (
      arith,
      next_id_free v,
      lookup-emplace m.next_id c (begin m).0 m.transactions (next_id_free v),
    )

-- A transaction that is not active yet invisible: rolled back, or committed after the snapshot.
abbrev IsHidden : ReadSnapshot → Transaction → Type 0
IsHidden s t =
    (t.state ≡ rolled_back) ⊎ ((q : ℕ) × (t.commit_seq ≡ some q) × (s.max_commit_seq < q))

-- When an active transaction ends so, the snapshot sees no difference.
end-SameView :
    (s : ReadSnapshot) (m : Manager) (id : ℕ) (t t' : Transaction)
    → lookup id m.transactions ≡ some t
    → is_active_state t.state ≡ true
    → IsHidden s t'
    → (c : ℕ)
    → is_creator_visible (record m { transactions = put id t' m.transactions }) c s
      ≡ is_creator_visible m c s
unfolding is_creator_visible
end-SameView s m id t t' e a hidden c = ground (arith, lookup-put id c t' m.transactions)

rollback-SameView : (s : ReadSnapshot) (m : Manager) (id : ℕ) → SameView s m (rollback m id).1
unfolding rollback
rollback-SameView s m id c = elim (Option-cases (lookup id m.transactions)) [
  | inl e ↦ rw (e, rollback)
  | inr (t, e) ↦ elim (Bool-cases (is_active_state t.state)) [
    | inr n ↦ rw (e, n, rollback)
    | inl a ↦
        let t' : Transaction = record t { state = rolled_back } in
        let m' : Manager = record m { transactions = put id t' m.transactions } in
        rw (e, a, rollback)
          (same_transactions s m' (prune (end_active m' id)) (transactions-prune (end_active m' id))
              c
            ∙ end-SameView s m id t t' e a (inl refl) c)
  ]
]

commit-SameView :
    (s : ReadSnapshot) (m : Manager) (id : ℕ)
    → s.max_commit_seq ≤ m.next_commit_seq
    → m.next_commit_seq + 1 < 18446744073709551616
    → SameView s m (commit m id).1
unfolding commit
commit-SameView s m id low room c = elim (Option-cases (lookup id m.transactions)) [
  | inl e ↦ rw (e, commit)
  | inr (t, e) ↦ elim (Bool-cases (is_active_state t.state)) [
    | inr n ↦ rw (e, n, commit)
    | inl a ↦ elim (Bool-cases (is_serializable m id)) [
      | inr n ↦ rw (e, a, n, commit) (rollback-SameView s m id c)
      | inl y ↦
          let seq = increment m.next_commit_seq in
          let t' : Transaction = record t { state = committed; commit_seq = some seq } in
          let m' : Manager = record m { transactions = put id t' m.transactions } in
          let last : Manager = end_active (hand_over m id t) id in
          rw (e, a, y, commit)
            (same_transactions s m' (prune last) (transactions-prune last) c
              ∙ end-SameView s m id t t' e a (inr (seq, refl, omega arith)) c)
    ]
  ]
]

rollback-next_commit_seq :
    (m : Manager) (id : ℕ) → (rollback m id).1.next_commit_seq ≡ m.next_commit_seq
unfolding rollback prune
rollback-next_commit_seq m id = ground arith

commit-grows :
    (m : Manager) (id : ℕ)
    → m.next_commit_seq + 1 < 18446744073709551616
    → m.next_commit_seq ≤ (commit m id).1.next_commit_seq
unfolding commit rollback prune
commit-grows m id room = ground arith

begin-next_commit_seq : (m : Manager) → (begin m).1.next_commit_seq ≡ m.next_commit_seq
unfolding begin
begin-next_commit_seq m = refl

pub step-grows :
    (m : Manager) (c : Call)
    → m.next_commit_seq + 1 < 18446744073709551616
    → m.next_commit_seq ≤ (step m c).next_commit_seq
unfolding step
step-grows m begins room = omega (arith, begin-next_commit_seq m)
step-grows m begins_committed room = rw begin_committed_state (
    omega (
      arith,
      begin-next_commit_seq m,
      commit-grows (begin m).1 (begin m).0.id (omega (arith, begin-next_commit_seq m)),
    ))
step-grows m (commits id) room = commit-grows m id room
step-grows m (rolls_back id) room = omega (arith, rollback-next_commit_seq m id)
step-grows m (reads id relation row) room = unfold record_read in ground arith
step-grows m (writes id relation row) room = unfold record_write in ground arith
step-grows m (reads_predicate id p) room = unfold record_predicate_read in ground arith
step-grows m (inserts id row) room = unfold record_insert in ground arith

pub step-SameView :
    (s : ReadSnapshot) (m : Manager) (c : Call)
    → IsWf m
    → s.max_commit_seq ≤ m.next_commit_seq
    → m.next_commit_seq + 1 < 18446744073709551616
    → SameView s m (step m c)
unfolding step
step-SameView s m begins v low room = begin-SameView s m v
step-SameView s m begins_committed v low room = λ c. rw begin_committed_state (
    commit-SameView s (begin m).1 (begin m).0.id (omega (arith, begin-next_commit_seq m))
      (omega (arith, begin-next_commit_seq m)) c
    ∙ begin-SameView s m v c)
step-SameView s m (commits id) v low room = commit-SameView s m id low room
step-SameView s m (rolls_back id) v low room = rollback-SameView s m id
step-SameView s m (reads id relation row) v low room =
    same_transactions s m _ (unfold record_read in ground arith)
step-SameView s m (writes id relation row) v low room =
    same_transactions s m _ (unfold record_write in ground arith)
step-SameView s m (reads_predicate id p) v low room =
    same_transactions s m _ (unfold record_predicate_read in ground arith)
step-SameView s m (inserts id row) v low room =
    same_transactions s m _ (unfold record_insert in ground arith)

-- Whatever is called after a well-formed manager has given out a snapshot, by whatever
-- transactions, the snapshot sees exactly the creators that it saw before, as long as the counters,
-- at most `n` before the calls, do not wrap around.
pub run-SameView :
    (s : ReadSnapshot) (m : Manager) (n : ℕ) (cs : List Call)
    → IsWf m
    → CountsTo n m
    → s.max_commit_seq ≤ m.next_commit_seq
    → n + length cs < 18446744073709551616
    → SameView s m (run m cs)
unfolding run
run-SameView s m n [] v h low room c = refl
run-SameView s m n (call ∷ cs) v h low room c =
    run-SameView s (step m call) (suc n) cs (step-IsWf n call v h (omega arith))
      (step-CountsTo n m call h) (omega (arith, step-grows m call (omega arith))) (omega arith) c
    ∙ step-SameView s m call v low (omega arith) c
