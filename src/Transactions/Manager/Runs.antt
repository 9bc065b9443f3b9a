-- ===== src/Transactions/Manager/Runs.antt =====
-- Sequences of calls of the transaction manager, in any order and by any transactions. The
-- invariant holds after each, as long as the two counters cannot have reached their last value.
use vertex_db.Base.{ℕ, suc, ◌+◌, ◌≤◌, ◌<◌, ◌≡◌, refl, Text, List, [], ◌∷◌, arith, length}
use vertex_db.Base.OrderedMap.{lookup}
use vertex_db.Transactions.Conflict.{SsiPredicate, SsiInsert}
use vertex_db.Transactions.Manager.{
  Manager, init, begin, commit, rollback, begin_committed, record_read, record_write,
  record_predicate_read, record_insert, is_active, prune,
}
use vertex_db.Transactions.Manager.WellFormed.{IsWf, rollback-IsWf}
use vertex_db.Transactions.Manager.WellFormed.Commit.{commit-IsWf}
use vertex_db.Transactions.Manager.WellFormed.Begin.{begin-IsWf}
use vertex_db.Transactions.Manager.WellFormed.Records.{
  record_read-IsWf, record_write-IsWf, record_predicate_read-IsWf, record_insert-IsWf,
}

-- The calls that change the state.
pub data Call : Type 0 where
  begins begins_committed : Call
  commits rolls_back : ℕ → Call
  reads writes : ℕ → Text → ℕ → Call
  reads_predicate : ℕ → SsiPredicate → Call
  inserts : ℕ → SsiInsert → Call

unfoldable pub step : Manager → Call → Manager
step m begins = (begin m).1
step m begins_committed = (begin_committed m).1
step m (commits id) = (commit m id).1
step m (rolls_back id) = (rollback m id).1
step m (reads id relation row) = record_read m id relation row
step m (writes id relation row) = record_write m id relation row
step m (reads_predicate id p) = record_predicate_read m id p
step m (inserts id row) = record_insert m id row

unfoldable pub run : Manager → List Call → Manager
unfolding step
run m [] = m
run m (c ∷ cs) = run (step m c) cs

-- Both counters are at most `n`.
abbrev pub CountsTo : ℕ → Manager → Type 0
CountsTo n m = (m.next_id ≤ n) × (m.next_commit_seq ≤ n)

prune-CountsTo : (n : ℕ) (m : Manager) → CountsTo n m → CountsTo n (prune m)
unfolding prune
prune-CountsTo n m h = ground arith

pub begin-CountsTo :
    (n : ℕ) (m : Manager)
    → CountsTo n m
    → ((begin m).1.next_id ≤ suc n) × ((begin m).1.next_commit_seq ≤ n)
unfolding begin
begin-CountsTo n m h = omega arith

rollback-CountsTo : (n : ℕ) (m : Manager) (id : ℕ) → CountsTo n m → CountsTo n (rollback m id).1
unfolding rollback prune
rollback-CountsTo n m id h = ground arith

commit-counts :
    (n k : ℕ) (m : Manager) (id : ℕ)
    → m.next_id ≤ k
    → m.next_commit_seq ≤ n
    → ((commit m id).1.next_id ≤ k) × ((commit m id).1.next_commit_seq ≤ suc n)
unfolding commit rollback prune
commit-counts n k m id h g = ground arith

-- Whether the commit succeeds or not, its state is the one that is left.
pub begin_committed_state :
    (m : Manager) → (begin_committed m).1 ≡ (commit (begin m).1 (begin m).0.id).1
unfolding begin_committed
begin_committed_state m = ground arith

begin_committed-IsWf :
    {m : Manager} (n : ℕ)
    → IsWf m
    → CountsTo n m
    → n + 1 < 18446744073709551616
    → IsWf (begin_committed m).1
begin_committed-IsWf {m} n v h room =
    rw begin_committed_state (
      commit-IsWf (begin m).0.id (begin-IsWf v (omega arith)) (omega (arith, begin-CountsTo n m h)))

begin_committed-CountsTo :
    (n : ℕ) (m : Manager) → CountsTo n m → CountsTo (suc n) (begin_committed m).1
begin_committed-CountsTo n m h =
    let (i, s) = begin-CountsTo n m h in
    rw begin_committed_state (commit-counts n (suc n) (begin m).1 (begin m).0.id i s)

pub step-CountsTo : (n : ℕ) (m : Manager) (c : Call) → CountsTo n m → CountsTo (suc n) (step m c)
unfolding step
step-CountsTo n m begins h = omega (arith, begin-CountsTo n m h)
step-CountsTo n m begins_committed h = begin_committed-CountsTo n m h
step-CountsTo n m (commits id) h = omega (arith, commit-counts n n m id h.0 h.1)
step-CountsTo n m (rolls_back id) h = omega (arith, rollback-CountsTo n m id h)
step-CountsTo n m (reads id relation row) h = unfold record_read in ground arith
step-CountsTo n m (writes id relation row) h = unfold record_write in ground arith
step-CountsTo n m (reads_predicate id p) h = unfold record_predicate_read in ground arith
step-CountsTo n m (inserts id row) h = unfold record_insert in ground arith

-- Every call keeps the invariant.
pub step-IsWf :
    {m : Manager} (n : ℕ) (c : Call)
    → IsWf m
    → CountsTo n m
    → n + 1 < 18446744073709551616
    → IsWf (step m c)
unfolding step
step-IsWf n begins v h room = begin-IsWf v (omega arith)
step-IsWf n begins_committed v h room = begin_committed-IsWf n v h room
step-IsWf n (commits id) v h room = commit-IsWf id v (omega arith)
step-IsWf n (rolls_back id) v h room = rollback-IsWf id v
step-IsWf n (reads id relation row) v h room = record_read-IsWf id relation row v
step-IsWf n (writes id relation row) v h room = record_write-IsWf id relation row v
step-IsWf n (reads_predicate id p) v h room = record_predicate_read-IsWf id p v
step-IsWf n (inserts id row) v h room = record_insert-IsWf id row v

run_from :
    (m : Manager) (n : ℕ) (cs : List Call)
    → IsWf m
    → CountsTo n m
    → n + length cs < 18446744073709551616
    → IsWf (run m cs)
unfolding run
run_from m n [] v h room = v
run_from m n (c ∷ cs) v h room =
    run_from (step m c) (suc n) cs (step-IsWf n c v h (omega arith)) (step-CountsTo n m c h)
      (omega arith)

pub IsWf-init : IsWf init
unfolding lookup is_active
IsWf-init = record {
  known = λ i t e. cc;
  seq_unique = λ i j s p q. cc;
  reads_of_active = λ i. refl;
  writes_of_active = λ i. refl;
  predicates_of_active = λ i. refl;
  inserts_of_active = λ i. refl;
  writes_below = λ s h. refl;
  predicates_below = λ s h. refl;
  inserts_below = λ s h. refl;
}

-- After any sequence of fewer than 2 ^ 64 - 1 calls, failing ones included, the manager is well
-- formed: identifiers are fresh, commit sequences are in order and belong to one transaction each,
-- exactly the active transactions have conflict sets, and committed sets stand under sequence
-- numbers that have been given out.
pub run-IsWf : (cs : List Call) → 1 + length cs < 18446744073709551616 → IsWf (run init cs)
run-IsWf cs room = run_from init 1 cs IsWf-init (omega arith) room
