-- ===== src/Transactions/Manager/Visibility.antt =====
-- What has committed is seen from then on.
use vertex_db.Base.{ℕ, suc, ◌+◌, ◌≤◌, ◌<◌, ◌≡◌, ◌∙◌, true, List, [], ◌∷◌, arith, length}
use vertex_db.Transactions.Manager.{Manager, ok, commit, is_creator_visible, current_snapshot}
use vertex_db.Transactions.Manager.WellFormed.{IsWf}
use vertex_db.Transactions.Manager.Runs.{
  Call, commits, step, run, CountsTo, step-IsWf, step-CountsTo,
}
use vertex_db.Transactions.Manager.Isolation.{run-SameView, step-grows}
use vertex_db.Transactions.Manager.Serializability.{commit-is_creator_visible}

run-grows :
    (m : Manager) (n : ℕ) (cs : List Call)
    → CountsTo n m
    → n + length cs < 18446744073709551616
    → m.next_commit_seq ≤ (run m cs).next_commit_seq
unfolding run
run-grows m n [] h room = omega arith
run-grows m n (c ∷ cs) h room =
    let rest = run-grows (step m c) (suc n) cs (step-CountsTo n m c h) (omega arith) in
    omega (arith, rest, step-grows m c (omega arith))

-- A later snapshot sees what an earlier one of the same transaction saw.
later_sees :
    (m : Manager) (c self low high : ℕ)
    → low ≤ high
    → is_creator_visible m c (record { self = self; max_commit_seq = low }) ≡ true
    → is_creator_visible m c (record { self = self; max_commit_seq = high }) ≡ true
unfolding is_creator_visible
later_sees m c self low high up h = ground arith

-- A transaction whose commit has succeeded on a well-formed manager is visible to every snapshot that
-- is taken of the manager after it, right away or after any calls by any transactions, as long as
-- the counters, at most `n` before the commit, do not wrap around.
pub committed_stays_visible :
    (m : Manager) (n a self : ℕ) (cs : List Call)
    → IsWf m
    → CountsTo n m
    → n + 1 + length cs < 18446744073709551616
    → (commit m a).0 ≡ ok tt
    → is_creator_visible (run (commit m a).1 cs) a (current_snapshot (run (commit m a).1 cs) self)
      ≡ true
unfolding step
committed_stays_visible m n a self cs v h room done =
    let m' : Manager = (commit m a).1 in
    let v' : IsWf m' = step-IsWf n (commits a) v h (omega arith) in
    let h' : CountsTo (suc n) m' = step-CountsTo n m (commits a) h in
    later_sees (run m' cs) a self m'.next_commit_seq (run m' cs).next_commit_seq
      (run-grows m' (suc n) cs h' (omega arith))
      (run-SameView (current_snapshot m' self) m' (suc n) cs v' h' (omega arith) (omega arith) a
        ∙ commit-is_creator_visible m a self done)
