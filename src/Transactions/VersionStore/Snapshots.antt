-- ===== src/Transactions/VersionStore/Snapshots.antt =====
-- Repeatable reads: the version store and the transaction manager together, while other
-- transactions begin, write, delete, commit and roll back with their undo.
use vertex_db.Base.{
  ℕ, suc, ◌+◌, ◌≤◌, ◌<◌, ◌≡◌, ◌≢◌, ◌⊎◌, refl, ◌∙◌, true, false, Option, none, some, List, [], ◌∷◌,
  arith, length, Option-cases, inl, inr,
}
use vertex_db.Base.OrderedMap.{lookup}
use vertex_db.Common.Value.{Row}
use vertex_db.Transactions.Manager.{
  Manager, Transaction, ReadSnapshot, is_visible, is_creator_visible, is_active,
}
use vertex_db.Transactions.Manager.WellFormed.{IsWf}
use vertex_db.Transactions.Manager.Runs.{Call, step, step-IsWf, step-CountsTo, CountsTo}
use vertex_db.Transactions.Manager.Isolation.{SameView, step-SameView, step-grows}
use vertex_db.Transactions.VersionStore.{
  RowVersion, Versions, chain_of, write, erase_row, pop_latest_version, clear_latest_deleted_by,
  first_visible, read,
}
use vertex_db.Transactions.VersionStore.Reads.{
  IsLatestOpen, read-write_hidden, read-erase_row_hidden,
}
use vertex_db.Transactions.VersionStore.Withdrawn.{
  IsLatestOwn, IsLatestWritten, read-pop_latest_version_hidden, read-clear_latest_deleted_by_hidden,
}

pub record System : Type 0 where
  pub manager : Manager
  pub versions : Versions

-- A call of the manager, a write or deletion of a row by a transaction, or the undo of either, as
-- the records of the undo log ask for it before the manager is called to roll back.
pub data Action : Type 0 where
  calls : Call → Action
  writes_row : ℕ → Row → ℕ → Action
  erases_row pops_version clears_deletion : ℕ → ℕ → Action

unfoldable pub act : System → Action → System
unfolding step write erase_row pop_latest_version clear_latest_deleted_by
act y (calls c) = record y { manager = step y.manager c }
act y (writes_row row_id row txn) = record y { versions = write row_id row txn y.versions }
act y (erases_row row_id txn) = record y { versions = erase_row row_id txn y.versions }
act y (pops_version row_id txn) = record y { versions = (pop_latest_version row_id y.versions).1 }
act y (clears_deletion row_id txn) = record y {
  versions = (clear_latest_deleted_by row_id y.versions).1;
}

unfoldable pub act_all : System → List Action → System
unfolding act
act_all y [] = y
act_all y (a ∷ rest) = act_all (act y a) rest

-- Not the reader, and still active, or, like an autocommit that writes after its commit, committed
-- after the snapshot was taken.
abbrev pub IsOther : ReadSnapshot → Manager → ℕ → Type 0
IsOther s m txn =
    (txn ≢ s.self)
    × (txn ≢ 0)
    × ((is_active m txn ≡ true)
        ⊎ ((t : Transaction) × (q : ℕ) × (lookup txn m.transactions ≡ some t)
            × (t.commit_seq ≡ some q)
            × (s.max_commit_seq < q)))

-- Such transactions write, delete rows whose newest version is open, and undo what they did.
abbrev pub ByOthers : ReadSnapshot → System → Action → Type 0
ByOthers s y (calls c) = Unit
ByOthers s y (writes_row row_id row txn) = IsOther s y.manager txn
ByOthers s y (erases_row row_id txn) =
    IsOther s y.manager txn × IsLatestOpen (chain_of row_id y.versions)
ByOthers s y (pops_version row_id txn) =
    IsOther s y.manager txn × IsLatestWritten txn (chain_of row_id y.versions)
ByOthers s y (clears_deletion row_id txn) =
    IsOther s y.manager txn × IsLatestOwn txn (chain_of row_id y.versions)

abbrev pub AllByOthers : ReadSnapshot → System → List Action → Type 0
AllByOthers s y [] = Unit
AllByOthers s y (a ∷ rest) = ByOthers s y a × AllByOthers s (act y a) rest

other_hidden :
    (m : Manager) (s : ReadSnapshot) (txn : ℕ)
    → IsOther s m txn
    → is_creator_visible m txn s ≡ false
unfolding is_active is_creator_visible
other_hidden m s txn (n, z, inl a) = ground arith
other_hidden m s txn (n, z, inr (t, q, e, c, l)) = ground arith

first_visible_same :
    (s : ReadSnapshot) (m m' : Manager)
    → SameView s m m'
    → (chain : List RowVersion) → first_visible m' s chain ≡ first_visible m s chain
unfolding first_visible
first_visible_same s m m' same [] = refl
first_visible_same s m m' same (v ∷ older) =
    ground (arith, visible_same v.created_by v.deleted_by, first_visible_same s m m' same older)
  where
    visible_same : (c : ℕ) (d : Option ℕ) → is_visible m' c d s ≡ is_visible m c d s
    visible_same c none = unfold is_visible in ground (arith, same c)
    visible_same c (some d) = unfold is_visible in ground (arith, same c, same d)

read_same :
    (s : ReadSnapshot) (m m' : Manager) (j : ℕ) (versions : Versions)
    → SameView s m m'
    → read j s m' versions ≡ read j s m versions
unfolding read
read_same s m m' j versions same = elim (Option-cases (lookup j versions)) [
  | inl e ↦ ground arith
  | inr (chain, e) ↦ ground (arith, first_visible_same s m m' same chain)
]

-- The transaction manager of the system is well formed, has counted to at most `n`, and gave out
-- the snapshot.
pub record IsReady (s : ReadSnapshot) (n : ℕ) (y : System) : Type 0 where
  pub wf : IsWf y.manager
  pub counts : CountsTo n y.manager
  pub taken : s.max_commit_seq ≤ y.manager.next_commit_seq

unchanged :
    (s : ReadSnapshot) (n : ℕ) (y : System) (versions : Versions)
    → IsReady s n y
    → IsReady s (suc n) (record y { versions = versions })
unchanged s n y versions r = record { wf = r.wf; counts = omega (arith, r.counts); taken = r.taken }

act-read :
    (s : ReadSnapshot) (n j : ℕ) (y : System) (a : Action)
    → IsReady s n y
    → n + 1 < 18446744073709551616
    → ByOthers s y a
    → (IsReady s (suc n) (act y a))
      × (read j s (act y a).manager (act y a).versions ≡ read j s y.manager y.versions)
unfolding act
act-read s n j y (calls c) r room others = (
  record {
    wf = step-IsWf n c r.wf r.counts room;
    counts = step-CountsTo n y.manager c r.counts;
    taken = omega (arith, r.taken, r.counts, step-grows y.manager c (omega (arith, r.counts)));
  },
  read_same s y.manager (step y.manager c) j y.versions
      (step-SameView s y.manager c r.wf r.taken (omega (arith, r.counts))),
)
act-read s n j y (writes_row row_id row txn) r room others = (
  unchanged s n y _ r,
  read-write_hidden y.manager s txn (other_hidden y.manager s txn others) row_id j row y.versions,
)
act-read s n j y (erases_row row_id txn) r room others = (
  unchanged s n y _ r,
  read-erase_row_hidden y.manager s txn (other_hidden y.manager s txn others.0) row_id j y.versions
      others.1,
)
act-read s n j y (pops_version row_id txn) r room others = (
  unchanged s n y _ r,
  read-pop_latest_version_hidden y.manager s txn (other_hidden y.manager s txn others.0) row_id j
      y.versions others.1,
)
act-read s n j y (clears_deletion row_id txn) r room others = (
  unchanged s n y _ r,
  read-clear_latest_deleted_by_hidden y.manager s txn (other_hidden y.manager s txn others.0) row_id
      j y.versions others.1,
)

-- Repeatable read: after a well-formed manager has given out a snapshot, a read of any row by it
-- returns what it returned before, whatever sequence follows of calls of the manager, commits and
-- rollbacks included, and of writes, deletions and undone writes and deletions of other
-- transactions. Those transactions are active, or have committed after the snapshot; they delete
-- rows whose newest version is open, pop only versions of their own, over none, an open one or one
-- that they have closed themselves, and clear only deletion marks of their own. This leaves out the
-- undo of an INSERT into a slot that the deletion of another transaction had freed. The counters,
-- at most `n` before the sequence, do not wrap around.
pub repeatable_read :
    (s : ReadSnapshot) (n j : ℕ) (y : System) (actions : List Action)
    → IsReady s n y
    → n + length actions < 18446744073709551616
    → AllByOthers s y actions
    → read j s (act_all y actions).manager (act_all y actions).versions
      ≡ read j s y.manager y.versions
unfolding act_all
repeatable_read s n j y [] r room others = refl
repeatable_read s n j y (a ∷ rest) r room others =
    let (ready, same) = act-read s n j y a r (omega arith) others.0 in
    repeatable_read s (suc n) j (act y a) rest ready (omega arith) others.1 ∙ same
