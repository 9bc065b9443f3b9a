-- ===== src/Transactions/Manager/Autocommit.antt =====
-- `beginCommitted`, with which a statement outside a transaction gets its identifier.
use vertex_db.Base.{
  ℕ, ◌+◌, ◌<◌, ◌≡◌, refl, ap, ◌∙◌, Text, Bool, true, false, not, ◌&&◌, ◌||◌, none, some, List, [],
  ◌∷◌, arith, leb, any, Bool-cases, inl, inr,
}
use vertex_db.Base.OrderedMap.{Map, lookup, emplace, lookup-emplace}
use vertex_db.Transactions.Conflict.{
  SsiPredicate, SsiInsert, intersects, predicate_conflicts_with_inserts,
}
use vertex_db.Transactions.Manager.{
  Manager, Transaction, ok, is_active_state, begin, begin_committed, commit, is_serializable,
  write_conflict, insert_conflict, predicate_conflict, set_of,
}
use vertex_db.Transactions.Manager.WellFormed.{IsWf}
use vertex_db.Transactions.Manager.WellFormed.Begin.{next_id_free, begin-IsWf}

-- The loops skip every set up to the snapshot.
none_after {ℓ} :
    {A : Type ℓ} (snapshot : ℕ) (p : A → Bool) (m : Map A)
    → ((s : ℕ) → snapshot < s → lookup s m ≡ none)
    → any (λ e. not (leb e.0 snapshot) && p e.1) m ≡ false
unfolding lookup
none_after snapshot p [] h = refl
none_after snapshot p ((j, x) ∷ m) h = elim (Bool-cases (leb j snapshot)) [
  | inl low ↦ ground (arith, none_after snapshot p m (λ s k. ground (arith, h s k)))
  | inr high ↦ absurd (ground (arith, h j (ground arith)))
]

fresh_passes :
    (m : Manager) (id : ℕ) (t : Transaction)
    → IsWf m
    → lookup id m.transactions ≡ some t
    → is_active_state t.state ≡ true
    → t.snapshot_max_commit_seq ≡ m.next_commit_seq
    → is_serializable m id ≡ true
unfolding is_serializable write_conflict insert_conflict predicate_conflict
fresh_passes m id t v e live now =
    let writes =
      none_after t.snapshot_max_commit_seq
        (λ (ws : List Text).
          intersects (set_of id m.active_reads) ws || intersects (set_of id m.active_writes) ws)
        m.committed_write_sets (λ s h. v.writes_below s (omega arith)) in
    let inserts =
      none_after t.snapshot_max_commit_seq
        (λ (is : List SsiInsert).
          predicate_conflicts_with_inserts (set_of id m.active_predicate_reads) is)
        m.committed_inserts (λ s h. v.inserts_below s (omega arith)) in
    let predicates =
      none_after t.snapshot_max_commit_seq
        (λ (ps : List SsiPredicate).
          predicate_conflicts_with_inserts ps (set_of id m.active_inserts))
        m.committed_predicate_reads (λ s h. v.predicates_below s (omega arith)) in
    ground (arith, writes, inserts, predicates)

accepted :
    (m : Manager) (b : ℕ) (u : Transaction)
    → lookup b m.transactions ≡ some u
    → is_active_state u.state ≡ true
    → is_serializable m b ≡ true
    → (commit m b).0 ≡ ok tt
unfolding commit
accepted m b u e live h = ground arith

-- In a well-formed manager an active transaction that commits while no other has committed since it
-- began passes the test, whatever it recorded.
pub commit_without_concurrency :
    (m : Manager) (id : ℕ) (t : Transaction)
    → IsWf m
    → lookup id m.transactions ≡ some t
    → is_active_state t.state ≡ true
    → t.snapshot_max_commit_seq ≡ m.next_commit_seq
    → (commit m id).0 ≡ ok tt
commit_without_concurrency m id t v e live now =
    accepted m id t e live (fresh_passes m id t v e live now)

begin_facts :
    (m : Manager)
    → ((begin m).0.id ≡ m.next_id)
      × (is_active_state (begin m).0.state ≡ true)
      × ((begin m).0.snapshot_max_commit_seq ≡ (begin m).1.next_commit_seq)
      × ((begin m).1.transactions ≡ emplace m.next_id (begin m).0 m.transactions)
unfolding begin
begin_facts m = (refl, refl, refl, refl)

begin_committed_of_commit :
    (m : Manager)
    → (commit (begin m).1 (begin m).0.id).0 ≡ ok tt
    → (begin_committed m).0 ≡ ok (begin m).0.id
unfolding begin_committed
begin_committed_of_commit m h = ground arith

-- In a well-formed manager whose counter of identifiers does not wrap around an autocommit gets the
-- next identifier; it never fails its own test.
begin_committed_ok :
    (m : Manager)
    → IsWf m
    → m.next_id + 1 < 18446744073709551616
    → (begin_committed m).0 ≡ ok m.next_id
begin_committed_ok m v room =
    let (same, live, now, txs) = begin_facts m in
    begin_committed_of_commit m (
      commit_without_concurrency (begin m).1 (begin m).0.id (begin m).0 (begin-IsWf v room)
        (ap (lookup (begin m).0.id) txs
          ∙ ground (
            arith,
            lookup-emplace m.next_id (begin m).0.id (begin m).0 m.transactions (next_id_free v),
          ))
        live now)
    ∙ ap ok same
