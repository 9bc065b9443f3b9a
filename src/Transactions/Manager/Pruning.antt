-- ===== src/Transactions/Manager/Pruning.antt =====
-- pruneCommittedConflictSets forgets only what no active transaction can conflict with.
use vertex_db.Base.{
  ℕ, ◌≤◌, ◌≡◌, refl, ap, ◌∙◌, Text, Bool, true, false, not, ◌&&◌, ◌||◌, some, List, [], ◌∷◌, arith,
  is_some, ◌==◌, leb, any, Bool-cases, Option-cases, inl, inr,
}
use vertex_db.Base.OrderedMap.{Map, lookup, erase_upto}
use vertex_db.Transactions.Conflict.{
  SsiPredicate, SsiInsert, intersects, predicate_conflicts_with_inserts,
}
use vertex_db.Transactions.Manager.{
  Manager, Transaction, is_active_state, is_active, prune, consider, consider_all, min_snapshot,
  is_serializable, write_conflict, insert_conflict, predicate_conflict, is_empty, set_of,
}
use vertex_db.Transactions.Manager.WellFormed.{IsWf}

consider-le : (m : Manager) (least id : ℕ) → consider m least id ≤ least
unfolding consider
consider-le m least id = ground arith

consider_all-le {ℓ} :
    {A : Type ℓ} (m : Manager) (least : ℕ) (s : Map A) → consider_all m least s ≤ least
unfolding consider_all
consider_all-le m least [] = omega arith
consider_all-le m least ((id, x) ∷ s) =
    omega (arith, consider-le m least id, consider_all-le m (consider m least id) s)

module _ (m : Manager) (id : ℕ) (t : Transaction) (found : lookup id m.transactions ≡ some t)
    (live : is_active_state t.state ≡ true) where
  consider_self : (least : ℕ) → consider m least id ≤ t.snapshot_max_commit_seq
  unfolding consider
  consider_self least = ground arith

  consider_all_self {ℓ} :
      {A : Type ℓ} (least : ℕ) (s : Map A)
      → is_some (lookup id s) ≡ true
      → consider_all m least s ≤ t.snapshot_max_commit_seq
  unfolding consider_all lookup
  consider_all_self least [] h = cc
  consider_all_self least ((j, x) ∷ s) h = elim (Bool-cases (j == id)) [
    | inl e ↦ ground (
      arith,
      ap (consider m least) ((λ (p : j ≡ id). p) (ground arith)),
      consider_self least,
      consider_all-le m (consider m least j) s,
    )
    | inr n ↦ consider_all_self (consider m least j) s (ground arith)
  ]

  -- The least snapshot is not above that of an active transaction.
  min_snapshot-le :
      is_some (lookup id m.active_reads) ≡ true → min_snapshot m ≤ t.snapshot_max_commit_seq
  unfolding min_snapshot
  min_snapshot-le h = omega (
    arith,
    consider_all_self m.next_commit_seq m.active_reads h,
    consider_all-le {0} m (consider_all m m.next_commit_seq m.active_reads)
        m.active_predicate_reads,
    consider_all-le {0} m
        (consider_all m (consider_all m m.next_commit_seq m.active_reads) m.active_predicate_reads)
        m.active_inserts,
    consider_all-le {0} m
        (consider_all m
          (consider_all m (consider_all m m.next_commit_seq m.active_reads)
            m.active_predicate_reads)
          m.active_inserts)
        m.active_writes,
  )

-- A loop that skips what is not after the snapshot does not see what is erased up to a bound below.
any-erase_upto {ℓ} :
    {A : Type ℓ} (b snapshot : ℕ) (p : A → Bool) (s : Map A)
    → b ≤ snapshot
    → any (λ e. not (leb e.0 snapshot) && p e.1) (erase_upto b s)
      ≡ any (λ e. not (leb e.0 snapshot) && p e.1) s
unfolding erase_upto
any-erase_upto b snapshot p [] h = refl
any-erase_upto b snapshot p ((j, x) ∷ s) h = ground (arith, any-erase_upto b snapshot p s h)

nonempty_of_lookup {ℓ} :
    {A : Type ℓ} (id : ℕ) (s : Map A) → is_some (lookup id s) ≡ true → is_empty s ≡ false
unfolding lookup
nonempty_of_lookup id [] h = cc
nonempty_of_lookup id (e ∷ s) h = refl

-- With an active transaction the sets up to the least snapshot are erased.
pub prune_erases :
    (m : Manager) (id : ℕ)
    → is_some (lookup id m.active_reads) ≡ true
    → prune m ≡ record m {
      committed_write_sets = erase_upto (min_snapshot m) m.committed_write_sets;
      committed_predicate_reads = erase_upto (min_snapshot m) m.committed_predicate_reads;
      committed_inserts = erase_upto (min_snapshot m) m.committed_inserts;
    }
unfolding prune
prune_erases m id h = rw (nonempty_of_lookup id m.active_reads h)

pub transactions-prune : (m : Manager) → (prune m).transactions ≡ m.transactions
unfolding prune
transactions-prune m = ground arith

pub next_commit_seq-prune : (m : Manager) → (prune m).next_commit_seq ≡ m.next_commit_seq
unfolding prune
next_commit_seq-prune m = ground arith

abbrev erase_committed : Manager → ℕ → Manager
erase_committed m b = record m {
  committed_write_sets = erase_upto b m.committed_write_sets;
  committed_predicate_reads = erase_upto b m.committed_predicate_reads;
  committed_inserts = erase_upto b m.committed_inserts;
}

-- Committed sets up to an active transaction's snapshot play no part in its test.
is_serializable-erase_committed :
    (m : Manager) (id b : ℕ) (t : Transaction)
    → lookup id m.transactions ≡ some t
    → b ≤ t.snapshot_max_commit_seq
    → is_serializable (erase_committed m b) id ≡ is_serializable m id
unfolding is_serializable write_conflict insert_conflict predicate_conflict
is_serializable-erase_committed m id b t e low =
    let snapshot = t.snapshot_max_commit_seq in
    let writes =
      any-erase_upto b snapshot
        (λ (ws : List Text).
          intersects (set_of id m.active_reads) ws || intersects (set_of id m.active_writes) ws)
        m.committed_write_sets low in
    let inserts =
      any-erase_upto b snapshot
        (λ (is : List SsiInsert).
          predicate_conflicts_with_inserts (set_of id m.active_predicate_reads) is)
        m.committed_inserts low in
    let predicates =
      any-erase_upto b snapshot
        (λ (ps : List SsiPredicate).
          predicate_conflicts_with_inserts ps (set_of id m.active_inserts))
        m.committed_predicate_reads low in
    ground (arith, writes, inserts, predicates)

-- In a well-formed manager no transaction's test at commit has another result after pruning.
pub prune-is_serializable :
    (m : Manager) (id : ℕ) → IsWf m → is_serializable (prune m) id ≡ is_serializable m id
prune-is_serializable m id v = elim (Option-cases (lookup id m.transactions)) [
  | inl e ↦
      unfold is_serializable in
      ground (arith, transactions-prune m, ap (lookup id) (transactions-prune m))
  | inr (t, e) ↦ elim (Bool-cases (is_active_state t.state)) [
    | inr n ↦
        unfold is_serializable in
        ground (arith, transactions-prune m, ap (lookup id) (transactions-prune m))
    | inl a ↦ live_case t e a (v.reads_of_active id ∙ (unfold is_active in ground arith))
  ]
]
  where
    live_case :
        (t : Transaction)
        → lookup id m.transactions ≡ some t
        → is_active_state t.state ≡ true
        → is_some (lookup id m.active_reads) ≡ true
        → is_serializable (prune m) id ≡ is_serializable m id
    live_case t e a r =
        rw (prune_erases m id r)
          (is_serializable-erase_committed m id (min_snapshot m) t e (min_snapshot-le m id t e a r))
