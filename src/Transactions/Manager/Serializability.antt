-- ===== src/Transactions/Manager/Serializability.antt =====
-- What `commit` promises of transactions that ran at the same time.
use vertex_db.Base.{
  ℕ, ◌+◌, ◌<◌, ◌≡◌, ◌≢◌, ◌⊎◌, refl, ap, ◌∙◌, Text, Bool, true, false, none, some, List, [], ◌∷◌,
  arith, ◌==◌, any, Bool-cases, Option-cases, inl, inr,
}
use vertex_db.Base.OrderedMap.{Map, lookup, erase, lookup-put, lookup-erase, lookup-emplace}
use vertex_db.Transactions.Conflict.{
  SsiPredicate, SsiInsert, contains_key, predicate_conflicts_with_inserts,
}
use vertex_db.Transactions.Conflict.Keys.{intersects_of}
use vertex_db.Transactions.Manager.{
  Manager, Transaction, committed, ok, err, serialization_failure, is_active_state, is_active,
  prune, end_active, hand_over, commit, increment, is_serializable, write_conflict, insert_conflict,
  predicate_conflict, set_of, keep_set, is_creator_visible, current_snapshot,
}
use vertex_db.Transactions.Manager.WellFormed.{IsWf}
use vertex_db.Transactions.Manager.WellFormed.Commit.{hand_over-IsWf}
use vertex_db.Transactions.Manager.Pruning.{
  transactions-prune, next_commit_seq-prune, prune-is_serializable,
}

-- An entry that passes the test is found by the loop.
any_of_lookup {ℓ} :
    {A : Type ℓ} (p : ℕ × A → Bool) (s : ℕ) (x : A) (m : Map A)
    → lookup s m ≡ some x
    → p (s, x) ≡ true
    → any p m ≡ true
unfolding lookup
any_of_lookup p s x [] h k = cc
any_of_lookup p s x ((j, y) ∷ m) h k = elim (Bool-cases (j == s)) [
  | inl e ↦ ground (arith, ap (λ (i : ℕ). p (i, y)) ((λ (q : j ≡ s). q) (ground arith)))
  | inr n ↦ ground (arith, any_of_lookup p s x m (ground arith) k)
]

-- A set that is not empty stands under its sequence number.
lookup-keep_set {ℓ} :
    {A : Type ℓ} (seq : ℕ) (xs : List A) (m : Map (List A))
    → lookup seq m ≡ none
    → xs ≢ []
    → lookup seq (keep_set seq xs m) ≡ some xs
lookup-keep_set seq [] m h n = absurd (n refl)
lookup-keep_set seq (x ∷ xs) m h n = ground (arith, lookup-emplace seq seq (x ∷ xs) m h)

-- Transaction `a`, about to commit, clashes with the active transaction `b`: it wrote a row that
-- `b` read or wrote, one inserted a row that fits what the other asked for.
abbrev pub Clashes : Manager → ℕ → ℕ → Type 0
Clashes m a b =
    ((key : Text) × (contains_key (set_of a m.active_writes) key ≡ true)
      × ((contains_key (set_of b m.active_reads) key ≡ true)
          ⊎ (contains_key (set_of b m.active_writes) key ≡ true)))
    ⊎ (predicate_conflicts_with_inserts (set_of b m.active_predicate_reads)
          (set_of a m.active_inserts)
        ≡ true)
    ⊎ (predicate_conflicts_with_inserts (set_of a m.active_predicate_reads)
          (set_of b m.active_inserts)
        ≡ true)

no_inserts : (ps : List SsiPredicate) → predicate_conflicts_with_inserts ps [] ≡ false
unfolding predicate_conflicts_with_inserts
no_inserts [] = refl
no_inserts (p ∷ ps) = no_inserts ps

-- A loop that finds a conflict fails the test.
stopped :
    (m : Manager) (b : ℕ) (u : Transaction)
    → lookup b m.transactions ≡ some u
    → (write_conflict u.snapshot_max_commit_seq
          (set_of b m.active_reads)
          (set_of b m.active_writes)
          m.committed_write_sets
        ≡ true)
      ⊎ (insert_conflict u.snapshot_max_commit_seq
            (set_of b m.active_predicate_reads)
            m.committed_inserts
          ≡ true)
      ⊎ (predicate_conflict u.snapshot_max_commit_seq
            (set_of b m.active_inserts)
            m.committed_predicate_reads
          ≡ true)
    → is_serializable m b ≡ false
unfolding is_serializable
stopped m b u e h = ground arith

rows_clash :
    (snapshot seq : ℕ) (key : Text) (reads writes ws : List Text) (m : Map (List Text))
    → lookup seq m ≡ none
    → snapshot < seq
    → contains_key ws key ≡ true
    → (contains_key reads key ≡ true) ⊎ (contains_key writes key ≡ true)
    → write_conflict snapshot reads writes (keep_set seq ws m) ≡ true
unfolding write_conflict
rows_clash snapshot seq key reads writes ws m free after w r =
    any_of_lookup _ seq ws (keep_set seq ws m)
      (lookup-keep_set seq ws m free (λ e. cc (ap (λ (k : List Text). contains_key k key) e)))
      (ground (arith, intersects_of key reads ws, intersects_of key writes ws))

inserts_clash :
    (snapshot seq : ℕ) (ps : List SsiPredicate) (is : List SsiInsert) (m : Map (List SsiInsert))
    → lookup seq m ≡ none
    → snapshot < seq
    → predicate_conflicts_with_inserts ps is ≡ true
    → insert_conflict snapshot ps (keep_set seq is m) ≡ true
unfolding insert_conflict
inserts_clash snapshot seq ps is m free after h =
    any_of_lookup _ seq is (keep_set seq is m)
      (lookup-keep_set seq is m free
        (λ e. cc (no_inserts ps, ap (predicate_conflicts_with_inserts ps) e)))
      (ground arith)

predicates_clash :
    (snapshot seq : ℕ) (ps : List SsiPredicate) (is : List SsiInsert) (m : Map (List SsiPredicate))
    → lookup seq m ≡ none
    → snapshot < seq
    → predicate_conflicts_with_inserts ps is ≡ true
    → predicate_conflict snapshot is (keep_set seq ps m) ≡ true
unfolding predicate_conflict
predicates_clash snapshot seq ps is m free after h =
    any_of_lookup _ seq ps (keep_set seq ps m)
      (lookup-keep_set seq ps m free (λ e.
        unfold predicate_conflicts_with_inserts in
        cc (ap (λ (k : List SsiPredicate). predicate_conflicts_with_inserts k is) e)))
      (ground arith)

set_of-erase {ℓ} :
    {A : Type ℓ} (a b : ℕ) (s : Map (List A)) → a ≢ b → set_of b (erase a s) ≡ set_of b s
set_of-erase a b s n = ground (arith, lookup-erase a b s)

clash_stops :
    (m : Manager) (a b : ℕ) (t u : Transaction)
    → IsWf m
    → m.next_commit_seq + 1 < 18446744073709551616
    → a ≢ b
    → lookup b m.transactions ≡ some u
    → Clashes m a b
    → is_serializable (end_active (hand_over m a t) a) b ≡ false
clash_stops m a b t u v room n e clash =
    stopped (end_active (hand_over m a t) a) b u (ground (arith, lookup-put a b t' m.transactions))
      (rw
        (
          set_of-erase a b m.active_reads n,
          set_of-erase a b m.active_writes n,
          set_of-erase a b m.active_predicate_reads n,
          set_of-erase a b m.active_inserts n,
        )
        (by_case clash))
  where
    seq : ℕ
    seq = increment m.next_commit_seq

    t' : Transaction
    t' = record t { state = committed; commit_seq = some seq }

    after : u.snapshot_max_commit_seq < seq
    after = ground (arith, v.known b u e)

    by_case :
        Clashes m a b
        → (write_conflict u.snapshot_max_commit_seq
              (set_of b m.active_reads)
              (set_of b m.active_writes)
              (keep_set seq (set_of a m.active_writes) m.committed_write_sets)
            ≡ true)
          ⊎ (insert_conflict u.snapshot_max_commit_seq
                (set_of b m.active_predicate_reads)
                (keep_set seq (set_of a m.active_inserts) m.committed_inserts)
              ≡ true)
          ⊎ (predicate_conflict u.snapshot_max_commit_seq
                (set_of b m.active_inserts)
                (keep_set seq (set_of a m.active_predicate_reads) m.committed_predicate_reads)
              ≡ true)
    by_case (inl (key, w, r)) = inl (
        rows_clash _ seq key _ _ (set_of a m.active_writes) m.committed_write_sets
          (v.writes_below seq (omega arith)) after w r)
    by_case (inr (inl h)) = inr (
        inl (
          inserts_clash _ seq _ (set_of a m.active_inserts) m.committed_inserts
            (v.inserts_below seq (omega arith)) after h))
    by_case (inr (inr h)) = inr (
        inr (
          predicates_clash _ seq (set_of a m.active_predicate_reads) _ m.committed_predicate_reads
            (v.predicates_below seq (omega arith)) after h))

-- A commit that succeeds was of an active transaction that passed the test, and leaves the state of
-- the hand-over, pruned.
pub commit_ok_inversion :
    (m : Manager) (a : ℕ)
    → (commit m a).0 ≡ ok tt
    → (t : Transaction) × (lookup a m.transactions ≡ some t)
      × (is_active_state t.state ≡ true)
      × ((commit m a).1 ≡ prune (end_active (hand_over m a t) a))
unfolding commit
commit_ok_inversion m a h = elim (Option-cases (lookup a m.transactions)) [
  | inl e ↦ absurd (ground arith)
  | inr (t, e) ↦ (t, e, ground arith, ground arith)
]

refused :
    (m : Manager) (b : ℕ) (u : Transaction)
    → lookup b m.transactions ≡ some u
    → is_active_state u.state ≡ true
    → is_serializable m b ≡ false
    → (commit m b).0 ≡ err serialization_failure
unfolding commit
refused m b u e live h = ground arith

-- First committer wins: in a well-formed manager whose commit counter does not wrap around, if two
-- active transactions clash and the first one commits, the commit of the other fails with a
-- serialization failure.
pub first_committer_wins :
    (m : Manager) (a b : ℕ)
    → IsWf m
    → m.next_commit_seq + 1 < 18446744073709551616
    → a ≢ b
    → is_active m b ≡ true
    → Clashes m a b
    → (commit m a).0 ≡ ok tt
    → (commit (commit m a).1 b).0 ≡ err serialization_failure
first_committer_wins m a b v room n live clash h = elim (Option-cases (lookup b m.transactions)) [
  | inl e ↦ absurd (unfold is_active in ground arith)
  | inr (u, e) ↦ second u e (unfold is_active in ground arith)
]
  where
    second :
        (u : Transaction)
        → lookup b m.transactions ≡ some u
        → is_active_state u.state ≡ true
        → (commit (commit m a).1 b).0 ≡ err serialization_failure
    second u e alive =
        let (t, found, act, last) = commit_ok_inversion m a h in
        let l : Manager = end_active (hand_over m a t) a in
        let t' : Transaction = record t {
          state = committed;
          commit_seq = some (increment m.next_commit_seq);
        } in
        rw last (
          refused (prune l) b u
            (ap (lookup b) (transactions-prune l)
              ∙ ground (arith, lookup-put a b t' m.transactions))
            alive
            (prune-is_serializable l b (hand_over-IsWf a t v room found act)
              ∙ clash_stops m a b t u v room n e clash))

-- A transaction whose commit has succeeded is visible to a snapshot that is taken right after it.
pub commit-is_creator_visible :
    (m : Manager) (a self : ℕ)
    → (commit m a).0 ≡ ok tt
    → is_creator_visible (commit m a).1 a (current_snapshot (commit m a).1 self) ≡ true
commit-is_creator_visible m a self h =
    let (t, found, act, last) = commit_ok_inversion m a h in
    let l : Manager = end_active (hand_over m a t) a in
    let t' : Transaction = record t {
      state = committed;
      commit_seq = some (increment m.next_commit_seq);
    } in
    rw last (
      unfold is_creator_visible in
      ground (
        arith,
        ap (lookup a) (transactions-prune l),
        next_commit_seq-prune l,
        lookup-put a a t' m.transactions,
      ))
