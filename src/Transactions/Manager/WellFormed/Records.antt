-- ===== src/Transactions/Manager/WellFormed/Records.antt =====
-- The operations that record reads and writes keep the invariant of the transaction manager.
use vertex_db.Base.{
  ℕ, ◌<◌, ◌≡◌, ap, Text, Bool, none, some, List, arith, is_some, ◌==◌, Bool-cases, Option-cases,
  inl, inr,
}
use vertex_db.Base.OrderedMap.{Map, lookup, put, lookup-put}
use vertex_db.Transactions.Conflict.{SsiPredicate, SsiInsert}
use vertex_db.Transactions.Manager.{
  Manager, is_active, committed_seq, record_read, record_write, record_predicate_read,
  record_insert,
}
use vertex_db.Transactions.Manager.WellFormed.{IsWf}
use vertex_db.Transactions.Manager.WellFormed.Commit.{committed_seq_below}

-- A set that is put where one stood leaves the map's keys as they were.
same_keys {ℓ} :
    {A : Type ℓ} (id i : ℕ) (s s' : List A) (m : Map (List A)) (b : Bool)
    → lookup id m ≡ some s
    → is_some (lookup i m) ≡ b
    → is_some (lookup i (put id s' m)) ≡ b
same_keys id i s s' m b h k = ground (arith, lookup-put id i s' m, ap is_some h)

put_below {ℓ} :
    {A : Type ℓ} (seq s : ℕ) (xs : List A) (m : Map (List A))
    → lookup s m ≡ none
    → seq < s
    → lookup s (put seq xs m) ≡ none
put_below seq s xs m h k = ground (arith, lookup-put seq s xs m)

pub record_read-IsWf :
    {m : Manager} (id : ℕ) (relation : Text) (row : ℕ)
    → IsWf m
    → IsWf (record_read m id relation row)
unfolding record_read is_active
record_read-IsWf {m} id relation row v = elim (Bool-cases (id == 0)) [
  | inl z ↦ rw (z, record_read) v
  | inr n ↦ elim (Option-cases (lookup id m.active_reads)) [
    | inl e ↦ rw (n, e, record_read) v
    | inr (s, e) ↦
        rw (n, e, record_read)
          (record {
            known = v.known;
            seq_unique = v.seq_unique;
            reads_of_active = λ i. same_keys id i s _ m.active_reads _ e (v.reads_of_active i);
            writes_of_active = v.writes_of_active;
            predicates_of_active = v.predicates_of_active;
            inserts_of_active = v.inserts_of_active;
            writes_below = v.writes_below;
            predicates_below = v.predicates_below;
            inserts_below = v.inserts_below;
          })
  ]
]

pub record_predicate_read-IsWf :
    {m : Manager} (id : ℕ) (p : SsiPredicate) → IsWf m → IsWf (record_predicate_read m id p)
unfolding record_predicate_read is_active
record_predicate_read-IsWf {m} id p v = elim (Bool-cases (id == 0)) [
  | inl z ↦ rw (z, record_predicate_read) v
  | inr n ↦ elim (Option-cases (lookup id m.active_predicate_reads)) [
    | inl e ↦ rw (n, e, record_predicate_read) v
    | inr (s, e) ↦
        rw (n, e, record_predicate_read)
          (record {
            known = v.known;
            seq_unique = v.seq_unique;
            reads_of_active = v.reads_of_active;
            writes_of_active = v.writes_of_active;
            predicates_of_active =
                λ i. same_keys id i s _ m.active_predicate_reads _ e (v.predicates_of_active i);
            inserts_of_active = v.inserts_of_active;
            writes_below = v.writes_below;
            predicates_below = v.predicates_below;
            inserts_below = v.inserts_below;
          })
  ]
]

pub record_write-IsWf :
    {m : Manager} (id : ℕ) (relation : Text) (row : ℕ)
    → IsWf m
    → IsWf (record_write m id relation row)
unfolding record_write is_active
record_write-IsWf {m} id relation row v = elim (Bool-cases (id == 0)) [
  | inl z ↦ rw (z, record_write) v
  | inr n ↦ elim (Option-cases (lookup id m.active_writes)) [
    | inl e ↦ elim (Option-cases (committed_seq m id)) [
      | inl none_yet ↦ rw (n, e, none_yet, record_write) v
      | inr (seq, c) ↦
          rw (n, e, c, record_write)
            (record {
              known = v.known;
              seq_unique = v.seq_unique;
              reads_of_active = v.reads_of_active;
              writes_of_active = v.writes_of_active;
              predicates_of_active = v.predicates_of_active;
              inserts_of_active = v.inserts_of_active;
              writes_below = λ s h.
                  put_below seq s _ m.committed_write_sets (v.writes_below s h)
                    (omega (arith, committed_seq_below id seq v c));
              predicates_below = v.predicates_below;
              inserts_below = v.inserts_below;
            })
    ]
    | inr (s, e) ↦
        rw (n, e, record_write)
          (record {
            known = v.known;
            seq_unique = v.seq_unique;
            reads_of_active = v.reads_of_active;
            writes_of_active = λ i. same_keys id i s _ m.active_writes _ e (v.writes_of_active i);
            predicates_of_active = v.predicates_of_active;
            inserts_of_active = v.inserts_of_active;
            writes_below = v.writes_below;
            predicates_below = v.predicates_below;
            inserts_below = v.inserts_below;
          })
  ]
]

pub record_insert-IsWf :
    {m : Manager} (id : ℕ) (row : SsiInsert) → IsWf m → IsWf (record_insert m id row)
unfolding record_insert is_active
record_insert-IsWf {m} id row v = elim (Bool-cases (id == 0)) [
  | inl z ↦ rw (z, record_insert) v
  | inr n ↦ elim (Option-cases (lookup id m.active_inserts)) [
    | inl e ↦ elim (Option-cases (committed_seq m id)) [
      | inl none_yet ↦ rw (n, e, none_yet, record_insert) v
      | inr (seq, c) ↦
          rw (n, e, c, record_insert)
            (record {
              known = v.known;
              seq_unique = v.seq_unique;
              reads_of_active = v.reads_of_active;
              writes_of_active = v.writes_of_active;
              predicates_of_active = v.predicates_of_active;
              inserts_of_active = v.inserts_of_active;
              writes_below = v.writes_below;
              predicates_below = v.predicates_below;
              inserts_below = λ s h.
                  put_below seq s _ m.committed_inserts (v.inserts_below s h)
                    (omega (arith, committed_seq_below id seq v c));
            })
    ]
    | inr (s, e) ↦
        rw (n, e, record_insert)
          (record {
            known = v.known;
            seq_unique = v.seq_unique;
            reads_of_active = v.reads_of_active;
            writes_of_active = v.writes_of_active;
            predicates_of_active = v.predicates_of_active;
            inserts_of_active =
                λ i. same_keys id i s _ m.active_inserts _ e (v.inserts_of_active i);
            writes_below = v.writes_below;
            predicates_below = v.predicates_below;
            inserts_below = v.inserts_below;
          })
  ]
]
