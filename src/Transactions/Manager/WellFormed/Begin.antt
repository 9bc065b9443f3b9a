-- ===== src/Transactions/Manager/WellFormed/Begin.antt =====
-- `begin` keeps the invariant of the transaction manager.
use vertex_db.Base.{
  ℕ, ◌+◌, ◌<◌, ◌≡◌, none, some, [], arith, is_some, ◌==◌, if◌then◌else◌, Option-cases, inl, inr,
}
use vertex_db.Base.OrderedMap.{Map, lookup, emplace, lookup-emplace}
use vertex_db.Transactions.Manager.{Manager, Transaction, is_active, begin}
use vertex_db.Transactions.Manager.WellFormed.{IsWf}

-- The next identifier is new.
pub next_id_free : {m : Manager} → IsWf m → lookup m.next_id m.transactions ≡ none
next_id_free {m} v = elim (Option-cases (lookup m.next_id m.transactions)) [
  | inl e ↦ e
  | inr (t, e) ↦ absurd (ground (arith, v.known m.next_id t e))
]

begun {ℓ} :
    {A : Type ℓ} (m : Manager) (x : A) (s : Map A) (i : ℕ)
    → is_some (lookup m.next_id s) ≡ is_active m m.next_id
    → lookup m.next_id m.transactions ≡ none
    → lookup i (emplace m.next_id x s) ≡ (if m.next_id == i then some x else lookup i s)
unfolding is_active
begun m x s i h e = lookup-emplace m.next_id i x s (ground arith)

pub begin-IsWf : {m : Manager} → IsWf m → m.next_id + 1 < 18446744073709551616 → IsWf (begin m).1
unfolding begin is_active
begin-IsWf {m} v room =
    let free = next_id_free v in
    record {
      known =
          λ i u e. ground (arith, lookup-emplace m.next_id i t m.transactions free, v.known i u);
      seq_unique = λ i j s p q. ground (
        arith,
        lookup-emplace m.next_id i t m.transactions free,
        lookup-emplace m.next_id j t m.transactions free,
        v.seq_unique i j s,
      );
      reads_of_active = λ i. ground (
        arith,
        lookup-emplace m.next_id i t m.transactions free,
        begun m [] m.active_reads i (v.reads_of_active m.next_id) free,
        v.reads_of_active i,
      );
      writes_of_active = λ i. ground (
        arith,
        lookup-emplace m.next_id i t m.transactions free,
        begun m [] m.active_writes i (v.writes_of_active m.next_id) free,
        v.writes_of_active i,
      );
      predicates_of_active = λ i. ground (
        arith,
        lookup-emplace m.next_id i t m.transactions free,
        begun m [] m.active_predicate_reads i (v.predicates_of_active m.next_id) free,
        v.predicates_of_active i,
      );
      inserts_of_active = λ i. ground (
        arith,
        lookup-emplace m.next_id i t m.transactions free,
        begun m [] m.active_inserts i (v.inserts_of_active m.next_id) free,
        v.inserts_of_active i,
      );
      writes_below = v.writes_below;
      predicates_below = v.predicates_below;
      inserts_below = v.inserts_below;
    }
  where
    t : Transaction
    t = (begin m).0
