-- ===== src/Transactions/VersionStore/Reads.antt =====
-- What `read` returns after a write or a deletion, for the transaction that made it and for others.
use vertex_db.Base.{
  ℕ, ◌≡◌, refl, subst, true, false, none, some, List, [], ◌∷◌, arith, Option-cases, inl, inr,
}
use vertex_db.Base.OrderedMap.{lookup, lookup-put}
use vertex_db.Common.Value.{Row}
use vertex_db.Transactions.Manager.{Manager, ReadSnapshot, is_visible, is_creator_visible}
use vertex_db.Transactions.VersionStore.{
  RowVersion, Versions, chain_of, close_latest, mark_latest, write, erase_row, first_visible, read,
}

visible_self : (tm : Manager) (s : ReadSnapshot) → is_visible tm s.self none s ≡ true
unfolding is_visible is_creator_visible
visible_self tm s = ground arith

-- A transaction reads what it wrote last.
pub read-write_self :
    (tm : Manager) (s : ReadSnapshot) (row_id : ℕ) (row : Row) (m : Versions)
    → read row_id s tm (write row_id row s.self m) ≡ some row
unfolding read write first_visible
read-write_self tm s row_id row m = ground (
  arith,
  lookup-put row_id row_id
      (record { created_by = s.self; deleted_by = none; row = row }
        ∷ close_latest s.self (chain_of row_id m))
      m,
  visible_self tm s,
)

-- The newest version is open, so no deletion is overwritten.
abbrev pub IsLatestOpen : List RowVersion → Type 0
IsLatestOpen [] = Unit
IsLatestOpen (v ∷ older) = v.deleted_by ≡ none

empty_chain : (tm : Manager) (s : ReadSnapshot) → first_visible tm s [] ≡ none
unfolding first_visible
empty_chain tm s = refl

module _ (tm : Manager) (s : ReadSnapshot) (txn : ℕ)
    (hidden : is_creator_visible tm txn s ≡ false) where
  -- A version that a hidden transaction closes is as visible as an open one.
  closed_same : (c : ℕ) → is_visible tm c (some txn) s ≡ is_visible tm c none s
  unfolding is_visible
  closed_same c = ground arith

  close_latest_same :
      (chain : List RowVersion)
      → first_visible tm s (close_latest txn chain) ≡ first_visible tm s chain
  unfolding first_visible
  close_latest_same [] = refl
  close_latest_same (v ∷ older) = ground (arith, closed_same v.created_by)

  -- A version that a hidden transaction creates is passed over.
  new_passed :
      (row : Row) (older : List RowVersion)
      → first_visible tm s (record { created_by = txn; deleted_by = none; row = row } ∷ older)
        ≡ first_visible tm s older
  unfolding first_visible is_visible
  new_passed row older = ground arith

  -- A write by a transaction that the snapshot does not see changes no read.
  pub read-write_hidden :
      (row_id j : ℕ) (row : Row) (m : Versions)
      → read j s tm (write row_id row txn m) ≡ read j s tm m
  unfolding read write
  read-write_hidden row_id j row m =
      let new : RowVersion = record { created_by = txn; deleted_by = none; row = row } in
      let chain = chain_of row_id m in
      ground (
        arith,
        lookup-put row_id j (new ∷ close_latest txn chain) m,
        new_passed row (close_latest txn chain),
        close_latest_same chain,
        empty_chain tm s,
      )

  mark_latest_same :
      (chain : List RowVersion)
      → IsLatestOpen chain
      → first_visible tm s (mark_latest (some txn) chain) ≡ first_visible tm s chain
  unfolding first_visible
  mark_latest_same [] h = refl
  mark_latest_same (v ∷ older) h = ground (arith, closed_same v.created_by)

  -- A deletion by a transaction that the snapshot does not see, of a row whose newest version is
  -- open, changes no read.
  pub read-erase_row_hidden :
      (row_id j : ℕ) (m : Versions)
      → IsLatestOpen (chain_of row_id m)
      → read j s tm (erase_row row_id txn m) ≡ read j s tm m
  unfolding read erase_row
  read-erase_row_hidden row_id j m h = elim (Option-cases (lookup row_id m)) [
    | inl e ↦ ground arith
    | inr (chain, e) ↦ ground (
      arith,
      lookup-put row_id j (mark_latest (some txn) chain) m,
      mark_latest_same chain (subst IsLatestOpen (ground arith) h),
    )
  ]
