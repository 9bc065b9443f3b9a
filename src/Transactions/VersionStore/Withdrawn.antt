-- ===== src/Transactions/VersionStore/Withdrawn.antt =====
-- The undo records of a transaction that rolls back, as a snapshot reads that does not see it: the
-- pops of versions that it wrote, and the clearing of its deletion marks.
use vertex_db.Base.{
  ℕ, ◌≡◌, ◌⊎◌, refl, ap, sym, ◌∙◌, false, none, some, List, [], ◌∷◌, arith, inl, inr,
}
use vertex_db.Transactions.Manager.{Manager, ReadSnapshot, is_visible, is_creator_visible}
use vertex_db.Transactions.VersionStore.{
  RowVersion, Versions, chain_of, mark_latest, first_visible, read, pop_latest_version,
  clear_latest_deleted_by,
}
use vertex_db.Transactions.VersionStore.Undo.{popped, chain-pop, chain-clear, read-chain_of}

-- The newest version is open, or the transaction has closed it.
abbrev pub IsLatestOwn : ℕ → List RowVersion → Type 0
IsLatestOwn txn [] = Unit
IsLatestOwn txn (v ∷ older) = (v.deleted_by ≡ none) ⊎ (v.deleted_by ≡ some txn)

-- The newest version is the transaction's, over none, an open one, or one that it has closed itself.
abbrev pub IsLatestWritten : ℕ → List RowVersion → Type 0
IsLatestWritten txn [] = Unit
IsLatestWritten txn (v ∷ older) = (v.created_by ≡ txn) × IsLatestOwn txn older

module _ (tm : Manager) (s : ReadSnapshot) (txn : ℕ)
    (hidden : is_creator_visible tm txn s ≡ false) where
  reopened_same :
      (chain : List RowVersion)
      → IsLatestOwn txn chain
      → first_visible tm s (mark_latest none chain) ≡ first_visible tm s chain
  unfolding first_visible is_visible
  reopened_same [] own = refl
  reopened_same (v ∷ older) (inl e) = ground arith
  reopened_same (v ∷ older) (inr e) = ground arith

  own_passed :
      (v : RowVersion) (older : List RowVersion)
      → v.created_by ≡ txn
      → first_visible tm s (v ∷ older) ≡ first_visible tm s older
  unfolding first_visible is_visible
  own_passed v older e = ground arith

  popped_same :
      (chain : List RowVersion)
      → IsLatestWritten txn chain
      → first_visible tm s (popped chain) ≡ first_visible tm s chain
  popped_same [] h = refl
  popped_same (v ∷ older) h = reopened_same older h.1 ∙ sym (own_passed v older h.0)

  -- Undoing a write of a transaction that the snapshot does not see changes no read.
  pub read-pop_latest_version_hidden :
      (row_id j : ℕ) (m : Versions)
      → IsLatestWritten txn (chain_of row_id m)
      → read j s tm (pop_latest_version row_id m).1 ≡ read j s tm m
  read-pop_latest_version_hidden row_id j m h =
      read-chain_of j s tm (pop_latest_version row_id m).1
      ∙ ap (first_visible tm s) (chain-pop row_id j m)
      ∙ ground (arith, popped_same (chain_of row_id m) h)
      ∙ sym (read-chain_of j s tm m)

  -- Nor does undoing a deletion.
  pub read-clear_latest_deleted_by_hidden :
      (row_id j : ℕ) (m : Versions)
      → IsLatestOwn txn (chain_of row_id m)
      → read j s tm (clear_latest_deleted_by row_id m).1 ≡ read j s tm m
  read-clear_latest_deleted_by_hidden row_id j m h =
      read-chain_of j s tm (clear_latest_deleted_by row_id m).1
      ∙ ap (first_visible tm s) (chain-clear row_id j m)
      ∙ ground (arith, reopened_same (chain_of row_id m) h)
      ∙ sym (read-chain_of j s tm m)
