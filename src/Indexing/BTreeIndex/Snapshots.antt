-- ===== src/Indexing/BTreeIndex/Snapshots.antt =====
-- indexing/btree_index_snapshot.cpp: the pages of a B+ tree exported, installed, and shipped to the
-- redo of a log. A snapshot that cannot be installed makes the call throw; the state that it leaves
-- behind stands beside the result.
pub mod Redo
use vertex_db.Base.{
  ℕ, ◌≡◌, ◌≤◌, refl, Bool, true, false, not, ◌&&◌, ◌||◌, Option, none, some, List, [], ◌∷◌, ltb,
  leb, ◌==◌, if◌then◌else◌, All, is_some, arith, Option-cases, inl, inr, Bool-cases, ap, sym, ◌∙◌,
}
use vertex_db.Base.OrderedMap.{Map, lookup, put, emplace, lookup-emplace}
use vertex_db.Indexing.KeyOrder.{Comparison, IsStrictWeak}
use vertex_db.Indexing.BTreeIndex.{BTreeNode, BTreeIndex, find_rows, path_to_leaf}

-- struct BTreeIndexSnapshot
pub record BTreeIndexSnapshot {ℓ} (K : Type ℓ) : Type ℓ where
  pub max_keys_per_node : ℕ
  pub root_page_id : ℕ
  pub next_page_id : ℕ
  pub free_page_ids : List ℕ
  pub key_count : ℕ
  pub nodes : List (BTreeNode K)

-- `empty()`
abbrev pub is_empty {ℓ} : {A : Type ℓ} → List A → Bool
is_empty [] = true
is_empty (a ∷ xs) = false

module _ {ℓ} {K : Type ℓ} where
  -- `BTreeIndexSnapshot{}`
  abbrev pub empty_snapshot : BTreeIndexSnapshot K
  empty_snapshot = record {
    max_keys_per_node = 64;
    root_page_id = 1;
    next_page_id = 2;
    free_page_ids = [];
    key_count = 0;
    nodes = [];
  }

  -- std::sort by the page number
  unfoldable pub insert_page : BTreeNode K → List (BTreeNode K) → List (BTreeNode K)
  insert_page p [] = p ∷ []
  insert_page p (q ∷ qs) = if leb p.page_id q.page_id then p ∷ q ∷ qs else q ∷ insert_page p qs

  unfoldable pub sorted_pages : Map (BTreeNode K) → List (BTreeNode K)
  unfolding insert_page
  sorted_pages [] = []
  sorted_pages ((id, p) ∷ m) = insert_page p (sorted_pages m)

  -- BTreeIndex::exportPages
  unfoldable pub export_pages : BTreeIndex K → BTreeIndexSnapshot K
  unfolding sorted_pages
  export_pages x = record {
    max_keys_per_node = x.max_keys_per_node;
    root_page_id = x.root_page_id;
    next_page_id = x.next_page_id;
    free_page_ids = x.free_page_ids;
    key_count = x.key_count;
    nodes = sorted_pages x.nodes;
  }

  -- BTreeIndex::clearDirtyPages
  unfoldable pub clear_dirty_pages : BTreeIndex K → BTreeIndex K
  clear_dirty_pages x = record x {
    dirty_pages = [];
    metadata_dirty = false;
    full_replace_dirty = false;
  }

  -- The loop of replaceFromPages
  unfoldable pub install_pages : List (BTreeNode K) → Map (BTreeNode K) → Map (BTreeNode K)
  unfolding emplace
  install_pages [] m = m
  install_pages (p ∷ ps) m = install_pages ps (emplace p.page_id p m)

  -- BTreeIndex::replaceFromPages; `false` when it throws
  unfoldable pub replace_from_pages : BTreeIndexSnapshot K → BTreeIndex K → Bool × BTreeIndex K
  unfolding install_pages lookup clear_dirty_pages
  replace_from_pages s x =
      if ltb s.max_keys_per_node 2
      then (false, x)
      else (let y = record x {
        max_keys_per_node = s.max_keys_per_node;
        root_page_id = s.root_page_id;
        next_page_id = s.next_page_id;
        free_page_ids = s.free_page_ids;
        key_count = s.key_count;
        nodes = install_pages s.nodes [];
      } in
          if is_some (lookup y.root_page_id y.nodes)
          then (true, clear_dirty_pages y)
          else (false, y))

  -- BTreeIndex::hasDirtyPages
  unfoldable pub has_dirty_pages : BTreeIndex K → Bool
  has_dirty_pages x = x.full_replace_dirty || x.metadata_dirty || not (is_empty x.dirty_pages)

  -- BTreeIndex::takeDirtyPages
  unfoldable pub take_dirty_pages : BTreeIndex K → BTreeIndexSnapshot K × BTreeIndex K
  unfolding has_dirty_pages export_pages clear_dirty_pages
  take_dirty_pages x =
      if not (has_dirty_pages x) then (empty_snapshot, x) else (export_pages x, clear_dirty_pages x)

  -- BTreeIndex::applyDirtyPages
  unfoldable pub apply_dirty_pages : BTreeIndexSnapshot K → BTreeIndex K → Bool × BTreeIndex K
  unfolding replace_from_pages
  apply_dirty_pages s x =
      if is_empty s.nodes && s.key_count == 0 && s.root_page_id == 0
      then (true, x)
      else replace_from_pages s x
