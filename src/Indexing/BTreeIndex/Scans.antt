-- ===== src/Indexing/BTreeIndex/Scans.antt =====
-- indexing/btree_index_lookup.cpp: the scans along the chain of leaves, and the measures of the tree.
-- Each loop runs on the number of pages as fuel, as a descent and a chain meet no page twice.
use vertex_db.Base.{
  ℕ, zero, suc, ◌+◌, Bool, true, false, ◌||◌, Option, none, some, List, [], ◌∷◌, ◌++◌, length,
  get_elem?, if◌then◌else◌,
}
use vertex_db.Base.OrderedMap.{Map, lookup}
use vertex_db.Indexing.KeyOrder.{Comparison}
use vertex_db.Indexing.BTreeIndex.{BTreeNode, BTreeIndex, path_to_leaf, ◌>>=◌}

module _ {ℓ} {K : Type ℓ} ⦃c : Comparison K⦄ where
  open c use {lt}

  -- The rows below a key in a leaf, and whether the scan has met a key that is not below it
  unfoldable pub below_in_leaf : K → List K → List (List ℕ) → Option (List ℕ × Bool)
  below_in_leaf key [] rows = some ([], false)
  below_in_leaf key (k ∷ keys) [] = if lt k key then none else some ([], true)
  below_in_leaf key (k ∷ keys) (ids ∷ rows) =
      let rest = below_in_leaf key keys rows in
      if lt k key
      then (do (result, stopped) ← rest; some (ids ++ result, stopped))
      else some ([], true)

  -- The rows above a key in a leaf, and whether the scan collects by its end
  unfoldable pub above_in_leaf : K → Bool → List K → List (List ℕ) → Option (List ℕ × Bool)
  above_in_leaf key collecting [] rows = some ([], collecting)
  above_in_leaf key collecting (k ∷ keys) [] =
      let rest = above_in_leaf key false keys [] in if collecting || lt key k then none else rest
  above_in_leaf key collecting (k ∷ keys) (ids ∷ rows) =
      let collecting' = collecting || lt key k in
      let rest = above_in_leaf key collecting' keys rows in
      if collecting' then (do (result, on) ← rest; some (ids ++ result, on)) else rest

  -- The loop of leftmostLeaf, with the number of pages that it has left behind
  unfoldable pub leftmost_loop : ℕ → Map (BTreeNode K) → ℕ → Option (ℕ × ℕ)
  unfolding lookup
  leftmost_loop zero nodes id = none
  leftmost_loop (suc fuel) nodes id = do
    current ← lookup id nodes
    if current.leaf then some (id, 0) else do
      child ← get_elem? current.children 0
      (leaf, levels) ← leftmost_loop fuel nodes child
      some (leaf, suc levels)

  -- BTreeIndex::leftmostLeaf
  unfoldable pub leftmost_leaf : BTreeIndex K → Option ℕ
  unfolding leftmost_loop
  leftmost_leaf x = do
    (leaf, levels) ← leftmost_loop (length x.nodes) x.nodes x.root_page_id
    some leaf

  -- BTreeIndex::height
  unfoldable pub height : BTreeIndex K → Option ℕ
  unfolding leftmost_loop
  height x = do
    (leaf, levels) ← leftmost_loop (length x.nodes) x.nodes x.root_page_id
    some (levels + 1)

  unfoldable pub less_than_loop : ℕ → Map (BTreeNode K) → K → Option ℕ → Option (List ℕ)
  unfolding lookup below_in_leaf
  less_than_loop fuel nodes key none = some []
  less_than_loop zero nodes key (some id) = none
  less_than_loop (suc fuel) nodes key (some id) = do
    leaf ← lookup id nodes
    (result, stopped) ← below_in_leaf key leaf.keys leaf.row_ids
    if stopped
        then some result
        else do rest ← less_than_loop fuel nodes key leaf.next_leaf; some (result ++ rest)

  -- BTreeIndex::lessThan
  unfoldable pub less_than : BTreeIndex K → K → Option (List ℕ)
  unfolding leftmost_leaf less_than_loop
  less_than x key = do
    first ← leftmost_leaf x
    less_than_loop (length x.nodes) x.nodes key (some first)

  unfoldable pub greater_than_loop : ℕ → Map (BTreeNode K) → K → Bool → Option ℕ → Option (List ℕ)
  unfolding lookup above_in_leaf
  greater_than_loop fuel nodes key collecting none = some []
  greater_than_loop zero nodes key collecting (some id) = none
  greater_than_loop (suc fuel) nodes key collecting (some id) = do
    leaf ← lookup id nodes
    (result, on) ← above_in_leaf key collecting leaf.keys leaf.row_ids
    rest ← greater_than_loop fuel nodes key on leaf.next_leaf
    some (result ++ rest)

  -- BTreeIndex::greaterThan
  unfoldable pub greater_than : BTreeIndex K → K → Option (List ℕ)
  unfolding path_to_leaf greater_than_loop
  greater_than x key = do
    path ← path_to_leaf x key
    start ← get_elem? path 0
    greater_than_loop (length x.nodes) x.nodes key false (some start)

  unfoldable pub count_loop : ℕ → Map (BTreeNode K) → Option ℕ → Option ℕ
  unfolding lookup
  count_loop fuel nodes none = some 0
  count_loop zero nodes (some id) = none
  count_loop (suc fuel) nodes (some id) = do
    leaf ← lookup id nodes
    count ← count_loop fuel nodes leaf.next_leaf
    some (suc count)

  -- BTreeIndex::leafPageCount
  unfoldable pub leaf_page_count : BTreeIndex K → Option ℕ
  unfolding leftmost_leaf count_loop
  leaf_page_count x = do first ← leftmost_leaf x; count_loop (length x.nodes) x.nodes (some first)
