-- ===== src/Indexing/BTreeIndex/Removal.antt =====
-- indexing/btree_index_mutate.cpp: removal from the B+ tree with its rebalancing. As in insertion a
-- path stands with the leaf first, and a page that is not there is `none`, as is a child that its
-- parent does not list.
use vertex_db.Base.{
  ℕ, suc, ◌+◌, ◌-◌, ◌/◌, ◌%◌, Bool, true, false, not, ◌&&◌, ◌||◌, Option, none, some, List, [], ◌∷◌,
  ◌++◌, ltb, leb, ◌==◌, if◌then◌else◌, length, get_elem?, set, take, drop, remove_at,
}
use vertex_db.Base.OrderedMap.{put, erase}
use vertex_db.Indexing.KeyOrder.{Comparison}
use vertex_db.Indexing.BTreeIndex.{
  BTreeNode, BTreeIndex, ◌>>=◌, node, store, lower_bound_key, child_index, is_at, path_to_leaf,
}

abbrev is_empty {ℓ} : {A : Type ℓ} → List A → Bool
is_empty [] = true
is_empty (a ∷ xs) = false

-- `std::erase(rows, row_id)`
unfoldable pub without : ℕ → List ℕ → List ℕ
without row_id [] = []
without row_id (r ∷ rows) = let rest = without row_id rows in if r == row_id then rest else r ∷ rest

-- The position of a page among the children
unfoldable pub child_position : ℕ → List ℕ → Option ℕ
child_position id [] = none
child_position id (c ∷ cs) =
    let rest = child_position id cs in if c == id then some 0 else do i ← rest; some (suc i)

-- `back()`, and what `pop_back()` leaves
abbrev back {ℓ} : {A : Type ℓ} → List A → Option A
back xs = get_elem? xs (length xs - 1)

abbrev pop_back {ℓ} : {A : Type ℓ} → List A → List A
pop_back xs = take (length xs - 1) xs

module _ {ℓ} {K : Type ℓ} where
  -- BTreeIndex::minKeys
  abbrev pub min_keys : BTreeIndex K → ℕ
  min_keys x = x.max_keys_per_node / 2

  -- BTreeIndex::freePage
  unfoldable pub free_page : ℕ → BTreeIndex K → BTreeIndex K
  unfolding erase
  free_page id x = record x {
    nodes = erase id x.nodes;
    free_page_ids = id ∷ x.free_page_ids;
    dirty_pages = erase id x.dirty_pages;
    metadata_dirty = true;
    full_replace_dirty = true;
  }

  -- BTreeIndex::updateSeparator
  unfoldable pub update_separator : ℕ → ℕ → K → BTreeIndex K → Option (BTreeIndex K)
  unfolding node put
  update_separator parent_id child separator x = do
    (parent, x1) ← node parent_id x
    if child == 0 || ltb (length parent.keys) child
        then some x1
        else some
            (store parent_id (record parent { keys = set parent.keys (child - 1) separator }) x1)

  -- The parent and two neighbours among its children, which `node` marks as dirty
  unfoldable pub neighbours :
      ℕ
      → ℕ
      → BTreeIndex K
      → Option (BTreeNode K × (ℕ × BTreeNode K) × (ℕ × BTreeNode K) × BTreeIndex K)
  unfolding node
  neighbours parent_id left_child x = do
    (parent, x1) ← node parent_id x
    left_id ← get_elem? parent.children left_child
    right_id ← get_elem? parent.children (suc left_child)
    (left, x2) ← node left_id x1
    (right, x3) ← node right_id x2
    some (parent, (left_id, left), (right_id, right), x3)

  -- BTreeIndex::borrowFromLeftLeaf; the position is that of the left page
  unfoldable pub borrow_from_left_leaf : ℕ → ℕ → BTreeIndex K → Option (BTreeIndex K)
  unfolding neighbours put
  borrow_from_left_leaf parent_id i x = do
    (parent, (left_id, left), (right_id, right), x1) ← neighbours parent_id i x
    key ← back left.keys
    rows ← back left.row_ids
    let right' = record right { keys = key ∷ right.keys; row_ids = rows ∷ right.row_ids }
    let left' = record left { keys = pop_back left.keys; row_ids = pop_back left.row_ids }
    some (
        store parent_id (record parent { keys = set parent.keys i key })
          (store left_id left' (store right_id right' x1)))

  -- BTreeIndex::borrowFromRightLeaf
  unfoldable pub borrow_from_right_leaf : ℕ → ℕ → BTreeIndex K → Option (BTreeIndex K)
  unfolding neighbours put
  borrow_from_right_leaf parent_id i x = do
    (parent, (left_id, left), (right_id, right), x1) ← neighbours parent_id i x
    key ← get_elem? right.keys 0
    rows ← get_elem? right.row_ids 0
    separator ← get_elem? right.keys 1
    let left' = record left { keys = left.keys ++ key ∷ []; row_ids = left.row_ids ++ rows ∷ [] }
    let right' = record right { keys = drop 1 right.keys; row_ids = drop 1 right.row_ids }
    some (
        store parent_id (record parent { keys = set parent.keys i separator })
          (store right_id right' (store left_id left' x1)))

  -- BTreeIndex::borrowFromLeftInternal; the position is that of the left page
  unfoldable pub borrow_from_left_internal : ℕ → ℕ → BTreeIndex K → Option (BTreeIndex K)
  unfolding neighbours put
  borrow_from_left_internal parent_id i x = do
    (parent, (left_id, left), (right_id, right), x1) ← neighbours parent_id i x
    separator ← get_elem? parent.keys i
    child ← back left.children
    key ← back left.keys
    let right' = record right { keys = separator ∷ right.keys; children = child ∷ right.children }
    let left' = record left { keys = pop_back left.keys; children = pop_back left.children }
    some (
        store parent_id (record parent { keys = set parent.keys i key })
          (store left_id left' (store right_id right' x1)))

  -- BTreeIndex::borrowFromRightInternal
  unfoldable pub borrow_from_right_internal : ℕ → ℕ → BTreeIndex K → Option (BTreeIndex K)
  unfolding neighbours put
  borrow_from_right_internal parent_id i x = do
    (parent, (left_id, left), (right_id, right), x1) ← neighbours parent_id i x
    separator ← get_elem? parent.keys i
    child ← get_elem? right.children 0
    key ← get_elem? right.keys 0
    let left' = record left {
      keys = left.keys ++ separator ∷ [];
      children = left.children ++ child ∷ [];
    }
    let right' = record right { keys = drop 1 right.keys; children = drop 1 right.children }
    some (
        store parent_id (record parent { keys = set parent.keys i key })
          (store right_id right' (store left_id left' x1)))

  -- BTreeIndex::mergeLeaves
  unfoldable pub merge_leaves : ℕ → ℕ → BTreeIndex K → Option (BTreeIndex K)
  unfolding neighbours put free_page
  merge_leaves parent_id i x = do
    (parent, (left_id, left), (right_id, right), x1) ← neighbours parent_id i x
    let left' = record left {
      keys = left.keys ++ right.keys;
      row_ids = left.row_ids ++ right.row_ids;
      next_leaf = right.next_leaf;
    }
    let parent' = record parent {
      keys = remove_at i parent.keys;
      children = remove_at (suc i) parent.children;
    }
    some (free_page right_id (store parent_id parent' (store left_id left' x1)))

  -- BTreeIndex::mergeInternals
  unfoldable pub merge_internals : ℕ → ℕ → BTreeIndex K → Option (BTreeIndex K)
  unfolding neighbours put free_page
  merge_internals parent_id i x = do
    (parent, (left_id, left), (right_id, right), x1) ← neighbours parent_id i x
    separator ← get_elem? parent.keys i
    let left' = record left {
      keys = left.keys ++ separator ∷ right.keys;
      children = left.children ++ right.children;
    }
    let parent' = record parent {
      keys = remove_at i parent.keys;
      children = remove_at (suc i) parent.children;
    }
    some (free_page right_id (store parent_id parent' (store left_id left' x1)))

  -- BTreeIndex::collapseRootIfNeeded
  unfoldable pub collapse_root_if_needed : BTreeIndex K → Option (BTreeIndex K)
  unfolding node free_page
  collapse_root_if_needed x = do
    (page, x1) ← node x.root_page_id x
    if page.leaf || not (length page.children == 1) then some x1 else do
      only ← get_elem? page.children 0
      some (record (free_page x.root_page_id x1) { root_page_id = only })

  -- A neighbour with keys to spare gives one up; the result says whether it did.
  unfoldable pub borrow_left :
      ℕ → Bool → BTreeNode K → ℕ → BTreeIndex K → Option (Bool × BTreeIndex K)
  unfolding node borrow_from_left_leaf borrow_from_left_internal
  borrow_left parent_id is_leaf parent index x = if index == 0 then some (false, x) else do
    left_id ← get_elem? parent.children (index - 1)
    (left, x1) ← node left_id x
    if ltb (min_keys x) (length left.keys)
        then (do
          x2 ←
              if is_leaf
              then borrow_from_left_leaf parent_id (index - 1) x1
              else borrow_from_left_internal parent_id (index - 1) x1
          some (true, x2))
        else some (false, x1)

  unfoldable pub borrow_right :
      ℕ → Bool → BTreeNode K → ℕ → BTreeIndex K → Option (Bool × BTreeIndex K)
  unfolding node borrow_from_right_leaf borrow_from_right_internal
  borrow_right parent_id is_leaf parent index x =
      if leb (length parent.children) (index + 1) then some (false, x) else do
        right_id ← get_elem? parent.children (index + 1)
        (right, x1) ← node right_id x
        if ltb (min_keys x) (length right.keys)
            then (do
              x2 ←
                  if is_leaf
                  then borrow_from_right_leaf parent_id index x1
                  else borrow_from_right_internal parent_id index x1
              some (true, x2))
            else some (false, x1)

  -- The loop of rebalanceAfterDelete up the path
  unfoldable pub rebalance_loop : List ℕ → BTreeIndex K → Option (BTreeIndex K)
  unfolding node child_position borrow_left borrow_right merge_leaves merge_internals
  rebalance_loop [] x = some x
  rebalance_loop (id ∷ []) x = some x
  rebalance_loop (id ∷ parent_id ∷ above) x = do
    (current, x1) ← node id x
    (parent, x2) ← node parent_id x1
    index ← child_position id parent.children
    if leb (min_keys x) (length current.keys) then some x2 else do
      (left, x3) ← borrow_left parent_id current.leaf parent index x2
      if left then some x3 else do
        (right, x4) ← borrow_right parent_id current.leaf parent index x3
        if right then some x4 else do
          let i = index - 1
          x5 ← if current.leaf then merge_leaves parent_id i x4 else merge_internals parent_id i x4
          (parent', x6) ← node parent_id x5
          if leb (min_keys x) (length parent'.keys) || is_empty above
              then some x6
              else rebalance_loop (parent_id ∷ above) x6

  -- BTreeIndex::rebalanceAfterDelete
  unfoldable pub rebalance_after_delete : List ℕ → BTreeIndex K → Option (BTreeIndex K)
  unfolding rebalance_loop collapse_root_if_needed
  rebalance_after_delete path x = do x1 ← rebalance_loop path x; collapse_root_if_needed x1

module _ {ℓ} {K : Type ℓ} ⦃c : Comparison K⦄ where
  -- The separator before a leaf that has lost its first key
  unfoldable pub raise_separator : ℕ → K → List K → BTreeIndex K → Option (BTreeIndex K)
  unfolding node child_index update_separator
  raise_separator parent_id key keys x = do
    (parent, x1) ← node parent_id x
    let child = child_index parent.keys key
    if child == 0
        then some x1
        else do front ← get_elem? keys 0; update_separator parent_id child front x1

  -- BTreeIndex::removeFromLeaf
  unfoldable pub remove_from_leaf : List ℕ → K → ℕ → BTreeIndex K → Option (BTreeIndex K)
  unfolding node lower_bound_key put without raise_separator rebalance_after_delete
  remove_from_leaf [] key row_id x = none
  remove_from_leaf (id ∷ above) key row_id x = do
    (leaf, x1) ← node id x
    let index = lower_bound_key leaf.keys key
    if not (is_at leaf.keys index key) then some x1 else do
      rows ← get_elem? leaf.row_ids index
      let left = without row_id rows
      if not (is_empty left)
          then some (store id (record leaf { row_ids = set leaf.row_ids index left }) x1)
          else do
            let keys = remove_at index leaf.keys
            let leaf' = record leaf { keys = keys; row_ids = remove_at index leaf.row_ids }
            let x2 = store id leaf' (record x1 {
              key_count = (x.key_count + 18446744073709551615) % 18446744073709551616;
            })
            elim above [
              | [] ↦ some x2
              | parent_id ∷ rest ↦ do
                x3 ←
                    if index == 0 && not (is_empty keys)
                    then raise_separator parent_id key keys x2
                    else some x2
                if ltb (length keys) (min_keys x)
                    then rebalance_after_delete (id ∷ parent_id ∷ rest) x3
                    else some x3
            ]

  -- BTreeIndex::remove
  unfoldable pub remove_row : K → ℕ → BTreeIndex K → Option (BTreeIndex K)
  unfolding path_to_leaf remove_from_leaf
  remove_row key row_id x = do path ← path_to_leaf x key; remove_from_leaf path key row_id x
