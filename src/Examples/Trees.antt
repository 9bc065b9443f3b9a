-- ===== src/Examples/Trees.antt =====
-- A B+ tree of two levels with numbers as keys, and insertions into it.
use vertex_db.Base.{
  ℕ, ◌+◌, ◌≤◌, ◌≡◌, refl, true, false, none, some, List, [], ◌∷◌, ◌++◌, ltb, ◌==◌, if◌then◌else◌,
  length, arith,
}
use vertex_db.Base.OrderedMap.{lookup, erase, put, emplace}
use vertex_db.Indexing.KeyOrder.{Comparison, IsStrictWeak}
use vertex_db.Indexing.BTreeIndex.{
  BTreeIndex, new_index, find_rows, insert_row, lower_bound_key, insert_into_leaf, split_leaf,
  insert_separator, path_to_leaf, path_loop, node, mark_page_dirty, lower_bound_loop, child_index,
  allocate_page,
}
use vertex_db.Indexing.BTreeIndex.{◌>>=◌}
use vertex_db.Indexing.BTreeIndex.Removal.{
  remove_row, remove_from_leaf, without, rebalance_after_delete, rebalance_loop, raise_separator,
  update_separator, child_position, borrow_left, borrow_right, merge_leaves, neighbours, free_page,
  collapse_root_if_needed, borrow_from_left_leaf, borrow_from_right_leaf,
}
use vertex_db.Indexing.BTreeIndex.Scans.{
  less_than, greater_than, height, leaf_page_count, leftmost_leaf, leftmost_loop, less_than_loop,
  greater_than_loop, count_loop, below_in_leaf, above_in_leaf,
}
use vertex_db.Indexing.BTreeIndex.Entries.{IsSorted, insert_entry, find_entry}
use vertex_db.Indexing.BTreeIndex.Trees.{
  Tree, leaf, inner, last, more, leaf_page, inner_page, Stores, occurs, entries, Ordered, Fits,
}
use vertex_db.Indexing.BTreeIndex.Positions.{position, lower_bound_key_lem, IsIncreasing}
use vertex_db.Indexing.BTreeIndex.Supply.{spare}
use vertex_db.Indexing.BTreeIndex.Maps.{
  IsWf, find_rows-find_entry, insert_row-insert_entry, find_rows-insert_row,
}
use vertex_db.Indexing.BTreeIndex.Snapshots.{take_dirty_pages, apply_dirty_pages, has_dirty_pages}
use vertex_db.Indexing.BTreeIndex.Snapshots.Redo.{apply_dirty_pages-take_dirty_pages}

instance abbrev numbers : Comparison ℕ
numbers = record { lt = ltb; eq = ◌==◌ }

numbers-IsStrictWeak : IsStrictWeak numbers
numbers-IsStrictWeak = record {
  lt_asym = λ a b h. ground arith;
  ge_trans = λ a b d h k. ground arith;
  eq_lem = λ a b. ground arith;
}

abbrev two_levels : Tree ℕ
two_levels = inner 3 (
    more (leaf 1 ((1, 10 ∷ []) ∷ (3, 30 ∷ []) ∷ []) (some 2)) 5
      (last (leaf 2 ((5, 50 ∷ []) ∷ (7, 70 ∷ 71 ∷ []) ∷ []) none)))

abbrev two_levels_index : BTreeIndex ℕ
two_levels_index = record {
  max_keys_per_node = 2;
  nodes =
      (1, leaf_page 1 ((1, 10 ∷ []) ∷ (3, 30 ∷ []) ∷ []) (some 2))
      ∷ (2, leaf_page 2 ((5, 50 ∷ []) ∷ (7, 70 ∷ 71 ∷ []) ∷ []) none)
      ∷ (3, inner_page 3 (5 ∷ []) (1 ∷ 2 ∷ []))
      ∷ [];
  free_page_ids = [];
  root_page_id = 3;
  next_page_id = 4;
  key_count = 4;
  dirty_pages = [];
  metadata_dirty = true;
  full_replace_dirty = false;
}

two_levels-IsWf : IsWf two_levels_index two_levels
unfolding Stores occurs spare lookup Ordered IsSorted Fits
two_levels-IsWf = record {
  at_root = refl;
  stores = (refl, (refl, refl));
  distinct = λ j. ground arith;
  supplied = record { absent = λ j h. ground arith; distinct = λ j. ground arith };
  ordered = (
    (tt, tt),
    (((refl, tt), (tt, tt)), ((tt, refl), ((tt, refl), tt))),
    (((refl, tt), (tt, tt)), ((refl, tt), ((refl, tt), tt))),
  );
  fits = (omega arith, (omega arith, omega arith));
  capacity = omega arith;
  keyed = (refl, (refl, (refl, tt)));
}

-- The leaf of 6 is split, and its parent takes up the separator.
insert_row_test :
    (x' : BTreeIndex ℕ) × (insert_row 6 60 two_levels_index ≡ some x')
    × (find_rows x' 6 ≡ some (60 ∷ []))
    × (find_rows x' 7 ≡ some (70 ∷ 71 ∷ []))
unfolding insert_row insert_into_leaf split_leaf insert_separator path_to_leaf path_loop lookup node
    mark_page_dirty lower_bound_key lower_bound_loop child_index put emplace allocate_page find_rows
insert_row_test = (_, refl, refl, refl)

-- The second leaf is merged into the first, which becomes the root.
remove_row_test :
    (do
      x1 ← remove_row 5 50 two_levels_index
      x2 ← remove_row 3 30 x1
      x3 ← remove_row 7 70 x2
      x4 ← remove_row 7 71 x3
      some x4.root_page_id)
    ≡ some 1
unfolding remove_row remove_from_leaf without path_to_leaf path_loop lookup node mark_page_dirty
    lower_bound_key lower_bound_loop child_index put rebalance_after_delete rebalance_loop
    raise_separator update_separator child_position borrow_left borrow_right merge_leaves neighbours
    free_page erase collapse_root_if_needed borrow_from_left_leaf borrow_from_right_leaf
remove_row_test = refl

scans_test :
    (less_than two_levels_index 7 ≡ some (10 ∷ 30 ∷ 50 ∷ []))
    × (greater_than two_levels_index 3 ≡ some (50 ∷ 70 ∷ 71 ∷ []))
    × (greater_than two_levels_index 7 ≡ some [])
    × (height two_levels_index ≡ some 2)
    × (leaf_page_count two_levels_index ≡ some 2)
unfolding less_than greater_than height leaf_page_count leftmost_leaf leftmost_loop less_than_loop
    greater_than_loop count_loop below_in_leaf above_in_leaf lookup path_to_leaf path_loop
    child_index
scans_test = (refl, refl, refl, refl, refl)

find_rows-find_entry_example :
    find_rows two_levels_index 7 ≡ some (find_entry 7 (entries two_levels))
find_rows-find_entry_example =
    find_rows-find_entry numbers-IsStrictWeak two_levels_index two_levels 7 two_levels-IsWf

insert_row-insert_entry_example :
    (x' : BTreeIndex ℕ) × (t' : Tree ℕ) × (insert_row 6 60 two_levels_index ≡ some x')
    × IsWf x' t'
    × (entries t' ≡ insert_entry 6 60 (entries two_levels))
    × (x'.next_page_id ≤ two_levels_index.next_page_id + length two_levels_index.nodes + 1)
insert_row-insert_entry_example =
    insert_row-insert_entry numbers-IsStrictWeak two_levels_index two_levels 6 60 two_levels-IsWf
      (omega arith)

find_rows-insert_row_example :
    (x' : BTreeIndex ℕ) × (rows : List ℕ) × (insert_row 6 60 two_levels_index ≡ some x')
    × (find_rows two_levels_index 7 ≡ some rows)
    × (find_rows x' 7 ≡ some (if 6 == 7 then rows ++ 60 ∷ [] else rows))
find_rows-insert_row_example =
    find_rows-insert_row numbers-IsStrictWeak two_levels_index two_levels 6 7 60 two_levels-IsWf
      (omega arith)

abbrev evens : List ℕ
evens = 2 ∷ 4 ∷ 6 ∷ 8 ∷ []

increasing : IsIncreasing evens
unfolding IsIncreasing
increasing = ((refl, (refl, (refl, tt))), ((refl, (refl, tt)), ((refl, tt), (tt, tt))))

lower_bound_key_lem_example : lower_bound_key evens 5 ≡ position evens 5
lower_bound_key_lem_example = lower_bound_key_lem numbers-IsStrictWeak evens 5 increasing

two_levels_dirty : has_dirty_pages two_levels_index ≡ true
unfolding has_dirty_pages
two_levels_dirty = refl

apply_dirty_pages-take_dirty_pages_example :
    let (snapshot, z) = take_dirty_pages two_levels_index in
    let (installed, y') = apply_dirty_pages snapshot (new_index 5) in
    (installed ≡ true)
    × (find_rows y' 7 ≡ find_rows two_levels_index 7)
    × (find_rows z 7 ≡ find_rows two_levels_index 7)
    × (has_dirty_pages z ≡ false)
apply_dirty_pages-take_dirty_pages_example =
    apply_dirty_pages-take_dirty_pages numbers-IsStrictWeak two_levels_index (new_index 5)
      two_levels 7 two_levels-IsWf two_levels_dirty
