-- ===== src/Indexing/BTreeIndex/Maps.antt =====
-- The B+ tree as an ordered map of keys to rows.
use vertex_db.Base.{
  ℕ, ◌+◌, ◌≤◌, ◌<◌, ◌≡◌, refl, none, some, List, [], ◌∷◌, ◌++◌, ap, length, arith, sym, false, ◌∙◌,
  if◌then◌else◌, ltb,
}
use vertex_db.Base.OrderedMap.{lookup}
use vertex_db.Indexing.KeyOrder.{Comparison, IsStrictWeak}
use vertex_db.Indexing.BTreeIndex.{
  BTreeIndex, make_index, new_index, clear_index, path_to_leaf, find_rows, insert_row,
  insert_into_leaf, insert_separator, add_page, allocate_page,
}
use vertex_db.Indexing.BTreeIndex.Entries.{
  IsSorted, find_entry, insert_entry, find_entry-insert_entry,
}
use vertex_db.Indexing.BTreeIndex.Trees.{
  Tree, leaf, inner, last, more, root, inner_page, Stores, occurs, entries, Ordered, Fits, height,
  path_of,
}
use vertex_db.Indexing.BTreeIndex.Positions.{lower_bound_key_lem, IsSorted-keys, find_entry_at}
use vertex_db.Indexing.BTreeIndex.Order.{find_entry-leaf_of, Ordered-entries}
use vertex_db.Indexing.BTreeIndex.Pages.{height-le, path_loop_lem, path_of-IsLeafPath, Stores-frame}
use vertex_db.Indexing.BTreeIndex.Growth.{Growth, one, two}
use vertex_db.Indexing.BTreeIndex.Supply.{next_id, spare, IsSupplied, IsKeyed, IsRaised-add_page}
use vertex_db.Indexing.BTreeIndex.Insertion.{IsReady, IsInserted}
use vertex_db.Indexing.BTreeIndex.Insertion.Inner.{Inserts-tree}

ltb-false : (max : ℕ) → 2 ≤ max → ltb max 2 ≡ false
ltb-false max h = ground arith

module _ {K : Type 0} ⦃c : Comparison K⦄ where
  open c use {lt, eq}

  -- The index stores a tree: its pages are different, those that can be handed out are not in use,
  -- keys and separators are in order, and no page has more keys than the capacity.
  pub record IsWf (x : BTreeIndex K) (t : Tree K) : Type 0 where
    pub at_root : x.root_page_id ≡ root t
    pub stores : Stores x.nodes t
    pub distinct : (j : ℕ) → occurs j t + spare j x ≤ 1
    pub supplied : IsSupplied x
    pub ordered : Ordered none none t
    pub fits : Fits x.max_keys_per_node t
    pub capacity : 2 ≤ x.max_keys_per_node
    pub keyed : IsKeyed x.nodes

  height-le_pages : (x : BTreeIndex K) (t : Tree K) → IsWf x t → height t ≤ length x.nodes
  height-le_pages x t v = height-le x.nodes t v.stores (λ j. omega (arith, v.distinct j))

  -- pathToLeaf finds the path of the tree; the fuel is enough.
  path_to_leaf_lem :
      (x : BTreeIndex K) (t : Tree K) (key : K)
      → IsWf x t
      → path_to_leaf x key ≡ some (path_of t key [])
  unfolding path_to_leaf
  path_to_leaf_lem x t key v =
      rw v.at_root
        (path_loop_lem (length x.nodes) x.nodes t key [] (height-le_pages x t v) v.stores)

  -- A new index stores the empty leaf, with any capacity from 2 on; so does a cleared one.
  pub make_index-IsWf :
      (max : ℕ)
      → 2 ≤ max
      → (x : BTreeIndex K) × (make_index max ≡ some x)
        × IsWf x (leaf 1 [] none)
        × ((y : BTreeIndex K) (t : Tree K) → IsWf y t → IsWf (clear_index y) (leaf 1 [] none))
  unfolding make_index clear_index Stores lookup occurs spare Ordered IsSorted Fits
  make_index-IsWf max h = (
    new_index max,
    rw (ltb-false max h) refl,
    record {
      at_root = refl;
      stores = refl;
      distinct = λ j. ground arith;
      supplied = record { absent = λ j p. ground (arith, p); distinct = λ j. ground arith };
      ordered = (tt, tt);
      fits = omega arith;
      capacity = h;
      keyed = (refl, tt);
    },
    λ y t v. record {
      at_root = refl;
      stores = refl;
      distinct = λ j. ground arith;
      supplied = record { absent = λ j p. ground (arith, p); distinct = λ j. ground arith };
      ordered = (tt, tt);
      fits = omega arith;
      capacity = v.capacity;
      keyed = (refl, tt);
    },
  )

  module _ (w : IsStrictWeak c) where
    -- In an index that stores a tree, a lookup ends and yields the rows of the key among the entries
    -- of the tree in order: the path is found on the number of pages as fuel.
    pub find_rows-find_entry :
        (x : BTreeIndex K) (t : Tree K) (key : K)
        → IsWf x t
        → find_rows x key ≡ some (find_entry key (entries t))
    unfolding find_rows
    find_rows-find_entry x t key v =
        let (id, next, above, path, stored) = path_of-IsLeafPath x.nodes t key [] v.stores in
        let (sorted, same) = find_entry-leaf_of w none none t key v.ordered in
        rw (path_to_leaf_lem x t key v ∙ ap some path) (
          rw stored (
            rw (lower_bound_key_lem w _ key (IsSorted-keys w _ sorted))
              (find_entry_at w _ key sorted ∙ ap some same)))

    -- A new root above two trees
    module _ (x y : BTreeIndex K) (t l : Tree K) (k : K) (u : Tree K) (key : K) (row_id : ℕ)
        (v : IsWf x t) (room : x.next_page_id + length x.nodes + 1 < 18446744073709551616)
        (p : IsInserted none none key row_id t [] x y (two l k u)) where
      new_root :
          (x' : BTreeIndex K) × (t' : Tree K) × (insert_separator [] k (root u) y ≡ some x')
          × IsWf x' t'
          × (entries t' ≡ insert_entry key row_id (entries t))
          × (x'.next_page_id ≤ x.next_page_id + length x.nodes + 1)
      unfolding insert_separator Stores occurs entries Ordered Fits spare
      new_root =
          let page = inner_page (next_id y) (k ∷ []) (y.root_page_id ∷ root u ∷ []) in
          let high = height-le_pages x t v in
          let q = IsRaised-add_page page y p.supplied (omega (arith, room, p.room, high)) refl in
          let spares = q.spares in
          (
            add_page page (record (allocate_page y).1 { root_page_id = next_id y }),
            inner (next_id y) (more l k (last u)),
            refl,
            record {
              at_root = refl;
              stores = (
                ground (arith, q.pages (next_id y), p.same_root, v.at_root, p.same_page),
                (
                  Stores-frame y.nodes _ l p.stores.0
                      (λ j h. ground (arith, q.pages j, q.spares j, p.counts j, v.distinct j, h)),
                  Stores-frame y.nodes _ u p.stores.1
                      (λ j h. ground (arith, q.pages j, q.spares j, p.counts j, v.distinct j, h)),
                ),
              );
              distinct = λ j. omega (arith, q.spares j, p.counts j, v.distinct j);
              supplied = record {
                absent = λ j h.
                    ground
                      (arith, q.pages j, q.spares j, p.supplied.absent j, p.supplied.distinct j, h);
                distinct = λ j. ground (arith, q.spares j, p.supplied.distinct j);
              };
              ordered = p.ordered;
              fits = rw (q.same_max ∙ p.same_max) (omega (arith, v.capacity), (p.fits.0, p.fits.1));
              capacity = omega (arith, v.capacity, q.same_max, p.same_max);
              keyed = q.keyed (p.keyed v.keyed);
            },
            p.contents,
            omega (arith, q.next_grows, p.room, high),
          )

    -- An insertion into an index that stores a tree succeeds, whatever leaves and inner pages it
    -- splits, and the index stores a tree after it, with pages within the capacity, whose entries are
    -- those before with the row inserted in order. (As many page numbers must be left as there are
    -- pages, and one more.)
    pub insert_row-insert_entry :
        (x : BTreeIndex K) (t : Tree K) (key : K) (row_id : ℕ)
        → IsWf x t
        → x.next_page_id + length x.nodes + 1 < 18446744073709551616
        → (x' : BTreeIndex K) × (t' : Tree K) × (insert_row key row_id x ≡ some x')
          × IsWf x' t'
          × (entries t' ≡ insert_entry key row_id (entries t))
          × (x'.next_page_id ≤ x.next_page_id + length x.nodes + 1)
    unfolding insert_row
    insert_row-insert_entry x t key row_id v room =
        let high = height-le_pages x t v in
        let ready : IsReady none none key t x = record {
          stores = v.stores;
          distinct = v.distinct;
          supplied = v.supplied;
          ordered = v.ordered;
          from = tt;
          below = tt;
          fits = v.fits;
          capacity = v.capacity;
          room = omega (arith, room, high);
        } in
        let (y, g, p) = Inserts-tree w key row_id t none none [] x ready in
        rw (path_to_leaf_lem x t key v) (grown y g p)
      where
        grown :
            (y : BTreeIndex K) (g : Growth K)
            → IsInserted none none key row_id t [] x y g
            → (x' : BTreeIndex K) × (t' : Tree K) × (insert_into_leaf
                  (path_of t key [])
                  key
                  row_id
                  x
                ≡ some x')
              × IsWf x' t'
              × (entries t' ≡ insert_entry key row_id (entries t))
              × (x'.next_page_id ≤ x.next_page_id + length x.nodes + 1)
        grown y (one t') p = (
          y,
          t',
          p.run,
          record {
            at_root = p.same_root ∙ v.at_root ∙ sym p.same_page;
            stores = p.stores;
            distinct = λ j. omega (arith, p.counts j, v.distinct j);
            supplied = p.supplied;
            ordered = p.ordered;
            fits = rw p.same_max p.fits;
            capacity = omega (arith, p.same_max, v.capacity);
            keyed = p.keyed v.keyed;
          },
          p.contents,
          omega (arith, p.room, height-le_pages x t v),
        )
        grown y (two l k u) p =
            let (x', t', e, wf, same, next) = new_root x y t l k u key row_id v room p in
            (x', t', p.run ∙ e, wf, same, next)

    -- An insertion into an index that stores a tree succeeds, and a lookup after it yields what it
    -- yielded before, with the new row at the end for an equal key, and unchanged for any other.
    pub find_rows-insert_row :
        (x : BTreeIndex K) (t : Tree K) (key j : K) (row_id : ℕ)
        → IsWf x t
        → x.next_page_id + length x.nodes + 1 < 18446744073709551616
        → (x' : BTreeIndex K) × (rows : List ℕ) × (insert_row key row_id x ≡ some x')
          × (find_rows x j ≡ some rows)
          × (find_rows x' j ≡ some (if eq key j then rows ++ row_id ∷ [] else rows))
    find_rows-insert_row x t key j row_id v room =
        let (x', t', e, wf, same, next) = insert_row-insert_entry x t key row_id v room in
        let (sorted, within) = Ordered-entries w none none t v.ordered in
        (
          x',
          find_entry j (entries t),
          e,
          find_rows-find_entry x t j v,
          find_rows-find_entry x' t' j wf
              ∙ ap some (
                  ap (find_entry j) same
                  ∙ find_entry-insert_entry w key j row_id (entries t) sorted),
        )
