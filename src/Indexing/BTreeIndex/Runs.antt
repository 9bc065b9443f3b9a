-- ===== src/Indexing/BTreeIndex/Runs.antt =====
-- What insertion into a leaf and insertion of a separator do to a store that has the page.
use vertex_db.Base.{
  ℕ, suc, ◌+◌, ◌≤◌, ◌<◌, ◌≡◌, refl, Option, some, List, [], ◌∷◌, length, get_elem?, take, drop,
  arith, true, false, ◌∙◌, ltb, insert_at, ◌/◌, ◌%◌,
}
use vertex_db.Base.OrderedMap.{lookup}
use vertex_db.Indexing.KeyOrder.{Comparison, IsStrictWeak}
use vertex_db.Indexing.BTreeIndex.{
  BTreeIndex, mark_page_dirty, store, node, insert_separator, split_leaf, insert_into_leaf,
  child_index, is_at, lower_bound_key,
}
use vertex_db.Indexing.BTreeIndex.Entries.{Entries, IsSorted, insert_entry}
use vertex_db.Indexing.BTreeIndex.Trees.{keys_of, rows_of, leaf_page, inner_page}
use vertex_db.Indexing.BTreeIndex.Positions.{
  position, lower_bound_key_lem, IsSorted-keys, keys-insert_entry_at, rows-insert_entry_at,
}
use vertex_db.Indexing.BTreeIndex.Cuts.{keys-take, keys-drop, rows-take, rows-drop, length-keys}
use vertex_db.Indexing.BTreeIndex.Supply.{next_id, split_pages}

ltb-false : (a b : ℕ) → b ≤ a → ltb a b ≡ false
ltb-false a b h = ground arith

ltb-true : (a b : ℕ) → a < b → ltb a b ≡ true
ltb-true a b h = ground arith

-- A new key is counted before the leaf is written.
abbrev pub counted {ℓ} : {K : Type ℓ} → ℕ → BTreeIndex K → BTreeIndex K
counted id x = record (mark_page_dirty id x) {
  key_count = (x.key_count + 1) % 18446744073709551616;
}

module _ {K : Type 0} ⦃c : Comparison K⦄ where
  pub split_leaf-stored :
      (id : ℕ) (above : List ℕ) (x : BTreeIndex K) (fs : Entries K) (next : Option ℕ)
      (separator : K)
      → lookup id x.nodes ≡ some (leaf_page id fs next)
      → get_elem? (keys_of (drop (length fs / 2) fs)) 0 ≡ some separator
      → split_leaf (id ∷ above) x
        ≡ insert_separator above separator (next_id (mark_page_dirty id x)) (
            split_pages id
              (λ n. leaf_page id (take (length fs / 2) fs) (some n))
              (λ n. leaf_page n (drop (length fs / 2) fs) next)
              (mark_page_dirty id x))
  unfolding split_leaf node
  split_leaf-stored id above x fs next separator s g =
      let m = length fs / 2 in
      rw s (
        rw (length-keys fs) (
          rw (keys-take m fs) (
            rw (rows-take m fs)
              (rw (keys-drop m fs) (rw (rows-drop m fs) (rw (rw (keys-drop m fs) at g) refl))))))

  module _ (id : ℕ) (above : List ℕ) (separator : K) (right : ℕ) (x : BTreeIndex K) (keys : List K)
      (children : List ℕ) (s : lookup id x.nodes ≡ some (inner_page id keys children)) where
    abbrev separator_keys : List K
    separator_keys = insert_at (child_index keys separator) separator keys

    abbrev separator_children : List ℕ
    separator_children = insert_at (suc (child_index keys separator)) right children

    pub insert_separator-fits :
        length (insert_at (child_index keys separator) separator keys) ≤ x.max_keys_per_node
        → insert_separator (id ∷ above) separator right x
          ≡ some (
              store id
                (inner_page id
                  (insert_at (child_index keys separator) separator keys)
                  (insert_at (suc (child_index keys separator)) right children))
                (mark_page_dirty id x))
    unfolding insert_separator node
    insert_separator-fits h = rw s (rw (ltb-false _ _ h) refl)

    pub insert_separator-splits :
        (ks : List K) (cs : List ℕ) (promoted : K)
        → ks ≡ insert_at (child_index keys separator) separator keys
        → cs ≡ insert_at (suc (child_index keys separator)) right children
        → x.max_keys_per_node < length ks
        → get_elem? ks (length ks / 2) ≡ some promoted
        → insert_separator (id ∷ above) separator right x
          ≡ insert_separator above promoted (next_id (mark_page_dirty id x)) (
              split_pages id
                (λ n. inner_page id (take (length ks / 2) ks) (take (suc (length ks / 2)) cs))
                (λ n. inner_page n (drop (suc (length ks / 2)) ks) (drop (suc (length ks / 2)) cs))
                (mark_page_dirty id x))
    unfolding insert_separator node
    insert_separator-splits ks cs promoted ek ec h g =
        rw s (rw (← ek) (rw (← ec) (rw (ltb-true _ _ h) (rw g refl))))

  module _ (w : IsStrictWeak c) (id : ℕ) (above : List ℕ) (key : K) (row_id : ℕ) (x : BTreeIndex K)
      (es : Entries K) (next : Option ℕ) (s : lookup id x.nodes ≡ some (leaf_page id es next))
      (o : IsSorted es) where
    at_key : lower_bound_key (keys_of es) key ≡ position (keys_of es) key
    at_key = lower_bound_key_lem w (keys_of es) key (IsSorted-keys w es o)

    pub insert_into_leaf-found :
        is_at (keys_of es) (position (keys_of es) key) key ≡ true
        → insert_into_leaf (id ∷ above) key row_id x
          ≡ some (store id (leaf_page id (insert_entry key row_id es) next) (mark_page_dirty id x))
    unfolding insert_into_leaf node
    insert_into_leaf-found h =
        let ek = keys-insert_entry_at w es key row_id in
        let er = rows-insert_entry_at w es key row_id in
        rw s (rw at_key (rw h (rw ek (rw er (rw h refl)))))

    new_keys :
        is_at (keys_of es) (position (keys_of es) key) key ≡ false
        → keys_of (insert_entry key row_id es)
          ≡ insert_at (position (keys_of es) key) key (keys_of es)
    new_keys h = keys-insert_entry_at w es key row_id ∙ rw h refl

    new_rows :
        is_at (keys_of es) (position (keys_of es) key) key ≡ false
        → rows_of (insert_entry key row_id es)
          ≡ insert_at (position (keys_of es) key) (row_id ∷ []) (rows_of es)
    new_rows h = rows-insert_entry_at w es key row_id ∙ rw h refl

    pub insert_into_leaf-fits :
        is_at (keys_of es) (position (keys_of es) key) key ≡ false
        → length (insert_entry key row_id es) ≤ x.max_keys_per_node
        → insert_into_leaf (id ∷ above) key row_id x
          ≡ some (store id (leaf_page id (insert_entry key row_id es) next) (counted id x))
    unfolding insert_into_leaf node
    insert_into_leaf-fits h f =
        let fs = insert_entry key row_id es in
        let f' : length (keys_of fs) ≤ x.max_keys_per_node = rw (length-keys fs) f in
        rw s (rw at_key (rw h (rw (← new_keys h) (rw (← new_rows h) (rw (ltb-false _ _ f') refl)))))

    pub insert_into_leaf-splits :
        is_at (keys_of es) (position (keys_of es) key) key ≡ false
        → x.max_keys_per_node < length (insert_entry key row_id es)
        → insert_into_leaf (id ∷ above) key row_id x
          ≡ split_leaf
              (id ∷ above)
              (store id (leaf_page id (insert_entry key row_id es) next) (counted id x))
    unfolding insert_into_leaf node
    insert_into_leaf-splits h f =
        let fs = insert_entry key row_id es in
        let f' : x.max_keys_per_node < length (keys_of fs) = rw (length-keys fs) f in
        rw s (rw at_key (rw h (rw (← new_keys h) (rw (← new_rows h) (rw (ltb-true _ _ f') refl)))))
