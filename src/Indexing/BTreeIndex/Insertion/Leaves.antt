-- ===== src/Indexing/BTreeIndex/Insertion/Leaves.antt =====
-- Insertion into a leaf, which is split when it is over full.
use vertex_db.Base.{
  ℕ, ◌+◌, ◌≤◌, ◌<◌, ◌≡◌, refl, Option, some, List, ◌∷◌, ◌++◌, ap, length, take, drop, arith, sym,
  true, false, ◌∙◌, ◌/◌, ◌%◌, Bool-cases, inl, inr, Bool-cases, ltb, ltb→lt,
}
use vertex_db.Base.OrderedMap.{lookup-put}
use vertex_db.Indexing.KeyOrder.{Comparison, IsStrictWeak}
use vertex_db.Indexing.BTreeIndex.{
  BTreeNode, BTreeIndex, mark_page_dirty, store, is_at, insert_into_leaf, insert_separator,
}
use vertex_db.Indexing.BTreeIndex.Entries.{Entries, IsSorted, insert_entry}
use vertex_db.Indexing.BTreeIndex.Trees.{
  leaf, keys_of, leaf_page, Stores, occurs, entries, Ordered, Fits, height, path_of,
}
use vertex_db.Indexing.BTreeIndex.Positions.{position, keys-insert_entry_at}
use vertex_db.Indexing.BTreeIndex.Cuts.{
  IsSorted-cut_at, take-drop, length-take, length-drop, length-keys,
}
use vertex_db.Indexing.BTreeIndex.Growth.{one, two, GrownOrdered, Growth}
use vertex_db.Indexing.BTreeIndex.Supply.{
  IsKeyed-put, next_id, split_pages, spare, IsWrite, IsSplit, IsWrite-store, IsSupplied-write,
  IsSupplied-split, IsSplit-split_pages, IsSplit-after_write,
}
use vertex_db.Indexing.BTreeIndex.Runs.{
  insert_into_leaf-found, insert_into_leaf-fits, insert_into_leaf-splits, split_leaf-stored,
  counted,
}
use vertex_db.Indexing.BTreeIndex.Insertion.{IsReady, IsInserted, Inserts}
use vertex_db.Indexing.BTreeIndex.Order.Inserted.{
  AllWithin-insert_entry, length-insert_entry, IsSorted-insert_entry,
}

module _ {K : Type 0} ⦃c : Comparison K⦄ where
  -- A leaf that is written in place
  one_leaf :
      (lo hi : Option K) (key : K) (row_id : ℕ) (id : ℕ) (es : Entries K) (next : Option ℕ)
      (above : List ℕ) (x x' : BTreeIndex K)
      → IsReady lo hi key (leaf id es next) x
      → IsSorted (insert_entry key row_id es)
      → length (insert_entry key row_id es) ≤ x.max_keys_per_node
      → IsWrite id (leaf_page id (insert_entry key row_id es) next) x x'
      → insert_into_leaf (id ∷ above) key row_id x ≡ some x'
      → IsInserted lo hi key row_id
          (leaf id es next)
          above
          x
          x'
          (one (leaf id (insert_entry key row_id es) next))
  unfolding Stores occurs entries Ordered Fits path_of
  one_leaf lo hi key row_id id es next above x x' r o f q e = record {
    run = e;
    same_page = refl;
    contents = refl;
    ordered = (o, AllWithin-insert_entry lo hi key row_id es r.from r.below r.ordered.1);
    fits = f;
    stores = ground (arith, q.pages id);
    counts = λ j. omega (arith, q.spares j);
    frame = λ j h. ground (arith, h, q.pages j);
    supplied = IsSupplied-write id _ _ x x' r.stores r.supplied q;
    keyed = q.keyed;
    same_root = q.same_root;
    same_max = q.same_max;
    room = omega (arith, q.same_next);
  }

  -- A leaf that is split
  two_leaves :
      (lo hi : Option K) (key : K) (row_id : ℕ) (id : ℕ) (es : Entries K) (next : Option ℕ)
      (above : List ℕ) (x x' : BTreeIndex K) (ls rs : Entries K) (k : K) (n : ℕ)
      → IsReady lo hi key (leaf id es next) x
      → ls ++ rs ≡ insert_entry key row_id es
      → GrownOrdered lo hi (two (leaf id ls (some n)) k (leaf n rs next))
      → length ls ≤ x.max_keys_per_node
      → length rs ≤ x.max_keys_per_node
      → IsSplit id (leaf_page id ls (some n)) n (leaf_page n rs next) x x'
      → insert_into_leaf (id ∷ above) key row_id x ≡ insert_separator above k n x'
      → IsInserted lo hi key row_id
          (leaf id es next)
          above
          x
          x'
          (two (leaf id ls (some n)) k (leaf n rs next))
  unfolding Stores occurs entries Fits path_of height
  two_leaves lo hi key row_id id es next above x x' ls rs k n r a o f f' q e = record {
    run = e;
    same_page = refl;
    contents = a;
    ordered = o;
    fits = (f, f');
    stores = (ground (arith, q.pages id, q.spares id, r.distinct id), ground (arith, q.pages n));
    counts = λ j. omega (arith, q.spares j);
    frame = λ j h. ground (arith, h, q.pages j, q.spares j);
    supplied = IsSupplied-split id _ _ n _ x x' r.stores r.supplied q;
    keyed = q.keyed;
    same_root = q.same_root;
    same_max = q.same_max;
    room = q.next_grows;
  }

  IsWrite-counted :
      (id : ℕ) (page : BTreeNode K) (x : BTreeIndex K) (n : ℕ)
      → page.page_id ≡ id
      → IsWrite id page x (store id page (record (mark_page_dirty id x) { key_count = n }))
  unfolding mark_page_dirty spare
  IsWrite-counted id page x n e = record {
    keyed = IsKeyed-put id page x.nodes e;
    pages = λ j. lookup-put id j page x.nodes;
    spares = λ j. refl;
    same_root = refl;
    same_max = refl;
    same_next = refl;
  }

  length-found :
      (w : IsStrictWeak c) (key : K) (row_id : ℕ) (es : Entries K)
      → is_at (keys_of es) (position (keys_of es) key) key ≡ true
      → length (insert_entry key row_id es) ≡ length es
  length-found w key row_id es h =
      sym (length-keys (insert_entry key row_id es))
      ∙ ap length (keys-insert_entry_at w es key row_id ∙ rw h refl)
      ∙ length-keys es

  -- Marking a page as dirty changes no page.
  IsWrite-dirty :
      (id : ℕ) (page : BTreeNode K) (x y : BTreeIndex K)
      → IsWrite id page x y
      → IsWrite id page x (mark_page_dirty id y)
  unfolding mark_page_dirty spare
  IsWrite-dirty id page x y q = record {
    pages = q.pages;
    spares = q.spares;
    keyed = q.keyed;
    same_root = q.same_root;
    same_max = q.same_max;
    same_next = q.same_next;
  }

  module _ (w : IsStrictWeak c) where
    leaf_split :
        (lo hi : Option K) (key : K) (row_id : ℕ) (id : ℕ) (es : Entries K) (next : Option ℕ)
        (above : List ℕ) (x : BTreeIndex K)
        → IsReady lo hi key (leaf id es next) x
        → is_at (keys_of es) (position (keys_of es) key) key ≡ false
        → x.max_keys_per_node < length (insert_entry key row_id es)
        → (x' : BTreeIndex K) × (g : Growth K) × IsInserted lo hi key row_id
            (leaf id es next)
            above
            x
            x'
            g
    unfolding Stores Ordered Fits height
    leaf_split lo hi key row_id id es next above x r h f =
        let fs = insert_entry key row_id es in
        let m = length fs / 2 in
        let page = leaf_page id fs next in
        let y = store id page (counted id x) in
        let z = mark_page_dirty id y in
        let n = next_id z in
        let written = IsWrite-counted id page x ((x.key_count + 1) % 18446744073709551616) refl in
        let dirty = IsWrite-dirty id page x y written in
        let sorted = IsSorted-insert_entry w key row_id es r.ordered.0 in
        let within = AllWithin-insert_entry lo hi key row_id es r.from r.below r.ordered.1 in
        let few = length-insert_entry key row_id es in
        let (k, g, b, l, u) =
          IsSorted-cut_at w m lo hi fs (omega (arith, f, r.capacity)) (omega (arith, f, r.capacity))
            sorted within in
        let x' =
          split_pages id (λ i. leaf_page id (take m fs) (some i))
            (λ i. leaf_page i (drop m fs) next) z in
        (
          x',
          two (leaf id (take m fs) (some n)) k (leaf n (drop m fs) next),
          two_leaves lo hi key row_id id es next above x x' (take m fs) (drop m fs) k n r
              (take-drop m fs) (b, l, u) (omega (arith, length-take m fs, few, r.fits, r.capacity))
              (omega (arith, length-drop m fs, few, r.fits, r.capacity, f))
              (IsSplit-after_write id page _ n _ x z x' dirty (
                IsSplit-split_pages id page (λ i. leaf_page id (take m fs) (some i))
                  (λ i. leaf_page i (drop m fs) next) z (ground (arith, dirty.pages id))
                  (IsSupplied-write id _ page x z r.stores r.supplied dirty)
                  (omega (arith, dirty.same_next, r.room)) (λ i. refl) (λ i. refl)))
              (insert_into_leaf-splits w id above key row_id x es next r.stores r.ordered.0 h f
                ∙ split_leaf-stored id above y fs next k (ground (arith, written.pages id)) g),
        )

    -- insertIntoLeaf with its splitLeaf
    pub Inserts-leaf :
        (key : K) (row_id : ℕ) (id : ℕ) (es : Entries K) (next : Option ℕ)
        → Inserts key row_id (leaf id es next)
    unfolding Stores Ordered Fits
    Inserts-leaf key row_id id es next lo hi above x r =
        let fs = insert_entry key row_id es in
        let sorted = IsSorted-insert_entry w key row_id es r.ordered.0 in
        elim (Bool-cases (is_at (keys_of es) (position (keys_of es) key) key)) [
          | inl h ↦ (
            store id (leaf_page id fs next) (mark_page_dirty id x),
            one (leaf id fs next),
            one_leaf lo hi key row_id id es next above x _ r sorted
                (omega (arith, length-found w key row_id es h, r.fits))
                (IsWrite-store id (leaf_page id fs next) x refl)
                (insert_into_leaf-found w id above key row_id x es next r.stores r.ordered.0 h),
          )
          | inr h ↦ elim (Bool-cases (ltb x.max_keys_per_node (length fs))) [
            | inl f ↦ leaf_split lo hi key row_id id es next above x r h (ltb→lt _ _ f)
            | inr f ↦
                let f' : length fs ≤ x.max_keys_per_node = ground arith in
                (
                  _,
                  one (leaf id fs next),
                  one_leaf lo hi key row_id id es next above x _ r sorted f'
                      (IsWrite-counted id (leaf_page id fs next) x _ refl)
                      (insert_into_leaf-fits w id above key row_id x es next r.stores r.ordered.0 h
                        f'),
                )
          ]
        ]
