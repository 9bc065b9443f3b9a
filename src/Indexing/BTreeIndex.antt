-- ===== src/Indexing/BTreeIndex.antt =====
-- indexing/btree_index.hpp and btree_index_{detail.hpp,lookup.cpp,mutate.cpp}: the pages of the B+
-- tree, lookups and insertion. A page that is not there makes `nodes_.at` throw, which is `none`, as
-- is the end of fuel. A path stands with the leaf first; the free pages with the next to be used
-- first. The keys are any type with the comparisons `<` and `==`.
pub mod Entries
pub mod Trees
pub mod Positions
pub mod Order
pub mod Pages
pub mod Growth
pub mod Replaced
pub mod Cuts
pub mod Supply
pub mod Runs
pub mod Insertion
pub mod Maps
pub mod Removal
pub mod Scans
pub mod Snapshots
use vertex_db.Base.{
  ℕ, zero, suc, ◌+◌, ◌-◌, ◌/◌, ◌%◌, Bool, true, false, not, ◌&&◌, Option, none, some, List, [], ◌∷◌,
  ◌++◌, ltb, if◌then◌else◌, length, get_elem?, take, drop, insert_at, modify_at,
}
use vertex_db.Base.OrderedMap.{Map, lookup, put, erase, emplace}
use vertex_db.Indexing.KeyOrder.{Comparison}

-- struct BTreeNode
pub record BTreeNode {ℓ} (K : Type ℓ) : Type ℓ where
  pub page_id : ℕ
  pub leaf : Bool
  pub keys : List K
  pub row_ids : List (List ℕ)
  pub children : List ℕ
  pub next_leaf : Option ℕ

-- class BTreeIndex
pub record BTreeIndex {ℓ} (K : Type ℓ) : Type ℓ where
  pub max_keys_per_node : ℕ
  pub nodes : Map (BTreeNode K)
  pub free_page_ids : List ℕ
  pub root_page_id : ℕ
  pub next_page_id : ℕ
  pub key_count : ℕ
  pub dirty_pages : Map Bool
  pub metadata_dirty : Bool
  pub full_replace_dirty : Bool

infixl 5 ◌>>=◌
abbrev pub ◌>>=◌ {ℓ κ} : {A : Type ℓ} {B : Type κ} → Option A → (A → Option B) → Option B
none >>= f = none
some a >>= f = f a

module _ {ℓ} {K : Type ℓ} where
  -- A leaf without keys
  abbrev pub empty_leaf : ℕ → BTreeNode K
  empty_leaf id = record {
    page_id = id;
    leaf = true;
    keys = [];
    row_ids = [];
    children = [];
    next_leaf = none;
  }

  abbrev pub new_index : ℕ → BTreeIndex K
  new_index max_keys = record {
    max_keys_per_node = max_keys;
    nodes = (1, empty_leaf 1) ∷ [];
    free_page_ids = [];
    root_page_id = 1;
    next_page_id = 2;
    key_count = 0;
    dirty_pages = [];
    metadata_dirty = false;
    full_replace_dirty = false;
  }

  -- BTreeIndex::BTreeIndex, which throws for a capacity below 2
  unfoldable pub make_index : ℕ → Option (BTreeIndex K)
  make_index max_keys = if ltb max_keys 2 then none else some (new_index max_keys)

  -- BTreeIndex::clear
  unfoldable pub clear_index : BTreeIndex K → BTreeIndex K
  clear_index x = record x {
    nodes = (1, empty_leaf 1) ∷ [];
    free_page_ids = [];
    next_page_id = 2;
    root_page_id = 1;
    key_count = 0;
    dirty_pages = [];
    full_replace_dirty = true;
    metadata_dirty = true;
  }

  -- BTreeIndex::markDirty
  unfoldable pub mark_page_dirty : ℕ → BTreeIndex K → BTreeIndex K
  mark_page_dirty id x = record x { dirty_pages = put id true x.dirty_pages; metadata_dirty = true }

  -- BTreeIndex::node for a page that is to be changed; the const overload is `lookup`
  unfoldable pub node : ℕ → BTreeIndex K → Option (BTreeNode K × BTreeIndex K)
  unfolding mark_page_dirty lookup
  node id x = do page ← lookup id x.nodes; some (page, mark_page_dirty id x)

  -- The change of a page through the reference that `node` returned
  abbrev pub store : ℕ → BTreeNode K → BTreeIndex K → BTreeIndex K
  store id page x = record x { nodes = put id page x.nodes }

  abbrev pub add_page : BTreeNode K → BTreeIndex K → BTreeIndex K
  add_page page x = record x { nodes = emplace page.page_id page x.nodes }

  -- BTreeIndex::allocatePage
  unfoldable pub allocate_page : BTreeIndex K → ℕ × BTreeIndex K
  allocate_page x = elim x.free_page_ids [
    | id ∷ rest ↦ (id, record x { free_page_ids = rest; metadata_dirty = true })
    | [] ↦ (
      x.next_page_id,
      record x {
        next_page_id = (x.next_page_id + 1) % 18446744073709551616;
        metadata_dirty = true;
      },
    )
  ]

module _ {ℓ} {K : Type ℓ} ⦃c : Comparison K⦄ where
  open c use {lt, eq}

  -- btree_detail::lowerBoundKey, on fuel; a position past the end does not occur.
  unfoldable pub lower_bound_loop : ℕ → List K → K → ℕ → ℕ → ℕ
  lower_bound_loop zero keys key lo hi = lo
  lower_bound_loop (suc fuel) keys key lo hi = elim (ltb lo hi) [
    | false ↦ lo
    | true ↦ elim (get_elem? keys (lo + (hi - lo) / 2)) [
      | none ↦ lo
      | some k ↦ elim (lt k key) [
        | true ↦ lower_bound_loop fuel keys key (lo + (hi - lo) / 2 + 1) hi
        | false ↦ lower_bound_loop fuel keys key lo (lo + (hi - lo) / 2)
      ]
    ]
  ]

  unfoldable pub lower_bound_key : List K → K → ℕ
  unfolding lower_bound_loop
  lower_bound_key keys key = lower_bound_loop (length keys) keys key 0 (length keys)

  -- BTreeIndex::childIndex
  unfoldable pub child_index : List K → K → ℕ
  child_index [] key = 0
  child_index (k ∷ keys) key = if lt key k then 0 else suc (child_index keys key)

  -- The loop of pathToLeaf, on fuel
  unfoldable pub path_loop : ℕ → Map (BTreeNode K) → List ℕ → ℕ → K → Option (List ℕ)
  unfolding lookup child_index
  path_loop zero nodes above id key = none
  path_loop (suc fuel) nodes above id key = do
    current ← lookup id nodes
    if current.leaf then some (id ∷ above) else do
      child ← get_elem? current.children (child_index current.keys key)
      path_loop fuel nodes (id ∷ above) child key

  -- BTreeIndex::pathToLeaf: no page stands twice on a path, so their number is fuel enough.
  unfoldable pub path_to_leaf : BTreeIndex K → K → Option (List ℕ)
  unfolding path_loop
  path_to_leaf x key = path_loop (length x.nodes) x.nodes [] x.root_page_id key

  -- `index < leaf.keys.size() && leaf.keys[index] == key`
  abbrev pub is_at : List K → ℕ → K → Bool
  is_at keys index key = elim (get_elem? keys index) [ none ↦ false | some k ↦ eq k key ]

  -- BTreeIndex::find
  unfoldable pub find_rows : BTreeIndex K → K → Option (List ℕ)
  unfolding path_to_leaf lookup lower_bound_key
  find_rows x key = do
    path ← path_to_leaf x key
    id ← get_elem? path 0
    leaf ← lookup id x.nodes
    let index = lower_bound_key leaf.keys key
    if is_at leaf.keys index key then get_elem? leaf.row_ids index else some []

  -- BTreeIndex::insertSeparator and splitInternal, which call each other up the path
  unfoldable pub insert_separator : List ℕ → K → ℕ → BTreeIndex K → Option (BTreeIndex K)
  unfolding node allocate_page emplace put child_index
  insert_separator [] separator right x =
      let (id, x1) = allocate_page x in
      some (
        add_page
          (record {
            page_id = id;
            leaf = false;
            keys = separator ∷ [];
            row_ids = [];
            children = x.root_page_id ∷ right ∷ [];
            next_leaf = none;
          })
          (record x1 { root_page_id = id }))
  insert_separator (id ∷ above) separator right x = do
    (parent, x1) ← node id x
    let index = child_index parent.keys separator
    let keys = insert_at index separator parent.keys
    let children = insert_at (suc index) right parent.children
    if not (ltb x.max_keys_per_node (length keys))
        then some (store id (record parent { keys = keys; children = children }) x1)
        else do
          let mid = length keys / 2
          promoted ← get_elem? keys mid
          let (right_id, x2) = allocate_page x1
          let left = record parent { keys = take mid keys; children = take (suc mid) children }
          let sibling : BTreeNode K = record {
            page_id = right_id;
            leaf = false;
            keys = drop (suc mid) keys;
            row_ids = [];
            children = drop (suc mid) children;
            next_leaf = none;
          }
          insert_separator above promoted right_id (add_page sibling (store id left x2))

  -- BTreeIndex::splitLeaf
  unfoldable pub split_leaf : List ℕ → BTreeIndex K → Option (BTreeIndex K)
  unfolding node allocate_page emplace put insert_separator
  split_leaf [] x = none
  split_leaf (id ∷ above) x = do
    (left, x1) ← node id x
    let mid = length left.keys / 2
    let (right_id, x2) = allocate_page x1
    let right : BTreeNode K = record {
      page_id = right_id;
      leaf = true;
      keys = drop mid left.keys;
      row_ids = drop mid left.row_ids;
      children = [];
      next_leaf = left.next_leaf;
    }
    let left' = record left {
      keys = take mid left.keys;
      row_ids = take mid left.row_ids;
      next_leaf = some right_id;
    }
    separator ← get_elem? right.keys 0
    insert_separator above separator right_id (add_page right (store id left' x2))

  -- BTreeIndex::insertIntoLeaf
  unfoldable pub insert_into_leaf : List ℕ → K → ℕ → BTreeIndex K → Option (BTreeIndex K)
  unfolding node lower_bound_key put split_leaf
  insert_into_leaf [] key row_id x = none
  insert_into_leaf (id ∷ above) key row_id x = do
    (leaf, x1) ← node id x
    let index = lower_bound_key leaf.keys key
    if is_at leaf.keys index key
        then some (
            store id
              (record leaf { row_ids = modify_at index (λ ids. ids ++ row_id ∷ []) leaf.row_ids })
              x1)
        else do
          let keys = insert_at index key leaf.keys
          let leaf' = record leaf {
            keys = keys;
            row_ids = insert_at index (row_id ∷ []) leaf.row_ids;
          }
          let x2 =
              store id leaf' (record x1 { key_count = (x.key_count + 1) % 18446744073709551616 })
          if ltb x.max_keys_per_node (length keys) then split_leaf (id ∷ above) x2 else some x2

  -- BTreeIndex::insert
  unfoldable pub insert_row : K → ℕ → BTreeIndex K → Option (BTreeIndex K)
  unfolding path_to_leaf insert_into_leaf
  insert_row key row_id x = do path ← path_to_leaf x key; insert_into_leaf path key row_id x
