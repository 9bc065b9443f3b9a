-- ===== src/Indexing/BTreeIndex/Trees.antt =====
-- The tree that the pages of a B+ tree stand for: its entries, its order and the pages it takes.
-- Between two children of an inner page stands their separator.
use vertex_db.Base.{
  ℕ, suc, ◌+◌, ◌≤◌, ◌≡◌, true, false, Option, none, some, List, [], ◌∷◌, ◌++◌, ◌==◌, leb,
  if◌then◌else◌, length, All, arith,
}
use vertex_db.Base.OrderedMap.{Map, lookup}
use vertex_db.Indexing.KeyOrder.{Comparison}
use vertex_db.Indexing.BTreeIndex.{BTreeNode}
use vertex_db.Indexing.BTreeIndex.Entries.{Entries, IsSorted}

mutual
  pub data Tree (K : Type 0) : Type 0 where
    leaf : ℕ → Entries K → Option ℕ → Tree K
    inner : ℕ → Kids K → Tree K

  pub data Kids (K : Type 0) : Type 0 where
    last : Tree K → Kids K
    more : Tree K → K → Kids K → Kids K

module _ {K : Type 0} where
  abbrev pub root : Tree K → ℕ
  root (leaf id es next) = id
  root (inner id kids) = id

  abbrev pub separators : Kids K → List K
  separators (last t) = []
  separators (more t k kids) = k ∷ separators kids

  abbrev pub roots : Kids K → List ℕ
  roots (last t) = root t ∷ []
  roots (more t k kids) = root t ∷ roots kids

  abbrev pub keys_of : Entries K → List K
  keys_of [] = []
  keys_of ((k, rows) ∷ es) = k ∷ keys_of es

  abbrev pub rows_of : Entries K → List (List ℕ)
  rows_of [] = []
  rows_of ((k, rows) ∷ es) = rows ∷ rows_of es

  abbrev pub leaf_page : ℕ → Entries K → Option ℕ → BTreeNode K
  leaf_page id es next = record {
    page_id = id;
    leaf = true;
    keys = keys_of es;
    row_ids = rows_of es;
    children = [];
    next_leaf = next;
  }

  abbrev pub inner_page : ℕ → List K → List ℕ → BTreeNode K
  inner_page id keys children = record {
    page_id = id;
    leaf = false;
    keys = keys;
    row_ids = [];
    children = children;
    next_leaf = none;
  }

  unfoldable mutual
    pub entries : Tree K → Entries K
    entries (leaf id es next) = es
    entries (inner id kids) = kid_entries kids

    pub kid_entries : Kids K → Entries K
    kid_entries (last t) = entries t
    kid_entries (more t k kids) = entries t ++ kid_entries kids

  -- How often a page number stands in the tree
  unfoldable mutual
    pub occurs : ℕ → Tree K → ℕ
    occurs j (leaf id es next) = if id == j then 1 else 0
    occurs j (inner id kids) = (if id == j then 1 else 0) + kid_occurs j kids

    pub kid_occurs : ℕ → Kids K → ℕ
    kid_occurs j (last t) = occurs j t
    kid_occurs j (more t k kids) = occurs j t + kid_occurs j kids

  unfoldable mutual
    pub height : Tree K → ℕ
    height (leaf id es next) = 1
    height (inner id kids) = suc (kid_height kids)

    pub kid_height : Kids K → ℕ
    kid_height (last t) = height t
    kid_height (more t k kids) =
        if leb (height t) (kid_height kids) then kid_height kids else height t

  -- Each page of the tree is stored under its number.
  unfoldable mutual
    pub Stores : Map (BTreeNode K) → Tree K → Type 0
    Stores nodes (leaf id es next) = lookup id nodes ≡ some (leaf_page id es next)
    Stores nodes (inner id kids) =
        (lookup id nodes ≡ some (inner_page id (separators kids) (roots kids)))
        × KidStores nodes kids

    pub KidStores : Map (BTreeNode K) → Kids K → Type 0
    KidStores nodes (last t) = Stores nodes t
    KidStores nodes (more t k kids) = Stores nodes t × KidStores nodes kids

  -- No page has more keys than the capacity.
  unfoldable mutual
    pub Fits : ℕ → Tree K → Type 0
    Fits max (leaf id es next) = length es ≤ max
    Fits max (inner id kids) = (length (separators kids) ≤ max) × KidFits max kids

    pub KidFits : ℕ → Kids K → Type 0
    KidFits max (last t) = Fits max t
    KidFits max (more t k kids) = Fits max t × KidFits max kids

module _ {K : Type 0} ⦃c : Comparison K⦄ where
  open c use {lt, eq}

  abbrev pub From : Option K → K → Type 0
  From none k = Unit
  From (some b) k = lt k b ≡ false

  abbrev pub Below : Option K → K → Type 0
  Below none k = Unit
  Below (some b) k = lt k b ≡ true

  abbrev pub Above : Option K → K → Type 0
  Above none k = Unit
  Above (some b) k = lt b k ≡ true

  abbrev pub AllWithin : Option K → Option K → Entries K → Type 0
  AllWithin lo hi es = All (λ e. From lo e.0 × Below hi e.0) es

  -- Separators are in order, as are keys, at or above the separator before their child and below the
  -- one after it.
  unfoldable mutual
    unfolding IsSorted

    pub Ordered : Option K → Option K → Tree K → Type 0
    Ordered lo hi (leaf id es next) = IsSorted es × AllWithin lo hi es
    Ordered lo hi (inner id kids) = KidOrdered lo hi kids

    pub KidOrdered : Option K → Option K → Kids K → Type 0
    KidOrdered lo hi (last t) = Ordered lo hi t
    KidOrdered lo hi (more t k kids) =
        (Above lo k × Below hi k) × Ordered lo (some k) t × KidOrdered (some k) hi kids

  -- The child that the search for a key goes on in
  unfoldable pub pick : Kids K → K → Tree K
  pick (last t) key = t
  pick (more t k kids) key = elim (lt key k) [ true ↦ t | false ↦ pick kids key ]

  unfoldable mutual
    -- The pages from the root to the leaf of a key, the leaf first
    pub path_of : Tree K → K → List ℕ → List ℕ
    path_of (leaf id es next) key above = id ∷ above
    path_of (inner id kids) key above = kid_path kids key (id ∷ above)

    pub kid_path : Kids K → K → List ℕ → List ℕ
    kid_path (last t) key above = path_of t key above
    kid_path (more t k kids) key above = elim (lt key k) [
      | true ↦ path_of t key above
      | false ↦ kid_path kids key above
    ]

  unfoldable mutual
    -- The entries of the leaf of a key
    pub leaf_of : Tree K → K → Entries K
    leaf_of (leaf id es next) key = es
    leaf_of (inner id kids) key = kid_leaf kids key

    pub kid_leaf : Kids K → K → Entries K
    kid_leaf (last t) key = leaf_of t key
    kid_leaf (more t k kids) key = elim (lt key k) [
      | true ↦ leaf_of t key
      | false ↦ kid_leaf kids key
    ]

  -- The two ways on past a separator
  module _ (t : Tree K) (k : K) (kids : Kids K) (key : K) where
    pub pick-before : lt key k ≡ true → pick (more t k kids) key ≡ t
    unfolding pick
    pick-before h = ground arith

    pub pick-after : lt key k ≡ false → pick (more t k kids) key ≡ pick kids key
    unfolding pick
    pick-after h = ground arith

    pub kid_leaf-before : lt key k ≡ true → kid_leaf (more t k kids) key ≡ leaf_of t key
    unfolding leaf_of
    kid_leaf-before h = ground arith

    pub kid_leaf-after : lt key k ≡ false → kid_leaf (more t k kids) key ≡ kid_leaf kids key
    unfolding leaf_of
    kid_leaf-after h = ground arith

    pub kid_path-before :
        (above : List ℕ)
        → lt key k ≡ true
        → kid_path (more t k kids) key above ≡ path_of t key above
    unfolding path_of
    kid_path-before above h = ground arith

    pub kid_path-after :
        (above : List ℕ)
        → lt key k ≡ false
        → kid_path (more t k kids) key above ≡ kid_path kids key above
    unfolding path_of
    kid_path-after above h = ground arith
