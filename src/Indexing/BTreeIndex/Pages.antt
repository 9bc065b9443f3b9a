-- ===== src/Indexing/BTreeIndex/Pages.antt =====
-- The pages of a tree in the store: what reads them, what leaves them alone, and their number.
use vertex_db.Base.{
  ℕ, zero, suc, Option, ◌≤◌, ◌<◌, ◌≡◌, ◌≢◌, refl, true, false, some, List, [], ◌∷◌, length,
  get_elem?, Bool-cases, inl, inr, arith, ◌∙◌,
}
use vertex_db.Base.OrderedMap.{Map, lookup, erase, lookup-erase}
use vertex_db.Indexing.KeyOrder.{Comparison}
use vertex_db.Indexing.BTreeIndex.{BTreeNode, child_index, path_loop}
use vertex_db.Indexing.BTreeIndex.Entries.{Entries}
use vertex_db.Indexing.BTreeIndex.Trees.{
  Tree, Kids, leaf, inner, last, more, root, roots, separators, leaf_page, occurs, kid_occurs,
  height, kid_height, Stores, KidStores, pick, path_of, kid_path, leaf_of, kid_leaf, pick-before,
  pick-after, kid_path-before, kid_path-after, kid_leaf-before, kid_leaf-after,
}

module _ {K : Type 0} where
  -- Stores that agree on the pages of a tree store it alike.
  mutual
    unfolding Stores occurs

    pub Stores-frame :
        (nodes nodes' : Map (BTreeNode K)) (t : Tree K)
        → Stores nodes t
        → ((j : ℕ) → 0 < occurs j t → lookup j nodes' ≡ lookup j nodes)
        → Stores nodes' t
    Stores-frame nodes nodes' (leaf id es next) s f = f id (ground arith) ∙ s
    Stores-frame nodes nodes' (inner id kids) s f = (
      f id (ground arith) ∙ s.0,
      KidStores-frame nodes nodes' kids s.1 (λ j h. f j (omega (arith, h))),
    )

    pub KidStores-frame :
        (nodes nodes' : Map (BTreeNode K)) (kids : Kids K)
        → KidStores nodes kids
        → ((j : ℕ) → 0 < kid_occurs j kids → lookup j nodes' ≡ lookup j nodes)
        → KidStores nodes' kids
    KidStores-frame nodes nodes' (last t) s f = Stores-frame nodes nodes' t s f
    KidStores-frame nodes nodes' (more t k kids) s f = (
      Stores-frame nodes nodes' t s.0 (λ j h. f j (omega (arith, h))),
      KidStores-frame nodes nodes' kids s.1 (λ j h. f j (omega (arith, h))),
    )

  length-erase_le : (k : ℕ) (m : Map (BTreeNode K)) → length (erase k m) ≤ length m
  unfolding erase
  length-erase_le k [] = omega arith
  length-erase_le k ((j, v) ∷ m) = ground (arith, length-erase_le k m)

  length-erase_lt :
      (k : ℕ) (v : BTreeNode K) (m : Map (BTreeNode K))
      → lookup k m ≡ some v
      → length (erase k m) < length m
  unfolding erase lookup
  length-erase_lt k v [] h = cc
  length-erase_lt k v ((j, w) ∷ m) h = ground (arith, length-erase_lt k v m, length-erase_le k m)

  lookup-nil : (k : ℕ) (v : BTreeNode K) → lookup k [] ≢ some v
  unfolding lookup
  lookup-nil k v h = cc

  -- A tree whose pages are all different has no more levels than the store has pages.
  mutual
    unfolding Stores occurs height

    pub height-le :
        (nodes : Map (BTreeNode K)) (t : Tree K)
        → Stores nodes t
        → ((j : ℕ) → occurs j t ≤ 1)
        → height t ≤ length nodes
    height-le [] (leaf id es next) s d = absurd (lookup-nil id _ s)
    height-le (n ∷ nodes) (leaf id es next) s d = omega arith
    height-le nodes (inner id kids) s d =
        let less = length-erase_lt id _ nodes s.0 in
        omega (
          arith,
          less,
          kid_height-le (erase id nodes) kids
              (KidStores-frame nodes (erase id nodes) kids s.1
                (λ j h. ground (arith, lookup-erase id j nodes, d j, h)))
              (λ j. omega (arith, d j)),
        )

    pub kid_height-le :
        (nodes : Map (BTreeNode K)) (kids : Kids K)
        → KidStores nodes kids
        → ((j : ℕ) → kid_occurs j kids ≤ 1)
        → kid_height kids ≤ length nodes
    kid_height-le nodes (last t) s d = height-le nodes t s d
    kid_height-le nodes (more t k kids) s d = ground (
      arith,
      height-le nodes t s.0 (λ j. omega (arith, d j)),
      kid_height-le nodes kids s.1 (λ j. omega (arith, d j)),
    )

module _ {K : Type 0} ⦃c : Comparison K⦄ where
  open c use {lt, eq}

  -- childIndex leads to the child that the search goes on in.
  pub roots-child_index :
      (kids : Kids K) (key : K)
      → get_elem? (roots kids) (child_index (separators kids) key) ≡ some (root (pick kids key))
  unfolding child_index pick
  roots-child_index (last t) key = refl
  roots-child_index (more t k kids) key = ground (arith, roots-child_index kids key)

  pub pick-last : (t : Tree K) (key : K) → pick (last t) key ≡ t
  unfolding pick
  pick-last t key = refl

  path_loop-leaf :
      (fuel : ℕ) (nodes : Map (BTreeNode K)) (id : ℕ) (page : BTreeNode K) (key : K)
      (above : List ℕ)
      → lookup id nodes ≡ some page
      → page.leaf ≡ true
      → path_loop (suc fuel) nodes above id key ≡ some (id ∷ above)
  unfolding path_loop
  path_loop-leaf fuel nodes id page key above s l = rw s (rw l refl)

  path_loop-inner :
      (fuel : ℕ) (nodes : Map (BTreeNode K)) (id : ℕ) (page : BTreeNode K) (key : K)
      (above : List ℕ) (child : ℕ)
      → lookup id nodes ≡ some page
      → page.leaf ≡ false
      → get_elem? page.children (child_index page.keys key) ≡ some child
      → path_loop (suc fuel) nodes above id key ≡ path_loop fuel nodes (id ∷ above) child key
  unfolding path_loop
  path_loop-inner fuel nodes id page key above child s l g = rw s (rw l (rw g refl))

  mutual
    unfolding Stores height path_of

    -- pathToLeaf finds the pages from the root to the leaf.
    pub path_loop_lem :
        (fuel : ℕ) (nodes : Map (BTreeNode K)) (t : Tree K) (key : K) (above : List ℕ)
        → height t ≤ fuel
        → Stores nodes t
        → path_loop fuel nodes above (root t) key ≡ some (path_of t key above)
    path_loop_lem zero nodes (leaf id es next) key above h s = absurd (omega arith)
    path_loop_lem zero nodes (inner id kids) key above h s = absurd (omega arith)
    path_loop_lem (suc fuel) nodes (leaf id es next) key above h s =
        path_loop-leaf fuel nodes id _ key above s refl
    path_loop_lem (suc fuel) nodes (inner id kids) key above h s =
        let ih = kid_path_lem fuel nodes kids key (id ∷ above) (omega arith) s.1 in
        path_loop-inner fuel nodes id _ key above _ s.0 refl (roots-child_index kids key) ∙ ih

    pub kid_path_lem :
        (fuel : ℕ) (nodes : Map (BTreeNode K)) (kids : Kids K) (key : K) (above : List ℕ)
        → kid_height kids ≤ fuel
        → KidStores nodes kids
        → path_loop fuel nodes above (root (pick kids key)) key ≡ some (kid_path kids key above)
    kid_path_lem fuel nodes (last t) key above h s =
        rw (pick-last t key) (path_loop_lem fuel nodes t key above h s)
    kid_path_lem fuel nodes (more t k kids) key above h s = elim (Bool-cases (lt key k)) [
      | inl e ↦ rw (pick-before t k kids key e) (
          rw (kid_path-before t k kids key above e)
            (path_loop_lem fuel nodes t key above (ground arith) s.0))
      | inr e ↦ rw (pick-after t k kids key e) (
          rw (kid_path-after t k kids key above e)
            (kid_path_lem fuel nodes kids key above (ground arith) s.1))
    ]

  -- The head of a path is the page of the leaf.
  abbrev pub IsLeafPath : Map (BTreeNode K) → List ℕ → Entries K → Type 0
  IsLeafPath nodes path es =
      (id : ℕ) × (next : Option ℕ) × (above : List ℕ) × (path ≡ id ∷ above)
      × (lookup id nodes ≡ some (leaf_page id es next))

  mutual
    unfolding Stores path_of leaf_of

    pub path_of-IsLeafPath :
        (nodes : Map (BTreeNode K)) (t : Tree K) (key : K) (above : List ℕ)
        → Stores nodes t
        → IsLeafPath nodes (path_of t key above) (leaf_of t key)
    path_of-IsLeafPath nodes (leaf id es next) key above s = (id, next, above, refl, s)
    path_of-IsLeafPath nodes (inner id kids) key above s =
        kid_path-IsLeafPath nodes kids key (id ∷ above) s.1

    pub kid_path-IsLeafPath :
        (nodes : Map (BTreeNode K)) (kids : Kids K) (key : K) (above : List ℕ)
        → KidStores nodes kids
        → IsLeafPath nodes (kid_path kids key above) (kid_leaf kids key)
    kid_path-IsLeafPath nodes (last t) key above s = path_of-IsLeafPath nodes t key above s
    kid_path-IsLeafPath nodes (more t k kids) key above s = elim (Bool-cases (lt key k)) [
      | inl e ↦
          rw (kid_path-before t k kids key above e)
            (rw (kid_leaf-before t k kids key e) (path_of-IsLeafPath nodes t key above s.0))
      | inr e ↦
          rw (kid_path-after t k kids key above e)
            (rw (kid_leaf-after t k kids key e) (kid_path-IsLeafPath nodes kids key above s.1))
    ]
