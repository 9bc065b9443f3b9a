-- ===== src/Indexing/BTreeIndex/Growth.antt =====
-- An insertion grows a child into one tree or two; the children with the grown one in its place.
use vertex_db.Base.{
  ℕ, ◌+◌, ◌≤◌, ◌≡◌, refl, true, false, Option, some, ◌++◌, Bool-cases, inl, inr, arith,
}
use vertex_db.Base.OrderedMap.{Map}
use vertex_db.Indexing.KeyOrder.{Comparison}
use vertex_db.Indexing.BTreeIndex.{BTreeNode}
use vertex_db.Indexing.BTreeIndex.Entries.{Entries}
use vertex_db.Indexing.BTreeIndex.Trees.{
  Tree, Kids, last, more, root, occurs, kid_occurs, height, kid_height, entries, Stores, KidStores,
  Fits, KidFits, Ordered, KidOrdered, From, Above, Below, pick, pick-before, pick-after,
}
use vertex_db.Indexing.BTreeIndex.Pages.{pick-last}

pub data Growth (K : Type 0) : Type 0 where
  one : Tree K → Growth K
  two : Tree K → K → Tree K → Growth K

module _ {K : Type 0} where
  abbrev pub grown_root : Growth K → ℕ
  grown_root (one t) = root t
  grown_root (two l k r) = root l

  abbrev pub grown_entries : Growth K → Entries K
  grown_entries (one t) = entries t
  grown_entries (two l k r) = entries l ++ entries r

  abbrev pub grown_occurs : ℕ → Growth K → ℕ
  grown_occurs j (one t) = occurs j t
  grown_occurs j (two l k r) = occurs j l + occurs j r

  abbrev pub GrownStores : Map (BTreeNode K) → Growth K → Type 0
  GrownStores nodes (one t) = Stores nodes t
  GrownStores nodes (two l k r) = Stores nodes l × Stores nodes r

  abbrev pub GrownFits : ℕ → Growth K → Type 0
  GrownFits max (one t) = Fits max t
  GrownFits max (two l k r) = Fits max l × Fits max r

  abbrev pub grown_last : Growth K → Kids K
  grown_last (one t) = last t
  grown_last (two l k r) = more l k (last r)

  abbrev pub grown_more : Growth K → K → Kids K → Kids K
  grown_more (one t) s kids = more t s kids
  grown_more (two l k r) s kids = more l k (more r s kids)

module _ {K : Type 0} ⦃c : Comparison K⦄ where
  open c use {lt, eq}

  abbrev pub GrownOrdered : Option K → Option K → Growth K → Type 0
  GrownOrdered lo hi (one t) = Ordered lo hi t
  GrownOrdered lo hi (two l k r) =
      (Above lo k × Below hi k) × Ordered lo (some k) l × Ordered (some k) hi r

  -- The children with the grown one in the place of the one that the key leads to
  unfoldable pub replace : Kids K → K → Growth K → Kids K
  replace (last t) key g = grown_last g
  replace (more t k kids) key g = elim (lt key k) [
    | true ↦ grown_more g k kids
    | false ↦ more t k (replace kids key g)
  ]

  -- The separators around that child
  unfoldable pub pick_lo : Option K → Kids K → K → Option K
  pick_lo lo (last t) key = lo
  pick_lo lo (more t k kids) key = elim (lt key k) [ true ↦ lo | false ↦ pick_lo (some k) kids key ]

  unfoldable pub pick_hi : Option K → Kids K → K → Option K
  pick_hi hi (last t) key = hi
  pick_hi hi (more t k kids) key = elim (lt key k) [ true ↦ some k | false ↦ pick_hi hi kids key ]

  pub pick_lo-last : (lo : Option K) (t : Tree K) (key : K) → pick_lo lo (last t) key ≡ lo
  unfolding pick_lo
  pick_lo-last lo t key = refl

  pub pick_hi-last : (hi : Option K) (t : Tree K) (key : K) → pick_hi hi (last t) key ≡ hi
  unfolding pick_hi
  pick_hi-last hi t key = refl

  pub replace-last : (t : Tree K) (key : K) (g : Growth K) → replace (last t) key g ≡ grown_last g
  unfolding replace
  replace-last t key g = refl

  module _ (t : Tree K) (k : K) (kids : Kids K) (key : K) where
    pub replace-before :
        (g : Growth K) → lt key k ≡ true → replace (more t k kids) key g ≡ grown_more g k kids
    unfolding replace
    replace-before g h = ground arith

    pub replace-after :
        (g : Growth K)
        → lt key k ≡ false
        → replace (more t k kids) key g ≡ more t k (replace kids key g)
    unfolding replace
    replace-after g h = ground arith

    pub pick_lo-before : (lo : Option K) → lt key k ≡ true → pick_lo lo (more t k kids) key ≡ lo
    unfolding pick_lo
    pick_lo-before lo h = ground arith

    pub pick_lo-after :
        (lo : Option K)
        → lt key k ≡ false
        → pick_lo lo (more t k kids) key ≡ pick_lo (some k) kids key
    unfolding pick_lo
    pick_lo-after lo h = ground arith

    pub pick_hi-before : (hi : Option K) → lt key k ≡ true → pick_hi hi (more t k kids) key ≡ some k
    unfolding pick_hi
    pick_hi-before hi h = ground arith

    pub pick_hi-after :
        (hi : Option K) → lt key k ≡ false → pick_hi hi (more t k kids) key ≡ pick_hi hi kids key
    unfolding pick_hi
    pick_hi-after hi h = ground arith

  -- The child that is picked shares what the children have.
  pub Stores-pick :
      (nodes : Map (BTreeNode K)) (kids : Kids K) (key : K)
      → KidStores nodes kids
      → Stores nodes (pick kids key)
  unfolding Stores
  Stores-pick nodes (last t) key s = rw (pick-last t key) s
  Stores-pick nodes (more t k kids) key s = elim (Bool-cases (lt key k)) [
    | inl e ↦ rw (pick-before t k kids key e) s.0
    | inr e ↦ rw (pick-after t k kids key e) (Stores-pick nodes kids key s.1)
  ]

  pub Fits-pick : (max : ℕ) (kids : Kids K) (key : K) → KidFits max kids → Fits max (pick kids key)
  unfolding Fits
  Fits-pick max (last t) key s = rw (pick-last t key) s
  Fits-pick max (more t k kids) key s = elim (Bool-cases (lt key k)) [
    | inl e ↦ rw (pick-before t k kids key e) s.0
    | inr e ↦ rw (pick-after t k kids key e) (Fits-pick max kids key s.1)
  ]

  pub Ordered-pick :
      (lo hi : Option K) (kids : Kids K) (key : K)
      → KidOrdered lo hi kids
      → From lo key
      → Below hi key
      → Ordered (pick_lo lo kids key) (pick_hi hi kids key) (pick kids key)
        × From (pick_lo lo kids key) key
        × Below (pick_hi hi kids key) key
  unfolding Ordered
  Ordered-pick lo hi (last t) key o f b =
      rw (pick-last t key) (rw (pick_lo-last lo t key) (rw (pick_hi-last hi t key) (o, f, b)))
  Ordered-pick lo hi (more t k kids) key o f b = elim (Bool-cases (lt key k)) [
    | inl e ↦
        rw (pick-before t k kids key e) (
          rw (pick_lo-before t k kids key lo e) (rw (pick_hi-before t k kids key hi e) (o.1, f, e)))
    | inr e ↦ rw (pick-after t k kids key e) (
        rw (pick_lo-after t k kids key lo e)
          (rw (pick_hi-after t k kids key hi e) (Ordered-pick (some k) hi kids key o.2 e b)))
  ]

  pub occurs-pick : (j : ℕ) (kids : Kids K) (key : K) → occurs j (pick kids key) ≤ kid_occurs j kids
  unfolding occurs
  occurs-pick j (last t) key = rw (pick-last t key) (omega arith)
  occurs-pick j (more t k kids) key = elim (Bool-cases (lt key k)) [
    | inl e ↦ rw (pick-before t k kids key e) (omega arith)
    | inr e ↦ rw (pick-after t k kids key e) (omega (arith, occurs-pick j kids key))
  ]

  pub height-pick : (kids : Kids K) (key : K) → height (pick kids key) ≤ kid_height kids
  unfolding height
  height-pick (last t) key = rw (pick-last t key) (omega arith)
  height-pick (more t k kids) key = elim (Bool-cases (lt key k)) [
    | inl e ↦ rw (pick-before t k kids key e) (ground arith)
    | inr e ↦ rw (pick-after t k kids key e) (ground (arith, height-pick kids key))
  ]
