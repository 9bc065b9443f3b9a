-- ===== src/Indexing/BTreeIndex/Supply.antt =====
-- The page numbers that are not in use, and how a change of one page and a split into two change the
-- store and use them up.
use vertex_db.Base.{
  All, Bool-cases, Option-cases, inl, inr, ℕ, ◌+◌, ◌≤◌, ◌<◌, ◌≡◌, refl, none, some, List, [], ◌∷◌,
  ap, arith, sym, ◌∙◌, subst, if◌then◌else◌, ◌==◌, leb, ltb,
}
use vertex_db.Base.OrderedMap.{Map, lookup, put, emplace, lookup-put, lookup-emplace}
use vertex_db.Indexing.BTreeIndex.{
  BTreeNode, BTreeIndex, mark_page_dirty, store, add_page, allocate_page,
}

abbrev pub count : ℕ → List ℕ → ℕ
count j [] = 0
count j (i ∷ is) = (if i == j then 1 else 0) + count j is

module _ {ℓ} {K : Type ℓ} where
  -- How often a page number can still be handed out
  unfoldable pub spare : ℕ → BTreeIndex K → ℕ
  spare j x = count j x.free_page_ids + (if leb x.next_page_id j then 1 else 0)

  -- The number that allocatePage hands out
  abbrev pub next_id : BTreeIndex K → ℕ
  next_id x = (allocate_page x).0

  -- A page whose number can be handed out is not stored, and no number can be handed out twice.
  pub record IsSupplied (x : BTreeIndex K) : Type ℓ where
    pub absent : (j : ℕ) → 0 < spare j x → lookup j x.nodes ≡ none
    pub distinct : (j : ℕ) → spare j x ≤ 1

  -- Each page is stored under its own number.
  abbrev pub IsKeyed : Map (BTreeNode K) → Type 0
  IsKeyed m = All (λ e. e.1.page_id ≡ e.0) m

  pub IsKeyed-put :
      (k : ℕ) (v : BTreeNode K) (m : Map (BTreeNode K))
      → v.page_id ≡ k
      → IsKeyed m
      → IsKeyed (put k v m)
  unfolding put
  IsKeyed-put k v [] e a = (e, tt)
  IsKeyed-put k v ((j, w) ∷ m) e a = elim (Bool-cases (j == k)) [
    | inl h ↦ rw h (e, a.1)
    | inr h ↦ elim (Bool-cases (ltb k j)) [
      | inl l ↦ rw h (rw l (e, a))
      | inr l ↦ rw h (rw l (a.0, IsKeyed-put k v m e a.1))
    ]
  ]

  pub IsKeyed-emplace :
      (k : ℕ) (v : BTreeNode K) (m : Map (BTreeNode K))
      → v.page_id ≡ k
      → IsKeyed m
      → IsKeyed (emplace k v m)
  unfolding emplace
  IsKeyed-emplace k v m e a = elim (Option-cases (lookup k m)) [
    | inl h ↦ rw (h, emplace) (IsKeyed-put k v m e a)
    | inr (w, h) ↦ rw (h, emplace) a
  ]

  -- One stored page is written.
  pub record IsWrite (id : ℕ) (page : BTreeNode K) (x x' : BTreeIndex K) : Type ℓ where
    pub pages : (j : ℕ) → lookup j x'.nodes ≡ (if id == j then some page else lookup j x.nodes)
    pub spares : (j : ℕ) → spare j x' ≡ spare j x
    pub same_root : x'.root_page_id ≡ x.root_page_id
    pub same_max : x'.max_keys_per_node ≡ x.max_keys_per_node
    pub keyed : IsKeyed x.nodes → IsKeyed x'.nodes
    pub same_next : x'.next_page_id ≡ x.next_page_id

  -- One stored page is written, and one is added under a spare number.
  pub record IsSplit (id : ℕ) (left : BTreeNode K) (new : ℕ) (right : BTreeNode K)
      (x x' : BTreeIndex K) : Type ℓ where
    pub pages :
        (j : ℕ)
        → lookup j x'.nodes
          ≡ (if new == j then some right else if id == j then some left else lookup j x.nodes)
    pub spares : (j : ℕ) → (if new == j then 1 else 0) + spare j x' ≡ spare j x
    pub same_root : x'.root_page_id ≡ x.root_page_id
    pub same_max : x'.max_keys_per_node ≡ x.max_keys_per_node
    pub keyed : IsKeyed x.nodes → IsKeyed x'.nodes
    pub next_grows : x'.next_page_id ≤ x.next_page_id + 1

  pub IsWrite-store :
      (id : ℕ) (page : BTreeNode K) (x : BTreeIndex K)
      → page.page_id ≡ id
      → IsWrite id page x (store id page (mark_page_dirty id x))
  unfolding mark_page_dirty spare
  IsWrite-store id page x e = record {
    keyed = IsKeyed-put id page x.nodes e;
    pages = λ j. lookup-put id j page x.nodes;
    spares = λ j. refl;
    same_root = refl;
    same_max = refl;
    same_next = refl;
  }

  pub IsSupplied-write :
      (id : ℕ) (old page : BTreeNode K) (x x' : BTreeIndex K)
      → lookup id x.nodes ≡ some old
      → IsSupplied x
      → IsWrite id page x x'
      → IsSupplied x'
  IsSupplied-write id old page x x' s p q = record {
    absent = λ j h. ground (arith, s, h, q.pages j, q.spares j, p.absent j);
    distinct = λ j. omega (arith, q.spares j, p.distinct j);
  }

  pub IsSupplied-split :
      (id : ℕ) (old left : BTreeNode K) (new : ℕ) (right : BTreeNode K) (x x' : BTreeIndex K)
      → lookup id x.nodes ≡ some old
      → IsSupplied x
      → IsSplit id left new right x x'
      → IsSupplied x'
  IsSupplied-split id old left new right x x' s p q = record {
    absent = λ j h. ground (arith, s, h, q.pages j, q.spares j, p.absent j, p.distinct j);
    distinct = λ j. ground (arith, q.spares j, p.distinct j);
  }

  spare-next_id : (x : BTreeIndex K) → 0 < spare (next_id x) x
  unfolding spare allocate_page
  spare-next_id x =
      elim x.free_page_ids
        as (λ ids.
          0
          < spare (next_id (record x { free_page_ids = ids })) (record x { free_page_ids = ids })) [
            | [] ↦ ground arith
            | i ∷ is ↦ ground arith
          ]

  spare-allocate_page :
      (j : ℕ) (x : BTreeIndex K)
      → x.next_page_id + 1 < 18446744073709551616
      → (if next_id x == j then 1 else 0) + spare j (allocate_page x).1 ≡ spare j x
  unfolding spare allocate_page
  spare-allocate_page j x h =
      elim x.free_page_ids
        as (λ ids.
          let y = record x { free_page_ids = ids } in
          (if next_id y == j then 1 else 0) + spare j (allocate_page y).1 ≡ spare j y) [
            | [] ↦ ground arith
            | i ∷ is ↦ ground arith
          ]

  allocate_page-kept :
      (x : BTreeIndex K)
      → ((allocate_page x).1.nodes ≡ x.nodes)
        × ((allocate_page x).1.root_page_id ≡ x.root_page_id)
        × ((allocate_page x).1.max_keys_per_node ≡ x.max_keys_per_node)
        × ((allocate_page x).1.next_page_id ≤ x.next_page_id + 1)
  unfolding allocate_page
  allocate_page-kept x =
      elim x.free_page_ids
        as (λ ids.
          let y = (allocate_page (record x { free_page_ids = ids })).1 in
          (y.nodes ≡ x.nodes)
          × (y.root_page_id ≡ x.root_page_id)
          × (y.max_keys_per_node ≡ x.max_keys_per_node)
          × (y.next_page_id ≤ x.next_page_id + 1)) [
            | [] ↦ (refl, refl, refl, omega arith)
            | i ∷ is ↦ (refl, refl, refl, omega arith)
          ]

  -- The two pages of a split, with the number of the new one
  abbrev pub split_pages : ℕ → (ℕ → BTreeNode K) → (ℕ → BTreeNode K) → BTreeIndex K → BTreeIndex K
  split_pages id left right x =
      add_page (right (next_id x)) (store id (left (next_id x)) (allocate_page x).1)

  pub IsSplit-split_pages :
      (id : ℕ) (old : BTreeNode K) (left right : ℕ → BTreeNode K) (x : BTreeIndex K)
      → lookup id x.nodes ≡ some old
      → IsSupplied x
      → x.next_page_id + 1 < 18446744073709551616
      → ((n : ℕ) → (left n).page_id ≡ id)
      → ((n : ℕ) → (right n).page_id ≡ n)
      → IsSplit id
          (left (next_id x))
          (next_id x)
          (right (next_id x))
          x
          (split_pages id left right x)
  unfolding spare
  IsSplit-split_pages id old left right x s p h l r =
      let n = next_id x in
      let (nodes_same, root_same, max_same, next_same) = allocate_page-kept x in
      let new_absent = p.absent n (spare-next_id x) in
      let no_new : lookup n (put id (left n) (allocate_page x).1.nodes) ≡ none =
        rw nodes_same (ground (arith, lookup-put id n (left n) x.nodes, new_absent, s)) in
      record {
        pages = λ j.
            subst
              (λ k. lookup j (emplace k (right n) (put id (left n) (allocate_page x).1.nodes)) ≡ (
                if n == j
                then some (right n)
                else if id == j
                then some (left n)
                else lookup j x.nodes))
              (sym (r n))
              (lookup-emplace n j (right n) (put id (left n) (allocate_page x).1.nodes) no_new
                ∙ ap (λ o. if n == j then some (right n) else o)
                    (lookup-put id j (left n) (allocate_page x).1.nodes
                      ∙ ap (λ m. if id == j then some (left n) else lookup j m) nodes_same));
        keyed = λ k.
            IsKeyed-emplace (right n).page_id (right n) (put id (left n) (allocate_page x).1.nodes)
              refl
              (IsKeyed-put id (left n) (allocate_page x).1.nodes (l n)
                (subst IsKeyed (sym nodes_same) k));
        spares = λ j. spare-allocate_page j x h;
        same_root = root_same;
        same_max = max_same;
        next_grows = next_same;
      }

  pub IsSplit-after_write :
      (id : ℕ) (page left : BTreeNode K) (new : ℕ) (right : BTreeNode K) (x y z : BTreeIndex K)
      → IsWrite id page x y
      → IsSplit id left new right y z
      → IsSplit id left new right x z
  IsSplit-after_write id page left new right x y z p q = record {
    pages = λ j. ground (arith, q.pages j, p.pages j);
    keyed = λ k. q.keyed (p.keyed k);
    spares = λ j. omega (arith, q.spares j, p.spares j);
    same_root = q.same_root ∙ p.same_root;
    same_max = q.same_max ∙ p.same_max;
    next_grows = omega (arith, q.next_grows, p.same_next);
  }

  -- Marking a page as dirty changes no page.
  pub IsSupplied-dirty :
      (id : ℕ) (x : BTreeIndex K) → IsSupplied x → IsSupplied (mark_page_dirty id x)
  unfolding mark_page_dirty spare
  IsSupplied-dirty id x p = record { absent = p.absent; distinct = p.distinct }

  pub IsSplit-dirty :
      (id : ℕ) (left : BTreeNode K) (new : ℕ) (right : BTreeNode K) (x y : BTreeIndex K)
      → IsSplit id left new right (mark_page_dirty id x) y
      → IsSplit id left new right x y
  unfolding mark_page_dirty spare
  IsSplit-dirty id left new right x y q = record {
    pages = q.pages;
    keyed = q.keyed;
    spares = q.spares;
    same_root = q.same_root;
    same_max = q.same_max;
    next_grows = q.next_grows;
  }

  -- A page is marked as dirty and split.
  pub IsSplit-marked :
      (id : ℕ) (old : BTreeNode K) (left right : ℕ → BTreeNode K) (x : BTreeIndex K)
      → lookup id x.nodes ≡ some old
      → IsSupplied x
      → x.next_page_id + 1 < 18446744073709551616
      → ((n : ℕ) → (left n).page_id ≡ id)
      → ((n : ℕ) → (right n).page_id ≡ n)
      → let z = mark_page_dirty id x in
        IsSplit id
          (left (next_id z))
          (next_id z)
          (right (next_id z))
          x
          (split_pages id left right z)
  unfolding mark_page_dirty
  IsSplit-marked id old left right x s p h l r =
      let z = mark_page_dirty id x in
      IsSplit-dirty id _ _ _ x _
        (IsSplit-split_pages id old left right z s (IsSupplied-dirty id x p) h l r)

  -- A page is added above the others.
  pub record IsRaised (page : BTreeNode K) (x x' : BTreeIndex K) : Type ℓ where
    pub pages :
        (j : ℕ) → lookup j x'.nodes ≡ (if page.page_id == j then some page else lookup j x.nodes)
    pub spares : (j : ℕ) → (if page.page_id == j then 1 else 0) + spare j x' ≡ spare j x
    pub at_root : x'.root_page_id ≡ page.page_id
    pub same_max : x'.max_keys_per_node ≡ x.max_keys_per_node
    pub keyed : IsKeyed x.nodes → IsKeyed x'.nodes
    pub next_grows : x'.next_page_id ≤ x.next_page_id + 1

  pub IsRaised-add_page :
      (page : BTreeNode K) (x : BTreeIndex K)
      → IsSupplied x
      → x.next_page_id + 1 < 18446744073709551616
      → page.page_id ≡ next_id x
      → IsRaised page x (add_page page (record (allocate_page x).1 { root_page_id = page.page_id }))
  unfolding spare
  IsRaised-add_page page x p h e =
      let (nodes_same, root_same, max_same, next_same) = allocate_page-kept x in
      let absent : lookup page.page_id x.nodes ≡ none =
        subst (λ k. lookup k x.nodes ≡ none) (sym e) (p.absent (next_id x) (spare-next_id x)) in
      record {
        pages = λ j.
            ap (λ m. lookup j (emplace page.page_id page m)) nodes_same
            ∙ lookup-emplace page.page_id j page x.nodes absent;
        spares = λ j.
            subst (λ k. (if k == j then 1 else 0) + spare j (allocate_page x).1 ≡ spare j x) (sym e)
              (spare-allocate_page j x h);
        at_root = refl;
        keyed = λ k.
            IsKeyed-emplace page.page_id page (allocate_page x).1.nodes refl
              (subst IsKeyed (sym nodes_same) k);
        same_max = max_same;
        next_grows = next_same;
      }
