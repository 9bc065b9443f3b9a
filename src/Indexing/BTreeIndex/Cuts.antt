-- ===== src/Indexing/BTreeIndex/Cuts.antt =====
-- Children cut in two at a separator, as an inner page is when it is over full, and the entries of a
-- leaf cut in two.
use vertex_db.Base.{
  ℕ, zero, suc, ◌+◌, ◌≤◌, ◌<◌, ◌≡◌, refl, Option, none, some, [], ◌∷◌, ◌++◌, ap, length, get_elem?,
  take, drop, arith, append_assoc, All, true, ◌∙◌,
}
use vertex_db.Base.OrderedMap.{Map}
use vertex_db.Indexing.KeyOrder.{Comparison, IsStrictWeak}
use vertex_db.Indexing.BTreeIndex.{BTreeNode}
use vertex_db.Indexing.BTreeIndex.Entries.{Entries, IsSorted, lt-ge_of_lt}
use vertex_db.Indexing.BTreeIndex.Trees.{
  Kids, last, more, roots, separators, kid_occurs, kid_entries, KidStores, KidFits, KidOrdered,
  root, From, Above, Below, AllWithin, Fits, keys_of, rows_of, occurs, entries, Stores, Ordered,
}
use vertex_db.Indexing.BTreeIndex.Order.{Above-weaken}

module _ {K : Type 0} where
  pub keys-take : (m : ℕ) (es : Entries K) → keys_of (take m es) ≡ take m (keys_of es)
  keys-take zero es = refl
  keys-take (suc m) [] = refl
  keys-take (suc m) ((k, rows) ∷ es) = ap (λ ks. k ∷ ks) (keys-take m es)

  pub keys-drop : (m : ℕ) (es : Entries K) → keys_of (drop m es) ≡ drop m (keys_of es)
  keys-drop zero es = refl
  keys-drop (suc m) [] = refl
  keys-drop (suc m) ((k, rows) ∷ es) = keys-drop m es

  pub rows-take : (m : ℕ) (es : Entries K) → rows_of (take m es) ≡ take m (rows_of es)
  rows-take zero es = refl
  rows-take (suc m) [] = refl
  rows-take (suc m) ((k, rows) ∷ es) = ap (λ ks. rows ∷ ks) (rows-take m es)

  pub rows-drop : (m : ℕ) (es : Entries K) → rows_of (drop m es) ≡ drop m (rows_of es)
  rows-drop zero es = refl
  rows-drop (suc m) [] = refl
  rows-drop (suc m) ((k, rows) ∷ es) = rows-drop m es

  pub length-keys : (es : Entries K) → length (keys_of es) ≡ length es
  length-keys [] = refl
  length-keys (e ∷ es) = omega (arith, length-keys es)

  pub take-drop : (m : ℕ) (es : Entries K) → take m es ++ drop m es ≡ es
  take-drop zero es = refl
  take-drop (suc m) [] = refl
  take-drop (suc m) (e ∷ es) = ap (λ t. e ∷ t) (take-drop m es)

  pub length-take : (m : ℕ) (es : Entries K) → length (take m es) ≤ m
  length-take zero es = omega arith
  length-take (suc m) [] = omega arith
  length-take (suc m) (e ∷ es) = omega (arith, length-take m es)

  pub length-drop : (m : ℕ) (es : Entries K) → m ≤ length es → m + length (drop m es) ≡ length es
  length-drop zero es h = omega arith
  length-drop (suc m) [] h = omega arith
  length-drop (suc m) (e ∷ es) h = omega (arith, length-drop m es)

module _ {K : Type 0} ⦃c : Comparison K⦄ where
  open c use {lt, eq}

  pub record IsCut (m : ℕ) (kids l : Kids K) (k : K) (r : Kids K) : Type 0 where
    pub promoted : get_elem? (separators kids) m ≡ some k
    pub left_separators : separators l ≡ take m (separators kids)
    pub right_separators : separators r ≡ drop (suc m) (separators kids)
    pub left_roots : roots l ≡ take (suc m) (roots kids)
    pub right_roots : roots r ≡ drop (suc m) (roots kids)
    pub all_entries : kid_entries l ++ kid_entries r ≡ kid_entries kids
    pub all_occurs : (j : ℕ) → kid_occurs j l + kid_occurs j r ≡ kid_occurs j kids
    pub all_stored :
        (nodes : Map (BTreeNode K)) → KidStores nodes kids → KidStores nodes l × KidStores nodes r
    pub all_fit : (max : ℕ) → KidFits max kids → KidFits max l × KidFits max r
    pub ordered :
        (lo hi : Option K)
        → KidOrdered lo hi kids
        → (Above lo k × Below hi k) × KidOrdered lo (some k) l × KidOrdered (some k) hi r
    pub counts : length (separators l) + suc (length (separators r)) ≡ length (separators kids)

  abbrev pub Cut : ℕ → Kids K → Type 0
  Cut m kids = (l : Kids K) × (k : K) × (r : Kids K) × IsCut m kids l k r

  pub cut : (w : IsStrictWeak c) (m : ℕ) (kids : Kids K) → m < length (separators kids) → Cut m kids
  unfolding entries occurs Stores Fits Ordered
  cut w m (last t) h = elim h [ ]
  cut w zero (more t k kids) h = (
    last t,
    k,
    kids,
    record {
      promoted = refl;
      left_separators = refl;
      right_separators = refl;
      left_roots = refl;
      right_roots = refl;
      all_entries = refl;
      all_occurs = λ j. refl;
      all_stored = λ nodes s. s;
      all_fit = λ max f. f;
      counts = omega arith;
      ordered = λ lo hi o. o;
    },
  )
  cut w (suc m) (more t k kids) h =
      let (l, s, r, p) = cut w m kids (omega arith) in
      (
        more t k l,
        s,
        r,
        record {
          promoted = p.promoted;
          left_separators = ap (λ ks. k ∷ ks) p.left_separators;
          right_separators = p.right_separators;
          left_roots = ap (λ ids. root t ∷ ids) p.left_roots;
          right_roots = p.right_roots;
          all_entries =
              append_assoc (entries t) (kid_entries l) (kid_entries r)
              ∙ ap (λ es. entries t ++ es) p.all_entries;
          all_occurs = λ j. omega (arith, p.all_occurs j);
          all_stored = λ nodes q. let (a, b) = p.all_stored nodes q.1 in ((q.0, a), b);
          all_fit = λ max q. let (a, b) = p.all_fit max q.1 in ((q.0, a), b);
          counts = omega (arith, p.counts);
          ordered = λ lo hi o.
              let ((a, b), ol, or) = p.ordered (some k) hi o.2 in
              ((Above-weaken w lo k s o.0.0 a, b), ((o.0.0, a), o.1, ol), or);
        },
      )

  All-take :
      (k : K) (m : ℕ) (es : Entries K)
      → All (λ e. lt k e.0 ≡ true) es
      → All (λ e. lt k e.0 ≡ true) (take m es)
  All-take k zero es a = tt
  All-take k (suc m) [] a = tt
  All-take k (suc m) (e ∷ es) a = (a.0, All-take k m es a.1)

  All-drop :
      (k x : K) (m : ℕ) (es : Entries K)
      → All (λ e. lt k e.0 ≡ true) es
      → get_elem? (keys_of (drop m es)) 0 ≡ some x
      → lt k x ≡ true
  All-drop k x zero [] a g = cc
  All-drop k x zero ((j, rows) ∷ es) a g = ground arith
  All-drop k x (suc m) [] a g = cc
  All-drop k x (suc m) (e ∷ es) a g = All-drop k x m es a.1 g

  -- The key at the position is a bound between the entries before it and the ones from there on.
  abbrev pub LeafCut : Option K → Option K → ℕ → Entries K → Type 0
  LeafCut lo hi m es =
      (x : K) × (get_elem? (keys_of (drop m es)) 0 ≡ some x)
      × (Above lo x × Below hi x)
      × (IsSorted (take m es) × AllWithin lo (some x) (take m es))
      × (IsSorted (drop m es) × AllWithin (some x) hi (drop m es))

  module _ (w : IsStrictWeak c) where
    open w use {lt_asym}

    Above-lt : (lo : Option K) (k x : K) → From lo k → lt k x ≡ true → Above lo x
    Above-lt none k x f h = tt
    Above-lt (some b) k x f h = lt-ge_of_lt w b k x f h

    AllWithin-least :
        (k : K) (lo hi : Option K) (es : Entries K)
        → All (λ e. lt k e.0 ≡ true) es
        → AllWithin lo hi es
        → AllWithin (some k) hi es
    AllWithin-least k lo hi [] a b = tt
    AllWithin-least k lo hi ((j, rows) ∷ es) a b =
        ((lt_asym k j a.0, b.0.1), AllWithin-least k lo hi es a.1 b.1)

    -- The entry at a position past the first is the least of the ones from there on.
    IsSorted-cut :
        (m : ℕ) (lo hi : Option K) (es : Entries K)
        → suc m < length es
        → IsSorted es
        → AllWithin lo hi es
        → LeafCut lo hi (suc m) es
    unfolding IsSorted
    IsSorted-cut m lo hi [] h s a = elim h [ ]
    IsSorted-cut zero lo hi (e ∷ []) h s a = absurd (omega arith)
    IsSorted-cut zero lo hi ((k, rows) ∷ (x, rows') ∷ es) h s a = (
      x,
      refl,
      (Above-lt lo k x a.0.0 s.0.0, a.1.0.1),
      ((tt, tt), ((a.0.0, s.0.0), tt)),
      (s.1, ((ground (arith, lt_asym x x), a.1.0.1), AllWithin-least x lo hi es s.1.0 a.1.1)),
    )
    IsSorted-cut (suc m) lo hi ((k, rows) ∷ es) h s a =
        let (x, g, b, l, r) = IsSorted-cut m lo hi es (omega arith) s.1 a.1 in
        (
          x,
          g,
          b,
          ((All-take k (suc m) es s.0, l.0), ((a.0.0, All-drop k x (suc m) es s.0 g), l.1)),
          r,
        )

    pub IsSorted-cut_at :
        (m : ℕ) (lo hi : Option K) (es : Entries K)
        → 0 < m
        → m < length es
        → IsSorted es
        → AllWithin lo hi es
        → LeafCut lo hi m es
    IsSorted-cut_at zero lo hi es p h s a = elim p [ ]
    IsSorted-cut_at (suc m) lo hi es p h s a = IsSorted-cut m lo hi es h s a
