-- ===== src/Indexing/BTreeIndex/Order.antt =====
-- The entries of an ordered tree are in order, and those of one key stand in one leaf.
pub mod Inserted
use vertex_db.Base.{
  ◌≡◌, refl, true, false, Option, none, some, List, [], ◌∷◌, ◌++◌, if◌then◌else◌, All, Bool-cases,
  inl, inr, arith, Bool, ◌∙◌, sym,
}
use vertex_db.Indexing.KeyOrder.{Comparison, IsStrictWeak}
use vertex_db.Indexing.BTreeIndex.Entries.{
  Entries, IsSorted, find_entry, find_entry_above, lt-lt_of_ge, lt-ge_of_lt,
}
use vertex_db.Indexing.BTreeIndex.Trees.{
  Tree, Kids, leaf, inner, last, more, entries, kid_entries, From, Above, Below, AllWithin, Ordered,
  KidOrdered, leaf_of, kid_leaf, kid_leaf-before, kid_leaf-after,
}

module _ {K : Type 0} ⦃c : Comparison K⦄ where
  open c use {lt, eq}

  pub AllWithin-append :
      (lo hi : Option K) (es fs : Entries K)
      → AllWithin lo hi es
      → AllWithin lo hi fs
      → AllWithin lo hi (es ++ fs)
  AllWithin-append lo hi [] fs a b = b
  AllWithin-append lo hi (e ∷ es) fs a b = (a.0, AllWithin-append lo hi es fs a.1 b)

  module _ (w : IsStrictWeak c) where
    open w use {lt_asym, ge_trans, eq_lem}

    pub lt_trans : (a b d : K) → lt a b ≡ true → lt b d ≡ true → lt a d ≡ true
    lt_trans a b d h k = ground (arith, ge_trans a d b, lt_asym b d)

    -- From a bound on to a lower one, and below a bound below a higher one
    pub From-weaken : (lo : Option K) (b k : K) → From lo b → lt k b ≡ false → From lo k
    From-weaken none b k f h = tt
    From-weaken (some a) b k f h = ge_trans k b a h f

    pub Above→From : (lo : Option K) (k : K) → Above lo k → From lo k
    Above→From none k a = tt
    Above→From (some b) k a = lt_asym b k a

    pub Above-weaken : (lo : Option K) (b k : K) → Above lo b → lt b k ≡ true → Above lo k
    Above-weaken none b k f h = tt
    Above-weaken (some a) b k f h = lt_trans a b k f h

    pub Below-weaken : (hi : Option K) (b k : K) → Below hi b → lt k b ≡ true → Below hi k
    Below-weaken none b k f h = tt
    Below-weaken (some a) b k f h = lt_trans k b a h f

    pub AllWithin-widen_above :
        (lo hi : Option K) (b : K) (es : Entries K)
        → Below hi b
        → AllWithin lo (some b) es
        → AllWithin lo hi es
    AllWithin-widen_above lo hi b [] h a = tt
    AllWithin-widen_above lo hi b ((k, rows) ∷ es) h a =
        ((a.0.0, Below-weaken hi b k h a.0.1), AllWithin-widen_above lo hi b es h a.1)

    pub AllWithin-widen_below :
        (lo hi : Option K) (b : K) (es : Entries K)
        → From lo b
        → AllWithin (some b) hi es
        → AllWithin lo hi es
    AllWithin-widen_below lo hi b [] h a = tt
    AllWithin-widen_below lo hi b ((k, rows) ∷ es) h a =
        ((From-weaken lo b k h a.0.0, a.0.1), AllWithin-widen_below lo hi b es h a.1)

    -- What is at or above a bound is above all that is below it.
    pub AllWithin-above :
        (hi : Option K) (b j : K) (es : Entries K)
        → lt j b ≡ true
        → AllWithin (some b) hi es
        → All (λ e. lt j e.0 ≡ true) es
    AllWithin-above hi b j [] h a = tt
    AllWithin-above hi b j ((k, rows) ∷ es) h a =
        (lt-lt_of_ge w j b k h a.0.0, AllWithin-above hi b j es h a.1)

    pub AllWithin-below :
        (lo : Option K) (b j : K) (es : Entries K)
        → lt j b ≡ false
        → AllWithin lo (some b) es
        → All (λ e. lt e.0 j ≡ true) es
    AllWithin-below lo b j [] h a = tt
    AllWithin-below lo b j ((k, rows) ∷ es) h a =
        (lt-lt_of_ge w k b j a.0.1 h, AllWithin-below lo b j es h a.1)

    All-append :
        (k : K) (es fs : Entries K)
        → All (λ e. lt k e.0 ≡ true) es
        → All (λ e. lt k e.0 ≡ true) fs
        → All (λ e. lt k e.0 ≡ true) (es ++ fs)
    All-append k [] fs a b = b
    All-append k (e ∷ es) fs a b = (a.0, All-append k es fs a.1 b)

    pub IsSorted-append :
        (lo hi : Option K) (b : K) (es fs : Entries K)
        → IsSorted es
        → AllWithin lo (some b) es
        → IsSorted fs
        → AllWithin (some b) hi fs
        → IsSorted (es ++ fs)
    unfolding IsSorted
    IsSorted-append lo hi b [] fs s a t d = t
    IsSorted-append lo hi b ((k, rows) ∷ es) fs s a t d = (
      All-append k es fs s.0 (AllWithin-above hi b k fs a.0.1 d),
      IsSorted-append lo hi b es fs s.1 a.1 t d,
    )

    mutual
      unfolding Ordered entries

      pub Ordered-entries :
          (lo hi : Option K) (t : Tree K)
          → Ordered lo hi t
          → IsSorted (entries t) × AllWithin lo hi (entries t)
      Ordered-entries lo hi (leaf id es next) o = o
      Ordered-entries lo hi (inner id kids) o = KidOrdered-entries lo hi kids o

      pub KidOrdered-entries :
          (lo hi : Option K) (kids : Kids K)
          → KidOrdered lo hi kids
          → IsSorted (kid_entries kids) × AllWithin lo hi (kid_entries kids)
      KidOrdered-entries lo hi (last t) o = Ordered-entries lo hi t o
      KidOrdered-entries lo hi (more t k kids) o =
          let l = Ordered-entries lo (some k) t o.1 in
          let r = KidOrdered-entries (some k) hi kids o.2 in
          (
            IsSorted-append lo hi k (entries t) (kid_entries kids) l.0 l.1 r.0 r.1,
            AllWithin-append lo hi (entries t) (kid_entries kids)
                (AllWithin-widen_above lo hi k (entries t) o.0.1 l.1)
                (AllWithin-widen_below lo hi k (kid_entries kids) (Above→From lo k o.0.0) r.1),
          )

    pub find_entry-append_above :
        (key : K) (es fs : Entries K)
        → All (λ e. lt key e.0 ≡ true) fs
        → find_entry key (es ++ fs) ≡ find_entry key es
    unfolding find_entry
    find_entry-append_above key [] [] a = refl
    find_entry-append_above key [] ((k, rows) ∷ fs) a =
        ground (arith, eq_lem k key, lt_asym key k, find_entry_above w key key fs, lt_asym key key)
    find_entry-append_above key ((k, rows) ∷ es) fs a =
        ground (arith, find_entry-append_above key es fs a)

    pub find_entry-append_below :
        (key : K) (es fs : Entries K)
        → All (λ e. lt e.0 key ≡ true) es
        → find_entry key (es ++ fs) ≡ find_entry key fs
    unfolding find_entry
    find_entry-append_below key [] fs a = refl
    find_entry-append_below key ((k, rows) ∷ es) fs a =
        ground (arith, find_entry-append_below key es fs a.1, eq_lem k key)

    mutual
      unfolding Ordered entries leaf_of

      -- A key is found in the tree exactly where it is found in its leaf.
      pub find_entry-leaf_of :
          (lo hi : Option K) (t : Tree K) (key : K)
          → Ordered lo hi t
          → IsSorted (leaf_of t key) × (find_entry key (leaf_of t key) ≡ find_entry key (entries t))
      find_entry-leaf_of lo hi (leaf id es next) key o = (o.0, refl)
      find_entry-leaf_of lo hi (inner id kids) key o = find_entry-kid_leaf lo hi kids key o

      pub find_entry-kid_leaf :
          (lo hi : Option K) (kids : Kids K) (key : K)
          → KidOrdered lo hi kids
          → IsSorted (kid_leaf kids key)
            × (find_entry key (kid_leaf kids key) ≡ find_entry key (kid_entries kids))
      find_entry-kid_leaf lo hi (last t) key o = find_entry-leaf_of lo hi t key o
      find_entry-kid_leaf lo hi (more t k kids) key o =
          let es = entries t in
          let fs = kid_entries kids in
          elim (Bool-cases (lt key k)) [
            | inl h ↦
                let ih = find_entry-leaf_of lo (some k) t key o.1 in
                rw (kid_leaf-before t k kids key h) (
                  ih.0,
                  ih.1
                      ∙ sym (
                          find_entry-append_above key es fs (
                            AllWithin-above hi k key fs h
                              (KidOrdered-entries (some k) hi kids o.2).1)),
                )
            | inr h ↦
                let ih = find_entry-kid_leaf (some k) hi kids key o.2 in
                rw (kid_leaf-after t k kids key h) (
                  ih.0,
                  ih.1
                      ∙ sym (
                          find_entry-append_below key es fs
                            (AllWithin-below lo k key es h (Ordered-entries lo (some k) t o.1).1)),
                )
          ]
