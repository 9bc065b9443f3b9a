-- ===== src/Indexing/BTreeIndex/Insertion/Inner.antt =====
-- Insertion below an inner page, which takes up the separator of a child that was split and is split
-- itself when it is over full.
use vertex_db.Base.{
  ℕ, zero, suc, ◌+◌, ◌≤◌, ◌<◌, ◌≡◌, refl, Option, some, List, [], ◌∷◌, ap, length, take, drop,
  insert_at, arith, sym, ◌∙◌, ◌/◌, Bool-cases, inl, inr, ltb, ltb→lt, subst,
}
use vertex_db.Base.OrderedMap.{lookup}
use vertex_db.Indexing.KeyOrder.{Comparison, IsStrictWeak}
use vertex_db.Indexing.BTreeIndex.{
  BTreeIndex, mark_page_dirty, store, insert_separator, child_index,
}
use vertex_db.Indexing.BTreeIndex.Entries.{insert_entry}
use vertex_db.Indexing.BTreeIndex.Trees.{
  Tree, Kids, leaf, inner, last, more, root, roots, separators, inner_page, Stores, KidStores,
  occurs, kid_occurs, entries, kid_entries, Ordered, KidOrdered, Fits, KidFits, height, path_of,
  kid_path, pick, pick-before, pick-after, kid_path-before, kid_path-after,
}
use vertex_db.Indexing.BTreeIndex.Order.{Above→From}
use vertex_db.Indexing.BTreeIndex.Pages.{KidStores-frame, pick-last}
use vertex_db.Indexing.BTreeIndex.Cuts.{IsCut, cut}
use vertex_db.Indexing.BTreeIndex.Growth.{
  Growth, one, two, replace, pick_lo, pick_hi, Stores-pick, Fits-pick, Ordered-pick, occurs-pick,
  height-pick,
}
use vertex_db.Indexing.BTreeIndex.Replaced.{
  separators-replace_one, roots-replace_one, occurs-replace, Fits-replace, Stores-replace,
  KidOrdered-replace, entries-replace, separators-replace_two, roots-replace_two,
}
use vertex_db.Indexing.BTreeIndex.Supply.{
  next_id, split_pages, spare, IsSplit, IsWrite-store, IsSupplied-write, IsSupplied-split,
  IsSplit-marked,
}
use vertex_db.Indexing.BTreeIndex.Runs.{insert_separator-fits, insert_separator-splits}
use vertex_db.Indexing.BTreeIndex.Insertion.{IsReady, IsInserted, Inserts}
use vertex_db.Indexing.BTreeIndex.Insertion.Leaves.{Inserts-leaf}

length-insert_at {ℓ} :
    {A : Type ℓ} (i : ℕ) (a : A) (xs : List A) → length (insert_at i a xs) ≡ suc (length xs)
length-insert_at zero a xs = refl
length-insert_at (suc i) a [] = refl
length-insert_at (suc i) a (b ∷ xs) = ap suc (length-insert_at i a xs)

module _ {K : Type 0} ⦃c : Comparison K⦄ where
  open c use {lt, eq}

  kid_path-pick :
      (kids : Kids K) (key : K) (above : List ℕ)
      → kid_path kids key above ≡ path_of (pick kids key) key above
  unfolding path_of
  kid_path-pick (last t) key above = rw (pick-last t key) refl
  kid_path-pick (more t k kids) key above = elim (Bool-cases (lt key k)) [
    | inl e ↦ rw (kid_path-before t k kids key above e) (rw (pick-before t k kids key e) refl)
    | inr e ↦
        rw (kid_path-after t k kids key above e)
          (rw (pick-after t k kids key e) (kid_path-pick kids key above))
  ]

  IsReady-pick :
      (lo hi : Option K) (key : K) (id : ℕ) (kids : Kids K) (x : BTreeIndex K)
      → IsReady lo hi key (inner id kids) x
      → IsReady (pick_lo lo kids key) (pick_hi hi kids key) key (pick kids key) x
  unfolding Stores occurs Ordered Fits height
  IsReady-pick lo hi key id kids x r =
      let (o, f, b) = Ordered-pick lo hi kids key r.ordered r.from r.below in
      record {
        stores = Stores-pick x.nodes kids key r.stores.1;
        distinct = λ j. omega (arith, r.distinct j, occurs-pick j kids key);
        supplied = r.supplied;
        ordered = o;
        from = f;
        below = b;
        fits = Fits-pick x.max_keys_per_node kids key r.fits.1;
        capacity = r.capacity;
        room = omega (arith, r.room, height-pick kids key);
      }

  module _ (w : IsStrictWeak c) (lo hi : Option K) (key : K) (row_id : ℕ) (id : ℕ) (kids : Kids K)
      (above : List ℕ) (x y : BTreeIndex K) (r : IsReady lo hi key (inner id kids) x) where
    module _ (g : Growth K)
        (p : IsInserted
          (pick_lo lo kids key)
          (pick_hi hi kids key)
          key
          row_id
          (pick kids key)
          (id ∷ above)
          x
          y
          g) where
      -- The page itself is not yet changed, and what stands below it is stored.
      same_inner : lookup id y.nodes ≡ some (inner_page id (separators kids) (roots kids))
      unfolding Stores occurs
      same_inner = p.frame id (ground (arith, r.distinct id, occurs-pick id kids key)) ∙ r.stores.0

      kids_stored : KidStores y.nodes (replace kids key g)
      unfolding Stores occurs
      kids_stored =
          Stores-replace x.nodes y.nodes kids key g r.stores.1 p.stores
            (λ j. omega (arith, r.distinct j))
            (λ j h e. p.frame j (omega (arith, r.distinct j, h, e)))

      kids_count :
          (j : ℕ) → kid_occurs j (replace kids key g) + spare j y ≡ kid_occurs j kids + spare j x
      kids_count j = omega (arith, occurs-replace j kids key g, p.counts j, occurs-pick j kids key)

      kids_contents : kid_entries (replace kids key g) ≡ insert_entry key row_id (kid_entries kids)
      unfolding Ordered
      kids_contents = entries-replace w lo hi kids key row_id g r.ordered p.contents

      kids_ordered : KidOrdered lo hi (replace kids key g)
      unfolding Ordered
      kids_ordered = KidOrdered-replace w lo hi kids key g r.ordered p.ordered

      kids_fit : KidFits x.max_keys_per_node (replace kids key g)
      unfolding Fits
      kids_fit = Fits-replace x.max_keys_per_node kids key g r.fits.1 p.fits

      kids_frame :
          (j : ℕ) → occurs j (inner id kids) + spare j x ≡ 0 → lookup j y.nodes ≡ lookup j x.nodes
      unfolding occurs
      kids_frame j h = p.frame j (omega (arith, h, occurs-pick j kids key))

    -- The child stays one.
    inner_one :
        (t : Tree K)
        → IsInserted
            (pick_lo lo kids key)
            (pick_hi hi kids key)
            key
            row_id
            (pick kids key)
            (id ∷ above)
            x
            y
            (one t)
        → IsInserted lo hi key row_id
            (inner id kids)
            above
            x
            y
            (one (inner id (replace kids key (one t))))
    unfolding Stores occurs entries Ordered Fits height path_of
    inner_one t p = record {
      run = rw (kid_path-pick kids key (id ∷ above)) p.run;
      same_page = refl;
      contents = kids_contents (one t) p;
      ordered = kids_ordered (one t) p;
      fits = (rw (separators-replace_one kids key t) r.fits.0, kids_fit (one t) p);
      stores = (
        rw (separators-replace_one kids key t)
            (rw (roots-replace_one kids key t p.same_page) (same_inner (one t) p)),
        kids_stored (one t) p,
      );
      counts = λ j. omega (arith, kids_count (one t) p j);
      frame = kids_frame (one t) p;
      supplied = p.supplied;
      keyed = p.keyed;
      same_root = p.same_root;
      same_max = p.same_max;
      room = omega (arith, p.room, height-pick kids key);
    }

    module _ (l : Tree K) (k : K) (u : Tree K)
        (p : IsInserted
          (pick_lo lo kids key)
          (pick_hi hi kids key)
          key
          row_id
          (pick kids key)
          (id ∷ above)
          x
          y
          (two l k u)) where
      grown_separators :
          separators (replace kids key (two l k u))
          ≡ insert_at (child_index (separators kids) k) k (separators kids)
      unfolding Ordered
      grown_separators =
          separators-replace_two w lo hi kids key l k u r.ordered
            (Above→From w (pick_lo lo kids key) k p.ordered.0.0) p.ordered.0.1

      grown_roots :
          roots (replace kids key (two l k u))
          ≡ insert_at (suc (child_index (separators kids) k)) (root u) (roots kids)
      unfolding Ordered
      grown_roots =
          roots-replace_two w lo hi kids key l k u r.ordered
            (Above→From w (pick_lo lo kids key) k p.ordered.0.0) p.ordered.0.1 p.same_page

      length-grown :
          length (separators (replace kids key (two l k u))) ≡ suc (length (separators kids))
      length-grown = ap length grown_separators ∙ length-insert_at _ k (separators kids)

      -- There is a place for the separator.
      inner_two :
          length (separators (replace kids key (two l k u))) ≤ x.max_keys_per_node
          → (x' : BTreeIndex K) × IsInserted lo hi key row_id
              (inner id kids)
              above
              x
              x'
              (one (inner id (replace kids key (two l k u))))
      unfolding Stores occurs entries Ordered Fits height path_of
      inner_two f =
          let g = two l k u in
          let kids' = replace kids key g in
          let page = inner_page id (separators kids') (roots kids') in
          let q = IsWrite-store id page y refl in
          (
            store id page (mark_page_dirty id y),
            record {
              run =
                  rw (kid_path-pick kids key (id ∷ above)) p.run
                  ∙ insert_separator-fits id above k (root u) y _ _ (same_inner g p)
                      (rw (← grown_separators) (rw p.same_max f))
                  ∙ rw (← grown_separators) (rw (← grown_roots) refl);
              same_page = refl;
              contents = kids_contents g p;
              ordered = kids_ordered g p;
              fits = (f, kids_fit g p);
              stores = (
                ground (arith, q.pages id),
                KidStores-frame y.nodes _ kids' (kids_stored g p)
                    (λ j h. ground (arith, q.pages j, kids_count g p j, r.distinct j, h)),
              );
              counts = λ j. omega (arith, kids_count g p j, q.spares j);
              frame = λ j h. ground (arith, q.pages j, h, kids_frame g p j);
              supplied = IsSupplied-write id _ page y _ (same_inner g p) p.supplied q;
              keyed = λ h. q.keyed (p.keyed h);
              same_root = q.same_root ∙ p.same_root;
              same_max = q.same_max ∙ p.same_max;
              room = omega (arith, p.room, q.same_next, height-pick kids key);
            },
          )

      -- The page is cut in two at the separator that goes up.
      two_inner :
          (m n : ℕ) (ls : Kids K) (s : K) (rs : Kids K) (x' : BTreeIndex K)
          → IsCut m (replace kids key (two l k u)) ls s rs
          → length (separators ls) ≤ x.max_keys_per_node
          → length (separators rs) ≤ x.max_keys_per_node
          → IsSplit id
              (inner_page id (separators ls) (roots ls))
              n
              (inner_page n (separators rs) (roots rs))
              y
              x'
          → insert_separator (id ∷ above) k (root u) y ≡ insert_separator above s n x'
          → IsInserted lo hi key row_id
              (inner id kids)
              above
              x
              x'
              (two (inner id ls) s (inner n rs))
      unfolding Stores occurs entries Ordered Fits height path_of
      two_inner m n ls s rs x' q fl fr d e =
          let g = two l k u in
          let kids' = replace kids key g in
          let stored = q.all_stored y.nodes (kids_stored g p) in
          let fit = q.all_fit x.max_keys_per_node (kids_fit g p) in
          record {
            run = rw (kid_path-pick kids key (id ∷ above)) p.run ∙ e;
            same_page = refl;
            contents = q.all_entries ∙ kids_contents g p;
            ordered = q.ordered lo hi (kids_ordered g p);
            fits = ((fl, fit.0), (fr, fit.1));
            stores = (
              (
                ground (arith, d.pages id, d.spares id, kids_count g p id, r.distinct id),
                KidStores-frame y.nodes _ ls stored.0 (λ j h. ground (
                  arith,
                  d.pages j,
                  d.spares j,
                  kids_count g p j,
                  q.all_occurs j,
                  r.distinct j,
                  h,
                )),
              ),
              (
                ground (arith, d.pages n),
                KidStores-frame y.nodes _ rs stored.1 (λ j h. ground (
                  arith,
                  d.pages j,
                  d.spares j,
                  kids_count g p j,
                  q.all_occurs j,
                  r.distinct j,
                  h,
                )),
              ),
            );
            counts = λ j. omega (arith, kids_count g p j, d.spares j, q.all_occurs j);
            frame =
                λ j h. ground (arith, d.pages j, d.spares j, h, kids_frame g p j, kids_count g p j);
            supplied = IsSupplied-split id _ _ n _ y x' (same_inner g p) p.supplied d;
            keyed = λ h. d.keyed (p.keyed h);
            same_root = d.same_root ∙ p.same_root;
            same_max = d.same_max ∙ p.same_max;
            room = omega (arith, p.room, d.next_grows, height-pick kids key);
          }

      -- The page is over full.
      inner_split :
          x.max_keys_per_node < length (separators (replace kids key (two l k u)))
          → (x' : BTreeIndex K) × (g : Growth K) × IsInserted lo hi key row_id
              (inner id kids)
              above
              x
              x'
              g
      unfolding Fits height
      inner_split f =
          let g = two l k u in
          let kids' = replace kids key g in
          let ks = separators kids' in
          let cs = roots kids' in
          let m = length ks / 2 in
          let (ls, s, rs, q) = cut w m kids' (omega (arith, f, r.capacity)) in
          let left = λ (i : ℕ). inner_page id (take m ks) (take (suc m) cs) in
          let right = λ (i : ℕ). inner_page i (drop (suc m) ks) (drop (suc m) cs) in
          let n = next_id (mark_page_dirty id y) in
          (
            split_pages id left right (mark_page_dirty id y),
            two (inner id ls) s (inner n rs),
            two_inner m n ls s rs _ q (omega (arith, q.counts, length-grown, r.fits.0, r.capacity))
                (omega (arith, q.counts, length-grown, r.fits.0, r.capacity))
                (rw q.left_separators (
                  rw q.left_roots (
                    rw q.right_separators (
                      rw q.right_roots (
                        IsSplit-marked id _ left right y (same_inner g p) p.supplied
                          (omega (arith, p.room, r.room, height-pick kids key)) (λ i. refl)
                          (λ i. refl))))))
                (insert_separator-splits id above k (root u) y _ _ (same_inner g p) ks cs s
                  grown_separators grown_roots (rw p.same_max f) q.promoted),
          )

  -- The insertion into an inner page from the one into the child that the key leads to
  Inserts-inner :
      (w : IsStrictWeak c) (key : K) (row_id : ℕ) (id : ℕ) (kids : Kids K)
      → Inserts key row_id (pick kids key)
      → Inserts key row_id (inner id kids)
  Inserts-inner w key row_id id kids ih lo hi above x r =
      let (y, g, p) = ih _ _ (id ∷ above) x (IsReady-pick lo hi key id kids x r) in grown y g p
    where
      grown :
          (y : BTreeIndex K) (g : Growth K)
          → IsInserted
              (pick_lo lo kids key)
              (pick_hi hi kids key)
              key
              row_id
              (pick kids key)
              (id ∷ above)
              x
              y
              g
          → (x' : BTreeIndex K) × (g' : Growth K) × IsInserted lo hi key row_id
              (inner id kids)
              above
              x
              x'
              g'
      grown y (one t) p = (
        y,
        one (inner id (replace kids key (one t))),
        inner_one w lo hi key row_id id kids above x y r t p,
      )
      grown y (two l k u) p =
          elim (Bool-cases
            (ltb x.max_keys_per_node (length (separators (replace kids key (two l k u)))))) [
              | inl f ↦ inner_split w lo hi key row_id id kids above x y r l k u p (ltb→lt _ _ f)
              | inr f ↦
                  let (x', q) =
                    inner_two w lo hi key row_id id kids above x y r l k u p (ground arith) in
                  (x', one (inner id (replace kids key (two l k u))), q)
            ]

  module _ (w : IsStrictWeak c) (key : K) (row_id : ℕ) where
    mutual
      -- An insertion into any subtree that is ready for it
      pub Inserts-tree : (t : Tree K) → Inserts key row_id t
      Inserts-tree (leaf id es next) = Inserts-leaf w key row_id id es next
      Inserts-tree (inner id kids) = Inserts-inner w key row_id id kids (Inserts-kids kids)

      pub Inserts-kids : (kids : Kids K) → Inserts key row_id (pick kids key)
      Inserts-kids (last t) = subst (Inserts key row_id) (sym (pick-last t key)) (Inserts-tree t)
      Inserts-kids (more t k kids) = elim (Bool-cases (lt key k)) [
        | inl e ↦ subst (Inserts key row_id) (sym (pick-before t k kids key e)) (Inserts-tree t)
        | inr e ↦ subst (Inserts key row_id) (sym (pick-after t k kids key e)) (Inserts-kids kids)
      ]
