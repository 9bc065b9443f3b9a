-- ===== src/Indexing/BTreeIndex/Replaced.antt =====
-- What the children with a grown one among them hold.
use vertex_db.Base.{
  ℕ, suc, ◌+◌, ◌≤◌, ◌<◌, ◌≡◌, refl, true, Option, some, [], ◌∷◌, ◌++◌, ap, insert_at, Bool-cases,
  inl, inr, arith, ◌∙◌, sym, append_assoc,
}
use vertex_db.Base.OrderedMap.{Map, lookup}
use vertex_db.Indexing.KeyOrder.{Comparison, IsStrictWeak}
use vertex_db.Indexing.BTreeIndex.{BTreeNode, child_index}
use vertex_db.Indexing.BTreeIndex.Entries.{
  insert_entry, insert_entry-append_below, insert_entry-append_above,
}
use vertex_db.Indexing.BTreeIndex.Trees.{
  Tree, Kids, last, more, root, roots, separators, occurs, kid_occurs, entries, kid_entries, Stores,
  KidStores, Fits, KidFits, Ordered, KidOrdered, From, Above, Below, pick, pick-before, pick-after,
}
use vertex_db.Indexing.BTreeIndex.Order.{
  Above→From, From-weaken, Below-weaken, AllWithin-above, AllWithin-below, Ordered-entries,
  KidOrdered-entries,
}
use vertex_db.Indexing.BTreeIndex.Pages.{Stores-frame, KidStores-frame, pick-last}
use vertex_db.Indexing.BTreeIndex.Growth.{
  Growth, one, two, grown_entries, grown_occurs, GrownStores, GrownFits, GrownOrdered, grown_last,
  grown_more, replace, replace-last, replace-before, replace-after, pick_lo, pick_hi, pick_lo-last,
  pick_hi-last, pick_lo-before, pick_lo-after, pick_hi-before, pick_hi-after, occurs-pick,
}

module _ {K : Type 0} ⦃c : Comparison K⦄ where
  open c use {lt, eq}

  -- A child that stays one
  pub separators-replace_one :
      (kids : Kids K) (key : K) (t : Tree K)
      → separators (replace kids key (one t)) ≡ separators kids
  unfolding replace
  separators-replace_one (last u) key t = refl
  separators-replace_one (more u k kids) key t = ground (arith, separators-replace_one kids key t)

  pub roots-replace_one :
      (kids : Kids K) (key : K) (t : Tree K)
      → root t ≡ root (pick kids key)
      → roots (replace kids key (one t)) ≡ roots kids
  unfolding replace pick
  roots-replace_one (last u) key t e = ap (λ r. r ∷ []) e
  roots-replace_one (more u k kids) key t e = ground (arith, roots-replace_one kids key t)

  pub occurs-replace :
      (j : ℕ) (kids : Kids K) (key : K) (g : Growth K)
      → kid_occurs j (replace kids key g) + occurs j (pick kids key)
        ≡ kid_occurs j kids + grown_occurs j g
  unfolding replace pick occurs
  occurs-replace j (last u) key (one t) = omega arith
  occurs-replace j (last u) key (two l s r) = omega arith
  occurs-replace j (more u k kids) key (one t) = ground (arith, occurs-replace j kids key (one t))
  occurs-replace j (more u k kids) key (two l s r) =
      ground (arith, occurs-replace j kids key (two l s r))

  pub Fits-replace :
      (max : ℕ) (kids : Kids K) (key : K) (g : Growth K)
      → KidFits max kids
      → GrownFits max g
      → KidFits max (replace kids key g)
  unfolding Fits
  Fits-replace max (last u) key (one t) f h = rw (replace-last u key (one t)) h
  Fits-replace max (last u) key (two l s r) f h = rw (replace-last u key (two l s r)) h
  Fits-replace max (more u k kids) key (one t) f h = elim (Bool-cases (lt key k)) [
    | inl e ↦ rw (replace-before u k kids key (one t) e) (h, f.1)
    | inr e ↦
        rw (replace-after u k kids key (one t) e) (f.0, Fits-replace max kids key (one t) f.1 h)
  ]
  Fits-replace max (more u k kids) key (two l s r) f h = elim (Bool-cases (lt key k)) [
    | inl e ↦ rw (replace-before u k kids key (two l s r) e) (h.0, (h.1, f.1))
    | inr e ↦
        rw (replace-after u k kids key (two l s r) e)
          (f.0, Fits-replace max kids key (two l s r) f.1 h)
  ]

  -- The other children must keep their pages.
  pub Stores-replace :
      (nodes nodes' : Map (BTreeNode K)) (kids : Kids K) (key : K) (g : Growth K)
      → KidStores nodes kids
      → GrownStores nodes' g
      → ((j : ℕ) → kid_occurs j kids ≤ 1)
      → ((j : ℕ)
          → 0 < kid_occurs j kids
          → occurs j (pick kids key) ≡ 0
          → lookup j nodes' ≡ lookup j nodes)
      → KidStores nodes' (replace kids key g)
  unfolding Stores occurs
  Stores-replace nodes nodes' (last u) key (one t) s h d f = rw (replace-last u key (one t)) h
  Stores-replace nodes nodes' (last u) key (two l k r) s h d f =
      rw (replace-last u key (two l k r)) h
  Stores-replace nodes nodes' (more u k kids) key g s h d f = elim (Bool-cases (lt key k)) [
    | inl e ↦
        let rest = KidStores-frame nodes nodes' kids s.1 (λ j p.
          f j (omega (arith, p)) (rw (pick-before u k kids key e) (omega (arith, p, d j)))) in
        rw (replace-before u k kids key g e) (grown g rest h)
    | inr e ↦ rw (replace-after u k kids key g e) (
      Stores-frame nodes nodes' u s.0 (λ j p.
          f j (omega (arith, p))
            (rw (pick-after u k kids key e) (omega (arith, p, d j, occurs-pick j kids key)))),
      Stores-replace nodes nodes' kids key g s.1 h (λ j. omega (arith, d j))
          (λ j p q. f j (omega (arith, p)) (rw (pick-after u k kids key e) q)),
    )
  ]
    where
      grown :
          (g : Growth K)
          → KidStores nodes' kids
          → GrownStores nodes' g
          → KidStores nodes' (grown_more g k kids)
      grown (one t) rest h = (h, rest)
      grown (two l s r) rest h = (h.0, (h.1, rest))

  module _ (w : IsStrictWeak c) where
    open w use {lt_asym, ge_trans, eq_lem}

    KidOrdered-grown_last :
        (lo hi : Option K) (g : Growth K) → GrownOrdered lo hi g → KidOrdered lo hi (grown_last g)
    unfolding Ordered
    KidOrdered-grown_last lo hi (one t) h = h
    KidOrdered-grown_last lo hi (two l k r) h = h

    KidOrdered-grown_more :
        (lo hi : Option K) (k : K) (kids : Kids K) (g : Growth K)
        → GrownOrdered lo (some k) g
        → Above lo k
        → Below hi k
        → KidOrdered (some k) hi kids
        → KidOrdered lo hi (grown_more g k kids)
    unfolding Ordered
    KidOrdered-grown_more lo hi k kids (one t) h a b o = ((a, b), h, o)
    KidOrdered-grown_more lo hi k kids (two l s r) h a b o =
        ((h.0.0, Below-weaken w hi k s b h.0.1), h.1, ((h.0.1, b), h.2, o))

    pub KidOrdered-replace :
        (lo hi : Option K) (kids : Kids K) (key : K) (g : Growth K)
        → KidOrdered lo hi kids
        → GrownOrdered (pick_lo lo kids key) (pick_hi hi kids key) g
        → KidOrdered lo hi (replace kids key g)
    unfolding Ordered
    KidOrdered-replace lo hi (last u) key g o h = rw (replace-last u key g) (
        KidOrdered-grown_last lo hi g
          (rw (pick_lo-last lo u key) at (rw (pick_hi-last hi u key) at h)))
    KidOrdered-replace lo hi (more u k kids) key g o h = elim (Bool-cases (lt key k)) [
      | inl e ↦ rw (replace-before u k kids key g e) (
          KidOrdered-grown_more lo hi k kids g
            (rw (pick_lo-before u k kids key lo e) at (rw (pick_hi-before u k kids key hi e) at h))
            o.0.0 o.0.1 o.2)
      | inr e ↦ rw (replace-after u k kids key g e) (
        o.0,
        o.1,
        KidOrdered-replace (some k) hi kids key g o.2
            (rw (pick_lo-after u k kids key lo e) at (rw (pick_hi-after u k kids key hi e) at h)),
      )
    ]

    -- A key at or above the bound before the child that is picked is at or above the ones before.
    pub From-pick_lo :
        (lo hi : Option K) (kids : Kids K) (key k : K)
        → KidOrdered lo hi kids
        → From (pick_lo lo kids key) k
        → From lo k
    unfolding Ordered
    From-pick_lo lo hi (last u) key k o f = rw (pick_lo-last lo u key) at f
    From-pick_lo lo hi (more u s kids) key k o f = elim (Bool-cases (lt key s)) [
      | inl e ↦ rw (pick_lo-before u s kids key lo e) at f
      | inr e ↦
          From-weaken w lo s k (Above→From w lo s o.0.0)
            (From-pick_lo (some s) hi kids key k o.2 (rw (pick_lo-after u s kids key lo e) at f))
    ]

    kid_entries-grown_more :
        (g : Growth K) (k : K) (kids : Kids K)
        → kid_entries (grown_more g k kids) ≡ grown_entries g ++ kid_entries kids
    unfolding entries
    kid_entries-grown_more (one t) k kids = refl
    kid_entries-grown_more (two l s r) k kids =
        sym (append_assoc (entries l) (entries r) (kid_entries kids))

    kid_entries-grown_last : (g : Growth K) → kid_entries (grown_last g) ≡ grown_entries g
    unfolding entries
    kid_entries-grown_last (one t) = refl
    kid_entries-grown_last (two l s r) = refl

    pub entries-replace :
        (lo hi : Option K) (kids : Kids K) (key : K) (row_id : ℕ) (g : Growth K)
        → KidOrdered lo hi kids
        → grown_entries g ≡ insert_entry key row_id (entries (pick kids key))
        → kid_entries (replace kids key g) ≡ insert_entry key row_id (kid_entries kids)
    unfolding Ordered entries
    entries-replace lo hi (last u) key row_id g o h = rw (replace-last u key g) (
        kid_entries-grown_last g
        ∙ h
        ∙ ap (λ t. insert_entry key row_id (entries t)) (pick-last u key))
    entries-replace lo hi (more u k kids) key row_id g o h = elim (Bool-cases (lt key k)) [
      | inl e ↦ rw (replace-before u k kids key g e) (
          kid_entries-grown_more g k kids
          ∙ ap (λ es. es ++ kid_entries kids) (rw (pick-before u k kids key e) at h)
          ∙ sym (
              insert_entry-append_above w key row_id (entries u) (kid_entries kids) (
                AllWithin-above w hi k key (kid_entries kids) e
                  (KidOrdered-entries w (some k) hi kids o.2).1)))
      | inr e ↦ rw (replace-after u k kids key g e) (
          ap (λ es. entries u ++ es)
            (entries-replace (some k) hi kids key row_id g o.2
              (rw (pick-after u k kids key e) at h))
          ∙ sym (
              insert_entry-append_below key row_id (entries u) (kid_entries kids)
                (AllWithin-below w lo k key (entries u) e (Ordered-entries w lo (some k) u o.1).1)))
    ]

    -- A child that grew into two: its separator and its root come after its own place.
    pub separators-replace_two :
        (lo hi : Option K) (kids : Kids K) (key : K) (l : Tree K) (k : K) (r : Tree K)
        → KidOrdered lo hi kids
        → From (pick_lo lo kids key) k
        → Below (pick_hi hi kids key) k
        → separators (replace kids key (two l k r))
          ≡ insert_at (child_index (separators kids) k) k (separators kids)
    unfolding Ordered child_index
    separators-replace_two lo hi (last u) key l k r o f b = rw (replace-last u key (two l k r)) refl
    separators-replace_two lo hi (more u s kids) key l k r o f b = elim (Bool-cases (lt key s)) [
      | inl e ↦
          let b' : lt k s ≡ true = rw (pick_hi-before u s kids key hi e) at b in
          rw (replace-before u s kids key (two l k r) e) (rw b' refl)
      | inr e ↦
          let f' = rw (pick_lo-after u s kids key lo e) at f in
          rw (replace-after u s kids key (two l k r) e) (
            rw (From-pick_lo (some s) hi kids key k o.2 f') (
              ap (λ ks. s ∷ ks)
                (separators-replace_two (some s) hi kids key l k r o.2 f'
                  (rw (pick_hi-after u s kids key hi e) at b))))
    ]

    pub roots-replace_two :
        (lo hi : Option K) (kids : Kids K) (key : K) (l : Tree K) (k : K) (r : Tree K)
        → KidOrdered lo hi kids
        → From (pick_lo lo kids key) k
        → Below (pick_hi hi kids key) k
        → root l ≡ root (pick kids key)
        → roots (replace kids key (two l k r))
          ≡ insert_at (suc (child_index (separators kids) k)) (root r) (roots kids)
    unfolding Ordered child_index
    roots-replace_two lo hi (last u) key l k r o f b g =
        rw (replace-last u key (two l k r))
          (ap (λ j. j ∷ root r ∷ []) (g ∙ ap root (pick-last u key)))
    roots-replace_two lo hi (more u s kids) key l k r o f b g = elim (Bool-cases (lt key s)) [
      | inl e ↦
          let b' : lt k s ≡ true = rw (pick_hi-before u s kids key hi e) at b in
          rw (replace-before u s kids key (two l k r) e)
            (rw b' (ap (λ j. j ∷ root r ∷ roots kids) (g ∙ ap root (pick-before u s kids key e))))
      | inr e ↦
          let f' = rw (pick_lo-after u s kids key lo e) at f in
          rw (replace-after u s kids key (two l k r) e) (
            rw (From-pick_lo (some s) hi kids key k o.2 f') (
              ap (λ ids. root u ∷ ids)
                (roots-replace_two (some s) hi kids key l k r o.2 f'
                  (rw (pick_hi-after u s kids key hi e) at b)
                  (g ∙ ap root (pick-after u s kids key e)))))
    ]
