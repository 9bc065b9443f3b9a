-- ===== src/Indexing/BTreeIndex/Positions.antt =====
-- btree_detail::lowerBoundKey is the position of the first key that is not below the one sought, and
-- what stands in a leaf at that position.
use vertex_db.Base.{
  ℕ, zero, suc, subst, ◌+◌, ◌-◌, ◌/◌, ◌≤◌, ◌<◌, ◌≡◌, refl, true, false, none, some, List, [], ◌∷◌,
  ◌++◌, if◌then◌else◌, length, get_elem?, insert_at, modify_at, All, Option-cases, inl, inr, arith,
}
use vertex_db.Indexing.KeyOrder.{Comparison, IsStrictWeak}
use vertex_db.Indexing.BTreeIndex.{lower_bound_loop, lower_bound_key, is_at}
use vertex_db.Indexing.BTreeIndex.Entries.{
  Entries, IsSorted, find_entry, insert_entry, find_entry_above,
}
use vertex_db.Indexing.BTreeIndex.Trees.{keys_of, rows_of}

module _ {K : Type 0} ⦃c : Comparison K⦄ where
  open c use {lt, eq}

  -- The number of keys at the front that are below the key
  unfoldable pub position : List K → K → ℕ
  position [] key = 0
  position (k ∷ ks) key = let rest = position ks key in if lt k key then suc rest else 0

  -- Each key is below the ones after it.
  unfoldable pub IsIncreasing : List K → Type 0
  IsIncreasing [] = Unit
  IsIncreasing (k ∷ ks) = All (λ j. lt k j ≡ true) ks × IsIncreasing ks

  position-le_length : (ks : List K) (key : K) → position ks key ≤ length ks
  unfolding position
  position-le_length [] key = omega arith
  position-le_length (k ∷ ks) key = ground (arith, position-le_length ks key)

  position-le :
      (ks : List K) (key : K) (i : ℕ) (k : K)
      → get_elem? ks i ≡ some k
      → lt k key ≡ false
      → position ks key ≤ i
  unfolding position
  position-le [] key i k g h = cc
  position-le (j ∷ ks) key zero k g h = ground arith
  position-le (j ∷ ks) key (suc i) k g h = ground (arith, position-le ks key i k g h)

  All-get {κ} :
      (P : K → Type κ) (ks : List K) (i : ℕ) (k : K) → All P ks → get_elem? ks i ≡ some k → P k
  All-get P [] i k a g = cc
  All-get P (j ∷ ks) zero k a g = subst P (cc) a.0
  All-get P (j ∷ ks) (suc i) k a g = All-get P ks i k a.1 g

  get_elem?-none : (ks : List K) (i : ℕ) → get_elem? ks i ≡ none → length ks ≤ i
  get_elem?-none [] i g = omega arith
  get_elem?-none (j ∷ ks) zero g = cc
  get_elem?-none (j ∷ ks) (suc i) g = omega (arith, get_elem?-none ks i g)

  All-keys :
      (k : K) (es : Entries K)
      → All (λ e. lt k e.0 ≡ true) es
      → All (λ j. lt k j ≡ true) (keys_of es)
  All-keys k [] a = tt
  All-keys k ((j, rows) ∷ es) a = (a.0, All-keys k es a.1)

  module _ (w : IsStrictWeak c) where
    open w use {lt_asym, ge_trans, eq_lem}

    lt_trans : (a b d : K) → lt a b ≡ true → lt b d ≡ true → lt a d ≡ true
    lt_trans a b d h k = ground (arith, ge_trans a d b, lt_asym b d)

    position-gt :
        (ks : List K) (key : K) (i : ℕ) (k : K)
        → IsIncreasing ks
        → get_elem? ks i ≡ some k
        → lt k key ≡ true
        → i < position ks key
    unfolding position IsIncreasing
    position-gt [] key i k s g h = cc
    position-gt (j ∷ ks) key zero k s g h = ground arith
    position-gt (j ∷ ks) key (suc i) k s g h = ground (
      arith,
      position-gt ks key i k s.1 g h,
      lt_trans j k key (All-get (λ (b : K). lt j b ≡ true) ks i k s.0 g) h,
    )

    lower_bound_loop_lem :
        (fuel : ℕ) (ks : List K) (key : K) (lo hi : ℕ)
        → IsIncreasing ks
        → hi ≤ lo + fuel
        → lo ≤ position ks key
        → position ks key ≤ hi
        → hi ≤ length ks
        → lower_bound_loop fuel ks key lo hi ≡ position ks key
    unfolding lower_bound_loop
    lower_bound_loop_lem zero ks key lo hi s f a b d = omega arith
    lower_bound_loop_lem (suc fuel) ks key lo hi s f a b d =
        let m = lo + (hi - lo) / 2 in
        elim (Option-cases (get_elem? ks m)) [
          | inl g ↦ ground (arith, get_elem?-none ks m g)
          | inr (k, g) ↦ ground (
            arith,
            g,
            position-gt ks key m k s g,
            position-le ks key m k g,
            lower_bound_loop_lem fuel ks key (m + 1) hi s,
            lower_bound_loop_lem fuel ks key lo m s,
          )
        ]

    -- Among increasing keys the binary search of lowerBoundKey ends at the number of keys that are
    -- below the one sought, which is the length of the list when all are.
    pub lower_bound_key_lem :
        (ks : List K) (key : K) → IsIncreasing ks → lower_bound_key ks key ≡ position ks key
    unfolding lower_bound_key
    lower_bound_key_lem ks key s =
        lower_bound_loop_lem (length ks) ks key 0 (length ks) s (omega arith) (omega arith)
          (position-le_length ks key) (omega arith)

    pub IsSorted-keys : (es : Entries K) → IsSorted es → IsIncreasing (keys_of es)
    unfolding IsSorted IsIncreasing
    IsSorted-keys [] s = tt
    IsSorted-keys ((k, rows) ∷ es) s = (All-keys k es s.0, IsSorted-keys es s.1)

    -- What stands in a leaf at the position of a key
    pub find_entry_at :
        (es : Entries K) (key : K)
        → IsSorted es
        → (if is_at (keys_of es) (position (keys_of es) key) key
            then get_elem? (rows_of es) (position (keys_of es) key)
            else some [])
          ≡ some (find_entry key es)
    unfolding IsSorted position find_entry
    find_entry_at [] key s = refl
    find_entry_at ((k, rows) ∷ es) key s =
        ground (arith, find_entry_at es key s.1, eq_lem k key, find_entry_above w k key es, s.0)

    pub keys-insert_entry_at :
        (es : Entries K) (key : K) (row_id : ℕ)
        → keys_of (insert_entry key row_id es) ≡ (
            if is_at (keys_of es) (position (keys_of es) key) key
            then keys_of es
            else insert_at (position (keys_of es) key) key (keys_of es))
    unfolding position insert_entry
    keys-insert_entry_at [] key row_id = refl
    keys-insert_entry_at ((k, rows) ∷ es) key row_id =
        ground (arith, keys-insert_entry_at es key row_id, eq_lem k key)

    pub rows-insert_entry_at :
        (es : Entries K) (key : K) (row_id : ℕ)
        → rows_of (insert_entry key row_id es) ≡ (
            if is_at (keys_of es) (position (keys_of es) key) key
            then modify_at (position (keys_of es) key) (λ ids. ids ++ row_id ∷ []) (rows_of es)
            else insert_at (position (keys_of es) key) (row_id ∷ []) (rows_of es))
    unfolding position insert_entry
    rows-insert_entry_at [] key row_id = refl
    rows-insert_entry_at ((k, rows) ∷ es) key row_id =
        ground (arith, rows-insert_entry_at es key row_id, eq_lem k key)
