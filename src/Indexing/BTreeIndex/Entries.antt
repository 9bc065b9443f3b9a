-- ===== src/Indexing/BTreeIndex/Entries.antt =====
-- What an ordered map of keys to rows promises: the entries in order, their lookup and insertion.
use vertex_db.Base.{ℕ, ◌≡◌, refl, true, false, List, [], ◌∷◌, ◌++◌, if◌then◌else◌, All, arith}
use vertex_db.Indexing.KeyOrder.{Comparison, IsStrictWeak}

abbrev pub Entries {ℓ} : Type ℓ → Type ℓ
Entries K = List (K × List ℕ)

module _ {ℓ} {K : Type ℓ} ⦃c : Comparison K⦄ where
  open c use {lt, eq}

  unfoldable pub find_entry : K → Entries K → List ℕ
  find_entry key [] = []
  find_entry key ((k, rows) ∷ es) = if eq k key then rows else find_entry key es

  unfoldable pub insert_entry : K → ℕ → Entries K → Entries K
  insert_entry key row_id [] = (key, row_id ∷ []) ∷ []
  insert_entry key row_id ((k, rows) ∷ es) =
      if lt k key
      then (k, rows) ∷ insert_entry key row_id es
      else if eq k key
      then (k, rows ++ row_id ∷ []) ∷ es
      else (key, row_id ∷ []) ∷ (k, rows) ∷ es

  -- Every key is below the bound, or none is.
  abbrev pub AllBelow : K → Entries K → Type 0
  AllBelow b es = All (λ e. lt e.0 b ≡ true) es

  abbrev pub AllFrom : K → Entries K → Type 0
  AllFrom b es = All (λ e. lt e.0 b ≡ false) es

  -- Each key is below the ones after it.
  unfoldable pub IsSorted : Entries K → Type 0
  IsSorted [] = Unit
  IsSorted ((k, rows) ∷ es) = All (λ e. lt k e.0 ≡ true) es × IsSorted es

  pub insert_entry-append_below :
      (key : K) (row_id : ℕ) (xs ys : Entries K)
      → AllBelow key xs
      → insert_entry key row_id (xs ++ ys) ≡ xs ++ insert_entry key row_id ys
  unfolding insert_entry
  insert_entry-append_below key row_id [] ys h = refl
  insert_entry-append_below key row_id ((k, rows) ∷ xs) ys h =
      ground (arith, insert_entry-append_below key row_id xs ys)

  module _ (w : IsStrictWeak c) where
    open w use {lt_asym, ge_trans, eq_lem}

    pub insert_entry-append_above :
        (key : K) (row_id : ℕ) (xs ys : Entries K)
        → All (λ e. lt key e.0 ≡ true) ys
        → insert_entry key row_id (xs ++ ys) ≡ insert_entry key row_id xs ++ ys
    unfolding insert_entry
    insert_entry-append_above key row_id [] [] h = refl
    insert_entry-append_above key row_id [] ((k, rows) ∷ ys) h =
        ground (arith, lt_asym key k, eq_lem k key)
    insert_entry-append_above key row_id ((k, rows) ∷ xs) ys h =
        ground (arith, insert_entry-append_above key row_id xs ys)

    pub lt-lt_of_ge : (a b d : K) → lt a b ≡ true → lt d b ≡ false → lt a d ≡ true
    lt-lt_of_ge a b d h k = ground (arith, ge_trans a d b)

    pub lt-ge_of_lt : (a b d : K) → lt b a ≡ false → lt b d ≡ true → lt a d ≡ true
    lt-ge_of_lt a b d h k = ground (arith, ge_trans b a d)

    pub find_entry_above :
        (b j : K) (es : Entries K)
        → lt b j ≡ false
        → All (λ e. lt b e.0 ≡ true) es
        → find_entry j es ≡ []
    unfolding find_entry
    find_entry_above b j [] h a = refl
    find_entry_above b j ((k, rows) ∷ es) h a =
        ground (arith, find_entry_above b j es h a.1, eq_lem k j, lt-ge_of_lt j b k h a.0)

    -- In a sorted list the inserted row is found last under each equal key, and nothing else changes.
    pub find_entry-insert_entry :
        (key j : K) (row_id : ℕ) (es : Entries K)
        → IsSorted es
        → find_entry j (insert_entry key row_id es)
          ≡ (if eq key j then find_entry j es ++ row_id ∷ [] else find_entry j es)
    unfolding find_entry insert_entry IsSorted
    find_entry-insert_entry key j row_id [] s = refl
    find_entry-insert_entry key j row_id ((k, rows) ∷ es) s = ground (
      arith,
      find_entry-insert_entry key j row_id es s.1,
      eq_lem k key,
      eq_lem k j,
      eq_lem key j,
      ge_trans k j key,
      ge_trans key k j,
      ge_trans k key j,
      ge_trans j k key,
      ge_trans j key k,
      ge_trans key j k,
      find_entry_above k j es,
    )
