-- ===== src/Transactions/VersionStore/Columns/Undoing.antt =====
-- The undo of ALTER TABLE ... DROP COLUMN on the versions.
use vertex_db.Base.{
  ℕ, zero, suc, ◌≤◌, ◌≡◌, ◌≢◌, refl, subst, ◌∙◌, ap, true, none, some, List, [], ◌∷◌, ◌==◌, length,
  get_elem?, All, arith, Option-cases, inl, inr,
}
use vertex_db.Base.OrderedMap.{Map, lookup, emplace, lookup-emplace}
use vertex_db.Common.Value.{Row, Value}
use vertex_db.Transactions.VersionStore.{RowVersion, Versions}
use vertex_db.Transactions.VersionStore.Columns.{
  erase_at, insert_at, extract_chain, extract_column, insert_chain, by_id, insert_loop,
  insert_column,
}

insert_at-erase_at :
    (i : ℕ) (row : Row) (value : Value)
    → get_elem? row i ≡ some value
    → insert_at i value (erase_at i row) ≡ row
unfolding insert_at erase_at
insert_at-erase_at i [] value h = ground arith
insert_at-erase_at zero (x ∷ row) value h = ground arith
insert_at-erase_at (suc i) (x ∷ row) value h = ground (arith, insert_at-erase_at i row value h)

length-erase_at :
    (i : ℕ) (row : Row) (value : Value) → get_elem? row i ≡ some value → i ≤ length (erase_at i row)
unfolding erase_at
length-erase_at i [] value h = ground arith
length-erase_at zero (x ∷ row) value h = omega arith
length-erase_at (suc i) (x ∷ row) value h = omega (arith, length-erase_at i row value h)

insert_chain-extract_chain :
    (i : ℕ) (chain : List RowVersion) (values : List Value)
    → (extract_chain i chain).0 ≡ some values
    → (insert_chain i values (extract_chain i chain).1 ≡ (true, chain))
      × (length values ≡ length (extract_chain i chain).1)
unfolding extract_chain insert_chain
insert_chain-extract_chain i [] values h = ground arith
insert_chain-extract_chain i (v ∷ older) values h = elim (Option-cases (extract_chain i older).0) [
  | inl e ↦ ground arith
  | inr (found, e) ↦ elim (Option-cases (get_elem? v.row i)) [
    | inl e' ↦ ground arith
    | inr (value, e') ↦ ground (
      arith,
      insert_chain-extract_chain i older found e,
      insert_at-erase_at i v.row value e',
      length-erase_at i v.row value e',
    )
  ]
]

emplace_there :
    (k : ℕ) (v w : List Value) (m : Map (List Value)) → lookup k m ≡ some w → emplace k v m ≡ m
unfolding emplace
emplace_there k v w m h = rw (emplace, h)

same_key :
    (k j : ℕ) (m : Map (List Value)) (w : List Value)
    → lookup k m ≡ some w
    → k == j ≡ true
    → lookup j m ≡ some w
same_key k j m w h e = ground arith

lookup-by_id :
    (j : ℕ) (entries columns : Map (List Value))
    → lookup j (by_id entries columns)
      ≡ elim (lookup j entries) [ none ↦ lookup j columns | some w ↦ some w ]
unfolding by_id lookup
lookup-by_id j entries [] = elim (Option-cases (lookup j entries)) [
  | inl e ↦ ground arith
  | inr (w, e) ↦ ground arith
]
lookup-by_id j entries ((id, values) ∷ rest) = elim (Option-cases (lookup id entries)) [
  | inl e ↦
      ground (
        arith,
        lookup-by_id j (emplace id values entries) rest,
        lookup-emplace id j values entries e,
      )
  | inr (w, e) ↦ ground (
    arith,
    lookup-by_id j (emplace id values entries) rest,
    ap (lookup j) (emplace_there id values w entries e),
    same_key id j entries w e,
  )
]

lookup-by_id_nil :
    (j : ℕ) (columns : Map (List Value)) → lookup j (by_id [] columns) ≡ lookup j columns
lookup-by_id_nil j columns = lookup-by_id j [] columns ∙ (unfold lookup in refl)

-- Each row has one chain.
abbrev pub UniqueKeys {ℓ} : {A : Type ℓ} → Map A → Type ℓ
UniqueKeys [] = Unit
UniqueKeys ((k, a) ∷ m) = All (λ e. e.0 ≢ k) m × UniqueKeys m

-- Every value of the first map is found in the second.
abbrev Covered {ℓ} : {A : Type ℓ} → Map A → Map A → Type ℓ
Covered m entries = All (λ e. lookup e.0 entries ≡ some e.1) m

Covered-cons {ℓ} :
    {A : Type ℓ} (k : ℕ) (a : A) (m entries : Map A)
    → All (λ e. e.0 ≢ k) m
    → Covered m entries
    → Covered m ((k, a) ∷ entries)
unfolding lookup
Covered-cons k a [] entries n c = tt
Covered-cons k a ((j, b) ∷ m) entries n c =
    (ground (arith, n.0, c.0), Covered-cons k a m entries n.1 c.1)

Covered-self {ℓ} : {A : Type ℓ} (m : Map A) → UniqueKeys m → Covered m m
Covered-self [] u = tt
Covered-self ((k, a) ∷ m) u =
    (unfold lookup in ground arith, Covered-cons k a m m u.0 (Covered-self m u.1))

-- What an extraction that ends has done to the first chain and to the others.
extracted_cons :
    (i id : ℕ) (chain : List RowVersion) (m : Versions) (columns : Map (List Value))
    → (extract_column i ((id, chain) ∷ m)).0 ≡ some columns
    → (values : List Value) × (others : Map (List Value)) × ((extract_chain i chain).0
        ≡ some values)
      × ((extract_column i m).0 ≡ some others)
      × (columns ≡ (id, values) ∷ others)
      × ((extract_column i ((id, chain) ∷ m)).1
          ≡ (id, (extract_chain i chain).1) ∷ (extract_column i m).1)
unfolding extract_column
extracted_cons i id chain m columns h = elim (Option-cases (extract_chain i chain).0) [
  | inl e ↦ absurd (ground arith)
  | inr (values, e) ↦ elim (Option-cases (extract_column i m).0) [
    | inl e' ↦ absurd (ground arith)
    | inr (others, e') ↦ (values, others, e, e', ground arith, ground arith)
  ]
]

extracted_nil :
    (i : ℕ) (columns : Map (List Value)) → (extract_column i []).0 ≡ some columns → columns ≡ []
unfolding extract_column
extracted_nil i columns h = ground arith

-- The columns that were extracted stand under the rows' identifiers.
keys_apart :
    (i k : ℕ) (m : Versions) (columns : Map (List Value))
    → (extract_column i m).0 ≡ some columns
    → All (λ e. e.0 ≢ k) m
    → All (λ e. e.0 ≢ k) columns
keys_apart i k [] columns h n = rw (extracted_nil i columns h) tt
keys_apart i k ((id, chain) ∷ m) columns h n =
    let (values, others, e, e', same, state) = extracted_cons i id chain m columns h in
    rw same (n.0, keys_apart i k m others e' n.1)

extract_column-UniqueKeys :
    (i : ℕ) (m : Versions) (columns : Map (List Value))
    → (extract_column i m).0 ≡ some columns
    → UniqueKeys m
    → UniqueKeys columns
extract_column-UniqueKeys i [] columns h u = rw (extracted_nil i columns h) tt
extract_column-UniqueKeys i ((id, chain) ∷ m) columns h u =
    let (values, others, e, e', same, state) = extracted_cons i id chain m columns h in
    rw same (keys_apart i id m others e' u.0, extract_column-UniqueKeys i m others e' u.1)

-- One row is restored, if the loop restores the others.
insert_loop_cons :
    (i id : ℕ) (values : List Value) (chain chain' : List RowVersion) (entries : Map (List Value))
    (m m' : Versions)
    → lookup id entries ≡ some values
    → insert_chain i values chain' ≡ (true, chain)
    → length values ≡ length chain'
    → insert_loop i entries m' ≡ (true, m)
    → insert_loop i entries ((id, chain') ∷ m') ≡ (true, (id, chain) ∷ m)
unfolding insert_loop
insert_loop_cons i id values chain chain' entries m m' found restored same loop = ground arith

insert_loop-extract_column :
    (i : ℕ) (m : Versions) (columns entries : Map (List Value))
    → (extract_column i m).0 ≡ some columns
    → Covered columns entries
    → insert_loop i entries (extract_column i m).1 ≡ (true, m)
insert_loop-extract_column i [] columns entries h c = unfold extract_column insert_loop in refl
insert_loop-extract_column i ((id, chain) ∷ m) columns entries h c =
    let (values, others, e, e', same, state) = extracted_cons i id chain m columns h in
    let (restored, lengths) = insert_chain-extract_chain i chain values e in
    let covered : Covered ((id, values) ∷ others) entries = subst (λ l. Covered l entries) same c in
    rw state (
      insert_loop_cons i id values chain (extract_chain i chain).1 entries m (extract_column i m).1
        covered.0 restored lengths (insert_loop-extract_column i m others entries e' covered.1))

-- The undo of DROP COLUMN: if a column could be taken out of every version, and each row has one
-- chain, putting the values back restores all versions.
pub insert_column-extract_column :
    (i : ℕ) (m : Versions) (columns : Map (List Value))
    → UniqueKeys m
    → (extract_column i m).0 ≡ some columns
    → insert_column i columns (extract_column i m).1 ≡ (true, m)
unfolding insert_column
insert_column-extract_column i m columns u h =
    insert_loop-extract_column i m columns (by_id [] columns) h
      (covers columns columns (Covered-self columns (extract_column-UniqueKeys i m columns h u)))
  where
    covers : (part all : Map (List Value)) → Covered part all → Covered part (by_id [] all)
    covers [] all c = tt
    covers ((k, a) ∷ part) all c = (lookup-by_id_nil k all ∙ c.0, covers part all c.1)
