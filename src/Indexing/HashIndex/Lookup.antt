-- ===== src/Indexing/HashIndex/Lookup.antt =====
-- `find` after each operation: the index is a map from keys to lists of row identifiers.
use vertex_db.Base.{
  ℕ, ◌≡◌, refl, true, List, [], ◌∷◌, ◌++◌, arith, if◌then◌else◌, Option-cases, inl, inr, ◌⊎◌,
}
use vertex_db.Base.Dict.{lookup, put, erase, lookup-put, lookup-erase, lookup_same}
use vertex_db.Common.Value.{Value, value_eq}
use vertex_db.Common.Value.Equal.{value_equality}
use vertex_db.Indexing.HashIndex.{HashIndex, Buckets, bucket, find, insert, remove, without}

pub bucket_same :
    (k j : Value) (entries : Buckets) → value_eq k j ≡ true → bucket k entries ≡ bucket j entries
bucket_same k j entries h = ground (arith, lookup_same k j entries h)

pub bucket-put :
    (k j : Value) (ids : List ℕ) (entries : Buckets)
    → bucket j (put k ids entries) ≡ (if value_eq k j then ids else bucket j entries)
bucket-put k j ids entries = ground (arith, lookup-put k j ids entries)

pub bucket-erase :
    (k j : Value) (entries : Buckets)
    → bucket j (erase k entries) ≡ (if value_eq k j then [] else bucket j entries)
bucket-erase k j entries = ground (arith, lookup-erase k j entries)

-- An insertion adds the row at the end of the bucket of each equal key, and nowhere else.
pub find-insert :
    (x : HashIndex) (key j : Value) (row_id : ℕ)
    → find (insert x key row_id) j ≡ (if value_eq key j then find x j ++ row_id ∷ [] else find x j)
unfolding find insert
find-insert x key j row_id = ground (
  arith,
  bucket-put key j (bucket key x.entries ++ row_id ∷ []) x.entries,
  bucket_same key j x.entries,
)

pub List-cases {ℓ} : {A : Type ℓ} (l : List A) → (l ≡ []) ⊎ ((a : A) × (r : List A) × (l ≡ a ∷ r))
List-cases [] = inl refl
List-cases (a ∷ r) = inr (a, r, refl)

without-nil : (row_id : ℕ) → without row_id [] ≡ []
unfolding without
without-nil row_id = refl

-- A removal takes every copy of the row out of the bucket of each equal key, and nothing else.
pub find-remove :
    (x : HashIndex) (key j : Value) (row_id : ℕ)
    → find (remove x key row_id) j
      ≡ (if value_eq key j then without row_id (find x j) else find x j)
unfolding find remove
find-remove x key j row_id = elim (Option-cases (lookup key x.entries)) [
  | inl e ↦ ground (arith, bucket_same key j x.entries, without-nil row_id)
  | inr (ids, e) ↦ elim (List-cases (without row_id ids)) [
    | inl gone ↦ ground (arith, bucket-erase key j x.entries, bucket_same key j x.entries)
    | inr (id, rest, left) ↦
        ground (arith, bucket-put key j (id ∷ rest) x.entries, bucket_same key j x.entries)
  ]
]
