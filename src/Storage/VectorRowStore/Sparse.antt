-- ===== src/Storage/VectorRowStore/Sparse.antt =====
-- storage/row_store_shared.cpp, validateSparseRowLayout, and VectorRowStore::replaceSparse: a store is
-- filled from rows under given identifiers and a free list.
pub mod Loaded
use vertex_db.Base.{
  ℕ, zero, suc, ◌+◌, ◌<◌, ◌≤◌, ◌≡◌, refl, true, false, not, Option, none, some, List, [], ◌∷◌, ◌==◌,
  ltb, if◌then◌else◌, length, any, set, arith, Bool-cases, inl, inr, ◌⊎◌,
}
use vertex_db.Common.Value.{Row}
use vertex_db.Storage.VectorRowStore.{Store}
use vertex_db.Storage.VectorRowStore.FreeList.{occurrences}

-- The messages of the exceptions that are thrown
pub data LayoutError : Type 0 where
  more_rows_than_capacity not_covering live_out_of_range duplicate_live free_out_of_range
        overlapping_free slot_uncovered :
      LayoutError

-- What a loop over identifiers leaves: an error, or the set of those that it has seen.
pub data Checked : Type 0 where
  failed : LayoutError → Checked
  passed : List ℕ → Checked

unfoldable pub check_ids : LayoutError → LayoutError → ℕ → List ℕ → List ℕ → Checked
check_ids out_of_range duplicate capacity seen [] = passed seen
check_ids out_of_range duplicate capacity seen (id ∷ ids) = elim (ltb id capacity) [
  | false ↦ failed out_of_range
  | true ↦ elim (any (λ x. x == id) seen) [
    | true ↦ failed duplicate
    | false ↦ check_ids out_of_range duplicate capacity (id ∷ seen) ids
  ]
]

unfoldable pub ids_of : List (ℕ × Row) → List ℕ
ids_of [] = []
ids_of ((id, row) ∷ entries) = id ∷ ids_of entries

-- validateSparseRowLayout: `none` where it throws nothing
unfoldable pub validate_sparse_row_layout : ℕ → List ℕ → List (ℕ × Row) → Option LayoutError
unfolding check_ids ids_of
validate_sparse_row_layout capacity free_list entries =
    if ltb capacity (length entries)
    then some more_rows_than_capacity
    else if not (length free_list + length entries == capacity)
    then some not_covering
    else elim (check_ids live_out_of_range duplicate_live capacity [] (ids_of entries)) [
      | failed e ↦ some e
      | passed seen ↦ elim (check_ids free_out_of_range overlapping_free capacity seen free_list) [
        | failed e ↦ some e
        | passed seen' ↦ if length seen' == capacity then none else some slot_uncovered
      ]
    ]

unfoldable pub empty_slots : ℕ → List (Option Row)
empty_slots zero = []
empty_slots (suc n) = none ∷ empty_slots n

unfoldable pub place_all : List (Option Row) → List (ℕ × Row) → List (Option Row)
place_all rows [] = rows
place_all rows ((id, row) ∷ entries) = place_all (set rows id (some row)) entries

-- VectorRowStore::replaceSparse
unfoldable pub replace_sparse : Store → ℕ → List ℕ → List (ℕ × Row) → Option LayoutError × Store
unfolding validate_sparse_row_layout empty_slots place_all
replace_sparse s capacity free_list entries =
    elim (validate_sparse_row_layout capacity free_list entries) [
      | some e ↦ (some e, s)
      | none ↦ (
        none,
        record {
          rows = place_all (empty_slots capacity) entries;
          free_list = free_list;
          live_count = length entries;
        },
      )
    ]

Checked-cases :
    (c : Checked) → ((e : LayoutError) × c ≡ failed e) ⊎ ((seen : List ℕ) × c ≡ passed seen)
Checked-cases (failed e) = inl (e, refl)
Checked-cases (passed seen) = inr (seen, refl)

unseen : (id : ℕ) (seen : List ℕ) → any (λ x. x == id) seen ≡ false → occurrences id seen ≡ 0
unfolding occurrences
unseen id [] h = refl
unseen id (x ∷ seen) h = ground (arith, unseen id seen)

-- A loop that passes has added its identifiers, each below the capacity and not there before.
pub check_ids-passed :
    (e e' : LayoutError) (capacity i : ℕ) (seen ids seen' : List ℕ)
    → check_ids e e' capacity seen ids ≡ passed seen'
    → occurrences i seen ≤ 1
    → (occurrences i seen' ≡ occurrences i seen + occurrences i ids)
      × (occurrences i seen' ≤ 1)
      × (0 < occurrences i ids → i < capacity)
unfolding check_ids occurrences
check_ids-passed e e' capacity i seen [] seen' h once = ground arith
check_ids-passed e e' capacity i seen (id ∷ ids) seen' h once =
    elim (Bool-cases (ltb id capacity)) [
      | inr low ↦ absurd (ground arith)
      | inl low ↦ elim (Bool-cases (any (λ x. x == id) seen)) [
        | inl there ↦ absurd (ground arith)
        | inr new ↦
            let fresh : occurrences id seen ≡ 0 = unseen id seen new in
            let rest : check_ids e e' capacity (id ∷ seen) ids ≡ passed seen' = ground arith in
            let more : occurrences i (id ∷ seen) ≤ 1 = ground arith in
            ground (arith, check_ids-passed e e' capacity i (id ∷ seen) ids seen' rest more)
      ]
    ]

-- In a layout that is accepted every identifier stands once at most, in the rows or in the free list,
-- and is below the capacity.
pub validated_once :
    (capacity i : ℕ) (free_list : List ℕ) (entries : List (ℕ × Row))
    → validate_sparse_row_layout capacity free_list entries ≡ none
    → (occurrences i (ids_of entries) + occurrences i free_list ≤ 1)
      × (0 < occurrences i (ids_of entries) + occurrences i free_list → i < capacity)
unfolding validate_sparse_row_layout
validated_once capacity i free_list entries h =
    elim (Checked-cases (check_ids live_out_of_range duplicate_live capacity [] (ids_of entries))) [
      | inl (e, c) ↦ absurd (ground arith)
      | inr (seen, c) ↦
          elim (Checked-cases
            (check_ids free_out_of_range overlapping_free capacity seen free_list)) [
              | inl (e, c') ↦ absurd (ground arith)
              | inr (seen', c') ↦
                  let none_yet : occurrences i [] ≡ 0 = unfold occurrences in refl in
                  let live : (occurrences i seen
                        ≡ occurrences i [] + occurrences i (ids_of entries))
                      × (occurrences i seen ≤ 1)
                      × (0 < occurrences i (ids_of entries) → i < capacity) =
                    check_ids-passed live_out_of_range duplicate_live capacity i [] (ids_of entries)
                      seen c (omega (arith, none_yet)) in
                  let free : (occurrences i seen' ≡ occurrences i seen + occurrences i free_list)
                      × (occurrences i seen' ≤ 1)
                      × (0 < occurrences i free_list → i < capacity) =
                    check_ids-passed free_out_of_range overlapping_free capacity i seen free_list
                      seen' c' live.1 in
                  ground (arith, none_yet, live, free)
            ]
    ]
