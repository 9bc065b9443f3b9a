-- ===== src/Storage/VectorRowStore/Sparse/Loaded.antt =====
-- VectorRowStore::replaceSparse leaves a store whose free list and counter are right: a layout that is
-- accepted names each slot once, as there are as many names as slots and none stands twice.
use vertex_db.Base.{
  ℕ, zero, suc, ◌+◌, ◌-◌, ◌<◌, ◌≤◌, ◌≡◌, refl, ap, false, Option, none, some, List, [], ◌∷◌, ◌++◌,
  ◌==◌, ltb, if◌then◌else◌, length, set, get_elem?, length-append, arith, Bool-cases, Option-cases,
  inl, inr,
}
use vertex_db.Common.Value.{Row}
use vertex_db.Storage.VectorRowStore.{Store, erase_first, live_rows}
use vertex_db.Storage.VectorRowStore.FreeList.{
  occurrences, occurrences-append, occurrences-erase_first, get_elem?-set, in_bounds,
}
use vertex_db.Storage.VectorRowStore.Invariant.{IsWf, is_free, length-live_rows-set}
use vertex_db.Storage.VectorRowStore.Sparse.{
  ids_of, validate_sparse_row_layout, empty_slots, place_all, replace_sparse, validated_once,
}

length-erase_first : (id : ℕ) (xs : List ℕ) → length xs ≤ suc (length (erase_first id xs))
unfolding erase_first
length-erase_first id [] = omega arith
length-erase_first id (x ∷ xs) = ground (arith, length-erase_first id xs)

-- The numbers of a list without repetition that are all below `n` are at most `n` in number.
length_bounded :
    (n : ℕ) (xs : List ℕ)
    → ((i : ℕ) → occurrences i xs ≤ 1)
    → ((i : ℕ) → 0 < occurrences i xs → i < n)
    → length xs ≤ n
length_bounded n [] once low = omega arith
length_bounded zero (x ∷ xs) once low = absurd (unfold occurrences in ground (arith, low x))
length_bounded (suc n) (x ∷ xs) once low =
    let ys : List ℕ = erase_first n (x ∷ xs) in
    let left : (i : ℕ)
        → occurrences i ys
          ≡ (if n == i then occurrences i (x ∷ xs) - 1 else occurrences i (x ∷ xs)) =
      λ i. occurrences-erase_first n i (x ∷ xs) in
    let rest =
      length_bounded n ys (λ i. ground (arith, left i, once i))
        (λ i h. ground (arith, left i, once i, low i, h)) in
    omega (arith, rest, length-erase_first n (x ∷ xs))

-- If there are `n` of them, each number below `n` stands in the list.
each_stands :
    (n i : ℕ) (xs : List ℕ)
    → ((i : ℕ) → occurrences i xs ≤ 1)
    → ((i : ℕ) → 0 < occurrences i xs → i < n)
    → length xs ≡ n
    → i < n
    → occurrences i xs ≡ 1
unfolding occurrences
each_stands n i xs once low full h = elim (Bool-cases (occurrences i xs == 0)) [
  | inr e ↦ ground (arith, once i)
  | inl e ↦
      let more =
        length_bounded n (i ∷ xs) (λ j. ground (arith, once j)) (λ j g. ground (arith, low j)) in
      absurd (omega (arith, more))
]

-- The entries are for different slots, which exist and hold no row.
record IsLoadable (rows : List (Option Row)) (entries : List (ℕ × Row)) : Type 0 where
  once : (i : ℕ) → occurrences i (ids_of entries) ≤ 1
  vacant : (i : ℕ) → 0 < occurrences i (ids_of entries) → get_elem? rows i ≡ some none

module _ (rows : List (Option Row)) (id : ℕ) (row : Row) (entries : List (ℕ × Row))
    (h : IsLoadable rows ((id, row) ∷ entries)) where
  vacant_here : get_elem? rows id ≡ some none
  unfolding occurrences ids_of
  vacant_here = h.vacant id (ground arith)

  written :
      (i : ℕ)
      → get_elem? (set rows id (some row)) i
        ≡ (if id == i then some (some row) else get_elem? rows i)
  written i = get_elem?-set rows id i (some row) (in_bounds rows id none vacant_here)

  IsLoadable-rest : IsLoadable (set rows id (some row)) entries
  unfolding occurrences ids_of
  IsLoadable-rest = record {
    once = λ i. ground (arith, h.once i);
    vacant = λ i g. ground (arith, written i, h.once i, h.vacant i);
  }

is_free-place_all :
    (rows : List (Option Row)) (entries : List (ℕ × Row)) (i : ℕ)
    → IsLoadable rows entries
    → is_free (place_all rows entries) i
      ≡ (if occurrences i (ids_of entries) == 0 then is_free rows i else false)
unfolding place_all occurrences ids_of
is_free-place_all rows [] i h = refl
is_free-place_all rows ((id, row) ∷ entries) i h =
    let rest =
      is_free-place_all (set rows id (some row)) entries i
        (IsLoadable-rest rows id row entries h) in
    ground (arith, rest, written rows id row entries h i)

length-live_rows-place_all :
    (rows : List (Option Row)) (entries : List (ℕ × Row))
    → IsLoadable rows entries
    → length (live_rows (place_all rows entries)) ≡ length (live_rows rows) + length entries
unfolding place_all
length-live_rows-place_all rows [] h = omega arith
length-live_rows-place_all rows ((id, row) ∷ entries) h =
    let rest =
      length-live_rows-place_all (set rows id (some row)) entries
        (IsLoadable-rest rows id row entries h) in
    omega (
      arith,
      rest,
      length-live_rows-set rows id none (some row) (vacant_here rows id row entries h),
    )

get_elem?-empty_slots :
    (n i : ℕ) → get_elem? (empty_slots n) i ≡ (if ltb i n then some none else none)
unfolding empty_slots
get_elem?-empty_slots zero i = ground arith
get_elem?-empty_slots (suc n) zero = ground arith
get_elem?-empty_slots (suc n) (suc i) = ground (arith, get_elem?-empty_slots n i)

live_rows-empty_slots : (n : ℕ) → live_rows (empty_slots n) ≡ []
unfolding empty_slots live_rows
live_rows-empty_slots zero = refl
live_rows-empty_slots (suc n) = live_rows-empty_slots n

length-ids_of : (entries : List (ℕ × Row)) → length (ids_of entries) ≡ length entries
unfolding ids_of
length-ids_of [] = refl
length-ids_of ((id, row) ∷ entries) = ap suc (length-ids_of entries)

-- The numbers of rows and of free slots that are accepted
validated_full :
    (capacity : ℕ) (free_list : List ℕ) (entries : List (ℕ × Row))
    → validate_sparse_row_layout capacity free_list entries ≡ none
    → length free_list + length entries ≡ capacity
unfolding validate_sparse_row_layout
validated_full capacity free_list entries h = ground arith

module _ (capacity : ℕ) (free_list : List ℕ) (entries : List (ℕ × Row))
    (valid : validate_sparse_row_layout capacity free_list entries ≡ none) where
  named_once : (i : ℕ) → i < capacity → occurrences i (ids_of entries) + occurrences i free_list ≡ 1
  named_once i low =
      let both = λ (j : ℕ). occurrences-append j (ids_of entries) free_list in
      let bounds = λ (j : ℕ). validated_once capacity j free_list entries valid in
      let all =
        each_stands capacity i (ids_of entries ++ free_list)
          (λ j. omega (arith, both j, (bounds j).0))
          (λ j g. (bounds j).1 (omega (arith, both j, g)))
          (omega (
            arith,
            length-append (ids_of entries) free_list,
            length-ids_of entries,
            validated_full capacity free_list entries valid,
          ))
          low in
      omega (arith, all, both i)

  loadable : IsLoadable (empty_slots capacity) entries
  loadable = record {
    once = λ i. omega (arith, (validated_once capacity i free_list entries valid).0);
    vacant = λ i h.
        let low : i < capacity =
          (validated_once capacity i free_list entries valid).1 (omega arith) in
        ground (arith, get_elem?-empty_slots capacity i, low);
  }

  loaded-IsWf : IsWf (record {
    rows = place_all (empty_slots capacity) entries;
    free_list = free_list;
    live_count = length entries;
  })
  loaded-IsWf = record {
    free = λ i. ground (
      arith,
      is_free-place_all (empty_slots capacity) entries i loadable,
      get_elem?-empty_slots capacity i,
      named_once i,
      validated_once capacity i free_list entries valid,
    );
    count = omega (
      arith,
      length-live_rows-place_all (empty_slots capacity) entries loadable,
      ap length (live_rows-empty_slots capacity),
    );
  }

pub replace_sparse-IsWf :
    (s : Store) (capacity : ℕ) (free_list : List ℕ) (entries : List (ℕ × Row))
    → IsWf s
    → IsWf (replace_sparse s capacity free_list entries).1
unfolding replace_sparse
replace_sparse-IsWf s capacity free_list entries v =
    elim (Option-cases (validate_sparse_row_layout capacity free_list entries)) [
      | inl e ↦ rw (e, replace_sparse) (loaded-IsWf capacity free_list entries e)
      | inr (error, e) ↦ rw (e, replace_sparse) v
    ]
