-- ===== src/Storage/VectorRowStore/Invariant.antt =====
-- The invariant of the row store: the free list holds each free slot once and no other number, and
-- the count is that of the live slots. Each operation keeps it.
use vertex_db.Base.{
  ℕ, zero, suc, ◌+◌, ◌<◌, ◌≡◌, ◌≢◌, ◌⊎◌, refl, ap, Bool, true, false, not, Option, none, some, List,
  [], ◌∷◌, ◌++◌, arith, ◌==◌, ltb, if◌then◌else◌, length, get_elem?, set, is_some, Option-cases,
  Bool-cases, inl, inr,
}
use vertex_db.Common.Value.{Row}
use vertex_db.Storage.VectorRowStore.{
  Store, empty, unsnoc, erase_first, get, append, erase, update, revive, upsert_at, live_rows,
  append_all, replace_rows,
}
use vertex_db.Storage.VectorRowStore.FreeList.{
  occurrences, occurrences-snoc, occurrences-erase_first, any-occurrences, unsnoc-some, unsnoc-none,
  get_elem?-set, get_elem?-snoc, in_bounds, out_of_bounds,
}

-- The slot exists and holds no row.
abbrev pub is_free : List (Option Row) → ℕ → Bool
is_free slots i = elim (get_elem? slots i) [ none ↦ false | some slot ↦ not (is_some slot) ]

pub record IsWf (s : Store) : Type 0 where
  pub free : (i : ℕ) → occurrences i s.free_list ≡ (if is_free s.rows i then 1 else 0)
  pub count : s.live_count ≡ length (live_rows s.rows)

-- How many rows a slot holds.
abbrev pub weight : Option Row → ℕ
weight none = 0
weight (some row) = 1

pub length-live_rows-set :
    (slots : List (Option Row)) (i : ℕ) (old v : Option Row)
    → get_elem? slots i ≡ some old
    → length (live_rows (set slots i v)) + weight old ≡ length (live_rows slots) + weight v
unfolding live_rows
length-live_rows-set [] i old v h = cc
length-live_rows-set (x ∷ slots) zero old v h = ground arith
length-live_rows-set (none ∷ slots) (suc i) old v h = length-live_rows-set slots i old v h
length-live_rows-set (some row ∷ slots) (suc i) old v h =
    omega (arith, length-live_rows-set slots i old v h)

length-live_rows-snoc :
    (slots : List (Option Row)) (row : Row)
    → length (live_rows (slots ++ some row ∷ [])) ≡ suc (length (live_rows slots))
unfolding live_rows
length-live_rows-snoc [] row = refl
length-live_rows-snoc (none ∷ slots) row = length-live_rows-snoc slots row
length-live_rows-snoc (some x ∷ slots) row = ap suc (length-live_rows-snoc slots row)

-- The slot of a number on the free list.
free_slot :
    (s : Store) (i : ℕ) → IsWf s → 0 < occurrences i s.free_list → get_elem? s.rows i ≡ some none
free_slot s i v h = ground (arith, v.free i)

pub last_free :
    (s : Store) (p : List ℕ × ℕ)
    → IsWf s
    → unsnoc s.free_list ≡ some p
    → get_elem? s.rows p.1 ≡ some none
last_free s p v e = free_slot s p.1 v (
    ground
      (arith, ap (occurrences p.1) (unsnoc-some s.free_list p e), occurrences-snoc p.1 p.1 p.0))

pub append-IsWf : (s : Store) (row : Row) → IsWf s → IsWf (append s row).1
unfolding append
append-IsWf s row v = elim (Option-cases (unsnoc s.free_list)) [
  | inl e ↦
      rw (e, append)
        (record {
          free = λ i. ground (
            arith,
            ap (occurrences i) (unsnoc-none s.free_list e),
            v.free i,
            get_elem?-snoc s.rows i (some row),
            out_of_bounds s.rows,
          );
          count = omega (arith, v.count, length-live_rows-snoc s.rows row);
        })
  | inr (p, e) ↦
      let slot = last_free s p v e in
      rw (e, append)
        (record {
          free = λ i. ground (
            arith,
            ap (occurrences i) (unsnoc-some s.free_list p e),
            occurrences-snoc i p.1 p.0,
            v.free i,
            get_elem?-set s.rows p.1 i (some row) (in_bounds s.rows p.1 none slot),
          );
          count = omega (arith, v.count, length-live_rows-set s.rows p.1 none (some row) slot);
        })
]

-- The slot of a row that `get` returns.
pub live_slot :
    (s : Store) (i : ℕ) (row : Row) → get s i ≡ some row → get_elem? s.rows i ≡ some (some row)
unfolding get
live_slot s i row h = ground arith

pub erase-IsWf : (s : Store) (row_id : ℕ) → IsWf s → IsWf (erase s row_id).1
unfolding erase
erase-IsWf s row_id v = elim (Option-cases (get s row_id)) [
  | inl e ↦ rw (e, erase) v
  | inr (old, e) ↦
      let slot = live_slot s row_id old e in
      rw (e, erase)
        (record {
          free = λ i. ground (
            arith,
            occurrences-snoc i row_id s.free_list,
            v.free i,
            get_elem?-set s.rows row_id i none (in_bounds s.rows row_id (some old) slot),
          );
          count = omega (arith, v.count, length-live_rows-set s.rows row_id (some old) none slot);
        })
]

pub update-IsWf : (s : Store) (row_id : ℕ) (row : Row) → IsWf s → IsWf (update s row_id row).1
unfolding update
update-IsWf s row_id row v = elim (Option-cases (get s row_id)) [
  | inl e ↦ rw (e, update) v
  | inr (old, e) ↦
      let slot = live_slot s row_id old e in
      rw (e, update)
        (record {
          free = λ i. ground (
            arith,
            v.free i,
            get_elem?-set s.rows row_id i (some row) (in_bounds s.rows row_id (some old) slot),
          );
          count =
              omega (arith, v.count, length-live_rows-set s.rows row_id (some old) (some row) slot);
        })
]

-- What `revive` does to a free slot; every other identifier is refused.
pub revive_free :
    (s : Store) (row_id : ℕ) (row : Row)
    → IsWf s
    → get_elem? s.rows row_id ≡ some none
    → revive s row_id row ≡ (
      true,
      record {
        rows = set s.rows row_id (some row);
        free_list = erase_first row_id s.free_list;
        live_count = suc s.live_count;
      },
    )
unfolding revive
revive_free s row_id row v e =
    ground (arith, any-occurrences row_id s.free_list (ground (arith, v.free row_id)))

pub revive_other :
    (s : Store) (row_id : ℕ) (row : Row)
    → get_elem? s.rows row_id ≢ some none
    → revive s row_id row ≡ (false, s)
unfolding revive
revive_other s row_id row n = ground arith

pub slot_cases :
    (s : Store) (row_id : ℕ)
    → (get_elem? s.rows row_id ≡ some none) ⊎ (get_elem? s.rows row_id ≢ some none)
slot_cases s row_id = elim (Option-cases (get_elem? s.rows row_id)) [
  | inl e ↦ inr (λ h. cc)
  | inr (slot, e) ↦ elim (Option-cases slot) [
    | inl f ↦ inl (ground arith)
    | inr (row, f) ↦ inr (λ h. cc)
  ]
]

pub revive-IsWf : (s : Store) (row_id : ℕ) (row : Row) → IsWf s → IsWf (revive s row_id row).1
revive-IsWf s row_id row v = elim (slot_cases s row_id) [
  | inr n ↦ rw (revive_other s row_id row n) v
  | inl slot ↦ rw (revive_free s row_id row v slot) (record {
    free = λ i. ground (
      arith,
      occurrences-erase_first row_id i s.free_list,
      v.free i,
      get_elem?-set s.rows row_id i (some row) (in_bounds s.rows row_id none slot),
    );
    count = omega (arith, v.count, length-live_rows-set s.rows row_id none (some row) slot);
  })
]

extend-IsWf :
    (s : Store) (row : Row)
    → IsWf s
    → IsWf (record s { rows = s.rows ++ some row ∷ []; live_count = suc s.live_count })
extend-IsWf s row v = record {
  free = λ i. ground (arith, v.free i, get_elem?-snoc s.rows i (some row), out_of_bounds s.rows);
  count = omega (arith, v.count, length-live_rows-snoc s.rows row);
}

pub upsert_at-IsWf : (s : Store) (row_id : ℕ) (row : Row) → IsWf s → IsWf (upsert_at s row_id row).1
unfolding upsert_at
upsert_at-IsWf s row_id row v = elim (Bool-cases (ltb row_id (length s.rows))) [
  | inl low ↦ elim (Bool-cases (is_some (get s row_id))) [
    | inl live ↦ rw (low, live, upsert_at) (update-IsWf s row_id row v)
    | inr dead ↦ rw (low, dead, upsert_at) (revive-IsWf s row_id row v)
  ]
  | inr high ↦ elim (Bool-cases (row_id == length s.rows)) [
    | inl next ↦ rw (high, next, upsert_at) (extend-IsWf s row v)
    | inr far ↦ rw (high, far, upsert_at) v
  ]
]

pub IsWf-empty : IsWf empty
unfolding occurrences live_rows
IsWf-empty = record { free = λ i. refl; count = refl }

append_all-IsWf : (s : Store) (rows : List Row) → IsWf s → IsWf (append_all s rows)
unfolding append_all
append_all-IsWf s [] v = v
append_all-IsWf s (row ∷ rows) v = append_all-IsWf (append s row).1 rows (append-IsWf s row v)

pub replace_rows-IsWf : (s : Store) (rows : List Row) → IsWf (replace_rows s rows)
unfolding replace_rows
replace_rows-IsWf s rows = append_all-IsWf empty rows IsWf-empty
