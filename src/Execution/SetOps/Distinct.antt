-- ===== src/Execution/SetOps/Distinct.antt =====
-- The operations without ALL: each row that belongs to the result stands in it once.
use vertex_db.Base.{
  ◌≡◌, refl, Bool, true, false, not, ◌&&◌, ◌||◌, List, [], ◌∷◌, ◌++◌, arith, if◌then◌else◌,
  Bool-cases, inl, inr, any-append,
}
use vertex_db.Common.Value.{Row}
use vertex_db.Execution.SetOps.{
  contains, dedup_loop, deduplicate_rows, filter_loop, combine, union, intersect, except,
}
use vertex_db.Execution.SetOps.Rows.{row_eq, row_eq_sym, row_eq_trans}
use vertex_db.Execution.SetOps.Multiset.{count}

-- A set has equal rows together or not at all.
contains_same :
    (set : List Row) (r row : Row) → row_eq r row ≡ true → contains set r ≡ contains set row
contains_same [] r row h = refl
contains_same (x ∷ set) r row h = ground (
  arith,
  contains_same set r row h,
  row_eq_trans x r row,
  row_eq_sym r row h,
  row_eq_trans x row r,
)

-- What the loop emits: no row of `seen`, and each other row once.
count-dedup_loop :
    (seen rows : List Row) (row : Row)
    → count row (dedup_loop seen rows)
      ≡ (if contains seen row then 0 else if contains rows row then 1 else 0)
unfolding dedup_loop count
count-dedup_loop seen [] row = ground arith
count-dedup_loop seen (r ∷ rows) row = elim (Bool-cases (contains seen r)) [
  | inl old ↦
      rw (old, dedup_loop)
        (ground (arith, count-dedup_loop seen rows row, contains_same seen r row))
  | inr new ↦
      rw (new, dedup_loop)
        (ground (arith, count-dedup_loop (r ∷ seen) rows row, contains_same seen r row))
]

-- UNION holds each row of either side once.
pub count-union :
    (left right : List Row) (row : Row)
    → count row (combine union left right)
      ≡ (if contains left row || contains right row then 1 else 0)
unfolding combine deduplicate_rows
count-union left right row = ground (
  arith,
  count-dedup_loop [] (left ++ right) row,
  any-append (λ (r : Row). row_eq r row) left right,
)

count-filter_loop :
    (wanted : Bool) (right emitted rows : List Row) (row : Row)
    → count row (filter_loop wanted right emitted rows) ≡ (
        if contains emitted row || not (contains rows row)
        then 0
        else if (if wanted then contains right row else not (contains right row))
        then 1
        else 0)
unfolding filter_loop count
count-filter_loop wanted right emitted [] row = ground arith
count-filter_loop wanted right emitted (r ∷ rows) row = ground (
  arith,
  count-filter_loop wanted right emitted rows row,
  count-filter_loop wanted right (r ∷ emitted) rows row,
  contains_same emitted r row,
  contains_same right r row,
)

-- INTERSECT holds each row of both sides once.
pub count-intersect :
    (left right : List Row) (row : Row)
    → count row (combine intersect left right)
      ≡ (if contains left row && contains right row then 1 else 0)
unfolding combine
count-intersect left right row = ground (arith, count-filter_loop true right [] left row)

-- EXCEPT holds each row of the left side that the right side has not, once.
pub count-except :
    (left right : List Row) (row : Row)
    → count row (combine except left right)
      ≡ (if contains left row && not (contains right row) then 1 else 0)
unfolding combine
count-except left right row = ground (arith, count-filter_loop false right [] left row)
