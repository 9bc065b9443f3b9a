-- ===== src/Execution/SetOps/Multiset.antt =====
-- The ALL operations are those of multisets: they add, take the least, and subtract how often each
-- row stands in the results.
use Prim.Native.Nat.{min}
use vertex_db.Base.{
  ℕ, suc, ℕ-cases, ◌+◌, ◌-◌, ◌≡◌, ◌∙◌, true, List, [], ◌∷◌, ◌++◌, arith, if◌then◌else◌, inl, inr,
}
use vertex_db.Base.Dict.{lookup, put, lookup-put, lookup_same}
use vertex_db.Common.Value.{Row}
use vertex_db.Execution.SetOps.{
  Counts, count_in, count_rows, intersect_all_loop, except_all_loop, combine, union_all,
  intersect_all, except_all,
}
use vertex_db.Execution.SetOps.Rows.{row_eq, row_equality}

-- How many rows are equal to the row.
unfoldable pub count : Row → List Row → ℕ
count row [] = 0
count row (r ∷ rows) = if row_eq r row then suc (count row rows) else count row rows

count-append : (row : Row) (xs ys : List Row) → count row (xs ++ ys) ≡ count row xs + count row ys
unfolding count
count-append row [] ys = omega arith
count-append row (x ∷ xs) ys = ground (arith, count-append row xs ys)

-- Equal rows have one entry.
count_in_same :
    (counts : Counts) (r row : Row) → row_eq r row ≡ true → count_in counts r ≡ count_in counts row
count_in_same counts r row h = ground (arith, lookup_same r row counts h)

count_in-put :
    (counts : Counts) (r row : Row) (n : ℕ)
    → count_in (put r n counts) row ≡ (if row_eq r row then n else count_in counts row)
count_in-put counts r row n = ground (arith, lookup-put r row n counts)

count_in-count_rows :
    (counts : Counts) (rows : List Row) (row : Row)
    → count_in (count_rows counts rows) row ≡ count_in counts row + count row rows
unfolding count_rows count
count_in-count_rows counts [] row = omega arith
count_in-count_rows counts (r ∷ rows) row = ground (
  arith,
  count_in-count_rows (put r (suc (count_in counts r)) counts) rows row,
  count_in-put counts r row (suc (count_in counts r)),
  count_in_same counts r row,
)

count-intersect_all_loop :
    (counts : Counts) (rows : List Row) (row : Row)
    → count row (intersect_all_loop counts rows) ≡ min (count row rows) (count_in counts row)
unfolding intersect_all_loop count
count-intersect_all_loop counts [] row = omega arith
count-intersect_all_loop counts (r ∷ rows) row = elim (ℕ-cases (count_in counts r)) [
  | inl e ↦
      rw (e, intersect_all_loop)
        (ground (arith, count-intersect_all_loop counts rows row, count_in_same counts r row))
  | inr (n, e) ↦
      rw (e, intersect_all_loop)
        (ground (
          arith,
          count-intersect_all_loop (put r n counts) rows row,
          count_in-put counts r row n,
          count_in_same counts r row,
        ))
]

count-except_all_loop :
    (counts : Counts) (rows : List Row) (row : Row)
    → count row (except_all_loop counts rows) ≡ count row rows - count_in counts row
unfolding except_all_loop count
count-except_all_loop counts [] row = omega arith
count-except_all_loop counts (r ∷ rows) row = elim (ℕ-cases (count_in counts r)) [
  | inl e ↦
      rw (e, except_all_loop)
        (ground (arith, count-except_all_loop counts rows row, count_in_same counts r row))
  | inr (n, e) ↦
      rw (e, except_all_loop)
        (ground (
          arith,
          count-except_all_loop (put r n counts) rows row,
          count_in-put counts r row n,
          count_in_same counts r row,
        ))
]

-- UNION ALL keeps every copy of both sides.
pub count-union_all :
    (left right : List Row) (row : Row)
    → count row (combine union_all left right) ≡ count row left + count row right
unfolding combine
count-union_all left right row = count-append row left right

counted : (rows : List Row) (row : Row) → count_in (count_rows [] rows) row ≡ count row rows
counted rows row = count_in-count_rows [] rows row ∙ unfold lookup in omega arith

-- INTERSECT ALL keeps of each row the lesser number of copies.
pub count-intersect_all :
    (left right : List Row) (row : Row)
    → count row (combine intersect_all left right) ≡ min (count row left) (count row right)
unfolding combine
count-intersect_all left right row =
    omega (arith, count-intersect_all_loop (count_rows [] right) left row, counted right row)

-- EXCEPT ALL takes away as many copies of each row as the right side has.
pub count-except_all :
    (left right : List Row) (row : Row)
    → count row (combine except_all left right) ≡ count row left - count row right
unfolding combine
count-except_all left right row =
    omega (arith, count-except_all_loop (count_rows [] right) left row, counted right row)
