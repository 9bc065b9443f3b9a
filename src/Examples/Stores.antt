-- ===== src/Examples/Stores.antt =====
-- Row stores, the buffer pool, the hash index and set operations.
use vertex_db.Base.{
  ℕ, ◌-◌, ◌≡◌, refl, false, ◌||◌, none, some, List, [], ◌∷◌, ◌++◌, ◌==◌, length, if◌then◌else◌,
}
use Prim.Native.Nat.{min}
use vertex_db.Base.Int.{pos}
use vertex_db.Base.Dict.{lookup, put}
use vertex_db.Common.Value.{Row, int, null}
use vertex_db.Storage.VectorRowStore.{Store, empty, append, erase as erase_at, get}
use vertex_db.Storage.VectorRowStore.Runs.{
  Operation, appends, erases, replaces_sparse, perform_all, perform_all-IsWf, perform,
}
use vertex_db.Storage.VectorRowStore.Invariant.{IsWf}
use vertex_db.Storage.BufferPool.{BufferPool, Page, put_page, get_page, evict_loop, id_equality}
use vertex_db.Storage.BufferPool.Recency.{
  IsWf as IsWfPool, put_page-IsWf, get_page-put_page, put_page_evicts, IsWf-make,
}
use vertex_db.Indexing.HashIndex.{
  HashIndex, empty as empty_index, find, take_dirty_buckets, apply_dirty_buckets,
}
use vertex_db.Indexing.HashIndex.Redo.{
  Change, inserts, removes, change_all, apply_dirty_buckets-take_dirty_buckets,
}
use vertex_db.Execution.SetOps.{combine, union, intersect_all, except_all, contains}
use vertex_db.Execution.SetOps.Multiset.{count, count-intersect_all, count-except_all}
use vertex_db.Execution.SetOps.Distinct.{count-union}

abbrev ten : Row
ten = int (pos 10) ∷ []

abbrev twenty : Row
twenty = int (pos 20) ∷ null ∷ []

-- A layout of three slots with one row, which an append joins; a layout that names a slot twice is
-- refused; then the first row is deleted.
abbrev operations : List Operation
operations =
    replaces_sparse 3 (2 ∷ 1 ∷ []) ((0, ten) ∷ [])
    ∷ appends twenty
    ∷ replaces_sparse 2 (0 ∷ []) ((0, ten) ∷ [])
    ∷ erases 0
    ∷ []

abbrev store : Store
store = perform_all empty operations

perform_all-IsWf_example : IsWf store
perform_all-IsWf_example = perform_all-IsWf operations

store-IsWf : IsWf store
store-IsWf = perform_all-IsWf operations

second_row : get store 1 ≡ some twenty
unfolding get perform_all perform append erase_at
second_row = refl

-- A pool for one page, with a page in it
abbrev page_of : ℕ → Page
page_of n = record { id = n; bytes = n ∷ []; dirty = false }

abbrev small_pool : BufferPool
small_pool = put_page (page_of 4) (record { capacity = 1; lru = []; pages = [] })

small_pool-IsWf : IsWfPool small_pool
small_pool-IsWf =
    put_page-IsWf (page_of 4) (record { capacity = 1; lru = []; pages = [] }) (IsWf-make 0)

put_page-IsWf_example : IsWfPool (put_page (page_of 5) small_pool)
put_page-IsWf_example = put_page-IsWf (page_of 5) small_pool small_pool-IsWf

get_page-put_page_example : (get_page 5 (put_page (page_of 5) small_pool)).0 ≡ some (page_of 5)
get_page-put_page_example = get_page-put_page (page_of 5) small_pool small_pool-IsWf

new_page : lookup 5 small_pool.pages ≡ none
unfolding put_page evict_loop lookup put
new_page = refl

pool_full : length small_pool.pages ≡ small_pool.capacity
unfolding put_page evict_loop lookup put
pool_full = refl

pool_order : small_pool.lru ≡ [] ++ 4 ∷ []
unfolding put_page evict_loop lookup put
pool_order = refl

put_page_evicts_example : lookup 4 (put_page (page_of 5) small_pool).pages ≡ (
    if (page_of 5).id == 4
    then some (page_of 5)
    else if 4 == 4
    then none
    else lookup 4 small_pool.pages)
put_page_evicts_example =
    put_page_evicts (page_of 5) small_pool [] 4 4 small_pool-IsWf new_page pool_full pool_order

abbrev changes : List Change
changes = inserts (int (pos 1)) 7 ∷ inserts (int (pos 1)) 8 ∷ removes (int (pos 1)) 7 ∷ []

apply_dirty_buckets-take_dirty_buckets_example :
    find
      (apply_dirty_buckets empty_index (take_dirty_buckets (change_all empty_index changes)).0)
      (int (pos 1))
    ≡ find (change_all empty_index changes) (int (pos 1))
apply_dirty_buckets-take_dirty_buckets_example =
    apply_dirty_buckets-take_dirty_buckets empty_index changes (int (pos 1))

abbrev index : HashIndex
index = change_all empty_index changes

abbrev left_rows : List Row
left_rows = ten ∷ ten ∷ twenty ∷ []

abbrev right_rows : List Row
right_rows = ten ∷ []

count-intersect_all_example :
    count ten (combine intersect_all left_rows right_rows)
    ≡ min (count ten left_rows) (count ten right_rows)
count-intersect_all_example = count-intersect_all left_rows right_rows ten

count-except_all_example :
    count ten (combine except_all left_rows right_rows) ≡ count ten left_rows - count ten right_rows
count-except_all_example = count-except_all left_rows right_rows ten

count-union_example :
    count ten (combine union left_rows right_rows)
    ≡ (if contains left_rows ten || contains right_rows ten then 1 else 0)
count-union_example = count-union left_rows right_rows ten
