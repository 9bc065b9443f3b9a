-- ===== src/Storage/VectorRowStore/Runs.antt =====
-- Any sequence of operations on a store, from an empty one.
use vertex_db.Base.{ℕ, List, [], ◌∷◌}
use vertex_db.Common.Value.{Row}
use vertex_db.Storage.VectorRowStore.{
  Store, empty, append, erase, update, revive, upsert_at, replace_rows,
}
use vertex_db.Storage.VectorRowStore.Invariant.{
  IsWf, IsWf-empty, append-IsWf, erase-IsWf, update-IsWf, revive-IsWf, upsert_at-IsWf,
  replace_rows-IsWf,
}
use vertex_db.Storage.VectorRowStore.Sparse.{replace_sparse}
use vertex_db.Storage.VectorRowStore.Sparse.Loaded.{replace_sparse-IsWf}

-- The calls that change the store
pub data Operation : Type 0 where
  appends : Row → Operation
  erases : ℕ → Operation
  updates revives upserts : ℕ → Row → Operation
  replaces : List Row → Operation
  replaces_sparse : ℕ → List ℕ → List (ℕ × Row) → Operation

unfoldable pub perform : Store → Operation → Store
unfolding append erase update revive upsert_at replace_rows replace_sparse
perform s (appends row) = (append s row).1
perform s (erases row_id) = (erase s row_id).1
perform s (updates row_id row) = (update s row_id row).1
perform s (revives row_id row) = (revive s row_id row).1
perform s (upserts row_id row) = (upsert_at s row_id row).1
perform s (replaces rows) = replace_rows s rows
perform s (replaces_sparse capacity free_list entries) =
    (replace_sparse s capacity free_list entries).1

unfoldable pub perform_all : Store → List Operation → Store
unfolding perform
perform_all s [] = s
perform_all s (operation ∷ rest) = perform_all (perform s operation) rest

perform-IsWf : (s : Store) (operation : Operation) → IsWf s → IsWf (perform s operation)
unfolding perform
perform-IsWf s (appends row) v = append-IsWf s row v
perform-IsWf s (erases row_id) v = erase-IsWf s row_id v
perform-IsWf s (updates row_id row) v = update-IsWf s row_id row v
perform-IsWf s (revives row_id row) v = revive-IsWf s row_id row v
perform-IsWf s (upserts row_id row) v = upsert_at-IsWf s row_id row v
perform-IsWf s (replaces rows) v = replace_rows-IsWf s rows
perform-IsWf s (replaces_sparse capacity free_list entries) v =
    replace_sparse-IsWf s capacity free_list entries v

performed-IsWf :
    (s : Store) (operations : List Operation) → IsWf s → IsWf (perform_all s operations)
unfolding perform_all
performed-IsWf s [] v = v
performed-IsWf s (operation ∷ rest) v =
    performed-IsWf (perform s operation) rest (perform-IsWf s operation v)

-- After any sequence of appends, erasures, updates, revivals, upserts, replacements of all rows and
-- loadings of a sparse layout, refused ones included, on an empty store, the free list names exactly
-- the slots without a row, each once, and the counter of live rows is right.
pub perform_all-IsWf : (operations : List Operation) → IsWf (perform_all empty operations)
perform_all-IsWf operations = performed-IsWf empty operations IsWf-empty
