-- ===== src/Transactions/UndoLog.antt =====
-- transaction/undo_log.hpp and .cpp: the log of compensating actions. Its own operations read the
-- two table names of a record only; `rest` is the remaining fields, which they carry along.
use vertex_db.Base.{
  Text, Bool-cases, inl, inr, text_eq, text_eq_refl, text_eq→eq, ◌≡◌, ◌≢◌, refl, Option, none, some,
  List, [], ◌∷◌, arith, if◌then◌else◌,
}

pub record UndoRecord {ℓ} (Rest : Type ℓ) : Type ℓ where
  pub table_name : Text
  pub rename_to : Text
  pub rest : Rest

unfoldable pub rename_in : Text → Text → Text → Text
rename_in old_name new_name name = if text_eq name old_name then new_name else name

module _ {ℓ} {Rest : Type ℓ} where
  -- UndoLog::push; the head of the list is the back of the vector
  unfoldable pub push : UndoRecord Rest → List (UndoRecord Rest) → List (UndoRecord Rest)
  push r log = r ∷ log

  -- UndoLog::pop
  unfoldable pub pop : List (UndoRecord Rest) → Option (UndoRecord Rest) × List (UndoRecord Rest)
  pop [] = (none, [])
  pop (r ∷ log) = (some r, log)

  abbrev pub rename_record : Text → Text → UndoRecord Rest → UndoRecord Rest
  rename_record old_name new_name r = record r {
    table_name = rename_in old_name new_name r.table_name;
    rename_to = rename_in old_name new_name r.rename_to;
  }

  -- UndoLog::rewriteTableName
  unfoldable pub rewrite_table_name : Text → Text → List (UndoRecord Rest) → List (UndoRecord Rest)
  unfolding rename_in
  rewrite_table_name old_name new_name [] = []
  rewrite_table_name old_name new_name (r ∷ log) =
      rename_record old_name new_name r ∷ rewrite_table_name old_name new_name log

  -- No record of the log names the table.
  abbrev pub Unnamed : Text → List (UndoRecord Rest) → Type 0
  Unnamed name [] = Unit
  Unnamed name (r ∷ log) = (r.table_name ≢ name) × (r.rename_to ≢ name) × Unnamed name log

rename_in-ne :
    (old_name new_name name : Text)
    → old_name ≢ new_name
    → rename_in old_name new_name name ≢ old_name
unfolding rename_in
rename_in-ne old_name new_name name n e = elim (Bool-cases (text_eq name old_name)) [
  | inl h ↦ n (ground arith)
  | inr h ↦ absurd (ground (arith, text_eq_refl name))
]

rename_back :
    (old_name new_name name : Text)
    → name ≢ new_name
    → rename_in new_name old_name (rename_in old_name new_name name) ≡ name
unfolding rename_in
rename_back old_name new_name name n =
    ground (arith, text_eq→eq name old_name, text_eq→eq name new_name, text_eq_refl new_name)

module _ {ℓ} {Rest : Type ℓ} (old_name new_name : Text) where
  -- After a table is renamed to another name, no record names the table by its old name.
  pub rewrite_table_name-Unnamed :
      (log : List (UndoRecord Rest))
      → old_name ≢ new_name
      → Unnamed old_name (rewrite_table_name old_name new_name log)
  unfolding rewrite_table_name
  rewrite_table_name-Unnamed [] n = tt
  rewrite_table_name-Unnamed (r ∷ log) n = (
    rename_in-ne old_name new_name r.table_name n,
    rename_in-ne old_name new_name r.rename_to n,
    rewrite_table_name-Unnamed log n,
  )

  -- Renaming back restores the log, if no record named the new name.
  pub rewrite_table_name_back :
      (log : List (UndoRecord Rest))
      → Unnamed new_name log
      → rewrite_table_name new_name old_name (rewrite_table_name old_name new_name log) ≡ log
  unfolding rewrite_table_name
  rewrite_table_name_back [] h = refl
  rewrite_table_name_back (r ∷ log) h = ground (
    arith,
    rename_back old_name new_name r.table_name h.0,
    rename_back old_name new_name r.rename_to h.1,
    rewrite_table_name_back log h.2,
  )

  -- A record that is popped after the renaming is the renamed record that was pushed last.
  pub pop-rewrite_table_name :
      (r : UndoRecord Rest) (log : List (UndoRecord Rest))
      → pop (rewrite_table_name old_name new_name (push r log))
        ≡ (some (rename_record old_name new_name r), rewrite_table_name old_name new_name log)
  unfolding pop push rewrite_table_name
  pop-rewrite_table_name r log = refl
