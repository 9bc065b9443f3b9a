-- ===== src/Transactions/Conflict.antt =====
-- transaction/transaction_manager.cpp: conflict keys, sets of keys, and predicates against inserts.
pub mod Keys
use vertex_db.Base.{
  ℕ, zero, suc, ◌+◌, ◌/◌, ◌%◌, Text, text_eq, Bool, true, false, not, Option, none, some, List, [],
  ◌∷◌, ◌++◌, ltb, leb, if◌then◌else◌, any, length,
}
use vertex_db.Common.Value.{Value, null, string, ComparisonOperator, compare_cell}
use vertex_db.Common.LikePattern.{match_like_pattern, is_empty}

-- std::to_string on an unsigned number: decimal digits, the most significant first. The fuel is
-- one more than the number, which has at most as many digits.
to_digits : ℕ → ℕ → Text
to_digits zero n = []
to_digits (suc fuel) n =
    let front = to_digits fuel (n / 10) in
    if ltb n 10 then (48 + n) ∷ [] else front ++ (48 + n % 10) ∷ []

unfoldable pub to_string : ℕ → Text
unfolding to_digits
to_string n = to_digits (suc n) n

-- TransactionManager::conflictKey: the relation, a zero byte, the row id
unfoldable pub conflict_key : Text → ℕ → Text
unfolding to_string
conflict_key relation row_id = relation ++ 0 ∷ to_string row_id

-- std::unordered_set<ConflictKey>: a list without repeats
abbrev pub contains_key : List Text → Text → Bool
contains_key keys key = any (λ k. text_eq k key) keys

unfoldable pub insert_key : Text → List Text → List Text
insert_key key keys = if contains_key keys key then keys else key ∷ keys

-- Two lists are swapped if the right one is shorter; the first test of the code returns what the
-- loop over an empty set returns.
unfoldable pub intersects : List Text → List Text → Bool
intersects left right =
    if leb (length left) (length right)
    then any (contains_key right) left
    else any (contains_key left) right

pub record SsiPredicate : Type 0 where
  pub relation : Text
  pub column : Text
  pub op : Option ComparisonOperator
  pub value : Option Value
  pub like_pattern : Option Text

pub record SsiInsert : Type 0 where
  pub relation : Text
  pub columns : List (Text × Value)

-- The cell of the predicate's column. Of a cell that is neither NULL nor a typed value `type()`
-- would throw; `Table::validateRow` keeps such cells out of the rows whose images stand here.
unfoldable pub cell_matches : Value → SsiPredicate → Bool
cell_matches v p = elim p.like_pattern [
  | some pattern ↦ elim v [ string s ↦ match_like_pattern s pattern | _ ↦ false ]
  | none ↦ elim p.op [
    | none ↦ true
    | some op ↦ elim p.value [ none ↦ true | some right ↦ compare_cell v op right ]
  ]
]

-- The loop stops at the first column of that name.
unfoldable pub columns_match : List (Text × Value) → SsiPredicate → Bool
unfolding cell_matches
columns_match [] p = false
columns_match ((name, v) ∷ columns) p =
    if not (text_eq name p.column) then columns_match columns p else cell_matches v p

-- insertMatchesPredicate
unfoldable pub insert_matches_predicate : SsiInsert → SsiPredicate → Bool
unfolding columns_match
insert_matches_predicate i p =
    if not (text_eq i.relation p.relation)
    then false
    else if is_empty p.column
    then true
    else columns_match i.columns p

-- TransactionManager::predicateConflictsWithInserts
unfoldable pub predicate_conflicts_with_inserts : List SsiPredicate → List SsiInsert → Bool
unfolding insert_matches_predicate
predicate_conflicts_with_inserts predicates inserts =
    any (λ p. any (λ i. insert_matches_predicate i p) inserts) predicates
