-- ===== src/Storage/CheckEval.antt =====
-- parser/predicate.hpp and storage/check_eval.cpp: predicates, and the evaluation of those of CHECK
-- constraints. The types of subqueries and of expressions are parameters, since CHECK refuses both
-- without looking into them. A throw is `none`, and so is a column past the end of a row.
pub mod Nulls
pub mod Kleene
use vertex_db.Base.{
  ℕ, Bool, true, false, not, ◌&&◌, Option, none, some, List, Text, get_elem?, is_some,
  if◌then◌else◌,
}
use vertex_db.Common.Value.{Value, is_null, is_parameter, ComparisonOperator, compare_cell, Row}

-- struct ComparisonPred
pub record ComparisonPred (X : Type 0) : Type 0 where
  pub column : Text
  pub op : ComparisonOperator
  pub value : Value
  pub rhs_column : Option Text
  pub expression : Option X
  pub references_outer : Bool

-- struct Predicate, with the structs of its variants
pub data Predicate (S X : Type 0) : Type 0 where
  comparison : ComparisonPred X → Predicate S X
  both : Predicate S X → Predicate S X → Predicate S X
  either : Predicate S X → Predicate S X → Predicate S X
  in_list : Text → List Value → Option X → Bool → Predicate S X
  in_subquery : Text → S → Bool → Predicate S X
  exists : S → Bool → Predicate S X
  like : Text → Text → Bool → Predicate S X
  regex : Text → Text → Bool → Predicate S X

-- enum class TriBool
pub data TriBool : Type 0 where
  falsity truth unknown : TriBool

infixl 5 ◌>>=◌
abbrev pub ◌>>=◌ {ℓ κ} : {A : Type ℓ} {B : Type κ} → Option A → (A → Option B) → Option B
none >>= f = none
some a >>= f = f a

abbrev pub tri_of : Bool → TriBool
tri_of true = truth
tri_of false = falsity

module _ (lookup : Text → Option ℕ) where
  -- A column of the row
  unfoldable pub cell : Row → Text → Option Value
  cell row column = do i ← lookup column; get_elem? row i

  unfoldable pub compare_tri : {X : Type 0} → ComparisonPred X → Row → Option TriBool
  unfolding cell compare_cell
  compare_tri p row = if is_some p.expression then none else do
    left ← cell row p.column
    if is_null left then some unknown else elim p.rhs_column [
      | some column ↦ do
        right ← cell row column
        if is_null right then some unknown else some (tri_of (compare_cell left p.op right))
      | none ↦
          if is_null p.value then some unknown else some (tri_of (compare_cell left p.op p.value))
    ]

  -- evalCheckTri
  unfoldable pub eval_check_tri : {S X : Type 0} → Predicate S X → Row → Option TriBool
  unfolding compare_tri
  eval_check_tri (comparison p) row = compare_tri p row
  eval_check_tri (both l r) row = do
    left ← eval_check_tri l row
    let right = eval_check_tri r row
    elim left [
      | falsity ↦ some falsity
      | truth ↦ right
      | unknown ↦ do t ← right; elim t [ falsity ↦ some falsity | _ ↦ some unknown ]
    ]
  eval_check_tri (either l r) row = do
    left ← eval_check_tri l row
    let right = eval_check_tri r row
    elim left [
      | truth ↦ some truth
      | falsity ↦ right
      | unknown ↦ do t ← right; elim t [ truth ↦ some truth | _ ↦ some unknown ]
    ]
  eval_check_tri _ row = none

  -- evalCheckPredicate
  unfoldable pub eval_check_predicate : {S X : Type 0} → Predicate S X → Row → Option Bool
  unfolding eval_check_tri
  eval_check_predicate p row = do
    t ← eval_check_tri p row
    some (elim t [ falsity ↦ false | _ ↦ true ])

-- assertSimpleCheckConstraint: whether it returns
unfoldable pub assert_simple_check_constraint : {S X : Type 0} → Predicate S X → Bool
assert_simple_check_constraint (comparison p) =
    not (is_some p.expression)
    && not (p.references_outer)
    && not (not (is_some p.rhs_column) && is_parameter p.value)
assert_simple_check_constraint (both l r) =
    assert_simple_check_constraint l && assert_simple_check_constraint r
assert_simple_check_constraint (either l r) =
    assert_simple_check_constraint l && assert_simple_check_constraint r
assert_simple_check_constraint _ = false
