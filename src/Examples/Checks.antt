-- ===== src/Examples/Checks.antt =====
-- CHECK (a > 1 OR b = 0) on rows of two columns
use vertex_db.Base.{
  ℕ, ◌≡◌, ◌≢◌, refl, true, false, Option, none, some, [], ◌∷◌, Text, text_eq, inl, inr,
  if◌then◌else◌, arith,
}
use vertex_db.Base.Int.{pos}
use vertex_db.Common.Value.{null, int, equal, greater, Row, compare_cell, value_eq, value_lt}
use vertex_db.Storage.CheckEval.{
  Predicate, comparison, either, TriBool, truth, unknown, cell, compare_tri, eval_check_tri,
  assert_simple_check_constraint,
}
use vertex_db.Storage.CheckEval.Kleene.{rank, Resolves, meaning, eval_check_tri-meaning}
use vertex_db.Storage.CheckEval.Nulls.{FillsIn, eval_check_tri_filled}

abbrev columns : Text → Option ℕ
columns name =
    if text_eq name (97 ∷ []) then some 0 else if text_eq name (98 ∷ []) then some 1 else none

abbrev positive : Predicate Unit Unit
positive =
    either
      (comparison (record {
        column = 97 ∷ [];
        op = greater;
        value = int (pos 1);
        rhs_column = none;
        expression = none;
        references_outer = false;
      }))
      (comparison (record {
        column = 98 ∷ [];
        op = equal;
        value = int (pos 0);
        rhs_column = none;
        expression = none;
        references_outer = false;
      }))

abbrev half_known : Row
half_known = int (pos 2) ∷ null ∷ []

abbrev known : Row
known = int (pos 2) ∷ int (pos 5) ∷ []

positive_simple : assert_simple_check_constraint positive ≡ true
unfolding assert_simple_check_constraint
positive_simple = refl

half_known-Resolves : Resolves columns positive half_known
unfolding Resolves cell text_eq
half_known-Resolves = ((refl, tt), (refl, tt))

half_known_true : eval_check_tri columns positive half_known ≡ some truth
unfolding eval_check_tri compare_tri cell text_eq compare_cell value_lt value_eq
half_known_true = refl

eval_check_tri-meaning_example :
    (t : TriBool) × (eval_check_tri columns positive half_known ≡ some t)
    × (rank t ≡ meaning columns positive half_known)
eval_check_tri-meaning_example =
    eval_check_tri-meaning columns positive half_known positive_simple half_known-Resolves

truth_known : truth ≢ unknown
truth_known h = ground (arith, h)

half_known-FillsIn : FillsIn half_known known
half_known-FillsIn = (inr refl, (inl refl, tt))

eval_check_tri_filled_example : eval_check_tri columns positive known ≡ some truth
eval_check_tri_filled_example =
    eval_check_tri_filled columns positive half_known known truth positive_simple
      half_known-Resolves half_known-FillsIn half_known_true truth_known
