-- ===== src/Common/Value.antt =====
-- common/value.hpp and common/value.cpp: the variant of SQL values, its equality and its order.
-- `int` holds an int64_t and `double` a pattern of 64 bits; a text is its bytes.
pub mod TypeNames
pub mod Equal
pub mod Order
use vertex_db.Base.{
  ℕ, Text, ◌≡◌, Bool, true, false, ◌&&◌, ◌||◌, Option, none, some, List, [], ◌∷◌, ltb, ◌==◌,
  if◌then◌else◌, text_eq,
}
use vertex_db.Base.Int.{ℤ, int_eq, int_lt}
use vertex_db.Common.Double.{double_eq, double_lt}

pub data ColumnType : Type 0 where
  int_type double_type string_type : ColumnType

mutual
  pub data Value : Type 0 where
    null : Value
    int : ℤ → Value
    double : ℕ → Value
    string : Text → Value
    parameter : ℕ → Value
    composite : Values → Value

  -- `std::vector<Value>` of the parts of a composite key
  pub data Values : Type 0 where
    nil : Values
    cons : Value → Values → Values

-- Value::composite, which throws for no parts and does not wrap a single part
unfoldable pub make_composite : Values → Option Value
make_composite nil = none
make_composite (cons v nil) = some v
make_composite (cons v (cons w vs)) = some (composite (cons v (cons w vs)))

-- Value::type, which throws for NULL, a parameter slot and a composite
unfoldable pub type_of : Value → Option ColumnType
type_of (int i) = some int_type
type_of (double d) = some double_type
type_of (string s) = some string_type
type_of _ = none

abbrev pub is_null : Value → Bool
is_null null = true
is_null _ = false

abbrev pub is_parameter : Value → Bool
is_parameter (parameter i) = true
is_parameter _ = false

abbrev pub is_composite : Value → Bool
is_composite (composite vs) = true
is_composite _ = false

-- `data_.index()`: the position of the alternative in the variant
abbrev pub index : Value → ℕ
index null = 0
index (int i) = 1
index (double d) = 2
index (string s) = 3
index (parameter i) = 4
index (composite vs) = 5

-- A part is NULL, or holds one.
unfoldable mutual
  pub has_null_composite_part : Value → Bool
  has_null_composite_part null = true
  has_null_composite_part (int i) = false
  has_null_composite_part (double d) = false
  has_null_composite_part (string s) = false
  has_null_composite_part (parameter i) = false
  has_null_composite_part (composite vs) = has_null_part vs

  pub has_null_part : Values → Bool
  has_null_part nil = false
  has_null_part (cons v vs) = has_null_composite_part v || has_null_part vs

-- operator==
unfoldable mutual
  pub value_eq : Value → Value → Bool
  value_eq null null = true
  value_eq (int a) (int b) = int_eq a b
  value_eq (double a) (double b) = double_eq a b
  value_eq (string a) (string b) = text_eq a b
  value_eq (parameter a) (parameter b) = a == b
  value_eq (composite a) (composite b) = values_eq a b
  value_eq _ _ = false

  pub values_eq : Values → Values → Bool
  values_eq nil nil = true
  values_eq (cons a s) (cons b t) = value_eq a b && values_eq s t
  values_eq _ _ = false

-- `std::string` compares bytes
unfoldable pub text_lt : Text → Text → Bool
text_lt [] [] = false
text_lt [] (b ∷ t) = true
text_lt (a ∷ s) [] = false
text_lt (a ∷ s) (b ∷ t) =
    let rest = text_lt s t in if ltb a b then true else if ltb b a then false else rest

-- operator<. Two composites compare as vectors, lexicographically; a NULL, a parameter slot or one
-- composite compares by the variant's index, and so do two of the other types, whose indices stand
-- in the order of `ColumnType`.
unfoldable mutual
  pub value_lt : Value → Value → Bool
  value_lt (int a) (int b) = int_lt a b
  value_lt (double a) (double b) = double_lt a b
  value_lt (string a) (string b) = text_lt a b
  value_lt (composite a) (composite b) = values_lt a b
  value_lt null b = ltb 0 (index b)
  value_lt (int a) b = ltb 1 (index b)
  value_lt (double a) b = ltb 2 (index b)
  value_lt (string a) b = ltb 3 (index b)
  value_lt (parameter a) b = ltb 4 (index b)
  value_lt (composite a) b = ltb 5 (index b)

  -- std::lexicographical_compare: the second test is the first with its sides exchanged
  pub values_lt : Values → Values → Bool
  values_lt nil nil = false
  values_lt nil (cons b t) = true
  values_lt (cons a s) nil = false
  values_lt (cons a s) (cons b t) =
      if value_lt a b then true else if value_gt a b then false else values_lt s t

  -- `b < a`, by recursion on `a`
  pub value_gt : Value → Value → Bool
  value_gt (int a) (int b) = int_lt b a
  value_gt (double a) (double b) = double_lt b a
  value_gt (string a) (string b) = text_lt b a
  value_gt (composite a) (composite b) = values_gt a b
  value_gt null b = ltb (index b) 0
  value_gt (int a) b = ltb (index b) 1
  value_gt (double a) b = ltb (index b) 2
  value_gt (string a) b = ltb (index b) 3
  value_gt (parameter a) b = ltb (index b) 4
  value_gt (composite a) b = ltb (index b) 5

  pub values_gt : Values → Values → Bool
  values_gt nil nil = false
  values_gt nil (cons b t) = false
  values_gt (cons a s) nil = true
  values_gt (cons a s) (cons b t) =
      if value_gt a b then true else if value_lt a b then false else values_gt s t

-- common/comparison_operator.hpp, and `compareCell`, which transaction_manager.cpp and
-- check_eval.cpp both write
pub data ComparisonOperator : Type 0 where
  equal greater less : ComparisonOperator

unfoldable pub compare_cell : Value → ComparisonOperator → Value → Bool
compare_cell left equal right = value_eq left right
compare_cell left greater right = value_lt right left
compare_cell left less right = value_lt left right

-- storage/row.hpp
abbrev pub Row : Type 0
Row = List Value
