-- ===== src/Common/Value/Equal.antt =====
-- `operator==` on values is symmetric and transitive, NaN included.
use vertex_db.Base.{◌≡◌, true, arith, text_eq→eq, text_eq_refl, Equality}
use vertex_db.Base.Int.{int_eq→eq}
use vertex_db.Common.Double.{double_eq_sym, double_eq_trans}
use vertex_db.Common.Value.{
  Value, Values, null, int, double, string, parameter, composite, nil, cons, value_eq, values_eq,
}

mutual
  unfolding value_eq

  sym_value : (a b : Value) → value_eq a b ≡ true → value_eq b a ≡ true
  sym_value null null h = h
  sym_value (int a) (int b) h = ground (arith, int_eq→eq a b)
  sym_value (double a) (double b) h = double_eq_sym a b h
  sym_value (string a) (string b) h = ground (arith, text_eq→eq a b, text_eq_refl a)
  sym_value (parameter a) (parameter b) h = ground arith
  sym_value (composite a) (composite b) h = sym_values a b h
  sym_value _ _ h = cc

  sym_values : (a b : Values) → values_eq a b ≡ true → values_eq b a ≡ true
  sym_values nil nil h = h
  sym_values (cons a s) (cons b t) h = ground (arith, sym_value a b, sym_values s t)
  sym_values _ _ h = cc

mutual
  unfolding value_eq

  trans_value : (a b c : Value) → value_eq a b ≡ true → value_eq b c ≡ true → value_eq a c ≡ true
  trans_value null null c h k = k
  trans_value (int a) (int b) c h k = ground (arith, int_eq→eq a b)
  trans_value (double a) (double b) (double c) h k = double_eq_trans a b c h k
  trans_value (string a) (string b) c h k = ground (arith, text_eq→eq a b)
  trans_value (parameter a) (parameter b) c h k = ground arith
  trans_value (composite a) (composite b) (composite c) h k = trans_values a b c h k
  trans_value _ _ _ h k = cc

  trans_values :
      (a b c : Values) → values_eq a b ≡ true → values_eq b c ≡ true → values_eq a c ≡ true
  trans_values nil nil c h k = k
  trans_values (cons a s) (cons b t) (cons c u) h k =
      ground (arith, trans_value a b c, trans_values s t u)
  trans_values _ _ _ h k = cc

pub value_eq_sym : (a b : Value) → value_eq a b ≡ true → value_eq b a ≡ true
value_eq_sym = sym_value

pub value_eq_trans :
    (a b c : Value) → value_eq a b ≡ true → value_eq b c ≡ true → value_eq a c ≡ true
value_eq_trans = trans_value

instance abbrev pub value_equality : Equality Value
value_equality = record { beq = value_eq; beq_sym = value_eq_sym; beq_trans = value_eq_trans }
