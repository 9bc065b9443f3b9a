-- ===== src/Common/Value/Order.antt =====
-- `operator<` on values. `value_gt` is `operator<` with its sides exchanged, no value is below
-- itself, and of two values at most one is below the other.
use vertex_db.Base.{◌≡◌, refl, sym, ◌∙◌, true, false, arith, Text, [], ◌∷◌}
use vertex_db.Common.Double.{double_lt_asym}
use vertex_db.Common.Value.{
  Value, Values, null, int, double, string, parameter, composite, nil, cons, value_lt, values_lt,
  value_gt, values_gt, text_lt,
}

text_lt_asym : (s t : Text) → text_lt s t ≡ true → text_lt t s ≡ false
unfolding text_lt
text_lt_asym [] [] h = cc
text_lt_asym [] (b ∷ t) h = refl
text_lt_asym (a ∷ s) [] h = cc
text_lt_asym (a ∷ s) (b ∷ t) h = ground (arith, text_lt_asym s t)

mutual
  unfolding value_lt

  flip_value : (a b : Value) → value_gt a b ≡ value_lt b a
  flip_value null null = refl
  flip_value null _ = refl
  flip_value (int a) null = refl
  flip_value (int a) _ = refl
  flip_value (double a) null = refl
  flip_value (double a) _ = refl
  flip_value (string a) null = refl
  flip_value (string a) _ = refl
  flip_value (parameter a) null = refl
  flip_value (parameter a) _ = refl
  flip_value (composite a) (composite b) = flip_values a b
  flip_value (composite a) _ = refl

  flip_values : (a b : Values) → values_gt a b ≡ values_lt b a
  flip_values nil nil = refl
  flip_values nil (cons b t) = refl
  flip_values (cons a s) nil = refl
  flip_values (cons a s) (cons b t) =
      ground (arith, flip_value a b, flip_values s t, unflip_value a b)

  unflip_value : (a b : Value) → value_lt a b ≡ value_gt b a
  unflip_value null null = refl
  unflip_value null _ = refl
  unflip_value (int a) null = refl
  unflip_value (int a) _ = refl
  unflip_value (double a) null = refl
  unflip_value (double a) _ = refl
  unflip_value (string a) null = refl
  unflip_value (string a) _ = refl
  unflip_value (parameter a) null = refl
  unflip_value (parameter a) _ = refl
  unflip_value (composite a) (composite b) = unflip_values a b
  unflip_value (composite a) _ = refl

  unflip_values : (a b : Values) → values_lt a b ≡ values_gt b a
  unflip_values nil nil = refl
  unflip_values nil (cons b t) = refl
  unflip_values (cons a s) nil = refl
  unflip_values (cons a s) (cons b t) =
      ground (arith, unflip_value a b, unflip_values s t, flip_value a b)

pub value_gt_lem : (a b : Value) → value_gt a b ≡ value_lt b a
value_gt_lem = flip_value

mutual
  unfolding value_lt

  asym_value : (a b : Value) → value_lt a b ≡ true → value_gt a b ≡ false
  asym_value null null h = cc
  asym_value null _ h = ground arith
  asym_value (int a) (int b) h = ground arith
  asym_value (int a) _ h = ground arith
  asym_value (double a) (double b) h = double_lt_asym a b h
  asym_value (double a) _ h = ground arith
  asym_value (string a) (string b) h = text_lt_asym a b h
  asym_value (string a) _ h = ground arith
  asym_value (parameter a) null h = ground arith
  asym_value (parameter a) _ h = ground arith
  asym_value (composite a) (composite b) h = asym_values a b h
  asym_value (composite a) _ h = ground arith

  asym_values : (a b : Values) → values_lt a b ≡ true → values_gt a b ≡ false
  asym_values nil nil h = cc
  asym_values nil (cons b t) h = refl
  asym_values (cons a s) nil h = cc
  asym_values (cons a s) (cons b t) h = ground (arith, asym_value a b, asym_values s t)

-- Of two values at most one is below the other; so no value is below itself.
pub value_lt_asym : (a b : Value) → value_lt a b ≡ true → value_lt b a ≡ false
value_lt_asym a b h = sym (value_gt_lem a b) ∙ asym_value a b h
