-- ===== src/Indexing/KeyOrder/Values.antt =====
-- `operator<` and `operator==` of the values that indexes have as keys: values other than NaN and
-- parameter slots, composites of such values included.
use vertex_db.Base.{
  ◌≡◌, ◌<◌, refl, ap, ◌∙◌, Bool, true, false, not, ◌&&◌, arith, Text, [], ◌∷◌, if◌then◌else◌,
  text_eq, ℕ,
}
use vertex_db.Base.Int.{ℤ, pos, negsuc, int_eq, int_lt}
use vertex_db.Common.Double.{is_nan, double_lt, double_eq}
use vertex_db.Common.Value.{
  Value, Values, int, double, string, parameter, composite, nil, cons, value_lt, values_lt,
  value_gt, values_gt, value_eq, values_eq, text_lt,
}
use vertex_db.Common.Value.Order.{value_gt_lem, value_lt_asym}
use vertex_db.Indexing.KeyOrder.{Comparison, IsStrictWeak}

-- `a < b`, `a > b` and so on between three values, as a strict weak order has them
abbrev Consistent : Bool → Bool → Bool → Bool → Bool → Bool → Type 0
Consistent ab ba bd db ad da =
    (ab ≡ false → bd ≡ false → ad ≡ false)
    × (ba ≡ false → ad ≡ false → bd ≡ false)
    × (ad ≡ false → db ≡ false → ab ≡ false)
    × (da ≡ false → ab ≡ false → db ≡ false)
    × (bd ≡ false → da ≡ false → ba ≡ false)
    × (db ≡ false → ba ≡ false → da ≡ false)

-- The lexicographic order of two lists from their heads and their tails
abbrev lex : Bool → Bool → Bool → Bool
lex ab ba rest = if ab then true else if ba then false else rest

lex_trans :
    (ab ba bd db ad da s t u : Bool)
    → Consistent ab ba bd db ad da
    → (s ≡ false → t ≡ false → u ≡ false)
    → lex ab ba s ≡ false
    → lex bd db t ≡ false
    → lex ad da u ≡ false
lex_trans ab ba bd db ad da s t u c r h k = ground (arith, c.0, c.1, c.2, c.3, c.4, c.5)

lex-Consistent :
    (ab ba bd db ad da : Bool) (st ts tu ut su us : Bool)
    → Consistent ab ba bd db ad da
    → Consistent st ts tu ut su us
    → Consistent
        (lex ab ba st)
        (lex ba ab ts)
        (lex bd db tu)
        (lex db bd ut)
        (lex ad da su)
        (lex da ad us)
lex-Consistent ab ba bd db ad da st ts tu ut su us (c0, c1, c2, c3, c4, c5)
      (t0, t1, t2, t3, t4, t5) =
    (
      lex_trans ab ba bd db ad da st tu su (c0, c1, c2, c3, c4, c5) t0,
      lex_trans ba ab ad da bd db ts su tu (c1, c0, c4, c5, c2, c3) t1,
      lex_trans ad da db bd ab ba su ut st (c2, c3, c0, c1, c5, c4) t2,
      lex_trans da ad ab ba db bd us st ut (c3, c2, c5, c4, c0, c1) t3,
      lex_trans bd db da ad ba ab tu us ts (c4, c5, c1, c0, c3, c2) t4,
      lex_trans db bd ba ab da ad ut ts us (c5, c4, c3, c2, c1, c0) t5,
    )

text_Consistent :
    (s t u : Text)
    → Consistent (text_lt s t) (text_lt t s) (text_lt t u) (text_lt u t) (text_lt s u) (text_lt u s)
unfolding text_lt
text_Consistent [] [] [] = ground arith
text_Consistent [] [] (c ∷ u) = ground arith
text_Consistent [] (b ∷ t) [] = ground arith
text_Consistent [] (b ∷ t) (c ∷ u) = ground arith
text_Consistent (a ∷ s) [] [] = ground arith
text_Consistent (a ∷ s) [] (c ∷ u) = ground arith
text_Consistent (a ∷ s) (b ∷ t) [] = ground arith
text_Consistent (a ∷ s) (b ∷ t) (c ∷ u) = ground (arith, text_Consistent s t u)

text_eq_lem : (s t : Text) → text_eq s t ≡ (not (text_lt s t) && not (text_lt t s))
unfolding text_eq text_lt
text_eq_lem [] [] = refl
text_eq_lem [] (b ∷ t) = refl
text_eq_lem (a ∷ s) [] = refl
text_eq_lem (a ∷ s) (b ∷ t) = ground (arith, text_eq_lem s t)

int_eq_lem : (a b : ℤ) → int_eq a b ≡ (not (int_lt a b) && not (int_lt b a))
int_eq_lem (pos a) (pos b) = ground arith
int_eq_lem (pos a) (negsuc b) = refl
int_eq_lem (negsuc a) (pos b) = refl
int_eq_lem (negsuc a) (negsuc b) = ground arith

-- A pattern of 64 bits that is not a NaN
abbrev pub IsNumber : ℕ → Type 0
IsNumber bits = (bits < 18446744073709551616) × (is_nan bits ≡ false)

double_eq_lem :
    (a b : ℕ)
    → IsNumber a
    → IsNumber b
    → double_eq a b ≡ (not (double_lt a b) && not (double_lt b a))
unfolding double_eq double_lt
double_eq_lem a b h k = ground arith

double_ge_trans :
    (a b d : ℕ)
    → IsNumber a
    → IsNumber b
    → IsNumber d
    → double_lt a b ≡ false
    → double_lt b d ≡ false
    → double_lt a d ≡ false
unfolding double_lt
double_ge_trans a b d h k l p q = ground arith

int_ge_trans : (a b d : ℤ) → int_lt a b ≡ false → int_lt b d ≡ false → int_lt a d ≡ false
int_ge_trans (pos a) (pos b) (pos d) p q = ground arith
int_ge_trans (pos a) (pos b) (negsuc d) p q = refl
int_ge_trans (pos a) (negsuc b) (pos d) p q = ground arith
int_ge_trans (pos a) (negsuc b) (negsuc d) p q = refl
int_ge_trans (negsuc a) (pos b) d p q = cc
int_ge_trans (negsuc a) (negsuc b) (pos d) p q = cc
int_ge_trans (negsuc a) (negsuc b) (negsuc d) p q = ground arith

unfoldable mutual
  -- No NaN and no parameter slot
  pub IsOrdered : Value → Type 0
  IsOrdered (double d) = IsNumber d
  IsOrdered (parameter i) = ⊥
  IsOrdered (composite vs) = AreOrdered vs
  IsOrdered _ = Unit

  pub AreOrdered : Values → Type 0
  AreOrdered nil = Unit
  AreOrdered (cons v vs) = IsOrdered v × AreOrdered vs

mutual
  unfolding value_eq value_lt IsOrdered

  value_eq_lem :
      (a b : Value)
      → IsOrdered a
      → IsOrdered b
      → value_eq a b ≡ (not (value_lt a b) && not (value_gt a b))
  value_eq_lem (int a) (int b) o p = int_eq_lem a b
  value_eq_lem (double a) (double b) o p = double_eq_lem a b o p
  value_eq_lem (string a) (string b) o p = text_eq_lem a b
  value_eq_lem (composite a) (composite b) o p = values_eq_lem a b o p
  value_eq_lem (parameter a) b o p = elim o [ ]
  value_eq_lem a (parameter b) o p = elim p [ ]
  value_eq_lem _ _ o p = refl

  values_eq_lem :
      (a b : Values)
      → AreOrdered a
      → AreOrdered b
      → values_eq a b ≡ (not (values_lt a b) && not (values_gt a b))
  values_eq_lem nil nil o p = refl
  values_eq_lem nil (cons b t) o p = refl
  values_eq_lem (cons a s) nil o p = refl
  values_eq_lem (cons a s) (cons b t) o p =
      ground (arith, value_eq_lem a b o.0 p.0, values_eq_lem s t o.1 p.1)

mutual
  unfolding value_lt IsOrdered

  value_Consistent :
      (a b d : Value)
      → IsOrdered a
      → IsOrdered b
      → IsOrdered d
      → Consistent
          (value_lt a b)
          (value_gt a b)
          (value_lt b d)
          (value_gt b d)
          (value_lt a d)
          (value_gt a d)
  value_Consistent (int a) (int b) (int d) o p q = (
    int_ge_trans a b d,
    int_ge_trans b a d,
    int_ge_trans a d b,
    int_ge_trans d a b,
    int_ge_trans b d a,
    int_ge_trans d b a,
  )
  value_Consistent (double a) (double b) (double d) o p q = (
    double_ge_trans a b d o p q,
    double_ge_trans b a d p o q,
    double_ge_trans a d b o q p,
    double_ge_trans d a b q o p,
    double_ge_trans b d a p q o,
    double_ge_trans d b a q p o,
  )
  value_Consistent (string a) (string b) (string d) o p q = text_Consistent a b d
  value_Consistent (composite a) (composite b) (composite d) o p q = values_Consistent a b d o p q
  value_Consistent _ _ _ o p q = ground arith

  values_Consistent :
      (a b d : Values)
      → AreOrdered a
      → AreOrdered b
      → AreOrdered d
      → Consistent
          (values_lt a b)
          (values_gt a b)
          (values_lt b d)
          (values_gt b d)
          (values_lt a d)
          (values_gt a d)
  values_Consistent nil nil nil o p q = ground arith
  values_Consistent nil nil (cons d u) o p q = ground arith
  values_Consistent nil (cons b t) nil o p q = ground arith
  values_Consistent nil (cons b t) (cons d u) o p q = ground arith
  values_Consistent (cons a s) nil nil o p q = ground arith
  values_Consistent (cons a s) nil (cons d u) o p q = ground arith
  values_Consistent (cons a s) (cons b t) nil o p q = ground arith
  values_Consistent (cons a s) (cons b t) (cons d u) o p q =
      lex-Consistent _ _ _ _ _ _ _ _ _ _ _ _ (value_Consistent a b d o.0 p.0 q.0)
        (values_Consistent s t u o.1 p.1 q.1)

-- A key of an index
abbrev pub Key : Type 0
Key = (v : Value) × IsOrdered v

-- The keys of a B+ tree
instance abbrev pub value_comparison : Comparison Value
value_comparison = record { lt = value_lt; eq = value_eq }

instance abbrev pub key_comparison : Comparison Key
key_comparison = record { lt = λ a b. value_lt a.0 b.0; eq = λ a b. value_eq a.0 b.0 }

-- Among values without NaN and parameter slots, composites of them included, `operator<` is a strict
-- weak order, and `operator==` holds exactly of two of which neither is below the other.
pub key_comparison-IsStrictWeak : IsStrictWeak key_comparison
key_comparison-IsStrictWeak = record {
  lt_asym = λ a b h. value_lt_asym a.0 b.0 h;
  ge_trans = λ a b d h k. (value_Consistent a.0 b.0 d.0 a.1 b.1 d.1).0 h k;
  eq_lem = λ a b.
      value_eq_lem a.0 b.0 a.1 b.1
      ∙ ap (λ g. not (value_lt a.0 b.0) && not g) (value_gt_lem a.0 b.0);
}
