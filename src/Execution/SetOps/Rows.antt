-- ===== src/Execution/SetOps/Rows.antt =====
-- `operator==` on rows, that of std::vector.
use vertex_db.Base.{◌≡◌, refl, Bool, true, false, ◌&&◌, [], ◌∷◌, arith, Equality}
use vertex_db.Common.Value.{Row, value_eq}
use vertex_db.Common.Value.Equal.{value_eq_sym, value_eq_trans}

unfoldable pub row_eq : Row → Row → Bool
row_eq [] [] = true
row_eq [] (b ∷ t) = false
row_eq (a ∷ s) [] = false
row_eq (a ∷ s) (b ∷ t) = value_eq a b && row_eq s t

pub row_eq_sym : (r s : Row) → row_eq r s ≡ true → row_eq s r ≡ true
unfolding row_eq
row_eq_sym [] [] h = refl
row_eq_sym [] (b ∷ t) h = cc
row_eq_sym (a ∷ s) [] h = cc
row_eq_sym (a ∷ s) (b ∷ t) h = ground (arith, value_eq_sym a b, row_eq_sym s t)

pub row_eq_trans : (r s t : Row) → row_eq r s ≡ true → row_eq s t ≡ true → row_eq r t ≡ true
unfolding row_eq
row_eq_trans [] [] t h k = k
row_eq_trans [] (b ∷ s) t h k = cc
row_eq_trans (a ∷ r) [] t h k = cc
row_eq_trans (a ∷ r) (b ∷ s) [] h k = cc
row_eq_trans (a ∷ r) (b ∷ s) (c ∷ t) h k = ground (arith, value_eq_trans a b c, row_eq_trans r s t)

instance abbrev pub row_equality : Equality Row
row_equality = record { beq = row_eq; beq_sym = row_eq_sym; beq_trans = row_eq_trans }
