-- ===== src/Common/Double.antt =====
-- `double` as C++ and IEEE 754 define it: its 64-bit pattern, with the comparisons on patterns.
use vertex_db.Base.{
  ℕ, ◌%◌, ◌≡◌, Bool, true, false, not, ◌&&◌, ◌||◌, arith, ltb, leb, ◌==◌, if◌then◌else◌,
}

-- The pattern without its sign bit.
abbrev pub magnitude : ℕ → ℕ
magnitude bits = bits % 9223372036854775808

abbrev pub is_negative : ℕ → Bool
is_negative bits = leb 9223372036854775808 bits

-- The exponent is all ones and the fraction is not zero.
abbrev pub is_nan : ℕ → Bool
is_nan bits = ltb 9218868437227405312 (magnitude bits)

-- 0.0 == -0.0, and a NaN equals nothing.
unfoldable pub double_eq : ℕ → ℕ → Bool
double_eq a b = not (is_nan a) && not (is_nan b) && (a == b || magnitude a == 0 && magnitude b == 0)

unfoldable pub double_lt : ℕ → ℕ → Bool
double_lt a b =
    not (is_nan a)
    && not (is_nan b)
    && (if is_negative a
        then (if is_negative b
            then ltb (magnitude b) (magnitude a)
            else not (magnitude a == 0 && magnitude b == 0))
        else (if is_negative b then false else ltb (magnitude a) (magnitude b)))

pub double_eq_sym : (a b : ℕ) → double_eq a b ≡ true → double_eq b a ≡ true
unfolding double_eq
double_eq_sym a b h = ground arith

pub double_eq_trans :
    (a b c : ℕ) → double_eq a b ≡ true → double_eq b c ≡ true → double_eq a c ≡ true
unfolding double_eq
double_eq_trans a b c h k = ground arith

pub double_lt_irrefl : (a : ℕ) → double_lt a a ≡ false
unfolding double_lt
double_lt_irrefl a = ground arith

pub double_lt_asym : (a b : ℕ) → double_lt a b ≡ true → double_lt b a ≡ false
unfolding double_lt
double_lt_asym a b h = ground arith
