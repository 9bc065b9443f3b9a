-- ===== src/Transactions/Conflict/Keys.antt =====
-- Conflict keys tell relation and row apart, and `intersects` finds a common key.
use vertex_db.Base.{
  ℕ, zero, suc, ◌+◌, ◌-◌, ◌*◌, ◌<◌, ◌/◌, ◌%◌, Text, text_eq→eq, text_eq_refl, ◌≡◌, refl, sym, ap,
  ◌∙◌, Bool, true, false, ◌||◌, List, [], ◌∷◌, ◌++◌, arith, ◌==◌, any,
}
use vertex_db.Transactions.Conflict.{
  to_digits, to_string, conflict_key, contains_key, insert_key, intersects,
}

-- The number that decimal digits stand for.
read_digits : ℕ → Text → ℕ
read_digits acc [] = acc
read_digits acc (c ∷ s) = read_digits (acc * 10 + (c - 48)) s

read_digits-append :
    (acc : ℕ) (s : Text) (c : ℕ) → read_digits acc (s ++ c ∷ []) ≡ read_digits acc s * 10 + (c - 48)
unfolding read_digits
read_digits-append acc [] c = refl
read_digits-append acc (a ∷ s) c = read_digits-append (acc * 10 + (a - 48)) s c

read-to_digits : (fuel n : ℕ) → n < fuel → read_digits 0 (to_digits fuel n) ≡ n
unfolding to_digits read_digits
read-to_digits zero n h = elim h [ ]
read-to_digits (suc fuel) n h = ground (
  arith,
  read-to_digits fuel (n / 10),
  read_digits-append 0 (to_digits fuel (n / 10)) (48 + n % 10),
)

pub to_string_injective : (m n : ℕ) → to_string m ≡ to_string n → m ≡ n
unfolding to_string
to_string_injective m n e =
    sym (read-to_digits (suc m) m (omega arith))
    ∙ ap (read_digits 0) e
    ∙ read-to_digits (suc n) n (omega arith)

has_zero : Text → Bool
has_zero [] = false
has_zero (a ∷ s) = a == 0 || has_zero s

has_zero-append : (s t : Text) → has_zero (s ++ t) ≡ (has_zero s || has_zero t)
unfolding has_zero
has_zero-append [] t = refl
has_zero-append (a ∷ s) t = ground (arith, has_zero-append s t)

has_zero-to_digits : (fuel n : ℕ) → has_zero (to_digits fuel n) ≡ false
unfolding has_zero to_digits
has_zero-to_digits zero n = refl
has_zero-to_digits (suc fuel) n = ground (
  arith,
  has_zero-to_digits fuel (n / 10),
  has_zero-append (to_digits fuel (n / 10)) ((48 + n % 10) ∷ []),
)

-- The last zero byte ends the relation, whatever bytes its name has.
split_unique :
    (r r' d d' : Text)
    → has_zero d ≡ false
    → has_zero d' ≡ false
    → r ++ 0 ∷ d ≡ r' ++ 0 ∷ d'
    → (r ≡ r') × (d ≡ d')
unfolding has_zero
split_unique [] [] d d' h k e = (refl, cc)
split_unique [] (a ∷ r') d d' h k e = ground (arith, has_zero-append r' (0 ∷ d'))
split_unique (a ∷ r) [] d d' h k e = ground (arith, has_zero-append r (0 ∷ d))
split_unique (a ∷ r) (b ∷ r') d d' h k e = ground (arith, split_unique r r' d d')

-- Two conflict keys are the same only for the same relation and the same row.
pub conflict_key_injective :
    (relation relation' : Text) (row row' : ℕ)
    → conflict_key relation row ≡ conflict_key relation' row'
    → (relation ≡ relation') × (row ≡ row')
unfolding conflict_key
conflict_key_injective relation relation' row row' e =
    let (r, d) =
      split_unique relation relation' (to_string row) (to_string row')
        (unfold to_string in has_zero-to_digits (suc row) row)
        (unfold to_string in has_zero-to_digits (suc row') row') e in
    (r, to_string_injective row row' d)

-- The loop finds a key that both sets have.
any-contains_key :
    (key : Text) (left right : List Text)
    → contains_key left key ≡ true
    → contains_key right key ≡ true
    → any (contains_key right) left ≡ true
any-contains_key key [] right h k = cc
any-contains_key key (x ∷ left) right h k =
    ground (arith, text_eq→eq x key, any-contains_key key left right)

pub intersects_of :
    (key : Text) (left right : List Text)
    → contains_key left key ≡ true
    → contains_key right key ≡ true
    → intersects left right ≡ true
unfolding intersects
intersects_of key left right h k =
    ground (arith, any-contains_key key left right h k, any-contains_key key right left k h)

pub contains_key-insert_key :
    (key : Text) (keys : List Text) → contains_key (insert_key key keys) key ≡ true
unfolding insert_key
contains_key-insert_key key keys = ground (arith, text_eq_refl key)
