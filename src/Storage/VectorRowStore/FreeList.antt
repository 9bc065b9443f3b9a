-- ===== src/Storage/VectorRowStore/FreeList.antt =====
-- How often an identifier stands in a list, under the operations on the free list.
use vertex_db.Base.{
  ℕ, zero, suc, ◌+◌, ◌-◌, ◌<◌, ◌≡◌, refl, true, Option, none, some, List, [], ◌∷◌, ◌++◌, arith,
  ◌==◌, if◌then◌else◌, any, length, get_elem?, set, Option-cases, inl, inr,
}
use vertex_db.Common.Value.{Row}
use vertex_db.Storage.VectorRowStore.{unsnoc, erase_first}

unfoldable pub occurrences : ℕ → List ℕ → ℕ
occurrences id [] = 0
occurrences id (x ∷ xs) = if x == id then suc (occurrences id xs) else occurrences id xs

pub occurrences-append :
    (id : ℕ) (xs ys : List ℕ) → occurrences id (xs ++ ys) ≡ occurrences id xs + occurrences id ys
unfolding occurrences
occurrences-append id [] ys = omega arith
occurrences-append id (x ∷ xs) ys = ground (arith, occurrences-append id xs ys)

pub occurrences-snoc :
    (id x : ℕ) (xs : List ℕ)
    → occurrences id (xs ++ x ∷ []) ≡ occurrences id xs + (if x == id then 1 else 0)
unfolding occurrences
occurrences-snoc id x [] = ground arith
occurrences-snoc id x (y ∷ xs) = ground (arith, occurrences-snoc id x xs)

pub unsnoc-none {ℓ} : {A : Type ℓ} (xs : List A) → unsnoc xs ≡ none → xs ≡ []
unfolding unsnoc
unsnoc-none [] h = refl
unsnoc-none (x ∷ xs) h = ground arith

pub unsnoc-some {ℓ} :
    {A : Type ℓ} (xs : List A) (p : List A × A) → unsnoc xs ≡ some p → xs ≡ p.0 ++ p.1 ∷ []
unfolding unsnoc
unsnoc-some [] p h = cc
unsnoc-some (x ∷ xs) p h = elim (Option-cases (unsnoc xs)) [
  | inl e ↦ ground (arith, unsnoc-none xs e)
  | inr (q, e) ↦ ground (arith, unsnoc-some xs q e)
]

pub occurrences-erase_first :
    (id j : ℕ) (xs : List ℕ)
    → occurrences j (erase_first id xs)
      ≡ (if id == j then occurrences j xs - 1 else occurrences j xs)
unfolding occurrences erase_first
occurrences-erase_first id j [] = ground arith
occurrences-erase_first id j (x ∷ xs) = ground (arith, occurrences-erase_first id j xs)

-- `std::find` finds what occurs.
pub any-occurrences : (id : ℕ) (xs : List ℕ) → 0 < occurrences id xs → any (λ x. x == id) xs ≡ true
unfolding occurrences
any-occurrences id [] h = absurd (omega arith)
any-occurrences id (x ∷ xs) h = ground (arith, any-occurrences id xs)

-- A write to a slot, read back.
pub get_elem?-set :
    (slots : List (Option Row)) (i j : ℕ) (v : Option Row)
    → i < length slots
    → get_elem? (set slots i v) j ≡ (if i == j then some v else get_elem? slots j)
get_elem?-set [] i j v h = elim h [ ]
get_elem?-set (x ∷ slots) zero zero v h = ground arith
get_elem?-set (x ∷ slots) zero (suc j) v h = ground arith
get_elem?-set (x ∷ slots) (suc i) zero v h = ground arith
get_elem?-set (x ∷ slots) (suc i) (suc j) v h =
    ground (arith, get_elem?-set slots i j v (omega arith))

pub get_elem?-snoc :
    (slots : List (Option Row)) (j : ℕ) (v : Option Row)
    → get_elem? (slots ++ v ∷ []) j ≡ (if length slots == j then some v else get_elem? slots j)
get_elem?-snoc [] zero v = ground arith
get_elem?-snoc [] (suc j) v = ground arith
get_elem?-snoc (x ∷ slots) zero v = ground arith
get_elem?-snoc (x ∷ slots) (suc j) v = ground (arith, get_elem?-snoc slots j v)

-- A slot that can be read is in bounds.
pub in_bounds :
    (slots : List (Option Row)) (i : ℕ) (v : Option Row)
    → get_elem? slots i ≡ some v
    → i < length slots
in_bounds [] i v h = cc
in_bounds (x ∷ slots) zero v h = omega arith
in_bounds (x ∷ slots) (suc i) v h = omega (arith, in_bounds slots i v h)

pub out_of_bounds : (slots : List (Option Row)) → get_elem? slots (length slots) ≡ none
out_of_bounds [] = refl
out_of_bounds (x ∷ slots) = out_of_bounds slots
