-- ===== src/Storage/CheckEval/Nulls.antt =====
-- What is known of a CHECK predicate stays so when a NULL is filled in.
use vertex_db.Base.{
  ℕ, zero, suc, ◌≤◌, ◌≡◌, ◌≢◌, ◌⊎◌, refl, ap, sym, ◌∙◌, true, false, Option, none, some, [], ◌∷◌,
  Text, get_elem?, is_some, Option-cases, inl, inr, Bool-cases, arith,
}
use vertex_db.Common.Value.{Value, is_null, Row}
use vertex_db.Storage.CheckEval.{
  ComparisonPred, Predicate, comparison, both, either, in_list, in_subquery, exists, like, regex,
  TriBool, falsity, truth, unknown, ◌>>=◌, cell, compare_tri, eval_check_tri,
  assert_simple_check_constraint,
}
use vertex_db.Storage.CheckEval.Kleene.{
  HasOptional, rank, rank_or, Resolves, meaning, eval_check_tri-meaning,
}

-- The second row has the values of the first, and any where the first has NULL.
abbrev pub FillsIn : Row → Row → Type 0
FillsIn [] [] = Unit
FillsIn [] (w ∷ row') = ⊥
FillsIn (v ∷ row) [] = ⊥
FillsIn (v ∷ row) (w ∷ row') = ((is_null v ≡ true) ⊎ (w ≡ v)) × FillsIn row row'

get_filled :
    (row row' : Row) (i : ℕ) (v : Value)
    → FillsIn row row'
    → get_elem? row i ≡ some v
    → is_null v ≡ false
    → get_elem? row' i ≡ some v
get_filled [] row' i v f g n = absurd (ground arith)
get_filled (u ∷ row) [] i v f g n = elim f [ ]
get_filled (u ∷ row) (w ∷ row') zero v (inl h, f) g n = absurd (ground arith)
get_filled (u ∷ row) (w ∷ row') zero v (inr e, f) g n = ap some e ∙ g
get_filled (u ∷ row) (w ∷ row') (suc i) v f g n = get_filled row row' i v f.1 g n

rank_injective : (s t : TriBool) → rank s ≡ rank t → s ≡ t
rank_injective falsity falsity h = refl
rank_injective falsity unknown h = absurd (omega (arith, h))
rank_injective falsity truth h = absurd (omega (arith, h))
rank_injective unknown falsity h = absurd (omega (arith, h))
rank_injective unknown unknown h = refl
rank_injective unknown truth h = absurd (omega (arith, h))
rank_injective truth falsity h = absurd (omega (arith, h))
rank_injective truth unknown h = absurd (omega (arith, h))
rank_injective truth truth h = refl

present_filled :
    (row row' : Row) (i : ℕ)
    → FillsIn row row'
    → is_some (get_elem? row i) ≡ true
    → is_some (get_elem? row' i) ≡ true
present_filled [] row' i f h = absurd (ground arith)
present_filled (u ∷ row) [] i f h = elim f [ ]
present_filled (u ∷ row) (w ∷ row') zero f h = refl
present_filled (u ∷ row) (w ∷ row') (suc i) f h = present_filled row row' i f.1 h

module _ (lookup : Text → Option ℕ) where
  cell_present :
      (row row' : Row) (column : Text)
      → FillsIn row row'
      → is_some (cell lookup row column) ≡ true
      → is_some (cell lookup row' column) ≡ true
  unfolding cell
  cell_present row row' column f h = elim (Option-cases (lookup column)) [
    | inl e ↦ absurd (ground arith)
    | inr (i, e) ↦ rw e (
        present_filled row row' i f
          (ap (λ (o : Option ℕ). is_some (o >>= get_elem? row)) (sym e) ∙ h))
  ]

  cell_filled :
      (row row' : Row) (column : Text) (v : Value)
      → FillsIn row row'
      → cell lookup row column ≡ some v
      → is_null v ≡ false
      → cell lookup row' column ≡ some v
  unfolding cell
  cell_filled row row' column v f g n = elim (Option-cases (lookup column)) [
    | inl e ↦ absurd (ground arith)
    | inr (i, e) ↦
        rw e (get_filled row row' i v f (ap (λ (o : Option ℕ). o >>= get_elem? row) (sym e) ∙ g) n)
  ]

  optional_present :
      (row row' : Row) (o : Option Text)
      → FillsIn row row'
      → HasOptional lookup row o
      → HasOptional lookup row' o
  optional_present row row' none f h = tt
  optional_present row row' (some column) f h = cell_present row row' column f h

  compare_filled :
      {X : Type 0} (p : ComparisonPred X) (row row' : Row)
      → FillsIn row row'
      → rank_or (compare_tri lookup p row) ≢ 1
      → compare_tri lookup p row' ≡ compare_tri lookup p row
  unfolding compare_tri
  compare_filled p row row' f k = elim (Bool-cases (is_some p.expression)) [
    | inl s ↦ rw s refl
    | inr s ↦ elim (Option-cases (cell lookup row p.column)) [
      | inl e ↦ absurd (ground arith)
      | inr (v, e) ↦ elim (Bool-cases (is_null v)) [
        | inl n ↦ absurd (ground arith)
        | inr n ↦
            let e' = cell_filled row row' p.column v f e n in
            elim (Option-cases p.rhs_column) [
              | inl h ↦ rw s (rw e (rw e' (rw n (rw h refl))))
              | inr (column, h) ↦ elim (Option-cases (cell lookup row column)) [
                | inl g ↦ absurd (ground arith)
                | inr (u, g) ↦ elim (Bool-cases (is_null u)) [
                  | inl m ↦ absurd (ground arith)
                  | inr m ↦ rw s (
                      rw e (
                        rw e' (rw n (rw h (rw g (rw (cell_filled row row' column u f g m) refl))))))
                ]
              ]
            ]
      ]
    ]
  ]

  module _ {S X : Type 0} where
    meaning_bound : (p : Predicate S X) (row : Row) → meaning lookup p row ≤ 2
    unfolding meaning
    meaning_bound (comparison p) row = rank_bound (compare_tri lookup p row)
      where
        rank_bound : (o : Option TriBool) → rank_or o ≤ 2
        rank_bound none = omega arith
        rank_bound (some falsity) = omega arith
        rank_bound (some unknown) = omega arith
        rank_bound (some truth) = omega arith
    meaning_bound (both l r) row = omega (arith, meaning_bound l row, meaning_bound r row)
    meaning_bound (either l r) row = omega (arith, meaning_bound l row, meaning_bound r row)
    meaning_bound (in_list column values x o) row = omega arith
    meaning_bound (in_subquery column q o) row = omega arith
    meaning_bound (exists q o) row = omega arith
    meaning_bound (like column pattern o) row = omega arith
    meaning_bound (regex column pattern o) row = omega arith

    meaning_filled :
        (p : Predicate S X) (row row' : Row)
        → FillsIn row row'
        → meaning lookup p row ≢ 1
        → meaning lookup p row' ≡ meaning lookup p row
    unfolding meaning
    meaning_filled (comparison p) row row' f k = ap rank_or (compare_filled p row row' f k)
    meaning_filled (both l r) row row' f k = ground (
      arith,
      k,
      meaning_filled l row row' f,
      meaning_filled r row row' f,
      meaning_bound l row,
      meaning_bound r row,
      meaning_bound l row',
      meaning_bound r row',
    )
    meaning_filled (either l r) row row' f k = ground (
      arith,
      k,
      meaning_filled l row row' f,
      meaning_filled r row row' f,
      meaning_bound l row,
      meaning_bound r row,
      meaning_bound l row',
      meaning_bound r row',
    )
    meaning_filled (in_list column values x o) row row' f k = refl
    meaning_filled (in_subquery column q o) row row' f k = refl
    meaning_filled (exists q o) row row' f k = refl
    meaning_filled (like column pattern o) row row' f k = refl
    meaning_filled (regex column pattern o) row row' f k = refl

    Resolves-filled :
        (p : Predicate S X) (row row' : Row)
        → FillsIn row row'
        → Resolves lookup p row
        → Resolves lookup p row'
    unfolding Resolves
    Resolves-filled (comparison p) row row' f v =
        (cell_present row row' p.column f v.0, optional_present row row' p.rhs_column f v.1)
    Resolves-filled (both l r) row row' f v =
        (Resolves-filled l row row' f v.0, Resolves-filled r row row' f v.1)
    Resolves-filled (either l r) row row' f v =
        (Resolves-filled l row row' f v.0, Resolves-filled r row row' f v.1)
    Resolves-filled (in_list column values x o) row row' f v = tt
    Resolves-filled (in_subquery column q o) row row' f v = tt
    Resolves-filled (exists q o) row row' f v = tt
    Resolves-filled (like column pattern o) row row' f v = tt
    Resolves-filled (regex column pattern o) row row' f v = tt

    -- A CHECK predicate that assertSimpleCheckConstraint lets pass, and that is true or false of a row that has its
    -- columns, has the same value for a row in which NULLs of the first have been filled in: what
    -- NULL leaves open can be decided either way, and what it decides is final.
    pub eval_check_tri_filled :
        (p : Predicate S X) (row row' : Row) (t : TriBool)
        → assert_simple_check_constraint p ≡ true
        → Resolves lookup p row
        → FillsIn row row'
        → eval_check_tri lookup p row ≡ some t
        → t ≢ unknown
        → eval_check_tri lookup p row' ≡ some t
    eval_check_tri_filled p row row' t s v f e k =
        let (a, ea, ma) = eval_check_tri-meaning lookup p row s v in
        let (b, eb, mb) = eval_check_tri-meaning lookup p row' s (Resolves-filled p row row' f v) in
        let at : a ≡ t = ground (arith, e, ea) in
        let known : meaning lookup p row ≢ 1 =
          λ h. k (rank_injective t unknown (ap rank (sym at) ∙ ma ∙ h)) in
        eb
        ∙ ap some
            (rank_injective b t (mb ∙ meaning_filled p row row' f known ∙ sym ma ∙ ap rank at))
