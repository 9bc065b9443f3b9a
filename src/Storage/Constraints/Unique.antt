-- ===== src/Storage/Constraints/Unique.antt =====
-- A unique constraint is checked through an index on its columns, or by a scan of the live rows.
use vertex_db.Base.{
  ℕ, suc, ◌≡◌, ◌⊎◌, inl, inr, refl, ap, sym, ◌∙◌, Bool, true, false, ◌&&◌, ◌||◌, Option, none, some,
  List, [], ◌∷◌, Text, get_elem?, ◌==◌, length, Option-cases, Bool-cases, if◌then◌else◌, arith,
}
use vertex_db.Common.Value.{
  Value, Values, nil, cons, null, int, double, string, parameter, composite, Row, is_null, value_eq,
  values_eq, make_composite, has_null_composite_part, has_null_part,
}
use vertex_db.Common.Value.Equal.{value_eq_sym}
use vertex_db.Storage.Constraints.{
  parts_of, unique_key_for_row, unique_rows_equal, is_excluded, no_other_hit, no_other_equal,
  enforce_unique,
}
use vertex_db.Persistence.ValueCodec.{part_count}

value_eq_comm : (a b : Value) → value_eq a b ≡ value_eq b a
value_eq_comm a b = ground (arith, value_eq_sym a b, value_eq_sym b a)

null_not_eq : (l r : Value) → is_null l ≡ false → is_null r ≡ true → value_eq l r ≡ false
unfolding value_eq
null_not_eq null r n m = absurd (ground arith)
null_not_eq (int i) null n m = refl
null_not_eq (double d) null n m = refl
null_not_eq (string s) null n m = refl
null_not_eq (parameter i) null n m = refl
null_not_eq (composite vs) null n m = refl
null_not_eq l (int i) n m = absurd (ground arith)
null_not_eq l (double i) n m = absurd (ground arith)
null_not_eq l (string i) n m = absurd (ground arith)
null_not_eq l (parameter i) n m = absurd (ground arith)
null_not_eq l (composite i) n m = absurd (ground arith)

not_null : (v : Value) → has_null_composite_part v ≡ false → is_null v ≡ false
unfolding has_null_composite_part
not_null null h = absurd (ground arith)
not_null (int i) h = refl
not_null (double i) h = refl
not_null (string i) h = refl
not_null (parameter i) h = refl
not_null (composite i) h = refl

-- The key of some parts, and of others in the same number
key_eq :
    (us vs : Values) (key k : Value)
    → make_composite us ≡ some key
    → make_composite vs ≡ some k
    → part_count us ≡ part_count vs
    → has_null_composite_part key ≡ false
    → (has_null_part us ≡ false) × (value_eq k key ≡ values_eq us vs)
unfolding make_composite part_count value_eq has_null_composite_part
key_eq nil vs key k p q c h = absurd (ground arith)
key_eq (cons u nil) nil key k p q c h = absurd (ground arith)
key_eq (cons u nil) (cons v nil) key k p q c h = (ground arith, ground (arith, value_eq_comm u v))
key_eq (cons u nil) (cons v (cons v' vs)) key k p q c h = absurd (omega (arith, c))
key_eq (cons u (cons u' us)) nil key k p q c h = absurd (ground arith)
key_eq (cons u (cons u' us)) (cons v nil) key k p q c h = absurd (omega (arith, c))
key_eq (cons u (cons u' us)) (cons v (cons v' vs)) key k p q c h = (
  ground arith,
  ground (arith, value_eq_comm (composite (cons u (cons u' us))) (composite (cons v (cons v' vs)))),
)

unfoldable pub is_listed : ℕ → List ℕ → Bool
is_listed id [] = false
is_listed id (hit ∷ hits) = (hit == id) || is_listed id hits

no_other_hit-listed :
    (exclude : Option ℕ) (hits : List ℕ) (id : ℕ)
    → no_other_hit exclude hits ≡ true
    → is_listed id hits ≡ true
    → is_excluded exclude id ≡ true
unfolding no_other_hit is_listed
no_other_hit-listed exclude [] id h m = absurd (ground arith)
no_other_hit-listed exclude (hit ∷ hits) id h m =
    let ih = no_other_hit-listed exclude hits id in
    elim (Bool-cases (hit == id)) [
      | inl e ↦ let same : hit ≡ id = ground arith in rw (sym same) (ground arith)
      | inr e ↦ ih (ground arith) (ground arith)
    ]

listed-no_other_hit :
    (exclude : Option ℕ) (hits : List ℕ)
    → ((id : ℕ) → is_listed id hits ≡ true → is_excluded exclude id ≡ true)
    → no_other_hit exclude hits ≡ true
unfolding no_other_hit is_listed
listed-no_other_hit exclude [] h = refl
listed-no_other_hit exclude (hit ∷ hits) h =
    let rest = listed-no_other_hit exclude hits (λ id m. h id (ground arith)) in
    let first = h hit (ground arith) in rw first rest

-- Neither the order nor the repetition of the hits matters.
no_other_hit-members :
    (exclude : Option ℕ) (hits others : List ℕ)
    → ((id : ℕ) → is_listed id hits ≡ is_listed id others)
    → no_other_hit exclude hits ≡ no_other_hit exclude others
no_other_hit-members exclude hits others same =
    let to : no_other_hit exclude hits ≡ true → no_other_hit exclude others ≡ true = λ h.
      listed-no_other_hit exclude others
        (λ id m. no_other_hit-listed exclude hits id h (same id ∙ m)) in
    let from : no_other_hit exclude others ≡ true → no_other_hit exclude hits ≡ true = λ h.
      listed-no_other_hit exclude hits
        (λ id m. no_other_hit-listed exclude others id h (sym (same id) ∙ m)) in
    ground (arith, to, from)

module _ (lookup : Text → Option ℕ) where
  -- The part for a column, and the parts for the columns after it
  first_part :
      (c : Text) (columns : List Text) (row : Row) (vs : Values)
      → parts_of lookup (c ∷ columns) row ≡ some vs
      → (i : ℕ) × (v : Value) × (ws : Values) × (lookup c ≡ some i)
        × (get_elem? row i ≡ some v)
        × (parts_of lookup columns row ≡ some ws)
        × (vs ≡ cons v ws)
  unfolding parts_of
  first_part c columns row vs h = elim (Option-cases (lookup c)) [
    | inl e ↦ absurd (ground arith)
    | inr (i, e) ↦ elim (Option-cases (get_elem? row i)) [
      | inl g ↦ absurd (ground arith)
      | inr (v, g) ↦ elim (Option-cases (parts_of lookup columns row)) [
        | inl p ↦ absurd (ground arith)
        | inr (ws, p) ↦ (i, v, ws, e, g, p, ground arith)
      ]
    ]
  ]

  part_count-parts_of :
      (columns : List Text) (row : Row) (vs : Values)
      → parts_of lookup columns row ≡ some vs
      → part_count vs ≡ length columns
  unfolding part_count
  part_count-parts_of [] row vs h = unfold parts_of in ground arith
  part_count-parts_of (c ∷ columns) row vs h =
      let (i, v, ws, e, g, p, q) = first_part c columns row vs h in
      rw q (ap suc (part_count-parts_of columns row ws p))

  unique_rows_equal-cons :
      (c : Text) (columns : List Text) (left right : Row) (i : ℕ) (u v : Value) (equal : Bool)
      → lookup c ≡ some i
      → get_elem? left i ≡ some u
      → get_elem? right i ≡ some v
      → is_null u ≡ false
      → unique_rows_equal lookup columns left right ≡ some equal
      → unique_rows_equal lookup (c ∷ columns) left right ≡ some (value_eq u v && equal)
  unfolding unique_rows_equal
  unique_rows_equal-cons c columns left right i u v equal e f g n h =
      rw (e, unique_rows_equal) rw f rw g rw n rw h
        elim (Bool-cases (is_null v)) [
          | inl t ↦ rw t rw (null_not_eq u v n t) refl
          | inr t ↦ rw t elim (Bool-cases (value_eq u v)) [ inl w ↦ rw w refl | inr w ↦ rw w refl ]
        ]

  unique_rows_equal-parts :
      (columns : List Text) (left right : Row) (us vs : Values)
      → parts_of lookup columns left ≡ some us
      → parts_of lookup columns right ≡ some vs
      → has_null_part us ≡ false
      → unique_rows_equal lookup columns left right ≡ some (values_eq us vs)
  unfolding values_eq
  unique_rows_equal-parts [] left right us vs p q h =
      unfold parts_of unique_rows_equal in ground arith
  unique_rows_equal-parts (c ∷ columns) left right us vs p q h =
      let (i, u, us', e, g, p', a) = first_part c columns left us p in
      let (j, v, vs', d, f, q', b) = first_part c columns right vs q in
      let same : i ≡ j = ground arith in
      let f' : get_elem? right i ≡ some v = rw same f in
      let here : has_null_part (cons u us') ≡ false = rw (sym a) h in
      let present : is_null u ≡ false = not_null u (unfold has_null_part in ground arith) in
      let later : has_null_part us' ≡ false = unfold has_null_part in ground arith in
      let rest = unique_rows_equal-parts columns left right us' vs' p' q' later in
      rw a rw b
        (unique_rows_equal-cons c columns left right i u v (values_eq us' vs') e g f' present rest)

  -- Some live rows have a key for a constraint
  pub data HasKeys (columns : List Text) : List (ℕ × Row) → Type 0 where
    no_rows : HasKeys columns []
    and_row :
        {id : ℕ} {existing : Row} {live : List (ℕ × Row)} {vs : Values} {k : Value}
        → parts_of lookup columns existing ≡ some vs
        → make_composite vs ≡ some k
        → HasKeys columns live
        → HasKeys columns ((id, existing) ∷ live)

  -- What an index on the columns holds under a key: the live rows that have the key
  unfoldable pub ids_with_key : List Text → Value → List (ℕ × Row) → List ℕ
  unfolding unique_key_for_row
  ids_with_key columns key [] = []
  ids_with_key columns key ((id, existing) ∷ live) =
      let rest = ids_with_key columns key live in
      elim (unique_key_for_row lookup columns existing) [
        | none ↦ rest
        | some k ↦ if value_eq k key then id ∷ rest else rest
      ]

  ids_with_key-parts :
      (columns : List Text) (us : Values) (key : Value)
      → make_composite us ≡ some key
      → has_null_composite_part key ≡ false
      → part_count us ≡ length columns
      → (row : Row) (exclude : Option ℕ) (live : List (ℕ × Row))
      → parts_of lookup columns row ≡ some us
      → HasKeys columns live
      → no_other_equal lookup columns row exclude live
        ≡ some (no_other_hit exclude (ids_with_key columns key live))
  unfolding no_other_equal no_other_hit ids_with_key
  ids_with_key-parts columns us key p h n row exclude [] r k = refl
  ids_with_key-parts columns us key p h n row exclude ((id, existing) ∷ live) r
        (and_row {vs = vs} {k = k} e m rest) =
      let ih = ids_with_key-parts columns us key p h n row exclude live r rest in
      let (present, same) =
        key_eq us vs key k p m (n ∙ sym (part_count-parts_of columns existing vs e)) h in
      let equal = unique_rows_equal-parts columns row existing us vs r e present in
      let found : unique_key_for_row lookup columns existing ≡ some k =
        unfold unique_key_for_row in rw e m in
      rw ih rw equal rw (found, ids_with_key) rw same
        elim (Bool-cases (values_eq us vs)) [
          | inl w ↦
              rw w
                elim (Bool-cases (is_excluded exclude id)) [ inl x ↦ rw x refl | inr x ↦ rw x refl ]
          | inr w ↦
              rw w
                elim (Bool-cases (is_excluded exclude id)) [ inl x ↦ rw x refl | inr x ↦ rw x refl ]
        ]

  -- Take live rows that all have the columns of a constraint, and an index lookup that answers a key
  -- without NULL parts either with nothing, as there is no index, or with identifiers that are, in any
  -- order, those of the live rows with an equal key. Then the check of a row against the constraint,
  -- with one row excluded or none, has the outcome that the scan of the live rows has.
  pub enforce_unique-indexed :
      (indexed_lookup : List Text → Value → Option (List ℕ)) (columns : List Text) (row : Row)
      (exclude : Option ℕ) (live : List (ℕ × Row))
      → ((key : Value)
          → has_null_composite_part key ≡ false
          → (indexed_lookup columns key ≡ none)
            ⊎ ((hits : List ℕ) × (indexed_lookup columns key ≡ some hits)
                × ((id : ℕ) → is_listed id hits ≡ is_listed id (ids_with_key columns key live))))
      → HasKeys columns live
      → enforce_unique lookup indexed_lookup live columns row exclude
        ≡ enforce_unique lookup (λ _ _. none) live columns row exclude
  unfolding enforce_unique unique_key_for_row
  enforce_unique-indexed indexed_lookup columns row exclude live answers keys =
      elim (Option-cases (parts_of lookup columns row)) [
        | inl e ↦ rw e refl
        | inr (us, e) ↦ elim (Option-cases (make_composite us)) [
          | inl m ↦ rw e rw m refl
          | inr (key, m) ↦ rw e rw m elim (Bool-cases (has_null_composite_part key)) [
            | inl h ↦ rw h refl
            | inr h ↦ rw h elim (answers key h) [
              | inl a ↦ rw a refl
              | inr (hits, a, same) ↦
                  rw a rw (no_other_hit-members exclude hits (ids_with_key columns key live) same) (
                    sym (
                      ids_with_key-parts columns us key m h (part_count-parts_of columns row us e)
                        row exclude live e keys))
            ]
          ]
        ]
      ]
