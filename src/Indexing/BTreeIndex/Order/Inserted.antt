-- ===== src/Indexing/BTreeIndex/Order/Inserted.antt =====
-- Entries stay in order, and between bounds, when one is inserted.
use vertex_db.Base.{
  ℕ, suc, ◌≤◌, ◌≡◌, Option, [], ◌∷◌, length, arith, true, Bool-cases, inl, inr, All, Bool-cases,
}
use vertex_db.Indexing.KeyOrder.{Comparison, IsStrictWeak}
use vertex_db.Indexing.BTreeIndex.Entries.{Entries, IsSorted, insert_entry}
use vertex_db.Indexing.BTreeIndex.Trees.{From, Below, AllWithin}

module _ {K : Type 0} ⦃c : Comparison K⦄ where
  open c use {lt, eq}

  pub AllWithin-insert_entry :
      (lo hi : Option K) (key : K) (row_id : ℕ) (es : Entries K)
      → From lo key
      → Below hi key
      → AllWithin lo hi es
      → AllWithin lo hi (insert_entry key row_id es)
  unfolding insert_entry
  AllWithin-insert_entry lo hi key row_id [] f b a = ((f, b), tt)
  AllWithin-insert_entry lo hi key row_id ((k, rows) ∷ es) f b a = elim (Bool-cases (lt k key)) [
    | inl e ↦ rw e (a.0, AllWithin-insert_entry lo hi key row_id es f b a.1)
    | inr e ↦ elim (Bool-cases (eq k key)) [
      | inl q ↦ rw e (rw q a)
      | inr q ↦ rw e (rw q ((f, b), a))
    ]
  ]

  pub length-insert_entry :
      (key : K) (row_id : ℕ) (es : Entries K)
      → length (insert_entry key row_id es) ≤ suc (length es)
  unfolding insert_entry
  length-insert_entry key row_id [] = omega arith
  length-insert_entry key row_id ((k, rows) ∷ es) =
      ground (arith, length-insert_entry key row_id es)

  All-insert_entry :
      (j key : K) (row_id : ℕ) (es : Entries K)
      → lt j key ≡ true
      → All (λ e. lt j e.0 ≡ true) es
      → All (λ e. lt j e.0 ≡ true) (insert_entry key row_id es)
  unfolding insert_entry
  All-insert_entry j key row_id [] h a = (h, tt)
  All-insert_entry j key row_id ((k, rows) ∷ es) h a = elim (Bool-cases (lt k key)) [
    | inl e ↦ rw e (a.0, All-insert_entry j key row_id es h a.1)
    | inr e ↦ elim (Bool-cases (eq k key)) [ inl q ↦ rw e (rw q a) | inr q ↦ rw e (rw q (h, a)) ]
  ]

  module _ (w : IsStrictWeak c) where
    open w use {lt_asym, ge_trans, eq_lem}

    All-lt :
        (key k : K) (es : Entries K)
        → lt key k ≡ true
        → All (λ e. lt k e.0 ≡ true) es
        → All (λ e. lt key e.0 ≡ true) es
    All-lt key k [] h a = tt
    All-lt key k ((j, rows) ∷ es) h a =
        (ground (arith, ge_trans key j k, lt_asym k j, a.0, h), All-lt key k es h a.1)

    pub IsSorted-insert_entry :
        (key : K) (row_id : ℕ) (es : Entries K)
        → IsSorted es
        → IsSorted (insert_entry key row_id es)
    unfolding IsSorted insert_entry
    IsSorted-insert_entry key row_id [] s = (tt, tt)
    IsSorted-insert_entry key row_id ((k, rows) ∷ es) s = elim (Bool-cases (lt k key)) [
      | inl e ↦
          rw e (All-insert_entry k key row_id es e s.0, IsSorted-insert_entry key row_id es s.1)
      | inr e ↦ elim (Bool-cases (eq k key)) [
        | inl q ↦ rw e (rw q s)
        | inr q ↦
            let h : lt key k ≡ true = ground (arith, eq_lem k key) in
            rw e (rw q ((h, All-lt key k es h s.0), s))
      ]
    ]
