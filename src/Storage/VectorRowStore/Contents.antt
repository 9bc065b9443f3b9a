-- ===== src/Storage/VectorRowStore/Contents.antt =====
-- The row store as a partial map from row identifiers to rows: what each operation returns and what
-- `get` returns after it.
use vertex_db.Base.{
  ℕ, suc, ◌-◌, ◌<◌, ◌≡◌, refl, sym, ◌∙◌, true, Option, none, some, List, [], ◌∷◌, ◌++◌, arith, ◌==◌,
  if◌then◌else◌, length, get_elem?, set, is_some, Option-cases, inl, inr,
}
use vertex_db.Common.Value.{Row}
use vertex_db.Storage.VectorRowStore.{
  Store, unsnoc, erase_first, get, append, erase, update, revive, snapshot,
}
use vertex_db.Storage.VectorRowStore.FreeList.{
  get_elem?-set, get_elem?-snoc, in_bounds, out_of_bounds,
}
use vertex_db.Storage.VectorRowStore.Invariant.{IsWf, erase-IsWf, last_free, live_slot, revive_free}

-- An operation succeeded and now the identifier holds `slot`, or it failed and nothing changed.
abbrev pub Writes : Store → Store → ℕ → Option Row → Type 0
Writes s s' row_id slot = (j : ℕ) → get s' j ≡ (if row_id == j then slot else get s j)

get-set :
    (slots : List (Option Row)) (free_list : List ℕ) (n : ℕ) (s : Store) (i j : ℕ) (v : Option Row)
    → s.rows ≡ slots
    → i < length slots
    → get (record { rows = set slots i v; free_list = free_list; live_count = n }) j
      ≡ (if i == j then v else get s j)
unfolding get
get-set slots free_list n s i j v e h = ground (arith, get_elem?-set slots i j v h)

-- `append` to a well-formed store returns an identifier that held no row, and stores the row there
-- and nowhere else.
pub append_lem :
    (s : Store) (row : Row)
    → IsWf s
    → (get s (append s row).0 ≡ none) × Writes s (append s row).1 (append s row).0 (some row)
unfolding append
append_lem s row v = elim (Option-cases (unsnoc s.free_list)) [
  | inl e ↦
      rw (e, append)
        (unfold get in
          (
            ground (arith, out_of_bounds s.rows),
            λ j. ground (arith, get_elem?-snoc s.rows j (some row), out_of_bounds s.rows),
          ))
  | inr (p, e) ↦
      let slot = last_free s p v e in
      rw (e, append)
        (
          (unfold get in ground arith),
          λ j.
              get-set s.rows p.0 (suc s.live_count) s p.1 j (some row) refl
                (in_bounds s.rows p.1 none slot),
        )
]

-- `erase` succeeds exactly for a live row, which is gone afterwards; no other row changes.
pub erase_lem :
    (s : Store) (row_id : ℕ)
    → ((erase s row_id).0 ≡ is_some (get s row_id)) × Writes s (erase s row_id).1 row_id none
unfolding erase
erase_lem s row_id = elim (Option-cases (get s row_id)) [
  | inl e ↦ rw (e, erase) (refl, λ j. ground arith)
  | inr (old, e) ↦
      rw (e, erase)
        (
          refl,
          λ j.
              get-set s.rows (s.free_list ++ row_id ∷ []) (s.live_count - 1) s row_id j none refl
                (in_bounds s.rows row_id (some old) (live_slot s row_id old e)),
        )
]

-- `update` succeeds exactly for a live row and replaces it; otherwise nothing changes.
pub update_lem :
    (s : Store) (row_id : ℕ) (row : Row)
    → ((update s row_id row).0 ≡ is_some (get s row_id))
      × Writes s (update s row_id row).1 row_id (if is_some (get s row_id) then some row else none)
unfolding update
update_lem s row_id row = elim (Option-cases (get s row_id)) [
  | inl e ↦ rw (e, update) (refl, λ j. ground arith)
  | inr (old, e) ↦
      rw (e, update)
        (
          refl,
          λ j.
              get-set s.rows s.free_list s.live_count s row_id j (some row) refl
                (in_bounds s.rows row_id (some old) (live_slot s row_id old e)),
        )
]

-- The undo of an `erase` of a live row of a well-formed store: `revive` succeeds, and every
-- identifier holds what it held before.
pub revive-erase :
    (s : Store) (row_id : ℕ) (row : Row)
    → IsWf s
    → get s row_id ≡ some row
    → ((revive (erase s row_id).1 row_id row).0 ≡ true)
      × ((j : ℕ) → get (revive (erase s row_id).1 row_id row).1 j ≡ get s j)
revive-erase s row_id row v e =
    let s' = (erase s row_id).1 in
    let slot = erased_slot in
    rw (revive_free s' row_id row (erase-IsWf s row_id v) slot) (
      refl,
      λ j.
          get-set s'.rows (erase_first row_id s'.free_list) (suc s'.live_count) s' row_id j
            (some row) refl (in_bounds s'.rows row_id none slot)
          ∙ ground (arith, (erase_lem s row_id).1 j),
    )
  where
    erased_slot : get_elem? (erase s row_id).1.rows row_id ≡ some none
    erased_slot =
        unfold erase in
        ground (
          arith,
          get_elem?-set s.rows row_id row_id none
              (in_bounds s.rows row_id (some row) (live_slot s row_id row e)),
        )

-- The number of rows in a snapshot is the store's own count.
pub length-snapshot : (s : Store) → IsWf s → length (snapshot s) ≡ s.live_count
unfolding snapshot
length-snapshot s v = sym v.count
