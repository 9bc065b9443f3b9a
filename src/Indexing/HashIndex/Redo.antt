-- ===== src/Indexing/HashIndex/Redo.antt =====
-- Redo: applying the dirty buckets of an index to the state that it had when it was last clean
-- gives an index that answers every `find` alike.
use vertex_db.Base.{
  ℕ, ◌≡◌, refl, sym, ap, ◌∙◌, Bool, true, false, Option, none, some, List, [], ◌∷◌, arith,
  if◌then◌else◌, Option-cases, Bool-cases, inl, inr, is_some,
}
use vertex_db.Base.Dict.{lookup, put, erase, lookup-put, lookup_same}
use vertex_db.Common.Value.{Value, value_eq}
use vertex_db.Common.Value.Equal.{value_equality}
use vertex_db.Indexing.HashIndex.{
  HashIndex, Buckets, bucket, find, insert, remove, clear, emplace_all, replace_from_buckets,
  dirty_buckets, take_dirty_buckets, apply_loop, apply_dirty_buckets,
}
use vertex_db.Indexing.HashIndex.Lookup.{
  List-cases, bucket_same, bucket-put, bucket-erase, find-insert, find-remove,
}

-- The changes that are made to an index.
pub data Change : Type 0 where
  inserts removes : Value → ℕ → Change
  clears : Change

unfoldable pub change : HashIndex → Change → HashIndex
unfolding insert remove clear
change x (inserts key row_id) = insert x key row_id
change x (removes key row_id) = remove x key row_id
change x clears = clear x

unfoldable pub change_all : HashIndex → List Change → HashIndex
unfolding change
change_all x [] = x
change_all x (c ∷ cs) = change_all (change x c) cs

abbrev is_dirty : HashIndex → Value → Bool
is_dirty x j = is_some (lookup j x.dirty_keys)

-- A key that is not marked has the bucket of the base.
abbrev InSync : HashIndex → HashIndex → Type 0
InSync base x =
    (j : Value) → x.full_replace_dirty ≡ false → is_dirty x j ≡ false → find x j ≡ find base j

insert-InSync :
    (base x : HashIndex) (key : Value) (row_id : ℕ)
    → InSync base x
    → InSync base (insert x key row_id)
insert-InSync base x key row_id h j f d =
    find-insert x key j row_id
    ∙ (unfold insert in ground (arith, lookup-put key j true x.dirty_keys, h j))

removed_none :
    (x : HashIndex) (key : Value) (row_id : ℕ)
    → lookup key x.entries ≡ none
    → remove x key row_id ≡ x
unfolding remove
removed_none x key row_id e = ground arith

removed_some :
    (x : HashIndex) (key : Value) (row_id : ℕ) (ids : List ℕ)
    → lookup key x.entries ≡ some ids
    → ((remove x key row_id).dirty_keys ≡ put key true x.dirty_keys)
      × ((remove x key row_id).full_replace_dirty ≡ x.full_replace_dirty)
unfolding remove
removed_some x key row_id ids e = ground arith

remove-InSync :
    (base x : HashIndex) (key : Value) (row_id : ℕ)
    → InSync base x
    → InSync base (remove x key row_id)
remove-InSync base x key row_id h j f d = elim (Option-cases (lookup key x.entries)) [
  | inl e ↦ rw (removed_none x key row_id e) (
      h j (ap (λ (y : HashIndex). y.full_replace_dirty) (sym (removed_none x key row_id e)) ∙ f)
        (ap (λ (y : HashIndex). is_dirty y j) (sym (removed_none x key row_id e)) ∙ d))
  | inr (ids, e) ↦
      let (marked, flag) = removed_some x key row_id ids e in
      find-remove x key j row_id
      ∙ ground (arith, lookup-put key j true x.dirty_keys, ap (lookup j) marked, h j (sym flag ∙ f))
]

change-InSync : (base x : HashIndex) (c : Change) → InSync base x → InSync base (change x c)
unfolding change
change-InSync base x (inserts key row_id) h = insert-InSync base x key row_id h
change-InSync base x (removes key row_id) h = remove-InSync base x key row_id h
change-InSync base x clears h = λ j f d. unfold clear in cc

change_all-InSync :
    (base x : HashIndex) (cs : List Change) → InSync base x → InSync base (change_all x cs)
unfolding change_all
change_all-InSync base x [] h = h
change_all-InSync base x (c ∷ cs) h =
    change_all-InSync base (change x c) cs (change-InSync base x c h)

lookup_cons {ℓ} :
    {V : Type ℓ} (key j : Value) (v : V) (rest : List (Value × V))
    → lookup j ((key, v) ∷ rest) ≡ (if value_eq key j then some v else lookup j rest)
unfolding lookup
lookup_cons key j v rest = refl

lookup_none : (j : Value) → ◌≡◌ {A = Option (List ℕ)} (lookup j []) none
unfolding lookup
lookup_none j = refl

-- After the loop a marked key has the bucket that was sent, and any other its own.
bucket-apply_loop :
    (source entries : Buckets) (dirty : List (Value × Bool)) (j : Value)
    → bucket j (apply_loop entries (dirty_buckets source dirty))
      ≡ (if is_some (lookup j dirty) then bucket j source else bucket j entries)
unfolding apply_loop dirty_buckets
bucket-apply_loop source entries [] j = unfold lookup in refl
bucket-apply_loop source entries ((key, flag) ∷ dirty) j = elim (List-cases (bucket key source)) [
  | inl gone ↦ rw gone (
      bucket-apply_loop source (erase key entries) dirty j
      ∙ ground (
        arith,
        lookup_cons key j flag dirty,
        bucket-erase key j entries,
        bucket_same key j source,
      ))
  | inr (id, rest, there) ↦ rw there (
      bucket-apply_loop source (put key (id ∷ rest) entries) dirty j
      ∙ ground (
        arith,
        lookup_cons key j flag dirty,
        bucket-put key j (id ∷ rest) entries,
        bucket_same key j source,
      ))
]

lookup-emplace_all :
    (entries buckets : Buckets) (j : Value)
    → lookup j (emplace_all entries buckets)
      ≡ elim (lookup j entries) [ none ↦ lookup j buckets | some ids ↦ some ids ]
unfolding emplace_all
lookup-emplace_all entries [] j = ground (arith, lookup_none j)
lookup-emplace_all entries ((key, ids) ∷ rest) j = elim (Option-cases (lookup key entries)) [
  | inl e ↦ rw e (
      lookup-emplace_all (put key ids entries) rest j
      ∙ ground (
        arith,
        lookup_cons key j ids rest,
        lookup-put key j ids entries,
        lookup_same key j entries,
      ))
  | inr (old, e) ↦ rw e (
      lookup-emplace_all entries rest j
      ∙ ground (arith, lookup_cons key j ids rest, lookup_same key j entries))
]

apply_taken :
    (base x : HashIndex) (j : Value)
    → InSync base x
    → find (apply_dirty_buckets base (take_dirty_buckets x).0) j ≡ find x j
unfolding find apply_dirty_buckets take_dirty_buckets replace_from_buckets
apply_taken base x j h = elim (Bool-cases x.full_replace_dirty) [
  | inl full ↦ rw full (ground (arith, lookup-emplace_all [] x.entries j, lookup_none j))
  | inr part ↦
      rw part (bucket-apply_loop x.entries base.entries x.dirty_keys j ∙ ground (arith, h j part))
]

-- However an index was changed, applying the changes that it reports to the index that it was before
-- gives one that finds the same rows, in the same order, under every key.
pub apply_dirty_buckets-take_dirty_buckets :
    (base : HashIndex) (cs : List Change) (j : Value)
    → find (apply_dirty_buckets base (take_dirty_buckets (change_all base cs)).0) j
      ≡ find (change_all base cs) j
apply_dirty_buckets-take_dirty_buckets base cs j =
    apply_taken base (change_all base cs) j (change_all-InSync base base cs (λ k f d. refl))
