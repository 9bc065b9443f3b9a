-- ===== src/Base/OrderedMap.antt =====
-- `std::map` and `std::unordered_map` with numbers as keys: an association list in key order.
-- (An unordered map iterates in an order that is not specified; no result below depends on it.)
use Prim.Native.Nat.{ℕ}
use mathlib.Core.Path.{◌≡◌, refl}
use mathlib.Core.Option.{Option, none, some}
use mathlib.Core.List.{List, [], ◌∷◌}
use native.Mathlib.Omega.{arith}
use vertex_db.Base.Tests.{◌==◌, ltb, leb, if◌then◌else◌}

abbrev pub Map {ℓ} : Type ℓ → Type ℓ
Map V = List (ℕ × V)

module _ {ℓ} {V : Type ℓ} where
  -- m.find(k)
  unfoldable pub lookup : ℕ → Map V → Option V
  lookup k [] = none
  lookup k ((j, v) ∷ m) = if j == k then some v else lookup k m

  -- m[k] = v
  unfoldable pub put : ℕ → V → Map V → Map V
  put k v [] = (k, v) ∷ []
  put k v ((j, w) ∷ m) =
      if j == k then (k, v) ∷ m else if ltb k j then (k, v) ∷ (j, w) ∷ m else (j, w) ∷ put k v m

  -- m.erase(k)
  unfoldable pub erase : ℕ → Map V → Map V
  erase k [] = []
  erase k ((j, v) ∷ m) = let rest = erase k m in if j == k then rest else (j, v) ∷ rest

  -- m.emplace(k, v), which keeps an entry that is there
  unfoldable pub emplace : ℕ → V → Map V → Map V
  unfolding lookup put
  emplace k v m = elim (lookup k m) [ none ↦ put k v m | some w ↦ m ]

  -- Every entry with a key up to the bound is erased.
  unfoldable pub erase_upto : ℕ → Map V → Map V
  erase_upto b [] = []
  erase_upto b ((j, v) ∷ m) = let rest = erase_upto b m in if leb j b then rest else (j, v) ∷ rest

  pub lookup-put :
      (k j : ℕ) (v : V) (m : Map V) → lookup j (put k v m) ≡ (if k == j then some v else lookup j m)
  unfolding lookup put
  lookup-put k j v [] = refl
  lookup-put k j v ((i, w) ∷ m) = ground (arith, lookup-put k j v m)

  pub lookup-erase :
      (k j : ℕ) (m : Map V) → lookup j (erase k m) ≡ (if k == j then none else lookup j m)
  unfolding lookup erase
  lookup-erase k j [] = ground arith
  lookup-erase k j ((i, w) ∷ m) = ground (arith, lookup-erase k j m)

  pub lookup-emplace :
      (k j : ℕ) (v : V) (m : Map V)
      → lookup k m ≡ none
      → lookup j (emplace k v m) ≡ (if k == j then some v else lookup j m)
  unfolding emplace
  lookup-emplace k j v m h = ground (arith, lookup-put k j v m)

  pub lookup-erase_upto :
      (b j : ℕ) (m : Map V) → lookup j (erase_upto b m) ≡ (if leb j b then none else lookup j m)
  unfolding lookup erase_upto
  lookup-erase_upto b j [] = ground arith
  lookup-erase_upto b j ((i, w) ∷ m) = ground (arith, lookup-erase_upto b j m)

pub ruleset map_laws = (lookup-put, lookup-erase, lookup-erase_upto)
