-- ===== src/Base/Dict.antt =====
-- `std::unordered_map` over a key type with an `operator==`: an association list.
use mathlib.Core.Path.{◌≡◌, refl}
use mathlib.Core.Bool.{true}
use mathlib.Core.Option.{Option, none, some}
use mathlib.Core.List.{List, [], ◌∷◌}
use native.Mathlib.Omega.{arith}
use vertex_db.Base.Tests.{if◌then◌else◌}
use vertex_db.Base.Keys.{Equality}

module _ {ℓ κ} {K : Type ℓ} {V : Type κ} ⦃e : Equality K⦄ where
  open e use {beq, beq_sym, beq_trans}

  unfoldable pub lookup : K → List (K × V) → Option V
  lookup k [] = none
  lookup k ((j, v) ∷ m) = if beq j k then some v else lookup k m

  -- d[k] = v: the entry of an equal key keeps its key
  unfoldable pub put : K → V → List (K × V) → List (K × V)
  put k v [] = (k, v) ∷ []
  put k v ((j, w) ∷ m) = if beq j k then (j, v) ∷ m else (j, w) ∷ put k v m

  unfoldable pub erase : K → List (K × V) → List (K × V)
  erase k [] = []
  erase k ((j, v) ∷ m) = let rest = erase k m in if beq j k then rest else (j, v) ∷ rest

  pub lookup-put :
      (k j : K) (v : V) (m : List (K × V))
      → lookup j (put k v m) ≡ (if beq k j then some v else lookup j m)
  unfolding lookup put
  lookup-put k j v [] = refl
  lookup-put k j v ((i, w) ∷ m) = ground (
    arith,
    lookup-put k j v m,
    beq_trans i k j,
    beq_sym i k,
    beq_trans k i j,
    beq_sym k j,
    beq_trans i j k,
  )

  pub lookup-erase :
      (k j : K) (m : List (K × V)) → lookup j (erase k m) ≡ (if beq k j then none else lookup j m)
  unfolding lookup erase
  lookup-erase k j [] = ground arith
  lookup-erase k j ((i, w) ∷ m) = ground (
    arith,
    lookup-erase k j m,
    beq_trans i k j,
    beq_sym i k,
    beq_trans k i j,
    beq_sym k j,
    beq_trans i j k,
  )

  -- Equal keys have the same entry.
  pub lookup_same : (k j : K) (m : List (K × V)) → beq k j ≡ true → lookup k m ≡ lookup j m
  unfolding lookup
  lookup_same k j [] h = refl
  lookup_same k j ((i, w) ∷ m) h =
      ground (arith, lookup_same k j m h, beq_trans i k j, beq_sym k j, beq_trans i j k)
