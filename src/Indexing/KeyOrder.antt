-- ===== src/Indexing/KeyOrder.antt =====
-- The comparisons that the B+ tree makes of its keys, and what it relies on.
pub mod Values
use vertex_db.Base.{◌≡◌, Bool, true, false, not, ◌&&◌}

-- `<` and `==`
pub record Comparison {ℓ} (K : Type ℓ) : Type ℓ where
  pub lt : K → K → Bool
  pub eq : K → K → Bool

-- A strict weak order, and `==` for keys of which neither is below the other.
pub record IsStrictWeak {ℓ} {K : Type ℓ} (c : Comparison K) : Type ℓ where
  pub lt_asym : (a b : K) → c.lt a b ≡ true → c.lt b a ≡ false
  pub ge_trans : (a b d : K) → c.lt a b ≡ false → c.lt b d ≡ false → c.lt a d ≡ false
  pub eq_lem : (a b : K) → c.eq a b ≡ (not (c.lt a b) && not (c.lt b a))
