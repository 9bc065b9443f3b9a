-- ===== src/Common/LikePattern/Suffixes.antt =====
-- Prefixes and infixes of a text, and the loop over its suffixes.
use vertex_db.Base.{
  Text, ◌≡◌, refl, ap, Bool, true, false, ◌&&◌, [], ◌∷◌, ◌++◌, arith, ◌==◌, any, Bool-cases, inl,
  inr,
}
use vertex_db.Common.LikePattern.{suffixes}

-- The text begins with the literal.
unfoldable pub starts_with : Text → Text → Bool
starts_with text [] = true
starts_with [] (c ∷ literal) = false
starts_with (a ∷ text) (c ∷ literal) = c == a && starts_with text literal

-- The literal stands somewhere in the text.
unfoldable pub contains : Text → Text → Bool
unfolding starts_with suffixes
contains text literal = any (λ s. starts_with s literal) (suffixes text)

-- A hit among the suffixes splits the text.
pub any-suffixes :
    (p : Text → Bool) (text : Text)
    → any p (suffixes text) ≡ true
    → (skipped : Text) × (rest : Text) × (text ≡ skipped ++ rest) × (p rest ≡ true)
unfolding suffixes
any-suffixes p [] h = ([], [], refl, ground arith)
any-suffixes p (a ∷ s) h = elim (Bool-cases (p (a ∷ s))) [
  | inl hit ↦ ([], a ∷ s, refl, hit)
  | inr miss ↦
      let (skipped, rest, e, k) = any-suffixes p s (ground arith) in
      (a ∷ skipped, rest, ap (◌∷◌ a) e, k)
]

-- And a split of the text is met by the loop.
pub any-suffixes_of :
    (p : Text → Bool) (skipped rest : Text)
    → p rest ≡ true
    → any p (suffixes (skipped ++ rest)) ≡ true
unfolding suffixes
any-suffixes_of p [] [] h = ground arith
any-suffixes_of p [] (a ∷ s) h = ground arith
any-suffixes_of p (a ∷ skipped) rest h = ground (arith, any-suffixes_of p skipped rest h)
